-- ===== src/Limit/Table.antt =====
-- The map of a limiter: entries under distinct keys.
use auditloop.Base.{
  ℕ, ◌≡◌, refl, sym, ◌∙◌, inl, inr, Bool, true, false, ◌||◌, Option, none, some, [], ◌∷◌, map,
  arith, if◌then◌else◌, Bool-cases, Str, eqb, eqb_iff, eqb_refl, one_of, keep_if,
}
use auditloop.Base.Text.Order.{HasNoRepeats}
use auditloop.Limit.{Entries, look_up, put}

abbrev pub key_of : Str × ℕ → Str
key_of e = e.0

abbrev pub HasDistinctKeys : Entries → Type 0
HasDistinctKeys es = HasNoRepeats (map key_of es)

pub look_up-put :
    (k j : Str) (t : ℕ) (es : Entries)
    → look_up k (put j t es) ≡ (if eqb j k then some t else look_up k es)
look_up-put k j t [] = refl
look_up-put k j t ((i, u) ∷ es) = elim (Bool-cases (eqb i j)) [
  | inl e ↦
      let same : i ≡ j = (eqb_iff i j).0 e in
      elim (Bool-cases (eqb j k)) [
        | inl q ↦ rw (e, q) refl
        | inr q ↦ let q' : eqb i k ≡ false = rw same q in rw (e, q, q') refl
      ]
  | inr e ↦ elim (Bool-cases (eqb i k)) [
    | inl q ↦
        let same : i ≡ k = (eqb_iff i k).0 q in
        elim (Bool-cases (eqb j k)) [
          | inl p ↦
              let r = eqb_refl i in
              let there : j ≡ i = (eqb_iff j k).0 p ∙ sym same in absurd (cc (e, r, there))
          | inr p ↦ rw (e, q, p) refl
        ]
    | inr q ↦ rw (e, q) (look_up-put k j t es)
  ]
]

one_of-put :
    (k j : Str) (t : ℕ) (es : Entries)
    → one_of k (map key_of (put j t es)) ≡ (eqb k j || one_of k (map key_of es))
unfolding one_of
one_of-put k j t [] = refl
one_of-put k j t ((i, u) ∷ es) = elim (Bool-cases (eqb i j)) [
  | inl e ↦ let same : i ≡ j = (eqb_iff i j).0 e in rw (e, same) (ground arith)
  | inr e ↦ rw e (ground (arith, one_of-put k j t es))
]

pub put-HasDistinctKeys :
    (j : Str) (t : ℕ) (es : Entries) → HasDistinctKeys es → HasDistinctKeys (put j t es)
unfolding one_of
put-HasDistinctKeys j t [] h = (refl, tt)
put-HasDistinctKeys j t ((i, u) ∷ es) (n, h) = elim (Bool-cases (eqb i j)) [
  | inl e ↦ let same : i ≡ j = (eqb_iff i j).0 e in rw e (rw same at n, h)
  | inr e ↦ rw e (one_of-put i j t es ∙ ground arith, put-HasDistinctKeys j t es h)
]

-- A key that is not there is not found.
look_up_out : (k : Str) (es : Entries) → one_of k (map key_of es) ≡ false → look_up k es ≡ none
unfolding one_of
look_up_out k [] h = refl
look_up_out k ((j, u) ∷ es) h = elim (Bool-cases (eqb j k)) [
  | inl e ↦
      let r = eqb_refl j in
      let same = (eqb_iff j k).0 e in
      let n : eqb k j ≡ false = ground arith in absurd (cc (n, r, same))
  | inr e ↦ rw e (look_up_out k es (ground arith))
]

abbrev pub kept_if : (Str × ℕ → Bool) → Str → Option ℕ → Option ℕ
kept_if p k none = none
kept_if p k (some t) = if p (k, t) then some t else none

module _ (p : Str × ℕ → Bool) where
  one_of_kept :
      (k : Str) (es : Entries)
      → one_of k (map key_of es) ≡ false
      → one_of k (map key_of (keep_if p es)) ≡ false
  unfolding one_of
  one_of_kept k [] h = refl
  one_of_kept k ((j, u) ∷ es) h = elim (Bool-cases (p (j, u))) [
    | inl e ↦ let rest = one_of_kept k es (ground arith) in rw e (ground arith)
    | inr e ↦ rw e (one_of_kept k es (ground arith))
  ]

  pub keep_if-HasDistinctKeys : (es : Entries) → HasDistinctKeys es → HasDistinctKeys (keep_if p es)
  keep_if-HasDistinctKeys [] h = tt
  keep_if-HasDistinctKeys ((j, u) ∷ es) (n, h) = elim (Bool-cases (p (j, u))) [
    | inl e ↦ rw e (one_of_kept j es n, keep_if-HasDistinctKeys es h)
    | inr e ↦ rw e (keep_if-HasDistinctKeys es h)
  ]

  pub look_up-keep_if :
      (k : Str) (es : Entries)
      → HasDistinctKeys es
      → look_up k (keep_if p es) ≡ kept_if p k (look_up k es)
  look_up-keep_if k [] h = refl
  look_up-keep_if k ((j, u) ∷ es) (n, h) = elim (Bool-cases (eqb j k)) [
    | inr e ↦ elim (Bool-cases (p (j, u))) [
      | inl q ↦ rw (q, e) (look_up-keep_if k es h)
      | inr q ↦ rw (q, e) (look_up-keep_if k es h)
    ]
    | inl e ↦
        let same : j ≡ k = (eqb_iff j k).0 e in
        elim (Bool-cases (p (j, u))) [
          | inl q ↦ let q' : p (k, u) ≡ true = rw same at q in rw (q, e, q') refl
          | inr q ↦
              let q' : p (k, u) ≡ false = rw same at q in
              rw (q, e, q') (look_up_out k (keep_if p es) (one_of_kept k es (rw same at n)))
        ]
  ]
