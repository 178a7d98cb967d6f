-- ===== src/Crawler/Crawl/Count.antt =====
-- internal/crawler/crawler.go: countCrawled, when pages of one URL come to the end of the list.
use auditloop.Base.Text.Laws.{one_of-append}
use auditloop.Base.{
  ℕ, zero, suc, ◌≡◌, refl, ap, ◌∙◌, inl, inr, true, false, List, [], ◌∷◌, ◌++◌, arith, Bool-cases,
  length, Str, eqb, eqb_iff, eqb_refl, one_of,
}
use mathlib.Core.List.{append-nil}
use auditloop.Crawler.Crawl.{distinct}

abbrev pub repeat : ℕ → Str → List Str
repeat zero c = []
repeat (suc n) c = c ∷ repeat n c

eqb_sym_false : (s t : Str) → eqb s t ≡ false → eqb t s ≡ false
eqb_sym_false s t h = elim (Bool-cases (eqb t s)) [
  | inr e ↦ e
  | inl e ↦ let q = eqb_refl t in cc (h, q, (eqb_iff t s).0 e)
]

-- A text at the end that does not stand before it is one more.
distinct_new :
    (c : Str) (xs : List Str)
    → one_of c xs ≡ false
    → length (distinct (xs ++ c ∷ [])) ≡ suc (length (distinct xs))
unfolding distinct one_of
distinct_new c [] h = refl
distinct_new c (x ∷ xs) h =
    let absent : one_of c xs ≡ false = ground arith in
    let other = eqb_sym_false c x (ground arith) in
    let same : one_of x (xs ++ c ∷ []) ≡ one_of x xs =
      ground (arith, one_of-append x xs (c ∷ [])) in
    elim (Bool-cases (one_of x xs)) [
      | inl e ↦ rw (same, e) (distinct_new c xs absent)
      | inr e ↦ rw (same, e) (ap suc (distinct_new c xs absent))
    ]

-- One that does adds nothing.
distinct_old :
    (c : Str) (xs : List Str)
    → one_of c xs ≡ true
    → length (distinct (xs ++ c ∷ [])) ≡ length (distinct xs)
unfolding distinct one_of
distinct_old c [] h = cc
distinct_old c (x ∷ xs) h =
    let at = one_of-append x xs (c ∷ []) in
    elim (Bool-cases (one_of c xs)) [
      | inl m ↦ elim (Bool-cases (one_of x xs)) [
        | inl e ↦
            let e' : one_of x (xs ++ c ∷ []) ≡ true = ground arith in
            rw (e', e) (distinct_old c xs m)
        | inr e ↦ elim (Bool-cases (eqb x c)) [
          | inl q ↦ absurd (cc (m, e, (eqb_iff x c).0 q))
          | inr q ↦
              let e' : one_of x (xs ++ c ∷ []) ≡ false = ground arith in
              rw (e', e) (ap suc (distinct_old c xs m))
        ]
      ]
      | inr m ↦
          let same : c ≡ x = (eqb_iff c x).0 (ground arith) in
          let here : eqb x c ≡ true = rw same (eqb_refl x) in
          let e' : one_of x (xs ++ c ∷ []) ≡ true = ground arith in
          let e : one_of x xs ≡ false = rw same at m in rw (e', e) (distinct_new c xs m)
    ]

append_one : (xs ys : List Str) (c : Str) → xs ++ c ∷ ys ≡ (xs ++ c ∷ []) ++ ys
append_one [] ys c = refl
append_one (x ∷ xs) ys c = ap (λ zs. x ∷ zs) (append_one xs ys c)

distinct-repeat :
    (n : ℕ) (c : Str) (xs : List Str)
    → one_of c xs ≡ true
    → length (distinct (xs ++ repeat n c)) ≡ length (distinct xs)
distinct-repeat zero c xs h = ap (λ ys. length (distinct ys)) (append-nil xs)
distinct-repeat (suc n) c xs h =
    let h' : one_of c (xs ++ c ∷ []) ≡ true = ground (arith, one_of-append c xs (c ∷ [])) in
    ap (λ ys. length (distinct ys)) (append_one xs (repeat n c) c)
    ∙ distinct-repeat n c (xs ++ c ∷ []) h'
    ∙ distinct_old c xs h

pub distinct_more :
    (n : ℕ) (c : Str) (xs : List Str)
    → one_of c xs ≡ false
    → length (distinct (xs ++ repeat (suc n) c)) ≡ suc (length (distinct xs))
unfolding one_of
distinct_more n c xs h =
    let last : one_of c (c ∷ []) ≡ true = ground (arith, eqb_refl c) in
    let h' : one_of c (xs ++ c ∷ []) ≡ true = ground (arith, one_of-append c xs (c ∷ [])) in
    ap (λ ys. length (distinct ys)) (append_one xs (repeat n c) c)
    ∙ distinct-repeat n c (xs ++ c ∷ []) h'
    ∙ distinct_new c xs h
