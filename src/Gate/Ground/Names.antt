-- ===== src/Gate/Ground/Names.antt =====
-- The map from the names of a digest's elements to selectors: which elements are behind its entries.
use auditloop.Base.{
  ◌≡◌, ◌≢◌, refl, sym, ap, ◌∙◌, ◌⊎◌, inl, inr, true, ◌||◌, List, [], ◌∷◌, arith, Bool-cases, Str,
  eqb, eqb_iff, is_empty, trim_space, to_lower, All,
}
use mathlib.Core.List.{Memᴰ}
use auditloop.Base.Text.Laws.{nil_of_empty}
use auditloop.Base.Text.Fields.{fields, join}
use auditloop.Gate.Ground.{Names, Named, normalize_sel, normalize_name, claim, claimed, look_up}

-- The element has a selector, and this name after normalisation.
abbrev pub IsNamed : Str → Named → Type 0
IsNamed n e = (normalize_sel e.0 ≢ []) × (normalize_name e.1 ≡ n)

-- Two elements that have different selectors.
abbrev pub Differ : Named → Named → Type 0
Differ e e' = trim_space e'.0 ≢ trim_space e.0

normalize_sel-blank : (s : Str) → trim_space s ≡ [] → normalize_sel s ≡ []
unfolding normalize_sel join fields to_lower
normalize_sel-blank s h = rw h refl

module _ (rows : List Named) where
  -- Two elements of different selectors have the name.
  abbrev pub IsShared : Str → Type 0
  IsShared n =
      (e e' : Named) × Memᴰ e rows × Memᴰ e' rows × IsNamed n e × IsNamed n e' × Differ e e'

  -- What is behind an entry: elements of two selectors when it is marked, else one with its selector.
  abbrev pub IsJustified : Str × Str → Type 0
  IsJustified (n, s) =
      ((s ≡ []) × IsShared n)
      ⊎ ((s ≢ []) × ((e : Named) × Memᴰ e rows × IsNamed n e × (trim_space e.0 ≡ s)))

  claim-IsJustified :
      (e : Named) (n : Str) (names : Names)
      → Memᴰ e rows
      → IsNamed n e
      → trim_space e.0 ≢ []
      → All IsJustified names
      → All IsJustified (claim n (trim_space e.0) names)
  unfolding claim
  claim-IsJustified e n [] m k ne h = (inr (ne, (e, m, k, refl)), tt)
  claim-IsJustified e n ((m', t) ∷ names) m k ne (h, hs) = elim (Bool-cases (eqb m' n)) [
    | inr q ↦ rw q (h, claim-IsJustified e n names m k ne hs)
    | inl q ↦ elim (Bool-cases (eqb t (trim_space e.0))) [
      | inl r ↦ rw (q, r) (h, hs)
      | inr r ↦
          let same : m' ≡ n = (eqb_iff m' n).0 q in
          rw (q, r)
            (
              inl (
                refl,
                elim h [
                  | inl (z, shared) ↦ shared
                  | inr (f, (e', b, (sel, named), z)) ↦ (
                    e,
                    e',
                    m,
                    b,
                    (k.0, k.1 ∙ sym same),
                    (sel, named),
                    λ eq. cc (r, (eqb_iff t (trim_space e.0)).1 (sym z ∙ eq)),
                  )
                ],
              ),
              hs,
            )
    ]
  ]

  pub claimed-IsJustified :
      (e : Named) (names : Names)
      → Memᴰ e rows
      → normalize_sel e.0 ≢ []
      → All IsJustified names
      → All IsJustified (claimed e names)
  claimed-IsJustified (selector, name) names m ne h =
      elim (Bool-cases (is_empty (normalize_name name) || is_empty (trim_space selector))) [
        | inl e ↦ rw e h
        | inr e ↦ rw e (
            claim-IsJustified (selector, name) (normalize_name name) names m (ne, refl)
              (λ z. ne (normalize_sel-blank selector z)) h)
      ]

-- The map knows the name, with this selector or marked.
abbrev pub IsFiled : Str → Str → Names → Type 0
IsFiled n t names =
    Memᴰ (n, look_up n names) names × ((look_up n names ≡ t) ⊎ (look_up n names ≡ []))

claim-IsFiled : (n t : Str) (names : Names) → IsFiled n t (claim n t names)
unfolding claim
claim-IsFiled n t [] =
    let same : eqb n n ≡ true = (eqb_iff n n).1 refl in rw same (Memᴰ.head refl, inl refl)
claim-IsFiled n t ((m, s) ∷ names) = elim (Bool-cases (eqb m n)) [
  | inr q ↦ rw (q, q) (let (a, b) = claim-IsFiled n t names in (Memᴰ.tail a, b))
  | inl q ↦
      let same : m ≡ n = (eqb_iff m n).0 q in
      elim (Bool-cases (eqb s t)) [
        | inl r ↦ rw (q, r, q) (Memᴰ.head (ap (λ x. (x, s)) (sym same)), inl ((eqb_iff s t).0 r))
        | inr r ↦ rw (q, r, q) (Memᴰ.head (ap (λ x. (x, [])) (sym same)), inr refl)
      ]
]

claim-keeps :
    (n t n' t' : Str) (names : Names) → IsFiled n t names → IsFiled n t (claim n' t' names)
unfolding claim
claim-keeps n t n' t' [] (m, b) = elim m [ ]
claim-keeps n t n' t' ((m, s) ∷ names) h = elim (Bool-cases (eqb m n)) [
  | inl q ↦
      let same : m ≡ n = (eqb_iff m n).0 q in
      let (_, b) = rw q at h in
      elim (Bool-cases (eqb m n')) [
        | inr r ↦ rw (r, q) (Memᴰ.head (ap (λ x. (x, s)) (sym same)), b)
        | inl r ↦ elim (Bool-cases (eqb s t')) [
          | inl z ↦ rw (r, z, q) (Memᴰ.head (ap (λ x. (x, s)) (sym same)), b)
          | inr z ↦ rw (r, z, q) (Memᴰ.head (ap (λ x. (x, [])) (sym same)), inr refl)
        ]
      ]
  | inr q ↦
      let (a, b) = rw q at h in
      let later : Memᴰ (n, look_up n names) names = elim a [
        | Memᴰ.head e ↦ absurd (let e' : n ≡ m = cc e in cc (q, (eqb_iff m n).1 (sym e')))
        | Memᴰ.tail m' ↦ m'
      ] in
      let (a', b') = claim-keeps n t n' t' names (later, b) in
      elim (Bool-cases (eqb m n')) [
        | inr r ↦ rw (r, q) (Memᴰ.tail a', b')
        | inl r ↦ rw (r, q) (Memᴰ.tail later, b)
      ]
]

pub claimed-IsFiled :
    (e : Named) (names : Names)
    → normalize_sel e.0 ≢ []
    → normalize_name e.1 ≢ []
    → IsFiled (normalize_name e.1) (trim_space e.0) (claimed e names)
claimed-IsFiled (selector, name) names ne filled =
    elim (Bool-cases (is_empty (normalize_name name) || is_empty (trim_space selector))) [
      | inr e ↦ rw e (claim-IsFiled (normalize_name name) (trim_space selector) names)
      | inl e ↦ absurd (elim (Bool-cases (is_empty (normalize_name name))) [
        | inl z ↦ filled (nil_of_empty (normalize_name name) z)
        | inr z ↦ ne (
            normalize_sel-blank selector
              (nil_of_empty (trim_space selector) (ground (arith, e, z))))
      ])
    ]

pub claimed-keeps :
    (n t : Str) (e : Named) (names : Names) → IsFiled n t names → IsFiled n t (claimed e names)
claimed-keeps n t (selector, name) names h =
    elim (Bool-cases (is_empty (normalize_name name) || is_empty (trim_space selector))) [
      | inl e ↦ rw e h
      | inr e ↦ rw e (claim-keeps n t (normalize_name name) (trim_space selector) names h)
    ]
