-- ===== src/Gate/Ground/Dropped.antt =====
-- What the vocabulary of a digest lacks when a selector is neither listed nor led elsewhere.
use auditloop.Base.{
  ◌≡◌, ◌≢◌, ◌≤◌, ◌<◌, ◌↔◌, refl, sym, ◌∙◌, ◌⊎◌, inl, inr, true, List, [], ◌∷◌, ◌++◌, arith,
  Bool-cases, Str, eqb, eqb_iff, is_empty, one_of, trim_space, All, any_complete, length,
  has_prefix,
}
use mathlib.Core.List.{Memᴰ}
use auditloop.Base.Text.Laws.{
  one_of_complete, ne_of_filled, filled_of_ne, nil_of_empty, has_prefix_iff,
}
use auditloop.Digest.{concrete_keys}
use auditloop.Gate.Ground.{
  GroundIndex, Names, Named, normalize_sel, normalize_name, add, add_all, is_listed, is_candidate,
}
use auditloop.Gate.Ground.Vocabulary.{NamesIt}
use auditloop.Gate.Ground.Prefix.{Agrees}
use auditloop.Gate.Ground.Names.{
  IsNamed, Differ, IsShared, IsJustified, IsFiled, claimed-IsJustified, claimed-IsFiled,
  claimed-keeps,
}

-- Of the name and what is quoted one starts the other, and both have at least 12 characters.
abbrev pub IsTruncated : Str → Named → Type 0
IsTruncated n e =
    (normalize_sel e.0 ≢ [])
    × (12 ≤ length (normalize_name e.1))
    × (((rest : Str) × (normalize_name e.1 ≡ n ++ rest))
        ⊎ ((rest : Str) × (n ≡ normalize_name e.1 ++ rest)))

module _ (rows : List Named) where
  -- Each element of this kind has a rival with another selector.
  abbrev pub IsDisputed : (Named → Type 0) → Type 0
  IsDisputed P = (e : Named) → Memᴰ e rows → P e → (e' : Named) × Memᴰ e' rows × P e' × Differ e e'

  -- The quoted text, as a name, leads to no element: it is too short, or it is the name, or is cut
  -- from the names, of none or of several elements.
  abbrev pub LeadsNowhere : Str → Type 0
  LeadsNowhere n =
      (n ≡ []) ⊎ (IsDisputed (IsNamed n) × ((length n < 12) ⊎ IsDisputed (IsTruncated n)))

  -- The index knows the selector, the anchors and the name of an element, if its selector is not blank.
  abbrev pub Covers : GroundIndex → Named → Type 0
  Covers idx e =
      (normalize_sel e.0 ≡ [])
      ⊎ (Memᴰ (normalize_sel e.0) idx.listed
          × ((k : Str) → Memᴰ k (concrete_keys e.0) → Memᴰ k idx.keys)
          × ((normalize_name e.1 ≡ []) ⊎ IsFiled (normalize_name e.1) (trim_space e.0) idx.by_name))

  Mem-left : (k : Str) (xs ys : List Str) → Memᴰ k xs → Memᴰ k (xs ++ ys)
  Mem-left k [] ys m = elim m [ ]
  Mem-left k (x ∷ xs) ys (Memᴰ.head e) = Memᴰ.head e
  Mem-left k (x ∷ xs) ys (Memᴰ.tail m) = Memᴰ.tail (Mem-left k xs ys m)

  Mem-right : (k : Str) (xs ys : List Str) → Memᴰ k ys → Memᴰ k (xs ++ ys)
  Mem-right k [] ys m = m
  Mem-right k (x ∷ xs) ys m = Memᴰ.tail (Mem-right k xs ys m)

  add-Covers : (e : Named) (idx : GroundIndex) → Covers (add e idx) e
  add-Covers (selector, name) idx = elim (Bool-cases (is_empty (normalize_sel selector))) [
    | inl e ↦ inl (nil_of_empty (normalize_sel selector) e)
    | inr e ↦ rw e (
        inr (
          Memᴰ.head refl,
          (λ k m. Mem-left k (concrete_keys selector) idx.keys m),
          elim (Bool-cases (is_empty (normalize_name name))) [
            | inl z ↦ inl (nil_of_empty (normalize_name name) z)
            | inr z ↦ inr (
                claimed-IsFiled (selector, name) idx.by_name
                  (ne_of_filled (normalize_sel selector) e) (ne_of_filled (normalize_name name) z))
          ],
        ))
  ]

  add-keeps : (c e : Named) (idx : GroundIndex) → Covers idx c → Covers (add e idx) c
  add-keeps c (selector, name) idx (inl blank) = inl blank
  add-keeps c (selector, name) idx (inr (l, k, n)) =
      elim (Bool-cases (is_empty (normalize_sel selector))) [
        | inl e ↦ rw e (inr (l, k, n))
        | inr e ↦ rw e (
            inr (
              Memᴰ.tail l,
              (λ x m. Mem-right x (concrete_keys selector) idx.keys (k x m)),
              elim n [
                | inl z ↦ inl z
                | inr f ↦ inr (claimed-keeps _ _ (selector, name) idx.by_name f)
              ],
            ))
      ]

  pub add_all-Covers :
      (es : List Named) (idx : GroundIndex) (c : Named)
      → Memᴰ c es ⊎ Covers idx c
      → Covers (add_all es idx) c
  unfolding add_all
  add_all-Covers [] idx c (inl m) = elim m [ ]
  add_all-Covers [] idx c (inr h) = h
  add_all-Covers (e ∷ es) idx c (inl (Memᴰ.head q)) =
      add_all-Covers es (add e idx) c (inr (rw q (add-Covers e idx)))
  add_all-Covers (e ∷ es) idx c (inl (Memᴰ.tail m)) = add_all-Covers es (add e idx) c (inl m)
  add_all-Covers (e ∷ es) idx c (inr h) =
      add_all-Covers es (add e idx) c (inr (add-keeps c e idx h))

  pub add_all-IsJustified :
      (es : List Named) (idx : GroundIndex)
      → ((e : Named) → Memᴰ e es → Memᴰ e rows)
      → All (IsJustified rows) idx.by_name
      → All (IsJustified rows) (add_all es idx).by_name
  unfolding add_all
  add_all-IsJustified [] idx sub h = h
  add_all-IsJustified (e ∷ es) idx sub h =
      add_all-IsJustified es (add e idx) (λ c m. sub c (Memᴰ.tail m))
        (elim (Bool-cases (is_empty (normalize_sel e.0))) [
          | inl z ↦ rw z h
          | inr z ↦ rw z (
              claimed-IsJustified rows e idx.by_name (sub e (Memᴰ.head refl))
                (ne_of_filled (normalize_sel e.0) z) h)
        ])

  -- A selector that is not listed is no element's, and shares an anchor with none.
  pub is_listed_complete :
      (idx : GroundIndex) (s : Str) (e : Named)
      → Covers idx e
      → normalize_sel s ≢ []
      → normalize_sel e.0 ≢ []
      → NamesIt s e
      → is_listed idx s ≡ true
  unfolding is_listed
  is_listed_complete idx s e (inl blank) ne ne' h = absurd (ne' blank)
  is_listed_complete idx s e (inr (l, k, n)) ne ne' (inl same) =
      let found : one_of (normalize_sel s) idx.listed ≡ true =
        one_of_complete (normalize_sel s) idx.listed (rw same l) in
      rw (filled_of_ne (normalize_sel s) ne, found) refl
  is_listed_complete idx s e (inr (l, k, n)) ne ne' (inr (x, m, m')) =
      let shared =
        any_complete (λ y. one_of y idx.keys) (concrete_keys s) x m
          (one_of_complete x idx.keys (k x m')) in
      rw (filled_of_ne (normalize_sel s) ne) (ground (arith, shared))

  -- Of two elements with different selectors one differs from a third.
  pub rival :
      (P : Named → Type 0) (e : Named) (n : Str)
      → ((c : Named) → IsNamed n c → P c)
      → IsShared rows n
      → (e' : Named) × Memᴰ e' rows × P e' × Differ e e'
  rival P e n all_P (a, b, m, m', k, k', differ) =
      elim (Bool-cases (eqb (trim_space a.0) (trim_space e.0))) [
        | inl q ↦ (b, m', all_P b k', λ z. differ (z ∙ sym ((eqb_iff _ _).0 q)))
        | inr q ↦ (a, m, all_P a k, λ z. cc (q, (eqb_iff (trim_space a.0) (trim_space e.0)).1 z))
      ]

  -- A candidate with another selector, if not all agree.
  pub disagreeing :
      (n sel : Str) (es : Names)
      → All (Agrees n sel) es
        ⊎ ((c : Str × Str) × Memᴰ c es × (is_candidate n c.0 ≡ true) × (c.1 ≢ sel))
  disagreeing n sel [] = inl tt
  disagreeing n sel ((m, s) ∷ es) = elim (disagreeing n sel es) [
    | inr (c, i, k, d) ↦ inr (c, Memᴰ.tail i, k, d)
    | inl rest ↦ elim (Bool-cases (is_candidate n m)) [
      | inr out ↦ inl ((λ k. cc (k, out)), rest)
      | inl cand ↦ elim (Bool-cases (eqb s sel)) [
        | inl q ↦ inl ((λ k. (eqb_iff s sel).0 q), rest)
        | inr q ↦ inr ((m, s), Memᴰ.head refl, cand, λ z. cc (q, (eqb_iff s sel).1 z))
      ]
    ]
  ]

  pub candidate_iff :
      (n : Str) (e : Named)
      → normalize_sel e.0 ≢ []
      → (is_candidate n (normalize_name e.1) ≡ true) ↔ IsTruncated n e
  candidate_iff n e ne =
      let m = normalize_name e.1 in
      let a = has_prefix_iff m n in
      let b = has_prefix_iff n m in
      (
        (λ h. (
          ne,
          ground (arith, h),
          elim (Bool-cases (has_prefix m n)) [
            | inl p ↦ inl (a.0 p)
            | inr p ↦ inr (b.0 (ground (arith, h, p)))
          ],
        )),
        λ (_, long, either). elim either [
          | inl p ↦ let q = a.1 p in ground (arith, q, long)
          | inr p ↦ let q = b.1 p in ground (arith, q, long)
        ],
      )
