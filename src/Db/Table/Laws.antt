-- ===== src/Db/Table/Laws.antt =====
-- What the queries find, and how updates change counts.
use auditloop.Base.{
  ℕ, ◌≤◌, ◌≡◌, refl, sym, inl, inr, Bool, true, false, Option, none, some, List, [], ◌∷◌, arith,
  ltb, Bool-cases, Option-cases, All, All-weaken,
}
use mathlib.Core.List.{Memᴰ}
use auditloop.Db.Table.{count, update, better, best, newest, oldest, first}

module _ {ℓ} {A : Type ℓ} where
  module _ (beats : A → A → Bool) (p : A → Bool) where
    better-some : (r : A) (rest : Option A) → (x : A) × (better beats r rest ≡ some x)
    better-some r none = (r, refl)
    better-some r (some s) = elim (Bool-cases (beats s r)) [
      | inl e ↦ (s, rw e refl)
      | inr e ↦ (r, rw e refl)
    ]

    -- A row that fits and that no fitting row beats.
    abbrev pub IsBest : List A → A → Type ℓ
    IsBest rows r = Memᴰ r rows × (p r ≡ true) × All (λ s. p s ≡ true → beats s r ≡ false) rows

    same-IsBest : (rows : List A) (r x : A) → r ≡ x → IsBest rows r → IsBest rows x
    same-IsBest rows r x q h = rw q at h

    -- If the query finds nothing, no row fits.
    pub best-none : (rows : List A) → best beats p rows ≡ none → All (λ s. p s ≡ false) rows
    best-none [] h = tt
    best-none (r ∷ rs) h = elim (Bool-cases (p r)) [
      | inl e ↦ let (x, q) = better-some r (best beats p rs) in cc (q, rw e at h)
      | inr e ↦ (e, best-none rs (rw e at h))
    ]

    module _ (irrefl : (r : A) → beats r r ≡ false)
        (trans : (r s t : A) → beats s r ≡ false → beats t s ≡ false → beats t r ≡ false)
        (asym : (r s : A) → beats s r ≡ true → beats r s ≡ false) where
      pub best-IsBest : (rows : List A) (x : A) → best beats p rows ≡ some x → IsBest rows x
      best-IsBest [] x h = cc
      best-IsBest (r ∷ rs) x h = elim (Bool-cases (p r)) [
        | inl e ↦ elim (Option-cases (best beats p rs)) [
          | inl n ↦
              let q : r ≡ x = cc (rw (e, n) at h) in
              same-IsBest (r ∷ rs) r x q (
                Memᴰ.head refl,
                e,
                ((λ y. irrefl r), All-weaken _ _ rs (λ t d y. cc (d, y)) (best-none rs n)),
              )
          | inr (s, n) ↦
              let (m, f, b) = best-IsBest rs s n in
              elim (Bool-cases (beats s r)) [
                | inl w ↦
                    let q : s ≡ x = cc (rw (e, n, w) at h) in
                    same-IsBest (r ∷ rs) s x q (Memᴰ.tail m, f, ((λ y. asym r s w), b))
                | inr w ↦
                    let q : r ≡ x = cc (rw (e, n, w) at h) in
                    same-IsBest (r ∷ rs) r x q (
                      Memᴰ.head refl,
                      e,
                      ((λ y. irrefl r), All-weaken _ _ rs (λ t d y. trans r s t w (d y)) b),
                    )
              ]
        ]
        | inr e ↦
            let (m, f, b) = best-IsBest rs x (rw e at h) in (Memᴰ.tail m, f, ((λ y. cc (e, y)), b))
      ]

-- No fitting row has a later time.
abbrev pub IsNewest {ℓ} : {A : Type ℓ} → (A → ℕ) → (A → Bool) → List A → A → Type ℓ
IsNewest time p rows r = Memᴰ r rows × (p r ≡ true) × All (λ s. p s ≡ true → time s ≤ time r) rows

-- No fitting row has an earlier time.
abbrev pub IsOldest {ℓ} : {A : Type ℓ} → (A → ℕ) → (A → Bool) → List A → A → Type ℓ
IsOldest time p rows r = Memᴰ r rows × (p r ≡ true) × All (λ s. p s ≡ true → time r ≤ time s) rows

module _ {ℓ} {A : Type ℓ} (time : A → ℕ) (p : A → Bool) where
  pub newest-IsNewest :
      (rows : List A) (x : A) → newest time p rows ≡ some x → IsNewest time p rows x
  newest-IsNewest rows x h =
      let (m, f, b) =
        best-IsBest (λ s r. ltb (time r) (time s)) p (λ r. ground arith) (λ r s t h k. ground arith)
          (λ r s h. ground arith) rows x h in
      (m, f, All-weaken _ _ rows (λ s d y. let g = d y in ground arith) b)

  pub oldest-IsOldest :
      (rows : List A) (x : A) → oldest time p rows ≡ some x → IsOldest time p rows x
  oldest-IsOldest rows x h =
      let (m, f, b) =
        best-IsBest (λ s r. ltb (time s) (time r)) p (λ r. ground arith) (λ r s t h k. ground arith)
          (λ r s h. ground arith) rows x h in
      (m, f, All-weaken _ _ rows (λ s d y. let g = d y in ground arith) b)

module _ {ℓ} {A : Type ℓ} (p : A → Bool) where
  pub first-none : (rows : List A) → first p rows ≡ none → All (λ s. p s ≡ false) rows
  first-none [] h = tt
  first-none (r ∷ rs) h = elim (Bool-cases (p r)) [
    | inl e ↦ cc (rw e at h)
    | inr e ↦ (e, first-none rs (rw e at h))
  ]

  pub first-some : (rows : List A) (x : A) → first p rows ≡ some x → Memᴰ x rows × (p x ≡ true)
  first-some [] x h = cc
  first-some (r ∷ rs) x h = elim (Bool-cases (p r)) [
    | inl e ↦ let q : r ≡ x = cc (rw e at h) in (Memᴰ.head (sym q), rw q at e)
    | inr e ↦ let (m, f) = first-some rs x (rw e at h) in (Memᴰ.tail m, f)
  ]

module _ {ℓ} {A : Type ℓ} where
  pub count-Mem :
      (p : A → Bool) (rows : List A) (s : A) → Memᴰ s rows → p s ≡ true → 1 ≤ count p rows
  count-Mem p [] s m h = elim m [ ]
  count-Mem p (r ∷ rs) s (Memᴰ.head e) h = let h' : p r ≡ true = rw e at h in rw h' (omega arith)
  count-Mem p (r ∷ rs) s (Memᴰ.tail m) h = omega (arith, count-Mem p rs s m h)

  pub count-zero : (p : A → Bool) (rows : List A) → All (λ s. p s ≡ false) rows → count p rows ≡ 0
  count-zero p [] h = refl
  count-zero p (r ∷ rs) (h, hs) = rw (h, count-zero p rs hs) refl

  pub count_le :
      (p q : A → Bool) (rows : List A)
      → ((r : A) → p r ≡ true → q r ≡ true)
      → count p rows ≤ count q rows
  count_le p q [] i = omega arith
  count_le p q (r ∷ rs) i = ground (arith, count_le p q rs i, i r)

  module _ (p q : A → Bool) (f : A → A) where
    -- An update that does not touch what a count looks at.
    pub count-update :
        (rows : List A)
        → ((r : A) → q r ≡ true → p (f r) ≡ p r)
        → count p (update q f rows) ≡ count p rows
    count-update [] i = refl
    count-update (r ∷ rs) i = elim (Bool-cases (q r)) [
      | inl e ↦ rw (e, i r e, count-update rs i) refl
      | inr e ↦ rw (e, count-update rs i) refl
    ]

    -- An update that only takes rows out of a count.
    pub count-update_le :
        (rows : List A)
        → ((r : A) → q r ≡ true → p (f r) ≡ true → p r ≡ true)
        → count p (update q f rows) ≤ count p rows
    count-update_le [] i = omega arith
    count-update_le (r ∷ rs) i = elim (Bool-cases (q r)) [
      | inl e ↦ rw e (ground (arith, count-update_le rs i, i r e))
      | inr e ↦ rw e (ground (arith, count-update_le rs i))
    ]

    -- An update that takes every row out of a count.
    pub count-update_clear :
        (rows : List A)
        → ((r : A) → q r ≡ false → p r ≡ false)
        → ((r : A) → p (f r) ≡ false)
        → count p (update q f rows) ≡ 0
    count-update_clear [] i j = refl
    count-update_clear (r ∷ rs) i j = elim (Bool-cases (q r)) [
      | inl e ↦ rw (e, j r, count-update_clear rs i j) refl
      | inr e ↦ rw (e, i r e, count-update_clear rs i j) refl
    ]

pub All-update {ℓ} :
    {A : Type ℓ} (P : A → Type 0) (q : A → Bool) (f : A → A) (rows : List A)
    → ((r : A) → q r ≡ true → P r → P (f r))
    → All P rows
    → All P (update q f rows)
All-update P q f [] i h = tt
All-update P q f (r ∷ rs) i (h, hs) = elim (Bool-cases (q r)) [
  | inl e ↦ rw e (i r e h, All-update P q f rs i hs)
  | inr e ↦ rw e (h, All-update P q f rs i hs)
]

-- What an update makes of the rows that it fits holds of all that it fits afterwards.
pub update-All {ℓ} :
    {A : Type ℓ} (P : A → Type 0) (q : A → Bool) (f : A → A) (rows : List A)
    → ((r : A) → P (f r))
    → All (λ r. q r ≡ true → P r) (update q f rows)
update-All P q f [] h = tt
update-All P q f (r ∷ rs) h = elim (Bool-cases (q r)) [
  | inl e ↦ rw e ((λ k. h r), update-All P q f rs h)
  | inr e ↦ rw e ((λ k. absurd (ground (arith, k, e))), update-All P q f rs h)
]
