-- ===== src/Diff/Pixels/Counts.antt =====
-- How many points of a box pass a test.
use auditloop.Base.{
  ℕ, zero, suc, ◌+◌, ◌*◌, ◌≤◌, ◌≡◌, refl, ap, ap₂, ◌∙◌, inl, inr, Bool, true, false, ◌&&◌, ◌||◌,
  not, arith, ltb, if◌then◌else◌, Bool-cases, min,
}
use auditloop.Diff.Pixels.{row_mismatches, overlap_mismatches}

row_same :
    (t u : ℕ → Bool) → ((x : ℕ) → t x ≡ u x) → (n : ℕ) → row_mismatches t n ≡ row_mismatches u n
unfolding row_mismatches
row_same t u same zero = refl
row_same t u same (suc n) = rw (same n, row_same t u same n) refl

pub box_same :
    (t u : ℕ → ℕ → Bool)
    → ((x y : ℕ) → t x y ≡ u x y)
    → (w h : ℕ) → overlap_mismatches t w h ≡ overlap_mismatches u w h
unfolding overlap_mismatches
box_same t u same w zero = refl
box_same t u same w (suc h) =
    ap₂ (λ a b. a + b) (box_same t u same w h)
      (row_same (λ x. t x h) (λ x. u x h) (λ x. same x h) w)

module _ (t : ℕ → Bool) (m : ℕ) where
  row_cut : (n : ℕ) → row_mismatches (λ x. ltb x m && t x) n ≡ row_mismatches t (min m n)
  unfolding row_mismatches
  row_cut zero = ap (row_mismatches t) {x = 0} {y = min m 0} (omega arith)
  row_cut (suc n) = elim (Bool-cases (ltb n m)) [
    | inl e ↦
        let here : min m n ≡ n = ground (arith, e) in
        let next : min m (suc n) ≡ suc n = ground (arith, e) in rw (e, next, row_cut n, here) refl
    | inr e ↦
        let here : min m n ≡ m = ground (arith, e) in
        let next : min m (suc n) ≡ m = ground (arith, e) in
        rw (e, next, row_cut n, here) (omega arith)
  ]

-- A row outside of the box counts nothing.
row_none : (t : ℕ → Bool) (n : ℕ) → ((x : ℕ) → t x ≡ false) → row_mismatches t n ≡ 0
unfolding row_mismatches
row_none t zero h = refl
row_none t (suc n) h = rw (h n, row_none t n h) refl

-- The points of a box at the origin.
abbrev pub is_within : ℕ → ℕ → ℕ → ℕ → Bool
is_within m k x y = ltb x m && ltb y k

module _ (t : ℕ → ℕ → Bool) (m k w : ℕ) where
  box_row :
      (y : ℕ)
      → row_mismatches (λ x. is_within m k x y && t x y) w
        ≡ (if ltb y k then row_mismatches (λ x. t x y) (min m w) else 0)
  box_row y = elim (Bool-cases (ltb y k)) [
    | inl e ↦
        row_same (λ x. is_within m k x y && t x y) (λ x. ltb x m && t x y) (λ x. ground (arith, e))
          w
        ∙ (row_cut (λ x. t x y) m w ∙ rw e refl)
    | inr e ↦ row_none (λ x. is_within m k x y && t x y) w (λ x. ground (arith, e)) ∙ rw e refl
  ]

  -- Of a cut test only the smaller box counts.
  pub box_cut :
      (h : ℕ)
      → overlap_mismatches (λ x y. is_within m k x y && t x y) w h
        ≡ overlap_mismatches t (min m w) (min k h)
  unfolding overlap_mismatches
  box_cut zero = ap (overlap_mismatches t (min m w)) {x = 0} {y = min k 0} (omega arith)
  box_cut (suc h) = elim (Bool-cases (ltb h k)) [
    | inl e ↦
        let here : min k h ≡ h = ground (arith, e) in
        let next : min k (suc h) ≡ suc h = ground (arith, e) in
        rw (next, box_row h, e, box_cut h, here) refl
    | inr e ↦
        let here : min k h ≡ k = ground (arith, e) in
        let next : min k (suc h) ≡ k = ground (arith, e) in
        rw (next, box_row h, e, box_cut h, here) (omega arith)
  ]

module _ (inside t : ℕ → ℕ → Bool) where
  row_outside :
      (y n : ℕ)
      → row_mismatches (λ x. not (inside x y) || t x y) n + row_mismatches (λ x. inside x y) n
        ≡ n + row_mismatches (λ x. inside x y && t x y) n
  unfolding row_mismatches
  row_outside y zero = refl
  row_outside y (suc n) =
      let more = row_outside y n in
      ground (arith, more, Bool-cases (inside n y), Bool-cases (t n y))

  pub box_outside :
      (w h : ℕ)
      → overlap_mismatches (λ x y. not (inside x y) || t x y) w h + overlap_mismatches inside w h
        ≡ w * h + overlap_mismatches (λ x y. inside x y && t x y) w h
  unfolding overlap_mismatches
  box_outside w zero = omega arith
  box_outside w (suc h) =
      let more = box_outside w h in
      let row = row_outside h w in
      let area : w * suc h ≡ w * h + w = omega arith in rw area (omega (arith, more, row))

row_all : (n : ℕ) → row_mismatches (λ x. true) n ≡ n
unfolding row_mismatches
row_all zero = refl
row_all (suc n) = omega (arith, row_all n)

pub box_all : (w h : ℕ) → overlap_mismatches (λ x y. true) w h ≡ w * h
unfolding overlap_mismatches
box_all w zero = omega arith
box_all w (suc h) =
    let area : w * suc h ≡ w * h + w = omega arith in
    rw area (omega (arith, box_all w h, row_all w))

module _ (t : ℕ → ℕ → Bool) where
  row_le : (y n : ℕ) → row_mismatches (λ x. t x y) n ≤ n
  unfolding row_mismatches
  row_le y zero = omega arith
  row_le y (suc n) = let more = row_le y n in ground (arith, more, Bool-cases (t n y))

  pub box_le : (w h : ℕ) → overlap_mismatches t w h ≤ w * h
  unfolding overlap_mismatches
  box_le w zero = omega arith
  box_le w (suc h) =
      let area : w * suc h ≡ w * h + w = omega arith in
      rw area (omega (arith, box_le w h, row_le h w))
