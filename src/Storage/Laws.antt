-- ===== src/Storage/Laws.antt =====
-- Slugs and page slugs: of which runes they consist, and how long they are.
use auditloop.Base.{
  ℕ, zero, suc, ◌≤◌, ◌≡◌, refl, ◌∙◌, inl, inr, Bool, true, false, ◌&&◌, ◌||◌, [], ◌∷◌, ◌++◌, arith,
  ltb, Bool-cases, Str, codes, length, all, all-append, is_empty, trim_left, trim_right, to_lower,
  trim_space,
}
use auditloop.Base.Text.Scan.{trim}
use auditloop.Storage.{
  take, is_slug_rune, is_dash, dashes, slug, page_slug, path_of, without_scheme,
}

-- [a-z0-9-]
abbrev pub is_token_rune : ℕ → Bool
is_token_rune c = is_slug_rune c || is_dash c

abbrev pub IsToken : Str → Type 0
IsToken s = (is_empty s ≡ false) × (all is_token_rune s ≡ true)

dashes-all : (in_run : Bool) (s : Str) → all is_token_rune (dashes in_run s) ≡ true
unfolding dashes
dashes-all in_run [] = refl
dashes-all in_run (c ∷ s) =
    let kept = dashes-all false s in
    let more = dashes-all true s in
    elim (Bool-cases (is_slug_rune c)) [
      | inl e ↦ rw e (rw e (ground (arith, kept)))
      | inr e ↦ rw e (ground (arith, Bool-cases in_run, more))
    ]

module _ (p q : ℕ → Bool) where
  trim_left-all : (s : Str) → all p s ≡ true → all p (trim_left q s) ≡ true
  unfolding trim_left
  trim_left-all [] h = refl
  trim_left-all (c ∷ s) h = elim (Bool-cases (q c)) [
    | inl e ↦ rw e (trim_left-all s (ground (arith, h)))
    | inr e ↦ rw e h
  ]

  trim_right-all : (s : Str) → all p s ≡ true → all p (trim_right q s) ≡ true
  unfolding trim_right
  trim_right-all [] h = refl
  trim_right-all (c ∷ s) h =
      let more = trim_right-all s (ground (arith, h)) in
      elim (Bool-cases (q c && is_empty (trim_right q s))) [
        | inl e ↦ rw e refl
        | inr e ↦ rw e (ground (arith, h, more))
      ]

take-all : (p : ℕ → Bool) (n : ℕ) (s : Str) → all p s ≡ true → all p (take n s) ≡ true
take-all p zero s h = refl
take-all p (suc n) [] h = refl
take-all p (suc n) (c ∷ s) h =
    let more = take-all p n s (ground (arith, h)) in ground (arith, h, more)

pub length-take_le : (n : ℕ) (s : Str) → length (take n s) ≤ n
length-take_le zero s = omega arith
length-take_le (suc n) [] = omega arith
length-take_le (suc n) (c ∷ s) = omega (arith, length-take_le n s)

is_empty-take : (n : ℕ) (s : Str) → is_empty s ≡ false → is_empty (take (suc n) s) ≡ false
is_empty-take n [] h = cc h
is_empty-take n (c ∷ s) h = refl

-- A slug is a token of at most 60 bytes, whatever it is made from.
pub slug-IsToken : (s : Str) → IsToken (slug s) × (length (slug s) ≤ 60)
unfolding slug trim
slug-IsToken s =
    let low = to_lower (trim_space s) in
    let d = dashes false low in
    let t = trim_right is_dash (trim_left is_dash d) in
    let h : all is_token_rune t ≡ true =
      trim_right-all is_token_rune is_dash (trim_left is_dash d)
        (trim_left-all is_token_rune is_dash d (dashes-all false low)) in
    elim (Bool-cases (is_empty t)) [
      | inl e ↦ rw e ((refl, refl), omega arith)
      | inr e ↦ elim (Bool-cases (ltb 60 (length t))) [
        | inl q ↦
            rw (e, q) ((is_empty-take 59 t e, take-all is_token_rune 60 t h), length-take_le 60 t)
        | inr q ↦ rw (e, q) ((e, h), ground arith)
      ]
    ]

pub append-IsToken : (s t : Str) → IsToken s → all is_token_rune t ≡ true → IsToken (s ++ t)
append-IsToken [] t (n, h) k = cc n
append-IsToken (c ∷ s) t (n, h) k =
    (refl, all-append is_token_rune (c ∷ s) t ∙ ground (arith, h, k))

module _ (sha256_hex : Str → Str) (hex : (s : Str) → all is_token_rune (sha256_hex s) ≡ true) where
  pub page_slug-IsToken : (url : Str) → IsToken (page_slug sha256_hex url)
  unfolding page_slug
  page_slug-IsToken url =
      append-IsToken (slug (path_of (without_scheme url))) (codes "-" ++ take 8 (sha256_hex url))
        (slug-IsToken (path_of (without_scheme url))).0
        (take-all is_token_rune 8 (sha256_hex url) (hex url))
