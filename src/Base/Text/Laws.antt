-- ===== src/Base/Text/Laws.antt =====
-- What the string tests mean.
use mathlib.Core.Path.{◌≡◌, refl, ap}
use mathlib.Core.Logic.{◌≢◌, ◌↔◌, inl, inr}
use mathlib.Core.Bool.{true, false, ◌||◌}
use mathlib.Core.List.{List, [], ◌∷◌, ◌++◌, Memᴰ}
use native.Mathlib.Omega.{arith}
use auditloop.Base.Tests.{Bool-cases}
use auditloop.Base.Text.{Str, eqb, eqb_iff, one_of, is_empty, has_prefix, has_suffix}

pub has_suffix_sound : (s p : Str) → has_suffix s p ≡ true → (pre : Str) × (s ≡ pre ++ p)
unfolding has_suffix
has_suffix_sound [] p h = ([], (eqb_iff [] p).0 h)
has_suffix_sound (c ∷ s) p h = elim (Bool-cases (eqb (c ∷ s) p)) [
  | inl same ↦ ([], (eqb_iff (c ∷ s) p).0 same)
  | inr other ↦ let (pre, e) = has_suffix_sound s p (ground arith) in (c ∷ pre, ap (λ t. c ∷ t) e)
]

has_suffix_self : (p : Str) → has_suffix p p ≡ true
unfolding has_suffix
has_suffix_self [] = refl
has_suffix_self (c ∷ p) = ground (arith, eqb_iff (c ∷ p) (c ∷ p))

pub has_suffix_append : (pre p : Str) → has_suffix (pre ++ p) p ≡ true
unfolding has_suffix
has_suffix_append [] p = has_suffix_self p
has_suffix_append (c ∷ pre) p = ground (arith, has_suffix_append pre p)

pub one_of_sound : (s : Str) (ts : List Str) → one_of s ts ≡ true → Memᴰ s ts
unfolding one_of
one_of_sound s [] h = cc
one_of_sound s (t ∷ ts) h = elim (Bool-cases (eqb s t)) [
  | inl same ↦ Memᴰ.head ((eqb_iff s t).0 same)
  | inr other ↦ Memᴰ.tail (one_of_sound s ts (ground arith))
]

pub one_of_complete : (s : Str) (ts : List Str) → Memᴰ s ts → one_of s ts ≡ true
unfolding one_of
one_of_complete s [] m = elim m [ ]
one_of_complete s (t ∷ ts) (Memᴰ.head e) = ground (arith, eqb_iff s t)
one_of_complete s (t ∷ ts) (Memᴰ.tail m) = ground (arith, one_of_complete s ts m)

pub ne_of_filled : (s : Str) → is_empty s ≡ false → s ≢ []
ne_of_filled [] h e = cc
ne_of_filled (c ∷ s) h e = cc

pub filled_of_ne : (s : Str) → s ≢ [] → is_empty s ≡ false
filled_of_ne [] n = absurd (n refl)
filled_of_ne (c ∷ s) n = refl

pub nil_of_empty : (s : Str) → is_empty s ≡ true → s ≡ []
nil_of_empty [] h = refl
nil_of_empty (c ∷ s) h = cc

pub one_of-append :
    (s : Str) (xs ys : List Str) → one_of s (xs ++ ys) ≡ (one_of s xs || one_of s ys)
unfolding one_of
one_of-append s [] ys = refl
one_of-append s (x ∷ xs) ys = ground (arith, one_of-append s xs ys)

has_prefix_sound : (s p : Str) → has_prefix s p ≡ true → (rest : Str) × (s ≡ p ++ rest)
unfolding has_prefix
has_prefix_sound s [] h = (s, refl)
has_prefix_sound [] (d ∷ p) h = cc
has_prefix_sound (c ∷ s) (d ∷ p) h =
    let (rest, e) = has_prefix_sound s p (ground (arith, h)) in
    let same : c ≡ d = ground (arith, h) in (rest, cc (same, e))

has_prefix_complete : (s p rest : Str) → s ≡ p ++ rest → has_prefix s p ≡ true
unfolding has_prefix
has_prefix_complete s [] rest e = refl
has_prefix_complete [] (d ∷ p) rest e = cc
has_prefix_complete (c ∷ s) (d ∷ p) rest e =
    let same : c ≡ d = cc e in
    let more : s ≡ p ++ rest = cc e in
    let k = has_prefix_complete s p rest more in ground (arith, same, k)

pub has_prefix_iff : (s p : Str) → (has_prefix s p ≡ true) ↔ ((rest : Str) × (s ≡ p ++ rest))
has_prefix_iff s p = (has_prefix_sound s p, λ (rest, e). has_prefix_complete s p rest e)
