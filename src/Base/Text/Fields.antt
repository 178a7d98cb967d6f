-- ===== src/Base/Text/Fields.antt =====
-- strings.Fields and strings.Join with one space: splitting at white space and putting together.
use Prim.Native.Nat.{ℕ}
use mathlib.Core.Path.{◌≡◌, refl, ap, ◌∙◌}
use mathlib.Core.Bool.{false}
use mathlib.Core.Logic.{inl, inr}
use mathlib.Core.List.{List, [], ◌∷◌, ◌++◌, map, map-append}
use native.Mathlib.Omega.{arith}
use auditloop.Base.Tests.{if◌then◌else◌, Bool-cases}
use auditloop.Base.Lists.{All}
use auditloop.Base.Text.{Str, is_space, is_empty, lower, to_lower}

abbrev push : Str → List Str → List Str
push [] ws = ws
push (c ∷ w) ws = (c ∷ w) ∷ ws

abbrev add_rune : ℕ → Str × List Str → Str × List Str
add_rune c (w, ws) = if is_space c then ([], push w ws) else (c ∷ w, ws)

-- The word that s begins with, which may be empty, and the words behind it.
unfoldable pub words : Str → Str × List Str
words [] = ([], [])
words (c ∷ s) = add_rune c (words s)

unfoldable pub fields : Str → List Str
unfolding words
fields s = let (w, ws) = words s in push w ws

unfoldable pub join : List Str → Str
join [] = []
join (w ∷ []) = w
join (w ∷ v ∷ ws) = w ++ (32 ∷ join (v ∷ ws))

abbrev pub IsSolid : Str → Type 0
IsSolid [] = Unit
IsSolid (c ∷ s) = (is_space c ≡ false) × IsSolid s

abbrev pub IsWord : Str → Type 0
IsWord s = (is_empty s ≡ false) × IsSolid s

push-All : (w : Str) (ws : List Str) → IsSolid w → All IsWord ws → All IsWord (push w ws)
push-All [] ws h k = k
push-All (c ∷ w) ws h k = ((refl, h), k)

words-All : (s : Str) → IsSolid (words s).0 × All IsWord (words s).1
unfolding words
words-All [] = (tt, tt)
words-All (c ∷ s) =
    let (h, k) = words-All s in
    elim (Bool-cases (is_space c)) [
      | inl e ↦ rw e (tt, push-All (words s).0 (words s).1 h k)
      | inr e ↦ rw e ((e, h), k)
    ]

-- Every field is a word without white space.
pub fields-All : (s : Str) → All IsWord (fields s)
unfolding fields
fields-All s = let (h, k) = words-All s in push-All (words s).0 (words s).1 h k

words-append : (w s : Str) → IsSolid w → words (w ++ 32 ∷ s) ≡ (w, push (words s).0 (words s).1)
unfolding words
words-append [] s h = unfold is_space in refl
words-append (c ∷ w) s (h, hs) = rw (words-append w s hs, h)

words-solid : (w : Str) → IsSolid w → words w ≡ (w, [])
unfolding words
words-solid [] h = refl
words-solid (c ∷ w) (h, hs) = rw (words-solid w hs, h)

-- Words that are put together with single spaces are found again.
pub fields-join : (ws : List Str) → All IsWord ws → fields (join ws) ≡ ws
unfolding fields join
fields-join [] h = refl
fields-join ([] ∷ []) h = cc
fields-join ((c ∷ w) ∷ []) ((n, h), hs) = rw (words-solid (c ∷ w) h)
fields-join ([] ∷ v ∷ ws) h = cc
fields-join ((c ∷ w) ∷ v ∷ ws) ((n, h), hs) =
    rw (words-append (c ∷ w) (join (v ∷ ws)) h) (ap (λ t. (c ∷ w) ∷ t) (fields-join (v ∷ ws) hs))

lower-is_space : (c : ℕ) → is_space (lower c) ≡ is_space c
unfolding is_space lower
lower-is_space c = ground arith

lower-join : (ws : List Str) → to_lower (join ws) ≡ join (map to_lower ws)
unfolding join to_lower
lower-join [] = refl
lower-join (w ∷ []) = refl
lower-join (w ∷ v ∷ ws) =
    map-append lower w (32 ∷ join (v ∷ ws))
    ∙ ap (λ t. map lower w ++ (32 ∷ t)) (lower-join (v ∷ ws))

lower-IsSolid : (w : Str) → IsSolid w → IsSolid (to_lower w)
unfolding to_lower
lower-IsSolid [] h = tt
lower-IsSolid (c ∷ w) (h, hs) = (lower-is_space c ∙ h, lower-IsSolid w hs)

lower-All : (ws : List Str) → All IsWord ws → All IsWord (map to_lower ws)
unfolding to_lower
lower-All [] h = tt
lower-All ([] ∷ ws) h = cc
lower-All ((c ∷ w) ∷ ws) ((n, h), hs) = ((refl, lower-IsSolid (c ∷ w) h), lower-All ws hs)

lower_idem : (c : ℕ) → lower (lower c) ≡ lower c
unfolding lower
lower_idem c = ground arith

to_lower_idem : (s : Str) → to_lower (to_lower s) ≡ to_lower s
unfolding to_lower
to_lower_idem [] = refl
to_lower_idem (c ∷ s) = cc (lower_idem c, to_lower_idem s)

map-to_lower_idem : (ws : List Str) → map to_lower (map to_lower ws) ≡ map to_lower ws
map-to_lower_idem [] = refl
map-to_lower_idem (w ∷ ws) = cc (to_lower_idem w, map-to_lower_idem ws)

-- Lowering the case and collapsing the white space a second time changes nothing.
pub collapse_idem :
    (s : Str) → to_lower (join (fields (to_lower (join (fields s))))) ≡ to_lower (join (fields s))
collapse_idem s =
    let ws = map to_lower (fields s) in
    rw (lower-join (fields s), fields-join ws (lower-All (fields s) (fields-All s)), lower-join ws)
      (ap join (map-to_lower_idem (fields s)))
