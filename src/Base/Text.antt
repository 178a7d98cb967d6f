-- ===== src/Base/Text.antt =====
-- Go strings as lists of code points, with the functions of package strings that the sources use.
-- Case mapping is that of the ASCII letters; the white space is that of unicode.IsSpace.
pub mod Laws
pub mod Pieces
pub mod Fields
pub mod Order
pub mod Scan
use Prim.Native.Nat.{ℕ, ◌+◌, ◌-◌}
use Prim.Native.Char.{code}
use Prim.Native.String.{String}
use mathlib.Core.Path.{◌≡◌, refl}
use mathlib.Core.Logic.{◌↔◌}
use mathlib.Core.Bool.{Bool, true, false, ◌&&◌, ◌||◌}
use mathlib.Core.List.{List, [], ◌∷◌, map}
use native.Mathlib.Omega.{arith}
use auditloop.Base.Tests.{ltb, leb, ◌==◌, if◌then◌else◌}

abbrev pub Str : Type 0
Str = List ℕ

abbrev pub codes : String → Str
codes String.[] = []
codes (String.◌∷◌ c s) = code c ∷ codes s

-- `==` on Go strings.
unfoldable pub eqb : Str → Str → Bool
eqb [] [] = true
eqb [] (d ∷ t) = false
eqb (c ∷ s) [] = false
eqb (c ∷ s) (d ∷ t) = c == d && eqb s t

pub eqb_iff : (s t : Str) → (eqb s t ≡ true) ↔ (s ≡ t)
unfolding eqb
eqb_iff [] [] = ground arith
eqb_iff [] (d ∷ t) = ground arith
eqb_iff (c ∷ s) [] = ground arith
eqb_iff (c ∷ s) (d ∷ t) = ground (arith, eqb_iff s t)

pub eqb_refl : (s : Str) → eqb s s ≡ true
eqb_refl s = (eqb_iff s s).1 refl

abbrev pub is_empty : Str → Bool
is_empty [] = true
is_empty (c ∷ s) = false

-- A closed set of strings, as a list.
unfoldable pub one_of : Str → List Str → Bool
one_of s [] = false
one_of s (t ∷ ts) = eqb s t || one_of s ts

-- The number of UTF-8 bytes of a code point, and so `len` of a string.
unfoldable pub rune_len : ℕ → ℕ
rune_len c = if ltb c 0x80 then 1 else if ltb c 0x800 then 2 else if ltb c 0x10000 then 3 else 4

unfoldable pub len : Str → ℕ
unfolding rune_len
len [] = 0
len (c ∷ s) = rune_len c + len s

-- unicode.IsSpace
unfoldable pub is_space : ℕ → Bool
is_space c =
    (leb 9 c && leb c 13)
    || c == 32
    || c == 0x85
    || c == 0xA0
    || c == 0x1680
    || (leb 0x2000 c && leb c 0x200A)
    || c == 0x2028
    || c == 0x2029
    || c == 0x202F
    || c == 0x205F
    || c == 0x3000

-- strings.TrimLeftFunc and TrimRightFunc.
unfoldable pub trim_left : (ℕ → Bool) → Str → Str
trim_left p [] = []
trim_left p (c ∷ s) = if p c then trim_left p s else c ∷ s

-- An item goes if it fits and all that follows it went.
unfoldable pub trim_right : (ℕ → Bool) → Str → Str
trim_right p [] = []
trim_right p (c ∷ s) = let rest = trim_right p s in if p c && is_empty rest then [] else c ∷ rest

unfoldable pub trim_space : Str → Str
unfolding is_space trim_left trim_right
trim_space s = trim_right is_space (trim_left is_space s)

unfoldable pub lower : ℕ → ℕ
lower c = if leb b'A' c && leb c b'Z' then c + 32 else c

unfoldable pub upper : ℕ → ℕ
upper c = if leb b'a' c && leb c b'z' then c - 32 else c

unfoldable pub to_lower : Str → Str
unfolding lower
to_lower s = map lower s

unfoldable pub to_upper : Str → Str
unfolding upper
to_upper s = map upper s

unfoldable pub has_prefix : Str → Str → Bool
has_prefix s [] = true
has_prefix [] (d ∷ p) = false
has_prefix (c ∷ s) (d ∷ p) = c == d && has_prefix s p

-- strings.HasSuffix: some tail of the string is the suffix.
unfoldable pub has_suffix : Str → Str → Bool
unfolding eqb
has_suffix [] p = eqb [] p
has_suffix (c ∷ s) p = eqb (c ∷ s) p || has_suffix s p

unfoldable pub contains : Str → Str → Bool
unfolding has_prefix
contains [] p = has_prefix [] p
contains (c ∷ s) p = has_prefix (c ∷ s) p || contains s p
