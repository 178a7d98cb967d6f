-- ===== src/Base/Text/Scan.antt =====
-- strings.Index and its kin, as the pieces that stand before and behind a place.
pub mod Laws
use Prim.Native.Nat.{ℕ}
use mathlib.Core.Path.{◌≡◌, refl}
use mathlib.Core.Bool.{Bool, true, false, ◌||◌}
use mathlib.Core.Option
use mathlib.Core.Option.{Option, none, some}
use mathlib.Core.List.{List, [], ◌∷◌, ◌++◌}
use auditloop.Base.Tests.{◌==◌, if◌then◌else◌, is_some}
use auditloop.Base.Lists.{length, any}
use auditloop.Base.Text.{Str, has_prefix, trim_left, trim_right, is_empty, one_of}
use auditloop.Base.Text.Pieces.{cut_at, drop}

-- s[:i], where i is the first place that fits; all of s when there is none.
unfoldable pub until : (ℕ → Bool) → Str → Str
until p [] = []
until p (c ∷ s) = if p c then [] else c ∷ until p s

-- s[i+1:], where i is the last place that fits; all of s when there is none.
unfoldable pub after_last : (ℕ → Bool) → Str → Str
after_last p [] = []
after_last p (c ∷ s) =
    let later = after_last p s in if any p s then later else if p c then s else c ∷ s

-- What stands before and behind the first c.
unfoldable pub split_at : ℕ → Str → Option (Str × Str)
split_at c [] = none
split_at c (d ∷ s) =
    let later = Option.map (λ (parts : Str × Str). (d ∷ parts.0, parts.1)) (split_at c s) in
    if d == c then some ([], s) else later

-- s[strings.Index(s, p)+len(p):]
unfoldable pub after_first : Str → Str → Option Str
unfolding cut_at drop
after_first p s = Option.map (λ (parts : Str × Str). drop (length p) parts.1) (cut_at p s)

-- strings.Trim with a cutset.
unfoldable pub trim : (ℕ → Bool) → Str → Str
unfolding trim_left trim_right
trim p s = trim_right p (trim_left p s)

abbrev pub is_quote : ℕ → Bool
is_quote c = c == 34 || c == 39

abbrev pub is_any : Str → ℕ → Bool
is_any [] c = false
is_any (d ∷ ds) c = c == d || is_any ds c

abbrev dedupe_beyond : List Str → List Str → List Str
dedupe_beyond seen [] = []
dedupe_beyond seen (s ∷ ss) =
    let skip = dedupe_beyond seen ss in
    let keep = dedupe_beyond (s ∷ seen) ss in if is_empty s || one_of s seen then skip else s ∷ keep

-- The texts that are not empty, each at its first place.
unfoldable pub dedupe : List Str → List Str
dedupe ss = dedupe_beyond [] ss
