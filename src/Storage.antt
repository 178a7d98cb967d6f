-- ===== src/Storage.antt =====
-- internal/storage/keys.go: the keys under which artifacts are stored. The digest of SHA-256, in
-- hexadecimal, is a parameter; the lower case is that of ASCII. All runes of a slug are ASCII, so
-- that its bytes are its runes.
pub mod Laws
use auditloop.Base.{
  ℕ, zero, suc, ◌+◌, Bool, true, false, ◌&&◌, ◌||◌, Option, none, some, List, [], ◌∷◌, ◌++◌, ltb,
  leb, ◌==◌, if◌then◌else◌, Str, codes, length, is_empty, one_of, trim_space, to_lower,
}
use auditloop.Base.Text.Pieces.{trim_prefix, from_first}
use auditloop.Base.Text.Scan.{trim, after_first}

-- s[:n]
abbrev pub take : ℕ → Str → Str
take zero s = []
take (suc n) [] = []
take (suc n) (c ∷ s) = c ∷ take n s

abbrev pub is_slug_rune : ℕ → Bool
is_slug_rune c = (leb b'a' c && leb c b'z') || (leb b'0' c && leb c b'9')

-- slugRe.ReplaceAllString(s, "-"); the flag tells that the rune before was replaced.
unfoldable pub dashes : Bool → Str → Str
dashes in_run [] = []
dashes in_run (c ∷ s) =
    let kept = c ∷ dashes false s in
    let more = dashes true s in
    if is_slug_rune c then kept else if in_run then more else b'-' ∷ more

abbrev pub is_dash : ℕ → Bool
is_dash c = c == b'-'

unfoldable pub slug : Str → Str
unfolding trim dashes trim_space to_lower
slug s =
    let t = trim is_dash (dashes false (to_lower (trim_space s))) in
    if is_empty t then codes "root" else if ltb 60 (length t) then take 60 t else t

-- What stands behind the scheme.
abbrev pub without_scheme : Str → Str
without_scheme url = elim (after_first (codes "://") url) [ some rest ↦ rest | none ↦ url ]

abbrev pub path_of : Str → Str
path_of s = elim (from_first b'/' s) [ some path ↦ path | none ↦ codes "/" ]

unfoldable pub page_slug : (Str → Str) → Str → Str
unfolding slug
page_slug sha256_hex url =
    slug (path_of (without_scheme url)) ++ (codes "-" ++ take 8 (sha256_hex url))

-- a + "/" + b
infixr 60 ◌slash◌
abbrev pub ◌slash◌ : Str → Str → Str
a slash b = a ++ b'/' ∷ b

unfoldable pub screenshot_key : Str → Str → Str → Str → Str
unfolding slug
screenshot_key target run page viewport =
    target slash run slash page slash (slug viewport ++ codes ".png")

unfoldable pub axe_key : Str → Str → Str → Str
axe_key target run page = target slash run slash page slash codes "axe.json"

unfoldable pub network_key : Str → Str → Str → Str
network_key target run page = target slash run slash page slash codes "network.json"

unfoldable pub a11y_digest_key : Str → Str → Str → Str
a11y_digest_key target run page = target slash run slash page slash codes "a11y.json"

unfoldable pub report_key : Str → Str → Str
report_key target run = target slash run slash codes "report.json"

unfoldable pub favicon_key : Str → Str → Str → Str
favicon_key target run ext =
    target slash run slash (codes "favicon." ++ (if is_empty ext then codes "png" else ext))

unfoldable pub login_test_key : Str → Str → Str
login_test_key target_id test_id =
    target_id slash codes "login-tests" slash (test_id ++ codes ".png")

-- The index stands as its digits.
unfoldable pub walkthrough_step_key : Str → Str → Str → Str
walkthrough_step_key target_id walkthrough_id idx =
    target_id slash codes "walkthroughs" slash walkthrough_id slash (idx ++ codes ".png")

unfoldable pub diff_key : Str → Str → Str → Str → Str
unfolding slug
diff_key target run page viewport =
    target slash run slash page slash (slug viewport ++ codes ".diff.png")

unfoldable pub favicon_content_type : Str → Str
unfolding one_of to_lower trim_prefix
favicon_content_type ext =
    let e = to_lower (trim_prefix ext (codes ".")) in
    if one_of e (codes "png" ∷ [])
    then codes "image/png"
    else if one_of e (codes "jpg" ∷ codes "jpeg" ∷ [])
    then codes "image/jpeg"
    else if one_of e (codes "gif" ∷ [])
    then codes "image/gif"
    else if one_of e (codes "webp" ∷ [])
    then codes "image/webp"
    else if one_of e (codes "ico" ∷ [])
    then codes "image/x-icon"
    else codes "application/octet-stream"
