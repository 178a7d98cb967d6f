-- ===== src/Artifacts.antt =====
-- handlers/artifacts.go: who may read a stored artifact. The backend's Get is a parameter.
pub mod Segments
pub mod Laws
mod Tests
use auditloop.Base.{
  ℕ, Bool, true, false, ◌||◌, Option, none, some, List, [], ◌∷◌, ◌++◌, any, ◌==◌, if◌then◌else◌,
  is_some, Str, codes, eqb, is_empty, contains,
}
use auditloop.Base.Text.Scan.{after_last}
use auditloop.Db.Targets.{Target, get_target}
use auditloop.Db.Runs.{Run, get_run}
use auditloop.Storage.{favicon_content_type}

abbrev pub onto_first : ℕ → List Str → List Str
onto_first c [] = (c ∷ []) ∷ []
onto_first c (part ∷ parts) = (c ∷ part) ∷ parts

-- strings.Split with a separator of one byte.
unfoldable pub split : ℕ → Str → List Str
split c [] = [] ∷ []
split c (d ∷ s) = let rest = split c s in if d == c then [] ∷ rest else onto_first d rest

-- The last c and what stands behind it; empty when there is none.
unfoldable pub from_last : ℕ → Str → Str
from_last c [] = []
from_last c (d ∷ s) =
    let later = from_last c s in if any (λ e. e == c) s then later else if d == c then d ∷ s else []

-- path.Ext
unfoldable pub path_ext : Str → Str
unfolding after_last from_last
path_ext path = from_last b'.' (after_last (λ c. c == b'/') path)

abbrev pub is_target_scope : Str → Bool
is_target_scope part = eqb part (codes "login-tests") || eqb part (codes "walkthroughs")

unfoldable pub owns_parts : Str → List Target → List Run → List Str → Bool
unfolding get_target get_run
owns_parts user targets runs [] = false
owns_parts user targets runs (first ∷ []) = false
owns_parts user targets runs (first ∷ second ∷ more) =
    if is_empty first || is_empty second
    then false
    else if is_target_scope second
    then is_some (get_target user first targets)
    else is_some (get_run user second runs)

unfoldable pub owns_artifact : Str → List Target → List Run → Str → Bool
unfolding split
owns_artifact user targets runs key = owns_parts user targets runs (split b'/' key)

abbrev pub second_part : List Str → Option Str
second_part [] = none
second_part (first ∷ []) = none
second_part (first ∷ second ∷ more) = if is_empty second then none else some second

unfoldable pub artifact_run_id : Str → Option Str
unfolding split
artifact_run_id key = second_part (split b'/' key)

unfoldable pub content_type_for : Str → Str
unfolding path_ext favicon_content_type eqb
content_type_for key =
    let ext = path_ext key in
    if eqb ext (codes ".json") then codes "application/json" else favicon_content_type ext

pub data Response : Type 0 where
  bad_request not_found : Response
  -- The content type and the body.
  served : Str → Str → Response

abbrev pub served_as : Str → Option Str → Response
served_as content_type none = not_found
served_as content_type (some body) = served content_type body

unfoldable pub stream_artifact : (Str → Option Str) → Str → Response
unfolding content_type_for
stream_artifact stored key = served_as (content_type_for key) (stored key)

unfoldable pub handle_artifact : (Str → Option Str) → List Target → List Run → Str → Str → Response
unfolding contains owns_artifact stream_artifact
handle_artifact stored targets runs user key =
    if is_empty key || contains key (codes "..")
    then bad_request
    else if owns_artifact user targets runs key
    then stream_artifact stored key
    else not_found

unfoldable pub artifact_url : Str → Str
artifact_url [] = []
artifact_url (c ∷ key) = codes "/artifacts/" ++ c ∷ key
