-- ===== src/Diff/Delta.antt =====
-- internal/diff/delta.go: the elements that two lists of strings do not share.
pub mod Laws
mod Tests
use auditloop.Base.{
  Bool, true, false, ◌||◌, not, List, [], ◌∷◌, if◌then◌else◌, Str, is_empty, one_of, keep_if,
}
use auditloop.Base.Text.Order.{sort}

-- The keys of the map that toSet builds; the order in which a map is walked does not matter, since
-- what is collected is sorted.
unfoldable pub to_set : List Str → List Str
to_set [] = []
to_set (s ∷ ss) = let set = to_set ss in if is_empty s || one_of s set then set else s ∷ set

-- The elements of one set that the other lacks.
unfoldable pub missing_from : List Str → List Str → List Str
missing_from other [] = []
missing_from other (v ∷ vs) =
    let rest = missing_from other vs in if one_of v other then rest else v ∷ rest

unfoldable pub string_set_delta : List Str → List Str → List Str × List Str
string_set_delta prev cur =
    let prev_set = to_set prev in
    let cur_set = to_set cur in
    (sort (missing_from prev_set cur_set), sort (missing_from cur_set prev_set))
