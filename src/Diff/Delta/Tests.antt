-- ===== src/Diff/Delta/Tests.antt =====
-- Runs of the delta, and the theorems at concrete lists.
use auditloop.Base.{◌≡◌, refl, ◌&&◌, not, List, [], ◌∷◌, Str, codes, one_of, is_empty, arith, eqb}
use auditloop.Base.Text.Order.{sort, insert_sorted, IsAscending, less}
use auditloop.Diff.Delta.{string_set_delta, to_set, missing_from}
use auditloop.Diff.Delta.Laws.{string_set_delta-IsAscending}

abbrev before : List Str
before = codes "/b" ∷ codes "/a" ∷ [] ∷ codes "/b" ∷ []

abbrev after : List Str
after = codes "/c" ∷ codes "/b" ∷ codes "/a0" ∷ []

delta_test : string_set_delta before after ≡ (codes "/a0" ∷ codes "/c" ∷ [], codes "/a" ∷ [])
unfolding string_set_delta to_set missing_from sort insert_sorted less eqb one_of
delta_test = refl

string_set_delta-IsAscending_example :
    let (added, removed) = string_set_delta before after in
    IsAscending added
    × IsAscending removed
    × ((z : Str)
        → (one_of z added ≡ (one_of z after && not (one_of z before) && not (is_empty z)))
          × (one_of z removed ≡ (one_of z before && not (one_of z after) && not (is_empty z))))
string_set_delta-IsAscending_example = string_set_delta-IsAscending before after

abbrev pair : List Str
pair = codes "/a" ∷ codes "/b" ∷ []

abbrev pair_again : List Str
pair_again = codes "/b" ∷ codes "/a" ∷ codes "/b" ∷ []

pair_members : (z : Str) → one_of z pair ≡ one_of z pair_again
unfolding one_of
pair_members z = ground arith
