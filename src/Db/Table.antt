-- ===== src/Db/Table.antt =====
-- A database table as the list of its rows, and the forms of SQL that internal/db uses. The number
-- of rows that an UPDATE reports is the number of rows that its WHERE fits.
pub mod Laws
use auditloop.Base.{
  ℕ, ◌+◌, Bool, true, false, Option, none, some, List, [], ◌∷◌, map, ltb, if◌then◌else◌, keep_if,
}

module _ {ℓ} {A : Type ℓ} where
  -- SELECT COUNT(*) … WHERE p
  abbrev pub count : (A → Bool) → List A → ℕ
  count p [] = 0
  count p (r ∷ rs) = (if p r then 1 else 0) + count p rs

  -- UPDATE … SET f WHERE p
  abbrev pub update : (A → Bool) → (A → A) → List A → List A
  update p f rows = map (λ r. if p r then f r else r) rows

  abbrev pub better : (A → A → Bool) → A → Option A → Option A
  better beats r none = some r
  better beats r (some s) = if beats s r then some s else some r

  -- SELECT … WHERE p ORDER BY … LIMIT 1. Of rows that no other beats it takes the first, where SQL
  -- may take any.
  abbrev pub best : (A → A → Bool) → (A → Bool) → List A → Option A
  best beats p [] = none
  best beats p (r ∷ rs) = let rest = best beats p rs in if p r then better beats r rest else rest

  -- ORDER BY time DESC
  abbrev pub newest : (A → ℕ) → (A → Bool) → List A → Option A
  newest time p rows = best (λ s r. ltb (time r) (time s)) p rows

  -- ORDER BY time ASC
  abbrev pub oldest : (A → ℕ) → (A → Bool) → List A → Option A
  oldest time p rows = best (λ s r. ltb (time s) (time r)) p rows

  -- SELECT … WHERE p, of which the first row is read.
  abbrev pub first : (A → Bool) → List A → Option A
  first p [] = none
  first p (r ∷ rs) = let rest = first p rs in if p r then some r else rest

  -- SELECT … WHERE p, of which all rows are read.
  abbrev pub keep_rows : (A → Bool) → List A → List A
  keep_rows p [] = []
  keep_rows p (r ∷ rs) = let rest = keep_rows p rs in if p r then r ∷ rest else rest

  abbrev pub insert_newest : (A → ℕ) → A → List A → List A
  insert_newest time r [] = r ∷ []
  insert_newest time r (s ∷ rs) =
      let rest = insert_newest time r rs in if ltb (time r) (time s) then s ∷ rest else r ∷ s ∷ rs

  -- ORDER BY time DESC
  abbrev pub sorted_newest : (A → ℕ) → List A → List A
  sorted_newest time [] = []
  sorted_newest time (r ∷ rs) = insert_newest time r (sorted_newest time rs)
