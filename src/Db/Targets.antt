-- ===== src/Db/Targets.antt =====
-- internal/db/targets.go: the table of targets and the lookups by owner. Times are numbers; a fresh
-- id is an argument.
use auditloop.Base.{
  ℕ, Bool, false, ◌&&◌, Option, none, some, List, ◌∷◌, ◌==◌, if◌then◌else◌, is_some, Str, codes,
  eqb,
}
use auditloop.Db.Table.{count, update, newest, first, sorted_newest, keep_rows}

pub record Target : Type 0 where
  pub id : Str
  pub user_id : Str
  pub name : Str
  pub base_url : Str
  pub verified_domains : List Str
  pub auth_mode : Str
  pub driving_enabled : Bool
  pub allow_real_submit : Bool
  pub created_at : ℕ

abbrev pub is_owned : Str → Str → Target → Bool
is_owned user id t = eqb t.id id && eqb t.user_id user

-- The new target and the table; the primary key admits one row per id.
unfoldable pub create_target :
    Str → Str → Str → Str → List Str → ℕ → List Target → Option (Target × List Target)
create_target id user name base_url domains now targets =
    let t : Target = record {
      id = id;
      user_id = user;
      name = name;
      base_url = base_url;
      verified_domains = domains;
      auth_mode = codes "none";
      driving_enabled = false;
      allow_real_submit = false;
      created_at = now;
    } in
    if is_some (first (λ t. eqb t.id id) targets) then none else some (t, t ∷ targets)

unfoldable pub get_target : Str → Str → List Target → Option Target
get_target user id targets = first (is_owned user id) targets

unfoldable pub get_target_by_name : Str → Str → List Target → Option Target
get_target_by_name user name targets =
    newest (λ t. t.created_at) (λ t. eqb t.user_id user && eqb t.name name) targets

unfoldable pub get_target_by_id : Str → List Target → Option Target
get_target_by_id id targets = first (λ t. eqb t.id id) targets

unfoldable pub list_targets : Str → List Target → List Target
list_targets user targets =
    sorted_newest (λ t. t.created_at) (keep_rows (λ t. eqb t.user_id user) targets)

-- ErrNotFound, or the table.
unfoldable pub set_driving_config : Str → Str → Bool → Bool → List Target → Option (List Target)
set_driving_config user id driving real_submit targets =
    if count (is_owned user id) targets == 0
    then none
    else some (
        update (is_owned user id)
          (λ t. record t { driving_enabled = driving; allow_real_submit = real_submit }) targets)
