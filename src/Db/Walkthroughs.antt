-- ===== src/Db/Walkthroughs.antt =====
-- internal/db/walkthrough.go: the table of walkthroughs, the passes of the goal-directed driver. The
-- cost columns are left out; ids and times are arguments.
pub mod Baselines
pub mod Passes
mod Tests
use auditloop.Base.{
  ℕ, Bool, true, false, ◌&&◌, ◌||◌, not, Option, none, some, List, [], ◌∷◌, ◌==◌, if◌then◌else◌,
  is_some, Str, codes, eqb,
}
use auditloop.Db.Table.{count, update, newest, first}

pub data WalkStatus : Type 0 where
  idle driving done failed : WalkStatus

-- `undecided` is the empty outcome of a pass that has not ended.
pub data Outcome : Type 0 where
  undecided success stuck failure : Outcome

pub record Walkthrough : Type 0 where
  pub id : Str
  pub target_id : Str
  pub run_id : Str
  pub goal : Str
  pub outcome : Outcome
  pub stuck_step : ℕ
  pub reason : Str
  pub dry_run : Bool
  pub status : WalkStatus
  pub steps_total : ℕ
  pub steps_done : ℕ
  pub prev_walkthrough_id : Str
  pub diff_json : Str
  pub infra_failed : Bool
  pub created_at : ℕ
  pub updated_at : ℕ

abbrev pub is_driving : WalkStatus → Bool
is_driving idle = false
is_driving driving = true
is_driving done = false
is_driving failed = false

-- status IN (done, failed)
abbrev pub is_terminal : WalkStatus → Bool
is_terminal idle = false
is_terminal driving = false
is_terminal done = true
is_terminal failed = true

abbrev pub is_failure : Outcome → Bool
is_failure undecided = false
is_failure success = false
is_failure stuck = false
is_failure failure = true

abbrev pub has_id : Str → Walkthrough → Bool
has_id id w = eqb w.id id

abbrev pub can_be_baseline : Str → Walkthrough → Bool
can_be_baseline target w = eqb w.target_id target && is_terminal w.status && not w.infra_failed

abbrev pub id_of : Option Walkthrough → Str
id_of none = []
id_of (some w) = w.id

unfoldable pub latest_terminal_id : Str → List Walkthrough → Str
latest_terminal_id target rows = id_of (newest (λ w. w.created_at) (can_be_baseline target) rows)

abbrev pub new_walkthrough : Str → Str → Str → Str → Bool → ℕ → List Walkthrough → Walkthrough
new_walkthrough id target run goal dry_run now rows = record {
  id = id;
  target_id = target;
  run_id = run;
  goal = goal;
  outcome = undecided;
  stuck_step = 0;
  reason = [];
  dry_run = dry_run;
  status = idle;
  steps_total = 0;
  steps_done = 0;
  prev_walkthrough_id = latest_terminal_id target rows;
  diff_json = [];
  infra_failed = false;
  created_at = now;
  updated_at = now;
}

-- The INSERT fails on an id that is taken.
unfoldable pub create_walkthrough :
    Str → Str → Str → Str → Bool → ℕ → List Walkthrough → Option (List Walkthrough)
create_walkthrough id target run goal dry_run now rows =
    if is_some (first (has_id id) rows)
    then none
    else some (new_walkthrough id target run goal dry_run now rows ∷ rows)

unfoldable pub set_walkthrough_diff : Str → Str → ℕ → List Walkthrough → List Walkthrough
set_walkthrough_diff id diff now rows =
    update (has_id id) (λ w. record w { diff_json = diff; updated_at = now }) rows

unfoldable pub get_walkthrough_by_id : Str → List Walkthrough → Option Walkthrough
get_walkthrough_by_id id rows = first (has_id id) rows

abbrev pub claimable : Str → Walkthrough → Bool
claimable id w = has_id id w && not (is_driving w.status)

-- A fresh pass, with nothing left of the one before.
abbrev pub driven : ℕ → ℕ → Walkthrough → Walkthrough
driven steps_total now w = record w {
  status = driving;
  steps_done = 0;
  steps_total = steps_total;
  outcome = undecided;
  stuck_step = 0;
  reason = [];
  infra_failed = false;
  updated_at = now;
}

-- Whether the caller won the pass, and the table.
unfoldable pub claim_walkthrough_job : Str → ℕ → ℕ → List Walkthrough → Bool × List Walkthrough
claim_walkthrough_job id steps_total now rows =
    (count (claimable id) rows == 1, update (claimable id) (driven steps_total now) rows)

unfoldable pub update_walkthrough_progress : Str → ℕ → ℕ → List Walkthrough → List Walkthrough
update_walkthrough_progress id steps now rows =
    update (has_id id) (λ w. record w { steps_done = steps; updated_at = now }) rows

unfoldable pub finish_walkthrough :
    Str → Outcome → ℕ → Str → Bool → ℕ → List Walkthrough → List Walkthrough
finish_walkthrough id outcome stuck_step reason infra_failed now rows =
    let status = if is_failure outcome then failed else done in
    update (has_id id)
      (λ w. record w {
        status = status;
        outcome = outcome;
        stuck_step = stuck_step;
        reason = reason;
        infra_failed = infra_failed;
        updated_at = now;
      })
      rows

-- The table and the number of rows swept.
unfoldable pub mark_driving_failed : ℕ → List Walkthrough → List Walkthrough × ℕ
mark_driving_failed now rows = (
  update (λ w. is_driving w.status)
      (λ w. record w {
        status = failed;
        outcome = failure;
        reason = codes "interrupted by restart — re-run the walkthrough";
        infra_failed = true;
        updated_at = now;
      })
      rows,
  count (λ w. is_driving w.status) rows,
)

abbrev pub as_observed : Str → Str → Walkthrough → Bool
as_observed id observed w = has_id id w && eqb w.run_id observed

-- The compare-and-swap of MaterializeWalkthroughRun: the run id is set only where it is still the
-- one that was observed.
unfoldable pub claim_materialization :
    Str → Str → Str → ℕ → List Walkthrough → Bool × List Walkthrough
claim_materialization id observed run now rows = (
  count (as_observed id observed) rows == 1,
  update (as_observed id observed) (λ w. record w { run_id = run; updated_at = now }) rows,
)
