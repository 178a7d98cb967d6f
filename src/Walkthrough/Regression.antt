-- ===== src/Walkthrough/Regression.antt =====
-- internal/walkthrough/diff.go: the regression summary of two walkthroughs.
pub mod Laws
pub mod Blockers
mod Tests
use auditloop.Base.{
  ℕ, Bool, true, false, ◌&&◌, ◌||◌, not, List, [], ◌∷◌, ltb, if◌then◌else◌, Str, eqb, trim_space,
}
use auditloop.Base.Int.{ℤ, pos, sub_ℕ, is_neg}
use auditloop.Diff.Delta.{string_set_delta}
use auditloop.Db.Walkthroughs.{Walkthrough, Outcome, undecided, success, stuck, failure}

pub record WalkthroughDiff : Type 0 where
  pub prev_walkthrough_id : Str
  pub prev_at : ℕ
  pub prev_outcome : Outcome
  pub outcome : Outcome
  pub outcome_changed : Bool
  pub is_regression : Bool
  pub resolved : Bool
  pub stuck_step_delta : ℤ
  pub prev_stuck_step : ℕ
  pub stuck_step : ℕ
  pub reason_changed : Bool
  pub prev_reason : Str
  pub reason : Str
  pub new_task_blockers : List Str
  pub resolved_task_blockers : List Str
  pub blockers_compared : Bool
  pub outcome_compared : Bool
  pub infra_failed : Bool

-- An outcome that has not been decided ranks last.
unfoldable pub outcome_rank : Outcome → ℕ
outcome_rank undecided = 0
outcome_rank success = 3
outcome_rank stuck = 2
outcome_rank failure = 1

abbrev pub is_stuck : Outcome → Bool
is_stuck undecided = false
is_stuck success = false
is_stuck stuck = true
is_stuck failure = false

abbrev pub same_outcome : Outcome → Outcome → Bool
same_outcome undecided undecided = true
same_outcome success success = true
same_outcome stuck stuck = true
same_outcome failure failure = true
same_outcome _ _ = false

-- What can be said before the outcomes are scored.
abbrev pub described : Walkthrough → Walkthrough → Bool → WalkthroughDiff
described prev cur blockers_compared = record {
  prev_walkthrough_id = prev.id;
  prev_at = prev.updated_at;
  prev_outcome = prev.outcome;
  outcome = cur.outcome;
  outcome_changed = not (same_outcome prev.outcome cur.outcome);
  is_regression = false;
  resolved = false;
  stuck_step_delta = pos 0;
  prev_stuck_step = prev.stuck_step;
  stuck_step = cur.stuck_step;
  reason_changed = not (eqb (trim_space prev.reason) (trim_space cur.reason));
  prev_reason = prev.reason;
  reason = cur.reason;
  new_task_blockers = [];
  resolved_task_blockers = [];
  blockers_compared = blockers_compared;
  outcome_compared = not (cur.infra_failed || prev.infra_failed);
  infra_failed = cur.infra_failed;
}

abbrev pub scored_rank : Walkthrough → Walkthrough → WalkthroughDiff → WalkthroughDiff
scored_rank prev cur d =
    let before = outcome_rank prev.outcome in
    let now = outcome_rank cur.outcome in
    if ltb now before
    then record d { is_regression = true }
    else if ltb before now
    then record d { resolved = true }
    else d

abbrev pub scored_step : Walkthrough → Walkthrough → WalkthroughDiff → WalkthroughDiff
scored_step prev cur d =
    let delta = sub_ℕ cur.stuck_step prev.stuck_step in
    if is_stuck prev.outcome && is_stuck cur.outcome
    then record d { stuck_step_delta = delta; is_regression = is_neg delta || d.is_regression }
    else d

abbrev pub with_blockers : Bool → List Str → List Str → WalkthroughDiff → WalkthroughDiff
with_blockers compared prev_keys cur_keys d =
    let (added, removed) = string_set_delta prev_keys cur_keys in
    if compared then record d { new_task_blockers = added; resolved_task_blockers = removed } else d

-- The summary of two passes that both observed the goal, without the blockers.
unfoldable pub scored : Walkthrough → Walkthrough → Bool → WalkthroughDiff
unfolding outcome_rank
scored prev cur compared = scored_step prev cur (scored_rank prev cur (described prev cur compared))

unfoldable pub compute_diff :
    Walkthrough → Walkthrough → List Str → List Str → Bool → WalkthroughDiff
compute_diff prev cur prev_keys cur_keys blockers_compared =
    if cur.infra_failed || prev.infra_failed
    then record (described prev cur blockers_compared) { blockers_compared = false }
    else with_blockers blockers_compared prev_keys cur_keys (scored prev cur blockers_compared)
