-- ===== src/Db/Walkthroughs/Passes.antt =====
-- Histories of passes: the statements of internal/db/walkthrough.go in any order, with the wins and
-- the ends of passes counted.
pub mod Coherence
pub mod Exclusive
use auditloop.Base.{
  ℕ, ◌+◌, ◌≤◌, ◌≡◌, ◌≢◌, refl, sym, ap, ◌∙◌, ◌⊎◌, inl, inr, Bool, true, false, ◌&&◌, ◌||◌, not,
  Option, none, some, List, [], ◌∷◌, ◌++◌, arith, ◌==◌, if◌then◌else◌, Option-cases, Bool-cases,
  Str, eqb, eqb_iff, is_some, All, All-weaken,
}
use auditloop.Db.Table.{count, update, first}
use auditloop.Db.Table.Laws.{
  All-update, first-none, count-zero, count-update, count-update_le, count-update_clear,
}
use auditloop.Db.Walkthroughs.{
  Walkthrough, WalkStatus, idle, driving, done, failed, Outcome, undecided, success, stuck, failure,
  is_driving, is_terminal, is_failure, has_id, claimable, create_walkthrough, set_walkthrough_diff,
  claim_walkthrough_job, update_walkthrough_progress, finish_walkthrough, mark_driving_failed,
  claim_materialization, new_walkthrough,
}

pub data Verdict : Type 0 where
  reached got_stuck hard_failure : Verdict

abbrev pub outcome_of : Verdict → Outcome
outcome_of reached = success
outcome_of got_stuck = stuck
outcome_of hard_failure = failure

-- The statements on the table; those of a pass are issued by the caller that won it.
pub data Event : Type 0 where
  create : (id target run goal : Str) → (dry_run : Bool) → (now : ℕ) → Event
  claim : (id : Str) → (steps_total now : ℕ) → Event
  progress : (id : Str) → (steps now : ℕ) → Event
  finish :
      (id : Str)
      → Verdict
      → (stuck_step : ℕ) → (reason : Str) → (infra_failed : Bool) → (now : ℕ) → Event
  set_diff : (id diff : Str) → (now : ℕ) → Event
  materialize : (id observed run : Str) → (now : ℕ) → Event
  restart : (now : ℕ) → Event

abbrev pub kept : Option (List Walkthrough) → List Walkthrough → List Walkthrough
kept none rows = rows
kept (some new_rows) rows = new_rows

unfoldable pub step : Event → List Walkthrough → List Walkthrough
step (create id target run goal dry_run now) rows =
    kept (create_walkthrough id target run goal dry_run now rows) rows
step (claim id total now) rows = (claim_walkthrough_job id total now rows).1
step (progress id steps now) rows = update_walkthrough_progress id steps now rows
step (finish id v stuck_step reason infra now) rows =
    finish_walkthrough id (outcome_of v) stuck_step reason infra now rows
step (set_diff id diff now) rows = set_walkthrough_diff id diff now rows
step (materialize id observed run now) rows = (claim_materialization id observed run now rows).1
step (restart now) rows = (mark_driving_failed now rows).0

unfoldable pub history : List Event → List Walkthrough → List Walkthrough
history [] rows = rows
history (e ∷ es) rows = history es (step e rows)

-- How many of the events win the pass of the walkthrough, and how many end a pass.
abbrev pub win : Str → Event → List Walkthrough → ℕ
win id (claim i total now) rows =
    if eqb i id && (claim_walkthrough_job i total now rows).0 then 1 else 0
win id (create i target run goal dry_run now) rows = 0
win id (progress i steps now) rows = 0
win id (finish i v stuck_step reason infra now) rows = 0
win id (set_diff i diff now) rows = 0
win id (materialize i observed run now) rows = 0
win id (restart now) rows = 0

abbrev pub end : Str → Event → ℕ
end id (finish i v stuck_step reason infra now) = if eqb i id then 1 else 0
end id (restart now) = 1
end id (create i target run goal dry_run now) = 0
end id (claim i total now) = 0
end id (progress i steps now) = 0
end id (set_diff i diff now) = 0
end id (materialize i observed run now) = 0

abbrev pub wins : Str → List Event → List Walkthrough → ℕ
wins id [] rows = 0
wins id (e ∷ es) rows = win id e rows + wins id es (step e rows)

abbrev pub ends : Str → List Event → ℕ
ends id [] = 0
ends id (e ∷ es) = end id e + ends id es
