-- ===== src/Walkthrough/Regression/Laws.antt =====
-- When a walkthrough counts as a regression.
use auditloop.Base.{
  ◌<◌, ◌≡◌, ◌↔◌, ◌⊎◌, Bool, true, false, ◌&&◌, not, List, [], Str, one_of, is_empty,
}
use auditloop.Base.Int.{pos}
use auditloop.Db.Walkthroughs.{Walkthrough, stuck}
use auditloop.Walkthrough.Regression.{WalkthroughDiff, outcome_rank}

-- The present pass ended worse: with a lower outcome, or stuck as before but at an earlier step.
abbrev pub IsWorse : Walkthrough → Walkthrough → Type 0
IsWorse prev cur =
    outcome_rank cur.outcome < outcome_rank prev.outcome
    ⊎ ((prev.outcome ≡ stuck) × (cur.outcome ≡ stuck) × (cur.stuck_step < prev.stuck_step))

-- What a summary must say of two passes that both observed the goal; the blockers are those of the
-- two lists of keys, when these were compared.
abbrev pub IsScored :
    Walkthrough → Walkthrough → List Str → List Str → Bool → WalkthroughDiff → Type 0
IsScored prev cur prev_keys cur_keys compared d =
    (d.outcome_compared ≡ true)
    × ((d.is_regression ≡ true) ↔ IsWorse prev cur)
    × ((d.resolved ≡ true) ↔ (outcome_rank prev.outcome < outcome_rank cur.outcome))
    × (d.blockers_compared ≡ compared)
    × ((z : Str)
        → (one_of z d.new_task_blockers
            ≡ (compared && one_of z cur_keys && not (one_of z prev_keys) && not (is_empty z)))
          × (one_of z d.resolved_task_blockers
              ≡ (compared && one_of z prev_keys && not (one_of z cur_keys) && not (is_empty z))))

-- What it must say when one of them did not.
abbrev pub IsUnscored : WalkthroughDiff → Type 0
IsUnscored d =
    (d.outcome_compared ≡ false)
    × (d.is_regression ≡ false)
    × (d.resolved ≡ false)
    × (d.stuck_step_delta ≡ pos 0)
    × (d.blockers_compared ≡ false)
    × (d.new_task_blockers ≡ [])
    × (d.resolved_task_blockers ≡ [])
