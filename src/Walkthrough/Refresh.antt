-- ===== src/Walkthrough/Refresh.antt =====
-- internal/walkthrough/diff.go, RefreshWalkthroughDiff: the summary of a stored walkthrough, from the
-- tables. The evaluations of a run, the decoder of their findings and json.Marshal are parameters.
use auditloop.Base.{
  ℕ, Bool, true, false, ◌&&◌, Option, none, some, List, [], if◌then◌else◌, Str, is_empty,
}
use auditloop.Db.Runs.{
  Run, EvalStatus, eval_idle, eval_generating, eval_done, eval_failed, get_run_by_id,
}
use auditloop.Db.Walkthroughs.{Walkthrough, get_walkthrough_by_id, set_walkthrough_diff}
use auditloop.Report.{EvalFinding}
use auditloop.Walkthrough.Regression.{WalkthroughDiff, compute_diff}
use auditloop.Walkthrough.Regression.Blockers.{PageEvaluation, blocker_keys_from_evaluations}

abbrev pub is_eval_done : EvalStatus → Bool
is_eval_done eval_idle = false
is_eval_done eval_generating = false
is_eval_done eval_done = true
is_eval_done eval_failed = false

-- What the refresh reads besides the walkthroughs.
pub record Evaluations : Type 0 where
  pub runs : List Run
  pub evaluations : Str → List PageEvaluation
  pub decode_blockers : Str → Option (List EvalFinding)
  pub diff_json : WalkthroughDiff → Option Str

module _ (ev : Evaluations) where
  -- The keys, and whether there was an evaluation to take them from.
  unfoldable pub walkthrough_blocker_keys : Walkthrough → List Str × Bool
  unfolding get_run_by_id blocker_keys_from_evaluations
  walkthrough_blocker_keys wk =
      if is_empty wk.run_id then ([], false) else elim (get_run_by_id wk.run_id ev.runs) [
        | none ↦ ([], false)
        | some run ↦
            if is_eval_done run.eval_status
            then (blocker_keys_from_evaluations ev.decode_blockers (ev.evaluations wk.run_id), true)
            else ([], false)
      ]

  unfoldable pub computed_diff : Walkthrough → Walkthrough → WalkthroughDiff
  unfolding walkthrough_blocker_keys compute_diff
  computed_diff prev cur =
      let (prev_keys, prev_has) = walkthrough_blocker_keys prev in
      let (cur_keys, cur_has) = walkthrough_blocker_keys cur in
      compute_diff prev cur prev_keys cur_keys (prev_has && cur_has)

  unfoldable pub stored_diff :
      Str → ℕ → WalkthroughDiff → List Walkthrough → List Walkthrough × Option WalkthroughDiff
  unfolding set_walkthrough_diff
  stored_diff id now d rows = elim (ev.diff_json d) [
    | none ↦ (rows, none)
    | some json ↦ (set_walkthrough_diff id json now rows, some d)
  ]

  unfoldable pub diff_with_baseline :
      Walkthrough
      → Option Walkthrough
      → ℕ
      → List Walkthrough
      → List Walkthrough × Option WalkthroughDiff
  unfolding computed_diff stored_diff
  diff_with_baseline cur none now rows = (rows, none)
  diff_with_baseline cur (some prev) now rows = stored_diff cur.id now (computed_diff prev cur) rows

  -- The table, and the summary if there is one; a missing walkthrough is an error that has none.
  unfoldable pub refresh_walkthrough_diff :
      Str → ℕ → List Walkthrough → List Walkthrough × Option WalkthroughDiff
  unfolding get_walkthrough_by_id diff_with_baseline
  refresh_walkthrough_diff id now rows = elim (get_walkthrough_by_id id rows) [
    | none ↦ (rows, none)
    | some cur ↦
        if is_empty cur.prev_walkthrough_id
        then (rows, none)
        else diff_with_baseline cur (get_walkthrough_by_id cur.prev_walkthrough_id rows) now rows
  ]
