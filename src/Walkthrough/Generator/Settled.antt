-- ===== src/Walkthrough/Generator/Settled.antt =====
-- What a pass leaves in its row.
use auditloop.Base.{
  ℕ, ◌≡◌, refl, inl, inr, ◌⊎◌, Bool, true, Option, none, some, List, ◌++◌, Option-cases, Bool-cases,
  if◌then◌else◌, Str, codes, is_empty, All,
}
use auditloop.Db.Table.Laws.{All-update, update-All}
use auditloop.Db.Targets.{Target}
use auditloop.Db.Walkthroughs.{
  Walkthrough, Outcome, failure, done, failed, has_id, is_failure, finish_walkthrough,
  set_walkthrough_diff, get_walkthrough_by_id,
}
use auditloop.Walkthrough.Regression.{WalkthroughDiff}
use auditloop.Walkthrough.Refresh.{
  refresh_walkthrough_diff, diff_with_baseline, stored_diff, computed_diff,
}
use auditloop.Walkthrough.Generator.{
  DriveRequest, DriveEnd, drove, cancelled, driver_error, Pass, Services, or_stuck, settle, fail,
  progress, persist_steps, refresh, conclude, run_setup, setup, run_pass,
}

-- The end of a pass: its outcome, the step where it got stuck, the reason, and whether it tells
-- nothing about the product because the drive did not run.
pub record Ending : Type 0 where
  pub outcome : Outcome
  pub stuck_step : ℕ
  pub reason : Str
  pub infra_failed : Bool

abbrev pub ending_of : DriveEnd → Ending
ending_of (drove t) = record {
  outcome = or_stuck t.outcome;
  stuck_step = t.stuck_step;
  reason = t.reason;
  infra_failed = t.infra_failed;
}
ending_of cancelled = record {
  outcome = failure;
  stuck_step = 0;
  reason = codes "cancelled";
  infra_failed = true;
}
ending_of (driver_error message infra) = record {
  outcome = failure;
  stuck_step = 0;
  reason = codes "driver error: " ++ message;
  infra_failed = infra;
}

-- Without a drive a pass has failed for a reason of the setup, which is not the product's.
abbrev pub expected : Services → Str ⊎ (Target × DriveRequest) → Ending
expected srv (inl message) = record {
  outcome = failure;
  stuck_step = 0;
  reason = message;
  infra_failed = true;
}
expected srv (inr (tgt, request)) = ending_of (srv.drive request)

abbrev pub HasEnded : Ending → Walkthrough → Type 0
HasEnded e w =
    (w.status ≡ (if is_failure e.outcome then failed else done))
    × (w.outcome ≡ e.outcome)
    × (w.stuck_step ≡ e.stuck_step)
    × (w.reason ≡ e.reason)
    × (w.infra_failed ≡ e.infra_failed)

-- All rows of a walkthrough have ended so.
abbrev pub IsSettled : Str → Ending → List Walkthrough → Type 0
IsSettled id e rows = All (λ w. has_id id w ≡ true → HasEnded e w) rows

module _ (srv : Services) (id : Str) where
  settle-IsSettled :
      (e : Ending) (p : Pass)
      → IsSettled id e (settle srv id e.outcome e.stuck_step e.reason e.infra_failed p).walkthroughs
  unfolding settle finish_walkthrough
  settle-IsSettled e p =
      update-All (HasEnded e) (has_id id) _ p.walkthroughs (λ w. (refl, refl, refl, refl, refl))

  set_diff-IsSettled :
      (e : Ending) (cur json : Str) (now : ℕ) (rows : List Walkthrough)
      → IsSettled id e rows
      → IsSettled id e (set_walkthrough_diff cur json now rows)
  unfolding set_walkthrough_diff
  set_diff-IsSettled e cur json now rows h =
      All-update (λ w. has_id id w ≡ true → HasEnded e w) (has_id cur) _ rows (λ w q k. k) h

  stored_diff-IsSettled :
      (e : Ending) (cur : Str) (now : ℕ) (d : WalkthroughDiff) (rows : List Walkthrough)
      → IsSettled id e rows
      → IsSettled id e (stored_diff srv.evaluations cur now d rows).0
  unfolding stored_diff
  stored_diff-IsSettled e cur now d rows h = elim (Option-cases (srv.evaluations.diff_json d)) [
    | inl n ↦ rw (n, stored_diff) h
    | inr (json, q) ↦ rw (q, stored_diff) (set_diff-IsSettled e cur json now rows h)
  ]

  diff_with_baseline-IsSettled :
      (e : Ending) (cur : Walkthrough) (prev : Option Walkthrough) (now : ℕ)
      (rows : List Walkthrough)
      → IsSettled id e rows
      → IsSettled id e (diff_with_baseline srv.evaluations cur prev now rows).0
  unfolding diff_with_baseline
  diff_with_baseline-IsSettled e cur none now rows h = h
  diff_with_baseline-IsSettled e cur (some prev) now rows h =
      stored_diff-IsSettled e cur.id now (computed_diff srv.evaluations prev cur) rows h

  -- The comparison to the baseline leaves the end as it is.
  refresh-IsSettled :
      (e : Ending) (p : Pass)
      → IsSettled id e p.walkthroughs
      → IsSettled id e (refresh srv id p).walkthroughs
  unfolding refresh refresh_walkthrough_diff
  refresh-IsSettled e p h = elim (Option-cases (get_walkthrough_by_id id p.walkthroughs)) [
    | inl n ↦ rw (n, refresh_walkthrough_diff) h
    | inr (cur, q) ↦ elim (Bool-cases (is_empty cur.prev_walkthrough_id)) [
      | inl b ↦ rw (q, refresh_walkthrough_diff, b) h
      | inr b ↦
          rw (q, refresh_walkthrough_diff, b)
            (diff_with_baseline-IsSettled e cur
              (get_walkthrough_by_id cur.prev_walkthrough_id p.walkthroughs) srv.now p.walkthroughs
              h)
    ]
  ]

  conclude-IsSettled :
      (target_id : Str) (end : DriveEnd) (p : Pass)
      → IsSettled id (ending_of end) (conclude srv target_id id end p).walkthroughs
  unfolding conclude fail
  conclude-IsSettled target_id (drove t) p =
      let driven = persist_steps srv target_id id 0 t.steps (progress srv id 0 p) in
      let e = ending_of (drove t) in
      refresh-IsSettled e (settle srv id e.outcome e.stuck_step e.reason e.infra_failed driven)
        (settle-IsSettled e driven)
  conclude-IsSettled target_id cancelled p = settle-IsSettled (ending_of cancelled) p
  conclude-IsSettled target_id (driver_error message infra) p =
      settle-IsSettled (ending_of (driver_error message infra)) p

  run_setup-IsSettled :
      (s : Str ⊎ (Target × DriveRequest)) (p : Pass)
      → IsSettled id (expected srv s) (run_setup srv id s p).walkthroughs
  unfolding run_setup fail
  run_setup-IsSettled (inl message) p = settle-IsSettled (expected srv (inl message)) p
  run_setup-IsSettled (inr (tgt, request)) p = conclude-IsSettled tgt.id (srv.drive request) p

-- A pass over a walkthrough that is there ends its row in every case: as the drive ended, stuck where
-- the drive has no outcome, and without a drive as a failure of the infrastructure, with the message
-- of what was missing. The steps and the comparison to the baseline do not disturb that.
pub run_pass-IsSettled :
    (srv : Services) (id : Str) (p : Pass) (wk : Walkthrough)
    → get_walkthrough_by_id id p.walkthroughs ≡ some wk
    → IsSettled wk.id (expected srv (setup srv wk)) (run_pass srv id p).walkthroughs
unfolding run_pass
run_pass-IsSettled srv id p wk h = rw (h, run_pass) (run_setup-IsSettled srv wk.id (setup srv wk) p)
