-- ===== src/Walkthrough/Generator.antt =====
-- internal/walkthrough/generator.go: a goal-directed pass, from its row to its outcome. What a pass
-- writes is a Pass; all that it reads and calls besides is a record Services, with the drive itself. A
-- pass writes through db/walkthrough.go, where only InsertWalkthroughStep may fail. The planner and
-- its cost, and the metrics but for the regressions, are left out.
pub mod Laws
pub mod Settled
mod Tests
use auditloop.Base.{
  ℕ, ◌+◌, Bool, true, false, ◌&&◌, ◌||◌, not, Option, none, some, ◌⊎◌, inl, inr, List, [], ◌∷◌,
  ◌++◌, ltb, if◌then◌else◌, Str, codes, is_empty, len, trim_space, to_lower,
}
use auditloop.Base.Int.{ℤ, pos, is_pos}
use auditloop.Action.{SuccessAssertion, is_zero}
use auditloop.Db.Targets.{Target, get_target_by_id}
use auditloop.Db.Walkthroughs.{
  Walkthrough, Outcome, undecided, success, stuck, failure, get_walkthrough_by_id,
  update_walkthrough_progress, finish_walkthrough,
}
use auditloop.Recipe.Login.{Login, Vault, build_login}
use auditloop.Storage.{walkthrough_step_key}
use auditloop.Walkthrough.Regression.{WalkthroughDiff}
use auditloop.Walkthrough.Refresh.{Evaluations, refresh_walkthrough_diff}

abbrev pub default_max_actions : ℤ
default_max_actions = pos 20

abbrev pub max_driver_err : ℕ
max_driver_err = 600

-- The part of a target's audit configuration that a pass reads.
pub record AuditConfig : Type 0 where
  pub primary_job : Str
  pub success_selector : Str
  pub success_url_contains : Str
  pub success_timeout_ms : ℤ

pub record DriveRequest : Type 0 where
  pub base_url : Str
  pub allowed_hosts : List Str
  pub login : Option Login
  pub goal : Str
  pub success : SuccessAssertion
  pub max_actions : ℤ
  pub dry_run : Bool

pub record DrivenStep : Type 0 where
  pub idx : ℕ
  pub action_json : Str
  pub url : Str
  pub screenshot_png : Str
  pub outcome : Str
  pub planner_reason : Str
  pub a11y_digest_json : Str

pub record Driven : Type 0 where
  -- Undecided where the trace has none.
  pub outcome : Outcome
  pub stuck_step : ℕ
  pub reason : Str
  pub infra_failed : Bool
  pub steps : List DrivenStep

pub data DriveEnd : Type 0 where
  drove : Driven → DriveEnd
  -- The context ended.
  cancelled : DriveEnd
  -- The message, cut to max_driver_err, and whether the trace or the error tells of the
  -- infrastructure.
  driver_error : Str → Bool → DriveEnd

pub record WalkthroughStep : Type 0 where
  pub walkthrough_id : Str
  pub idx : ℕ
  pub action_json : Str
  pub url : Str
  pub screenshot_key : Str
  pub outcome : Str
  pub planner_reason : Str
  pub digest_json : Str

pub record Pass : Type 0 where
  pub walkthroughs : List Walkthrough
  pub steps : List WalkthroughStep
  pub objects : List (Str × (Str × Str))
  pub regressions : ℕ

pub record Services : Type 0 where
  pub targets : List Target
  pub audit_config : Str → Str → Option AuditConfig
  pub vault : Vault
  pub evaluations : Evaluations
  pub drive : DriveRequest → DriveEnd
  pub max_actions : ℤ
  pub now : ℕ
  pub put_fails : Str → Bool
  pub step_fails : ℕ → Bool
  pub host_of : Str → Str
  -- strconv.Itoa
  pub digits : ℕ → Str

abbrev pub or_stuck : Outcome → Outcome
or_stuck undecided = stuck
or_stuck success = success
or_stuck stuck = stuck
or_stuck failure = failure

module _ (srv : Services) where
  unfoldable pub allowed_hosts : Target → List Str
  unfolding to_lower
  allowed_hosts tgt = elim tgt.verified_domains [
    | d ∷ ds ↦ d ∷ ds
    | [] ↦
        (let host = to_lower (srv.host_of tgt.base_url) in if is_empty host then [] else host ∷ [])
  ]

  abbrev pub success_of : AuditConfig → SuccessAssertion
  success_of cfg = record {
    selector = trim_space cfg.success_selector;
    url_contains = trim_space cfg.success_url_contains;
    timeout_ms = cfg.success_timeout_ms;
  }

  abbrev pub goal_of : Walkthrough → AuditConfig → Str
  goal_of wk cfg =
      let goal = trim_space wk.goal in if is_empty goal then trim_space cfg.primary_job else goal

  unfoldable pub drive_request : Walkthrough → Target → AuditConfig → Option Login → DriveRequest
  unfolding allowed_hosts
  drive_request wk tgt cfg login = record {
    base_url = tgt.base_url;
    allowed_hosts = allowed_hosts tgt;
    login = login;
    goal = goal_of wk cfg;
    success = success_of cfg;
    max_actions = if is_pos srv.max_actions then srv.max_actions else default_max_actions;
    dry_run = wk.dry_run || not tgt.allow_real_submit;
  }

  -- The message of what is missing, or what to ask of the driver.
  abbrev pub requested :
      Walkthrough → Target → AuditConfig → Str ⊎ Option Login → Str ⊎ (Target × DriveRequest)
  requested wk tgt cfg (inl message) = inl message
  requested wk tgt cfg (inr login) = inr (tgt, drive_request wk tgt cfg login)

  unfoldable pub configured :
      Walkthrough → Target → Option AuditConfig → Str ⊎ (Target × DriveRequest)
  unfolding is_zero build_login
  configured wk tgt none =
      inl (codes "no audit configuration — set a goal and success condition first")
  configured wk tgt (some cfg) =
      if is_zero (success_of cfg)
      then inl (codes "no success condition configured — cannot detect goal completion")
      else requested wk tgt cfg (build_login srv.vault tgt)

  unfoldable pub permitted : Walkthrough → Option Target → Str ⊎ (Target × DriveRequest)
  unfolding configured
  permitted wk none = inl (codes "target lookup failed")
  permitted wk (some tgt) =
      if not tgt.driving_enabled
      then inl (codes "driving is not enabled for this target")
      else configured wk tgt (srv.audit_config tgt.user_id tgt.id)

  -- Run up to the drive.
  unfoldable pub setup : Walkthrough → Str ⊎ (Target × DriveRequest)
  unfolding permitted get_target_by_id
  setup wk = permitted wk (get_target_by_id wk.target_id srv.targets)

  unfoldable pub settle : Str → Outcome → ℕ → Str → Bool → Pass → Pass
  unfolding finish_walkthrough
  settle id outcome stuck_step reason infra p = record p {
    walkthroughs = finish_walkthrough id outcome stuck_step reason infra srv.now p.walkthroughs;
  }

  unfoldable pub fail : Str → Str → Bool → Pass → Pass
  unfolding settle
  fail id reason infra p = settle id failure 0 reason infra p

  unfoldable pub progress : Str → ℕ → Pass → Pass
  unfolding update_walkthrough_progress
  progress id done p = record p {
    walkthroughs = update_walkthrough_progress id done srv.now p.walkthroughs;
  }

  -- The upload of a step's screenshot, and the key, empty when there is none.
  unfoldable pub upload_shot : Str → Str → DrivenStep → Pass → Str × Pass
  unfolding walkthrough_step_key
  upload_shot target_id id step p =
      let key = walkthrough_step_key target_id id (srv.digits step.idx) in
      if is_empty step.screenshot_png
      then ([], p)
      else if srv.put_fails key
      then ([], p)
      else (key, record p { objects = (key, (codes "image/png", step.screenshot_png)) ∷ p.objects })

  unfoldable pub insert_step : Str → DrivenStep → Str × Pass → Pass
  insert_step id step (key, p) = if srv.step_fails step.idx then p else record p {
    steps =
        p.steps
        ++ record {
          walkthrough_id = id;
          idx = step.idx;
          action_json = step.action_json;
          url = step.url;
          screenshot_key = key;
          outcome = step.outcome;
          planner_reason = step.planner_reason;
          digest_json = step.a11y_digest_json;
        }
          ∷ [];
  }

  -- The loop over the trace; `done` steps are behind it.
  unfoldable pub persist_steps : Str → Str → ℕ → List DrivenStep → Pass → Pass
  unfolding upload_shot insert_step progress
  persist_steps target_id id done [] p = p
  persist_steps target_id id done (step ∷ steps) p =
      persist_steps target_id id (done + 1) steps
        (progress id (done + 1) (insert_step id step (upload_shot target_id id step p)))

  abbrev pub counted : Option WalkthroughDiff → ℕ → ℕ
  counted none n = n
  counted (some d) n = if d.is_regression then n + 1 else n

  unfoldable pub refresh : Str → Pass → Pass
  unfolding refresh_walkthrough_diff
  refresh id p =
      let (rows, d) = refresh_walkthrough_diff srv.evaluations id srv.now p.walkthroughs in
      record p { walkthroughs = rows; regressions = counted d p.regressions }

  -- Run from the drive's end on.
  unfoldable pub conclude : Str → Str → DriveEnd → Pass → Pass
  unfolding settle fail progress persist_steps refresh
  conclude target_id id (drove t) p = refresh id (
      settle id (or_stuck t.outcome) t.stuck_step t.reason t.infra_failed
        (persist_steps target_id id 0 t.steps (progress id 0 p)))
  conclude target_id id cancelled p = settle id failure 0 (codes "cancelled") true p
  conclude target_id id (driver_error message infra) p =
      fail id (codes "driver error: " ++ message) infra p

  unfoldable pub run_setup : Str → Str ⊎ (Target × DriveRequest) → Pass → Pass
  unfolding fail conclude
  run_setup id (inl message) p = fail id message true p
  run_setup id (inr (tgt, request)) p = conclude tgt.id id (srv.drive request) p

  -- Run; an unknown walkthrough is an error that changes nothing.
  unfoldable pub run_pass : Str → Pass → Pass
  unfolding get_walkthrough_by_id setup run_setup
  run_pass id p = elim (get_walkthrough_by_id id p.walkthroughs) [
    | none ↦ p
    | some wk ↦ run_setup wk.id (setup wk) p
  ]
