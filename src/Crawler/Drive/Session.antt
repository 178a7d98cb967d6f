-- ===== src/Crawler/Drive/Session.antt =====
-- internal/crawler/driver.go, driveSession and Drive: what comes before the loop, and the watchdog.
pub mod Laws
use auditloop.Base.{
  ℕ, ◌<◌, Bool, true, false, ◌&&◌, not, Option, none, some, List, [], ltb, if◌then◌else◌, Str,
}
use auditloop.Base.Int.{ℤ, pos_part, is_pos}
use auditloop.Action.{SuccessAssertion}
use auditloop.Crawler.Guard.{Net, GuardConfig, Refusal, check_url}
use auditloop.Crawler.Intercept.{
  Interceptor, installed, arm_mutation_guard, blocked_count, Event, run,
}
use auditloop.Crawler.Drive.{
  unset, failed, TraceReason, stall_hint, login_failed, start_refused, start_blocked, start_failed,
  no_reason, nothing, DriveTrace, Env, LoopState, traced, drive_loop,
}

pub record DriveOptions : Type 0 where
  pub has_planner : Bool
  pub goal_met : SuccessAssertion
  pub base_url : Str
  pub has_login : Bool
  pub max_actions : ℤ
  pub dry_run : Bool
  pub skip_render_probe : Bool

pub data LoginAnswer : Type 0 where
  logged_in login_stalled login_refused : LoginAnswer

-- What happens around the loop: the browser's start, the requests that are paused in the login
-- phase and in the first navigation, and whether the whole session outlives its budget.
pub record SessionEnv : Type 0 where
  pub starts : Bool
  pub renders : Bool
  pub intercepts : Bool
  pub login : LoginAnswer
  pub login_events : List Event
  pub start_events : List Event
  pub start_loads : Bool
  pub outlives_budget : Bool
  pub rounds : Env

-- driveSession returns an error that wraps ErrDriverInfra, or a trace; the interceptor is the one
-- that the loop runs with.
pub data SessionResult : Type 0 where
  infra_error : SessionResult
  ended : Interceptor → DriveTrace → SessionResult

unfoldable pub mark_stalled : DriveTrace → DriveTrace
mark_stalled t = record t { outcome = failed; reason = stall_hint; infra_failed = true }

abbrev pub empty_trace : DriveTrace
empty_trace = traced unset 0 no_reason []

-- applyLoginOutcome: the trace that ends the session, if the login failed.
unfoldable pub apply_login_outcome : LoginAnswer → Option DriveTrace
unfolding mark_stalled
apply_login_outcome logged_in = none
apply_login_outcome login_stalled = some (mark_stalled empty_trace)
apply_login_outcome login_refused = some (traced failed 0 login_failed [])

abbrev pub default_max_actions : ℕ
default_max_actions = 20

unfoldable pub effective_max_actions : ℤ → ℕ
effective_max_actions n = if is_pos n then pos_part n else default_max_actions

abbrev pub loop_start : LoopState
loop_start = record { seen = []; no_progress = 0; last_outcome = nothing; steps = [] }

module _ (net : Net) (g : GuardConfig) (opts : DriveOptions) (env : SessionEnv) where
  abbrev armed_if : Bool → Interceptor → Interceptor
  armed_if true ic = arm_mutation_guard ic
  armed_if false ic = ic

  -- What follows the first navigation, which loads the page or not.
  abbrev first_page : Bool → Interceptor → SessionResult
  first_page true ic = ended ic (
      drive_loop net g opts.goal_met env.rounds (effective_max_actions opts.max_actions) 0
        loop_start)
  first_page false ic =
      ended ic
        (traced failed 0 (if ltb 0 (blocked_count ic) then start_blocked else start_failed) [])

  abbrev start_driving : Option Refusal → Interceptor → SessionResult
  start_driving (some refusal) ic = ended ic (traced failed 0 (start_refused refusal) [])
  start_driving none ic = first_page env.start_loads (run net g env.start_events ic).0

  abbrev after_login : Option DriveTrace → Interceptor → SessionResult
  after_login (some t) ic = ended ic t
  after_login none ic = start_driving (check_url net g opts.base_url) (armed_if opts.dry_run ic)

  abbrev login_phase : Bool → Interceptor → SessionResult
  login_phase true ic =
      after_login (apply_login_outcome env.login) (run net g env.login_events ic).0
  login_phase false ic = after_login none ic

  unfoldable pub drive_session : SessionResult
  drive_session =
      if not env.starts
      then infra_error
      else if not opts.skip_render_probe && not env.renders
      then infra_error
      else if not env.intercepts
      then infra_error
      else login_phase opts.has_login (installed false)

  abbrev trace_of : SessionResult → Option DriveTrace
  trace_of infra_error = none
  trace_of (ended ic t) = some t

  -- Drive; none is an error that wraps ErrDriverInfra.
  unfoldable pub drive : Option DriveTrace
  unfolding drive_session mark_stalled
  drive =
      if not opts.has_planner
      then none
      else if env.outlives_budget
      then some (mark_stalled empty_trace)
      else trace_of drive_session
