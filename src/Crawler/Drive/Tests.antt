-- ===== src/Crawler/Drive/Tests.antt =====
-- Drives at concrete answers of the browser and the planner.
use auditloop.Base.{
  ℕ, ◌≡◌, refl, true, false, Option, none, some, [], codes, length, len, eqb, one_of, trim_space,
  ◌==◌, if◌then◌else◌,
}
use auditloop.Base.Int.{pos}
use auditloop.Action.{click, finish, Action, SuccessAssertion, is_zero, validate, dedup_key}
use auditloop.Action.Tests.{blank}
use auditloop.Crawler.Guard.Tests.{host_net, config, guard_runs}
use auditloop.Crawler.Intercept.{installed, arm_mutation_guard, run}
use auditloop.Crawler.Drive.{
  Outcome, success, stuck, no_progress_after, View, Browser, DriveTrace, drive_loop,
}
use auditloop.Crawler.Drive.Repeats.{repeats_are_stopped}
use auditloop.Crawler.Drive.Session.{
  DriveOptions, logged_in, SessionEnv, apply_login_outcome, effective_max_actions, loop_start,
  drive_session, drive,
}
use auditloop.Crawler.Drive.Session.Laws.{IsSound, Ends, drive_session-Ends, drive-IsSound}

abbrev still : Browser
still = record {
  expired = false;
  url = codes "/cart";
  probe = false;
  finish_check = true;
  nav_blocked = false;
  runs = true;
  mutation_blocked = false;
  new_url = codes "/cart";
}

abbrev press_buy : Action
press_buy = record (blank click) { selector = codes "#buy" }

-- Clicks for two rounds, then finishes.
abbrev shopper : View → Option Action
shopper v = some (if v.step_idx == 2 then blank finish else press_buy)

abbrev goal : SuccessAssertion
goal = record { selector = codes "#done"; url_contains = []; timeout_ms = pos 0 }

abbrev world : (View → Option Action) → SessionEnv
world planner = record {
  starts = true;
  renders = true;
  intercepts = true;
  login = logged_in;
  login_events = [];
  start_events = [];
  start_loads = true;
  outlives_budget = false;
  rounds = record { browser = λ i. still; planner = planner; final_probe = false };
}

abbrev shopping : DriveOptions
shopping = record {
  has_planner = true;
  goal_met = goal;
  base_url = codes "example.com";
  has_login = true;
  max_actions = pos 5;
  dry_run = true;
  skip_render_probe = false;
}

drives : Unit {0}
unfolding drive drive_loop validate dedup_key len one_of eqb is_zero trim_space
    effective_max_actions run installed arm_mutation_guard apply_login_outcome guard_runs
drives = tt

abbrev outcome_of : Option DriveTrace → Option (Outcome × ℕ)
outcome_of none = none
outcome_of (some t) = some (t.outcome, length t.steps)

shopper_succeeds : outcome_of (drive host_net config shopping (world shopper)) ≡ some (success, 3)
unfolding drives
shopper_succeeds = refl

repeater_sticks :
    outcome_of (drive host_net config shopping (world (λ v. some press_buy))) ≡ some (stuck, 4)
unfolding drives
repeater_sticks = refl

drive_session-Ends_example :
    Ends host_net config shopping
      (world shopper)
      (drive_session host_net config shopping (world shopper))
drive_session-Ends_example = drive_session-Ends host_net config shopping (world shopper)

abbrev shopped : DriveTrace
shopped =
    drive_loop host_net config goal (world shopper).rounds (effective_max_actions (pos 5)) 0
      loop_start

drive-IsSound_example : IsSound host_net config shopping (world shopper) shopped
unfolding drives
drive-IsSound_example = drive-IsSound host_net config shopping (world shopper) shopped refl

repeats_are_stopped_example :
    let t = drive_loop host_net config goal (world (λ v. some press_buy)).rounds 5 0 loop_start in
    (t.outcome ≡ stuck) × (t.reason ≡ no_progress_after 3)
unfolding validate len
repeats_are_stopped_example =
    repeats_are_stopped host_net config goal (world (λ v. some press_buy)).rounds (codes "/cart")
      press_buy
      (λ i. record {
        in_time = refl;
        unmet = refl;
        not_blocked = refl;
        before = refl;
        behind = refl;
      })
      (λ v. refl) refl (λ e. cc) (λ e. cc) 1
