-- ===== src/Crawler/Drive.antt =====
-- internal/crawler/driver.go: the goal-directed drive loop. What Chromium and the planner answer is
-- the argument; screenshots and digests, which no decision reads, are left out.
pub mod Session
pub mod Rounds
pub mod Traces
pub mod Success
pub mod Repeats
mod Tests
use auditloop.Base.{
  ℕ, zero, suc, ◌+◌, Bool, true, false, ◌&&◌, not, Option, none, some, List, [], ◌∷◌, ◌++◌, leb,
  ◌==◌, if◌then◌else◌, Str, eqb, length, one_of, is_some,
}
use auditloop.Action.{
  Kind, click, type_text, press, select, scroll, wait_for, navigate, finish, unknown, Action,
  Violation, allowed_keys, validate, dedup_key, SuccessAssertion, is_zero,
}
use auditloop.Crawler.Guard.{Net, GuardConfig, Refusal, check_url}

pub data Outcome : Type 0 where
  unset success stuck failed : Outcome

-- The texts of StepRecord.Outcome.
pub data StepOutcome : Type 0 where
  met finish_requested ssrf_blocked submit_blocked errored done : StepOutcome
  rejected : Violation → StepOutcome
  refused : Refusal → StepOutcome

-- lastOutcome, with the nudge that a repetition adds.
pub data LastOutcome : Type 0 where
  nothing : LastOutcome
  plain repeated : StepOutcome → LastOutcome

-- The texts of DriveTrace.Reason.
pub data TraceReason : Type 0 where
  no_reason planner_error ssrf_abort finished_unmet budget_spent : TraceReason
  stall_hint login_failed start_blocked start_failed : TraceReason
  navigation_refused start_refused : Refusal → TraceReason
  no_progress_after : ℕ → TraceReason

-- The action of a step is none where the loop itself writes a `finish`.
pub record StepRecord : Type 0 where
  pub idx : ℕ
  pub action : Option Action
  pub url : Str
  pub outcome : StepOutcome

pub record DriveTrace : Type 0 where
  pub outcome : Outcome
  pub stuck_step : ℕ
  pub reason : TraceReason
  pub steps : List StepRecord
  pub infra_failed : Bool

-- What the planner is shown.
pub record View : Type 0 where
  pub step_idx : ℕ
  pub url : Str
  pub history : List StepRecord
  pub last_outcome : LastOutcome

-- What the browser answers in one round: whether the overall time is over, the page's address
-- before and after the action, the two checks of the success condition, whether a navigation was
-- aborted, whether the action ran, and whether a mutating request was aborted.
pub record Browser : Type 0 where
  pub expired : Bool
  pub url : Str
  pub probe : Bool
  pub finish_check : Bool
  pub nav_blocked : Bool
  pub runs : Bool
  pub mutation_blocked : Bool
  pub new_url : Str

pub record Env : Type 0 where
  pub browser : ℕ → Browser
  pub planner : View → Option Action
  pub final_probe : Bool

-- The loop's variables; `seen` holds a key as often as it was counted.
pub record LoopState : Type 0 where
  pub seen : List Str
  pub no_progress : ℕ
  pub last_outcome : LastOutcome
  pub steps : List StepRecord

-- A round returns, leaves the loop, or goes on.
pub data RoundResult : Type 0 where
  returned : DriveTrace → RoundResult
  left : LoopState → RoundResult
  continued : LoopState → RoundResult

pub data ExecError : Type 0 where
  blocked_url : Refusal → ExecError
  other_error : ExecError

abbrev pub repeat_limit : ℕ
repeat_limit = 3

abbrev browser_error : Bool → Option ExecError
browser_error true = none
browser_error false = some other_error

abbrev pub traced : Outcome → ℕ → TraceReason → List StepRecord → DriveTrace
traced outcome stuck_step reason steps = record {
  outcome = outcome;
  stuck_step = stuck_step;
  reason = reason;
  steps = steps;
  infra_failed = false;
}

module _ (net : Net) (g : GuardConfig) where
  abbrev navigate_error : Option Refusal → Bool → Option ExecError
  navigate_error (some refusal) runs = some (blocked_url refusal)
  navigate_error none runs = browser_error runs

  -- execAction's error; `runs` says whether the browser's part succeeds.
  exec_action : Kind → Action → Bool → Option ExecError
  exec_action press a runs =
      if one_of a.key allowed_keys then browser_error runs else some other_error
  exec_action navigate a runs = navigate_error (check_url net g a.url) runs
  exec_action finish a runs = some other_error
  exec_action (unknown name) a runs = some other_error
  exec_action _ a runs = browser_error runs

  module _ (goal_met : SuccessAssertion) (env : Env) where
    abbrev pub configured : Bool
    configured = not (is_zero goal_met)

    abbrev recorded : LoopState → ℕ → Option Action → Str → StepOutcome → List StepRecord
    recorded s i act url outcome =
        s.steps ++ record { idx = i; action = act; url = url; outcome = outcome } ∷ []

    abbrev finish_round : ℕ → LoopState → Action → RoundResult
    finish_round i s act =
        let b = env.browser i in
        if configured && b.finish_check
        then returned (traced success 0 no_reason (recorded s i (some act) b.url met))
        else let steps = recorded s i (some act) b.url finish_requested in
          returned (traced stuck (length steps) finished_unmet steps)

    abbrev step_outcome : Browser → Option ExecError → StepOutcome
    step_outcome b error =
        if b.mutation_blocked then submit_blocked else if is_some error then errored else done

    -- What follows an action that was neither aborted nor refused.
    settle : ℕ → LoopState → Action → Option ExecError → RoundResult
    settle i s act error =
        let b = env.browser i in
        let key = dedup_key act b.url in
        let outcome = step_outcome b error in
        let steps = recorded s i (some act) b.url outcome in
        let stays = one_of key s.seen && eqb b.new_url b.url in
        let count : ℕ = if stays then s.no_progress + 1 else 0 in
        if leb repeat_limit count
        then returned (traced stuck (length steps) (no_progress_after count) steps)
        else continued (record {
          seen = key ∷ s.seen;
          no_progress = count;
          last_outcome = if stays then repeated outcome else plain outcome;
          steps = steps;
        })

    after_exec : ℕ → LoopState → Action → Option ExecError → RoundResult
    after_exec i s act (some (blocked_url refusal)) =
        let steps = recorded s i (some act) (env.browser i).url (refused refusal) in
        returned (traced failed (length steps) (navigation_refused refusal) steps)
    after_exec i s act error = settle i s act error

    exec_round : ℕ → LoopState → Action → RoundResult
    exec_round i s act =
        let b = env.browser i in
        let steps = recorded s i (some act) b.url ssrf_blocked in
        if b.nav_blocked
        then returned (traced failed (length steps) ssrf_abort steps)
        else after_exec i s act (exec_action act.kind act b.runs)

    abbrev dispatch : Kind → ℕ → LoopState → Action → RoundResult
    dispatch finish i s act = finish_round i s act
    dispatch _ i s act = exec_round i s act

    abbrev validated : Option Violation → ℕ → LoopState → Action → RoundResult
    validated (some v) i s act = continued (record s {
      steps = recorded s i (some act) (env.browser i).url (rejected v);
      last_outcome = plain (rejected v);
    })
    validated none i s act = dispatch act.kind i s act

    abbrev planned : ℕ → LoopState → Option Action → RoundResult
    planned i s none = returned (traced failed i planner_error s.steps)
    planned i s (some act) = validated (validate act) i s act

    -- One round of the loop.
    unfoldable round : ℕ → LoopState → RoundResult
    unfolding exec_action settle after_exec exec_round
    round i s =
        let b = env.browser i in
        if b.expired
        then left s
        else if configured && b.probe
        then returned (traced success 0 no_reason (recorded s i none b.url met))
        else planned i s (
            env.planner (record {
              step_idx = i;
              url = b.url;
              history = s.steps;
              last_outcome = s.last_outcome;
            }))

    -- What follows the loop.
    unfoldable pub concluded : LoopState → DriveTrace
    concluded s =
        if configured && env.final_probe
        then traced success 0 no_reason s.steps
        else traced stuck (length s.steps) budget_spent s.steps

    abbrev pub proceed : RoundResult → (LoopState → DriveTrace) → DriveTrace
    proceed (returned t) next = t
    proceed (left s) next = concluded s
    proceed (continued s) next = next s

    -- The loop with `rounds` rounds left, from round i on.
    unfoldable pub drive_loop : ℕ → ℕ → LoopState → DriveTrace
    unfolding round concluded
    drive_loop zero i s = concluded s
    drive_loop (suc rounds) i s = proceed (round i s) (λ s'. drive_loop rounds (suc i) s')
