-- ===== src/Crawler/Drive/Session/Laws.antt =====
-- What a caller of Drive may rely on.
use auditloop.Base.{
  ℕ, ◌≤◌, ◌≡◌, ◌≢◌, refl, inl, inr, Bool, true, false, not, ◌&&◌, Option, none, some, List, [], ◌∷◌,
  arith, Bool-cases, length,
}
use auditloop.Crawler.Guard.{Net, GuardConfig, Refusal, check_url}
use auditloop.Crawler.Intercept.{Interceptor, installed, arm_mutation_guard, Event, run}
use auditloop.Crawler.Intercept.Laws.{step_keeps_armed}
use auditloop.Crawler.Drive.{success, failed, DriveTrace, drive_loop}
use auditloop.Crawler.Drive.Traces.{IsHistory, drive_loop-Bounded}
use auditloop.Crawler.Drive.Success.{Observed, drive_loop-IsHonest}
use auditloop.Crawler.Drive.Session.{
  DriveOptions, LoginAnswer, SessionEnv, SessionResult, infra_error, ended, mark_stalled,
  apply_login_outcome, effective_max_actions, loop_start, first_page, start_driving, after_login,
  armed_if, trace_of, logged_in, login_stalled, login_refused, login_phase, drive_session, drive,
  empty_trace,
}

module _ (net : Net) (g : GuardConfig) (opts : DriveOptions) (env : SessionEnv) where
  abbrev most_rounds : ℕ
  most_rounds = effective_max_actions opts.max_actions

  -- The trace is bounded by the action budget and justified step by step; success was observed;
  -- an infrastructure failure is a failure and not an observation.
  pub record IsSound (t : DriveTrace) : Type 0 where
    pub history : IsHistory net g t.steps
    pub bounded : length t.steps ≤ most_rounds
    pub observed : t.outcome ≡ success → Observed net g opts.goal_met env.rounds 0 most_rounds
    pub infra : t.infra_failed ≡ true → (t.outcome ≡ failed) × (t.steps ≡ [])

  -- Nothing was driven unless the guard passes the start address and, in a dry run, the submit
  -- guard is armed.
  abbrev pub Ends : SessionResult → Type 0
  Ends infra_error = Unit
  Ends (ended ic t) =
      IsSound t
      × (t.steps ≢ []
          → (check_url net g opts.base_url ≡ none)
            × (opts.dry_run ≡ true → ic.dry_run_abort ≡ true))

  empty-IsSound : (t : DriveTrace) → t.steps ≡ [] → t.outcome ≡ failed → IsSound t
  empty-IsSound t e f = record {
    history = rw e (record { numbered = tt; justified = tt });
    bounded = rw e (omega arith);
    observed = λ h. cc;
    infra = λ h. (f, e);
  }

  loop-IsSound : IsSound (drive_loop net g opts.goal_met env.rounds most_rounds 0 loop_start)
  loop-IsSound =
      let (history, bound) =
        drive_loop-Bounded net g opts.goal_met env.rounds most_rounds 0 loop_start refl
          (record { numbered = tt; justified = tt }) in
      let (real, seen) =
        drive_loop-IsHonest net g opts.goal_met env.rounds most_rounds 0 loop_start in
      record { history = history; bounded = omega arith; observed = seen; infra = λ h. cc }

  run_keeps_armed :
      (es : List Event) (ic : Interceptor)
      → ic.dry_run_abort ≡ true
      → (run net g es ic).0.dry_run_abort ≡ true
  unfolding run
  run_keeps_armed [] ic a = a
  run_keeps_armed (e ∷ es) ic a = run_keeps_armed es _ (step_keeps_armed net g e ic a)

  abbrev Armed : Interceptor → Type 0
  Armed ic = opts.dry_run ≡ true → ic.dry_run_abort ≡ true

  first_page-Ends :
      (loads : Bool) (ic : Interceptor)
      → check_url net g opts.base_url ≡ none
      → Armed ic
      → Ends (first_page net g opts env loads ic)
  first_page-Ends true ic c a = (loop-IsSound, λ n. (c, a))
  first_page-Ends false ic c a = (empty-IsSound _ refl refl, λ n. absurd (n refl))

  start_driving-Ends :
      (o : Option Refusal) (ic : Interceptor)
      → check_url net g opts.base_url ≡ o
      → Armed ic
      → Ends (start_driving net g opts env o ic)
  start_driving-Ends (some r) ic c a = (empty-IsSound _ refl refl, λ n. absurd (n refl))
  start_driving-Ends none ic c a =
      first_page-Ends env.start_loads _ c (λ d. run_keeps_armed env.start_events ic (a d))

  armed_if-armed :
      (d : Bool) (ic : Interceptor) → d ≡ true → (armed_if net g opts env d ic).dry_run_abort ≡ true
  unfolding arm_mutation_guard
  armed_if-armed true ic h = refl
  armed_if-armed false ic h = cc

  after_login-Ends :
      (l : LoginAnswer) (ic : Interceptor)
      → Ends (after_login net g opts env (apply_login_outcome l) ic)
  unfolding apply_login_outcome
  after_login-Ends logged_in ic =
      start_driving-Ends _ (armed_if net g opts env opts.dry_run ic) refl
        (armed_if-armed opts.dry_run ic)
  after_login-Ends login_stalled ic = (empty-IsSound _ refl refl, λ n. absurd (n refl))
  after_login-Ends login_refused ic = (empty-IsSound _ refl refl, λ n. absurd (n refl))

  login_phase-Ends : (b : Bool) (ic : Interceptor) → Ends (login_phase net g opts env b ic)
  unfolding apply_login_outcome
  login_phase-Ends true ic = after_login-Ends env.login (run net g env.login_events ic).0
  login_phase-Ends false ic = after_login-Ends logged_in ic

  -- A drive session whose trace has a step started at an address that the guard passes and, in a
  -- dry run, runs the loop with the submit guard armed; its trace is sound.
  pub drive_session-Ends : Ends (drive_session net g opts env)
  unfolding drive_session
  drive_session-Ends = elim (Bool-cases (not env.starts)) [
    | inl e ↦ rw e tt
    | inr e ↦ elim (Bool-cases (not opts.skip_render_probe && not env.renders)) [
      | inl f ↦ rw (e, f) tt
      | inr f ↦ elim (Bool-cases (not env.intercepts)) [
        | inl k ↦ rw (e, f, k) tt
        | inr k ↦ rw (e, f, k) (login_phase-Ends opts.has_login (installed false))
      ]
    ]
  ]

  trace_of-IsSound :
      (r : SessionResult) {t : DriveTrace} → Ends r → trace_of net g opts env r ≡ some t → IsSound t
  trace_of-IsSound infra_error e h = cc
  trace_of-IsSound (ended ic t) {t = u} e h = let q : t ≡ u = cc in rw (← q) e.0

  -- A trace that Drive returns has at most as many steps as the action budget, numbered without
  -- gaps; each recorded action is valid or is recorded with the violation that rejected it, and a
  -- navigation that was carried out went to a URL that the guard passes. Success is reported only
  -- if the configured condition was seen to hold, and a trace marked as an infrastructure failure
  -- is a failed one without steps.
  pub drive-IsSound : (t : DriveTrace) → drive net g opts env ≡ some t → IsSound t
  unfolding drive
  drive-IsSound t h = elim (Bool-cases (not opts.has_planner)) [
    | inl e ↦ cc (rw e at h)
    | inr e ↦ elim (Bool-cases env.outlives_budget) [
      | inl o ↦
          let q : mark_stalled empty_trace ≡ t = cc (rw (e, o) at h) in
          rw (← q) (empty-IsSound (mark_stalled empty_trace) refl refl)
      | inr o ↦ trace_of-IsSound (drive_session net g opts env) drive_session-Ends (rw (e, o) at h)
    ]
  ]
