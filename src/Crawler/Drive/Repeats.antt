-- ===== src/Crawler/Drive/Repeats.antt =====
-- The drive loop under a planner that repeats itself on a page that does not change.
use auditloop.Base.{
  ℕ, zero, suc, ◌+◌, ◌≤◌, ◌<◌, ◌≡◌, ◌≢◌, refl, ap, ◌∙◌, inl, inr, ◌&&◌, Bool, true, false, Option,
  none, some, [], arith, Bool-cases, Str, eqb_refl, one_of,
}
use auditloop.Action.{Kind, navigate, finish, Action, validate, dedup_key, SuccessAssertion}
use auditloop.Crawler.Guard.{Net, GuardConfig, Refusal}
use auditloop.Crawler.Drive.{
  stuck, no_progress_after, DriveTrace, View, Browser, Env, LoopState, RoundResult, returned,
  continued, ExecError, blocked_url, other_error, exec_action, settle, after_exec, exec_round,
  dispatch, validated, planned, configured, left, proceed, round, drive_loop,
}
use auditloop.Crawler.Drive.Session.{loop_start}

-- The page stays at one address, nothing is aborted, and the condition is not seen.
pub record IsQuiet (url : Str) (b : Browser) : Type 0 where
  pub in_time : b.expired ≡ false
  pub unmet : b.probe ≡ false
  pub not_blocked : b.nav_blocked ≡ false
  pub before : b.url ≡ url
  pub behind : b.new_url ≡ url

module _ (net : Net) (g : GuardConfig) (goal_met : SuccessAssertion) (env : Env) (url : Str)
    (act : Action) (quiet : (i : ℕ) → IsQuiet url (env.browser i))
    (always : (v : View) → env.planner v ≡ some act) (valid : validate act ≡ none)
    (acts : act.kind ≢ finish) (stays_here : act.kind ≢ navigate) where
  -- A round whose action was seen before counts one more repetition.
  abbrev Counts : LoopState → RoundResult → Type 0
  Counts s (returned t) =
      (s.no_progress ≡ 2) × (t.outcome ≡ stuck) × (t.reason ≡ no_progress_after 3)
  Counts s (continued s') =
      (s.no_progress < 2)
      × (s.no_progress + 1 ≡ s'.no_progress)
      × (one_of (dedup_key act url) s'.seen ≡ true)
  Counts s _ = ⊥

  settle-Counts :
      (i : ℕ) (s : LoopState) (error : Option ExecError)
      → s.no_progress + 1 ≤ 3
      → one_of (dedup_key act url) s.seen ≡ true
      → Counts s (settle net g goal_met env i s act error)
  unfolding settle one_of
  settle-Counts i s error n seen =
      ground (arith, quiet i, eqb_refl url, eqb_refl (dedup_key act url))

  no_block :
      (runs : Bool) (r : Refusal) → exec_action net g act.kind act runs ≢ some (blocked_url r)
  unfolding exec_action
  no_block runs r e = ground arith

  after_exec_settles :
      (i : ℕ) (s : LoopState) (error : Option ExecError)
      → ((r : Refusal) → error ≢ some (blocked_url r))
      → after_exec net g goal_met env i s act error ≡ settle net g goal_met env i s act error
  unfolding after_exec
  after_exec_settles i s (some (blocked_url r)) b = absurd (b r refl)
  after_exec_settles i s (some other_error) b = refl
  after_exec_settles i s none b = refl

  abbrev error_at : ℕ → Option ExecError
  error_at i = exec_action net g act.kind act (env.browser i).runs

  exec_round_settles :
      (i : ℕ) (s : LoopState)
      → exec_round net g goal_met env i s act ≡ settle net g goal_met env i s act (error_at i)
  unfolding exec_round
  exec_round_settles i s =
      rw ((quiet i).not_blocked)
        (after_exec_settles i s (error_at i) (no_block (env.browser i).runs))

  dispatched :
      (k : Kind) (i : ℕ) (s : LoopState)
      → k ≢ finish
      → dispatch net g goal_met env k i s act ≡ exec_round net g goal_met env i s act
  dispatched finish i s n = absurd (n refl)
  dispatched _ i s n = refl

  view : ℕ → LoopState → View
  view i s = record {
    step_idx = i;
    url = (env.browser i).url;
    history = s.steps;
    last_outcome = s.last_outcome;
  }

  asks :
      (i : ℕ) (s : LoopState)
      → round net g goal_met env i s ≡ planned net g goal_met env i s (env.planner (view i s))
  unfolding round view
  asks i s = elim (Bool-cases (configured net g goal_met env && (env.browser i).probe)) [
    | inl e ↦ ground (arith, quiet i)
    | inr e ↦ rw ((quiet i).in_time, e)
  ]

  -- With the planner's answer known, a round is the end of the action's execution.
  round_settles :
      (i : ℕ) (s : LoopState)
      → round net g goal_met env i s ≡ settle net g goal_met env i s act (error_at i)
  round_settles i s =
      asks i s
      ∙ ap (planned net g goal_met env i s) (always (view i s))
      ∙ ap (λ o. validated net g goal_met env o i s act) valid
      ∙ dispatched act.kind i s acts
      ∙ exec_round_settles i s

  round-Counts :
      (i : ℕ) (s : LoopState)
      → s.no_progress + 1 ≤ 3
      → one_of (dedup_key act url) s.seen ≡ true
      → Counts s (round net g goal_met env i s)
  round-Counts i s n seen = rw (round_settles i s) (settle-Counts i s (error_at i) n seen)

  abbrev pub Stops : DriveTrace → Type 0
  Stops t = (t.outcome ≡ stuck) × (t.reason ≡ no_progress_after 3)

  continue_to_stop :
      (k rounds i : ℕ) (s : LoopState) (r : RoundResult)
      → Counts s r
      → s.no_progress + suc k ≡ 3
      → ((s' : LoopState)
          → 0 < k
          → s'.no_progress + k ≡ 3
          → one_of (dedup_key act url) s'.seen ≡ true
          → Stops (drive_loop net g goal_met env (k + rounds) (suc i) s'))
      → Stops (
          proceed net g goal_met env r
            (λ s'. drive_loop net g goal_met env (k + rounds) (suc i) s'))
  continue_to_stop k rounds i s (returned t) (two, outcome, reason) n ih = (outcome, reason)
  continue_to_stop k rounds i s (continued s') (few, one_more, seen) n ih =
      ih s' (omega arith) (omega arith) seen
  continue_to_stop k rounds i s (left s') c n ih = absurd c

  repeats_stop :
      (k rounds i : ℕ) (s : LoopState)
      → s.no_progress + suc k ≡ 3
      → one_of (dedup_key act url) s.seen ≡ true
      → Stops (drive_loop net g goal_met env (suc (k + rounds)) i s)
  unfolding drive_loop
  repeats_stop zero rounds i s n seen =
      continue_to_stop zero rounds i s (round net g goal_met env i s)
        (round-Counts i s (omega arith) seen) n (λ s' p e o. elim p [ ])
  repeats_stop (suc k) rounds i s n seen =
      continue_to_stop (suc k) rounds i s (round net g goal_met env i s)
        (round-Counts i s (omega arith) seen) n
        (λ s' p e o.
          let shift : suc k + rounds ≡ suc (k + rounds) = omega arith in
          rw shift (repeats_stop k rounds (suc i) s' e o))

  -- The first time the action is only noted.
  abbrev Notes : LoopState → RoundResult → Type 0
  Notes s (continued s') = (s'.no_progress ≡ 0) × (one_of (dedup_key act url) s'.seen ≡ true)
  Notes s _ = ⊥

  settle-Notes :
      (i : ℕ) (s : LoopState) (error : Option ExecError)
      → s.seen ≡ []
      → Notes s (settle net g goal_met env i s act error)
  unfolding settle one_of
  settle-Notes i s error n = ground (arith, quiet i, eqb_refl (dedup_key act url))

  note_then_stop :
      (rounds : ℕ) (r : RoundResult)
      → Notes loop_start r
      → Stops (
          proceed net g goal_met env r
            (λ s'. drive_loop net g goal_met env (suc (suc (suc rounds))) 1 s'))
  note_then_stop rounds (returned t) n = absurd n
  note_then_stop rounds (left s) n = absurd n
  note_then_stop rounds (continued s) (fresh, seen) =
      let e : suc (2 + rounds) ≡ suc (suc (suc rounds)) = omega arith in
      rw (← e) (repeats_stop 2 rounds 1 s (omega arith) seen)

  -- A planner that always asks for the same valid action, neither a finish nor a navigation, on a
  -- page that stays at one address with nothing aborted and the condition unmet, is stopped: with
  -- a budget of at least four actions the drive ends as stuck, after three repetitions.
  pub repeats_are_stopped :
      (rounds : ℕ) → Stops (drive_loop net g goal_met env (4 + rounds) 0 loop_start)
  repeats_are_stopped rounds =
      let e : 4 + rounds ≡ suc (suc (suc (suc rounds))) = omega arith in
      rw e (
        unfold drive_loop in
        note_then_stop rounds (round net g goal_met env 0 loop_start)
          (rw (round_settles 0 loop_start) (settle-Notes 0 loop_start (error_at 0) refl)))
