-- ===== src/Crawler/Drive/Success.antt =====
-- When the drive loop reports success.
use auditloop.Base.{
  ℕ, zero, suc, ◌+◌, ◌≤◌, ◌<◌, ◌≡◌, refl, ◌⊎◌, inl, inr, ◌&&◌, true, false, some, none, Option,
  arith, Bool-cases,
}
use auditloop.Action.{Kind, finish, Action, Violation, validate, SuccessAssertion}
use auditloop.Crawler.Guard.{Net, GuardConfig}
use auditloop.Crawler.Drive.{
  success, DriveTrace, Env, LoopState, RoundResult, returned, left, continued, ExecError,
  blocked_url, other_error, configured, round, concluded, proceed, drive_loop, settle, after_exec,
  exec_round, dispatch, validated, planned,
}

module _ (net : Net) (g : GuardConfig) (goal_met : SuccessAssertion) (env : Env) where
  -- The success condition was configured and was seen to hold: at a step of the loop, before or
  -- after the planner spoke, or after the loop.
  abbrev pub Observed : ℕ → ℕ → Type 0
  Observed first rounds =
      (configured net g goal_met env ≡ true)
      × ((env.final_probe ≡ true)
          ⊎ ((j : ℕ) × (first ≤ j)
              × (j < first + rounds)
              × (((env.browser j).probe ≡ true) ⊎ ((env.browser j).finish_check ≡ true))))

  -- A round that reports success has seen the condition hold.
  abbrev Sees : ℕ → RoundResult → Type 0
  Sees i (returned t) =
      (t.infra_failed ≡ false)
      × (t.outcome ≡ success
          → (configured net g goal_met env ≡ true)
            × (((env.browser i).probe ≡ true) ⊎ ((env.browser i).finish_check ≡ true)))
  Sees i _ = Unit

  settle-Sees :
      (i : ℕ) (s : LoopState) (act : Action) (error : Option ExecError)
      → Sees i (settle net g goal_met env i s act error)
  unfolding settle
  settle-Sees i s act error = ground arith

  after_exec-Sees :
      (i : ℕ) (s : LoopState) (act : Action) (error : Option ExecError)
      → Sees i (after_exec net g goal_met env i s act error)
  unfolding after_exec
  after_exec-Sees i s act (some (blocked_url r)) = (refl, λ h. cc)
  after_exec-Sees i s act (some other_error) = settle-Sees i s act _
  after_exec-Sees i s act none = settle-Sees i s act none

  dispatch-Sees :
      (k : Kind) (i : ℕ) (s : LoopState) (act : Action)
      → Sees i (dispatch net g goal_met env k i s act)
  unfolding exec_round
  dispatch-Sees finish i s act = ground arith
  dispatch-Sees _ i s act = elim (Bool-cases (env.browser i).nav_blocked) [
    | inl e ↦ rw e (refl, λ h. cc)
    | inr e ↦ rw e (after_exec-Sees i s act _)
  ]

  validated-Sees :
      (o : Option Violation) (i : ℕ) (s : LoopState) (act : Action)
      → Sees i (validated net g goal_met env o i s act)
  validated-Sees none i s act = dispatch-Sees act.kind i s act
  validated-Sees (some w) i s act = tt

  planned-Sees :
      (o : Option Action) (i : ℕ) (s : LoopState) → Sees i (planned net g goal_met env i s o)
  planned-Sees none i s = (refl, λ h. cc)
  planned-Sees (some act) i s = validated-Sees (validate act) i s act

  round-Sees : (i : ℕ) (s : LoopState) → Sees i (round net g goal_met env i s)
  unfolding round
  round-Sees i s = elim (Bool-cases (env.browser i).expired) [
    | inl e ↦ rw e tt
    | inr e ↦ elim (Bool-cases (configured net g goal_met env && (env.browser i).probe)) [
      | inl p ↦ rw (e, p) (refl, λ h. (ground arith, inl (ground arith)))
      | inr p ↦ rw (e, p) (planned-Sees _ i s)
    ]
  ]

  -- No infrastructure failure is claimed, and success only where the condition was seen.
  abbrev pub IsHonest : ℕ → ℕ → DriveTrace → Type 0
  IsHonest first rounds t = (t.infra_failed ≡ false) × (t.outcome ≡ success → Observed first rounds)

  concluded-IsHonest :
      (first rounds : ℕ) (s : LoopState) → IsHonest first rounds (concluded net g goal_met env s)
  unfolding concluded
  concluded-IsHonest first rounds s = (ground arith, λ h. (ground arith, inl (ground arith)))

  Observed-later : (first rounds : ℕ) → Observed (suc first) rounds → Observed first (suc rounds)
  Observed-later first rounds (c, inl f) = (c, inl f)
  Observed-later first rounds (c, inr (j, lo, hi, seen)) =
      (c, inr (j, omega arith, omega arith, seen))

  after_round-IsHonest :
      (rounds i : ℕ) (r : RoundResult)
      → Sees i r
      → ((s : LoopState) → IsHonest (suc i) rounds (drive_loop net g goal_met env rounds (suc i) s))
      → IsHonest i
          (suc rounds)
          (proceed net g goal_met env r (λ s'. drive_loop net g goal_met env rounds (suc i) s'))
  after_round-IsHonest rounds i (returned t) (real, sees) ih =
      (real, λ h. let (c, seen) = sees h in (c, inr (i, omega arith, omega arith, seen)))
  after_round-IsHonest rounds i (left s) sees ih = concluded-IsHonest i (suc rounds) s
  after_round-IsHonest rounds i (continued s) sees ih =
      let (real, seen) = ih s in (real, λ h. Observed-later i rounds (seen h))

  pub drive_loop-IsHonest :
      (rounds i : ℕ) (s : LoopState) → IsHonest i rounds (drive_loop net g goal_met env rounds i s)
  unfolding drive_loop
  drive_loop-IsHonest zero i s = concluded-IsHonest i zero s
  drive_loop-IsHonest (suc rounds) i s =
      after_round-IsHonest rounds i (round net g goal_met env i s) (round-Sees i s)
        (drive_loop-IsHonest rounds (suc i))
