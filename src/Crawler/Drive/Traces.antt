-- ===== src/Crawler/Drive/Traces.antt =====
-- What the trace of the whole drive loop satisfies.
use auditloop.Base.{
  ℕ, zero, suc, ◌+◌, ◌≤◌, ◌≡◌, inl, inr, List, [], ◌∷◌, arith, length, length-append, All,
  All-append,
}
use auditloop.Action.{SuccessAssertion}
use auditloop.Crawler.Guard.{Net, GuardConfig}
use auditloop.Crawler.Drive.{
  StepRecord, DriveTrace, Env, LoopState, RoundResult, returned, left, continued, round, concluded,
  drive_loop, proceed,
}
use auditloop.Crawler.Drive.Rounds.{Numbered, Numbered-snoc, IsJustified, Adds, Grows, round-Grows}

module _ (net : Net) (g : GuardConfig) where
  -- A list of steps that is numbered without gaps and justified step by step.
  pub record IsHistory (steps : List StepRecord) : Type 0 where
    pub numbered : Numbered 0 steps
    pub justified : All (IsJustified net g) steps

  Adds-IsHistory :
      (i : ℕ) (old new : List StepRecord)
      → Adds net g i old new
      → length old ≡ i
      → IsHistory old
      → IsHistory new × (length new ≡ suc i)
  Adds-IsHistory i old new (r, e, n, j) l h = rw e (
    record {
      numbered = Numbered-snoc 0 old r h.numbered (omega arith);
      justified = All-append (IsJustified net g) old (r ∷ []) h.justified (j, tt);
    },
    omega (arith, length-append old (r ∷ [])),
  )

  module _ (goal_met : SuccessAssertion) (env : Env) where
    concluded-steps : (s : LoopState) → (concluded net g goal_met env s).steps ≡ s.steps
    unfolding concluded
    concluded-steps s = ground arith

    abbrev pub Bounded : ℕ → DriveTrace → Type 0
    Bounded most t = IsHistory t.steps × (length t.steps ≤ most)

    returned-Bounded :
        (i : ℕ) (s : LoopState) (t : DriveTrace)
        → Grows net g goal_met env i s (returned t)
        → length s.steps ≡ i
        → IsHistory s.steps
        → Bounded (suc i) t
    returned-Bounded i s t (inl e) l h = rw e (h, omega arith)
    returned-Bounded i s t (inr a) l h =
        let (h', l') = Adds-IsHistory i s.steps t.steps a l h in (h', omega arith)

    concluded-Bounded :
        (i : ℕ) (s : LoopState)
        → length s.steps ≡ i
        → IsHistory s.steps
        → Bounded i (concluded net g goal_met env s)
    concluded-Bounded i s l h = rw (concluded-steps s) (h, omega arith)

    after_round :
        (rounds i : ℕ) (s : LoopState) (r : RoundResult)
        → Grows net g goal_met env i s r
        → length s.steps ≡ i
        → IsHistory s.steps
        → ((s' : LoopState)
            → length s'.steps ≡ suc i
            → IsHistory s'.steps
            → Bounded (suc i + rounds) (drive_loop net g goal_met env rounds (suc i) s'))
        → Bounded
            (suc i + rounds)
            (proceed net g goal_met env r (λ s'. drive_loop net g goal_met env rounds (suc i) s'))
    after_round rounds i s (returned t) grows l h ih =
        let (h', b) = returned-Bounded i s t grows l h in (h', omega arith)
    after_round rounds i s (left s') grows l h ih =
        let (h', b) = concluded-Bounded i s l h in rw grows (h', omega arith)
    after_round rounds i s (continued s') grows l h ih =
        let (h', l') = Adds-IsHistory i s.steps s'.steps grows l h in ih s' l' h'

    pub drive_loop-Bounded :
        (rounds i : ℕ) (s : LoopState)
        → length s.steps ≡ i
        → IsHistory s.steps
        → Bounded (i + rounds) (drive_loop net g goal_met env rounds i s)
    unfolding drive_loop
    drive_loop-Bounded zero i s l h = let (h', b) = concluded-Bounded i s l h in (h', omega arith)
    drive_loop-Bounded (suc rounds) i s l h =
        let (h', b) =
          after_round rounds i s (round net g goal_met env i s) (round-Grows net g goal_met env i s)
            l h (drive_loop-Bounded rounds (suc i)) in
        (h', omega arith)
