-- ===== src/Crawler/Drive/Rounds.antt =====
-- What one round of the drive loop does to the trace, whatever the browser and the planner answer.
use auditloop.Base.{
  ℕ, suc, ◌+◌, ◌≡◌, refl, ap, ◌∙◌, ◌⊎◌, inl, inr, Bool, ◌&&◌, Option, none, some, List, [], ◌∷◌,
  ◌++◌, leb, arith, if◌then◌else◌, Bool-cases, Str, eqb, one_of, length,
}
use auditloop.Action.{
  Kind, navigate, finish, Action, Violation, validate, dedup_key, SuccessAssertion,
}
use auditloop.Crawler.Guard.{Net, GuardConfig, check_url}
use auditloop.Crawler.Drive.{
  StepOutcome, met, finish_requested, ssrf_blocked, done, rejected, refused, StepRecord, Env,
  LoopState, RoundResult, returned, left, continued, ExecError, blocked_url, other_error,
  exec_action, configured, finish_round, step_outcome, settle, after_exec, exec_round, dispatch,
  validated, planned, round, repeat_limit,
}

-- Steps are numbered from n on.
abbrev pub Numbered : ℕ → List StepRecord → Type 0
Numbered n [] = Unit
Numbered n (r ∷ rs) = (r.idx ≡ n) × Numbered (suc n) rs

pub Numbered-snoc :
    (n : ℕ) (rs : List StepRecord) (r : StepRecord)
    → Numbered n rs
    → r.idx ≡ n + length rs
    → Numbered n (rs ++ r ∷ [])
Numbered-snoc n [] r h e = (omega arith, tt)
Numbered-snoc n (x ∷ rs) r (h, hs) e = (h, Numbered-snoc (suc n) rs r hs (omega arith))

module _ (net : Net) (g : GuardConfig) where
  -- An action that was rejected is invalid. Any other is valid, and a navigation that was carried
  -- out went to a URL that the guard passes.
  pub record IsJustified (r : StepRecord) : Type 0 where
    pub checked :
        (a : Action)
        → r.action ≡ some a
        → (validate a ≡ none) ⊎ ((v : Violation) × (validate a ≡ some v) × (r.outcome ≡ rejected v))
    pub guarded :
        (a : Action)
        → r.action ≡ some a
        → a.kind ≡ navigate
        → r.outcome ≡ done
        → check_url net g a.url ≡ none

  abbrev pub Adds : ℕ → List StepRecord → List StepRecord → Type 0
  Adds i old new = (r : StepRecord) × (new ≡ old ++ r ∷ []) × (r.idx ≡ i) × IsJustified r

  module _ (goal_met : SuccessAssertion) (env : Env) where
    abbrev pub Grows : ℕ → LoopState → RoundResult → Type 0
    Grows i s (returned t) = (t.steps ≡ s.steps) ⊎ Adds i s.steps t.steps
    Grows i s (left s') = s' ≡ s
    Grows i s (continued s') = Adds i s.steps s'.steps

    valid_step :
        (i : ℕ) (act : Action) (url : Str) (o : StepOutcome)
        → validate act ≡ none
        → (act.kind ≡ navigate → o ≡ done → check_url net g act.url ≡ none)
        → IsJustified (record { idx = i; action = some act; url = url; outcome = o })
    valid_step i act url o v n = record {
      checked = λ a e. inl (ground arith);
      guarded =
          λ a e k d. let q : act ≡ a = cc in rw (← q) (n (ap (λ (x : Action). x.kind) q ∙ k) d);
    }

    finish_round-Grows :
        (i : ℕ) (s : LoopState) (act : Action)
        → validate act ≡ none
        → Grows i s (finish_round net g goal_met env i s act)
    finish_round-Grows i s act v =
        elim (Bool-cases (configured net g goal_met env && (env.browser i).finish_check)) [
          | inl e ↦ rw e (inr (_, refl, refl, valid_step i act _ met v (λ n d. cc)))
          | inr e ↦ rw e (inr (_, refl, refl, valid_step i act _ finish_requested v (λ n d. cc)))
        ]

    settle-Grows :
        (i : ℕ) (s : LoopState) (act : Action) (error : Option ExecError)
        → validate act ≡ none
        → (act.kind ≡ navigate → error ≡ none → check_url net g act.url ≡ none)
        → Grows i s (settle net g goal_met env i s act error)
    unfolding settle
    settle-Grows i s act error v n =
        let b = env.browser i in
        let step =
          valid_step i act b.url (step_outcome net g goal_met env b error) v
            (λ k d. n k (ground arith)) in
        let stays = one_of (dedup_key act b.url) s.seen && eqb b.new_url b.url in
        let count : ℕ = if stays then s.no_progress + 1 else 0 in
        elim (Bool-cases (leb repeat_limit count)) [
          | inl e ↦ rw e (inr (_, refl, refl, step))
          | inr e ↦ rw e (_, refl, refl, step)
        ]

    after_exec-Grows :
        (i : ℕ) (s : LoopState) (act : Action) (error : Option ExecError)
        → validate act ≡ none
        → (act.kind ≡ navigate → error ≡ none → check_url net g act.url ≡ none)
        → Grows i s (after_exec net g goal_met env i s act error)
    unfolding after_exec
    after_exec-Grows i s act (some (blocked_url r)) v n =
        inr (_, refl, refl, valid_step i act _ (refused r) v (λ k d. cc))
    after_exec-Grows i s act (some other_error) v n = settle-Grows i s act _ v n
    after_exec-Grows i s act none v n = settle-Grows i s act none v n

    exec_action-guards :
        (act : Action) (runs : Bool)
        → act.kind ≡ navigate
        → exec_action net g act.kind act runs ≡ none
        → check_url net g act.url ≡ none
    unfolding exec_action
    exec_action-guards act runs k e = ground arith

    exec_round-Grows :
        (i : ℕ) (s : LoopState) (act : Action)
        → validate act ≡ none
        → Grows i s (exec_round net g goal_met env i s act)
    unfolding exec_round
    exec_round-Grows i s act v = elim (Bool-cases (env.browser i).nav_blocked) [
      | inl e ↦ rw e (inr (_, refl, refl, valid_step i act _ ssrf_blocked v (λ k d. cc)))
      | inr e ↦ rw e (after_exec-Grows i s act _ v (exec_action-guards act (env.browser i).runs))
    ]

    dispatch-Grows :
        (k : Kind) (i : ℕ) (s : LoopState) (act : Action)
        → validate act ≡ none
        → Grows i s (dispatch net g goal_met env k i s act)
    dispatch-Grows finish i s act v = finish_round-Grows i s act v
    dispatch-Grows _ i s act v = exec_round-Grows i s act v

    validated-Grows :
        (o : Option Violation) (i : ℕ) (s : LoopState) (act : Action)
        → validate act ≡ o
        → Grows i s (validated net g goal_met env o i s act)
    validated-Grows none i s act v = dispatch-Grows act.kind i s act v
    validated-Grows (some w) i s act v = (
      _,
      refl,
      refl,
      record { checked = λ a e. inr (w, ground arith, refl); guarded = λ a e k d. cc },
    )

    planned-Grows :
        (o : Option Action) (i : ℕ) (s : LoopState) → Grows i s (planned net g goal_met env i s o)
    planned-Grows none i s = inl refl
    planned-Grows (some act) i s = validated-Grows _ i s act refl

    pub round-Grows : (i : ℕ) (s : LoopState) → Grows i s (round net g goal_met env i s)
    unfolding round
    round-Grows i s = elim (Bool-cases (env.browser i).expired) [
      | inl e ↦ rw e refl
      | inr e ↦ elim (Bool-cases (configured net g goal_met env && (env.browser i).probe)) [
        | inl p ↦
            rw (e, p) (inr (_, refl, refl, record { checked = λ a q. cc; guarded = λ a q k d. cc }))
        | inr p ↦ rw (e, p) (planned-Grows _ i s)
      ]
    ]
