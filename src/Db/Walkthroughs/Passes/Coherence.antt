-- ===== src/Db/Walkthroughs/Passes/Coherence.antt =====
-- The status, outcome and failure marks of a walkthrough, over the histories of Db/Walkthroughs/Passes.
use auditloop.Base.{◌≡◌, refl, ◌⊎◌, inl, inr, false, List, [], ◌∷◌, Bool-cases, is_some, All}
use auditloop.Db.Table.{first}
use auditloop.Db.Table.Laws.{All-update}
use auditloop.Db.Walkthroughs.{
  Walkthrough, idle, driving, done, failed, undecided, success, stuck, failure, is_driving, has_id,
  claimable, create_walkthrough, set_walkthrough_diff, claim_walkthrough_job,
  update_walkthrough_progress, finish_walkthrough, mark_driving_failed, claim_materialization,
  as_observed,
}
use auditloop.Db.Walkthroughs.Passes.{
  reached, got_stuck, hard_failure, Event, create, claim, progress, finish, set_diff, materialize,
  restart, step, history,
}

-- The status of a row and its outcome agree: no outcome before the end, and a failed status exactly
-- for a failed outcome.
abbrev pub IsCoherent : Walkthrough → Type 0
IsCoherent w =
    ((w.status ≡ idle ⊎ w.status ≡ driving)
      × (w.outcome ≡ undecided)
      × (w.infra_failed ≡ false)
      × (w.stuck_step ≡ 0))
    ⊎ ((w.status ≡ done) × (w.outcome ≡ success ⊎ w.outcome ≡ stuck))
    ⊎ ((w.status ≡ failed) × (w.outcome ≡ failure))

step-All :
    (e : Event) (rows : List Walkthrough) → All IsCoherent rows → All IsCoherent (step e rows)
unfolding step create_walkthrough set_walkthrough_diff claim_walkthrough_job
    update_walkthrough_progress finish_walkthrough mark_driving_failed claim_materialization
step-All (create id target run goal dry_run now) rows h =
    elim (Bool-cases (is_some (first (has_id id) rows))) [
      | inl e ↦ rw e h
      | inr e ↦ rw e (inl (inl refl, refl, refl, refl), h)
    ]
step-All (claim id total now) rows h =
    All-update IsCoherent (claimable id) _ rows (λ w e c. inl (inr refl, refl, refl, refl)) h
step-All (progress id steps now) rows h = All-update IsCoherent (has_id id) _ rows (λ w e c. c) h
step-All (finish id reached k reason infra now) rows h =
    All-update IsCoherent (has_id id) _ rows (λ w e c. inr (inl (refl, inl refl))) h
step-All (finish id got_stuck k reason infra now) rows h =
    All-update IsCoherent (has_id id) _ rows (λ w e c. inr (inl (refl, inr refl))) h
step-All (finish id hard_failure k reason infra now) rows h =
    All-update IsCoherent (has_id id) _ rows (λ w e c. inr (inr (refl, refl))) h
step-All (set_diff id diff now) rows h = All-update IsCoherent (has_id id) _ rows (λ w e c. c) h
step-All (materialize id observed run now) rows h =
    All-update IsCoherent (as_observed id observed) _ rows (λ w e c. c) h
step-All (restart now) rows h =
    All-update IsCoherent (λ w. is_driving w.status) _ rows (λ w e c. inr (inr (refl, refl))) h

history-All :
    (es : List Event) (rows : List Walkthrough)
    → All IsCoherent rows
    → All IsCoherent (history es rows)
unfolding history
history-All [] rows h = h
history-All (e ∷ es) rows h = history-All es (step e rows) (step-All e rows h)

-- After every history of the statements from the empty table, every walkthrough is coherent: an
-- idle or driving one has no outcome, no stuck step and no mark of an infrastructure failure, a
-- done one has succeeded or got stuck, and a failed one has the failed outcome.
pub history-IsCoherent : (es : List Event) → All IsCoherent (history es [])
history-IsCoherent es = history-All es [] tt
