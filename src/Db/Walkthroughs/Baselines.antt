-- ===== src/Db/Walkthroughs/Baselines.antt =====
-- The choice of a walkthrough's baseline (latestTerminalWalkthroughID).
use auditloop.Base.{
  ◌≤◌, ◌≡◌, refl, ◌⊎◌, inl, inr, true, false, List, [], arith, Option-cases, Str, eqb_iff, All,
  All-weaken,
}
use mathlib.Core.List.{Memᴰ}
use auditloop.Db.Table.{newest}
use auditloop.Db.Table.Laws.{best-none, newest-IsNewest}
use auditloop.Db.Walkthroughs.{Walkthrough, done, failed, can_be_baseline, latest_terminal_id}

-- A pass of the target that ended and that did observe the goal.
abbrev pub IsBaselineOf : Str → Walkthrough → Type 0
IsBaselineOf target w =
    (w.target_id ≡ target) × (w.status ≡ done ⊎ w.status ≡ failed) × (w.infra_failed ≡ false)

baseline_sound :
    (target : Str) (w : Walkthrough) → can_be_baseline target w ≡ true → IsBaselineOf target w
baseline_sound target w h = ground (arith, eqb_iff w.target_id target)

baseline_complete :
    (target : Str) (w : Walkthrough) → IsBaselineOf target w → can_be_baseline target w ≡ true
baseline_complete target w (t, s, i) = ground (arith, eqb_iff w.target_id target)

-- The empty id when the target has no such pass, and otherwise the id of a newest one.
abbrev pub IsBaselineId : Str → List Walkthrough → Str → Type 0
IsBaselineId target rows prev =
    ((prev ≡ []) × All (λ w. IsBaselineOf target w → ⊥) rows)
    ⊎ ((b : Walkthrough) × (prev ≡ b.id)
        × Memᴰ b rows
        × IsBaselineOf target b
        × All (λ w. IsBaselineOf target w → w.created_at ≤ b.created_at) rows)

-- latestTerminalWalkthroughID gives the id of a newest pass of the target that ended, done or
-- failed, without an infrastructure failure, and the empty id when there is no such pass.
pub latest_terminal_id-IsBaselineId :
    (target : Str) (rows : List Walkthrough)
    → IsBaselineId target rows (latest_terminal_id target rows)
unfolding latest_terminal_id
latest_terminal_id-IsBaselineId target rows =
    elim (Option-cases (newest (λ w. w.created_at) (can_be_baseline target) rows)) [
      | inl n ↦ rw n (
          inl (
            refl,
            All-weaken _ _ rows (λ w d i. cc (d, baseline_complete target w i))
                (best-none _ _ rows n),
          ))
      | inr (b, q) ↦
          let (m, f, l) = newest-IsNewest (λ w. w.created_at) (can_be_baseline target) rows b q in
          rw q (
            inr (
              b,
              refl,
              m,
              baseline_sound target b f,
              All-weaken _ _ rows (λ w d i. d (baseline_complete target w i)) l,
            ))
    ]
