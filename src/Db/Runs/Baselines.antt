-- ===== src/Db/Runs/Baselines.antt =====
-- The choice of a run's baseline (LatestDoneRunForTarget) at its creation.
use auditloop.Base.{
  ℕ, ◌≤◌, ◌≡◌, ◌≢◌, ◌⊎◌, refl, inl, inr, true, false, Option, none, some, List, [], ◌∷◌, arith,
  Option-cases, Bool-cases, Str, eqb, eqb_iff, All, All-weaken,
}
use mathlib.Core.List.{Memᴰ}
use auditloop.Db.Table.{newest, first}
use auditloop.Db.Table.Laws.{newest-IsNewest, best-none, first-none, first-some}
use auditloop.Db.Runs.{
  Run, RunStatus, queued, running, has_id, walkthrough, done, can_be_baseline, latest_done_run,
  create_run, create_pushed_run, insert_run, id_of,
}

-- A finished run of the target that comes from a crawl or a push.
abbrev pub IsBaselineOf : Str → Run → Type 0
IsBaselineOf target r = (r.target_id ≡ target) × (r.status ≡ done) × (r.trigger ≢ walkthrough)

-- An id names a newest finished run of the target, or is empty when there is none. Runs whose id is
-- empty do not count.
abbrev pub IsBaselineId : Str → List Run → Str → Type 0
IsBaselineId target runs prev =
    ((prev ≡ []) × All (λ s. IsBaselineOf target s → s.id ≡ []) runs)
    ⊎ ((b : Run) × (prev ≡ b.id)
        × Memᴰ b runs
        × IsBaselineOf target b
        × All (λ s. IsBaselineOf target s → s.id ≢ [] → s.created_at ≤ b.created_at) runs)

can_be_baseline_sound :
    (target exclude : Str) (r : Run)
    → can_be_baseline target exclude r ≡ true
    → IsBaselineOf target r × (r.id ≢ exclude)
can_be_baseline_sound target exclude r h =
    ground (arith, eqb_iff r.target_id target, eqb_iff r.id exclude)

can_be_baseline_complete :
    (target exclude : Str) (r : Run)
    → IsBaselineOf target r
    → r.id ≢ exclude
    → can_be_baseline target exclude r ≡ true
can_be_baseline_complete target exclude r (t, d, w) n =
    ground (arith, eqb_iff r.target_id target, eqb_iff r.id exclude)

no_baseline :
    (target : Str) (r : Run)
    → can_be_baseline target [] r ≡ false
    → IsBaselineOf target r
    → r.id ≡ []
no_baseline target r h b = elim (Bool-cases (eqb r.id [])) [
  | inl e ↦ (eqb_iff r.id []).0 e
  | inr e ↦ cc (h, can_be_baseline_complete target [] r b (λ q. cc (e, (eqb_iff r.id []).1 q)))
]

latest_done_run-IsBaselineId :
    (target : Str) (runs : List Run)
    → IsBaselineId target runs (id_of (latest_done_run target [] runs))
unfolding latest_done_run
latest_done_run-IsBaselineId target runs =
    elim (Option-cases (newest (λ r. r.created_at) (can_be_baseline target []) runs)) [
      | inl n ↦ rw n (inl (refl, All-weaken _ _ runs (no_baseline target) (best-none _ _ runs n)))
      | inr (b, q) ↦
          let (m, f, l) =
            newest-IsNewest (λ r. r.created_at) (can_be_baseline target []) runs b q in
          rw q (
            inr (
              b,
              refl,
              m,
              (can_be_baseline_sound target [] b f).0,
              All-weaken _ _ runs (λ s d i n. d (can_be_baseline_complete target [] s i n)) l,
            ))
    ]

-- What an insertion of a run in some status does: it fails when the id is taken, and otherwise adds
-- one row, which is linked to its baseline.
abbrev pub IsInserted : RunStatus → Str → Str → List Run → Option (List Run) → Type 0
IsInserted status id target runs none = (s : Run) × Memᴰ s runs × (s.id ≡ id)
IsInserted status id target runs (some rows) =
    All (λ s. s.id ≢ id) runs
    × ((r : Run) × (rows ≡ r ∷ runs)
        × (r.id ≡ id)
        × (r.target_id ≡ target)
        × (r.status ≡ status)
        × IsBaselineId target runs r.prev_run_id)

insert_run-IsInserted :
    (r : Run) (runs : List Run)
    → r.prev_run_id ≡ id_of (latest_done_run r.target_id [] runs)
    → IsInserted r.status r.id r.target_id runs (insert_run r runs)
insert_run-IsInserted r runs h = elim (Option-cases (first (has_id r.id) runs)) [
  | inl n ↦ rw n (
    All-weaken _ _ runs (λ s d e. cc (d, (eqb_iff s.id r.id).1 e))
        (first-none (has_id r.id) runs n),
    (r, refl, refl, refl, refl, rw h (latest_done_run-IsBaselineId r.target_id runs)),
  )
  | inr (s, q) ↦
      let (m, f) = first-some (has_id r.id) runs s q in rw q (s, m, (eqb_iff s.id r.id).0 f)
]

-- CreateRun and CreatePushedRun fail exactly when the id is taken. Otherwise they add one row for
-- the target, queued and running respectively, and leave the others as they were; its baseline is
-- the newest finished run of that target that no walkthrough made, and empty when there is none
-- with an id.
pub create-IsInserted :
    (id user target label environment : Str) (now : ℕ) (runs : List Run)
    → IsInserted queued id target runs (create_run id user target now runs)
      × IsInserted running id target runs
          (create_pushed_run id user target label environment now runs)
unfolding create_run create_pushed_run
create-IsInserted id user target label environment now runs =
    (insert_run-IsInserted _ runs refl, insert_run-IsInserted _ runs refl)
