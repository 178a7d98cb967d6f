-- ===== src/Db/Walkthroughs/Passes/Exclusive.antt =====
-- Whether the passes of one walkthrough overlap, over the histories of Db/Walkthroughs/Passes.
use auditloop.Base.{
  ℕ, ◌+◌, ◌≤◌, ◌≡◌, refl, sym, ap, inl, inr, Bool, true, false, List, [], ◌∷◌, arith, if◌then◌else◌,
  Option-cases, Bool-cases, Str, eqb, eqb_iff,
}
use auditloop.Db.Table.{count, update, first}
use auditloop.Db.Table.Laws.{first-none, count-zero, count_le, count-update, count-update_clear}
use auditloop.Db.Walkthroughs.{
  Walkthrough, is_driving, has_id, claimable, create_walkthrough, set_walkthrough_diff,
  claim_walkthrough_job, update_walkthrough_progress, finish_walkthrough, mark_driving_failed,
  claim_materialization, as_observed, driven,
}
use auditloop.Db.Walkthroughs.Passes.{
  Event, create, claim, progress, finish, set_diff, materialize, restart, kept, step, history, win,
  end, wins, ends,
}

module _ (id : Str) where
  abbrev rows_of : List Walkthrough → ℕ
  rows_of rows = count (has_id id) rows

  abbrev free_of : List Walkthrough → ℕ
  free_of rows = count (claimable id) rows

  -- The id names one row at most, and there have been no more wins than ends and the row, less the
  -- row while it waits.
  abbrev IsFair : List Walkthrough → ℕ → ℕ → Type 0
  IsFair rows won ended = (rows_of rows ≤ 1) × (won + free_of rows ≤ ended + rows_of rows)

  -- A row of another walkthrough counts for this one neither before nor after an update.
  apart : (i : Str) (w : Walkthrough) → eqb i id ≡ false → has_id i w ≡ true → has_id id w ≡ false
  apart i w other e = ground (arith, other, ap (λ x. eqb x id) ((eqb_iff w.id i).0 e))

  update-IsFair :
      (q : Walkthrough → Bool) (f : Walkthrough → Walkthrough) (rows : List Walkthrough)
      (won ended : ℕ)
      → ((w : Walkthrough) → has_id id (f w) ≡ has_id id w)
      → ((w : Walkthrough) → is_driving (f w).status ≡ is_driving w.status)
      → IsFair rows won ended
      → IsFair (update q f rows) (won + 0) (ended + 0)
  update-IsFair q f rows won ended same still (u, h) =
      let a = count-update (has_id id) q f rows (λ w e. same w) in
      let b = count-update (claimable id) q f rows (λ w e. ground (arith, same w, still w)) in
      (omega (arith, a), omega (arith, a, b))

  ended-IsFair :
      (q : Walkthrough → Bool) (f : Walkthrough → Walkthrough) (rows : List Walkthrough)
      (won ended : ℕ)
      → ((w : Walkthrough) → has_id id (f w) ≡ has_id id w)
      → IsFair rows won ended
      → IsFair (update q f rows) (won + 0) (ended + 1)
  ended-IsFair q f rows won ended same (u, h) =
      let a = count-update (has_id id) q f rows (λ w e. same w) in
      let b = count_le (claimable id) (has_id id) (update q f rows) (λ w e. ground arith) in
      (omega (arith, a), omega (arith, a, b))

  create-IsFair :
      (i target run goal : Str) (dry_run : Bool) (now : ℕ) (rows : List Walkthrough) (won ended : ℕ)
      → IsFair rows won ended
      → IsFair
          (kept (create_walkthrough i target run goal dry_run now rows) rows)
          (won + 0)
          (ended + 0)
  unfolding create_walkthrough
  create-IsFair i target run goal dry_run now rows won ended (u, h) =
      elim (Option-cases (first (has_id i) rows)) [
        | inr (s, q) ↦ rw q (u, omega (arith, h))
        | inl n ↦ elim (Bool-cases (eqb i id)) [
          | inl same ↦
              let q : i ≡ id = (eqb_iff i id).0 same in
              let free : rows_of rows ≡ 0 =
                count-zero (has_id id) rows (rw q at (first-none (has_id i) rows n)) in
              rw (n, same) (omega (arith, free), omega (arith, free, h))
          | inr other ↦ rw (n, other) (omega (arith, u), omega (arith, h))
        ]
      ]

  claim-IsFair :
      (i : Str) (total now : ℕ) (rows : List Walkthrough) (won ended : ℕ)
      → IsFair rows won ended
      → IsFair
          (claim_walkthrough_job i total now rows).1
          (won + win id (claim i total now) rows)
          (ended + 0)
  unfolding claim_walkthrough_job
  claim-IsFair i total now rows won ended (u, h) =
      let f = driven total now in
      let a = count-update (has_id id) (claimable i) f rows (λ w e. refl) in
      elim (Bool-cases (eqb i id)) [
        | inl same ↦
            let one : free_of rows ≡ count (claimable i) rows =
              ap (λ x. count (claimable x) rows) (sym ((eqb_iff i id).0 same)) in
            let clear =
              count-update_clear (claimable id) (claimable i) f rows
                (λ w e. let alike = ap (λ x. eqb w.id x) ((eqb_iff i id).0 same) in ground arith)
                (λ w. ground arith) in
            rw (same, a, clear) (u, ground (arith, one, h))
        | inr other ↦
            let b =
              count-update (claimable id) (claimable i) f rows
                (λ w e. let away = apart i w other (ground arith) in ground arith) in
            rw (other, a, b) (u, omega (arith, h))
      ]

  finish-IsFair :
      (i : Str) (f : Walkthrough → Walkthrough) (rows : List Walkthrough) (won ended : ℕ)
      → ((w : Walkthrough) → has_id id (f w) ≡ has_id id w)
      → IsFair rows won ended
      → IsFair (update (has_id i) f rows) (won + 0) (ended + (if eqb i id then 1 else 0))
  finish-IsFair i f rows won ended same (u, h) = elim (Bool-cases (eqb i id)) [
    | inl e ↦ rw e (ended-IsFair (has_id i) f rows won ended same (u, h))
    | inr other ↦
        let a = count-update (has_id id) (has_id i) f rows (λ w e. same w) in
        let b =
          count-update (claimable id) (has_id i) f rows
            (λ w e. let away = apart i w other e in ground (arith, same w)) in
        rw (other, a, b) (u, omega (arith, h))
  ]

  step-IsFair :
      (e : Event) (rows : List Walkthrough) (won ended : ℕ)
      → IsFair rows won ended
      → IsFair (step e rows) (won + win id e rows) (ended + end id e)
  unfolding step set_walkthrough_diff update_walkthrough_progress finish_walkthrough
      mark_driving_failed claim_materialization
  step-IsFair (create i target run goal dry_run now) rows won ended h =
      create-IsFair i target run goal dry_run now rows won ended h
  step-IsFair (claim i total now) rows won ended h = claim-IsFair i total now rows won ended h
  step-IsFair (progress i steps now) rows won ended h =
      update-IsFair (has_id i) _ rows won ended (λ w. refl) (λ w. refl) h
  step-IsFair (finish i v k reason infra now) rows won ended h =
      finish-IsFair i _ rows won ended (λ w. refl) h
  step-IsFair (set_diff i diff now) rows won ended h =
      update-IsFair (has_id i) _ rows won ended (λ w. refl) (λ w. refl) h
  step-IsFair (materialize i observed run now) rows won ended h =
      update-IsFair (as_observed i observed) _ rows won ended (λ w. refl) (λ w. refl) h
  step-IsFair (restart now) rows won ended h =
      ended-IsFair (λ w. is_driving w.status) _ rows won ended (λ w. refl) h

  history-IsFair :
      (es : List Event) (rows : List Walkthrough) (won ended : ℕ)
      → IsFair rows won ended
      → IsFair (history es rows) (won + wins id es rows) (ended + ends id es)
  unfolding history
  history-IsFair [] rows won ended (u, h) = (u, omega (arith, h))
  history-IsFair (e ∷ es) rows won ended h =
      let (u, k) =
        history-IsFair es (step e rows) (won + win id e rows) (ended + end id e)
          (step-IsFair e rows won ended h) in
      (u, omega (arith, k))

-- In every history from the empty table, the passes of a walkthrough do not overlap: it is won at
-- most once more often than its passes were ended, by FinishWalkthrough or by the sweep at a
-- restart. No id names two walkthroughs.
pub passes_do_not_overlap :
    (es : List Event) (id : Str)
    → (wins id es [] ≤ ends id es + 1) × (count (has_id id) (history es []) ≤ 1)
passes_do_not_overlap es id =
    let (u, k) = history-IsFair id es [] 0 0 (omega arith, omega arith) in (omega (arith, u, k), u)
