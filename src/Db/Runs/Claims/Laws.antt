-- ===== src/Db/Runs/Claims/Laws.antt =====
-- How often a run is claimed, over the histories of Db/Runs/Claims.
use auditloop.Base.{
  ℕ, ◌+◌, ◌≤◌, ◌≡◌, ◌≢◌, refl, sym, ap, ◌∙◌, inl, inr, Bool, true, false, Option, none, some, List,
  [], ◌∷◌, ◌++◌, arith, ◌==◌, if◌then◌else◌, Bool-cases, Str, eqb, eqb_iff, All-weaken,
}
use auditloop.Db.Table.{count, update}
use auditloop.Db.Table.Laws.{count-zero, count-update, count-update_le, count-update_clear}
use auditloop.Db.Runs.{
  Run, RunStatus, queued, running, has_id, still_queued, is_queued, is_running, set_run_diff,
  set_run_favicon, claim_queued, finish_run, recover_stale_runs,
}
use auditloop.Db.Runs.Baselines.{IsInserted, create-IsInserted}
use auditloop.Db.Runs.Claims.{
  Event, enqueue, push, pick, claim, finish, set_diff, set_favicon, recover, Workers, kept,
  claim_read, step, history, start,
}

-- How often an id occurs in a list of ids.
abbrev pub times : Str → List Str → ℕ
times id [] = 0
times id (x ∷ xs) = (if eqb x id then 1 else 0) + times id xs

times-append : (id : Str) (xs ys : List Str) → times id (xs ++ ys) ≡ times id xs + times id ys
times-append id [] ys = omega arith
times-append id (x ∷ xs) ys = omega (arith, times-append id xs ys)

module _ (id : Str) where
  abbrev rows_of : List Run → ℕ
  rows_of runs = count (has_id id) runs

  abbrev queued_of : List Run → ℕ
  queued_of runs = count (still_queued id) runs

  -- The table holds the id at most once, and the wins so far with the row that still waits are no
  -- more than that.
  abbrev IsFair : List Run → ℕ → Type 0
  IsFair runs wins = (rows_of runs ≤ 1) × (wins + queued_of runs ≤ rows_of runs)

  differs : (a b c : Str) → b ≡ c → a ≢ b → eqb a c ≡ false
  differs a b c q n = elim (Bool-cases (eqb a c)) [
    | inl e ↦ absurd (n ((eqb_iff a c).0 e ∙ sym q))
    | inr e ↦ e
  ]

  insert-IsFair :
      (status : RunStatus) (id' target : Str) (runs : List Run) (out : Option (List Run)) (wins : ℕ)
      → IsInserted status id' target runs out
      → IsFair runs wins
      → IsFair (kept out runs) wins
  insert-IsFair status id' target runs none wins i h = h
  insert-IsFair status id' target runs (some rows) wins (fresh, (r, e, ei, _, _, _)) h =
      elim (Bool-cases (eqb r.id id)) [
        | inl same ↦
            let q : id' ≡ id = sym ei ∙ (eqb_iff r.id id).0 same in
            let free =
              count-zero (has_id id) runs
                (All-weaken _ _ runs (λ s n. differs s.id id' id q n) fresh) in
            rw e (rw same (ground (arith, free, h.1)), rw same (ground (arith, free, h.1)))
        | inr other ↦ rw e (rw other (ground (arith, h.0)), rw other (ground (arith, h.1)))
      ]

  update-IsFair :
      (q : Run → Bool) (f : Run → Run) (runs : List Run) (wins : ℕ)
      → ((r : Run) → has_id id (f r) ≡ has_id id r)
      → ((r : Run) → is_queued (f r).status ≡ true → is_queued r.status ≡ true)
      → IsFair runs wins
      → IsFair (update q f runs) wins
  update-IsFair q f runs wins same back (u, h) =
      let rows = count-update (has_id id) q f runs (λ r e. same r) in
      let waits =
        count-update_le (still_queued id) q f runs (λ r e. ground (arith, back r, same r)) in
      (omega (arith, rows), omega (arith, rows, waits))

  claim-IsFair :
      (o : Option Run) (now : ℕ) (s : Workers) (wins : ℕ)
      → IsFair s.runs wins
      → let (s', won) = claim_read o now s in IsFair s'.runs (wins + times id won)
  unfolding claim_queued
  claim-IsFair none now s wins (u, h) = (u, omega (arith, h))
  claim-IsFair (some r) now s wins (u, h) =
      let q = still_queued r.id in
      let f = λ (r' : Run). record r' { status = running; started_at = some now } in
      let rows = count-update (has_id id) q f s.runs (λ r' e. refl) in
      elim (Bool-cases (eqb r.id id)) [
        | inl same ↦
            let one : queued_of s.runs ≡ count q s.runs =
              ap (λ x. count (still_queued x) s.runs) (sym ((eqb_iff r.id id).0 same)) in
            let clear =
              count-update_clear (still_queued id) q f s.runs
                (λ r' e. let one = ap (λ x. eqb r'.id x) ((eqb_iff r.id id).0 same) in ground arith)
                (λ r'. ground arith) in
            elim (Bool-cases (count q s.runs == 1)) [
              | inl won ↦ rw (won, same, rows, clear) (u, ground (arith, one, h))
              | inr lost ↦ rw (lost, rows, clear) (u, omega (arith, h))
            ]
        | inr other ↦
            let waits = count-update (still_queued id) q f s.runs (λ r' e.
              ground (arith, eqb_iff r'.id r.id, ap (λ x. eqb x id) {x = r'.id} {y = r.id})) in
            elim (Bool-cases (count q s.runs == 1)) [
              | inl won ↦ rw (won, other, rows, waits) (u, omega (arith, h))
              | inr lost ↦ rw (lost, rows, waits) (u, omega (arith, h))
            ]
      ]

  quiet : (runs : List Run) (wins : ℕ) → IsFair runs wins → IsFair runs (wins + 0)
  quiet runs wins (u, k) = (u, omega (arith, k))

  step-IsFair :
      (e : Event) (s : Workers) (wins : ℕ)
      → IsFair s.runs wins
      → let (s', won) = step e s in IsFair s'.runs (wins + times id won)
  unfolding step finish_run set_run_diff set_run_favicon recover_stale_runs
  step-IsFair (enqueue i user target now) s wins h =
      let made = (create-IsInserted i user target [] [] now s.runs).0 in
      quiet _ wins (insert-IsFair queued i target s.runs _ wins made h)
  step-IsFair (push i user target label env now) s wins h =
      let made = (create-IsInserted i user target label env now s.runs).1 in
      quiet _ wins (insert-IsFair running i target s.runs _ wins made h)
  step-IsFair (pick w) s wins h = quiet s.runs wins h
  step-IsFair (claim w now) s wins h = claim-IsFair (s.picked w) now s wins h
  step-IsFair (finish i true summary message now) s wins h =
      quiet _ wins (update-IsFair (has_id i) _ s.runs wins (λ r. refl) (λ r e. cc e) h)
  step-IsFair (finish i false summary message now) s wins h =
      quiet _ wins (update-IsFair (has_id i) _ s.runs wins (λ r. refl) (λ r e. cc e) h)
  step-IsFair (set_diff i v) s wins h =
      quiet _ wins (update-IsFair (has_id i) _ s.runs wins (λ r. refl) (λ r e. e) h)
  step-IsFair (set_favicon i v) s wins h =
      quiet _ wins (update-IsFair (has_id i) _ s.runs wins (λ r. refl) (λ r e. e) h)
  step-IsFair (recover now) s wins h =
      quiet _ wins
        (update-IsFair (λ r. is_running r.status) _ s.runs wins (λ r. refl) (λ r e. cc e) h)

  history-IsFair :
      (es : List Event) (s : Workers) (wins : ℕ)
      → IsFair s.runs wins
      → let (s', won) = history es s in IsFair s'.runs (wins + times id won)
  unfolding history
  history-IsFair [] s wins (u, k) = (u, omega (arith, k))
  history-IsFair (e ∷ es) s wins h =
      let (s', won) = step e s in
      let (u, k) = history-IsFair es s' (wins + times id won) (step-IsFair e s wins h) in
      (u, omega (arith, k, times-append id won (history es s').1))

-- Whatever the workers and the other statements do, in whatever order, and although a worker reads
-- the queue in one statement and claims in another: starting from the empty table, no run is won
-- more than once, and no id names two rows.
pub claimed_once :
    (es : List Event) (id : Str)
    → let (s, won) = history es start in (times id won ≤ 1) × (count (has_id id) s.runs ≤ 1)
claimed_once es id =
    let (u, k) = history-IsFair id es start 0 (omega arith, omega arith) in (omega (arith, u, k), u)
