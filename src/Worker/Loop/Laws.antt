-- ===== src/Worker/Loop/Laws.antt =====
-- A worker that keeps going leaves no run waiting.
use auditloop.Base.{
  ℕ, ◌+◌, ◌≤◌, ◌≡◌, refl, sym, ◌∙◌, inl, inr, ◌⊎◌, Bool, true, false, Option, none, some, List, [],
  ◌∷◌, arith, Bool-cases, Str, eqb_refl, All, All-get, length, ◌&&◌,
}
use mathlib.Core.Path.{subst}
use mathlib.Core.List.{Memᴰ}
use auditloop.Db.Table.{count, update}
use auditloop.Db.Table.Laws.{count-Mem, count-zero, count-update, All-update}
use auditloop.Db.Runs.{Run, has_id, is_queued, is_running, claim_next_queued_run}
use auditloop.Db.Runs.Claims.Next.{claimed, IsClaim, claim_next_queued_run-IsClaim}
use auditloop.Storage.Laws.{IsToken}
use auditloop.Worker.{World, Outside}
use auditloop.Worker.Process.{process_run}
use auditloop.Worker.Frame.{update-update}
use auditloop.Worker.Isolated.{process_run-Steps}
use auditloop.Worker.Finished.{IsFinal, IsFinished, process_run-IsFinished}
use auditloop.Worker.Loop.{turn, work, process_claimed, with_runs}

abbrev pub waits : Run → Bool
waits r = is_queued r.status

abbrev pub runs_now : Run → Bool
runs_now r = is_running r.status

final_not_waiting : (now : ℕ) (r : Run) → IsFinal now r → waits r ≡ false
final_not_waiting now r (t, inl (e, m)) = rw e refl
final_not_waiting now r (t, inr (e, m)) = rw e refl

final_not_running : (now : ℕ) (r : Run) → IsFinal now r → runs_now r ≡ false
final_not_running now r (t, inl (e, m)) = rw e refl
final_not_running now r (t, inr (e, m)) = rw e refl

-- Rows that have become final no longer count.
count_finished :
    (now : ℕ) (id : Str) (q : Run → Bool) (g : Run → Run) (rows : List Run)
    → ((r : Run) → IsFinal now r → q r ≡ false)
    → ((r : Run) → (g r).id ≡ r.id)
    → IsFinished now id (update (has_id id) g rows)
    → count q (update (has_id id) g rows) + count (λ r. has_id id r && q r) rows ≤ count q rows
count_finished now id q g [] f k h = omega arith
count_finished now id q g (r ∷ rs) f k h = elim (Bool-cases (has_id id r)) [
  | inl e ↦
      let (here, rest) = rw e at h in
      let same : has_id id (g r) ≡ true = rw (k r) e in
      let out = f (g r) (here same) in
      let more = count_finished now id q g rs f k rest in rw (e, out) (omega (arith, more))
  | inr e ↦
      let (here, rest) = rw e at h in
      let more = count_finished now id q g rs f k rest in rw e (omega (arith, more))
]

-- A table with distinct ids that are tokens, as uuid.NewString gives them.
abbrev pub IsTable : List Run → Type 0
IsTable rows = ((id : Str) → count (has_id id) rows ≤ 1) × All (λ r. IsToken r.id) rows

update-IsTable :
    (id : Str) (g : Run → Run) (rows : List Run)
    → ((r : Run) → (g r).id ≡ r.id)
    → IsTable rows
    → IsTable (update (has_id id) g rows)
update-IsTable id g rows k (u, t) = (
  (λ j. omega (arith, u j, count-update (has_id j) (has_id id) g rows (λ r e. rw (k r) refl))),
  All-update (λ r. IsToken r.id) (has_id id) g rows (λ r e h. rw (k r) h) t,
)

-- What a turn does to the table.
abbrev IsTurn : List Run → List Run → Type 0
IsTurn rows rows' =
    IsTable rows'
    × (count runs_now rows' ≤ count runs_now rows)
    × ((count waits rows' ≡ 0) ⊎ (count waits rows' + 1 ≤ count waits rows))

module _ {Float : Type 0} (out : Outside Float) (up : out.finish_run_fails ≡ false)
    (w : World Float) (table : IsTable w.runs) where
  -- The run that a turn claims is final behind it, and so waits no longer.
  row-IsTurn :
      (s : Run)
      → Memᴰ s w.runs
      → waits s ≡ true
      → IsTurn w.runs
          (process_run out
            (claimed out.now s)
            (with_runs (update (has_id s.id) (claimed out.now) w.runs) w)).runs
  row-IsTurn s m q =
      let w1 = with_runs (update (has_id s.id) (claimed out.now) w.runs) w in
      let token : IsToken s.id = All-get (λ r. IsToken r.id) w.runs m table.1 in
      let (step, _) = process_run-Steps out (claimed out.now s) token w1 in
      let (f, keep, e) = step.only in
      let g : Run → Run = λ r. f (claimed out.now r) in
      let keep' : (r : Run) → (g r).id ≡ r.id = λ r. keep (claimed out.now r) in
      let e' = e ∙ update-update s.id (claimed out.now) f w.runs (λ r. refl) in
      let finished =
        subst (λ rows. IsFinished out.now s.id rows) e'
          (process_run-IsFinished out (claimed out.now s) up w1) in
      let waiting =
        count_finished out.now s.id waits g w.runs (final_not_waiting out.now) keep' finished in
      let running =
        count_finished out.now s.id runs_now g w.runs (final_not_running out.now) keep' finished in
      let some_row =
        count-Mem (λ r. has_id s.id r && waits r) w.runs s m (rw (eqb_refl s.id, q) refl) in
      subst (λ rows. IsTurn w.runs rows) (sym e')
        (
          update-IsTable s.id g w.runs keep' table,
          omega (arith, running),
          inr (omega (arith, waiting, some_row)),
        )

  claim-IsTurn :
      (claim : Option Run × List Run)
      → IsClaim out.now w.runs claim
      → IsTurn w.runs (process_claimed out claim.0 (with_runs claim.1 w)).runs
  unfolding process_claimed
  claim-IsTurn (none, rows) (n, e) =
      subst (λ t. IsTurn w.runs t) (sym e) (table, omega arith, inl (count-zero waits w.runs n))
  claim-IsTurn (some r, rows) (s, (m, q, l), same, e) =
      subst (λ t. IsTurn w.runs (process_run out r (with_runs t w)).runs) (sym e)
        (subst
          (λ t.
            IsTurn w.runs
              (process_run out t
                (with_runs (update (has_id s.id) (claimed out.now) w.runs) w)).runs)
          (sym same) (row-IsTurn s m q))

  turn-IsTurn : IsTurn w.runs (turn out w).runs
  unfolding turn
  turn-IsTurn =
      claim-IsTurn (claim_next_queued_run out.now w.runs)
        (claim_next_queued_run-IsClaim out.now w.runs table.0)

-- The statement that finishes a run succeeds in every turn.
abbrev pub IsUp : {Float : Type 0} → List (Outside Float) → Type 0
IsUp outs = All (λ out. out.finish_run_fails ≡ false) outs

-- A worker that takes at least as many turns as there are waiting runs leaves none waiting, and no
-- more runs running than it found, in a table with distinct ids that are tokens and as long as the
-- statement that finishes a run succeeds.
pub work_drains :
    {Float : Type 0} (outs : List (Outside Float)) (w : World Float)
    → IsUp outs
    → IsTable w.runs
    → count waits w.runs ≤ length outs
    → (count waits (work outs w).runs ≡ 0)
      × (count runs_now (work outs w).runs ≤ count runs_now w.runs)
unfolding work
work_drains [] w up t le = (omega (arith, le), omega arith)
work_drains (out ∷ outs) w (up, ups) t le =
    let (t', running, waiting) = turn-IsTurn out up w t in
    let fewer : count waits (turn out w).runs ≤ length outs = elim waiting [
      | inl z ↦ omega (arith, z)
      | inr m ↦ omega (arith, m, le)
    ] in
    let (none_left, less) = work_drains outs (turn out w) ups t' fewer in
    (none_left, omega (arith, less, running))
