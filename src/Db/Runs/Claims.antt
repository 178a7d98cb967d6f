-- ===== src/Db/Runs/Claims.antt =====
-- Workers that share the table of runs. The two statements of ClaimNextQueuedRun are separate
-- steps, and any other statement may come between them.
pub mod Laws
pub mod Next
use auditloop.Base.{
  ℕ, Bool, true, false, Option, none, some, List, [], ◌∷◌, ◌++◌, ◌==◌, if◌then◌else◌, Str,
}
use auditloop.Db.Runs.{
  Run, RunStatus, done, failed, create_run, create_pushed_run, set_run_diff, set_run_favicon,
  next_queued, claim_queued, finish_run, recover_stale_runs,
}

pub data Event : Type 0 where
  enqueue : (id user target : Str) → (now : ℕ) → Event
  push : (id user target label environment : Str) → (now : ℕ) → Event
  pick : (worker : ℕ) → Event
  claim : (worker now : ℕ) → Event
  finish : (id : Str) → (succeeded : Bool) → (summary message : Str) → (now : ℕ) → Event
  set_diff set_favicon : (id value : Str) → Event
  recover : (now : ℕ) → Event

-- The table, and the run that each worker has read last.
pub record Workers : Type 0 where
  pub runs : List Run
  pub picked : ℕ → Option Run

-- A failed INSERT leaves the table.
abbrev pub kept : Option (List Run) → List Run → List Run
kept none runs = runs
kept (some rows) runs = rows

abbrev pub claim_read : Option Run → ℕ → Workers → Workers × List Str
claim_read none now s = (s, [])
claim_read (some r) now s =
    let (won, rows) = claim_queued r.id now s.runs in
    (record s { runs = rows }, if won then r.id ∷ [] else [])

-- A step, with the id of the run that it won.
unfoldable pub step : Event → Workers → Workers × List Str
step (enqueue id user target now) s =
    (record s { runs = kept (create_run id user target now s.runs) s.runs }, [])
step (push id user target label environment now) s = (
  record s { runs = kept (create_pushed_run id user target label environment now s.runs) s.runs },
  [],
)
step (pick w) s = (record s { picked = λ v. if v == w then next_queued s.runs else s.picked v }, [])
step (claim w now) s = claim_read (s.picked w) now s
step (finish id succeeded summary message now) s =
    let status = if succeeded then done else failed in
    (record s { runs = finish_run id status summary message now s.runs }, [])
step (set_diff id value) s = (record s { runs = set_run_diff id value s.runs }, [])
step (set_favicon id value) s = (record s { runs = set_run_favicon id value s.runs }, [])
step (recover now) s = (record s { runs = (recover_stale_runs now s.runs).0 }, [])

-- A history, with the ids of all the runs that were won.
unfoldable pub history : List Event → Workers → Workers × List Str
history [] s = (s, [])
history (e ∷ es) s =
    let (s', won) = step e s in let (last, more) = history es s' in (last, won ++ more)

abbrev pub start : Workers
start = record { runs = []; picked = λ w. none }
