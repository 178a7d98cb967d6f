-- ===== src/Worker/Loop.antt =====
-- internal/worker/worker.go: the loop of Run, for as many turns as are given. Each turn has an outside
-- of its own; that ClaimNextQueuedRun fails, and that the context ends, are left out.
pub mod Laws
use auditloop.Base.{Option, none, some, List, [], ◌∷◌}
use auditloop.Db.Runs.{Run, claim_next_queued_run}
use auditloop.Worker.{World, Outside}
use auditloop.Worker.Process.{process_run}

module _ {Float : Type 0} where
  abbrev pub with_runs : List Run → World Float → World Float
  with_runs runs w = record w { runs = runs }

  unfoldable pub process_claimed : Outside Float → Option Run → World Float → World Float
  unfolding process_run
  process_claimed out none w = w
  process_claimed out (some run) w = process_run out run w

  unfoldable pub turn : Outside Float → World Float → World Float
  unfolding claim_next_queued_run process_claimed
  turn out w =
      let (claimed, runs) = claim_next_queued_run out.now w.runs in
      process_claimed out claimed (with_runs runs w)

  unfoldable pub work : List (Outside Float) → World Float → World Float
  unfolding turn
  work [] w = w
  work (out ∷ outs) w = work outs (turn out w)
