-- ===== src/Db/Runs/Tests.antt =====
-- Runs of the table, and the theorems at concrete rows.
use auditloop.Base.{◌≤◌, ◌≡◌, refl, true, some, List, [], ◌∷◌, arith, Str, codes, eqb}
use auditloop.Db.Table.{count}
use auditloop.Db.Runs.{
  Run, done, walkthrough, has_id, create_run, latest_done_run, new_run, list_runs, next_queued,
  claim_queued,
}
use auditloop.Db.Runs.Claims.{Event, enqueue, pick, claim, finish, step, history, start}
use auditloop.Db.Runs.Claims.Laws.{times, claimed_once}

abbrev old_run : Run
old_run = record (new_run (codes "a") (codes "u") (codes "t") 3 []) { status = done }

abbrev synthetic : Run
synthetic = record (new_run (codes "s") (codes "u") (codes "t") 5 []) {
  status = done;
  trigger = walkthrough;
}

abbrev table : List Run
table = synthetic ∷ old_run ∷ []

baseline_test : latest_done_run (codes "t") [] table ≡ some old_run
unfolding latest_done_run eqb
baseline_test = refl

list_test : list_runs (codes "u") (codes "t") table ≡ old_run ∷ []
unfolding list_runs eqb
list_test = refl

-- Two workers read the same run, and one of them wins it.
abbrev race : List Event
race =
    enqueue (codes "a") (codes "u") (codes "t") 1
    ∷ pick 0
    ∷ pick 1
    ∷ claim 1 2
    ∷ claim 0 3
    ∷ finish (codes "a") true [] [] 4
    ∷ []

race_test : (history race start).1 ≡ codes "a" ∷ []
unfolding history step next_queued create_run claim_queued eqb
race_test = refl

claimed_once_example :
    let (s, won) = history race start in
    (times (codes "a") won ≤ 1) × (count (has_id (codes "a")) s.runs ≤ 1)
claimed_once_example = claimed_once race (codes "a")

abbrev queue : List Run
queue =
    new_run (codes "b") (codes "u") (codes "t") 7 []
    ∷ new_run (codes "c") (codes "u") (codes "t") 6 []
    ∷ old_run
    ∷ []

queue_distinct : (id : Str) → count (has_id id) queue ≤ 1
unfolding eqb
queue_distinct [] = omega arith
queue_distinct (c ∷ []) = ground arith
queue_distinct (c ∷ d ∷ s) = ground arith
