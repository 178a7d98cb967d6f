-- ===== src/Db/Walkthroughs/Tests.antt =====
-- Runs of the table, and the theorems at concrete histories.
use auditloop.Base.{◌+◌, ◌≤◌, ◌≡◌, refl, true, false, List, [], ◌∷◌, codes, All, eqb}
use auditloop.Db.Table.{count}
use auditloop.Db.Walkthroughs.{
  has_id, latest_terminal_id, create_walkthrough, claim_walkthrough_job, finish_walkthrough,
  mark_driving_failed,
}
use auditloop.Db.Walkthroughs.Passes.{
  Event, create, claim, finish, restart, reached, step, history, wins, ends,
}
use auditloop.Db.Walkthroughs.Passes.Coherence.{IsCoherent, history-IsCoherent}
use auditloop.Db.Walkthroughs.Passes.Exclusive.{passes_do_not_overlap}

-- One pass succeeds, a second caller loses, and a later pass is lost in a restart.
abbrev events : List Event
events =
    create (codes "w1") (codes "t") [] (codes "sign up") true 1
    ∷ claim (codes "w1") 20 2
    ∷ claim (codes "w1") 20 3
    ∷ finish (codes "w1") reached 0 [] false 4
    ∷ create (codes "w2") (codes "t") [] (codes "sign up") true 5
    ∷ claim (codes "w2") 20 6
    ∷ restart 7
    ∷ []

wins_test : wins (codes "w1") events [] ≡ 1
unfolding step create_walkthrough claim_walkthrough_job finish_walkthrough mark_driving_failed eqb
    latest_terminal_id
wins_test = refl

baseline_test : latest_terminal_id (codes "t") (history events []) ≡ codes "w1"
unfolding history step create_walkthrough claim_walkthrough_job finish_walkthrough
    mark_driving_failed eqb latest_terminal_id
baseline_test = refl

history-IsCoherent_example : All IsCoherent (history events [])
history-IsCoherent_example = history-IsCoherent events

passes_do_not_overlap_example :
    (wins (codes "w2") events [] ≤ ends (codes "w2") events + 1)
    × (count (has_id (codes "w2")) (history events []) ≤ 1)
passes_do_not_overlap_example = passes_do_not_overlap events (codes "w2")
