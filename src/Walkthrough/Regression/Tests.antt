-- ===== src/Walkthrough/Regression/Tests.antt =====
-- Runs of the summary, and the theorems at concrete walkthroughs.
use auditloop.Base.{◌≡◌, refl, true, false, Option, some, List, [], ◌∷◌, Str, codes}
use auditloop.Base.Int.{negsuc}
use auditloop.Db.Walkthroughs.{Walkthrough, stuck, failure, new_walkthrough, done}
use auditloop.Walkthrough.Regression.{compute_diff, scored, outcome_rank}
use auditloop.Report.{EvalFinding}
use auditloop.Walkthrough.Regression.Blockers.{PageEvaluation}

abbrev before : Walkthrough
before = record (new_walkthrough (codes "w1") (codes "t") [] (codes "sign up") true 1 []) {
  status = done;
  outcome = stuck;
  stuck_step = 5;
}

abbrev now : Walkthrough
now = record before { id = codes "w2"; stuck_step = 3 }

earlier_test : (compute_diff before now [] [] false).is_regression ≡ true
unfolding compute_diff scored outcome_rank
earlier_test = refl

delta_test : (compute_diff before now [] [] false).stuck_step_delta ≡ negsuc 1
unfolding compute_diff scored outcome_rank
delta_test = refl

-- A pass that is stuck after one that failed counts as resolved.
failed_to_stuck_test :
    (compute_diff (record before { outcome = failure }) now [] [] false).resolved ≡ true
unfolding compute_diff scored outcome_rank
failed_to_stuck_test = refl

abbrev finding : EvalFinding
finding = record {
  selector = codes "  #Go  .x ";
  evidence = [];
  issue = codes "No label";
  verified = true;
}

abbrev decode : Str → Option (List EvalFinding)
decode s = some (finding ∷ record finding { verified = false; selector = codes "#b" } ∷ [])

abbrev evals : List PageEvaluation
evals = record { persona = codes "novice"; findings_json = codes "{}" } ∷ []
