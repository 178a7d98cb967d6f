-- ===== src/Walkthrough/Generator/Tests.antt =====
-- A target that may be driven, in a dry run.
use auditloop.Base.{◌≡◌, refl, true, false, none, some, inr, [], ◌∷◌, codes, eqb, trim_space}
use auditloop.Base.Int.{pos}
use auditloop.Db.Targets.{Target, get_target_by_id}
use auditloop.Db.Walkthroughs.{Walkthrough, new_walkthrough, undecided, get_walkthrough_by_id}
use auditloop.Walkthrough.Generator.{
  DriveRequest, drove, Pass, Services, setup, permitted, configured, drive_request, allowed_hosts,
  run_pass,
}
use auditloop.Walkthrough.Generator.Laws.{IsTargetOf, IsPermitted, setup-IsPermitted}
use auditloop.Walkthrough.Generator.Settled.{IsSettled, expected, run_pass-IsSettled}

abbrev target : Target
target = record {
  id = codes "t1";
  user_id = codes "me";
  name = codes "App";
  base_url = codes "https://app.test";
  verified_domains = [];
  auth_mode = codes "none";
  driving_enabled = true;
  allow_real_submit = false;
  created_at = 1;
}

-- A row that asks for real submissions.
abbrev wk : Walkthrough
wk = new_walkthrough (codes "w1") (codes "t1") [] (codes "sign up") false 3 []

abbrev services : Services
services = record {
  targets = target ∷ [];
  audit_config = λ user id. some (record {
    primary_job = codes "sign up";
    success_selector = codes "#done";
    success_url_contains = [];
    success_timeout_ms = pos 0;
  });
  vault = record {
    login_recipes = λ id. none;
    decrypt = none;
    parse_steps = λ json. none;
    parse_credentials = λ json. none;
  };
  evaluations = record {
    runs = [];
    evaluations = λ id. [];
    decode_blockers = λ json. none;
    diff_json = λ d. none;
  };
  drive = λ request. drove (record {
    outcome = undecided;
    stuck_step = 2;
    reason = codes "no progress";
    infra_failed = false;
    steps = [];
  });
  max_actions = pos 0;
  now = 9;
  put_fails = λ key. false;
  step_fails = λ idx. false;
  host_of = λ url. codes "APP.test";
  digits = λ n. codes "0";
}

abbrev pass : Pass
pass = record { walkthroughs = wk ∷ []; steps = []; objects = []; regressions = 0 }

abbrev asked : DriveRequest
asked = record {
  base_url = codes "https://app.test";
  allowed_hosts = codes "app.test" ∷ [];
  login = none;
  goal = codes "sign up";
  success = record { selector = codes "#done"; url_contains = []; timeout_ms = pos 0 };
  max_actions = pos 20;
  dry_run = true;
}

setup_test : setup services wk ≡ inr (target, asked)
unfolding setup permitted configured drive_request allowed_hosts get_target_by_id eqb trim_space
setup_test = refl

setup-IsPermitted_example : IsTargetOf services wk target × IsPermitted services wk target asked
setup-IsPermitted_example = setup-IsPermitted services wk target asked setup_test

found_test : get_walkthrough_by_id (codes "w1") pass.walkthroughs ≡ some wk
unfolding get_walkthrough_by_id eqb
found_test = refl

run_pass-IsSettled_example :
    IsSettled
      (codes "w1")
      (expected services (setup services wk))
      (run_pass services (codes "w1") pass).walkthroughs
run_pass-IsSettled_example = run_pass-IsSettled services (codes "w1") pass wk found_test
