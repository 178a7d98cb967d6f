-- ===== src/Artifacts/Tests.antt =====
-- A user with a run and a target.
use auditloop.Base.{◌≡◌, refl, false, Option, some, List, [], ◌∷◌, Str, codes, All, eqb, is_some}
use auditloop.Base.Text.Pieces.{from_first}
use auditloop.Base.Text.Scan.{after_first}
use auditloop.Db.Runs.{Run, new_run, get_run}
use auditloop.Db.Targets.{Target}
use auditloop.Storage.{slug, page_slug}
use auditloop.Storage.Laws.{slug-IsToken, page_slug-IsToken}
use auditloop.Artifacts.{
  handle_artifact, owns_artifact, owns_parts, artifact_run_id, split, served, not_found,
  bad_request,
}
use auditloop.Artifacts.Laws.{
  run_keys, answered, run_keys-answer, run_keys-run_id, IsOwner, handle_artifact-IsOwner,
}

abbrev run_id : Str
run_id = codes "0c8f1a52-3e1b-4d9a-9f7e-2b6a4c5d7e80"

abbrev hex : Str → Str
hex s = codes "9f86d081884c7d65"

abbrev my_runs : List Run
my_runs = new_run run_id (codes "me") (codes "t1") 3 [] ∷ []

abbrev my_targets : List Target
my_targets =
    record {
      id = codes "t1";
      user_id = codes "me";
      name = codes "My App!";
      base_url = codes "https://app.test";
      verified_domains = [];
      auth_mode = codes "none";
      driving_enabled = false;
      allow_real_submit = false;
      created_at = 1;
    }
    ∷ []

abbrev stored : Str → Option Str
stored key = some (codes "{}")

abbrev app : Str
app = slug (codes "  My App! ")

abbrev sign_up : Str
sign_up = page_slug hex (codes "https://app.test/Sign/Up?x=1")

app_test : app ≡ codes "my-app"
unfolding slug
app_test = refl

sign_up_test : sign_up ≡ codes "sign-up-x-1-9f86d081"
unfolding page_slug from_first after_first
sign_up_test = refl

foreign_test :
    handle_artifact stored my_targets my_runs
      (codes "you")
      (codes "my-app/0c8f1a52-3e1b-4d9a-9f7e-2b6a4c5d7e80/report.json")
    ≡ not_found
unfolding handle_artifact owns_artifact eqb owns_parts
foreign_test = refl

own_test :
    handle_artifact stored my_targets my_runs (codes "me") (codes "t1/walkthroughs/w/0.png")
    ≡ served (codes "image/png") (codes "{}")
unfolding handle_artifact owns_artifact eqb owns_parts
own_test = refl

dots_test :
    handle_artifact stored my_targets my_runs (codes "me") (codes "t1/walkthroughs/../x")
    ≡ bad_request
unfolding handle_artifact
dots_test = refl

run_keys-answer_example :
    All
      (λ key.
        handle_artifact stored my_targets my_runs (codes "me") key
        ≡ answered stored my_targets my_runs
            (codes "me")
            (is_some (get_run (codes "me") run_id my_runs))
            key)
      (run_keys app run_id sign_up (codes "Mobile") (codes "ico"))
run_keys-answer_example =
    run_keys-answer stored my_targets my_runs (codes "me") app run_id sign_up (codes "Mobile")
      (codes "ico") (slug-IsToken (codes "  My App! ")).0 ((refl, refl), refl)
      (page_slug-IsToken hex (λ s. refl) (codes "https://app.test/Sign/Up?x=1")) refl

run_keys-run_id_example :
    All (λ key. artifact_run_id key ≡ some run_id) (run_keys app run_id sign_up (codes "Mobile") [])
run_keys-run_id_example =
    run_keys-run_id app run_id sign_up (codes "Mobile") [] (slug-IsToken (codes "  My App! ")).0
      (refl, refl)

handle_artifact-IsOwner_example :
    IsOwner (codes "me") my_targets my_runs (split 47 (codes "t1/walkthroughs/w/0.png"))
    × (stored (codes "t1/walkthroughs/w/0.png") ≡ some (codes "{}"))
handle_artifact-IsOwner_example =
    handle_artifact-IsOwner (codes "me") my_targets my_runs stored (codes "t1/walkthroughs/w/0.png")
      (codes "image/png") (codes "{}") own_test
