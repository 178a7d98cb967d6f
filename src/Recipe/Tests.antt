-- ===== src/Recipe/Tests.antt =====
-- Runs of the validation, and the theorems at concrete recipes.
use auditloop.Base.{◌≡◌, ◌↔◌, refl, not, none, List, [], ◌∷◌, codes, eqb, trim_space, one_of}
use auditloop.Base.Int.{negsuc}
use auditloop.Recipe.{
  Step, goto, click, wait_for, is_blank, check_step, first_error, some_step, validate, goto_urls,
  required_refs,
}
use auditloop.Recipe.Laws.{IsRecipe, validate-IsRecipe_iff}
use auditloop.Recipe.Guided.{GuidedForm, step_of, compile, derive_guided}
use auditloop.Recipe.Guided.Laws.{tidy, IsComplete, derive_guided-compile, validate-compile}

abbrev form : GuidedForm
form = record {
  login_url = codes " https://a.example/login ";
  username_selector = codes "#u";
  password_selector = codes "#p";
  submit_selector = codes "button";
  success_selector = [];
  success_url_contains = codes "/home";
  success_timeout_ms = negsuc 0;
}

compiled_test : validate (compile form) ≡ none
unfolding validate compile first_error check_step some_step eqb trim_space
compiled_test = refl

refs_test : required_refs (compile form) ≡ codes "username" ∷ codes "password" ∷ []
unfolding required_refs compile eqb one_of
refs_test = refl

urls_test : goto_urls (compile form) ≡ codes "https://a.example/login" ∷ []
unfolding goto_urls compile trim_space
urls_test = refl

-- The success condition need not come last.
abbrev early : List Step
early =
    record (step_of goto) { url = codes "https://a.example" }
    ∷ record (step_of wait_for) { selector = codes "#form" }
    ∷ record (step_of click) { selector = codes "#go" }
    ∷ []

early_test : validate early ≡ none
unfolding validate first_error check_step some_step trim_space
early_test = refl

validate-IsRecipe_iff_example : (validate early ≡ none) ↔ IsRecipe early
validate-IsRecipe_iff_example = validate-IsRecipe_iff early

derive_guided-compile_example :
    derive_guided (compile form) ≡ (tidy form, not (is_blank form.login_url))
derive_guided-compile_example = derive_guided-compile form

validate-compile_example : (validate (compile form) ≡ none) ↔ IsComplete form
validate-compile_example = validate-compile form
