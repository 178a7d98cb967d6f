-- ===== src/Recipe/Guided.antt =====
-- internal/recipe/recipe.go: the guided form (GuidedForm, Compile, DeriveGuided).
pub mod Laws
use auditloop.Base.{
  ℕ, Bool, true, false, ◌&&◌, not, Option, none, some, List, [], ◌∷◌, ltb, ◌==◌, if◌then◌else◌, Str,
  eqb, is_empty, trim_space, length,
}
use auditloop.Base.Int.{ℤ, pos, negsuc, is_pos}
use auditloop.Recipe.{
  StepType, goto, fill, click, wait_for, unknown, ref_username, ref_password,
  default_wait_timeout_ms, Step,
}

pub record GuidedForm : Type 0 where
  pub login_url : Str
  pub username_selector : Str
  pub password_selector : Str
  pub submit_selector : Str
  pub success_selector : Str
  pub success_url_contains : Str
  pub success_timeout_ms : ℤ

abbrev pub effective_timeout : ℤ → ℤ
effective_timeout t = if is_pos t then t else pos default_wait_timeout_ms

abbrev pub step_of : StepType → Step
step_of t = record {
  step_type = t;
  url = [];
  selector = [];
  value_ref = [];
  url_contains = [];
  timeout_ms = pos 0;
}

unfoldable pub compile : GuidedForm → List Step
compile f =
    record (step_of goto) { url = trim_space f.login_url }
    ∷ record (step_of fill) { selector = trim_space f.username_selector; value_ref = ref_username }
    ∷ record (step_of fill) { selector = trim_space f.password_selector; value_ref = ref_password }
    ∷ record (step_of click) { selector = trim_space f.submit_selector }
    ∷ record (step_of wait_for) {
      selector = trim_space f.success_selector;
      url_contains = trim_space f.success_url_contains;
      timeout_ms = effective_timeout f.success_timeout_ms;
    }
    ∷ []

-- The form so far, and which steps have been seen.
pub record Derived : Type 0 where
  pub form : GuidedForm
  pub saw_user : Bool
  pub saw_pass : Bool
  pub saw_click : Bool
  pub saw_wait : Bool

abbrev pub derive_fill : Str → Str → Derived → Derived
derive_fill ref selector d =
    if eqb ref ref_username
    then record d { form = record d.form { username_selector = selector }; saw_user = true }
    else if eqb ref ref_password
    then record d { form = record d.form { password_selector = selector }; saw_pass = true }
    else d

abbrev pub derive_step : StepType → Step → Derived → Derived
derive_step goto s d =
    if is_empty d.form.login_url then record d { form = record d.form { login_url = s.url } } else d
derive_step fill s d = derive_fill s.value_ref s.selector d
derive_step click s d =
    if d.saw_click
    then d
    else record d { form = record d.form { submit_selector = s.selector }; saw_click = true }
derive_step wait_for s d = record d {
  form = record d.form {
    success_selector = s.selector;
    success_url_contains = s.url_contains;
    success_timeout_ms = s.timeout_ms;
  };
  saw_wait = true;
}
derive_step (unknown t) s d = d

unfoldable pub derive_steps : List Step → Derived → Derived
derive_steps [] d = d
derive_steps (s ∷ ss) d = derive_steps ss (derive_step s.step_type s d)

abbrev pub blank_form : GuidedForm
blank_form = record {
  login_url = [];
  username_selector = [];
  password_selector = [];
  submit_selector = [];
  success_selector = [];
  success_url_contains = [];
  success_timeout_ms = pos 0;
}

abbrev pub nothing_seen : Derived
nothing_seen = record {
  form = blank_form;
  saw_user = false;
  saw_pass = false;
  saw_click = false;
  saw_wait = false;
}

unfoldable pub derive_guided : List Step → GuidedForm × Bool
derive_guided steps =
    let d = derive_steps steps nothing_seen in
    (
      d.form,
      not (is_empty d.form.login_url)
          && d.saw_user
          && d.saw_pass
          && d.saw_click
          && d.saw_wait
          && length steps == 5,
    )
