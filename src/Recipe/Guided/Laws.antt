-- ===== src/Recipe/Guided/Laws.antt =====
-- Compile against Validate and DeriveGuided.
use auditloop.Base.{◌≤◌, ◌≡◌, ◌↔◌, ◌⊎◌, false, not, arith, eqb, trim_space, none}
use auditloop.Base.Int.{ℤ, pos, negsuc, pos_part}
use auditloop.Recipe.{
  is_blank, max_wait_timeout_ms, validate, check_timeout, first_error, check_step, some_step,
}
use auditloop.Recipe.Guided.{GuidedForm, effective_timeout, compile, derive_steps, derive_guided}

-- The form as it is kept: trimmed, with a timeout.
abbrev pub tidy : GuidedForm → GuidedForm
tidy f = record {
  login_url = trim_space f.login_url;
  username_selector = trim_space f.username_selector;
  password_selector = trim_space f.password_selector;
  submit_selector = trim_space f.submit_selector;
  success_selector = trim_space f.success_selector;
  success_url_contains = trim_space f.success_url_contains;
  success_timeout_ms = effective_timeout f.success_timeout_ms;
}

-- The steps of a form are read back as that form with its texts trimmed and its timeout set, and
-- they are recognized as a guided recipe exactly if the login URL is not blank.
pub derive_guided-compile :
    (f : GuidedForm) → derive_guided (compile f) ≡ (tidy f, not (is_blank f.login_url))
unfolding derive_guided derive_steps compile eqb
derive_guided-compile f = ground arith

-- A form that can be saved: nothing blank that a step needs, one of the two success conditions, and
-- a timeout within the limit, which a timeout below one always is.
abbrev pub IsComplete : GuidedForm → Type 0
IsComplete f =
    (is_blank (trim_space f.login_url) ≡ false)
    × (is_blank (trim_space f.username_selector) ≡ false)
    × (is_blank (trim_space f.password_selector) ≡ false)
    × (is_blank (trim_space f.submit_selector) ≡ false)
    × (is_blank (trim_space f.success_selector) ≡ false
        ⊎ is_blank (trim_space f.success_url_contains) ≡ false)
    × (pos_part f.success_timeout_ms ≤ max_wait_timeout_ms)

timeout_iff :
    (t : ℤ) → (check_timeout (effective_timeout t) ≡ none) ↔ (pos_part t ≤ max_wait_timeout_ms)
timeout_iff (pos n) = ground arith
timeout_iff (negsuc n) = ground arith

-- The steps of a form pass Validate exactly if the form is complete.
pub validate-compile : (f : GuidedForm) → (validate (compile f) ≡ none) ↔ IsComplete f
unfolding compile validate first_error check_step some_step eqb
validate-compile f = ground (arith, timeout_iff f.success_timeout_ms)
