-- ===== src/Recipe.antt =====
-- internal/recipe/recipe.go: the steps of a login recipe, their validation, and the guided form.
pub mod Laws
pub mod Guided
pub mod Login
mod Tests
use auditloop.Base.{
  ℕ, suc, ◌+◌, Bool, true, false, ◌&&◌, ◌||◌, not, or_else, Option, none, some, List, [], ◌∷◌, ltb,
  if◌then◌else◌, Str, codes, eqb, is_empty, one_of, trim_space,
}
use auditloop.Base.Int.{ℤ, pos, negsuc, is_pos}

-- A stored step may carry any other type, which is refused.
pub data StepType : Type 0 where
  goto fill click wait_for : StepType
  unknown : Str → StepType

abbrev pub ref_username : Str
ref_username = codes "username"

abbrev pub ref_password : Str
ref_password = codes "password"

abbrev pub default_wait_timeout_ms : ℕ
default_wait_timeout_ms = 15000

abbrev pub max_wait_timeout_ms : ℕ
max_wait_timeout_ms = 120000

pub record Step : Type 0 where
  pub step_type : StepType
  pub url : Str
  pub selector : Str
  pub value_ref : Str
  pub url_contains : Str
  pub timeout_ms : ℤ

-- The refusals of one step.
pub data StepError : Type 0 where
  url_required selector_required bad_value_ref condition_required negative_timeout : StepError
  timeout_too_long unknown_step_type : StepError

-- The refusals of a recipe; a step's comes with its index.
pub data RecipeError : Type 0 where
  no_steps no_goto first_not_goto no_success : RecipeError
  bad_step : (index : ℕ) → StepError → RecipeError

abbrev pub is_blank : Str → Bool
is_blank s = is_empty (trim_space s)

abbrev pub check_timeout : ℤ → Option StepError
check_timeout (negsuc n) = some negative_timeout
check_timeout (pos n) = if ltb max_wait_timeout_ms n then some timeout_too_long else none

abbrev pub check_type : StepType → Step → Option StepError
check_type goto s = if is_blank s.url then some url_required else none
check_type fill s =
    if is_blank s.selector
    then some selector_required
    else if not (eqb s.value_ref ref_username) && not (eqb s.value_ref ref_password)
    then some bad_value_ref
    else none
check_type click s = if is_blank s.selector then some selector_required else none
check_type wait_for s =
    if is_blank s.selector && is_blank s.url_contains
    then some condition_required
    else check_timeout s.timeout_ms
check_type (unknown t) s = some unknown_step_type

-- One round of the loop in Validate.
unfoldable pub check_step : Step → Option StepError
check_step s = check_type s.step_type s

abbrev pub reported : ℕ → Option StepError → Option RecipeError → Option RecipeError
reported i none rest = rest
reported i (some e) rest = some (bad_step i e)

unfoldable pub first_error : ℕ → List Step → Option RecipeError
first_error i [] = none
first_error i (s ∷ ss) = reported i (check_step s) (first_error (i + 1) ss)

abbrev pub is_goto : StepType → Bool
is_goto goto = true
is_goto fill = false
is_goto click = false
is_goto wait_for = false
is_goto (unknown t) = false

abbrev pub is_wait_for : StepType → Bool
is_wait_for goto = false
is_wait_for fill = false
is_wait_for click = false
is_wait_for wait_for = true
is_wait_for (unknown t) = false

-- hasGoto and hasSuccess after the loop.
unfoldable pub some_step : (StepType → Bool) → List Step → Bool
some_step p [] = false
some_step p (s ∷ ss) = p s.step_type || some_step p ss

abbrev pub check_whole : Step → List Step → Option RecipeError
check_whole s steps =
    if not (some_step is_goto steps)
    then some no_goto
    else if not (is_goto s.step_type)
    then some first_not_goto
    else if not (some_step is_wait_for steps)
    then some no_success
    else none

unfoldable pub validate : List Step → Option RecipeError
validate [] = some no_steps
validate (s ∷ ss) = or_else (first_error 1 (s ∷ ss)) (check_whole s (s ∷ ss))

-- The pages a recipe goes to.
unfoldable pub goto_urls : List Step → List Str
goto_urls [] = []
goto_urls (s ∷ ss) =
    let rest = goto_urls ss in
    if is_goto s.step_type && not (is_blank s.url) then trim_space s.url ∷ rest else rest

abbrev is_fill : StepType → Bool
is_fill fill = true
is_fill _ = false

abbrev refs_beyond : List Str → List Step → List Str
refs_beyond seen [] = []
refs_beyond seen (s ∷ ss) =
    let more = refs_beyond (s.value_ref ∷ seen) ss in
    let rest = refs_beyond seen ss in
    if is_fill s.step_type && not (is_empty s.value_ref) && not (one_of s.value_ref seen)
    then s.value_ref ∷ more
    else rest

-- The credentials that the fill steps ask for, once each.
unfoldable pub required_refs : List Step → List Str
required_refs steps = refs_beyond [] steps
