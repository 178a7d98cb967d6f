-- ===== src/Action.antt =====
-- internal/action/action.go: the closed set of browser actions and what makes one valid. Decoding
-- the JSON of a reply is encoding/json's, a parameter of parse_action.
pub mod Laws
pub mod Reply
pub mod Tests
use auditloop.Base.{
  ℕ, ◌+◌, ◌-◌, Bool, true, false, ◌&&◌, ◌||◌, not, Option, none, some, List, [], ◌∷◌, ◌++◌, ltb,
  leb, ◌==◌, if◌then◌else◌, Str, codes, len, length, is_empty, one_of, trim_space, to_lower,
  has_prefix,
}
use auditloop.Base.Int.{ℤ}

-- The constants of Type; a planner may write any other text.
pub data Kind : Type 0 where
  click type_text press select scroll wait_for navigate finish : Kind
  unknown : Str → Kind

pub record Action : Type 0 where
  pub kind : Kind
  pub selector : Str
  pub text : Str
  pub key : Str
  pub value : Str
  pub direction : Str
  pub url : Str
  pub url_contains : Str
  pub timeout_ms : ℤ
  pub reason : Str

abbrev pub max_selector_len : ℕ
max_selector_len = 400

abbrev pub max_text_len : ℕ
max_text_len = 2000

abbrev pub max_reason_len : ℕ
max_reason_len = 500

abbrev pub max_url_len : ℕ
max_url_len = 2000

abbrev pub allowed_keys : List Str
allowed_keys =
    codes "Enter" ∷ codes "Tab" ∷ codes "Escape" ∷ codes "ArrowUp" ∷ codes "ArrowDown" ∷ []

abbrev pub allowed_directions : List Str
allowed_directions = codes "up" ∷ codes "down" ∷ []

-- The errors of Validate.
pub data Violation : Type 0 where
  selector_too_long text_too_long reason_too_long url_too_long : Violation
  selector_required text_required value_required url_required condition_required : Violation
  key_not_allowed direction_not_allowed unknown_type : Violation

-- The `switch` of Validate; none is the nil error.
validate_kind : Kind → Action → Option Violation
validate_kind click a = if is_empty a.selector then some selector_required else none
validate_kind type_text a =
    if is_empty a.selector
    then some selector_required
    else if is_empty a.text
    then some text_required
    else none
validate_kind press a = if one_of a.key allowed_keys then none else some key_not_allowed
validate_kind select a =
    if is_empty a.selector
    then some selector_required
    else if is_empty a.value
    then some value_required
    else none
validate_kind scroll a =
    if not (is_empty a.direction) && not (one_of a.direction allowed_directions)
    then some direction_not_allowed
    else none
validate_kind wait_for a =
    if is_empty a.selector && is_empty a.url_contains then some condition_required else none
validate_kind navigate a = if is_empty a.url then some url_required else none
validate_kind finish a = none
validate_kind (unknown name) a = some unknown_type

unfoldable pub validate : Action → Option Violation
unfolding validate_kind
validate a =
    if ltb max_selector_len (len a.selector)
    then some selector_too_long
    else if ltb max_text_len (len a.text)
    then some text_too_long
    else if ltb max_reason_len (len a.reason)
    then some reason_too_long
    else if ltb max_url_len (len a.url)
    then some url_too_long
    else validate_kind a.kind a

kind_name : Kind → Str
kind_name click = codes "click"
kind_name type_text = codes "type"
kind_name press = codes "press"
kind_name select = codes "select"
kind_name scroll = codes "scroll"
kind_name wait_for = codes "waitFor"
kind_name navigate = codes "navigate"
kind_name finish = codes "finish"
kind_name (unknown name) = name

dedup_target : Kind → Action → Str
dedup_target navigate a = a.url
dedup_target press a = a.key
dedup_target scroll a = a.direction
dedup_target wait_for a = if is_empty a.selector then a.url_contains else a.selector
dedup_target _ a = a.selector

unfoldable pub dedup_key : Action → Str → Str
unfolding kind_name dedup_target
dedup_key a current_url = kind_name a.kind ++ (b'|' ∷ dedup_target a.kind a) ++ (b'|' ∷ current_url)

pub record SuccessAssertion : Type 0 where
  pub selector : Str
  pub url_contains : Str
  pub timeout_ms : ℤ

unfoldable pub is_zero : SuccessAssertion → Bool
is_zero s = is_empty (trim_space s.selector) && is_empty (trim_space s.url_contains)

pub data AssertionError : Type 0 where
  no_condition selector_long url_long : AssertionError

unfoldable pub validate_assertion : SuccessAssertion → Option AssertionError
unfolding is_zero
validate_assertion s =
    if is_zero s
    then some no_condition
    else if ltb max_selector_len (len s.selector)
    then some selector_long
    else if ltb max_url_len (len s.url_contains)
    then some url_long
    else none
