-- ===== src/Digest.antt =====
-- internal/report/a11y.go: the digest of a page's accessibility tree, and the anchors by which its
-- elements are found.
pub mod Push
pub mod Tests
use auditloop.Base.{
  ℕ, Bool, true, false, ◌&&◌, ◌||◌, Option, none, some, List, [], ◌∷◌, ◌++◌, if◌then◌else◌, ◌==◌,
  Str, codes, is_empty, one_of, trim_space, to_lower,
}
use auditloop.Base.Text.Scan.{
  until, after_last, split_at, after_first, trim, is_quote, is_any, dedupe,
}

abbrev pub max_digest_bytes : ℕ
max_digest_bytes = 262144

abbrev pub max_interactive : ℕ
max_interactive = 40

abbrev pub max_form_controls : ℕ
max_form_controls = 30

abbrev pub max_landmarks : ℕ
max_landmarks = 30

abbrev pub max_selector_len : ℕ
max_selector_len = 200

abbrev pub max_name_len : ℕ
max_name_len = 120

abbrev pub max_text_len : ℕ
max_text_len = 80

abbrev pub max_token_len : ℕ
max_token_len = 64

abbrev pub programmatic_sources : List Str
programmatic_sources =
    codes "for" ∷ codes "aria-label" ∷ codes "aria-labelledby" ∷ codes "wrapping-label" ∷ []

abbrev pub other_sources : List Str
other_sources = codes "placeholder" ∷ codes "text-content" ∷ codes "value" ∷ codes "none" ∷ []

abbrev pub normalize_label_source : Str → Str
normalize_label_source src = to_lower (trim_space src)

unfoldable pub is_programmatic : Str → Bool
is_programmatic src = one_of (normalize_label_source src) programmatic_sources

unfoldable pub known_label_source : Str → Bool
known_label_source src =
    let s = normalize_label_source src in
    is_empty s || one_of s programmatic_sources || one_of s other_sources

-- The last simple selector, in lower case.
unfoldable pub normalize_selector : Str → Str
normalize_selector s = trim_space (after_last (is_any (codes " >+~")) (trim_space (to_lower s)))

abbrev id_part : Option (Str × Str) → Str
id_part none = []
id_part (some (before, rest)) = trim_space (until (is_any (codes ".#[:")) rest)

unfoldable pub extract_id : Str → Str
extract_id s = id_part (split_at b'#' s)

abbrev value_part : Option (Str × Str) → Str
value_part none = []
value_part (some (value, rest)) = trim_space (trim is_quote value)

abbrev name_part : Option Str → Str
name_part none = []
name_part (some rest) = value_part (split_at b']' rest)

unfoldable pub extract_name : Str → Str
extract_name s = name_part (after_first (codes "[name=") s)

abbrev pub id_key : Str → Str
id_key id = if is_empty id then [] else b'#' ∷ id

abbrev pub name_key : Str → Str
name_key name = if is_empty name then [] else codes "[name=" ++ (name ++ b']' ∷ [])

-- ConcreteKeys: the anchors of a selector, by its id and by its name. Empty keys are dropped.
unfoldable pub concrete_keys : Str → List Str
concrete_keys selector =
    let s = normalize_selector selector in
    if is_empty s then [] else dedupe (id_key (extract_id s) ∷ name_key (extract_name s) ∷ [])

pub record Interactive : Type 0 where
  pub tag : Str
  pub role : Str
  pub accessible_name : Str
  pub selector : Str
  pub input_type : Str
  pub disabled : Bool
  pub focusable : Bool
  pub label_source : Str

pub record FormControl : Type 0 where
  pub selector : Str
  pub accessible_name : Str
  pub has_label : Bool
  pub label_source : Str

pub record Landmark : Type 0 where
  pub tag : Str
  pub role : Str
  pub text : Str

pub record A11yDigest : Type 0 where
  pub interactive : List Interactive
  pub form_controls : List FormControl
  pub landmarks : List Landmark

abbrev pub no_items {ℓ} : {A : Type ℓ} → List A → Bool
no_items [] = true
no_items (x ∷ xs) = false

-- IsEmpty, where the nil pointer counts as empty.
unfoldable pub is_empty_digest : Option A11yDigest → Bool
is_empty_digest none = true
is_empty_digest (some d) =
    no_items d.interactive && no_items d.form_controls && no_items d.landmarks
