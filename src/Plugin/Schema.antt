-- ===== src/Plugin/Schema.antt =====
-- internal/plugin/schema.go: the body of a push and its check. A map of file names is the list of its
-- keys; a floating-point number is a value of an unknown type with a test for being below zero. An
-- error is its kind, without the index and the text of the message.
pub mod Laws
mod Tests
use auditloop.Base.{
  ℕ, Bool, true, false, ◌&&◌, ◌||◌, not, Option, none, some, ◌⊎◌, inl, inr, List, [], ◌∷◌, ◌++◌,
  ltb, ◌==◌, if◌then◌else◌, length, all, any, keep_if, Str, codes, eqb, one_of, is_empty,
  trim_space,
}
use auditloop.Base.Int.{ℤ, is_neg}

abbrev pub max_pages : ℕ
max_pages = 200

abbrev pub valid_environments : List Str
valid_environments = codes "lab" ∷ codes "staging" ∷ codes "prod" ∷ []

abbrev pub finding_types : List Str
finding_types =
    codes "a11y"
    ∷ codes "console"
    ∷ codes "network"
    ∷ codes "perf"
    ∷ codes "layout"
    ∷ codes "other"
    ∷ []

pub record PushPerf (Float : Type 0) : Type 0 where
  pub lcp_ms : ℤ
  pub cls : Float
  pub tbt_ms : ℤ
  pub weight_bytes : ℤ
  pub req_count : ℤ

pub record PushLayout : Type 0 where
  pub horizontal_overflow : Bool
  pub scroll_width : ℤ
  pub inner_width : ℤ
  pub small_tap_targets : ℤ
  pub small_text : ℤ
  pub missing_viewport_meta : Bool
  pub images_no_dims : ℤ
  pub examples : List (Str × List Str)

pub record PushFinding : Type 0 where
  pub type : Str
  pub severity : Str
  pub detail : Str

pub record PushPage (Float : Type 0) : Type 0 where
  pub url : Str
  pub viewport : Str
  pub screenshot : Str
  pub axe : Str
  pub network : Str
  pub a11y_digest : Str
  pub axe_violations : ℤ
  pub console_first_party : ℤ
  pub console_third_party : ℤ
  pub network_first_party : ℤ
  pub network_third_party : ℤ
  pub findings : List PushFinding
  pub perf : Option (PushPerf Float)
  pub layout : Option PushLayout

pub record PushPayload (Float : Type 0) : Type 0 where
  pub label : Str
  pub environment : Str
  pub pages : List (PushPage Float)

pub data PushError : Type 0 where
  unknown_environment no_pages too_many_pages url_required unknown_viewport screenshot_required
        part_missing unknown_finding_type negative_perf negative_layout orphan_part :
      PushError

-- An error, or the file names seen.
abbrev pub Seen : Type 0
Seen = PushError ⊎ List Str

-- The loop over the file names of a page.
unfoldable pub check_refs : List Str → List Str → List Str → Seen
unfolding one_of
check_refs provided seen [] = inr seen
check_refs provided seen (ref ∷ refs) =
    let skip = check_refs provided seen refs in
    let more = check_refs provided (ref ∷ seen) refs in
    if is_empty ref then skip else if not (one_of ref provided) then inl part_missing else more

abbrev pub negative_layout_values : Option PushLayout → Bool
negative_layout_values none = false
negative_layout_values (some l) =
    is_neg l.scroll_width
    || is_neg l.inner_width
    || is_neg l.small_tap_targets
    || is_neg l.small_text
    || is_neg l.images_no_dims

-- The second loop: every part that was uploaded was seen.
unfoldable pub check_parts : List Str → List Str → Option PushError
unfolding one_of
check_parts seen [] = none
check_parts seen (name ∷ names) =
    let rest = check_parts seen names in if not (one_of name seen) then some orphan_part else rest

abbrev pub then_parts : List Str → Seen → Option PushError
then_parts provided (inl e) = some e
then_parts provided (inr seen) = check_parts seen provided

unfoldable pub width_for : Str → ℕ
unfolding eqb
width_for viewport = if eqb viewport (codes "desktop") then 1440 else 390

module _ {Float : Type 0} where
  unfoldable pub file_refs : PushPage Float → List Str
  file_refs pg = pg.screenshot ∷ pg.axe ∷ pg.network ∷ pg.a11y_digest ∷ []

  -- The names may stand more than once.
  unfoldable pub referenced_of : List (PushPage Float) → List Str
  unfolding file_refs
  referenced_of [] = []
  referenced_of (pg ∷ pages) = keep_if (λ f. not (is_empty f)) (file_refs pg) ++ referenced_of pages

  unfoldable pub referenced_files : PushPayload Float → List Str
  unfolding referenced_of
  referenced_files p = referenced_of p.pages

module _ {Float : Type 0} (below_zero : Float → Bool) where
  abbrev pub negative_perf_values : Option (PushPerf Float) → Bool
  negative_perf_values none = false
  negative_perf_values (some p) =
      is_neg p.lcp_ms
      || below_zero p.cls
      || is_neg p.tbt_ms
      || is_neg p.weight_bytes
      || is_neg p.req_count

  -- What follows the loop over the file names of a page.
  unfoldable pub check_values : PushPage Float → Seen → Seen
  unfolding one_of
  check_values pg (inl e) = inl e
  check_values pg (inr seen) =
      if any (λ f. not (one_of f.type finding_types)) pg.findings
      then inl unknown_finding_type
      else if negative_perf_values pg.perf
      then inl negative_perf
      else if negative_layout_values pg.layout
      then inl negative_layout
      else inr seen

  unfoldable pub check_page : List Str → List Str → PushPage Float → Seen
  unfolding trim_space one_of check_refs file_refs check_values
  check_page provided seen pg =
      if is_empty (trim_space pg.url)
      then inl url_required
      else if not (one_of pg.viewport (codes "mobile" ∷ codes "desktop" ∷ []))
      then inl unknown_viewport
      else if is_empty (trim_space pg.screenshot)
      then inl screenshot_required
      else check_values pg (check_refs provided seen (file_refs pg))

  unfoldable pub check_pages : List Str → List Str → List (PushPage Float) → Seen
  unfolding check_page
  check_pages provided seen [] = inr seen
  check_pages provided seen (pg ∷ pages) = elim (check_page provided seen pg) [
    | inl e ↦ inl e
    | inr seen' ↦ check_pages provided seen' pages
  ]

  -- The first error, if any.
  unfoldable pub validate : PushPayload Float → List Str → Option PushError
  unfolding one_of check_pages check_parts
  validate p provided =
      if not (is_empty p.environment) && not (one_of p.environment valid_environments)
      then some unknown_environment
      else if length p.pages == 0
      then some no_pages
      else if ltb max_pages (length p.pages)
      then some too_many_pages
      else then_parts provided (check_pages provided [] p.pages)
