-- ===== src/Signals.antt =====
-- internal/signals/signals.go: the findings that raw measurements make, with the thresholds of
-- internal/report. A floating-point number is a value of an unknown type, and its two thresholds are
-- tests. The detail of a finding is kept as it is before json.Marshal; of the details of a metric
-- and of a smell the unit, the threshold and the note, which their name determines, are left out.
use auditloop.Base.{
  ℕ, Bool, false, ◌&&◌, ◌||◌, List, [], ◌∷◌, ◌++◌, ltb, if◌then◌else◌, Str, codes, eqb,
}
use auditloop.Base.Int.{ℤ, pos, negsuc}

-- A measured value, of a count or of a floating-point number.
pub data Value (Float : Type 0) : Type 0 where
  count : ℤ → Value Float
  ratio : Float → Value Float

pub data Detail (Float : Type 0) : Type 0 where
  metric : (name rating : Str) → Value Float → Detail Float
  page_weight : (weight_bytes req_count : ℤ) → Detail Float
  smell : (name : Str) → ℤ → List Str → Detail Float
  -- {"detail": …} and {"id": …, "detail": …}
  text : Str → Detail Float
  rule : (id detail : Str) → Detail Float
  -- What is JSON already.
  raw : Str → Detail Float

pub record Finding (Float : Type 0) : Type 0 where
  pub type : Str
  pub severity : Str
  pub detail : Detail Float

pub record Perf (Float : Type 0) : Type 0 where
  pub lcp_ms : ℤ
  pub cls : Float
  pub tbt_ms : ℤ
  pub weight_bytes : ℤ
  pub req_count : ℤ

pub record LayoutSmells : Type 0 where
  pub horizontal_overflow : Bool
  pub scroll_width : ℤ
  pub inner_width : ℤ
  pub small_tap_targets : ℤ
  pub small_text : ℤ
  pub missing_viewport_meta : Bool
  pub images_no_dims : ℤ
  pub examples : List (Str × List Str)

-- z > n
abbrev pub is_above : ℕ → ℤ → Bool
is_above n (pos k) = ltb n k
is_above n (negsuc k) = false

abbrev pub lcp_good_ms : ℕ
lcp_good_ms = 2500

abbrev pub lcp_poor_ms : ℕ
lcp_poor_ms = 4000

abbrev pub tbt_good_ms : ℕ
tbt_good_ms = 200

abbrev pub tbt_poor_ms : ℕ
tbt_poor_ms = 600

abbrev pub weight_warn_bytes : ℕ
weight_warn_bytes = 3145728

abbrev pub req_count_warn : ℕ
req_count_warn = 100

-- An entry of a map of examples, nothing when it is missing.
unfoldable pub examples_at : Str → List (Str × List Str) → List Str
unfolding eqb
examples_at k [] = []
examples_at k ((j, es) ∷ more) = let rest = examples_at k more in if eqb j k then es else rest

module _ {Float : Type 0} where
  -- A metric that is above its good threshold makes one finding.
  unfoldable pub rated : Str → Bool → Bool → Value Float → List (Finding Float)
  rated name above_good above_poor value =
      if above_good
      then record {
        type = codes "perf";
        severity = if above_poor then codes "serious" else codes "moderate";
        detail = metric name (if above_poor then codes "poor" else codes "needs-improvement") value;
      }
        ∷ []
      else []

  unfoldable pub heavy_page : Perf Float → List (Finding Float)
  heavy_page p =
      if is_above weight_warn_bytes p.weight_bytes || is_above req_count_warn p.req_count
      then record {
        type = codes "perf";
        severity = codes "minor";
        detail = page_weight p.weight_bytes p.req_count;
      }
        ∷ []
      else []

  unfoldable pub perf_findings : (Float → Bool) → (Float → Bool) → Perf Float → List (Finding Float)
  unfolding rated heavy_page
  perf_findings above_cls_good above_cls_poor p =
      rated (codes "LCP") (is_above lcp_good_ms p.lcp_ms) (is_above lcp_poor_ms p.lcp_ms)
        (count p.lcp_ms)
      ++ (rated (codes "CLS") (above_cls_good p.cls) (above_cls_poor p.cls) (ratio p.cls)
          ++ (rated (codes "TBT") (is_above tbt_good_ms p.tbt_ms) (is_above tbt_poor_ms p.tbt_ms)
                (count p.tbt_ms)
              ++ heavy_page p))

  unfoldable pub layout_finding : Bool → Str → Str → ℤ → List Str → List (Finding Float)
  layout_finding present name severity n examples =
      if present
      then record { type = codes "layout"; severity = severity; detail = smell name n examples }
        ∷ []
      else []

  -- The flag tells the viewport of a phone.
  unfoldable pub layout_findings : LayoutSmells → Bool → List (Finding Float)
  unfolding layout_finding examples_at
  layout_findings ls mobile =
      layout_finding (mobile && ls.horizontal_overflow) (codes "horizontal-overflow")
        (codes "moderate") (pos 0) (examples_at (codes "horizontal_overflow") ls.examples)
      ++ (layout_finding (mobile && is_above 0 ls.small_tap_targets) (codes "small-tap-targets")
            (codes "moderate") ls.small_tap_targets
            (examples_at (codes "small_tap_targets") ls.examples)
          ++ (layout_finding (is_above 0 ls.small_text) (codes "small-text") (codes "minor")
                ls.small_text (examples_at (codes "small_text") ls.examples)
              ++ (layout_finding ls.missing_viewport_meta (codes "missing-viewport-meta")
                    (codes "moderate") (pos 0) []
                  ++ layout_finding (is_above 0 ls.images_no_dims)
                      (codes "images-without-dimensions") (codes "minor") ls.images_no_dims
                      (examples_at (codes "images_no_dims") ls.examples))))
