-- ===== src/Plugin/Map.antt =====
-- internal/plugin/map.go: a pushed page as a row, its findings and its entry of the report. What
-- encoding/json makes of a text is a parameter: the id of an object, empty when there is none.
pub mod Laws
mod Tests
use auditloop.Base.{
  ℕ, ◌-◌, Bool, true, false, ◌&&◌, ◌||◌, not, Option, none, some, List, [], ◌∷◌, ◌++◌, ltb,
  if◌then◌else◌, is_some, Str, codes, eqb, is_empty, len, trim_space,
}
use mathlib.Core.Option
use auditloop.Base.Int.{ℤ}
use auditloop.Base.Text.Pieces.{cut_at}
use auditloop.Plugin.Schema.{PushPage, PushPerf, PushLayout, PushFinding, width_for}
use auditloop.Signals.{
  Finding, Detail, text, rule, raw, Perf, LayoutSmells, perf_findings, layout_findings,
}

pub record PageKeys : Type 0 where
  pub screenshot : Str
  pub axe : Str
  pub network : Str
  pub a11y_digest : Str

-- The columns of the row that a push fills; without a block those of performance stay zero.
pub record Row (Float : Type 0) : Type 0 where
  pub run_id : Str
  pub url : Str
  pub viewport : Str
  pub screenshot_key : Str
  pub axe_key : Str
  pub a11y_digest_key : Str
  pub axe_violation_count : ℤ
  pub console_first_party_count : ℤ
  pub console_third_party_count : ℤ
  pub network_first_party_count : ℤ
  pub network_third_party_count : ℤ
  pub perf : Option (Perf Float)

pub record Entry (Float : Type 0) : Type 0 where
  pub url : Str
  pub viewport : Str
  pub width : ℕ
  pub screenshot_key : Str
  pub axe_key : Str
  pub network_key : Str
  pub a11y_digest_key : Str
  pub console : ℤ × ℤ
  pub network : ℤ × ℤ
  pub a11y_violations : ℤ
  pub perf : Option (Perf Float)
  pub layout : Option LayoutSmells
  pub findings : List (Finding Float)

pub record MappedPage (Float : Type 0) : Type 0 where
  pub page : Row Float
  pub findings : List (Finding Float)
  pub report : Entry Float

abbrev pub max_a11y_rule_id_len : ℕ
max_a11y_rule_id_len = 128

-- s[:n]; a rune that the cut falls into goes as a whole, where Go keeps a part of its bytes.
unfoldable pub take_bytes : ℕ → Str → Str
take_bytes n [] = []
take_bytes n (c ∷ s) =
    let rest = take_bytes (n - len (c ∷ [])) s in if ltb n (len (c ∷ [])) then [] else c ∷ rest

-- The help text behind " — " is cut off.
abbrev pub before_help : Str → Str
unfolding cut_at trim_space
before_help s = elim (cut_at (codes " — ") s) [ some parts ↦ trim_space parts.0 | none ↦ s ]

unfoldable pub rule_id_of : Str → Str
unfolding before_help take_bytes trim_space
rule_id_of pushed =
    let id = before_help (trim_space pushed) in
    if ltb max_a11y_rule_id_len (len id) then take_bytes max_a11y_rule_id_len id else id

abbrev pub layout_of : PushLayout → LayoutSmells
layout_of l = record {
  horizontal_overflow = l.horizontal_overflow;
  scroll_width = l.scroll_width;
  inner_width = l.inner_width;
  small_tap_targets = l.small_tap_targets;
  small_text = l.small_text;
  missing_viewport_meta = l.missing_viewport_meta;
  images_no_dims = l.images_no_dims;
  examples = l.examples;
}

-- The state of both lists.
abbrev pub Lists : Type 0 → Type 0
Lists Float = List (Finding Float) × List (Finding Float)

module _ {Float : Type 0} where
  abbrev pub perf_of : PushPerf Float → Perf Float
  perf_of p = record {
    lcp_ms = p.lcp_ms;
    cls = p.cls;
    tbt_ms = p.tbt_ms;
    weight_bytes = p.weight_bytes;
    req_count = p.req_count;
  }

  -- A pushed finding that its block replaces.
  unfoldable pub is_replaced : PushPage Float → PushFinding → Bool
  unfolding eqb
  is_replaced pg f =
      (eqb f.type (codes "perf") && is_some pg.perf)
      || (eqb f.type (codes "layout") && is_some pg.layout)

  -- The closure that appends to both.
  unfoldable pub add : Finding Float → Lists Float → Lists Float
  add f (rows, entries) = (rows ++ f ∷ [], entries ++ f ∷ [])

  unfoldable pub add_all : List (Finding Float) → Lists Float → Lists Float
  unfolding add
  add_all [] ls = ls
  add_all (f ∷ fs) ls = add_all fs (add f ls)

  unfoldable pub add_layout : Str → Option PushLayout → Lists Float → Lists Float
  unfolding add_all layout_findings eqb
  add_layout viewport none ls = ls
  add_layout viewport (some l) ls =
      add_all (layout_findings (layout_of l) (eqb viewport (codes "mobile"))) ls

module _ {Float : Type 0} (json_id : Str → Str) where
  unfoldable pub a11y_detail : Str → Detail Float
  unfolding rule_id_of
  a11y_detail pushed =
      if not (is_empty (json_id pushed)) then raw pushed else rule (rule_id_of pushed) pushed

  unfoldable pub pushed_finding : PushFinding → Finding Float
  unfolding eqb a11y_detail
  pushed_finding f = record {
    type = f.type;
    severity = if is_empty f.severity then codes "info" else f.severity;
    detail = if eqb f.type (codes "a11y") then a11y_detail f.detail else text f.detail;
  }

  unfoldable pub add_pushed : PushPage Float → List PushFinding → Lists Float → Lists Float
  unfolding add is_replaced pushed_finding
  add_pushed pg [] ls = ls
  add_pushed pg (f ∷ fs) ls =
      let skip = add_pushed pg fs ls in
      let more = add_pushed pg fs (add (pushed_finding f) ls) in
      if is_replaced pg f then skip else more

module _ {Float : Type 0} (above_cls_good above_cls_poor : Float → Bool) where
  unfoldable pub add_perf : Str → Option (PushPerf Float) → Lists Float → Lists Float
  unfolding add_all perf_findings eqb
  add_perf env none ls = ls
  add_perf env (some p) ls =
      if not (eqb env (codes "lab"))
      then add_all (perf_findings above_cls_good above_cls_poor (perf_of p)) ls
      else ls

module _ {Float : Type 0} (json_id : Str → Str) (above_cls_good above_cls_poor : Float → Bool) where
  unfoldable pub map_page : Str → PushPage Float → PageKeys → Str → MappedPage Float
  unfolding width_for add_pushed add_perf add_layout
  map_page run_id pg keys env =
      let (rows, entries) = add_layout pg.viewport pg.layout (
        add_perf above_cls_good above_cls_poor env pg.perf
          (add_pushed json_id pg pg.findings ([], []))) in
      record {
        page = record {
          run_id = run_id;
          url = pg.url;
          viewport = pg.viewport;
          screenshot_key = keys.screenshot;
          axe_key = keys.axe;
          a11y_digest_key = keys.a11y_digest;
          axe_violation_count = pg.axe_violations;
          console_first_party_count = pg.console_first_party;
          console_third_party_count = pg.console_third_party;
          network_first_party_count = pg.network_first_party;
          network_third_party_count = pg.network_third_party;
          perf = Option.map perf_of pg.perf;
        };
        findings = rows;
        report = record {
          url = pg.url;
          viewport = pg.viewport;
          width = width_for pg.viewport;
          screenshot_key = keys.screenshot;
          axe_key = keys.axe;
          network_key = keys.network;
          a11y_digest_key = keys.a11y_digest;
          console = (pg.console_first_party, pg.console_third_party);
          network = (pg.network_first_party, pg.network_third_party);
          a11y_violations = pg.axe_violations;
          perf = Option.map perf_of pg.perf;
          layout = Option.map layout_of pg.layout;
          findings = entries;
        };
      }
