-- ===== src/Gate/Refute.antt =====
-- internal/eval/verify.go: dropping the findings that the digest refutes. The index is the map from
-- anchors to merged elements, as a function.
pub mod Index
pub mod Spec
pub mod Laws
use auditloop.Base.{
  Bool, true, false, ◌&&◌, ◌||◌, not, or_else, Option, none, some, List, [], ◌∷◌, ◌++◌, map,
  if◌then◌else◌, Str, codes, eqb, is_empty, trim_space, to_lower,
}
use auditloop.Report.{EvalFinding, EvalTopFix, PageEvaluation}
use auditloop.Digest.{
  A11yDigest, Interactive, FormControl, concrete_keys, is_programmatic, is_empty_digest,
}
use auditloop.Gate.Claims.{claims_missing_label, claims_not_operable, top_fix_as_finding}

pub record DigestElem : Type 0 where
  pub tag : Str
  pub has_prog_label : Bool
  pub is_form_control : Bool
  pub interactive : Bool
  pub focusable : Bool
  pub disabled : Bool

abbrev pub operable : DigestElem → Bool
operable e = e.interactive && e.focusable && not e.disabled

abbrev pub Index : Type 0
Index = Str → Option DigestElem

abbrev merged_operability : DigestElem → DigestElem → DigestElem
merged_operability e old =
    if e.interactive && old.interactive
    then record e {
      focusable = e.focusable && old.focusable;
      disabled = e.disabled || old.disabled;
    }
    else if old.interactive
    then record e { interactive = true; focusable = old.focusable; disabled = old.disabled }
    else e

-- What an anchor holds after one more row.
abbrev pub merged : DigestElem → Option DigestElem → DigestElem
merged e none = e
merged e (some old) =
    merged_operability
      (record e {
        tag = if is_empty e.tag then old.tag else e.tag;
        has_prog_label = e.has_prog_label || old.has_prog_label;
        is_form_control = e.is_form_control || old.is_form_control;
      })
      old

abbrev pub put_keys : DigestElem → List Str → Index → Index
put_keys base [] idx = idx
put_keys base (k ∷ ks) idx =
    put_keys base ks (λ j. if eqb j k then some (merged base (idx k)) else idx j)

abbrev pub Row : Type 0
Row = Str × DigestElem

unfoldable pub put_rows : List Row → Index → Index
put_rows [] idx = idx
put_rows ((selector, e) ∷ rows) idx = put_rows rows (put_keys e (concrete_keys selector) idx)

abbrev pub interactive_row : Interactive → Row
interactive_row e = (
  e.selector,
  record {
    tag = to_lower (trim_space e.tag);
    has_prog_label = is_programmatic e.label_source;
    is_form_control = false;
    interactive = true;
    focusable = e.focusable;
    disabled = e.disabled;
  },
)

abbrev pub control_row : FormControl → Row
control_row c = (
  c.selector,
  record {
    tag = [];
    has_prog_label = c.has_label;
    is_form_control = true;
    interactive = false;
    focusable = false;
    disabled = false;
  },
)

abbrev pub rows_of : A11yDigest → List Row
rows_of d = map interactive_row d.interactive ++ map control_row d.form_controls

unfoldable pub build_digest_index : A11yDigest → Index
build_digest_index d = put_rows (rows_of d) (λ k. none)

abbrev pub lookup_keys : Index → List Str → Option DigestElem
lookup_keys idx [] = none
lookup_keys idx (k ∷ ks) = or_else (idx k) (lookup_keys idx ks)

abbrev pub is_native : Str → Bool
is_native tag = eqb tag (codes "a") || eqb tag (codes "button")

abbrev pub refuted_by : EvalFinding → Option DigestElem → Bool
refuted_by f none = false
refuted_by f (some e) =
    (claims_missing_label f && e.has_prog_label)
    || (claims_not_operable f && is_native e.tag && operable e)

-- contradicts, for an index that is not empty.
unfoldable pub contradicts : Index → EvalFinding → Bool
contradicts idx f =
    if not (claims_missing_label f) && not (claims_not_operable f)
    then false
    else refuted_by f (lookup_keys idx (concrete_keys f.selector))

unfoldable pub filter_contradicted : Index → List EvalFinding → List EvalFinding
filter_contradicted idx [] = []
filter_contradicted idx (f ∷ fs) =
    let rest = filter_contradicted idx fs in if contradicts idx f then rest else f ∷ rest

unfoldable pub checked_top_fix : Index → Option EvalTopFix → Option EvalTopFix
checked_top_fix idx none = none
checked_top_fix idx (some tf) = if contradicts idx (top_fix_as_finding tf) then none else some tf

abbrev pub checked : Index → PageEvaluation → PageEvaluation
checked idx pe = record pe {
  blockers = filter_contradicted idx pe.blockers;
  frictions = filter_contradicted idx pe.frictions;
  top_fix = checked_top_fix idx pe.top_fix;
}

abbrev pub unless_empty :
    (A11yDigest → PageEvaluation → PageEvaluation)
    → PageEvaluation
    → Option A11yDigest
    → PageEvaluation
unless_empty f pe none = pe
unless_empty f pe (some d) = if is_empty_digest (some d) then pe else f d pe

unfoldable pub drop_contradicted : PageEvaluation → Option A11yDigest → PageEvaluation
drop_contradicted pe d = unless_empty (λ d. checked (build_digest_index d)) pe d
