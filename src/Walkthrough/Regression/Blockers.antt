-- ===== src/Walkthrough/Regression/Blockers.antt =====
-- internal/walkthrough/diff.go: the identity of a blocker across walkthroughs. Decoding the stored findings is a parameter.
pub mod Laws
use auditloop.Base.{
  ◌≡◌, refl, ap, ◌∙◌, inl, inr, Bool, true, false, ◌&&◌, ◌||◌, not, Option, none, some, List, [],
  ◌∷◌, ◌++◌, if◌then◌else◌, Bool-cases, Str, eqb, is_empty, one_of, trim_space, to_lower, All,
  arith,
}
use auditloop.Report.{EvalFinding}
use auditloop.Base.Text.Fields.{fields, join, collapse_idem}

pub record PageEvaluation : Type 0 where
  pub persona : Str
  pub findings_json : Str

unfoldable pub normalize_blocker : Str → Str
normalize_blocker s = to_lower (join (fields s))

abbrev pub anchor_of : EvalFinding → Str
anchor_of b =
    let anchor = normalize_blocker b.selector in
    if is_empty anchor then normalize_blocker b.issue else anchor

unfoldable pub blocker_key : Str → EvalFinding → Str
blocker_key persona b = persona ++ 0x1f ∷ anchor_of b

-- Keys are collected in order; `seen` is the list of those that were collected before.
unfoldable pub page_keys : Str → List EvalFinding → List Str → List Str
page_keys persona [] seen = []
page_keys persona (b ∷ bs) seen =
    let key = blocker_key persona b in
    let more = page_keys persona bs (key ∷ seen) in
    let rest = page_keys persona bs seen in
    if not b.verified || eqb key (persona ++ 0x1f ∷ []) || one_of key seen then rest else key ∷ more

abbrev or_none : Option (List EvalFinding) → List EvalFinding
or_none none = []
or_none (some bs) = bs

module _ (decode_blockers : Str → Option (List EvalFinding)) where
  -- The blockers of one stored cell; one that is blank or does not decode has none.
  abbrev pub cell_blockers : PageEvaluation → List EvalFinding
  cell_blockers pe =
      if is_empty (trim_space pe.findings_json)
      then []
      else or_none (decode_blockers pe.findings_json)

  unfoldable pub keys_from : List PageEvaluation → List Str → List Str
  keys_from [] seen = []
  keys_from (pe ∷ pes) seen =
      let keys = page_keys pe.persona (cell_blockers pe) seen in
      keys ++ keys_from pes (keys ++ seen)

  unfoldable pub blocker_keys_from_evaluations : List PageEvaluation → List Str
  blocker_keys_from_evaluations evals = keys_from evals []
