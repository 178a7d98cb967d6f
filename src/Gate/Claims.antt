-- ===== src/Gate/Claims.antt =====
-- internal/eval/verify.go: which findings claim a missing label or a lack of keyboard access.
use auditloop.Base.{
  Bool, false, ◌&&◌, ◌||◌, not, List, [], ◌∷◌, ◌++◌, Str, codes, contains, to_lower, if◌then◌else◌,
  any,
}
use auditloop.Report.{EvalFinding, EvalTopFix}

unfoldable pub mentions_any : Str → List Str → Bool
mentions_any haystack needles = any (λ n. contains haystack n) needles

unfoldable pub finding_text : EvalFinding → Str
finding_text f = to_lower (f.issue ++ (32 ∷ f.evidence))

-- Words of a complaint about a label that is there.
abbrev quality_words : List Str
quality_words =
    codes "descriptive"
    ∷ codes "clearer"
    ∷ codes "unclear"
    ∷ codes "clarity"
    ∷ codes "better"
    ∷ codes "confusing"
    ∷ codes "quality"
    ∷ codes "vague"
    ∷ codes "ambiguous"
    ∷ []

-- Words for a label.
abbrev label_words : List Str
label_words =
    codes "label"
    ∷ codes "aria-label"
    ∷ codes "aria label"
    ∷ codes "aria-labelledby"
    ∷ codes "accessible name"
    ∷ codes "screen reader"
    ∷ codes "screen-reader"
    ∷ []

-- Phrases that say that it is absent.
abbrev absence_phrases : List Str
absence_phrases =
    codes "no label"
    ∷ codes "no labels"
    ∷ codes "no accessible"
    ∷ codes "no aria"
    ∷ codes "no programmatic"
    ∷ codes "lacks a label"
    ∷ codes "lacks label"
    ∷ codes "lack a label"
    ∷ codes "lack labels"
    ∷ codes "has no label"
    ∷ codes "have no label"
    ∷ codes "missing label"
    ∷ codes "missing a label"
    ∷ codes "missing labels"
    ∷ codes "missing accessible"
    ∷ codes "missing aria"
    ∷ codes "without a label"
    ∷ codes "without label"
    ∷ codes "without an accessible"
    ∷ codes "unlabeled"
    ∷ codes "unlabelled"
    ∷ codes "un-labeled"
    ∷ codes "un-labelled"
    ∷ codes "not labeled"
    ∷ codes "not labelled"
    ∷ codes "needs a label"
    ∷ codes "needs an aria-label"
    ∷ codes "add a label"
    ∷ codes "add an aria-label"
    ∷ codes "add aria-label"
    ∷ codes "provide a label"
    ∷ []

unfoldable pub claims_missing_label : EvalFinding → Bool
claims_missing_label f =
    let t = finding_text f in
    if mentions_any t quality_words
    then false
    else if not (mentions_any t label_words)
    then false
    else mentions_any t absence_phrases

-- Phrases that deny keyboard access.
abbrev inoperable_phrases : List Str
inoperable_phrases =
    codes "not keyboard"
    ∷ codes "not keyboard-operable"
    ∷ codes "no keyboard"
    ∷ codes "keyboard-inaccessible"
    ∷ codes "keyboard inaccessible"
    ∷ codes "not focusable"
    ∷ codes "cannot be focused"
    ∷ codes "can't be focused"
    ∷ codes "not reachable by keyboard"
    ∷ codes "not tabbable"
    ∷ codes "no tab"
    ∷ codes "not operable"
    ∷ []

-- Phrases that ask for a real button or link.
abbrev semantic_phrases : List Str
semantic_phrases =
    codes "semantic button"
    ∷ codes "semantic element"
    ∷ codes "not a button"
    ∷ codes "not a link"
    ∷ codes "not a real button"
    ∷ codes "not a real link"
    ∷ codes "use a button"
    ∷ codes "use an anchor"
    ∷ codes "should be a button"
    ∷ codes "should be an anchor"
    ∷ []

-- Words for what such a phrase is about.
abbrev control_words : List Str
control_words =
    codes "button"
    ∷ codes "link"
    ∷ codes "anchor"
    ∷ codes "focus"
    ∷ codes "keyboard"
    ∷ codes "operable"
    ∷ []

unfoldable pub claims_not_operable : EvalFinding → Bool
claims_not_operable f =
    let t = finding_text f in
    mentions_any t inoperable_phrases
    || (mentions_any t semantic_phrases && mentions_any t control_words)

-- A claim of one of the two kinds.
abbrev pub is_mechanical : EvalFinding → Bool
is_mechanical f = claims_missing_label f || claims_not_operable f

unfoldable pub top_fix_as_finding : EvalTopFix → EvalFinding
top_fix_as_finding tf = record {
  issue = tf.change;
  selector = tf.selector;
  evidence = tf.rationale;
  verified = false;
}
