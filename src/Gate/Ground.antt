-- ===== src/Gate/Ground.antt =====
-- internal/eval/ground.go: anchoring the findings to selectors that the digest lists.
pub mod Vocabulary
pub mod Names
pub mod Dropped
pub mod Nowhere
pub mod Prefix
pub mod Laws
use auditloop.Base.{
  ℕ, zero, suc, ◌+◌, Bool, true, false, ◌&&◌, ◌||◌, not, Option, none, some, List, [], ◌∷◌, ◌++◌,
  map, ltb, leb, ◌==◌, if◌then◌else◌, Str, codes, eqb, is_empty, one_of, trim_space, trim_right,
  to_lower, has_prefix, length, any,
}
use auditloop.Base.Text.Pieces.{drop}
use auditloop.Base.Text.Fields.{fields, join}
use auditloop.Base.Text.Scan.{split_at, trim, is_quote, is_any, dedupe}
use auditloop.Report.{EvalFinding, EvalTopFix, PageEvaluation}
use auditloop.Digest.{
  A11yDigest, Interactive, FormControl, concrete_keys, is_empty_digest, max_interactive,
  max_form_controls, max_landmarks,
}
use auditloop.Gate.Claims.{is_mechanical, top_fix_as_finding}

abbrev pub min_name_match : ℕ
min_name_match = 4

abbrev pub min_prefix_match : ℕ
min_prefix_match = 12

abbrev double_quoted : ℕ → ℕ
double_quoted c = if c == 39 then 34 else c

unfoldable pub normalize_sel : Str → Str
normalize_sel s = join (fields (map double_quoted (to_lower (trim_space s))))

-- The length is that in runes, the elements of a Str here.
unfoldable pub normalize_name : Str → Str
normalize_name s =
    let t = trim_right (is_any (codes " .,…")) (join (fields (to_lower (trim_space s)))) in
    if ltb (length t) min_name_match then [] else t

abbrev name_bearing_attrs : List Str
name_bearing_attrs =
    codes "placeholder"
    ∷ codes "aria-label"
    ∷ codes "title"
    ∷ codes "alt"
    ∷ codes "value"
    ∷ codes "label"
    ∷ codes "aria-placeholder"
    ∷ []

-- The texts between `[` and the next `]`; `inside` is what has been read since a `[`.
abbrev bracketed : Option Str → Str → List Str
bracketed inside [] = []
bracketed none (c ∷ s) = bracketed (if c == b'[' then some [] else none) s
bracketed (some read) (c ∷ s) =
    let done = read ∷ bracketed none s in
    let more = bracketed (some (read ++ c ∷ [])) s in if c == b']' then done else more

abbrev attr_value : Option (Str × Str) → List Str
attr_value none = []
attr_value (some (name, value)) =
    if not
      (one_of (to_lower (trim_space (trim_right (is_any (codes "*^$~|")) name))) name_bearing_attrs)
    then []
    else if is_empty (trim_space value)
    then []
    else trim is_quote (trim_space value) ∷ []

abbrev concat_map : (Str → List Str) → List Str → List Str
concat_map f [] = []
concat_map f (s ∷ ss) = f s ++ concat_map f ss

-- The texts between each `fn` and the next `)`; `skip` counts what a find has already taken.
abbrev arguments : Str → ℕ → Str → List Str
arguments fn skip [] = []
arguments fn (suc skip) (c ∷ s) = arguments fn skip s
arguments fn zero (c ∷ s) =
    let next = arguments fn 0 s in
    let found = λ (parts : Str × Str).
      trim is_quote (trim_space parts.0) ∷ arguments fn (length fn + length parts.0) s in
    if has_prefix (c ∷ s) fn
    then elim (split_at b')' (drop (length fn) (c ∷ s))) [ none ↦ [] | some parts ↦ found parts ]
    else next

unfoldable pub quoted_literals : Str → List Str
quoted_literals selector = dedupe (
    concat_map (λ attr. attr_value (split_at b'=' attr)) (bracketed none selector)
    ++ concat_map (λ fn. arguments fn 0 selector)
        (codes ":contains(" ∷ codes ":has-text(" ∷ codes ":text(" ∷ []))

-- The map from names to selectors, as its entries; an empty selector marks an ambiguous name.
abbrev pub Names : Type 0
Names = List (Str × Str)

unfoldable pub claim : Str → Str → Names → Names
claim n selector [] = (n, selector) ∷ []
claim n selector ((m, s) ∷ es) =
    if eqb m n then (m, if eqb s selector then s else []) ∷ es else (m, s) ∷ claim n selector es

abbrev pub look_up : Str → Names → Str
look_up n [] = []
look_up n ((m, s) ∷ es) = if eqb m n then s else look_up n es

pub record GroundIndex : Type 0 where
  pub listed : List Str
  pub keys : List Str
  pub by_name : Names
  pub complete : Bool

-- An element's selector and accessible name.
abbrev pub Named : Type 0
Named = Str × Str

abbrev pub named_of : A11yDigest → List Named
named_of d =
    map (λ (e : Interactive). (e.selector, e.accessible_name)) d.interactive
    ++ map (λ (c : FormControl). (c.selector, c.accessible_name)) d.form_controls

abbrev pub claimed : Named → Names → Names
claimed (selector, name) names =
    let n = normalize_name name in
    if is_empty n || is_empty (trim_space selector)
    then names
    else claim n (trim_space selector) names

-- `add` for an element: one with a blank selector adds nothing.
abbrev pub add : Named → GroundIndex → GroundIndex
add (selector, name) idx = if is_empty (normalize_sel selector) then idx else record idx {
  listed = normalize_sel selector ∷ idx.listed;
  keys = concrete_keys selector ++ idx.keys;
  by_name = claimed (selector, name) idx.by_name;
}

unfoldable pub add_all : List Named → GroundIndex → GroundIndex
add_all [] idx = idx
add_all (e ∷ es) idx = add_all es (add e idx)

unfoldable pub digest_vocabulary_complete : Option A11yDigest → Bool
digest_vocabulary_complete none = false
digest_vocabulary_complete (some d) =
    if leb max_interactive (length d.interactive)
      || leb max_form_controls (length d.form_controls)
      || leb max_landmarks (length d.landmarks)
    then false
    else any (λ (e : Named). not (is_empty (normalize_sel e.0))) (named_of d)

unfoldable pub build_ground_index : A11yDigest → GroundIndex
build_ground_index d =
    record (add_all (named_of d)
      (record { listed = []; keys = []; by_name = []; complete = false })) {
        complete = digest_vocabulary_complete (some d);
      }

unfoldable pub is_listed : GroundIndex → Str → Bool
is_listed idx selector =
    let s = normalize_sel selector in
    if is_empty s
    then false
    else one_of s idx.listed || any (λ k. one_of k idx.keys) (concrete_keys selector)

-- The name could be a truncation of n, or the other way round.
abbrev pub is_candidate : Str → Str → Bool
is_candidate n name =
    not (ltb (length name) min_prefix_match) && (has_prefix name n || has_prefix n name)

-- The loop over the map, in some order; `hit` is what was found so far.
unfoldable pub prefix_hit : Str → Names → Str → Str
prefix_hit n [] hit = hit
prefix_hit n ((name, sel) ∷ es) hit =
    let skipped = prefix_hit n es hit in
    let taken = prefix_hit n es sel in
    if not (is_candidate n name)
    then skipped
    else if is_empty sel || (not (is_empty hit) && not (eqb hit sel))
    then []
    else taken

abbrev pub prefix_or : GroundIndex → Str → Option Str → Option Str
prefix_or idx n later =
    if ltb (length n) min_prefix_match
    then later
    else let hit = prefix_hit n idx.by_name [] in if is_empty hit then later else some hit

abbrev pub reanchor_name : GroundIndex → Str → Option Str → Option Str
reanchor_name idx n later =
    if is_empty n
    then later
    else let sel = look_up n idx.by_name in
      if not (is_empty sel) then some sel else prefix_or idx n later

unfoldable pub reanchor_literals : GroundIndex → List Str → Option Str
reanchor_literals idx [] = none
reanchor_literals idx (l ∷ ls) = reanchor_name idx (normalize_name l) (reanchor_literals idx ls)

unfoldable pub reanchor : GroundIndex → Str → Option Str
reanchor idx selector = reanchor_literals idx (quoted_literals selector)

abbrev pub or_keep : Bool → Str → Option Str → Option Str
or_keep complete selector (some sel) = some sel
or_keep complete selector none = if not complete then some selector else none

-- The selector to keep; none when the finding is to be dropped.
unfoldable pub ground_finding : GroundIndex → EvalFinding → Option Str
ground_finding idx f =
    if not (is_mechanical f)
    then some f.selector
    else if is_listed idx f.selector
    then some f.selector
    else or_keep idx.complete f.selector (reanchor idx f.selector)

abbrev pub kept : EvalFinding → Option Str → List EvalFinding → List EvalFinding
kept f none rest = rest
kept f (some sel) rest = record f { selector = sel } ∷ rest

unfoldable pub ground_findings : GroundIndex → List EvalFinding → List EvalFinding
ground_findings idx [] = []
ground_findings idx (f ∷ fs) = kept f (ground_finding idx f) (ground_findings idx fs)

abbrev pub fixed : EvalTopFix → Option Str → Option EvalTopFix
fixed tf none = none
fixed tf (some sel) = some (record tf { selector = sel })

unfoldable pub ground_top_fix : GroundIndex → Option EvalTopFix → Option EvalTopFix
ground_top_fix idx none = none
ground_top_fix idx (some tf) = fixed tf (ground_finding idx (top_fix_as_finding tf))

abbrev pub grounded : GroundIndex → PageEvaluation → PageEvaluation
grounded idx pe = record pe {
  blockers = ground_findings idx pe.blockers;
  frictions = ground_findings idx pe.frictions;
  top_fix = ground_top_fix idx pe.top_fix;
}

unfoldable pub ground_selectors : PageEvaluation → Option A11yDigest → PageEvaluation
ground_selectors pe none = pe
ground_selectors pe (some d) =
    if is_empty_digest (some d) then pe else grounded (build_ground_index d) pe
