-- ===== src/Gate/Ground/Laws.antt =====
-- internal/eval/ground.go: what becomes of the findings when their selectors are grounded.
use auditloop.Base.{
  ◌≡◌, refl, ◌⊎◌, inl, inr, true, false, Option, none, some, List, [], ◌∷◌, Bool-cases, Str, All,
}
use auditloop.Report.{EvalFinding, EvalTopFix, PageEvaluation}
use auditloop.Digest.{A11yDigest, is_empty_digest}
use auditloop.Gate.Claims.{is_mechanical, top_fix_as_finding}
use auditloop.Gate.Ground.{
  named_of, normalize_name, quoted_literals, build_ground_index, is_listed, reanchor,
  ground_finding, ground_findings, ground_top_fix, ground_selectors, kept, fixed, or_keep,
  digest_vocabulary_complete,
}
use auditloop.Gate.Ground.Dropped.{LeadsNowhere}
use auditloop.Gate.Ground.Nowhere.{IsUnlisted, IsComplete, unlisted_lem, nowhere_lem, complete_iff}
use auditloop.Gate.Ground.Vocabulary.{
  IsListedBy, IsAnchor, FindsAnchor, is_listed_sound, reanchor_sound,
}

-- What a kept selector stands on: it is the finding's own, which is exempt, in the digest, or beyond
-- what the digest can tell; or it is the selector of an element of the digest.
abbrev pub IsGrounded : A11yDigest → EvalFinding → Str → Type 0
IsGrounded d f s =
    ((s ≡ f.selector) × ((is_mechanical f ≡ false) ⊎ IsListedBy (named_of d) s ⊎ (¬ IsComplete d)))
    ⊎ IsAnchor (named_of d) s

-- What a dropped finding had against it.
abbrev pub IsUngrounded : A11yDigest → EvalFinding → Type 0
IsUngrounded d f =
    (is_mechanical f ≡ true)
    × IsUnlisted d f.selector
    × All (λ l. LeadsNowhere (named_of d) (normalize_name l)) (quoted_literals f.selector)
    × IsComplete d

abbrev pub Decides : A11yDigest → EvalFinding → Option Str → Type 0
Decides d f none = IsUngrounded d f
Decides d f (some s) = IsGrounded d f s

or_keep_lem :
    (d : A11yDigest) (f : EvalFinding) (found : Option Str)
    → is_mechanical f ≡ true
    → is_listed (build_ground_index d) f.selector ≡ false
    → reanchor (build_ground_index d) f.selector ≡ found
    → FindsAnchor (named_of d) found
    → Decides d f (or_keep (digest_vocabulary_complete (some d)) f.selector found)
or_keep_lem d f (some s) m l r a = inr a
or_keep_lem d f none m l r a = elim (Bool-cases (digest_vocabulary_complete (some d))) [
  | inl e ↦ rw e (m, unlisted_lem d f.selector l, nowhere_lem d f.selector r, (complete_iff d).0 e)
  | inr e ↦ rw e (inl (refl, inr (inr (λ c. cc (e, (complete_iff d).1 c)))))
]

ground_finding-Decides :
    (d : A11yDigest) (f : EvalFinding) → Decides d f (ground_finding (build_ground_index d) f)
unfolding ground_finding build_ground_index
ground_finding-Decides d f = elim (Bool-cases (is_mechanical f)) [
  | inr e ↦ rw e (inl (refl, inl e))
  | inl m ↦ elim (Bool-cases (is_listed (build_ground_index d) f.selector)) [
    | inl e ↦ rw (m, e) (inl (refl, inr (inl (is_listed_sound d f.selector e))))
    | inr e ↦ rw (m, e) (or_keep_lem d f _ m e refl (reanchor_sound d f.selector))
  ]
]

-- The findings before and after: each is kept on a selector with a reason, or dropped with one.
pub data AreGrounded (d : A11yDigest) : List EvalFinding → List EvalFinding → Type 0 where
  none_left : AreGrounded d [] []
  keeps :
      (f : EvalFinding) (s : Str) (fs gs : List EvalFinding)
      → IsGrounded d f s
      → AreGrounded d fs gs
      → AreGrounded d (f ∷ fs) (record f { selector = s } ∷ gs)
  drops :
      (f : EvalFinding) (fs gs : List EvalFinding)
      → IsUngrounded d f
      → AreGrounded d fs gs
      → AreGrounded d (f ∷ fs) gs

kept-AreGrounded :
    (d : A11yDigest) (f : EvalFinding) (o : Option Str) (fs gs : List EvalFinding)
    → Decides d f o
    → AreGrounded d fs gs
    → AreGrounded d (f ∷ fs) (kept f o gs)
kept-AreGrounded d f none fs gs h k = AreGrounded.drops f fs gs h k
kept-AreGrounded d f (some s) fs gs h k = AreGrounded.keeps f s fs gs h k

findings-AreGrounded :
    (d : A11yDigest) (fs : List EvalFinding)
    → AreGrounded d fs (ground_findings (build_ground_index d) fs)
unfolding ground_findings
findings-AreGrounded d [] = AreGrounded.none_left
findings-AreGrounded d (f ∷ fs) =
    kept-AreGrounded d f (ground_finding (build_ground_index d) f) fs _ (ground_finding-Decides d f)
      (findings-AreGrounded d fs)

-- The same of the top fix, which is a finding for this purpose.
abbrev pub IsGroundedFix : A11yDigest → Option EvalTopFix → Option EvalTopFix → Type 0
IsGroundedFix d none after = after ≡ none
IsGroundedFix d (some tf) none = IsUngrounded d (top_fix_as_finding tf)
IsGroundedFix d (some tf) (some after) =
    (after ≡ record tf { selector = after.selector })
    × IsGrounded d (top_fix_as_finding tf) after.selector

fixed-IsGroundedFix :
    (d : A11yDigest) (tf : EvalTopFix) (o : Option Str)
    → Decides d (top_fix_as_finding tf) o
    → IsGroundedFix d (some tf) (fixed tf o)
fixed-IsGroundedFix d tf none h = h
fixed-IsGroundedFix d tf (some s) h = (refl, h)

top_fix-IsGroundedFix :
    (d : A11yDigest) (tf : Option EvalTopFix)
    → IsGroundedFix d tf (ground_top_fix (build_ground_index d) tf)
unfolding ground_top_fix
top_fix-IsGroundedFix d none = refl
top_fix-IsGroundedFix d (some tf) =
    fixed-IsGroundedFix d tf _ (ground_finding-Decides d (top_fix_as_finding tf))

-- With a digest that is not empty, groundSelectors keeps a finding, or the top fix, only on a
-- selector that has a reason: its own, because the finding is not about mechanics, because an
-- element of the digest has that selector or shares an anchor with it, or because the digest is
-- capped or without selectors; or else the selector of an element of the digest that has an
-- accessible name. It drops one only if it is about mechanics, its selector is blank or no element
-- with a selector has it or shares an anchor with it, the digest is neither capped nor without
-- selectors, and no text quoted in the selector leads to an element: the elements of that name, and,
-- from 12 characters on, those of whose name it is a beginning or the other way round, are none or
-- have several selectors. The order and all other fields stay as they were.
pub ground_selectors-AreGrounded :
    (pe : PageEvaluation) (d : A11yDigest)
    → is_empty_digest (some d) ≡ false
    → let after = ground_selectors pe (some d) in
      AreGrounded d pe.blockers after.blockers
      × AreGrounded d pe.frictions after.frictions
      × IsGroundedFix d pe.top_fix after.top_fix
      × (after.comprehension ≡ pe.comprehension)
unfolding ground_selectors
ground_selectors-AreGrounded pe d h = rw h (
  findings-AreGrounded d pe.blockers,
  findings-AreGrounded d pe.frictions,
  top_fix-IsGroundedFix d pe.top_fix,
  refl,
)
