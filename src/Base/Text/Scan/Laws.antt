-- ===== src/Base/Text/Scan/Laws.antt =====
-- What removing the repeats of a list of texts leaves.
use mathlib.Core.Path.{◌≡◌, refl, ap, ◌∙◌}
use mathlib.Core.Logic.{inl, inr}
use mathlib.Core.Bool.{not, ◌&&◌, ◌||◌}
use mathlib.Core.List.{List, [], ◌∷◌}
use native.Mathlib.Omega.{arith}
use auditloop.Base.Tests.{Bool-cases}
use auditloop.Base.Text.{Str, eqb_iff, eqb_refl, one_of, is_empty}
use auditloop.Base.Text.Order.{HasNoRepeats}
use auditloop.Base.Text.Scan.{dedupe, dedupe_beyond}

one_of-dedupe_beyond :
    (z : Str) (seen ss : List Str)
    → one_of z (dedupe_beyond seen ss) ≡ (one_of z ss && not (is_empty z) && not (one_of z seen))
unfolding one_of
one_of-dedupe_beyond z seen [] = refl
one_of-dedupe_beyond z seen (s ∷ ss) = ground (
  arith,
  one_of-dedupe_beyond z seen ss,
  one_of-dedupe_beyond z (s ∷ seen) ss,
  eqb_iff z s,
  ap is_empty {x = z} {y = s},
  ap (λ t. one_of t seen) {x = z} {y = s},
)

dedupe_beyond-HasNoRepeats : (seen ss : List Str) → HasNoRepeats (dedupe_beyond seen ss)
dedupe_beyond-HasNoRepeats seen [] = tt
dedupe_beyond-HasNoRepeats seen (s ∷ ss) = elim (Bool-cases (is_empty s || one_of s seen)) [
  | inl e ↦ rw e (dedupe_beyond-HasNoRepeats seen ss)
  | inr e ↦ rw e (
    one_of-dedupe_beyond s (s ∷ seen) ss ∙ (unfold one_of in ground (arith, eqb_refl s)),
    dedupe_beyond-HasNoRepeats (s ∷ seen) ss,
  )
]

pub one_of-dedupe :
    (z : Str) (ss : List Str) → one_of z (dedupe ss) ≡ (one_of z ss && not (is_empty z))
unfolding dedupe one_of
one_of-dedupe z ss = one_of-dedupe_beyond z [] ss ∙ (ground arith)

pub dedupe-HasNoRepeats : (ss : List Str) → HasNoRepeats (dedupe ss)
unfolding dedupe
dedupe-HasNoRepeats ss = dedupe_beyond-HasNoRepeats [] ss
