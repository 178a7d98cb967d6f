-- ===== src/Gate/Tests.antt =====
-- The gate on an evaluation of one page.
use auditloop.Base.{
  ◌≡◌, refl, ◌⊎◌, true, false, none, some, [], ◌∷◌, codes, contains, has_suffix, All,
}
use mathlib.Core.List.{Memᴰ}
use auditloop.Base.Text.Fields.{fields, join, words}
use auditloop.Report.{PageEvaluation}
use auditloop.Digest.{is_empty_digest}
use auditloop.Digest.Tests.{digest_runs, pushed, stored, pushed-stored}
use auditloop.Gate.{apply_dom_gate}
use auditloop.Gate.Claims.{
  mentions_any, finding_text, claims_missing_label, claims_not_operable, top_fix_as_finding,
}
use auditloop.Gate.Refute.{
  put_rows, build_digest_index, contradicts, filter_contradicted, checked_top_fix,
  drop_contradicted,
}
use auditloop.Gate.Refute.Spec.{OnlyRefuted, OnlyRefutedFix}
use auditloop.Gate.Refute.Laws.{drop_contradicted-OnlyRefuted}
use auditloop.Gate.Ground.{
  normalize_sel, normalize_name, quoted_literals, claim, add_all, digest_vocabulary_complete,
  build_ground_index, is_listed, prefix_hit, reanchor_literals, reanchor, ground_finding,
  ground_findings, ground_top_fix, ground_selectors, Names,
}
use auditloop.Gate.Ground.Prefix.{SameEntries, prefix_hit_order}
use auditloop.Gate.Ground.Laws.{AreGrounded, IsGroundedFix, ground_selectors-AreGrounded}
use auditloop.Gate.Pushed.{IsSafelyRefuted, pushed-SafelyRefuted}

unfoldable gate_runs : Unit {0}
unfolding digest_runs contains has_suffix fields join words mentions_any finding_text
    claims_missing_label claims_not_operable top_fix_as_finding put_rows build_digest_index
    contradicts filter_contradicted checked_top_fix drop_contradicted normalize_sel normalize_name
    quoted_literals claim add_all digest_vocabulary_complete build_ground_index is_listed prefix_hit
    reanchor_literals reanchor ground_finding ground_findings ground_top_fix ground_selectors
    apply_dom_gate
gate_runs = tt

-- The first is false, the second is about a selector that the page does not have, the third is named by
-- the text of the button, the last is no matter of the gate.
abbrev verdict : PageEvaluation
verdict = record {
  comprehension = [];
  blockers =
      record { issue = codes "No label"; selector = codes "#e"; evidence = []; verified = true }
      ∷ record {
        issue = codes "No label";
        selector = codes "#gone";
        evidence = [];
        verified = true;
      }
      ∷ [];
  frictions =
      record {
        issue = codes "missing label";
        selector = codes "a:contains('Send now')";
        evidence = [];
        verified = true;
      }
      ∷ record { issue = codes "Slow"; selector = codes "#gone"; evidence = []; verified = true }
      ∷ [];
  top_fix = some (record {
    selector = codes "input#e";
    change = codes "Add a label";
    rationale = [];
    impact = [];
  });
}

abbrev gated : PageEvaluation
gated = record {
  comprehension = [];
  blockers = [];
  frictions =
      record {
        issue = codes "missing label";
        selector = codes "button#s";
        evidence = [];
        verified = true;
      }
      ∷ record { issue = codes "Slow"; selector = codes "#gone"; evidence = []; verified = true }
      ∷ [];
  top_fix = none;
}

verdict-gated : apply_dom_gate verdict (some stored) ≡ gated
unfolding gate_runs
verdict-gated = refl

no_digest : apply_dom_gate verdict none ≡ verdict
unfolding gate_runs
no_digest = refl

drop_contradicted-OnlyRefuted_example :
    let after = drop_contradicted verdict (some stored) in
    OnlyRefuted (some stored) verdict.blockers after.blockers
    × OnlyRefuted (some stored) verdict.frictions after.frictions
    × OnlyRefutedFix (some stored) verdict.top_fix after.top_fix
drop_contradicted-OnlyRefuted_example = drop_contradicted-OnlyRefuted verdict (some stored)

stored_filled : is_empty_digest (some stored) ≡ false
unfolding is_empty_digest
stored_filled = refl

ground_selectors-AreGrounded_example :
    let after = ground_selectors verdict (some stored) in
    AreGrounded stored verdict.blockers after.blockers
    × AreGrounded stored verdict.frictions after.frictions
    × IsGroundedFix stored verdict.top_fix after.top_fix
    × (after.comprehension ≡ verdict.comprehension)
ground_selectors-AreGrounded_example = ground_selectors-AreGrounded verdict stored stored_filled

pushed-SafelyRefuted_example :
    let after = drop_contradicted verdict (some stored) in
    All (λ f. Memᴰ f after.blockers ⊎ IsSafelyRefuted stored f) verdict.blockers
    × All (λ f. Memᴰ f after.frictions ⊎ IsSafelyRefuted stored f) verdict.frictions
pushed-SafelyRefuted_example = pushed-SafelyRefuted pushed stored verdict pushed-stored

abbrev one_way : Names
one_way = (codes "send the form now", codes "#s") ∷ (codes "leave", codes "#l") ∷ []

abbrev other_way : Names
other_way = (codes "leave", codes "#l") ∷ (codes "send the form now", codes "#s") ∷ []

swapped : {A : Type 0} (x y e : A) → Memᴰ e (x ∷ y ∷ []) → Memᴰ e (y ∷ x ∷ [])
swapped x y e (Memᴰ.head p) = Memᴰ.tail (Memᴰ.head p)
swapped x y e (Memᴰ.tail (Memᴰ.head p)) = Memᴰ.head p
swapped x y e (Memᴰ.tail (Memᴰ.tail m)) = elim m [ ]

same_entries : SameEntries one_way other_way
same_entries e = (swapped _ _ e, swapped _ _ e)

prefix_hit_order_example :
    prefix_hit (codes "send the form") one_way [] ≡ prefix_hit (codes "send the form") other_way []
prefix_hit_order_example = prefix_hit_order (codes "send the form") one_way other_way same_entries
