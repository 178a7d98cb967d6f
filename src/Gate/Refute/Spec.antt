-- ===== src/Gate/Refute/Spec.antt =====
-- What it takes that a digest refutes a finding, apart from how internal/eval/verify.go finds out.
use auditloop.Base.{
  ◌≡◌, ◌⊎◌, true, false, Option, none, some, List, Str, trim_space, to_lower, one_of, All,
}
use mathlib.Core.List.{Memᴰ}
use auditloop.Report.{EvalFinding, EvalTopFix}
use auditloop.Digest.{A11yDigest, Interactive, FormControl, concrete_keys, is_programmatic}
use auditloop.Gate.Claims.{claims_missing_label, claims_not_operable, top_fix_as_finding}
use auditloop.Gate.Refute.{is_native}

abbrev pub IsAnchorOf : Str → Str → Type 0
IsAnchorOf k selector = one_of k (concrete_keys selector) ≡ true

-- Some element with the anchor has a programmatic label.
abbrev pub HasLabel : A11yDigest → Str → Type 0
HasLabel d k =
    ((e : Interactive) × Memᴰ e d.interactive
      × IsAnchorOf k e.selector
      × (is_programmatic e.label_source ≡ true))
    ⊎ ((c : FormControl) × Memᴰ c d.form_controls × IsAnchorOf k c.selector × (c.has_label ≡ true))

-- Some element with the anchor is a link or a button, and every interactive one is focusable and
-- not disabled.
abbrev pub IsOperable : A11yDigest → Str → Type 0
IsOperable d k =
    ((e : Interactive) × Memᴰ e d.interactive
      × IsAnchorOf k e.selector
      × (is_native (to_lower (trim_space e.tag)) ≡ true))
    × All
        (λ (e : Interactive). IsAnchorOf k e.selector → (e.focusable ≡ true) × (e.disabled ≡ false))
        d.interactive

-- The digest holds the very property that the finding, at one of its anchors, says is missing.
abbrev pub IsRefuted : Option A11yDigest → EvalFinding → Type 0
IsRefuted none f = ⊥
IsRefuted (some d) f =
    (k : Str) × IsAnchorOf k f.selector
    × (((claims_missing_label f ≡ true) × HasLabel d k)
        ⊎ ((claims_not_operable f ≡ true) × IsOperable d k))

-- Of the findings before, each is still there or refuted.
abbrev pub OnlyRefuted : Option A11yDigest → List EvalFinding → List EvalFinding → Type 0
OnlyRefuted d before after = All (λ f. Memᴰ f after ⊎ IsRefuted d f) before

-- The top fix is as before, or was refuted and is gone.
abbrev pub OnlyRefutedFix : Option A11yDigest → Option EvalTopFix → Option EvalTopFix → Type 0
OnlyRefutedFix d before after =
    (after ≡ before)
    ⊎ ((tf : EvalTopFix) × (before ≡ some tf)
        × (after ≡ none)
        × IsRefuted d (top_fix_as_finding tf))
