-- ===== src/Gate/Refute/Laws.antt =====
-- What a finding that is dropped runs into.
use auditloop.Base.{
  ◌≡◌, refl, and-eq-true, eqb_refl, sym, ◌∙◌, ◌⊎◌, inl, inr, Bool, true, false, ◌&&◌, ◌||◌, not,
  Option, none, some, List, [], ◌∷◌, map, arith, Bool-cases, Option-cases, Str, eqb, one_of,
  is_empty, any, all, All, All-weaken, any_sound, all_sound, any-append, all-append, any-map,
  all-map,
}
use mathlib.Core.List.{Memᴰ}
use mathlib.Core.Logic.{⊎_elim}
use auditloop.Base.Text.Order.{HasNoRepeats}
use auditloop.Base.Text.Scan.Laws.{dedupe-HasNoRepeats}
use auditloop.Report.{EvalFinding, EvalTopFix, PageEvaluation}
use auditloop.Digest.{
  normalize_selector, A11yDigest, Interactive, FormControl, concrete_keys, is_empty_digest,
}
use auditloop.Gate.Claims.{claims_missing_label, claims_not_operable, top_fix_as_finding}
use auditloop.Gate.Refute.Spec.{
  IsAnchorOf, HasLabel, IsOperable, IsRefuted, OnlyRefuted, OnlyRefutedFix,
}
use auditloop.Gate.Refute.{
  DigestElem, Index, Row, interactive_row, control_row, rows_of, build_digest_index, lookup_keys,
  is_native, refuted_by, contradicts, filter_contradicted, checked_top_fix, drop_contradicted,
}
use auditloop.Gate.Refute.Index.{
  on, merged_on, put_rows_lem, labelled, at_ease, eases, native, merged_on-labelled,
  merged_on-eases, merged_on-native,
}

keys-HasNoRepeats : (s : Str) → HasNoRepeats (concrete_keys s)
unfolding concrete_keys
keys-HasNoRepeats s = elim (Bool-cases (is_empty (normalize_selector s))) [
  | inl e ↦ rw e tt
  | inr e ↦ rw e (dedupe-HasNoRepeats _)
]

index_at : (d : A11yDigest) (k : Str) → build_digest_index d k ≡ merged_on k (rows_of d) none
unfolding build_digest_index
index_at d k = put_rows_lem keys-HasNoRepeats (rows_of d) (λ k. none) k

module _ (p : Row → Bool) (d : A11yDigest) where
  some_row :
      any p (rows_of d) ≡ true
      → ((e : Interactive) × Memᴰ e d.interactive × (p (interactive_row e) ≡ true))
        ⊎ ((c : FormControl) × Memᴰ c d.form_controls × (p (control_row c) ≡ true))
  some_row h =
      let rows =
        any-append p (map interactive_row d.interactive) (map control_row d.form_controls) in
      let a = any-map p interactive_row d.interactive in
      let b = any-map p control_row d.form_controls in
      elim (Bool-cases (any (λ e. p (interactive_row e)) d.interactive)) [
        | inl e ↦ inl (any_sound (λ e. p (interactive_row e)) d.interactive e)
        | inr e ↦
            inr (any_sound (λ c. p (control_row c)) d.form_controls (ground (arith, rows, a, b)))
      ]

  every_interactive :
      all p (rows_of d) ≡ true → All (λ e. p (interactive_row e) ≡ true) d.interactive
  every_interactive h =
      let rows =
        all-append p (map interactive_row d.interactive) (map control_row d.form_controls) in
      let a = all-map p interactive_row d.interactive in
      all_sound (λ e. p (interactive_row e)) d.interactive (ground (arith, rows, a))

refuted_parts :
    (f : EvalFinding) (o : Option DigestElem)
    → refuted_by f o ≡ true
    → ((claims_missing_label f ≡ true) × (labelled o ≡ true))
      ⊎ ((claims_not_operable f ≡ true) × (native o ≡ true) × (eases o ≡ true))
refuted_parts f none h = cc
refuted_parts f (some e) h = ground arith

module _ (d : A11yDigest) (k : Str) where
  HasLabel-of : any (λ r. on k r && r.1.has_prog_label) (rows_of d) ≡ true → HasLabel d k
  HasLabel-of h = elim (some_row (λ r. on k r && r.1.has_prog_label) d h) [
    | inl (e, m, q) ↦ inl (e, m, ground arith, ground arith)
    | inr (c, m, q) ↦ inr (c, m, ground arith, ground arith)
  ]

  IsOperable-of :
      any (λ r. on k r && is_native r.1.tag) (rows_of d) ≡ true
      → all (λ r. not (on k r) || at_ease r.1) (rows_of d) ≡ true
      → IsOperable d k
  IsOperable-of h g = elim (some_row (λ r. on k r && is_native r.1.tag) d h) [
    | inl (e, m, q) ↦ (
      (e, m, ground arith, ground arith),
      All-weaken _ _ d.interactive (λ e f a. ground arith)
          (every_interactive (λ r. not (on k r) || at_ease r.1) d g),
    )
    | inr (c, m, q) ↦
        unfold eqb in cc ((and-eq-true (on k (control_row c)) false (unfold eqb in q)).1)
  ]

  at_anchor :
      (f : EvalFinding)
      → IsAnchorOf k f.selector
      → refuted_by f (build_digest_index d k) ≡ true
      → IsRefuted (some d) f
  at_anchor f a h =
      let rows = rows_of d in
      let at = index_at d k in
      elim (refuted_parts f (merged_on k rows none) (rw at at h)) [
        | inl (c, l) ↦ (k, a, inl (c, HasLabel-of (sym (merged_on-labelled k rows none) ∙ l)))
        | inr (c, n, s) ↦ (
          k,
          a,
          inr (
            c,
            IsOperable-of (merged_on-native k rows none n) (sym (merged_on-eases k rows none) ∙ s),
          ),
        )
      ]

lookup_sound :
    (idx : Index) (f : EvalFinding) (ks : List Str)
    → refuted_by f (lookup_keys idx ks) ≡ true
    → (k : Str) × (one_of k ks ≡ true) × (refuted_by f (idx k) ≡ true)
unfolding one_of
lookup_sound idx f [] h = cc
lookup_sound idx f (k ∷ ks) h = elim (Option-cases (idx k)) [
  | inl n ↦ let (j, m, q) = lookup_sound idx f ks (rw n at h) in (j, rw m (ground arith), q)
  | inr (e, q) ↦ (k, rw (eqb_refl k) refl, rw q (rw q at h))
]

contradicts-IsRefuted :
    (d : A11yDigest) (f : EvalFinding)
    → contradicts (build_digest_index d) f ≡ true
    → IsRefuted (some d) f
unfolding contradicts
contradicts-IsRefuted d f h =
    let (k, m, q) =
      lookup_sound (build_digest_index d) f (concrete_keys f.selector) (ground arith) in
    at_anchor d k f m q

-- What OnlyRefuted says of a longer list after, and of an equal one.
OnlyRefuted-cons :
    (d : Option A11yDigest) (g : EvalFinding) (fs gs : List EvalFinding)
    → OnlyRefuted d fs gs
    → OnlyRefuted d fs (g ∷ gs)
OnlyRefuted-cons d g fs gs h = All-weaken _ _ fs (λ f. ⊎_elim (λ m. inl (Memᴰ.tail m)) inr) h

OnlyRefuted-eq :
    (d : Option A11yDigest) (fs gs hs : List EvalFinding)
    → gs ≡ hs
    → OnlyRefuted d fs hs
    → OnlyRefuted d fs gs
OnlyRefuted-eq d fs gs hs e h = rw (sym e) at h

OnlyRefuted-self : (d : Option A11yDigest) (fs : List EvalFinding) → OnlyRefuted d fs fs
OnlyRefuted-self d [] = tt
OnlyRefuted-self d (f ∷ fs) =
    (inl (Memᴰ.head refl), OnlyRefuted-cons d f fs fs (OnlyRefuted-self d fs))

filter-OnlyRefuted :
    (d : A11yDigest) (fs : List EvalFinding)
    → OnlyRefuted (some d) fs (filter_contradicted (build_digest_index d) fs)
unfolding filter_contradicted
filter-OnlyRefuted d [] = tt
filter-OnlyRefuted d (f ∷ fs) =
    let idx = build_digest_index d in
    let rest = filter_contradicted idx fs in
    elim (Bool-cases (contradicts idx f)) [
      | inl e ↦
          OnlyRefuted-eq (some d) (f ∷ fs) (filter_contradicted idx (f ∷ fs)) rest (rw e)
            (inr (contradicts-IsRefuted d f e), filter-OnlyRefuted d fs)
      | inr e ↦
          OnlyRefuted-eq (some d) (f ∷ fs) (filter_contradicted idx (f ∷ fs)) (f ∷ rest) (rw e)
            (inl (Memᴰ.head refl), OnlyRefuted-cons (some d) f fs rest (filter-OnlyRefuted d fs))
    ]

top_fix-OnlyRefuted :
    (d : A11yDigest) (tf : Option EvalTopFix)
    → OnlyRefutedFix (some d) tf (checked_top_fix (build_digest_index d) tf)
unfolding checked_top_fix
top_fix-OnlyRefuted d none = inl refl
top_fix-OnlyRefuted d (some tf) =
    elim (Bool-cases (contradicts (build_digest_index d) (top_fix_as_finding tf))) [
      | inl e ↦ rw e (inr (tf, refl, refl, contradicts-IsRefuted d (top_fix_as_finding tf) e))
      | inr e ↦ rw e (inl refl)
    ]

-- dropContradicted drops a blocker, a friction or the top fix only if the digest refutes it: at an
-- anchor of the finding's selector, some element has a programmatic label, and the finding claims
-- that a label is missing; or some element is a link or button, all interactive elements are
-- focusable and enabled, and the finding claims a lack of keyboard access. Without a digest, and
-- thus on older pages, nothing is dropped.
pub drop_contradicted-OnlyRefuted :
    (pe : PageEvaluation) (d : Option A11yDigest)
    → let after = drop_contradicted pe d in
      OnlyRefuted d pe.blockers after.blockers
      × OnlyRefuted d pe.frictions after.frictions
      × OnlyRefutedFix d pe.top_fix after.top_fix
unfolding drop_contradicted
drop_contradicted-OnlyRefuted pe none =
    (OnlyRefuted-self none pe.blockers, OnlyRefuted-self none pe.frictions, inl refl)
drop_contradicted-OnlyRefuted pe (some d) = elim (Bool-cases (is_empty_digest (some d))) [
  | inl e ↦
      rw e (OnlyRefuted-self (some d) pe.blockers, OnlyRefuted-self (some d) pe.frictions, inl refl)
  | inr e ↦ rw e (
    filter-OnlyRefuted d pe.blockers,
    filter-OnlyRefuted d pe.frictions,
    top_fix-OnlyRefuted d pe.top_fix,
  )
]
