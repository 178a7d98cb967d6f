-- ===== src/Gate/Pushed.antt =====
-- The gate of internal/eval/verify.go on a digest that internal/plugin/a11y.go accepted.
use auditloop.Base.{
  ◌≡◌, ap, ◌∙◌, ◌⊎◌, inl, inr, Bool, true, some, List, [], ◌∷◌, ◌++◌, map, Str, All, All-weaken,
}
use mathlib.Core.List.{Memᴰ}
use mathlib.Core.Logic.{⊎_elim}
use auditloop.Report.{EvalFinding, PageEvaluation}
use auditloop.Digest.{A11yDigest}
use auditloop.Digest.Push.{normalize_digest}
use auditloop.Digest.Push.Laws.{AgreeOn, verdict_rows, element_row, control_row}
use auditloop.Digest.Push.Accepted.{normalize_digest-IsCanonical}
use auditloop.Gate.Claims.{claims_missing_label, claims_not_operable}
use auditloop.Gate.Refute.{drop_contradicted}
use auditloop.Gate.Refute.Spec.{IsAnchorOf, HasLabel, IsOperable, IsRefuted, OnlyRefuted}
use auditloop.Gate.Refute.Laws.{drop_contradicted-OnlyRefuted}

-- There is an element at the anchor, and each of them has a programmatic label.
abbrev pub IsLabelledThroughout : A11yDigest → Str → Type 0
IsLabelledThroughout d k =
    ((r : Str × Bool) × Memᴰ r (verdict_rows d) × IsAnchorOf k r.0)
    × ((r : Str × Bool) → Memᴰ r (verdict_rows d) → IsAnchorOf k r.0 → r.1 ≡ true)

-- What the gate needs before it drops a finding.
abbrev pub IsSafelyRefuted : A11yDigest → EvalFinding → Type 0
IsSafelyRefuted d f =
    (k : Str) × IsAnchorOf k f.selector
    × (((claims_missing_label f ≡ true) × IsLabelledThroughout d k)
        ⊎ ((claims_not_operable f ≡ true) × IsOperable d k))

mem_left {ℓ} : {A : Type ℓ} (x : A) (xs ys : List A) → Memᴰ x xs → Memᴰ x (xs ++ ys)
mem_left x [] ys m = elim m [ ]
mem_left x (y ∷ xs) ys (Memᴰ.head e) = Memᴰ.head e
mem_left x (y ∷ xs) ys (Memᴰ.tail m) = Memᴰ.tail (mem_left x xs ys m)

mem_right {ℓ} : {A : Type ℓ} (x : A) (xs ys : List A) → Memᴰ x ys → Memᴰ x (xs ++ ys)
mem_right x [] ys m = m
mem_right x (y ∷ xs) ys m = Memᴰ.tail (mem_right x xs ys m)

mem-map {ℓ ℓ'} :
    {A : Type ℓ} {B : Type ℓ'} (f : A → B) (x : A) (xs : List A) → Memᴰ x xs → Memᴰ (f x) (map f xs)
mem-map f x [] m = elim m [ ]
mem-map f x (y ∷ xs) (Memᴰ.head e) = Memᴰ.head (ap f e)
mem-map f x (y ∷ xs) (Memᴰ.tail m) = Memᴰ.tail (mem-map f x xs m)

labelled_row :
    (d : A11yDigest) (k : Str)
    → HasLabel d k
    → (r : Str × Bool) × Memᴰ r (verdict_rows d) × IsAnchorOf k r.0 × (r.1 ≡ true)
labelled_row d k (inl (e, m, a, p)) = (
  element_row e,
  mem_left _ (map element_row d.interactive) _ (mem-map element_row e d.interactive m),
  a,
  p,
)
labelled_row d k (inr (c, m, a, p)) = (
  control_row c,
  mem_right _ (map element_row d.interactive) _ (mem-map control_row c d.form_controls m),
  a,
  p,
)

safely :
    (d : A11yDigest) (f : EvalFinding)
    → AgreeOn (verdict_rows d)
    → IsRefuted (some d) f
    → IsSafelyRefuted d f
safely d f agree (k, a, inr (c, o)) = (k, a, inr (c, o))
safely d f agree (k, a, inl (c, l)) =
    let (r, m, ar, p) = labelled_row d k l in
    (k, a, inl (c, ((r, m, ar), λ r' m' a'. agree r' r k m' m a' ar ∙ p)))

-- For a digest that a plugin pushed and the check accepted, whatever was pushed: dropContradicted
-- drops a blocker or a friction only if, at an anchor of its selector, there are elements of the
-- digest, all of them have a programmatic label, and the finding claims that a label is missing; or
-- if the finding claims a lack of keyboard access and there is a link or button, with all interactive
-- elements there focusable and enabled. So one element with a wrong label among several at an anchor
-- does not license the drop.
pub pushed-SafelyRefuted :
    (raw d : A11yDigest) (pe : PageEvaluation)
    → normalize_digest raw ≡ inr d
    → let after = drop_contradicted pe (some d) in
      All (λ f. Memᴰ f after.blockers ⊎ IsSafelyRefuted d f) pe.blockers
      × All (λ f. Memᴰ f after.frictions ⊎ IsSafelyRefuted d f) pe.frictions
pushed-SafelyRefuted raw d pe h =
    let (_, _, _, _, _, _, agree, _) = normalize_digest-IsCanonical raw d h in
    let (b, f, _) = drop_contradicted-OnlyRefuted pe (some d) in
    let weaken : (after fs : List EvalFinding)
        → OnlyRefuted (some d) fs after
        → All (λ f. Memᴰ f after ⊎ IsSafelyRefuted d f) fs =
      λ after fs. All-weaken _ _ fs (λ f. ⊎_elim inl (λ r. inr (safely d f agree r))) in
    (weaken _ pe.blockers b, weaken _ pe.frictions f)
