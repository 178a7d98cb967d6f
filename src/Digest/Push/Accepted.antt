-- ===== src/Digest/Push/Accepted.antt =====
-- internal/plugin/a11y.go: NormalizeA11yDigest as a whole.
use auditloop.Base.{
  ◌≤◌, ◌≡◌, inl, inr, Bool, none, some, List, [], ◌∷◌, ◌++◌, map, arith, if◌then◌else◌, Bool-cases,
  Str, length, ltb, All, All-get, All-append, All-weaken,
}
use mathlib.Core.Path.{subst}
use auditloop.Digest.{
  A11yDigest, Interactive, FormControl, Landmark, is_empty_digest, max_interactive,
  max_form_controls, max_landmarks,
}
use auditloop.Digest.Push.{
  PushError, Verdicts, and_then, each, push_interactive, push_control, push_landmark,
  normalize_digest,
}
use auditloop.Digest.Push.Anchors.{
  and_then_ok, Extends, Records, Records-later, Records-agree, each_lem,
}
use auditloop.Digest.Push.Laws.{
  IsCanonical, AgreeOn, verdict_rows, element_row, control_row, GoodElement, GoodControl,
  GoodLandmark, push_interactive_lem, push_control_lem, push_landmark_lem,
}

agree_of : (seen : Verdicts) (rows : List (Str × Bool)) → All (Records seen) rows → AgreeOn rows
agree_of seen rows h r r' k m m' a a' =
    Records-agree seen r r' k (All-get (Records seen) rows m h) (All-get (Records seen) rows m' h) a
      a'

All-map {ℓ ℓ'} :
    {A : Type ℓ} {B : Type ℓ'} (P : B → Type 0) (f : A → B) (xs : List A)
    → All (λ x. P (f x)) xs
    → All P (map f xs)
All-map P f [] h = tt
All-map P f (x ∷ xs) (h, hs) = (h, All-map P f xs hs)

rows_agree :
    (seen : Verdicts) (es : List Interactive) (cs : List FormControl) (ls : List Landmark)
    → All (λ e. Records seen (element_row e)) es
    → All (λ c. Records seen (control_row c)) cs
    → AgreeOn (verdict_rows (record { interactive = es; form_controls = cs; landmarks = ls }))
rows_agree seen es cs ls h h' = agree_of seen (map element_row es ++ map control_row cs) (
    All-append (Records seen) (map element_row es) (map control_row cs)
      (All-map (Records seen) element_row es h) (All-map (Records seen) control_row cs h'))

GoodElement-later :
    (e : Interactive) (seen later : Verdicts)
    → Extends seen later
    → GoodElement e seen
    → GoodElement e later
GoodElement-later e seen later x (c, r) = (c, Records-later seen later (element_row e) x r)

GoodControl-later :
    (c : FormControl) (seen later : Verdicts)
    → Extends seen later
    → GoodControl c seen
    → GoodControl c later
GoodControl-later c seen later x (h, r) = (h, Records-later seen later (control_row c) x r)

loops_lem :
    (d out : A11yDigest)
    → length d.interactive ≤ max_interactive
    → length d.form_controls ≤ max_form_controls
    → length d.landmarks ≤ max_landmarks
    → (and_then (each push_interactive d.interactive (λ k. none)) λ (es, seen).
        and_then (each push_control d.form_controls seen) λ (cs, seen').
          and_then (each push_landmark d.landmarks seen') λ (ls, seen'').
            let out : A11yDigest = record {
              interactive = es;
              form_controls = cs;
              landmarks = ls;
            } in
            if is_empty_digest (some out) then inl PushError.empty_digest else inr out)
      ≡ inr out
    → IsCanonical out
loops_lem d out a b c h =
    let ((es, seen), e1, h1) =
      and_then_ok (each push_interactive d.interactive (λ k. none)) _ _ h in
    let ((cs, seen'), e2, h2) = and_then_ok (each push_control d.form_controls seen) _ _ h1 in
    let ((ls, seen''), e3, h3) = and_then_ok (each push_landmark d.landmarks seen') _ _ h2 in
    let (x1, g1, l1) =
      each_lem push_interactive GoodElement push_interactive_lem GoodElement-later d.interactive _
        (es, seen) e1 in
    let (x2, g2, l2) =
      each_lem push_control GoodControl push_control_lem GoodControl-later d.form_controls _
        (cs, seen') e2 in
    let (x3, g3, l3) =
      each_lem push_landmark GoodLandmark push_landmark_lem (λ l s s' x g. g) d.landmarks _
        (ls, seen'') e3 in
    let res : A11yDigest = record { interactive = es; form_controls = cs; landmarks = ls } in
    elim (Bool-cases (is_empty_digest (some res))) [
      | inl e ↦ absurd (cc (rw e at h3))
      | inr e ↦
          let ok : inr res ≡ inr out = rw e at h3 in
          let same : res ≡ out = cc ok in
          let good : IsCanonical res = (
            ground arith,
            ground arith,
            ground arith,
            All-weaken _ _ es (λ e g. g.0) g1,
            All-weaken _ _ cs (λ c g. g.0) g2,
            g3,
            rows_agree seen' es cs ls
                (All-weaken _ _ es (λ e g. Records-later seen seen' (element_row e) x2 g.1) g1)
                (All-weaken _ _ cs (λ c g. g.1) g2),
            e,
          ) in
          subst IsCanonical same good
    ]

-- Whatever digest is pushed: the one that is stored has at most as many elements as a crawl captures
-- and at least one; its tags are element names, its strings within their caps and free of control
-- characters, line separators and bidirectional overrides; a form control counts as labelled exactly
-- if its label source is programmatic; and two elements that share an anchor, of either kind, have
-- the same verdict on that.
pub normalize_digest-IsCanonical :
    (d out : A11yDigest) → normalize_digest d ≡ inr out → IsCanonical out
unfolding normalize_digest
normalize_digest-IsCanonical d out h =
    elim (Bool-cases (ltb max_interactive (length d.interactive))) [
      | inl e ↦ absurd (cc (rw e at h))
      | inr e ↦ elim (Bool-cases (ltb max_form_controls (length d.form_controls))) [
        | inl e' ↦ absurd (cc (rw (e, e') at h))
        | inr e' ↦ elim (Bool-cases (ltb max_landmarks (length d.landmarks))) [
          | inl e'' ↦ absurd (cc (rw (e, e', e'') at h))
          | inr e'' ↦
              loops_lem d out (ground arith) (ground arith) (ground arith) (rw (e, e', e'') at h)
        ]
      ]
    ]
