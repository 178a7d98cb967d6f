-- ===== src/Digest/Push/Laws.antt =====
-- internal/plugin/a11y.go: what a digest is like that a push stores, and what one turn of each loop
-- adds to it.
use auditloop.Base.{
  ◌≤◌, ◌≡◌, refl, ◌⊎◌, inl, inr, Bool, true, false, ◌&&◌, not, some, List, ◌++◌, map, arith,
  Bool-cases, Str, is_empty, one_of, trim_space, length, All,
}
use mathlib.Core.List.{Memᴰ}
use mathlib.Core.Path.{subst}
use auditloop.Digest.{
  Interactive, FormControl, Landmark, A11yDigest, is_programmatic, known_label_source,
  is_empty_digest, concrete_keys, max_interactive, max_form_controls, max_landmarks,
  max_selector_len, max_name_len, max_text_len, max_token_len,
}
use auditloop.Digest.Push.{
  Checked, Verdicts, valid_tag, clean_interactive, clean_control, clean_landmark, with_verdict,
  push_interactive, push_control, push_landmark,
}
use auditloop.Digest.Push.Clean.{IsClean, trunc-IsClean}
use auditloop.Digest.Push.Anchors.{Extends, Records, check_prog_lem}

abbrev pub IsTag : Str → Type 0
IsTag tag = (is_empty tag ≡ true) ⊎ (valid_tag tag ≡ true)

abbrev pub IsCanonicalElement : Interactive → Type 0
IsCanonicalElement e =
    IsTag e.tag
    × IsClean max_token_len e.role
    × IsClean max_token_len e.input_type
    × IsClean max_selector_len e.selector
    × IsClean max_name_len e.accessible_name

abbrev pub IsCanonicalControl : FormControl → Type 0
IsCanonicalControl c =
    IsClean max_selector_len c.selector
    × IsClean max_name_len c.accessible_name
    × (c.has_label ≡ is_programmatic c.label_source)

abbrev pub IsCanonicalLandmark : Landmark → Type 0
IsCanonicalLandmark l = IsTag l.tag × IsClean max_token_len l.role × IsClean max_text_len l.text

-- The verdict on an element, with its selector.
abbrev pub element_row : Interactive → Str × Bool
element_row e = (e.selector, is_programmatic e.label_source)

abbrev pub control_row : FormControl → Str × Bool
control_row c = (c.selector, c.has_label)

-- All elements at an anchor have the same verdict.
abbrev pub AgreeOn : List (Str × Bool) → Type 0
AgreeOn rows =
    (r r' : Str × Bool) (k : Str)
    → Memᴰ r rows
    → Memᴰ r' rows
    → one_of k (concrete_keys r.0) ≡ true
    → one_of k (concrete_keys r'.0) ≡ true
    → r.1 ≡ r'.1

abbrev pub verdict_rows : A11yDigest → List (Str × Bool)
verdict_rows d = map element_row d.interactive ++ map control_row d.form_controls

abbrev pub IsCanonical : A11yDigest → Type 0
IsCanonical d =
    (length d.interactive ≤ max_interactive)
    × (length d.form_controls ≤ max_form_controls)
    × (length d.landmarks ≤ max_landmarks)
    × All IsCanonicalElement d.interactive
    × All IsCanonicalControl d.form_controls
    × All IsCanonicalLandmark d.landmarks
    × AgreeOn (verdict_rows d)
    × (is_empty_digest (some d) ≡ false)

with_verdict_ok {ℓ} :
    {A : Type ℓ} (x : A) (r : Checked Verdicts) (y : A) (later : Verdicts)
    → with_verdict x r ≡ inr (y, later)
    → (x ≡ y) × (r ≡ inr later)
with_verdict_ok x (inl e) y later h = cc
with_verdict_ok x (inr seen) y later h = (cc h, cc h)

abbrev pub GoodElement : Interactive → Verdicts → Type 0
GoodElement e seen = IsCanonicalElement e × Records seen (element_row e)

abbrev pub GoodControl : FormControl → Verdicts → Type 0
GoodControl c seen = IsCanonicalControl c × Records seen (control_row c)

abbrev pub GoodLandmark : Landmark → Verdicts → Type 0
GoodLandmark l seen = IsCanonicalLandmark l

IsTag-cases : (tag : Str) → (not (is_empty tag) && not (valid_tag tag)) ≡ false → IsTag tag
IsTag-cases tag h = ground arith

pub push_interactive_lem :
    (x y : Interactive) (seen later : Verdicts)
    → push_interactive x seen ≡ inr (y, later)
    → Extends seen later × GoodElement y later
unfolding push_interactive
push_interactive_lem x y seen later h = elim (Bool-cases (is_empty (trim_space x.selector))) [
  | inl e ↦ absurd (cc (rw e at h))
  | inr e ↦ elim (Bool-cases (not (known_label_source x.label_source))) [
    | inl e' ↦ absurd (cc (rw (e, e') at h))
    | inr e' ↦
        let out = clean_interactive x in
        elim (Bool-cases (not (is_empty out.tag) && not (valid_tag out.tag))) [
          | inl q ↦ absurd (cc (rw (e, e', q) at h))
          | inr q ↦
              let (same, ok) = with_verdict_ok out _ y later (rw (e, e', q) at h) in
              let (x1, rec) =
                check_prog_lem out.selector (is_programmatic out.label_source) seen later ok in
              let good : GoodElement out later = (
                (
                  IsTag-cases out.tag q,
                  trunc-IsClean x.role max_token_len,
                  trunc-IsClean x.input_type max_token_len,
                  trunc-IsClean x.selector max_selector_len,
                  trunc-IsClean x.accessible_name max_name_len,
                ),
                rec,
              ) in
              (x1, subst (λ e. GoodElement e later) same good)
        ]
  ]
]

pub push_control_lem :
    (x y : FormControl) (seen later : Verdicts)
    → push_control x seen ≡ inr (y, later)
    → Extends seen later × GoodControl y later
unfolding push_control
push_control_lem x y seen later h = elim (Bool-cases (is_empty (trim_space x.selector))) [
  | inl e ↦ absurd (cc (rw e at h))
  | inr e ↦ elim (Bool-cases (not (known_label_source x.label_source))) [
    | inl e' ↦ absurd (cc (rw (e, e') at h))
    | inr e' ↦
        let out = clean_control x in
        let (same, ok) = with_verdict_ok out _ y later (rw (e, e') at h) in
        let (x1, rec) =
          check_prog_lem out.selector (is_programmatic out.label_source) seen later ok in
        let good : GoodControl out later = (
          (
            trunc-IsClean x.selector max_selector_len,
            trunc-IsClean x.accessible_name max_name_len,
            refl,
          ),
          rec,
        ) in
        (x1, subst (λ c. GoodControl c later) same good)
  ]
]

pub push_landmark_lem :
    (x y : Landmark) (seen later : Verdicts)
    → push_landmark x seen ≡ inr (y, later)
    → Extends seen later × GoodLandmark y later
unfolding push_landmark
push_landmark_lem x y seen later h =
    let out = clean_landmark x in
    elim (Bool-cases (not (is_empty out.tag) && not (valid_tag out.tag))) [
      | inl q ↦ absurd (cc (rw q at h))
      | inr q ↦
          let ok : inr (out, seen) ≡ inr (y, later) = rw q at h in
          let same : out ≡ y = cc ok in
          let unchanged : seen ≡ later = cc ok in
          let good : GoodLandmark out later = (
            IsTag-cases out.tag q,
            trunc-IsClean x.role max_token_len,
            trunc-IsClean x.text max_text_len,
          ) in
          (
            (λ k prog p. subst (λ s. s k ≡ some prog) unchanged p),
            subst (λ l. GoodLandmark l later) same good,
          )
    ]
