-- ===== src/Gate/Ground/Prefix.antt =====
-- The search for a truncated name does not depend on the order in which Go walks the map.
use auditloop.Base.{
  ◌≡◌, ◌≢◌, ◌↔◌, refl, sym, ap, ◌∙◌, ◌⊎◌, inl, inr, true, false, ◌&&◌, ◌||◌, not, [], ◌∷◌, arith,
  Bool-cases, Str, eqb, eqb_iff, is_empty, All, All-get, All-of,
}
use mathlib.Core.List.{Memᴰ}
use auditloop.Base.Text.Laws.{ne_of_filled, filled_of_ne, nil_of_empty}
use mathlib.Core.Logic.{⊎_elim}
use auditloop.Gate.Ground.{Names, is_candidate, prefix_hit}

consistent :
    (s hit : Str)
    → is_empty s ≡ false
    → (hit ≡ s) ⊎ (hit ≡ [])
    → (is_empty s || (not (is_empty hit) && not (eqb hit s))) ≡ false
consistent s hit filled (inl q) = let e = (eqb_iff hit s).1 q in ground arith
consistent s hit filled (inr q) = let e : is_empty hit ≡ true = ap is_empty q in ground arith

module _ (n sel : Str) where
  abbrev pub Agrees : Str × Str → Type 0
  Agrees (name, s) = is_candidate n name ≡ true → s ≡ sel

  -- There is a candidate.
  abbrev pub HasCandidate : Names → Type 0
  HasCandidate es = (e : Str × Str) × Memᴰ e es × (is_candidate n e.0 ≡ true)

  -- The only selector that any candidate has.
  abbrev pub IsOnlyHit : Names → Type 0
  IsOnlyHit es = All Agrees es × HasCandidate es

  HasCandidate-tail :
      (e : Str × Str) (es : Names)
      → is_candidate n e.0 ≡ false
      → HasCandidate (e ∷ es)
      → HasCandidate es
  HasCandidate-tail e es h (c, Memᴰ.head q, k) = cc (q, h, k)
  HasCandidate-tail e es h (c, Memᴰ.tail m, k) = (c, m, k)

  hit_sound :
      (es : Names) (hit : Str)
      → sel ≢ []
      → prefix_hit n es hit ≡ sel
      → All Agrees es × ((hit ≡ sel) ⊎ ((hit ≡ []) × HasCandidate es))
  unfolding prefix_hit
  hit_sound [] hit ne h = (tt, inl h)
  hit_sound ((name, s) ∷ es) hit ne h = elim (Bool-cases (is_candidate n name)) [
    | inr out ↦
        let (a, b) = hit_sound es hit ne (rw out at h) in
        ((λ k. cc (k, out), a), ⊎_elim inl (λ (q, (c, m, k)). inr (q, (c, Memᴰ.tail m, k))) b)
    | inl cand ↦ elim (Bool-cases (is_empty s || (not (is_empty hit) && not (eqb hit s)))) [
      | inl bad ↦ absurd (ne (sym (rw (cand, bad) at h)))
      | inr good ↦
          let (a, b) = hit_sound es s ne (rw (cand, good) at h) in
          let same : s ≡ sel = elim b [
            | inl q ↦ q
            | inr (q, c) ↦ absurd (ne_of_filled s (ground arith) q)
          ] in
          (
            ((λ k. same), a),
            elim (Bool-cases (is_empty hit)) [
              | inl none_yet ↦ inr (nil_of_empty hit none_yet, ((name, s), Memᴰ.head refl, cand))
              | inr some_hit ↦ inl ((eqb_iff hit s).0 (ground arith) ∙ same)
            ],
          )
    ]
  ]

  hit_complete :
      (es : Names) (hit : Str)
      → sel ≢ []
      → All Agrees es
      → (hit ≡ sel) ⊎ ((hit ≡ []) × HasCandidate es)
      → prefix_hit n es hit ≡ sel
  unfolding prefix_hit
  hit_complete [] hit ne a (inl q) = q
  hit_complete [] hit ne a (inr (q, (c, m, k))) = elim m [ ]
  hit_complete ((name, s) ∷ es) hit ne (a, as') b = elim (Bool-cases (is_candidate n name)) [
    | inr out ↦ rw out (
        hit_complete es hit ne as'
          (⊎_elim inl (λ (q, c). inr (q, HasCandidate-tail (name, s) es out c)) b))
    | inl cand ↦
        let same : s ≡ sel = a cand in
        let filled = filled_of_ne s (λ q. ne (sym same ∙ q)) in
        let good : (is_empty s || (not (is_empty hit) && not (eqb hit s))) ≡ false =
          consistent s hit filled (⊎_elim (λ q. inl (q ∙ sym same)) (λ (q, c). inr q) b) in
        rw (cand, good) (hit_complete es s ne as' (inl same))
  ]

  pub hit_iff : (es : Names) → sel ≢ [] → (prefix_hit n es [] ≡ sel) ↔ IsOnlyHit es
  hit_iff es ne = (
    (λ h.
        let (a, b) = hit_sound es [] ne h in
        (a, elim b [ inl q ↦ absurd (ne (sym q)) | inr (q, c) ↦ c ])),
    λ (a, c). hit_complete es [] ne a (inr (refl, c)),
  )

-- Two listings of one map.
abbrev pub SameEntries : Names → Names → Type 0
SameEntries es fs = (e : Str × Str) → Memᴰ e es ↔ Memᴰ e fs

IsOnlyHit-same :
    (n sel : Str) (es fs : Names) → SameEntries es fs → IsOnlyHit n sel es → IsOnlyHit n sel fs
IsOnlyHit-same n sel es fs same (a, (e, m, k)) = (
  All-of (Agrees n sel) fs (λ c m'. All-get (Agrees n sel) es ((same c).1 m') a),
  (e, (same e).0 m, k),
)

hit_transfers :
    (n : Str) (es fs : Names)
    → SameEntries es fs
    → prefix_hit n es [] ≢ []
    → prefix_hit n fs [] ≡ prefix_hit n es []
hit_transfers n es fs same ne =
    let sel = prefix_hit n es [] in
    (hit_iff n sel fs ne).1 (IsOnlyHit-same n sel es fs same ((hit_iff n sel es ne).0 refl))

-- What the search for a truncated name finds in the map from names to selectors does not depend on
-- the order in which the loop visits the map's entries.
pub prefix_hit_order :
    (n : Str) (es fs : Names) → SameEntries es fs → prefix_hit n es [] ≡ prefix_hit n fs []
prefix_hit_order n es fs same = elim (Bool-cases (is_empty (prefix_hit n es []))) [
  | inr filled ↦ sym (hit_transfers n es fs same (ne_of_filled (prefix_hit n es []) filled))
  | inl e ↦ elim (Bool-cases (is_empty (prefix_hit n fs []))) [
    | inl e' ↦ nil_of_empty (prefix_hit n es []) e ∙ sym (nil_of_empty (prefix_hit n fs []) e')
    | inr filled ↦
        hit_transfers n fs es (λ c. ((same c).1, (same c).0))
          (ne_of_filled (prefix_hit n fs []) filled)
  ]
]
