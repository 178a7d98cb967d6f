-- ===== src/Gate/Ground/Nowhere.antt =====
-- When the search for an anchor finds none, no quoted text leads to an element.
use auditloop.Base.{
  ◌≡◌, ◌≢◌, ◌<◌, ◌↔◌, refl, sym, ap, ◌∙◌, ◌⊎◌, inl, inr, true, false, not, Option, none, some, List,
  [], ◌∷◌, arith, Bool-cases, Str, is_empty, trim_space, All, All-get, any_sound, any_complete, ltb,
  length, Bool, All-of, All-weaken,
}
use mathlib.Core.List.{Memᴰ}
use mathlib.Core.Path.{subst}
use auditloop.Base.Text.Laws.{ne_of_filled, filled_of_ne, nil_of_empty}
use auditloop.Digest.{A11yDigest, max_interactive, max_form_controls, max_landmarks}
use auditloop.Gate.Ground.{
  GroundIndex, Names, Named, named_of, normalize_sel, normalize_name, look_up, build_ground_index,
  quoted_literals, is_listed, prefix_hit, is_candidate, reanchor_name, reanchor_literals, reanchor,
  digest_vocabulary_complete,
}
use auditloop.Gate.Ground.Vocabulary.{NamesIt}
use auditloop.Gate.Ground.Prefix.{hit_iff}
use auditloop.Gate.Ground.Names.{IsNamed, Differ, IsShared, IsJustified, IsFiled}
use auditloop.Gate.Ground.Dropped.{
  IsTruncated, IsDisputed, LeadsNowhere, Covers, add_all-Covers, add_all-IsJustified,
  is_listed_complete, rival, disagreeing, candidate_iff,
}

-- What the search found of a name.
abbrev FindsNothing : Names → Str → Type 0
FindsNothing names n =
    (n ≡ []) ⊎ ((look_up n names ≡ []) × ((length n < 12) ⊎ (prefix_hit n names [] ≡ [])))

reanchor_name-none :
    (idx : GroundIndex) (n : Str) (later : Option Str)
    → reanchor_name idx n later ≡ none
    → FindsNothing idx.by_name n × (later ≡ none)
reanchor_name-none idx n later h = elim (Bool-cases (is_empty n)) [
  | inl e ↦ (inl (nil_of_empty n e), rw e at h)
  | inr e ↦ elim (Bool-cases (is_empty (look_up n idx.by_name))) [
    | inr q ↦ cc (rw (e, q) at h)
    | inl q ↦
        let empty = nil_of_empty (look_up n idx.by_name) q in
        elim (Bool-cases (ltb (length n) 12)) [
          | inl s ↦ (inr (empty, inl (ground (arith, s))), rw (e, q, s) at h)
          | inr s ↦ elim (Bool-cases (is_empty (prefix_hit n idx.by_name []))) [
            | inl z ↦ (inr (empty, inr (nil_of_empty _ z)), rw (e, q, s, z) at h)
            | inr z ↦ cc (rw (e, q, s, z) at h)
          ]
        ]
  ]
]

reanchor_literals-none :
    (idx : GroundIndex) (ls : List Str)
    → reanchor_literals idx ls ≡ none
    → All (λ l. FindsNothing idx.by_name (normalize_name l)) ls
unfolding reanchor_literals
reanchor_literals-none idx [] h = tt
reanchor_literals-none idx (l ∷ ls) h =
    let (this, rest) = reanchor_name-none idx (normalize_name l) (reanchor_literals idx ls) h in
    (this, reanchor_literals-none idx ls rest)

module _ (rows : List Named) (idx : GroundIndex)
    (covers : (e : Named) → Memᴰ e rows → Covers rows idx e)
    (justified : All (IsJustified rows) idx.by_name) where
  filed :
      (e : Named)
      → Memᴰ e rows
      → normalize_sel e.0 ≢ []
      → normalize_name e.1 ≢ []
      → IsFiled (normalize_name e.1) (trim_space e.0) idx.by_name
  filed e m ne named = elim (covers e m) [
    | inl blank ↦ absurd (ne blank)
    | inr (l, k, inl z) ↦ absurd (named z)
    | inr (l, k, inr f) ↦ f
  ]

  -- A marked entry is that of several elements.
  marked : (n : Str) → Memᴰ (n, []) idx.by_name → IsShared rows n
  marked n m = elim (All-get _ idx.by_name m justified) [
    | inl (z, shared) ↦ shared
    | inr (ne, found) ↦ absurd (ne refl)
  ]

  look_up-IsDisputed : (n : Str) → n ≢ [] → look_up n idx.by_name ≡ [] → IsDisputed rows (IsNamed n)
  look_up-IsDisputed n ne none_found e m (sel, named) =
      let (entry, _) = filed e m sel (λ z. ne (sym named ∙ z)) in
      let at_n : Memᴰ (n, look_up n idx.by_name) idx.by_name =
        subst (λ x. Memᴰ (x, look_up x idx.by_name) idx.by_name) named entry in
      rival rows (IsNamed n) e n (λ c k. k)
        (marked n (subst (λ x. Memᴰ (n, x) idx.by_name) none_found at_n))

  candidate-IsTruncated :
      (n m : Str) → is_candidate n m ≡ true → (c : Named) → IsNamed m c → IsTruncated n c
  candidate-IsTruncated n m cand c (sel, named) =
      (candidate_iff rows n c sel).0 (subst (λ x. is_candidate n x ≡ true) (sym named) cand)

  -- The entry of a candidate has a rival.
  other_candidate :
      (n : Str) (e : Named) (c : Str × Str)
      → Memᴰ c idx.by_name
      → is_candidate n c.0 ≡ true
      → c.1 ≢ trim_space e.0
      → (e' : Named) × Memᴰ e' rows × IsTruncated n e' × Differ e e'
  other_candidate n e (m, s) i cand other = elim (All-get _ idx.by_name i justified) [
    | inl (z, shared) ↦ rival rows (IsTruncated n) e m (candidate-IsTruncated n m cand) shared
    | inr (ne, (e', i', named, same)) ↦
        (e', i', candidate-IsTruncated n m cand e' named, λ z. other (sym same ∙ z))
  ]

  prefix_hit-IsDisputed :
      (n : Str) → prefix_hit n idx.by_name [] ≡ [] → IsDisputed rows (IsTruncated n)
  prefix_hit-IsDisputed n nothing e m t =
      let name = normalize_name e.1 in
      let long = t.1 in
      let named : name ≢ [] = λ z. absurd (let l = ap length z in ground (arith, long, l)) in
      let cand = (candidate_iff rows n e t.0).1 t in
      let (entry, which) = filed e m t.0 named in
      let s = look_up name idx.by_name in
      elim (Bool-cases (is_empty s)) [
        | inl z ↦
            rival rows (IsTruncated n) e name (candidate-IsTruncated n name cand)
              (marked name (subst (λ x. Memᴰ (name, x) idx.by_name) (nil_of_empty s z) entry))
        | inr z ↦
            let filled = ne_of_filled s z in
            let same : s ≡ trim_space e.0 = elim which [ inl q ↦ q | inr q ↦ absurd (filled q) ] in
            elim (disagreeing rows n s idx.by_name) [
              | inl agree ↦ absurd (
                  filled (
                    sym ((hit_iff n s idx.by_name filled).1 (agree, ((name, s), entry, cand)))
                    ∙ nothing))
              | inr (c, i, k, d) ↦ other_candidate n e c i k (λ q. d (q ∙ sym same))
            ]
      ]

  nothing-LeadsNowhere : (n : Str) → FindsNothing idx.by_name n → LeadsNowhere rows n
  nothing-LeadsNowhere n (inl e) = inl e
  nothing-LeadsNowhere n (inr (e, more)) = elim (Bool-cases (is_empty n)) [
    | inl z ↦ inl (nil_of_empty n z)
    | inr z ↦ inr (
      look_up-IsDisputed n (ne_of_filled n z) e,
      elim more [ inl short ↦ inl short | inr nothing ↦ inr (prefix_hit-IsDisputed n nothing) ],
    )
  ]

module _ (d : A11yDigest) where
  index-Covers : (e : Named) → Memᴰ e (named_of d) → Covers (named_of d) (build_ground_index d) e
  unfolding build_ground_index
  index-Covers e m = add_all-Covers (named_of d) (named_of d) _ e (inl m)

  index-IsJustified : All (IsJustified (named_of d)) (build_ground_index d).by_name
  unfolding build_ground_index
  index-IsJustified = add_all-IsJustified (named_of d) (named_of d) _ (λ e m. m) tt

  -- The selector is blank, or no element with a selector has it or shares an anchor with it.
  abbrev pub IsUnlisted : Str → Type 0
  IsUnlisted s =
      (normalize_sel s ≡ [])
      ⊎ All (λ (e : Named). (normalize_sel e.0 ≡ []) ⊎ (¬ NamesIt s e)) (named_of d)

  pub unlisted_lem : (s : Str) → is_listed (build_ground_index d) s ≡ false → IsUnlisted s
  unlisted_lem s h = elim (Bool-cases (is_empty (normalize_sel s))) [
    | inl z ↦ inl (nil_of_empty (normalize_sel s) z)
    | inr z ↦ inr (
        All-of _ (named_of d) (λ e m. elim (Bool-cases (is_empty (normalize_sel e.0))) [
          | inl y ↦ inl (nil_of_empty (normalize_sel e.0) y)
          | inr y ↦ inr (λ names.
              let listed =
                is_listed_complete (named_of d) (build_ground_index d) s e (index-Covers e m)
                  (ne_of_filled _ z) (ne_of_filled _ y) names in
              cc (h, listed))
        ]))
  ]

  pub nowhere_lem :
      (s : Str)
      → reanchor (build_ground_index d) s ≡ none
      → All (λ l. LeadsNowhere (named_of d) (normalize_name l)) (quoted_literals s)
  unfolding reanchor
  nowhere_lem s h =
      All-weaken _ _ (quoted_literals s)
        (λ l k.
          nothing-LeadsNowhere (named_of d) (build_ground_index d) index-Covers index-IsJustified
            (normalize_name l) k)
        (reanchor_literals-none (build_ground_index d) (quoted_literals s) h)

  -- None of the lists of the digest is as long as its cap, and some element has a selector.
  abbrev pub IsComplete : Type 0
  IsComplete =
      (length d.interactive < max_interactive)
      × (length d.form_controls < max_form_controls)
      × (length d.landmarks < max_landmarks)
      × ((e : Named) × Memᴰ e (named_of d) × (normalize_sel e.0 ≢ []))

  pub complete_iff : (digest_vocabulary_complete (some d) ≡ true) ↔ IsComplete
  unfolding digest_vocabulary_complete
  complete_iff =
      let has_selector : Named → Bool = λ e. not (is_empty (normalize_sel e.0)) in
      (
        (λ h.
            let (e, m, k) = any_sound has_selector (named_of d) (ground (arith, h)) in
            (
              ground (arith, h),
              ground (arith, h),
              ground (arith, h),
              (e, m, ne_of_filled (normalize_sel e.0) (ground (arith, k))),
            )),
        λ (a, b, c, (e, m, ne)).
            let k = filled_of_ne (normalize_sel e.0) ne in
            let some_selector = any_complete has_selector (named_of d) e m (ground (arith, k)) in
            ground (arith, a, b, c, some_selector),
      )
