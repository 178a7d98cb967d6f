-- ===== src/Gate/Ground/Vocabulary.antt =====
-- What the vocabulary of a digest, as the grounding of selectors builds it, can hold.
use auditloop.Base.{
  ◌≡◌, refl, sym, ap, ◌⊎◌, inl, inr, true, false, ◌&&◌, ◌||◌, not, Option, none, some, List, [],
  ◌∷◌, arith, Bool-cases, Str, eqb, eqb_iff, is_empty, one_of, trim_space, any, All, All-get,
  All-of, All-append, any_sound, ltb, length,
}
use mathlib.Core.List.{Memᴰ}
use auditloop.Base.Text.Laws.{one_of_sound}
use auditloop.Digest.{A11yDigest, concrete_keys}
use auditloop.Gate.Ground.{
  GroundIndex, Names, Named, named_of, normalize_sel, normalize_name, claim, claimed, look_up, add,
  add_all, build_ground_index, quoted_literals, min_prefix_match, is_listed, prefix_hit,
  is_candidate, prefix_or, reanchor_name, reanchor_literals, reanchor,
}

-- The element names the selector: the two agree after normalisation, or share an anchor.
abbrev pub NamesIt : Str → Named → Type 0
NamesIt s e =
    (normalize_sel s ≡ normalize_sel e.0)
    ⊎ ((k : Str) × Memᴰ k (concrete_keys s) × Memᴰ k (concrete_keys e.0))

-- Over a list of elements, that of the digest.
module _ (rows : List Named) where
  -- The selector is that of an element with an accessible name.
  abbrev pub IsAnchor : Str → Type 0
  IsAnchor s =
      (e : Named) × Memᴰ e rows × (s ≡ trim_space e.0) × (is_empty (normalize_name e.1) ≡ false)

  abbrev pub IsListedBy : Str → Type 0
  IsListedBy s = (e : Named) × Memᴰ e rows × NamesIt s e

  abbrev pub AnchorOrNone : Str → Type 0
  AnchorOrNone s = (s ≡ []) ⊎ IsAnchor s

  abbrev pub AreAnchors : Names → Type 0
  AreAnchors names = All (λ (e : Str × Str). AnchorOrNone e.1) names

  abbrev pub IsVocabulary : GroundIndex → Type 0
  IsVocabulary idx =
      All (λ s. (e : Named) × Memᴰ e rows × (s ≡ normalize_sel e.0)) idx.listed
      × All (λ k. (e : Named) × Memᴰ e rows × Memᴰ k (concrete_keys e.0)) idx.keys
      × AreAnchors idx.by_name

  claim-AreAnchors :
      (n s : Str) (names : Names) → IsAnchor s → AreAnchors names → AreAnchors (claim n s names)
  unfolding claim
  claim-AreAnchors n s [] a h = (inr a, tt)
  claim-AreAnchors n s ((m, t) ∷ names) a (h, hs) = elim (Bool-cases (eqb m n)) [
    | inl e ↦ elim (Bool-cases (eqb t s)) [
      | inl q ↦ rw (e, q) (inr (rw (sym ((eqb_iff t s).0 q)) at a), hs)
      | inr q ↦ rw (e, q) (inl refl, hs)
    ]
    | inr e ↦ rw e (h, claim-AreAnchors n s names a hs)
  ]

  claimed-AreAnchors :
      (e : Named) (names : Names) → Memᴰ e rows → AreAnchors names → AreAnchors (claimed e names)
  claimed-AreAnchors (selector, name) names m h =
      elim (Bool-cases (is_empty (normalize_name name) || is_empty (trim_space selector))) [
        | inl e ↦ rw e h
        | inr e ↦ rw e (
            claim-AreAnchors (normalize_name name) (trim_space selector) names
              ((selector, name), m, refl, ground arith) h)
      ]

  add-IsVocabulary :
      (e : Named) (idx : GroundIndex) → Memᴰ e rows → IsVocabulary idx → IsVocabulary (add e idx)
  add-IsVocabulary (selector, name) idx m (ls, ks, ns) =
      elim (Bool-cases (is_empty (normalize_sel selector))) [
        | inl e ↦ rw e (ls, ks, ns)
        | inr e ↦ rw e (
          (((selector, name), m, refl), ls),
          All-append _ (concrete_keys selector) idx.keys
              (All-of _ (concrete_keys selector) (λ k m'. ((selector, name), m, m'))) ks,
          claimed-AreAnchors (selector, name) idx.by_name m ns,
        )
      ]

  add_all-IsVocabulary :
      (es : List Named) (idx : GroundIndex)
      → ((e : Named) → Memᴰ e es → Memᴰ e rows)
      → IsVocabulary idx
      → IsVocabulary (add_all es idx)
  unfolding add_all
  add_all-IsVocabulary [] idx sub h = h
  add_all-IsVocabulary (e ∷ es) idx sub h =
      add_all-IsVocabulary es (add e idx) (λ c m. sub c (Memᴰ.tail m))
        (add-IsVocabulary e idx (sub e (Memᴰ.head refl)) h)

  look_up_lem : (n : Str) (names : Names) → AreAnchors names → AnchorOrNone (look_up n names)
  look_up_lem n [] h = inl refl
  look_up_lem n ((m, s) ∷ names) (h, hs) = elim (Bool-cases (eqb m n)) [
    | inl e ↦ rw e h
    | inr e ↦ rw e (look_up_lem n names hs)
  ]

  prefix_hit_lem :
      (n : Str) (names : Names) (hit : Str)
      → AreAnchors names
      → AnchorOrNone hit
      → AnchorOrNone (prefix_hit n names hit)
  unfolding prefix_hit
  prefix_hit_lem n [] hit h a = a
  prefix_hit_lem n ((name, s) ∷ names) hit (h, hs) a = elim (Bool-cases (is_candidate n name)) [
    | inr e ↦ rw e (prefix_hit_lem n names hit hs a)
    | inl e ↦ elim (Bool-cases (is_empty s || (not (is_empty hit) && not (eqb hit s)))) [
      | inl q ↦ rw (e, q) (inl refl)
      | inr q ↦ rw (e, q) (prefix_hit_lem n names s hs h)
    ]
  ]

  -- What a search for an anchor finds.
  abbrev pub FindsAnchor : Option Str → Type 0
  FindsAnchor none = Unit {0}
  FindsAnchor (some s) = IsAnchor s

  filled-IsAnchor : (s : Str) → is_empty s ≡ false → AnchorOrNone s → IsAnchor s
  filled-IsAnchor s h (inl e) = cc (ap is_empty e, h)
  filled-IsAnchor s h (inr a) = a

  prefix_or_lem :
      (idx : GroundIndex) (n : Str) (later : Option Str)
      → AreAnchors idx.by_name
      → FindsAnchor later
      → FindsAnchor (prefix_or idx n later)
  prefix_or_lem idx n later h a = elim (Bool-cases (ltb (length n) min_prefix_match)) [
    | inl e ↦ rw e a
    | inr e ↦ elim (Bool-cases (is_empty (prefix_hit n idx.by_name []))) [
      | inl q ↦ rw (e, q) a
      | inr q ↦ rw (e, q) (filled-IsAnchor _ q (prefix_hit_lem n idx.by_name [] h (inl refl)))
    ]
  ]

  reanchor_name_lem :
      (idx : GroundIndex) (n : Str) (later : Option Str)
      → AreAnchors idx.by_name
      → FindsAnchor later
      → FindsAnchor (reanchor_name idx n later)
  reanchor_name_lem idx n later h a = elim (Bool-cases (is_empty n)) [
    | inl e ↦ rw e a
    | inr e ↦ elim (Bool-cases (is_empty (look_up n idx.by_name))) [
      | inl q ↦ rw (e, q) (prefix_or_lem idx n later h a)
      | inr q ↦ rw (e, q) (filled-IsAnchor _ q (look_up_lem n idx.by_name h))
    ]
  ]

  reanchor_literals_lem :
      (idx : GroundIndex) (ls : List Str)
      → AreAnchors idx.by_name
      → FindsAnchor (reanchor_literals idx ls)
  unfolding reanchor_literals
  reanchor_literals_lem idx [] h = tt
  reanchor_literals_lem idx (l ∷ ls) h =
      reanchor_name_lem idx (normalize_name l) (reanchor_literals idx ls) h
        (reanchor_literals_lem idx ls h)

  is_listed_lem :
      (idx : GroundIndex) (s : Str) → IsVocabulary idx → is_listed idx s ≡ true → IsListedBy s
  unfolding is_listed
  is_listed_lem idx s (ls, ks, ns) h = elim (Bool-cases (is_empty (normalize_sel s))) [
    | inl e ↦ let unlisted : is_listed idx s ≡ false = rw e refl in cc (h, unlisted)
    | inr e ↦ elim (Bool-cases (one_of (normalize_sel s) idx.listed)) [
      | inl q ↦
          let (c, m, r) = All-get _ idx.listed (one_of_sound (normalize_sel s) idx.listed q) ls in
          (c, m, inl r)
      | inr q ↦
          let shared : any (λ k. one_of k idx.keys) (concrete_keys s) ≡ true = rw (e, q) at h in
          let (k, m, r) = any_sound (λ k. one_of k idx.keys) (concrete_keys s) shared in
          let (c, m', r') = All-get _ idx.keys (one_of_sound k idx.keys r) ks in
          (c, m', inr (k, m, r'))
    ]
  ]

module _ (d : A11yDigest) where
  vocabulary : IsVocabulary (named_of d) (build_ground_index d)
  unfolding build_ground_index
  vocabulary =
      add_all-IsVocabulary (named_of d) (named_of d)
        (record { listed = []; keys = []; by_name = []; complete = false }) (λ e m. m) (tt, tt, tt)

  pub is_listed_sound :
      (s : Str) → is_listed (build_ground_index d) s ≡ true → IsListedBy (named_of d) s
  is_listed_sound s h = is_listed_lem (named_of d) (build_ground_index d) s vocabulary h

  pub reanchor_sound : (s : Str) → FindsAnchor (named_of d) (reanchor (build_ground_index d) s)
  unfolding reanchor
  reanchor_sound s =
      let (ls, ks, names) = vocabulary in
      reanchor_literals_lem (named_of d) (build_ground_index d) (quoted_literals s) names
