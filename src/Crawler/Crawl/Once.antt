-- ===== src/Crawler/Crawl/Once.antt =====
-- internal/crawler/crawler.go: no URL is queued twice, and what the loop over the viewports adds.
use auditloop.Base.{
  ℕ, zero, suc, ◌≡◌, refl, sym, ap, ◌∙◌, ◌⊎◌, inl, inr, Bool, true, false, List, [], ◌∷◌, ◌++◌, map,
  arith, Bool-cases, Str, eqb, eqb_iff, eqb_refl, one_of, All, All-of, All-get, All-append,
  All-weaken,
}
use mathlib.Core.List.{append_assoc}
use mathlib.Core.Path.{subst}
use auditloop.Base.Text.Order.{HasNoRepeats}
use auditloop.Base.Text.Laws.{one_of_sound}
use auditloop.Crawler.Crawl.{
  World, CrawlState, Item, Viewport, Capture, captured, failed, stalled, Shots, url_of,
  canonical_url, shoot, shot, follow,
}
use auditloop.Base.Text.Laws.{one_of-append}
use auditloop.Crawler.Crawl.Count.{repeat}
use auditloop.Crawler.Crawl.Turns.{follow_ind}

-- Over the URLs of the pages, of the queue and of the map of visited URLs.
abbrev pub AreOrderly : List Str → List Str → List Str → Type 0
AreOrderly us qs vs =
    HasNoRepeats qs
    × All (λ q. one_of q us ≡ false) qs
    × All (λ q. one_of q vs ≡ true) qs
    × All (λ u. one_of u vs ≡ true) us

All-differ : (s : Str) (qs : List Str) → one_of s qs ≡ false → All (λ q. eqb q s ≡ false) qs
unfolding one_of
All-differ s [] h = tt
All-differ s (q ∷ qs) h = (
  elim (Bool-cases (eqb q s)) [
    | inl e ↦
        let r = eqb_refl q in
        let same = (eqb_iff q s).0 e in absurd (cc (rw same at h, rw same at r))
    | inr e ↦ e
  ],
  All-differ s qs (ground arith),
)

HasNoRepeats-last :
    (c : Str) (qs : List Str) → HasNoRepeats qs → one_of c qs ≡ false → HasNoRepeats (qs ++ c ∷ [])
unfolding one_of
HasNoRepeats-last c [] h n = (refl, tt)
HasNoRepeats-last c (q ∷ qs) (m, h) n =
    let (o, _) = All-differ c (q ∷ qs) n in
    (ground (arith, one_of-append q qs (c ∷ [])), HasNoRepeats-last c qs h (ground arith))

one_of_out :
    (c : Str) (qs vs : List Str)
    → one_of c vs ≡ false
    → All (λ q. one_of q vs ≡ true) qs
    → one_of c qs ≡ false
one_of_out c qs vs n h = elim (Bool-cases (one_of c qs)) [
  | inr e ↦ e
  | inl e ↦ let m = All-get _ qs (one_of_sound c qs e) h in cc
]

more_visited :
    (c : Str) (vs qs : List Str)
    → All (λ q. one_of q vs ≡ true) qs
    → All (λ q. one_of q (c ∷ vs) ≡ true) qs
unfolding one_of
more_visited c vs qs h = All-weaken _ _ qs (λ q m. ground arith) h

AreOrderly-push :
    (c : Str) (us qs vs : List Str)
    → one_of c vs ≡ false
    → AreOrderly us qs vs
    → AreOrderly us (qs ++ c ∷ []) (c ∷ vs)
unfolding one_of
AreOrderly-push c us qs vs n (once, unseen, queued, shown) = (
  HasNoRepeats-last c qs once (one_of_out c qs vs n queued),
  All-append _ qs (c ∷ []) unseen (one_of_out c us vs n shown, tt),
  All-append _ qs (c ∷ []) (more_visited c vs qs queued) (ground (arith, eqb_refl c), tt),
  more_visited c vs us shown,
)

pub AreOrderly-pop :
    (q : Str) (us qs vs : List Str) → AreOrderly us (q ∷ qs) vs → AreOrderly us qs vs
AreOrderly-pop q us qs vs ((m, once), (_, unseen), (_, queued), shown) =
    (once, unseen, queued, shown)

repeat_out : (q c : Str) (n : ℕ) → eqb q c ≡ false → one_of q (repeat n c) ≡ false
unfolding one_of
repeat_out q c zero h = refl
repeat_out q c (suc n) h = ground (arith, repeat_out q c n h)

All-repeat : (P : Str → Type 0) (c : Str) (n : ℕ) → P c → All P (repeat n c)
All-repeat P c zero h = tt
All-repeat P c (suc n) h = (h, All-repeat P c n h)

pub AreOrderly-shown :
    (n : ℕ) (q : Str) (us qs vs : List Str)
    → AreOrderly us (q ∷ qs) vs
    → AreOrderly (us ++ repeat n q) qs vs
AreOrderly-shown n q us qs vs ((m, once), (_, unseen), (v, queued), shown) = (
  once,
  All-of _ qs (λ c k.
      let a = All-get _ qs k unseen in
      let b = All-get _ qs k (All-differ q qs m) in
      one_of-append c us (repeat n q) ∙ ground (arith, repeat_out c q n b)),
  queued,
  All-append _ us (repeat n q) shown (All-repeat _ q n v),
)

abbrev pub item_url : Item → Str
item_url it = it.url

abbrev pub IsOrderly : CrawlState → Type 0
IsOrderly st = AreOrderly (map url_of st.pages) (map item_url st.queue) st.visited

pub map-append {ℓ ℓ'} :
    {A : Type ℓ} {B : Type ℓ'} (f : A → B) (xs ys : List A)
    → map f (xs ++ ys) ≡ map f xs ++ map f ys
map-append f [] ys = refl
map-append f (x ∷ xs) ys = ap (λ zs. f x ∷ zs) (map-append f xs ys)

pub Capture-cases :
    (c : Capture)
    → ((f : Str) × (ls : List Str) × (c ≡ captured f ls)) ⊎ (c ≡ failed) ⊎ (c ≡ stalled)
Capture-cases (captured f ls) = inl (f, ls, refl)
Capture-cases failed = inr (inl refl)
Capture-cases stalled = inr (inr refl)

module _ (w : World) where
  pub follow-IsOrderly :
      (depth : ℕ) (ls : List Str) (st : CrawlState)
      → IsOrderly st
      → IsOrderly (follow w depth ls st)
  follow-IsOrderly depth ls st h =
      follow_ind w IsOrderly depth ls st
        (λ l st m new o.
          let c = canonical_url w.net w.reprint l in
          subst (λ qs. AreOrderly (map url_of st.pages) qs (c ∷ st.visited))
            (sym (map-append item_url st.queue (record { url = c; depth = depth } ∷ [])))
            (AreOrderly-push c (map url_of st.pages) (map item_url st.queue) st.visited
              (ground arith) o))
        h

  -- Pages and links are as before, or there are more pages of the URL.
  abbrev pub HasShown : Str → Shots → Shots → Type 0
  HasShown url s s' =
      ((s'.pages ≡ s.pages) × (s'.links ≡ s.links))
      ⊎ ((n : ℕ) × (map url_of s'.pages ≡ map url_of s.pages ++ repeat (suc n) url))

  pub shoot_lem :
      (url : Str) (first : Bool) (vps : List Viewport) (s s' : Shots)
      → shoot w url first vps s ≡ inr s'
      → HasShown url s s'
  unfolding shoot
  shoot_lem url first [] s s' h =
      let same : s ≡ s' = cc h in inl (ap (λ s. s.pages) (sym same), ap (λ s. s.links) (sym same))
  shoot_lem url first (vp ∷ vps) s s' h = elim (Capture-cases (w.capture url vp first)) [
    | inr (inr e) ↦ absurd (cc (rw (e, shoot) at h))
    | inr (inl e) ↦ shoot_lem url false vps s s' (rw (e, shoot) at h)
    | inl (f, ls, e) ↦
        let s1 = shot w url vp first f ls s in
        let added =
          map-append url_of s.pages (record { url = url; viewport = vp; favicon_href = f } ∷ []) in
        elim (shoot_lem url false vps s1 s' (rw (e, shoot) at h)) [
          | inl (p, l) ↦ inr (0, ap (map url_of) p ∙ added)
          | inr (n, p) ↦ inr (
            suc n,
            p
                ∙ ap (λ us. us ++ repeat (suc n) url) added
                ∙ append_assoc (map url_of s.pages) (url ∷ []) (repeat (suc n) url),
          )
        ]
  ]
