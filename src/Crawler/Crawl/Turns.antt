-- ===== src/Crawler/Crawl/Turns.antt =====
-- internal/crawler/crawler.go: what one turn of Crawl's loop can be, and induction over the turns.
use auditloop.Base.{
  ℕ, zero, suc, ◌+◌, ◌≡◌, refl, ap, ◌⊎◌, inl, inr, true, false, none, List, [], ◌∷◌, Bool-cases,
  Option-cases, Str, is_some,
}
use mathlib.Core.List.{Memᴰ}
use mathlib.Core.Path.{subst}
use auditloop.Crawler.Guard.{check_url}
use auditloop.Crawler.Crawl.{
  World, CrawlState, Item, Shots, finished, viewports_of, canonical_url, after_shots, shoot, is_new,
  discover, follow, followed, with_shots, visit, is_full, crawl_loop,
}

pub List-cases {ℓ} :
    {A : Type ℓ} (xs : List A) → (xs ≡ []) ⊎ ((x : A) × (rest : List A) × (xs ≡ x ∷ rest))
List-cases [] = inl refl
List-cases (x ∷ rest) = inr (x, rest, refl)

pub sum-cases {ℓ ℓ'} :
    {A : Type ℓ} {B : Type ℓ'} (r : A ⊎ B) → ((a : A) × (r ≡ inl a)) ⊎ ((b : B) × (r ≡ inr b))
sum-cases (inl a) = inl (a, refl)
sum-cases (inr b) = inr (b, refl)

module _ (w : World) where
  abbrev pub popped : List Item → CrawlState → CrawlState
  popped rest st = record st { queue = rest }

  abbrev pub no_shots : CrawlState → Shots
  no_shots st = record { pages = st.pages; links = []; favicon_href = st.favicon_href }

  -- The turn of an item that the guard refuses.
  abbrev pub IsBlocked : Item → CrawlState → CrawlState → Type 0
  IsBlocked cur st next =
      (is_some (check_url w.net w.guard cur.url) ≡ true)
      × (next ≡ record st { urls_blocked = st.urls_blocked + 1 })

  -- The turn of one that it lets through.
  abbrev pub IsShot : Item → CrawlState → CrawlState → Type 0
  IsShot cur st next =
      (s : Shots) × (check_url w.net w.guard cur.url ≡ none)
      × (shoot w cur.url true (viewports_of w.opts.viewports) (no_shots st) ≡ inr s)
      × (next ≡ followed w cur s (with_shots w s st))

  after_shots_lem :
      (cur : Item) (st next : CrawlState) (r : Str ⊎ Shots)
      → after_shots w cur st r ≡ inr next
      → (s : Shots) × (r ≡ inr s) × (next ≡ followed w cur s (with_shots w s st))
  after_shots_lem cur st next (inl v) h = cc
  after_shots_lem cur st next (inr s) h = (s, refl, cc h)

  pub visit_lem :
      (cur : Item) (st next : CrawlState)
      → visit w cur st ≡ inr next
      → IsBlocked cur st next ⊎ IsShot cur st next
  unfolding visit
  visit_lem cur st next h = elim (Option-cases (check_url w.net w.guard cur.url)) [
    | inr (r, e) ↦
        let b : is_some (check_url w.net w.guard cur.url) ≡ true = ap is_some e in
        inl (b, cc (rw b at h))
    | inl e ↦
        let b : is_some (check_url w.net w.guard cur.url) ≡ false = ap is_some e in
        let (s, q, q') = after_shots_lem cur st next _ (rw b at h) in inr (s, e, q, q')
  ]

  -- What holds of links that are new holds after the loop over the links.
  pub follow_ind {ℓ} :
      (P : CrawlState → Type ℓ) (depth : ℕ) (ls : List Str) (st : CrawlState)
      → ((l : Str) (st : CrawlState)
          → Memᴰ l ls
          → is_new w (canonical_url w.net w.reprint l) st.visited ≡ true
          → P st
          → P (discover w (canonical_url w.net w.reprint l) depth st))
      → P st
      → P (follow w depth ls st)
  unfolding follow
  follow_ind P depth [] st step h = h
  follow_ind P depth (l ∷ ls) st step h =
      let c = canonical_url w.net w.reprint l in
      elim (Bool-cases (is_new w c st.visited)) [
        | inl e ↦ rw e (
            follow_ind P depth ls (discover w c depth st) (λ l' st' m. step l' st' (Memᴰ.tail m))
              (step l st (Memᴰ.head refl) e h))
        | inr e ↦ rw e (follow_ind P depth ls st (λ l' st' m. step l' st' (Memᴰ.tail m)) h)
      ]

  -- What every turn of an item keeps holds at the end.
  abbrev pub IsKept {ℓ} : (CrawlState → Type ℓ) → Type ℓ
  IsKept P =
      (cur : Item) (rest : List Item) (st next : CrawlState)
      → st.queue ≡ cur ∷ rest
      → is_full w st ≡ false
      → visit w cur (popped rest st) ≡ inr next
      → P st
      → P next

  pub crawl_ind {ℓ} :
      (P : CrawlState → Type ℓ)
      → IsKept P
      → (n : ℕ) (st last : CrawlState) → crawl_loop w n st ≡ finished last
      → P st
      → P last
  unfolding crawl_loop
  crawl_ind P kept zero st last h p = cc
  crawl_ind P kept (suc n) st last h p = elim (List-cases st.queue) [
    | inl e ↦ subst P (cc h) p
    | inr (cur, rest, e) ↦ elim (Bool-cases (is_full w st)) [
      | inl full ↦ subst P (cc (rw (e, full) at h)) p
      | inr open_yet ↦ elim (sum-cases (visit w cur (popped rest st))) [
        | inl (at, q) ↦ absurd (cc (rw (e, open_yet, q) at h))
        | inr (next, q) ↦
            crawl_ind P kept n next last (rw (e, open_yet, q) at h)
              (kept cur rest st next e open_yet q p)
      ]
    ]
  ]
