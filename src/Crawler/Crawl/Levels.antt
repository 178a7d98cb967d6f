-- ===== src/Crawler/Crawl/Levels.antt =====
-- internal/crawler/crawler.go: the levels of the breadth-first search, and what a turn leaves settled.
use auditloop.Base.{
  ℕ, suc, ◌≤◌, ◌<◌, ◌≡◌, refl, ap, ◌⊎◌, inl, inr, true, false, none, List, [], ◌∷◌, ◌++◌, map,
  arith, Str, is_empty, All, All-append, All-weaken,
}
use mathlib.Core.List.{Memᴰ}
use mathlib.Core.Logic.{⊎_elim}
use auditloop.Crawler.Guard.{check_url}
use auditloop.Crawler.Crawl.{
  World, CrawlState, Item, PageResult, Viewport, captured, depth_limit, viewports_of, canonical_url,
  host_allowed_in, discover,
}
use auditloop.Crawler.Crawl.Once.{item_url}
use auditloop.Crawler.Crawl.Reach.{IsLinkOf}
use auditloop.Crawler.Crawl.Loops.{IsShown}

mem_last {ℓ} : {A : Type ℓ} (x : A) (xs : List A) → Memᴰ x (xs ++ x ∷ [])
mem_last x [] = Memᴰ.head refl
mem_last x (y ∷ xs) = Memᴰ.tail (mem_last x xs)

mem_before {ℓ} : {A : Type ℓ} (x : A) (xs : List A) (y : A) → Memᴰ x xs → Memᴰ x (xs ++ y ∷ [])
mem_before x [] y m = elim m [ ]
mem_before x (z ∷ xs) y (Memᴰ.head e) = Memᴰ.head e
mem_before x (z ∷ xs) y (Memᴰ.tail m) = Memᴰ.tail (mem_before x xs y m)

-- Some discovered item has the URL, at that depth or before.
abbrev pub IsFound : List Item → ℕ → Str → Type 0
IsFound seen d url = (it : Item) × Memᴰ it seen × (it.url ≡ url) × (it.depth ≤ d)

module _ (w : World) where
  -- The browser captures the page at the first viewport.
  abbrev pub IsCapturable : Str → Type 0
  IsCapturable url =
      (vp : Viewport) × (vps : List Viewport) × (favicon : Str) × (ls : List Str) × (viewports_of
          w.opts.viewports
        ≡ vp ∷ vps)
      × (w.capture url vp true ≡ captured favicon ls)

  -- All that one turn should have done for the item.
  abbrev pub IsSettled : List Item → List PageResult → Item → Type 0
  IsSettled seen pages it =
      check_url w.net w.guard it.url ≡ none
      → (IsCapturable it.url → IsShown it.url pages)
        × ((l : Str)
            → it.depth < depth_limit w.opts.max_depth
            → IsLinkOf w it.url l
            → is_empty (canonical_url w.net w.reprint l) ≡ false
            → host_allowed_in w.net (canonical_url w.net w.reprint l) w.opts.allowed_hosts ≡ true
            → IsFound seen (suc it.depth) (canonical_url w.net w.reprint l))

  abbrev pub IsRising : List Item → Type 0
  IsRising [] = Unit {0}
  IsRising (it ∷ q) = All (λ (j : Item). it.depth ≤ j.depth) q × IsRising q

  -- The levels of the search: `seen` are the discovered items, all up to one level below the queue's.
  abbrev pub IsLevelled : ℕ → List Item → CrawlState → Type 0
  IsLevelled k seen st =
      (map item_url seen ≡ st.visited)
      × All (λ (it : Item). it.depth ≤ suc k) seen
      × IsRising st.queue
      × All (λ (it : Item). (k ≤ it.depth) × (it.depth ≤ suc k)) st.queue

  -- Only the items of `todo` may be neither settled nor in the queue.
  abbrev pub AllSettled : (Item → Type 0) → List Item → CrawlState → Type 0
  AllSettled todo seen st = All (λ it. Memᴰ it st.queue ⊎ todo it ⊎ IsSettled seen st.pages it) seen

  IsRising-last :
      (q : List Item) (it : Item)
      → IsRising q
      → All (λ (j : Item). j.depth ≤ it.depth) q
      → IsRising (q ++ it ∷ [])
  IsRising-last [] it h a = (tt, tt)
  IsRising-last (j ∷ q) it (h, hs) (a, as') =
      (All-append _ q (it ∷ []) h (a, tt), IsRising-last q it hs as')

  pub found_more :
      (it : Item) (seen : List Item) (d : ℕ) (url : Str)
      → IsFound seen d url
      → IsFound (it ∷ seen) d url
  found_more it seen d url (j, m, e, b) = (j, Memᴰ.tail m, e, b)

  settled_more :
      (new it : Item) (seen : List Item) (pages : List PageResult)
      → IsSettled seen pages it
      → IsSettled (new ∷ seen) pages it
  settled_more new it seen pages h ok =
      let (a, b) = h ok in (a, λ l d k f o. found_more new seen _ _ (b l d k f o))

  -- One discovery, at the level below.
  pub discover_lem :
      (todo : Item → Type 0) (c : Str) (k : ℕ) (seen : List Item) (st : CrawlState)
      → IsLevelled k seen st
      → AllSettled todo seen st
      → let it : Item = record { url = c; depth = suc k } in
        IsLevelled k (it ∷ seen) (discover w c (suc k) st)
        × AllSettled todo (it ∷ seen) (discover w c (suc k) st)
  discover_lem todo c k seen st (urls, below, rising, level) settled =
      let it : Item = record { url = c; depth = suc k } in
      (
        (
          ap (λ us. c ∷ us) urls,
          (omega arith, below),
          IsRising-last st.queue it rising (All-weaken _ _ st.queue (λ j h. h.1) level),
          All-append _ st.queue (it ∷ []) level ((omega arith, omega arith), tt),
        ),
        (
          inl (mem_last it st.queue),
          All-weaken _ _ seen
              (λ j.
                ⊎_elim (λ m. inl (mem_before j st.queue it m))
                  (⊎_elim (λ t. inr (inl t)) (λ s. inr (inr (settled_more it j seen st.pages s)))))
              settled,
        ),
      )
