-- ===== src/Crawler/Crawl/Bounds.antt =====
-- internal/crawler/crawler.go: the counters of a crawl and the page limit.
use auditloop.Base.{
  ℕ, suc, ◌+◌, ◌≤◌, ◌≡◌, refl, sym, ap, inl, inr, List, [], ◌∷◌, ◌++◌, map, arith, ltb, Bool-cases,
  Str, length,
}
use mathlib.Core.Path.{subst}
use auditloop.Crawler.Crawl.{
  World, CrawlState, Item, Shots, finished, url_of, count_crawled, distinct, page_limit,
  depth_limit, canonical_url, follow, followed, with_shots, visit, initial, crawl,
}
use auditloop.Crawler.Crawl.Turns.{popped, visit_lem, follow_ind, IsKept, crawl_ind}
use auditloop.Crawler.Crawl.Once.{AreOrderly, IsOrderly, item_url}
use auditloop.Crawler.Crawl.Termination.{HasProgress, turn, start-IsOrderly}

-- Every discovered URL is in the queue, blocked, crawled, or gone with a failed capture.
abbrev pub AreCounted : CrawlState → Type 0
AreCounted st = count_crawled st.pages + st.urls_blocked + length st.queue ≤ st.urls_discovered

-- Queue and counter grow alike, and nothing is blocked.
abbrev pub GrewAlike : CrawlState → CrawlState → Type 0
GrewAlike st next =
    (length next.queue + st.urls_discovered ≡ length st.queue + next.urls_discovered)
    × (next.urls_blocked ≡ st.urls_blocked)

length_last {ℓ} : {A : Type ℓ} (xs : List A) (x : A) → length (xs ++ x ∷ []) ≡ length xs + 1
length_last [] x = refl
length_last (y ∷ xs) x = ground (arith, length_last xs x)

module _ (w : World) where
  follow-GrewAlike :
      (depth : ℕ) (ls : List Str) (st : CrawlState) → GrewAlike st (follow w depth ls st)
  follow-GrewAlike depth ls st =
      follow_ind w (GrewAlike st) depth ls st
        (λ l st' m new (a, b).
          let one =
            length_last st'.queue
              (record { url = canonical_url w.net w.reprint l; depth = depth }) in
          (ground arith, b))
        (refl, refl)

  followed-GrewAlike :
      (cur : Item) (s : Shots) (st : CrawlState) → GrewAlike st (followed w cur s st)
  followed-GrewAlike cur s st = elim (Bool-cases (ltb cur.depth (depth_limit w.opts.max_depth))) [
    | inl e ↦ rw e (follow-GrewAlike (suc cur.depth) s.links st)
    | inr e ↦ rw e (refl, refl)
  ]

  abbrev pub IsWithin : CrawlState → Type 0
  IsWithin st =
      IsOrderly st × (count_crawled st.pages ≤ page_limit w.opts.max_pages) × AreCounted st

  turn-AreCounted :
      (cur : Item) (rest : List Item) (st next : CrawlState)
      → st.queue ≡ cur ∷ rest
      → visit w cur (popped w rest st) ≡ inr next
      → HasProgress rest st next
      → AreCounted st
      → AreCounted next
  turn-AreCounted cur rest st next q v progress counted =
      let shorter : suc (length rest) ≡ length st.queue = sym (ap length q) in
      elim (visit_lem w cur (popped w rest st) next v) [
        | inl (_, e) ↦ subst AreCounted (sym e) (omega arith)
        | inr (s, _, _, e) ↦
            let (grew, same) = followed-GrewAlike cur s (with_shots w s (popped w rest st)) in
            let grew' : length next.queue + st.urls_discovered
                ≡ length rest + next.urls_discovered =
              subst
                (λ (n : CrawlState).
                  length n.queue + st.urls_discovered ≡ length rest + n.urls_discovered)
                (sym e) grew in
            let same' : next.urls_blocked ≡ st.urls_blocked =
              subst (λ (n : CrawlState). n.urls_blocked ≡ st.urls_blocked) (sym e) same in
            elim progress [ inl p ↦ omega arith | inr (p, _) ↦ omega arith ]
      ]

  kept : IsKept w IsWithin
  kept cur rest st next q open_yet v (o, room, counted) =
      let o' : AreOrderly (map url_of st.pages) (cur.url ∷ map item_url rest) st.visited =
        rw q at o in
      let (on, progress) = turn w cur rest st o' next v in
      let below : suc (count_crawled st.pages) ≤ page_limit w.opts.max_pages = ground arith in
      (
        on,
        elim progress [ inl p ↦ omega arith | inr (p, _) ↦ omega arith ],
        turn-AreCounted cur rest st next q v progress counted,
      )

  start-IsWithin : IsWithin (initial w)
  unfolding count_crawled distinct
  start-IsWithin = (start-IsOrderly w, omega arith, omega arith)

-- A crawl that ends gives at most the limit of distinct pages, 50 unless a positive number is set; the
-- crawled pages, the blocked URLs and those still in the queue are together at most the URLs that
-- count as discovered; and the queue names no URL twice and none that is crawled.
pub crawl-IsWithin :
    (w : World) (n : ℕ) (last : CrawlState) → crawl w n ≡ finished last → IsWithin w last
unfolding crawl
crawl-IsWithin w n last h =
    crawl_ind w (IsWithin w) (kept w) n (initial w) last h (start-IsWithin w)
