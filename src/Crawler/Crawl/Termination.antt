-- ===== src/Crawler/Crawl/Termination.antt =====
-- internal/crawler/crawler.go: Crawl's loop comes to an end.
use auditloop.Base.{
  ℕ, zero, suc, ◌+◌, ◌≤◌, ◌≡◌, ◌≢◌, refl, sym, ap, ◌∙◌, ◌⊎◌, inl, inr, true, false, List, [], ◌∷◌,
  ◌++◌, map, arith, ltb, Bool-cases, Str, length, one_of, eqb_refl,
}
use mathlib.Core.Path.{subst}
use auditloop.Crawler.Crawl.{
  World, PageResult, CrawlState, Item, Shots, out_of_fuel, url_of, count_crawled, distinct,
  page_limit, depth_limit, viewports_of, follow, followed, with_shots, visit, is_full, crawl_loop,
  initial, crawl, start,
}
use auditloop.Crawler.Crawl.Count.{repeat, distinct_more}
use auditloop.Crawler.Crawl.Turns.{popped, no_shots, visit_lem, follow_ind, List-cases, sum-cases}
use auditloop.Crawler.Crawl.Once.{
  AreOrderly, AreOrderly-pop, AreOrderly-shown, IsOrderly, item_url, follow-IsOrderly, HasShown,
  shoot_lem,
}

-- One more page is crawled, or the queue got shorter.
abbrev pub HasProgress : List Item → CrawlState → CrawlState → Type 0
HasProgress rest st next =
    (count_crawled next.pages ≡ suc (count_crawled st.pages))
    ⊎ ((count_crawled next.pages ≡ count_crawled st.pages) × (next.queue ≡ rest))

suc_of : (n m : ℕ) → suc n ≤ m → (k : ℕ) × (m ≡ suc k) × (n ≤ k)
suc_of n zero h = absurd (omega arith)
suc_of n (suc k) h = (k, refl, omega arith)

positive : (n : ℕ) → suc n ≢ 0
positive n h = omega arith

crawled_more :
    (n : ℕ) (url : Str) (before after : List PageResult)
    → one_of url (map url_of before) ≡ false
    → map url_of after ≡ map url_of before ++ repeat (suc n) url
    → count_crawled after ≡ suc (count_crawled before)
unfolding count_crawled
crawled_more n url before after h p =
    ap (λ us. length (distinct us)) p ∙ distinct_more n url (map url_of before) h

module _ (w : World) where
  follow_pages :
      (depth : ℕ) (ls : List Str) (st : CrawlState) → (follow w depth ls st).pages ≡ st.pages
  follow_pages depth ls st =
      follow_ind w (λ st'. st'.pages ≡ st.pages) depth ls st (λ l st' m n e. e) refl

  pub followed_pages :
      (cur : Item) (s : Shots) (st : CrawlState) → (followed w cur s st).pages ≡ st.pages
  followed_pages cur s st = elim (Bool-cases (ltb cur.depth (depth_limit w.opts.max_depth))) [
    | inl e ↦ rw e (follow_pages (suc cur.depth) s.links st)
    | inr e ↦ rw e refl
  ]

  followed-IsOrderly :
      (cur : Item) (s : Shots) (st : CrawlState) → IsOrderly st → IsOrderly (followed w cur s st)
  followed-IsOrderly cur s st h = elim (Bool-cases (ltb cur.depth (depth_limit w.opts.max_depth))) [
    | inl e ↦ rw e (follow-IsOrderly w (suc cur.depth) s.links st h)
    | inr e ↦ rw e h
  ]

  followed_nowhere :
      (cur : Item) (s : Shots) (st : CrawlState) → s.links ≡ [] → followed w cur s st ≡ st
  unfolding follow
  followed_nowhere cur s st h = elim (Bool-cases (ltb cur.depth (depth_limit w.opts.max_depth))) [
    | inl e ↦ rw (e, h) refl
    | inr e ↦ rw e refl
  ]

  module _ (cur : Item) (rest : List Item) (st : CrawlState)
      (o : AreOrderly (map url_of st.pages) (cur.url ∷ map item_url rest) st.visited) where
    shot_turn :
        (s : Shots)
        → HasShown w cur.url (no_shots w (popped w rest st)) s
        → let next = followed w cur s (with_shots w s (popped w rest st)) in
          IsOrderly next × HasProgress rest st next
    shot_turn s (inl (p, l)) =
        let there = with_shots w s (popped w rest st) in
        let same = ap count_crawled (followed_pages cur s there ∙ p) in
        (
          followed-IsOrderly cur s there (
              subst (λ ps. AreOrderly (map url_of ps) (map item_url rest) st.visited) (sym p)
                (AreOrderly-pop cur.url _ (map item_url rest) st.visited o)),
          inr (same, ap (λ st. st.queue) (followed_nowhere cur s there l)),
        )
    shot_turn s (inr (n, p)) =
        let (_, (unseen, _), _, _) = o in
        let there = with_shots w s (popped w rest st) in
        (
          followed-IsOrderly cur s there (
              subst (λ us. AreOrderly us (map item_url rest) st.visited) (sym p)
                (AreOrderly-shown (suc n) cur.url _ (map item_url rest) st.visited o)),
          inl (
              ap count_crawled (followed_pages cur s there)
              ∙ crawled_more n cur.url st.pages s.pages unseen p),
        )

    pub turn :
        (next : CrawlState)
        → visit w cur (popped w rest st) ≡ inr next
        → IsOrderly next × HasProgress rest st next
    turn next h = elim (visit_lem w cur (popped w rest st) next h) [
      | inl (_, e) ↦
          subst (λ next. IsOrderly next × HasProgress rest st next) (sym e)
            (AreOrderly-pop cur.url _ (map item_url rest) st.visited o, inr (refl, refl))
      | inr (s, _, q, e) ↦
          subst (λ next. IsOrderly next × HasProgress rest st next) (sym e)
            (shot_turn s (shoot_lem w cur.url true (viewports_of w.opts.viewports) _ s q))
    ]

  -- A fuel with which, and with any larger one, the loop ends.
  abbrev pub Ends : CrawlState → Type 0
  Ends st = (n : ℕ) × ((m : ℕ) → n ≤ m → crawl_loop w m st ≢ out_of_fuel)

  -- A turn more than what the rest needs.
  ends_suc :
      (n : ℕ) (st : CrawlState)
      → ((m : ℕ) → n ≤ m → crawl_loop w (suc m) st ≢ out_of_fuel)
      → Ends st
  ends_suc n st f = (
    suc n,
    λ m l.
        let (k, e, h) = suc_of n m l in
        subst (λ m. crawl_loop w m st ≢ out_of_fuel) (sym e) (f k h),
  )

  ends_empty : (st : CrawlState) → st.queue ≡ [] → Ends st
  unfolding crawl_loop
  ends_empty st q = ends_suc 0 st (λ m l e. cc (rw q at e))

  ends_full : (st : CrawlState) → is_full w st ≡ true → Ends st
  unfolding crawl_loop
  ends_full st full = elim (List-cases st.queue) [
    | inl q ↦ ends_empty st q
    | inr (cur, rest, q) ↦ ends_suc 0 st (λ m l e. cc (rw (q, full) at e))
  ]

  ends_after :
      (cur : Item) (rest : List Item) (st : CrawlState)
      → st.queue ≡ cur ∷ rest
      → is_full w st ≡ false
      → ((next : CrawlState) → visit w cur (popped w rest st) ≡ inr next → Ends next)
      → Ends st
  unfolding crawl_loop
  ends_after cur rest st q open_yet later = elim (sum-cases (visit w cur (popped w rest st))) [
    | inl (at, v) ↦ ends_suc 0 st (λ m l e. cc (rw (q, open_yet, v) at e))
    | inr (next, v) ↦
        let (n, f) = later next v in ends_suc n st (λ m l e. f m l (rw (q, open_yet, v) at e))
  ]

  abbrev pub HasRoom : ℕ → CrawlState → Type 0
  HasRoom room st = count_crawled st.pages + room ≡ page_limit w.opts.max_pages

  ends_with :
      (room : ℕ)
      → ((st : CrawlState) → HasRoom room st → IsOrderly st → Ends st)
      → (len : ℕ) (st : CrawlState) → HasRoom (suc room) st
      → length st.queue ≡ len
      → IsOrderly st
      → Ends st
  ends_with room fewer zero st r l o = elim (List-cases st.queue) [
    | inl q ↦ ends_empty st q
    | inr (cur, rest, q) ↦ absurd (positive (length rest) (rw q at l))
  ]
  ends_with room fewer (suc len) st r l o = elim (Bool-cases (is_full w st)) [
    | inl full ↦ ends_full st full
    | inr open_yet ↦ elim (List-cases st.queue) [
      | inl q ↦ ends_empty st q
      | inr (cur, rest, q) ↦
          let o' : AreOrderly (map url_of st.pages) (cur.url ∷ map item_url rest) st.visited =
            rw q at o in
          let l' : suc (length rest) ≡ suc len = rw q at l in
          ends_after cur rest st q open_yet λ next v.
            let (on, progress) = turn cur rest st o' next v in
            elim progress [
              | inl p ↦ fewer next (rw p (omega arith)) on
              | inr (p, q') ↦ ends_with room fewer len next (rw p r) (ap length q' ∙ omega arith) on
            ]
    ]
  ]

  ends : (room : ℕ) (st : CrawlState) → HasRoom room st → IsOrderly st → Ends st
  ends zero st r o = ends_full st (ground arith)
  ends (suc room) st r o = ends_with room (ends room) (length st.queue) st r refl o

  pub start-IsOrderly : IsOrderly (initial w)
  unfolding one_of
  start-IsOrderly = ((refl, tt), (refl, tt), (ground (arith, eqb_refl (start w)), tt), tt)

  start-HasRoom : HasRoom (page_limit w.opts.max_pages) (initial w)
  unfolding count_crawled distinct
  start-HasRoom = omega arith

-- Crawl's loop comes to an end, whatever the site holds: for all options, however the browser answers
-- at each page and however many links it reports, there is a number of turns after which the queue
-- is empty, the page limit reached or the browser stalled.
pub crawl_ends : (w : World) → (n : ℕ) × ((m : ℕ) → n ≤ m → crawl w m ≢ out_of_fuel)
unfolding crawl
crawl_ends w =
    ends w (page_limit w.opts.max_pages) (initial w) (start-HasRoom w) (start-IsOrderly w)
