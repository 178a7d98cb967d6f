-- ===== src/Crawler/Crawl/Settle.antt =====
-- internal/crawler/crawler.go: a turn settles the item it takes from the queue.
use auditloop.Base.{
  ℕ, suc, ◌≤◌, ◌≡◌, refl, sym, ◌⊎◌, inl, inr, true, false, List, [], ◌∷◌, map, arith, ltb,
  Bool-cases, Str, eqb, eqb_iff, one_of, All, All-of, All-get, All-weaken,
}
use mathlib.Core.List.{Memᴰ}
use mathlib.Core.Logic.{⊎_elim}
use mathlib.Core.Path.{subst}
use auditloop.Crawler.Crawl.{
  World, CrawlState, Item, PageResult, Shots, depth_limit, viewports_of, canonical_url, shoot,
  follow, followed, with_shots, start,
}
use auditloop.Crawler.Crawl.Turns.{popped, no_shots, follow_ind}
use auditloop.Crawler.Crawl.Once.{item_url}
use auditloop.Crawler.Crawl.Reach.{IsLinkOf}
use auditloop.Crawler.Crawl.Loops.{IsShown, follow_visits, shoot_exact, shoot_keeps_pages}
use auditloop.Crawler.Crawl.Levels.{
  IsFound, IsCapturable, IsSettled, IsRising, IsLevelled, AllSettled, found_more, discover_lem,
}

find_url :
    (c : Str) (seen : List Item)
    → one_of c (map item_url seen) ≡ true
    → (it : Item) × Memᴰ it seen × (it.url ≡ c)
unfolding one_of
find_url c [] h = cc
find_url c (it ∷ seen) h = elim (Bool-cases (eqb c it.url)) [
  | inl e ↦ (it, Memᴰ.head refl, sym ((eqb_iff c it.url).0 e))
  | inr e ↦ let (j, m, q) = find_url c seen (ground arith) in (j, Memᴰ.tail m, q)
]

module _ (w : World) where
  -- The search so far: what is still in the queue, and what is settled.
  abbrev pub IsSearched : (Item → Type 0) → ℕ → CrawlState → Type 0
  IsSearched todo k st =
      (seen : List Item) × IsLevelled w k seen st
      × AllSettled w todo seen st
      × IsFound seen 0 (start w)

  abbrev pub IsCurrent : Item → Item → Type 0
  IsCurrent cur it = it ≡ cur

  queued :
      (seen : List Item) (cur : Item) (rest : List Item) (pages : List PageResult) (it : Item)
      → Memᴰ it (cur ∷ rest)
      → Memᴰ it rest ⊎ IsCurrent cur it ⊎ IsSettled w seen pages it
  queued seen cur rest pages it (Memᴰ.head e) = inr (inl e)
  queued seen cur rest pages it (Memᴰ.tail m) = inl m

  pub pop_lem :
      (k : ℕ) (cur : Item) (rest : List Item) (st : CrawlState)
      → st.queue ≡ cur ∷ rest
      → IsSearched (λ it. ⊥) k st
      → IsSearched (IsCurrent cur) cur.depth (popped w rest st)
  pop_lem k cur rest st q (seen, (urls, below, rising, level), settled, found) =
      let rising' : IsRising w (cur ∷ rest) = rw q at rising in
      let level' : All (λ (it : Item). (k ≤ it.depth) × (it.depth ≤ suc k)) (cur ∷ rest) =
        rw q at level in
      let ((low, high), others) = level' in
      (
        seen,
        (
          urls,
          All-weaken _ _ seen (λ it h. omega arith) below,
          rising'.1,
          All-of _ rest (λ j m.
              let (_, top) = All-get _ rest m others in (All-get _ rest m rising'.0, omega arith)),
        ),
        All-weaken _ _ seen
            (λ it.
              ⊎_elim (λ m. queued seen cur rest st.pages it (subst (λ q. Memᴰ it q) q m))
                (⊎_elim (λ no. absurd no) (λ s. inr (inr s))))
            settled,
        found,
      )

  -- Nothing is left to do for the item once it is settled.
  pub settle :
      (k : ℕ) (cur : Item) (seen : List Item) (st : CrawlState)
      → IsLevelled w k seen st
      → AllSettled w (IsCurrent cur) seen st
      → IsFound seen 0 (start w)
      → IsSettled w seen st.pages cur
      → IsSearched (λ it. ⊥) k st
  settle k cur seen st levels settled found done = (
    seen,
    levels,
    All-weaken _ _ seen
        (λ it. ⊎_elim inl (
          ⊎_elim (λ e. inr (inr (subst (IsSettled w seen st.pages) (sym e) done)))
            (λ s. inr (inr s))))
        settled,
    found,
  )

  module _ (cur : Item) (st : CrawlState) (s : Shots)
      (h : shoot w cur.url true (viewports_of w.opts.viewports) (no_shots w st) ≡ inr s) where
    more_pages :
        (todo : Item → Type 0) (seen : List Item)
        → AllSettled w todo seen st
        → AllSettled w todo seen (with_shots w s st)
    more_pages todo seen settled =
        All-weaken _ _ seen
          (λ it. ⊎_elim inl (
            ⊎_elim (λ t. inr (inl t))
              (λ done. inr (
                inr λ ok.
                  let (a, b) = done ok in
                  (
                    (λ c.
                        shoot_keeps_pages w it.url cur.url (viewports_of w.opts.viewports)
                          (no_shots w st) s h (a c)),
                    b,
                  )))))
          settled

    shown : IsCapturable w cur.url → IsShown cur.url s.pages
    shown (vp, vps, favicon, ls, v, e) =
        (shoot_exact w cur.url favicon ls vp vps (no_shots w st) s e (rw v at h)).0

    all_links : (l : Str) → IsLinkOf w cur.url l → Memᴰ l s.links
    all_links l (vp, vps, favicon, ls, v, e, m) =
        subst (Memᴰ l)
          (sym (shoot_exact w cur.url favicon ls vp vps (no_shots w st) s e (rw v at h)).1) m

    -- What the loop over the links keeps.
    abbrev KeepsOn : CrawlState → Type 0
    KeepsOn st' =
        ((seen : List Item) × IsLevelled w cur.depth seen st'
          × AllSettled w (IsCurrent cur) seen st'
          × IsFound seen 0 (start w))
        × (st'.pages ≡ s.pages)

    links_lem :
        IsSearched (IsCurrent cur) cur.depth st
        → KeepsOn (follow w (suc cur.depth) s.links (with_shots w s st))
    links_lem (seen, levels, settled, found) =
        follow_ind w KeepsOn (suc cur.depth) s.links (with_shots w s st)
          (λ l st' m new ((seen', levels', settled', found'), p).
            let c = canonical_url w.net w.reprint l in
            let (a, b) = discover_lem w (IsCurrent cur) c cur.depth seen' st' levels' settled' in
            (
              (
                record { url = c; depth = suc cur.depth } ∷ seen',
                a,
                b,
                found_more w _ seen' 0 (start w) found',
              ),
              p,
            ))
          ((seen, levels, more_pages (IsCurrent cur) seen settled, found), refl)

    deep_lem :
        IsSearched (IsCurrent cur) cur.depth st
        → IsSearched (λ it. ⊥) cur.depth (follow w (suc cur.depth) s.links (with_shots w s st))
    deep_lem searched =
        let next = follow w (suc cur.depth) s.links (with_shots w s st) in
        let ((seen, levels, settled, found), p) = links_lem searched in
        let (urls, below, _, _) = levels in
        settle cur.depth cur seen next levels settled found λ ok. (
          λ c. subst (IsShown cur.url) (sym p) (shown c),
          λ l d link filled allowed.
              let visited =
                follow_visits w l (suc cur.depth) s.links (with_shots w s st) (all_links l link)
                  filled allowed in
              let (it, m, e) = find_url (canonical_url w.net w.reprint l) seen (
                subst (λ us. one_of (canonical_url w.net w.reprint l) us ≡ true) (sym urls)
                  visited) in
              (it, m, e, All-get _ seen m below),
        )

    flat_lem :
        ltb cur.depth (depth_limit w.opts.max_depth) ≡ false
        → IsSearched (IsCurrent cur) cur.depth st
        → IsSearched (λ it. ⊥) cur.depth (with_shots w s st)
    flat_lem flat (seen, levels, settled, found) =
        settle cur.depth cur seen (with_shots w s st) levels
          (more_pages (IsCurrent cur) seen settled) found
          λ ok. (shown, λ l d. absurd (ground arith))

    pub shot_lem :
        IsSearched (IsCurrent cur) cur.depth st
        → IsSearched (λ it. ⊥) cur.depth (followed w cur s (with_shots w s st))
    shot_lem searched = elim (Bool-cases (ltb cur.depth (depth_limit w.opts.max_depth))) [
      | inl e ↦ rw e (deep_lem searched)
      | inr e ↦ rw e (flat_lem e searched)
    ]

  abbrev pub IsThorough : CrawlState → Type 0
  IsThorough st = (k : ℕ) × IsSearched (λ it. ⊥) k st
