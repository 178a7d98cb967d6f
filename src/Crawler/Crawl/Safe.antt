-- ===== src/Crawler/Crawl/Safe.antt =====
-- internal/crawler/crawler.go: every page of a crawl passed the guard and is within reach.
use auditloop.Base.{
  ℕ, suc, ◌<◌, ◌≡◌, refl, sym, inl, inr, true, none, List, [], ◌∷◌, arith, ltb, Bool-cases, Str,
  All, All-get, All-append,
}
use mathlib.Core.Path.{subst}
use auditloop.Crawler.Guard.{check_url}
use auditloop.Crawler.Crawl.{
  World, Viewport, CrawlState, Item, Shots, finished, depth_limit, viewports_of, shoot, follow,
  followed, with_shots, initial, crawl,
}
use auditloop.Crawler.Crawl.Turns.{popped, no_shots, visit_lem, follow_ind, IsKept, crawl_ind}
use auditloop.Crawler.Crawl.Reach.{
  IsReachable, at_start, by_link, IsLinkOf, IsWell, IsSafePage, IsSafe, shoot_pages, shoot_links,
}

viewports_head :
    (vps : List Viewport)
    → (vp : Viewport) × (rest : List Viewport) × (viewports_of vps ≡ vp ∷ rest)
unfolding viewports_of
viewports_head [] = (_, _, refl)
viewports_head (vp ∷ vps) = (vp, vps, refl)

module _ (w : World) where
  follow-IsSafe :
      (cur : Item) (ls : List Str) (st : CrawlState)
      → IsReachable w cur.depth cur.url
      → check_url w.net w.guard cur.url ≡ none
      → cur.depth < depth_limit w.opts.max_depth
      → All (IsLinkOf w cur.url) ls
      → IsSafe w st
      → IsSafe w (follow w (suc cur.depth) ls st)
  follow-IsSafe cur ls st reach ok deeper links safe =
      follow_ind w (IsSafe w) (suc cur.depth) ls st
        (λ l st' m new (q, p). (
          All-append (IsWell w) st'.queue _ q (
            (
              by_link cur.depth cur.url l reach ok deeper (All-get (IsLinkOf w cur.url) ls m links)
                  (ground arith) (ground arith),
              omega arith,
            ),
            tt,
          ),
          p,
        ))
        safe

  shot-IsSafe :
      (cur : Item) (st : CrawlState) (s : Shots)
      → IsWell w cur
      → check_url w.net w.guard cur.url ≡ none
      → shoot w cur.url true (viewports_of w.opts.viewports) (no_shots w st) ≡ inr s
      → IsSafe w st
      → IsSafe w (followed w cur s (with_shots w s st))
  shot-IsSafe cur st s (reach, deep) ok h (q, p) =
      let p' =
        shoot_pages w cur.url true (viewports_of w.opts.viewports) (no_shots w st) s
          (λ vp f. (cur.depth, reach, deep, ok)) h p in
      let (vp, vps, v) = viewports_head w.opts.viewports in
      let links = shoot_links w cur.url vp vps (no_shots w st) s v (rw v at h) refl in
      elim (Bool-cases (ltb cur.depth (depth_limit w.opts.max_depth))) [
        | inl e ↦
            rw e
              (follow-IsSafe cur s.links (with_shots w s st) reach ok (ground arith) links (q, p'))
        | inr e ↦ rw e (q, p')
      ]

  IsSafe-kept : IsKept w (IsSafe w)
  IsSafe-kept cur rest st next q open_yet v (queue, pages) =
      let all_well : All (IsWell w) (cur ∷ rest) = rw q at queue in
      let (here, later) = all_well in
      elim (visit_lem w cur (popped w rest st) next v) [
        | inl (_, e) ↦ subst (IsSafe w) (sym e) (later, pages)
        | inr (s, ok, h, e) ↦
            subst (IsSafe w) (sym e) (shot-IsSafe cur (popped w rest st) s here ok h (later, pages))
      ]

-- Every page of a crawl that ends passed the guard, and comes from the start by at most as many links
-- as the depth limit: each is a link that the browser reported, at the first viewport, on a page that
-- passed the guard, and its canonical URL has an allowed host.
pub crawl-IsSafe :
    (w : World) (n : ℕ) (last : CrawlState)
    → crawl w n ≡ finished last
    → All (IsSafePage w) last.pages
unfolding crawl
crawl-IsSafe w n last h =
    (crawl_ind w (IsSafe w) (IsSafe-kept w) n (initial w) last h
      (((at_start, omega arith), tt), tt)).1
