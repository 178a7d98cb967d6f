-- ===== src/Crawler/Crawl/Reach.antt =====
-- internal/crawler/crawler.go: the pages that a crawl may come to.
use auditloop.Base.{
  ℕ, suc, ◌≤◌, ◌<◌, ◌≡◌, sym, ap, ◌∙◌, inl, inr, Bool, true, false, none, List, [], ◌∷◌, Str,
  is_empty, All, All-of, All-append,
}
use mathlib.Core.List.{Memᴰ}
use mathlib.Core.Path.{subst}
use auditloop.Crawler.Guard.{check_url}
use auditloop.Crawler.Crawl.{
  World, PageResult, Viewport, captured, CrawlState, Item, Shots, depth_limit, viewports_of,
  canonical_url, host_allowed_in, start, shot, shoot,
}
use auditloop.Crawler.Crawl.Once.{Capture-cases}

module _ (w : World) where
  -- The browser reports the link on the page, at the first viewport.
  abbrev pub IsLinkOf : Str → Str → Type 0
  IsLinkOf url l =
      (vp : Viewport) × (vps : List Viewport) × (favicon : Str) × (ls : List Str) × (viewports_of
          w.opts.viewports
        ≡ vp ∷ vps)
      × (w.capture url vp true ≡ captured favicon ls)
      × Memᴰ l ls

-- The URL is the start, or a link of one that the guard lets through leads to it: with an allowed
-- host, and no deeper than the depth limit.
pub data IsReachable (w : World) : ℕ → Str → Type 0 where
  at_start : IsReachable w 0 (start w)
  by_link :
      (d : ℕ) (url l : Str)
      → IsReachable w d url
      → check_url w.net w.guard url ≡ none
      → d < depth_limit w.opts.max_depth
      → IsLinkOf w url l
      → is_empty (canonical_url w.net w.reprint l) ≡ false
      → host_allowed_in w.net (canonical_url w.net w.reprint l) w.opts.allowed_hosts ≡ true
      → IsReachable w (suc d) (canonical_url w.net w.reprint l)

module _ (w : World) where
  abbrev pub IsWell : Item → Type 0
  IsWell it = IsReachable w it.depth it.url × (it.depth ≤ depth_limit w.opts.max_depth)

  abbrev pub IsSafePage : PageResult → Type 0
  IsSafePage p =
      (d : ℕ) × IsReachable w d p.url
      × (d ≤ depth_limit w.opts.max_depth)
      × (check_url w.net w.guard p.url ≡ none)

  abbrev pub IsSafe : CrawlState → Type 0
  IsSafe st = All IsWell st.queue × All IsSafePage st.pages

  -- What the later viewports leave of the links, and what all add to the pages.
  pub shoot_pages :
      (url : Str) (first : Bool) (vps : List Viewport) (s s' : Shots)
      → ((vp : Viewport) (f : Str)
          → IsSafePage (record { url = url; viewport = vp; favicon_href = f }))
      → shoot w url first vps s ≡ inr s'
      → All IsSafePage s.pages
      → All IsSafePage s'.pages
  unfolding shoot
  shoot_pages url first [] s s' safe h a =
      let same : s ≡ s' = cc h in subst (λ (s : Shots). All IsSafePage s.pages) same a
  shoot_pages url first (vp ∷ vps) s s' safe h a = elim (Capture-cases (w.capture url vp first)) [
    | inr (inr e) ↦ absurd (cc (rw (e, shoot) at h))
    | inr (inl e) ↦ shoot_pages url false vps s s' safe (rw (e, shoot) at h) a
    | inl (f, ls, e) ↦
        shoot_pages url false vps (shot w url vp first f ls s) s' safe (rw (e, shoot) at h)
          (All-append IsSafePage s.pages _ a (safe vp f, tt))
  ]

  pub later_links :
      (url : Str) (vps : List Viewport) (s s' : Shots)
      → shoot w url false vps s ≡ inr s'
      → s'.links ≡ s.links
  unfolding shoot
  later_links url [] s s' h = let same : s ≡ s' = cc h in ap (λ (s : Shots). s.links) (sym same)
  later_links url (vp ∷ vps) s s' h = elim (Capture-cases (w.capture url vp false)) [
    | inr (inr e) ↦ absurd (cc (rw (e, shoot) at h))
    | inr (inl e) ↦ later_links url vps s s' (rw (e, shoot) at h)
    | inl (f, ls, e) ↦ later_links url vps (shot w url vp false f ls s) s' (rw (e, shoot) at h)
  ]

  pub shoot_links :
      (url : Str) (vp : Viewport) (vps : List Viewport) (s s' : Shots)
      → viewports_of w.opts.viewports ≡ vp ∷ vps
      → shoot w url true (vp ∷ vps) s ≡ inr s'
      → s.links ≡ []
      → All (IsLinkOf w url) s'.links
  unfolding shoot
  shoot_links url vp vps s s' v h n = elim (Capture-cases (w.capture url vp true)) [
    | inr (inr e) ↦ absurd (cc (rw (e, shoot) at h))
    | inr (inl e) ↦
        subst (All (IsLinkOf w url)) (sym (later_links url vps s s' (rw (e, shoot) at h) ∙ n)) tt
    | inl (f, ls, e) ↦
        subst (All (IsLinkOf w url))
          (sym (later_links url vps (shot w url vp true f ls s) s' (rw (e, shoot) at h)))
          (All-of (IsLinkOf w url) ls (λ l m. (vp, vps, f, ls, v, e, m)))
  ]
