-- ===== src/Crawler/Crawl/Stalls.antt =====
-- internal/crawler/crawler.go: the error of a crawl whose browser has stalled.
use auditloop.Base.{
  ℕ, zero, suc, ◌≡◌, refl, ap, ◌⊎◌, inl, inr, Bool, true, false, none, List, [], ◌∷◌, Bool-cases,
  Option-cases, Str, is_some,
}
use mathlib.Core.List.{Memᴰ}
use mathlib.Core.Path.{subst}
use auditloop.Crawler.Guard.{check_url}
use auditloop.Crawler.Crawl.{
  World, CrawlState, Item, Viewport, Shots, stalled, stalled_at, viewports_of, shoot, shot,
  after_shots, visit, is_full, crawl_loop, initial, crawl,
}
use auditloop.Crawler.Crawl.Turns.{popped, no_shots, List-cases, sum-cases}
use auditloop.Crawler.Crawl.Once.{Capture-cases}

module _ (w : World) where
  -- The browser stalls on the page at a viewport of that name.
  abbrev pub StallsAt : Str → List Viewport → Str → Type 0
  StallsAt url vps name =
      (vp : Viewport) × (first : Bool) × Memᴰ vp vps
      × (vp.name ≡ name)
      × (w.capture url vp first ≡ stalled)

  later_viewport :
      (url : Str) (vp : Viewport) (vps : List Viewport) (name : Str)
      → StallsAt url vps name
      → StallsAt url (vp ∷ vps) name
  later_viewport url vp vps name (v, first, m, n, e) = (v, first, Memᴰ.tail m, n, e)

  shoot-StallsAt :
      (url : Str) (first : Bool) (vps : List Viewport) (s : Shots) (name : Str)
      → shoot w url first vps s ≡ inl name
      → StallsAt url vps name
  unfolding shoot
  shoot-StallsAt url first [] s name h = cc
  shoot-StallsAt url first (vp ∷ vps) s name h = elim (Capture-cases (w.capture url vp first)) [
    | inr (inr e) ↦ (vp, first, Memᴰ.head refl, cc (rw (e, shoot) at h), e)
    | inr (inl e) ↦
        later_viewport url vp vps name (shoot-StallsAt url false vps s name (rw (e, shoot) at h))
    | inl (f, ls, e) ↦
        later_viewport url vp vps name
          (shoot-StallsAt url false vps (shot w url vp first f ls s) name (rw (e, shoot) at h))
  ]

  abbrev pub IsStall : Str → Str → Type 0
  IsStall url name =
      (check_url w.net w.guard url ≡ none) × StallsAt url (viewports_of w.opts.viewports) name

  after_shots_stall :
      (cur : Item) (st : CrawlState) (r : Str ⊎ Shots) (url name : Str)
      → after_shots w cur st r ≡ inl (url, name)
      → (cur.url ≡ url) × (r ≡ inl name)
  after_shots_stall cur st (inl v) url name h = (cc h, cc h)
  after_shots_stall cur st (inr s) url name h = cc

  visit-IsStall :
      (cur : Item) (st : CrawlState) (url name : Str)
      → visit w cur st ≡ inl (url, name)
      → IsStall url name
  unfolding visit
  visit-IsStall cur st url name h = elim (Option-cases (check_url w.net w.guard cur.url)) [
    | inr (r, e) ↦
        let b : is_some (check_url w.net w.guard cur.url) ≡ true = ap is_some e in
        absurd (cc (rw b at h))
    | inl e ↦
        let b : is_some (check_url w.net w.guard cur.url) ≡ false = ap is_some e in
        let (same, q) = after_shots_stall cur st _ url name (rw b at h) in
        subst (λ u. IsStall u name) same
          (e, shoot-StallsAt cur.url true (viewports_of w.opts.viewports) (no_shots w st) name q)
  ]

  loop-IsStall :
      (n : ℕ) (st : CrawlState) (url name : Str)
      → crawl_loop w n st ≡ stalled_at url name
      → IsStall url name
  unfolding crawl_loop
  loop-IsStall zero st url name h = cc
  loop-IsStall (suc n) st url name h = elim (List-cases st.queue) [
    | inl e ↦ absurd (cc (rw e at h))
    | inr (cur, rest, e) ↦ elim (Bool-cases (is_full w st)) [
      | inl full ↦ absurd (cc (rw (e, full) at h))
      | inr open_yet ↦ elim (sum-cases (visit w cur (popped w rest st))) [
        | inl ((u, v), q) ↦
            let same : stalled_at u v ≡ stalled_at url name = rw (e, open_yet, q) at h in
            let page : u ≡ url = cc same in
            let viewport : v ≡ name = cc same in
            subst (IsStall url) viewport
              (subst (λ u. IsStall u v) page (visit-IsStall cur (popped w rest st) u v q))
        | inr (next, q) ↦ loop-IsStall n next url name (rw (e, open_yet, q) at h)
      ]
    ]
  ]

-- A crawl that reports a stall reports a true one: the page passed the guard, and at a viewport of the
-- reported name, one of those in use, the browser stalled on it.
pub crawl-IsStall :
    (w : World) (n : ℕ) (url name : Str) → crawl w n ≡ stalled_at url name → IsStall w url name
unfolding crawl
crawl-IsStall w n url name h = loop-IsStall w n (initial w) url name h
