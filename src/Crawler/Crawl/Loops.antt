-- ===== src/Crawler/Crawl/Loops.antt =====
-- internal/crawler/crawler.go: what the loop over the links, and that over the viewports, miss nothing of.
use auditloop.Base.{
  ℕ, suc, ◌≡◌, refl, sym, ap, ◌∙◌, inl, inr, Bool, true, false, List, [], ◌∷◌, map, arith,
  Bool-cases, Str, is_empty, eqb_refl, one_of,
}
use mathlib.Core.List.{Memᴰ}
use mathlib.Core.Path.{subst}
use auditloop.Crawler.Crawl.{
  World, CrawlState, PageResult, Viewport, Shots, captured, url_of, canonical_url, host_allowed_in,
  shoot, shot, is_new, discover, follow,
}
use auditloop.Base.Text.Laws.{one_of-append}
use auditloop.Crawler.Crawl.Count.{repeat}
use auditloop.Crawler.Crawl.Turns.{follow_ind}
use auditloop.Crawler.Crawl.Once.{map-append, shoot_lem}
use auditloop.Crawler.Crawl.Reach.{later_links}

abbrev pub IsShown : Str → List PageResult → Type 0
IsShown url pages = one_of url (map url_of pages) ≡ true

module _ (w : World) where
  pub follow_keeps :
      (c : Str) (depth : ℕ) (ls : List Str) (st : CrawlState)
      → one_of c st.visited ≡ true
      → one_of c (follow w depth ls st).visited ≡ true
  unfolding one_of
  follow_keeps c depth ls st h =
      follow_ind w (λ st. one_of c st.visited ≡ true) depth ls st (λ l st' m new v. ground arith) h

  follow_first :
      (k : Str) (depth : ℕ) (ls : List Str) (st : CrawlState)
      → is_empty (canonical_url w.net w.reprint k) ≡ false
      → host_allowed_in w.net (canonical_url w.net w.reprint k) w.opts.allowed_hosts ≡ true
      → one_of (canonical_url w.net w.reprint k) (follow w depth (k ∷ ls) st).visited ≡ true
  unfolding follow one_of
  follow_first k depth ls st filled ok =
      let c = canonical_url w.net w.reprint k in
      elim (Bool-cases (is_new w c st.visited)) [
        | inl new ↦
            let turn : follow w depth (k ∷ ls) st ≡ follow w depth ls (discover w c depth st) =
              rw new refl in
            subst (λ st. one_of c st.visited ≡ true) (sym turn)
              (follow_keeps c depth ls (discover w c depth st) (ground (arith, eqb_refl c)))
        | inr old ↦
            let turn : follow w depth (k ∷ ls) st ≡ follow w depth ls st = rw old refl in
            subst (λ st. one_of c st.visited ≡ true) (sym turn)
              (follow_keeps c depth ls st (ground arith))
      ]

  pub follow_visits :
      (l : Str) (depth : ℕ) (ls : List Str) (st : CrawlState)
      → Memᴰ l ls
      → is_empty (canonical_url w.net w.reprint l) ≡ false
      → host_allowed_in w.net (canonical_url w.net w.reprint l) w.opts.allowed_hosts ≡ true
      → one_of (canonical_url w.net w.reprint l) (follow w depth ls st).visited ≡ true
  unfolding follow one_of
  follow_visits l depth [] st m filled ok = elim m [ ]
  follow_visits l depth (k ∷ ls) st (Memᴰ.tail m) filled ok = follow_visits l depth ls _ m filled ok
  follow_visits l depth (k ∷ ls) st (Memᴰ.head e) filled ok =
      let c = canonical_url w.net w.reprint k in
      let same : canonical_url w.net w.reprint l ≡ c = ap (canonical_url w.net w.reprint) e in
      subst (λ c'. one_of c' (follow w depth (k ∷ ls) st).visited ≡ true) (sym same)
        (follow_first k depth ls st (rw same at filled) (rw same at ok))

  shoot_keeps :
      (u url : Str) (first : Bool) (vps : List Viewport) (s s' : Shots)
      → shoot w url first vps s ≡ inr s'
      → IsShown u s.pages
      → IsShown u s'.pages
  shoot_keeps u url first vps s s' h shown = elim (shoot_lem w url first vps s s' h) [
    | inl (p, _) ↦ subst (IsShown u) (sym p) shown
    | inr (n, p) ↦
        subst (λ us. one_of u us ≡ true) (sym p)
          (one_of-append u (map url_of s.pages) (repeat (suc n) url) ∙ ground arith)
  ]

  -- A capture at the first viewport shows the page and hands on its links.
  pub shoot_exact :
      (url favicon : Str) (ls : List Str) (vp : Viewport) (vps : List Viewport) (s s' : Shots)
      → w.capture url vp true ≡ captured favicon ls
      → shoot w url true (vp ∷ vps) s ≡ inr s'
      → IsShown url s'.pages × (s'.links ≡ ls)
  unfolding shoot one_of
  shoot_exact url favicon ls vp vps s s' e h =
      let s1 = shot w url vp true favicon ls s in
      let h' : shoot w url false vps s1 ≡ inr s' = rw (e, shoot) at h in
      let page : PageResult = record { url = url; viewport = vp; favicon_href = favicon } in
      let shown : IsShown url s1.pages =
        ap (one_of url) (map-append url_of s.pages (page ∷ []))
        ∙ one_of-append url (map url_of s.pages) (url ∷ [])
        ∙ ground (arith, eqb_refl url) in
      (shoot_keeps url url false vps s1 s' h' shown, later_links w url vps s1 s' h')

  pub shoot_keeps_pages :
      (u url : Str) (vps : List Viewport) (s s' : Shots)
      → shoot w url true vps s ≡ inr s'
      → IsShown u s.pages
      → IsShown u s'.pages
  shoot_keeps_pages u url vps s s' h = shoot_keeps u url true vps s s' h
