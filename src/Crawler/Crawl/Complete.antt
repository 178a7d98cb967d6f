-- ===== src/Crawler/Crawl/Complete.antt =====
-- internal/crawler/crawler.go: a crawl that empties its queue has visited all that is within reach.
use auditloop.Base.{
  ℕ, ◌+◌, ◌≡◌, refl, sym, ap, inl, inr, none, List, [], ◌∷◌, arith, Str, is_some, All, All-get,
  All-weaken,
}
use mathlib.Core.List.{Memᴰ}
use mathlib.Core.Logic.{⊎_elim}
use mathlib.Core.Path.{subst}
use auditloop.Crawler.Guard.{check_url}
use auditloop.Crawler.Crawl.{World, CrawlState, Item, finished, initial, crawl, start}
use auditloop.Crawler.Crawl.Turns.{popped, visit_lem, IsKept, crawl_ind}
use auditloop.Crawler.Crawl.Reach.{IsReachable, at_start, by_link, IsLinkOf}
use auditloop.Crawler.Crawl.Loops.{IsShown}
use auditloop.Crawler.Crawl.Levels.{IsFound, IsCapturable, IsSettled}
use auditloop.Crawler.Crawl.Settle.{IsThorough, pop_lem, settle, shot_lem}

nothing_in {ℓ} : {A : Type ℓ} (x : A) → Memᴰ x [] → ⊥
nothing_in x m = elim m [ ]

module _ (w : World) where
  kept : IsKept w (IsThorough w)
  kept cur rest st next q open_yet v (k, searched) =
      let todo = pop_lem w k cur rest st q searched in
      elim (visit_lem w cur (popped w rest st) next v) [
        | inl (b, e) ↦
            let (seen, levels, settled, found) = todo in
            let refused : IsSettled w seen st.pages cur = λ ok. absurd (cc (ap is_some ok, b)) in
            subst (IsThorough w) (sym e) (
              cur.depth,
              settle w cur.depth cur seen
                  (record (popped w rest st) { urls_blocked = st.urls_blocked + 1 }) levels settled
                  found refused,
            )
        | inr (s, ok, h, e) ↦
            subst (IsThorough w) (sym e) (cur.depth, shot_lem w cur (popped w rest st) s h todo)
      ]

  start-IsThorough : IsThorough w (initial w)
  start-IsThorough = (
    0,
    (
      record { url = start w; depth = 0 } ∷ [],
      (refl, (omega arith, tt), (tt, tt), ((omega arith, omega arith), tt)),
      (inl (Memᴰ.head refl), tt),
      (_, Memᴰ.head refl, refl, omega arith),
    ),
  )

  -- Along the links, by induction on the way to a URL.
  reached :
      (seen : List Item) (st : CrawlState)
      → All (IsSettled w seen st.pages) seen
      → IsFound seen 0 (start w)
      → (d : ℕ) (url : Str) → IsReachable w d url
      → IsFound seen d url
  reached seen st settled found d url at_start = found
  reached seen st settled found d url (by_link d' from l r ok deeper link filled allowed) =
      let (it, m, e, b) = reached seen st settled found d' from r in
      let (_, links) =
        All-get _ seen m settled (subst (λ u. check_url w.net w.guard u ≡ none) (sym e) ok) in
      let (to, m', e', b') =
        links l (omega arith) (subst (λ u. IsLinkOf w u l) (sym e) link) filled allowed in
      (to, m', e', omega arith)

-- A crawl that ends because its queue is empty, and not because of the page limit, has crawled every
-- page within reach: each URL to which at most as many links as the depth limit lead from the start,
-- by way of pages that the guard lets through and the browser captures at the first viewport, has its
-- page in the result, if it passes the guard too and is itself captured.
pub crawl-FindsAll :
    (w : World) (n : ℕ) (last : CrawlState)
    → crawl w n ≡ finished last
    → last.queue ≡ []
    → (d : ℕ) (url : Str) → IsReachable w d url
    → check_url w.net w.guard url ≡ none
    → IsCapturable w url
    → IsShown url last.pages
unfolding crawl
crawl-FindsAll w n last h empty d url r ok c =
    let (k, (seen, levels, settled, found)) =
      crawl_ind w (IsThorough w) (kept w) n (initial w) last h (start-IsThorough w) in
    let all_settled : All (IsSettled w seen last.pages) seen =
      All-weaken _ _ seen
        (λ it.
          ⊎_elim (λ m. absurd (nothing_in it (subst (λ q. Memᴰ it q) empty m)))
            (⊎_elim (λ no. absurd no) (λ s. s)))
        settled in
    let (it, m, e, b) = reached w seen last all_settled found d url r in
    let (shown, _) =
      All-get _ seen m all_settled (subst (λ u. check_url w.net w.guard u ≡ none) (sym e) ok) in
    subst (λ u. IsShown u last.pages) e (shown (subst (IsCapturable w) (sym e) c))
