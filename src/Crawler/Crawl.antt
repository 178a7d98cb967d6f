-- ===== src/Crawler/Crawl.antt =====
-- internal/crawler/crawler.go: Crawl's queue of pages. The browser is a parameter, and so are net/url
-- and the guard's lookups; logging, the login and the favicon's download are left out.
pub mod Count
pub mod Turns
pub mod Once
pub mod Reach
pub mod Safe
pub mod Loops
pub mod Levels
pub mod Settle
pub mod Complete
pub mod Stalls
pub mod Termination
pub mod Bounds
mod Tests
use auditloop.Base.{
  ℕ, zero, suc, ◌+◌, Bool, true, false, ◌&&◌, ◌||◌, not, Option, none, some, ◌⊎◌, inl, inr, List,
  [], ◌∷◌, ◌++◌, map, ltb, ◌==◌, if◌then◌else◌, length, is_some, Str, codes, eqb, is_empty, one_of,
  trim_space, to_lower,
}
use auditloop.Base.Int.{ℤ, pos, negsuc}
use auditloop.Crawler.Guard.{Net, GuardConfig, Url, is_http, host_allowed, check_url}

pub record Viewport : Type 0 where
  pub name : Str
  pub width : ℕ
  pub height : ℕ
  pub mobile : Bool

abbrev pub default_viewports : List Viewport
default_viewports =
    record { name = codes "mobile"; width = 390; height = 844; mobile = true }
    ∷ record { name = codes "desktop"; width = 1440; height = 900; mobile = false }
    ∷ []

-- A page at a viewport; the measurements that come with it are left out.
pub record PageResult : Type 0 where
  pub url : Str
  pub viewport : Viewport
  pub favicon_href : Str

-- How capturePage ends: with the page and its links, with an error, or with a dead browser.
pub data Capture : Type 0 where
  captured : (favicon_href : Str) → (links : List Str) → Capture
  failed stalled : Capture

pub record Item : Type 0 where
  pub url : Str
  pub depth : ℕ

pub record Options : Type 0 where
  pub base_url : Str
  pub allowed_hosts : List Str
  pub max_pages : ℤ
  pub max_depth : ℤ
  pub viewports : List Viewport

-- The defaults at the top of Crawl.
unfoldable pub page_limit : ℤ → ℕ
page_limit (pos zero) = 50
page_limit (pos (suc n)) = suc n
page_limit (negsuc n) = 50

unfoldable pub depth_limit : ℤ → ℕ
depth_limit (pos n) = n
depth_limit (negsuc n) = 3

unfoldable pub viewports_of : List Viewport → List Viewport
viewports_of [] = default_viewports
viewports_of (vp ∷ vps) = vp ∷ vps

pub record CrawlState : Type 0 where
  pub pages : List PageResult
  pub urls_discovered : ℕ
  pub urls_blocked : ℕ
  pub favicon_href : Str
  pub visited : List Str
  pub queue : List Item

-- The distinct texts of a list, as the keys of a map.
unfoldable pub distinct : List Str → List Str
distinct [] = []
distinct (s ∷ ss) = let rest = distinct ss in if one_of s ss then rest else s ∷ rest

abbrev pub url_of : PageResult → Str
url_of p = p.url

unfoldable pub count_crawled : List PageResult → ℕ
count_crawled pages = length (distinct (map url_of pages))

-- What the loop over the viewports of a page leaves.
pub record Shots : Type 0 where
  pub pages : List PageResult
  pub links : List Str
  pub favicon_href : Str

-- The end of a crawl; a stall names its page and viewport.
pub data Outcome : Type 0 where
  finished : CrawlState → Outcome
  stalled_at : (url viewport : Str) → Outcome
  out_of_fuel : Outcome

-- `reprint` parses a URL, takes its fragment away and prints it again.
module _ (net : Net) where
  abbrev canonical_parsed : (Str → Str) → Str → Option Url → Str
  canonical_parsed reprint s none = []
  canonical_parsed reprint s (some u) = if is_http u.scheme then reprint s else []

  unfoldable pub canonical_url : (Str → Str) → Str → Str
  canonical_url reprint raw =
      canonical_parsed reprint (trim_space raw) (net.parse_url (trim_space raw))

  abbrev allowed_parsed : List Str → Option Url → Bool
  allowed_parsed hosts none = false
  allowed_parsed hosts (some u) = host_allowed hosts (to_lower u.host)

  unfoldable pub host_allowed_in : Str → List Str → Bool
  host_allowed_in raw hosts = allowed_parsed hosts (net.parse_url raw)

-- What a crawl runs on: the libraries, the guard's configuration, the options and the browser.
pub record World : Type 0 where
  pub net : Net
  pub reprint : Str → Str
  pub guard : GuardConfig
  pub opts : Options
  pub capture : Str → Viewport → Bool → Capture

module _ (w : World) where
  abbrev pub start : Str
  start = canonical_url w.net w.reprint w.opts.base_url

  abbrev pub shot : Str → Viewport → Bool → Str → List Str → Shots → Shots
  shot url vp first favicon links s = record {
    pages = s.pages ++ record { url = url; viewport = vp; favicon_href = favicon } ∷ [];
    links = if first then links else s.links;
    favicon_href =
        if first && eqb url start && is_empty s.favicon_href then favicon else s.favicon_href;
  }

  -- The loop over the viewports; only the first asks for the links. A stall ends it, with the name
  -- of the viewport.
  unfoldable pub shoot : Str → Bool → List Viewport → Shots → Str ⊎ Shots
  shoot url first [] s = inr s
  shoot url first (vp ∷ vps) s = elim (w.capture url vp first) [
    | captured favicon links ↦ shoot url false vps (shot url vp first favicon links s)
    | failed ↦ shoot url false vps s
    | stalled ↦ inl vp.name
  ]

  abbrev pub is_new : Str → List Str → Bool
  is_new c visited =
      not (is_empty c || one_of c visited) && host_allowed_in w.net c w.opts.allowed_hosts

  abbrev pub discover : Str → ℕ → CrawlState → CrawlState
  discover c depth st = record st {
    visited = c ∷ st.visited;
    urls_discovered = st.urls_discovered + 1;
    queue = st.queue ++ record { url = c; depth = depth } ∷ [];
  }

  -- The loop over the links of a page; `depth` is that of the pages they lead to.
  unfoldable pub follow : ℕ → List Str → CrawlState → CrawlState
  follow depth [] st = st
  follow depth (l ∷ ls) st =
      let c = canonical_url w.net w.reprint l in
      follow depth ls (if is_new c st.visited then discover c depth st else st)

  abbrev pub with_shots : Shots → CrawlState → CrawlState
  with_shots s st = record st { pages = s.pages; favicon_href = s.favicon_href }

  abbrev pub followed : Item → Shots → CrawlState → CrawlState
  followed cur s st =
      if ltb cur.depth (depth_limit w.opts.max_depth) then follow (suc cur.depth) s.links st else st

  abbrev after_shots : Item → CrawlState → Str ⊎ Shots → (Str × Str) ⊎ CrawlState
  after_shots cur st (inl viewport) = inl (cur.url, viewport)
  after_shots cur st (inr s) = inr (followed cur s (with_shots s st))

  -- One turn for the item that has left the queue; a stall gives its page and viewport.
  unfoldable pub visit : Item → CrawlState → (Str × Str) ⊎ CrawlState
  visit cur st =
      if is_some (check_url w.net w.guard cur.url)
      then inr (record st { urls_blocked = st.urls_blocked + 1 })
      else after_shots cur st (
          shoot cur.url true (viewports_of w.opts.viewports)
            (record { pages = st.pages; links = []; favicon_href = st.favicon_href }))

  abbrev pub is_full : CrawlState → Bool
  is_full st = not (ltb (count_crawled st.pages) (page_limit w.opts.max_pages))

  -- The main loop.
  unfoldable pub crawl_loop : ℕ → CrawlState → Outcome
  crawl_loop zero st = out_of_fuel
  crawl_loop (suc n) st = elim st.queue [
    | [] ↦ finished st
    | cur ∷ rest ↦
        if is_full st then finished st else elim (visit cur (record st { queue = rest })) [
          | inl (url, viewport) ↦ stalled_at url viewport
          | inr next ↦ crawl_loop n next
        ]
  ]

  abbrev pub initial : CrawlState
  initial = record {
    pages = [];
    urls_discovered = 1;
    urls_blocked = 0;
    favicon_href = [];
    visited = start ∷ [];
    queue = record { url = start; depth = 0 } ∷ [];
  }

  unfoldable pub crawl : ℕ → Outcome
  crawl n = crawl_loop n initial
