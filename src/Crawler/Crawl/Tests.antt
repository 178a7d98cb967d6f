-- ===== src/Crawler/Crawl/Tests.antt =====
-- A crawl of a small site.
use auditloop.Base.{
  none, ℕ, ◌≤◌, ◌≡◌, ◌≢◌, refl, Bool, true, false, [], ◌∷◌, Str, codes, eqb, if◌then◌else◌, All,
  arith,
}
use auditloop.Base.Int.{pos, negsuc}
use auditloop.Crawler.Guard.Tests.{host_net, config, guard_runs}
use auditloop.Crawler.Crawl.{
  World, Viewport, Capture, captured, failed, stalled, CrawlState, finished, stalled_at,
  out_of_fuel, page_limit, depth_limit, viewports_of, distinct, count_crawled, canonical_url,
  host_allowed_in, shoot, follow, visit, crawl_loop, crawl,
}
use auditloop.Crawler.Crawl.Termination.{crawl_ends}
use auditloop.Crawler.Crawl.Bounds.{IsWithin, crawl-IsWithin}
use auditloop.Crawler.Crawl.Reach.{IsReachable, at_start, by_link, IsSafePage}
use auditloop.Crawler.Crawl.Safe.{crawl-IsSafe}
use auditloop.Crawler.Crawl.Loops.{IsShown}
use auditloop.Crawler.Crawl.Complete.{crawl-FindsAll}
use auditloop.Crawler.Guard.{check_url}
use mathlib.Core.List.{Memᴰ}

abbrev home : Str
home = codes "example.com"

abbrev shop : Str
shop = codes "a.example.com"

abbrev evil : Str
evil = codes "evil.example.com"

-- The home page links to itself, to the shop twice, to a name that resolves to a metadata address, and
-- elsewhere; the shop fails on the desktop.
abbrev answer : Str → Viewport → Bool → Capture
answer url vp first =
    if eqb url home
    then captured (codes "/i.png")
        (if first then home ∷ shop ∷ evil ∷ shop ∷ codes "other.org" ∷ [] else [])
    else if vp.mobile
    then captured [] (home ∷ [])
    else failed

abbrev site : World
site = record {
  net = host_net;
  reprint = λ s. s;
  guard = config;
  opts = record {
    base_url = codes " example.com";
    allowed_hosts = codes "example.com" ∷ [];
    max_pages = pos 0;
    max_depth = negsuc 0;
    viewports = [];
  };
  capture = answer;
}

unfoldable crawl_runs : Unit {0}
unfolding guard_runs crawl crawl_loop visit follow shoot canonical_url host_allowed_in count_crawled
    distinct page_limit depth_limit viewports_of
crawl_runs = tt

abbrev mobile : Viewport
mobile = record { name = codes "mobile"; width = 390; height = 844; mobile = true }

abbrev desktop : Viewport
desktop = record { name = codes "desktop"; width = 1440; height = 900; mobile = false }

abbrev last : CrawlState
last = record {
  pages =
      record { url = home; viewport = mobile; favicon_href = codes "/i.png" }
      ∷ record { url = home; viewport = desktop; favicon_href = codes "/i.png" }
      ∷ record { url = shop; viewport = mobile; favicon_href = [] }
      ∷ [];
  urls_discovered = 3;
  urls_blocked = 1;
  favicon_href = codes "/i.png";
  visited = evil ∷ shop ∷ home ∷ [];
  queue = [];
}

site_crawled : crawl site 4 ≡ finished last
unfolding crawl_runs
site_crawled = refl

three_turns : crawl site 3 ≡ out_of_fuel
unfolding crawl_runs
three_turns = refl

abbrev dying : World
dying = record site { capture = λ url vp first. if vp.mobile then failed else stalled }

dead_browser : crawl dying 4 ≡ stalled_at home (codes "desktop")
unfolding crawl_runs
dead_browser = refl

crawl_ends_example : (n : ℕ) × ((m : ℕ) → n ≤ m → crawl site m ≢ out_of_fuel)
crawl_ends_example = crawl_ends site

crawl-IsWithin_example : IsWithin site last
crawl-IsWithin_example = crawl-IsWithin site 4 last site_crawled

crawl-IsSafe_example : All (IsSafePage site) last.pages
crawl-IsSafe_example = crawl-IsSafe site 4 last site_crawled

shop_safe : check_url host_net config shop ≡ none
unfolding guard_runs
shop_safe = refl

home_links_on : IsReachable site 1 shop
unfolding crawl_runs
home_links_on =
    by_link 0 home shop at_start refl (omega arith)
      (mobile, desktop ∷ [], codes "/i.png", _, refl, refl, Memᴰ.tail (Memᴰ.head refl)) refl refl

shop_captured : site.capture shop mobile true ≡ captured [] (home ∷ [])
unfolding crawl_runs
shop_captured = refl

shop_viewports : viewports_of site.opts.viewports ≡ mobile ∷ desktop ∷ []
unfolding crawl_runs
shop_viewports = refl

crawl-FindsAll_example : IsShown shop last.pages
crawl-FindsAll_example =
    crawl-FindsAll site 4 last site_crawled refl 1 shop home_links_on shop_safe
      (mobile, desktop ∷ [], [], home ∷ [], shop_viewports, shop_captured)
