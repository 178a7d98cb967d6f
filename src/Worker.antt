-- ===== src/Worker.antt =====
-- internal/worker: the processing of claimed runs. What a run reads and writes is a World: the
-- tables, the objects of the store and the counters of finished runs. All that the code calls
-- outside of them is Outside: the crawl, the store's failures, encoding/json, net/url, SHA-256, the
-- cipher. Of the database only FinishRun and InsertPage may fail. Ids of pages are given by their
-- number. Logging is left out, and of the metrics all but RunsTotal.
pub mod Pages
pub mod Regress
pub mod Process
pub mod Others
pub mod Frame
pub mod Isolated
pub mod Finished
pub mod Loop
mod Tests
use auditloop.Base.{
  ℕ, Bool, true, false, Option, none, some, ◌⊎◌, List, [], ◌∷◌, if◌then◌else◌, Str, is_empty,
}
use auditloop.Base.Int.{ℤ}
use auditloop.Diff.Pixels.{Image}
use auditloop.Db.Runs.{Run}
use auditloop.Db.Targets.{Target}
use auditloop.Recipe.Login.{Login, Vault}
use auditloop.Signals.{Finding, Perf, LayoutSmells}

-- A console or network error with the origin that the crawler gave it, its status, and its JSON.
pub record Logged : Type 0 where
  pub first_part : Bool
  pub status : ℕ
  pub json : Str

-- What a crawl brings of one page at one viewport, but the links.
pub record Captured (Float : Type 0) : Type 0 where
  pub url : Str
  pub viewport : Str
  pub width : ℕ
  pub mobile : Bool
  pub screenshot_png : Str
  pub axe_json : Str
  pub axe_violations : ℕ
  pub axe_nodes : ℕ
  pub console_errors : List Logged
  pub network_errors : List Logged
  pub network_log_json : Str
  pub a11y_digest_json : Str
  pub load_ms : ℤ
  pub perf : Perf Float
  pub layout : LayoutSmells

pub record CrawlResult (Float : Type 0) : Type 0 where
  pub pages : List (Captured Float)
  pub urls_discovered : ℕ
  pub urls_blocked : ℕ
  pub favicon : Str
  pub favicon_ext : Str

pub data CrawlError : Type 0 where
  login_failed crawl_error : Str → CrawlError

pub record CrawlOptions : Type 0 where
  pub base_url : Str
  pub allowed_hosts : List Str
  pub max_pages : ℕ
  pub max_depth : ℕ
  pub login : Option Login

-- A row of the table of pages; diff_pct is kept as the changed pixels and all pixels.
pub record Page (Float : Type 0) : Type 0 where
  pub id : Str
  pub run_id : Str
  pub url : Str
  pub viewport : Str
  pub screenshot_key : Str
  pub axe_key : Str
  pub a11y_digest_key : Str
  pub axe_violation_count : ℕ
  pub console_first_party_count : ℕ
  pub console_third_party_count : ℕ
  pub network_first_party_count : ℕ
  pub network_third_party_count : ℕ
  pub load_ms : ℤ
  pub perf : Perf Float
  pub diff_counts : ℕ × ℕ
  pub diff_key : Str

-- A page that differs from the baseline; its percentage is kept as two counts.
pub record ChangedPage : Type 0 where
  pub url : Str
  pub viewport : Str
  pub diff_counts : ℕ × ℕ
  pub diff_key : Str
  pub size_changed : Bool
  pub not_compared : Bool

pub record RunDiff : Type 0 where
  pub prev_run_id : Str
  pub prev_run_at : ℕ
  pub pages_added : List Str
  pub pages_removed : List Str
  pub pages_changed : ℕ
  pub pages_size_changed : ℕ
  pub new_a11y_rules : List Str
  pub resolved_a11y_rules : List Str
  pub a11y_delta : ℤ
  pub console_delta : ℤ
  pub network_delta : ℤ
  pub changed_pages : List ChangedPage

pub record PageReport (Float : Type 0) : Type 0 where
  pub url : Str
  pub viewport : Str
  pub width : ℕ
  pub screenshot_key : Str
  pub axe_key : Str
  pub a11y_digest_key : Str
  pub network_key : Str
  pub load_ms : ℤ
  pub console : ℕ × ℕ
  pub network : ℕ × ℕ
  pub a11y : ℕ × ℕ
  pub perf : Perf Float
  pub layout : LayoutSmells
  pub findings : List (Finding Float)

pub record Summary : Type 0 where
  pub pages_crawled : ℕ
  pub urls_discovered : ℕ
  pub urls_blocked : ℕ
  pub a11y_violations : ℕ
  pub console_first : ℕ
  pub console_third : ℕ
  pub network_first : ℕ
  pub network_third : ℕ

-- The parts of report.json that depend on the crawl.
pub record Report (Float : Type 0) : Type 0 where
  pub pages : List (PageReport Float)
  pub summary : Summary
  pub diff : Option RunDiff

pub record World (Float : Type 0) : Type 0 where
  pub runs : List Run
  pub targets : List Target
  pub pages : List (Page Float)
  -- A finding with the id of its page.
  pub findings : List (Str × Finding Float)
  -- The key, the content type and the bytes, the latest first.
  pub objects : List (Str × (Str × Str))
  -- RunsTotal by its label.
  pub runs_done : ℕ
  pub runs_failed : ℕ

pub record Outside (Float : Type 0) : Type 0 where
  pub crawl : CrawlOptions → CrawlError ⊎ CrawlResult Float
  pub max_pages : ℕ
  pub max_depth : ℕ
  pub put_fails : Str → Bool
  pub get_fails : Str → Bool
  pub insert_page_fails : Str → Str → Bool
  pub finish_run_fails : Bool
  pub page_id : ℕ → Str
  pub now : ℕ
  pub sha256_hex : Str → Str
  -- url.Parse with Hostname, empty on an error.
  pub host_of : Str → Str
  -- The violations of an axe result, if it is JSON: the impact, and the violation as it stands.
  pub axe_violations : Str → Option (List (Str × Str))
  pub report_json : Report Float → Option Str
  pub summary_json : Summary → Str
  pub diff_json : RunDiff → Option Str
  -- The top-level id of a finding's JSON, empty when there is none.
  pub rule_id : Str → Str
  pub decode_png : Str → Option Image
  pub encode_png : Image → Option Str
  pub above_cls_good : Float → Bool
  pub above_cls_poor : Float → Bool
  pub vault : Vault
