-- ===== src/Worker/Process.antt =====
-- internal/worker/worker.go: ProcessRun, from a claimed run to a finished one. An error of the code
-- is left to the row of the run, which keeps its message.
use auditloop.Base.{
  ◌+◌, Option, none, some, ◌⊎◌, inl, inr, List, [], ◌∷◌, ◌++◌, map, length, if◌then◌else◌, Str,
  codes, eqb, is_empty,
}
use auditloop.Crawler.Crawl.{distinct}
use auditloop.Db.Runs.{Run, RunStatus, done, failed, finish_run, set_run_diff, set_run_favicon}
use auditloop.Db.Targets.{Target, get_target_by_id}
use auditloop.Recipe.Login.{Login, build_login}
use auditloop.Storage.{slug, report_key, favicon_key, favicon_content_type}
use auditloop.Worker.{
  CrawlResult, CrawlError, login_failed, crawl_error, Report, RunDiff, Summary, World, Outside,
}
use auditloop.Worker.Pages.{put, persist_pages}
use auditloop.Worker.Regress.{run_diff}

module _ {Float : Type 0} (out : Outside Float) where
  abbrev pub allowed_of : Target → List Str
  allowed_of tgt = elim tgt.verified_domains [
    | d ∷ ds ↦ d ∷ ds
    | [] ↦ (let host = out.host_of tgt.base_url in if is_empty host then [] else host ∷ [])
  ]

  unfoldable pub finish : Str → RunStatus → Str → Str → World Float → World Float
  unfolding finish_run
  finish id status summary message w =
      if out.finish_run_fails
      then w
      else record w { runs = finish_run id status summary message out.now w.runs }

  unfoldable pub fail : Str → Str → World Float → World Float
  unfolding finish
  fail id message w =
      let w' = finish id failed (codes "{}") message w in
      record w' { runs_failed = w'.runs_failed + 1 }

  abbrev pub crawl_message : CrawlError → Str
  crawl_message (login_failed reason) =
      codes "login recipe failed — check selectors/credentials: " ++ reason
  crawl_message (crawl_error message) = codes "crawl: " ++ message

  -- RunsTotal counts before fail, which counts again.
  unfoldable pub fail_crawl : Str → CrawlError → World Float → World Float
  unfolding fail
  fail_crawl id e w = fail id (crawl_message e) (record w { runs_failed = w.runs_failed + 1 })

  unfoldable pub target_slug : Target → Str
  unfolding slug eqb
  target_slug tgt =
      let s = slug tgt.name in if eqb s (codes "root") then slug (out.host_of tgt.base_url) else s

  abbrev pub new_report : CrawlResult Float → Report Float
  new_report res = record {
    pages = [];
    summary = record {
      pages_crawled = 0;
      urls_discovered = res.urls_discovered;
      urls_blocked = res.urls_blocked;
      a11y_violations = 0;
      console_first = 0;
      console_third = 0;
      network_first = 0;
      network_third = 0;
    };
    diff = none;
  }

  unfoldable pub count_pages : CrawlResult Float → Summary → Summary
  unfolding distinct
  count_pages res s = record s { pages_crawled = length (distinct (map (λ p. p.url) res.pages)) }

  unfoldable pub save_favicon : Str → Str → CrawlResult Float → World Float → World Float
  unfolding favicon_key favicon_content_type put set_run_favicon
  save_favicon id slug res w =
      let key = favicon_key slug id res.favicon_ext in
      let w' = put out key (favicon_content_type res.favicon_ext) res.favicon w in
      if is_empty res.favicon
      then w
      else if out.put_fails key
      then w'
      else record w' { runs = set_run_favicon id key w'.runs }

  abbrev pub json_of : Option RunDiff → Option Str
  json_of none = none
  json_of (some d) = out.diff_json d

  unfoldable pub put_report : Str → Option Str → World Float → World Float
  unfolding put
  put_report key none w = w
  put_report key (some json) w = put out key (codes "application/json") json w

  unfoldable pub save_diff : Str → Option Str → World Float → World Float
  unfolding set_run_diff
  save_diff id none w = w
  save_diff id (some []) w = w
  save_diff id (some (c ∷ json)) w = record w { runs = set_run_diff id (c ∷ json) w.runs }

  -- From FinishRun on.
  unfoldable pub complete : Str → Summary → Option Str → World Float → World Float
  unfolding finish save_diff
  complete id summary diff w =
      let w' = save_diff id diff (finish id done (out.summary_json summary) [] w) in
      if out.finish_run_fails then w else record w' { runs_done = w'.runs_done + 1 }

  -- What follows a crawl that brought a result.
  unfoldable pub process_result : Run → Str → CrawlResult Float → World Float → World Float
  unfolding persist_pages count_pages save_favicon run_diff report_key put_report complete
  process_result run slug res w =
      let (w1, rep1) = persist_pages out run.id slug res.pages (w, new_report res) in
      let summary = count_pages res rep1.summary in
      let (w2, d) = run_diff out run slug (save_favicon run.id slug res w1) in
      let rep : Report Float = record rep1 { summary = summary; diff = d } in
      complete run.id summary (json_of d)
        (put_report (report_key slug run.id) (out.report_json rep) w2)

  unfoldable pub process_crawl :
      Run → Target → CrawlError ⊎ CrawlResult Float → World Float → World Float
  unfolding fail_crawl target_slug process_result
  process_crawl run tgt (inl e) w = fail_crawl run.id e w
  process_crawl run tgt (inr res) w = process_result run (target_slug tgt) res w

  unfoldable pub process_login : Run → Target → Str ⊎ Option Login → World Float → World Float
  unfolding fail process_crawl
  process_login run tgt (inl message) w = fail run.id message w
  process_login run tgt (inr login) w =
      process_crawl run tgt
        (out.crawl (record {
          base_url = tgt.base_url;
          allowed_hosts = allowed_of tgt;
          max_pages = out.max_pages;
          max_depth = out.max_depth;
          login = login;
        }))
        w

  unfoldable pub process_target : Run → Option Target → World Float → World Float
  unfolding fail build_login process_login
  process_target run none w = fail run.id (codes "target lookup: db: not found") w
  process_target run (some tgt) w = process_login run tgt (build_login out.vault tgt) w

  unfoldable pub process_run : Run → World Float → World Float
  unfolding get_target_by_id process_target
  process_run run w = process_target run (get_target_by_id run.target_id w.targets) w
