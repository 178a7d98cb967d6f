-- ===== src/Worker/Isolated.antt =====
-- The processing of a run, from end to end, keeps to its own row and its own keys.
use auditloop.Base.{
  refl, sym, inl, inr, ◌⊎◌, Bool, true, false, Option, none, some, [], ◌∷◌, ◌++◌, ◌+◌, eqb,
  if◌then◌else◌, Bool-cases, Str, codes, is_empty,
}
use mathlib.Core.Path.{subst}
use auditloop.Db.Runs.{Run, RunStatus, failed, done, finish_run, set_run_favicon, set_run_diff}
use auditloop.Db.Targets.{Target, get_target_by_id}
use auditloop.Storage.{◌slash◌, slug, report_key, favicon_key, favicon_content_type}
use auditloop.Storage.Laws.{IsToken, slug-IsToken}
use auditloop.Worker.{CrawlResult, CrawlError, Report, Summary, World, Outside}
use auditloop.Recipe.Login.{Login, build_login}
use auditloop.Worker.Pages.{put, persist_pages}
use auditloop.Worker.Regress.{run_diff}
use auditloop.Worker.Process.{
  finish, fail, fail_crawl, crawl_message, target_slug, new_report, count_pages, save_favicon,
  json_of, put_report, save_diff, complete, process_result, process_crawl, process_login,
  process_target, process_run,
}
use auditloop.Worker.Others.{AreDistinct, IsNumbered}
use auditloop.Worker.Frame.{IsStep, IsApart, Steps, Steps-refl, Steps-trans, Steps-same, Steps-run}
use auditloop.Worker.Frame.Stored.{put-Steps, persist_pages-Steps}
use auditloop.Worker.Frame.Compared.{run_diff-Steps}

target_slug-IsToken :
    {Float : Type 0} (out : Outside Float) (tgt : Target) → IsToken (target_slug out tgt)
unfolding target_slug
target_slug-IsToken out tgt = elim (Bool-cases (eqb (slug tgt.name) (codes "root"))) [
  | inl e ↦ rw e (slug-IsToken (out.host_of tgt.base_url)).0
  | inr e ↦ rw e (slug-IsToken tgt.name).0
]

module _ {Float : Type 0} (out : Outside Float) (id : Str) where
  finish-Steps :
      (status : RunStatus) (summary message : Str) (w : World Float)
      → Steps id out.page_id w (finish out id status summary message w)
  unfolding finish finish_run
  finish-Steps status summary message w = elim (Bool-cases out.finish_run_fails) [
    | inl e ↦ rw e (Steps-refl id out.page_id w)
    | inr e ↦ rw e (Steps-run id out.page_id w _ _ (λ r. refl) refl refl refl refl refl)
  ]

  fail-Steps : (message : Str) (w : World Float) → Steps id out.page_id w (fail out id message w)
  unfolding fail
  fail-Steps message w =
      let w1 = finish out id failed (codes "{}") message w in
      Steps-trans id out.page_id w w1 _ (finish-Steps failed (codes "{}") message w)
        (Steps-same id out.page_id w1 _ refl refl refl refl refl)

  save_diff-Steps :
      (diff : Option Str) (w : World Float) → Steps id out.page_id w (save_diff out id diff w)
  unfolding save_diff set_run_diff
  save_diff-Steps none w = Steps-refl id out.page_id w
  save_diff-Steps (some []) w = Steps-refl id out.page_id w
  save_diff-Steps (some (c ∷ json)) w =
      Steps-run id out.page_id w _ _ (λ r. refl) refl refl refl refl refl

  complete-Steps :
      (summary : Summary) (diff : Option Str) (w : World Float)
      → Steps id out.page_id w (complete out id summary diff w)
  unfolding complete
  complete-Steps summary diff w =
      let w1 = finish out id done (out.summary_json summary) [] w in
      let w2 = save_diff out id diff w1 in
      elim (Bool-cases out.finish_run_fails) [
        | inl e ↦ rw e (Steps-refl id out.page_id w)
        | inr e ↦
            let last : Steps id out.page_id w2 (record w2 { runs_done = w2.runs_done + 1 }) =
              Steps-same id out.page_id w2 _ refl refl refl refl refl in
            subst
              (λ b.
                Steps id out.page_id w
                  (if b then w else record w2 { runs_done = w2.runs_done + 1 }))
              (sym e)
              (Steps-trans id out.page_id w w1 _ (finish-Steps done (out.summary_json summary) [] w)
                (Steps-trans id out.page_id w1 w2 _ (save_diff-Steps diff w1) last))
      ]

module _ {Float : Type 0} (out : Outside Float) (id target : Str) (h : IsToken target)
    (k : IsToken id) where
  favicon_row-Steps :
      (key : Str) (lost : Bool) (w : World Float)
      → Steps id out.page_id w
          (if lost then w else record w { runs = set_run_favicon id key w.runs })
  unfolding set_run_favicon
  favicon_row-Steps key true w = Steps-refl id out.page_id w
  favicon_row-Steps key false w =
      Steps-run id out.page_id w _ _ (λ r. refl) refl refl refl refl refl

  save_favicon-Steps :
      (res : CrawlResult Float) (w : World Float)
      → Steps id out.page_id w (save_favicon out id target res w)
  unfolding save_favicon favicon_key
  save_favicon-Steps res w =
      let ext = res.favicon_ext in
      let name = codes "favicon." ++ (if is_empty ext then codes "png" else ext) in
      let kind = favicon_content_type ext in
      let w1 = put out (target slash id slash name) kind res.favicon w in
      let stored = put-Steps out id target h k name kind res.favicon w in
      elim (Bool-cases (is_empty res.favicon)) [
        | inl a ↦ rw a (Steps-refl id out.page_id w)
        | inr a ↦ rw a (
            Steps-trans id out.page_id w w1 _ stored (
              favicon_row-Steps (favicon_key target id ext)
                (out.put_fails (favicon_key target id ext)) w1))
      ]

  put_report-Steps :
      (json : Option Str) (w : World Float)
      → Steps id out.page_id w (put_report out (report_key target id) json w)
  unfolding put_report report_key
  put_report-Steps none w = Steps-refl id out.page_id w
  put_report-Steps (some json) w =
      put-Steps out id target h k (codes "report.json") (codes "application/json") json w

module _ {Float : Type 0} (out : Outside Float) (run : Run) (k : IsToken run.id) where
  process_result-Steps :
      (target : Str) (res : CrawlResult Float) (w : World Float)
      → IsToken target
      → Steps run.id out.page_id w (process_result out run target res w)
  unfolding process_result
  process_result-Steps target res w h =
      let (w1, rep1) = persist_pages out run.id target res.pages (w, new_report out res) in
      let summary = count_pages out res rep1.summary in
      let w2 = save_favicon out run.id target res w1 in
      let (w3, d) = run_diff out run target w2 in
      let rep : Report Float = record rep1 { summary = summary; diff = d } in
      let w4 = put_report out (report_key target run.id) (out.report_json rep) w3 in
      Steps-trans run.id out.page_id w w1 _
        (persist_pages-Steps out run.id target h k res.pages w (new_report out res))
        (Steps-trans run.id out.page_id w1 w2 _ (save_favicon-Steps out run.id target h k res w1) (
          Steps-trans run.id out.page_id w2 w3 _ (run_diff-Steps out run target h k w2) (
            Steps-trans run.id out.page_id w3 w4 _
              (put_report-Steps out run.id target h k (out.report_json rep) w3)
              (complete-Steps out run.id summary (json_of out d) w4))))

  process_crawl-Steps :
      (tgt : Target) (end : CrawlError ⊎ CrawlResult Float) (w : World Float)
      → Steps run.id out.page_id w (process_crawl out run tgt end w)
  unfolding process_crawl fail_crawl
  process_crawl-Steps tgt (inl e) w =
      let w1 : World Float = record w { runs_failed = w.runs_failed + 1 } in
      Steps-trans run.id out.page_id w w1 _
        (Steps-same run.id out.page_id w w1 refl refl refl refl refl)
        (fail-Steps out run.id (crawl_message out e) w1)
  process_crawl-Steps tgt (inr res) w =
      process_result-Steps (target_slug out tgt) res w (target_slug-IsToken out tgt)

  process_login-Steps :
      (tgt : Target) (login : Str ⊎ Option Login) (w : World Float)
      → Steps run.id out.page_id w (process_login out run tgt login w)
  unfolding process_login
  process_login-Steps tgt (inl message) w = fail-Steps out run.id message w
  process_login-Steps tgt (inr login) w = process_crawl-Steps tgt _ w

  process_target-Steps :
      (tgt : Option Target) (w : World Float)
      → Steps run.id out.page_id w (process_target out run tgt w)
  unfolding process_target
  process_target-Steps none w = fail-Steps out run.id (codes "target lookup: db: not found") w
  process_target-Steps (some tgt) w = process_login-Steps tgt (build_login out.vault tgt) w

  pub process_run-Steps : (w : World Float) → Steps run.id out.page_id w (process_run out run w)
  unfolding process_run
  process_run-Steps w = process_target-Steps (get_target_by_id run.target_id w.targets) w

  -- The processing of a run whose id is a token, over pages that have the ids of their numbers,
  -- where no id is given twice: of the table of runs it changes no row but its own, of the table
  -- of pages no row of another run, of the findings it changes and removes none and adds none to
  -- such a page, it changes no target, and it stores objects only under keys from which that run's
  -- id is read back. The pages then have the ids of their numbers again.
  pub process_run-IsStep :
      (w : World Float)
      → AreDistinct out.page_id
      → IsNumbered out.page_id w.pages
      → IsStep run.id w (process_run out run w)
        × IsApart run.id out.page_id w (process_run out run w)
  process_run-IsStep w d n = let (step, apart) = process_run-Steps w in (step, apart d n)
