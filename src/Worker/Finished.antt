-- ===== src/Worker/Finished.antt =====
-- Every claimed run comes to an end in its row.
use auditloop.Base.{
  ℕ, ◌≡◌, refl, sym, inl, inr, ◌⊎◌, true, false, Option, none, some, List, [], ◌∷◌, ◌+◌,
  if◌then◌else◌, Str, codes, is_empty, All,
}
use mathlib.Core.Path.{subst}
use auditloop.Db.Table.Laws.{All-update, update-All}
use auditloop.Db.Runs.{Run, failed, done, finish_run, set_run_diff, has_id}
use auditloop.Db.Targets.{Target, get_target_by_id}
use auditloop.Recipe.Login.{Login, build_login, HasMessage, build_login-HasMessage}
use auditloop.Worker.{CrawlResult, CrawlError, login_failed, crawl_error, Summary, World, Outside}
use auditloop.Worker.Process.{
  finish, fail, fail_crawl, crawl_message, save_diff, complete, process_result, process_crawl,
  process_login, process_target, process_run,
}

-- A run that is done has no error, and one that failed has one.
abbrev pub IsFinal : ℕ → Run → Type 0
IsFinal now r =
    (r.finished_at ≡ some now)
    × (((r.status ≡ done) × (r.error ≡ [])) ⊎ ((r.status ≡ failed) × (is_empty r.error ≡ false)))

-- All rows of a run are final.
abbrev pub IsFinished : ℕ → Str → List Run → Type 0
IsFinished now id rows = All (λ r. has_id id r ≡ true → IsFinal now r) rows

module _ {Float : Type 0} (out : Outside Float) where
  crawl_message-filled : (e : CrawlError) → is_empty (crawl_message out e) ≡ false
  crawl_message-filled (login_failed reason) = refl
  crawl_message-filled (crawl_error message) = refl

module _ {Float : Type 0} (out : Outside Float) (run : Run)
    (up : out.finish_run_fails ≡ false) where
  fail-IsFinished :
      (message : Str) (w : World Float)
      → is_empty message ≡ false
      → IsFinished out.now run.id (fail out run.id message w).runs
  unfolding fail finish finish_run
  fail-IsFinished message w h =
      rw up (update-All (IsFinal out.now) (has_id run.id) _ w.runs (λ r. (refl, inr (refl, h))))

  done-IsFinished :
      (summary : Str) (w : World Float)
      → IsFinished out.now run.id (finish out run.id done summary [] w).runs
  unfolding finish finish_run
  done-IsFinished summary w =
      rw up (update-All (IsFinal out.now) (has_id run.id) _ w.runs (λ r. (refl, inl (refl, refl))))

  save_diff-IsFinished :
      (diff : Option Str) (w : World Float)
      → IsFinished out.now run.id w.runs
      → IsFinished out.now run.id (save_diff out run.id diff w).runs
  unfolding save_diff set_run_diff
  save_diff-IsFinished none w h = h
  save_diff-IsFinished (some []) w h = h
  save_diff-IsFinished (some (c ∷ json)) w h =
      All-update (λ r. has_id run.id r ≡ true → IsFinal out.now r) (has_id run.id) _ w.runs
        (λ r q g. g) h

  complete-IsFinished :
      (summary : Summary) (diff : Option Str) (w : World Float)
      → IsFinished out.now run.id (complete out run.id summary diff w).runs
  unfolding complete
  complete-IsFinished summary diff w =
      let w1 = finish out run.id done (out.summary_json summary) [] w in
      let w2 = save_diff out run.id diff w1 in
      subst
        (λ b.
          IsFinished out.now run.id
            (if b then w else record w2 { runs_done = w2.runs_done + 1 }).runs)
        (sym up) (save_diff-IsFinished diff w1 (done-IsFinished (out.summary_json summary) w))

  process_crawl-IsFinished :
      (tgt : Target) (end : CrawlError ⊎ CrawlResult Float) (w : World Float)
      → IsFinished out.now run.id (process_crawl out run tgt end w).runs
  unfolding process_crawl fail_crawl process_result
  process_crawl-IsFinished tgt (inl e) w =
      fail-IsFinished (crawl_message out e) _ (crawl_message-filled out e)
  process_crawl-IsFinished tgt (inr res) w = complete-IsFinished _ _ _

  process_login-IsFinished :
      (tgt : Target) (login : Str ⊎ Option Login) (w : World Float)
      → HasMessage login
      → IsFinished out.now run.id (process_login out run tgt login w).runs
  unfolding process_login
  process_login-IsFinished tgt (inl message) w h = fail-IsFinished message w h
  process_login-IsFinished tgt (inr login) w h = process_crawl-IsFinished tgt _ w

  process_target-IsFinished :
      (tgt : Option Target) (w : World Float)
      → IsFinished out.now run.id (process_target out run tgt w).runs
  unfolding process_target
  process_target-IsFinished none w = fail-IsFinished (codes "target lookup: db: not found") w refl
  process_target-IsFinished (some tgt) w =
      process_login-IsFinished tgt (build_login out.vault tgt) w
        (build_login-HasMessage out.vault tgt)

  -- Unless the statement that finishes a run fails, every run that is processed is then finished:
  -- its row is either done, without an error, or failed, with a message, whatever became of its
  -- target, its login, its crawl, its pages, its artifacts and its comparison.
  pub process_run-IsFinished :
      (w : World Float) → IsFinished out.now run.id (process_run out run w).runs
  unfolding process_run
  process_run-IsFinished w = process_target-IsFinished (get_target_by_id run.target_id w.targets) w
