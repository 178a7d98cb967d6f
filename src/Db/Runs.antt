-- ===== src/Db/Runs.antt =====
-- internal/db/runs.go: the table of runs. Times are what nowRFC gives, as numbers; a fresh id is an
-- argument. Of the columns for the notes and evaluation jobs only the evaluation's status is kept.
pub mod Baselines
pub mod Claims
mod Tests
use auditloop.Base.{
  ℕ, Bool, true, false, ◌&&◌, ◌||◌, not, Option, none, some, List, [], ◌∷◌, ◌==◌, if◌then◌else◌,
  is_some, Str, codes, eqb,
}
use auditloop.Db.Table.{count, update, newest, oldest, first, sorted_newest, keep_rows}

pub data RunStatus : Type 0 where
  queued running done failed : RunStatus

pub data Trigger : Type 0 where
  manual plugin walkthrough : Trigger

-- The status of an evaluation job.
pub data EvalStatus : Type 0 where
  eval_idle eval_generating eval_done eval_failed : EvalStatus

pub record Run : Type 0 where
  pub id : Str
  pub target_id : Str
  pub user_id : Str
  pub status : RunStatus
  pub trigger : Trigger
  pub label : Str
  pub environment : Str
  pub prev_run_id : Str
  pub favicon_key : Str
  pub summary_json : Str
  pub diff_json : Str
  pub error : Str
  pub created_at : ℕ
  pub started_at : Option ℕ
  pub finished_at : Option ℕ
  pub eval_status : EvalStatus

abbrev pub is_queued : RunStatus → Bool
is_queued queued = true
is_queued running = false
is_queued done = false
is_queued failed = false

abbrev pub is_running : RunStatus → Bool
is_running queued = false
is_running running = true
is_running done = false
is_running failed = false

abbrev pub is_done : RunStatus → Bool
is_done queued = false
is_done running = false
is_done done = true
is_done failed = false

abbrev pub is_walkthrough : Trigger → Bool
is_walkthrough manual = false
is_walkthrough plugin = false
is_walkthrough walkthrough = true

abbrev pub has_id : Str → Run → Bool
has_id id r = eqb r.id id

abbrev pub can_be_baseline : Str → Str → Run → Bool
can_be_baseline target exclude r =
    eqb r.target_id target
    && is_done r.status
    && not (eqb r.id exclude)
    && not (is_walkthrough r.trigger)

unfoldable pub latest_done_run : Str → Str → List Run → Option Run
latest_done_run target exclude runs =
    newest (λ r. r.created_at) (can_be_baseline target exclude) runs

-- The id of the baseline, empty when there is none.
abbrev pub id_of : Option Run → Str
id_of none = []
id_of (some r) = r.id

-- INSERT: the primary key admits one row per id.
abbrev pub insert_run : Run → List Run → Option (List Run)
insert_run r runs = if is_some (first (has_id r.id) runs) then none else some (r ∷ runs)

abbrev pub new_run : Str → Str → Str → ℕ → List Run → Run
new_run id user target now runs = record {
  id = id;
  target_id = target;
  user_id = user;
  status = queued;
  trigger = manual;
  label = [];
  environment = [];
  prev_run_id = id_of (latest_done_run target [] runs);
  favicon_key = [];
  summary_json = codes "{}";
  diff_json = [];
  error = [];
  created_at = now;
  started_at = none;
  finished_at = none;
  eval_status = eval_idle;
}

unfoldable pub create_run : Str → Str → Str → ℕ → List Run → Option (List Run)
create_run id user target now runs = insert_run (new_run id user target now runs) runs

unfoldable pub create_pushed_run : Str → Str → Str → Str → Str → ℕ → List Run → Option (List Run)
create_pushed_run id user target label environment now runs =
    insert_run
      (record (new_run id user target now runs) {
        status = running;
        trigger = plugin;
        label = label;
        environment = environment;
        started_at = some now;
      })
      runs

unfoldable pub set_run_diff : Str → Str → List Run → List Run
set_run_diff id diff runs = update (has_id id) (λ r. record r { diff_json = diff }) runs

unfoldable pub set_run_favicon : Str → Str → List Run → List Run
set_run_favicon id key runs = update (has_id id) (λ r. record r { favicon_key = key }) runs

unfoldable pub get_run : Str → Str → List Run → Option Run
get_run user id runs = first (λ r. has_id id r && eqb r.user_id user) runs

unfoldable pub get_run_by_id : Str → List Run → Option Run
get_run_by_id id runs = first (has_id id) runs

unfoldable pub list_runs : Str → Str → List Run → List Run
list_runs user target runs =
    sorted_newest (λ r. r.created_at)
      (keep_rows
        (λ r. eqb r.user_id user && eqb r.target_id target && not (is_walkthrough r.trigger)) runs)

-- The first statement of ClaimNextQueuedRun: the oldest queued run.
unfoldable pub next_queued : List Run → Option Run
next_queued runs = oldest (λ r. r.created_at) (λ r. is_queued r.status) runs

abbrev pub still_queued : Str → Run → Bool
still_queued id r = has_id id r && is_queued r.status

-- Its second statement: whether exactly one row was changed, and the table.
unfoldable pub claim_queued : Str → ℕ → List Run → Bool × List Run
claim_queued id now runs = (
  count (still_queued id) runs == 1,
  update (still_queued id) (λ r. record r { status = running; started_at = some now }) runs,
)

abbrev pub claim_picked : Option Run → ℕ → List Run → Option Run × List Run
claim_picked none now runs = (none, runs)
claim_picked (some r) now runs =
    let (won, runs') = claim_queued r.id now runs in
    (if won then get_run_by_id r.id runs' else none, runs')

-- Both statements, with nothing between them.
unfoldable pub claim_next_queued_run : ℕ → List Run → Option Run × List Run
claim_next_queued_run now runs = claim_picked (next_queued runs) now runs

unfoldable pub finish_run : Str → RunStatus → Str → Str → ℕ → List Run → List Run
finish_run id status summary message now runs =
    update (has_id id)
      (λ r. record r {
        status = status;
        summary_json = summary;
        error = message;
        finished_at = some now;
      })
      runs

-- The table and the number of rows swept.
unfoldable pub recover_stale_runs : ℕ → List Run → List Run × ℕ
recover_stale_runs now runs = (
  update (λ r. is_running r.status)
      (λ r. record r {
        status = failed;
        error = codes "interrupted by restart — re-run the audit";
        finished_at = some now;
      })
      runs,
  count (λ r. is_running r.status) runs,
)
