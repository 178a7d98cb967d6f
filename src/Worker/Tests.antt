-- ===== src/Worker/Tests.antt =====
-- A run of one page at two viewports, whose target is there.
use auditloop.Base.{
  ℕ, ◌≡◌, refl, true, false, Option, none, some, ◌⊎◌, inl, inr, [], ◌∷◌, ◌≤◌, Bool-cases, arith,
  if◌then◌else◌, Str, codes, eqb,
}
use auditloop.Base.Int.{ℤ, pos}
use auditloop.Db.Runs.{Run, new_run, queued, running}
use auditloop.Db.Targets.{Target}
use auditloop.Diff.Pixels.{differs, rgb8, channel_delta}
use auditloop.Worker.{
  Captured, CrawlResult, CrawlError, crawl_error, CrawlOptions, World, Outside, RunDiff, Page,
}
use auditloop.Db.Targets.{get_target_by_id}
use auditloop.Worker.Process.{
  process_run, process_target, process_login, process_crawl, fail_crawl, fail, finish,
}
use auditloop.Recipe.Login.{build_login}
use auditloop.Worker.Frame.{IsStep, IsApart}
use auditloop.Worker.Isolated.{process_run-IsStep}
use auditloop.Db.Table.{count}
use auditloop.Worker.Regress.{run_diff}
use auditloop.Worker.Regress.Counts.{IsCountedIfAny, run_diff-IsCountedIfAny}
use auditloop.Worker.Loop.{work}
use auditloop.Worker.Loop.Laws.{waits, runs_now, work_drains}
use auditloop.Worker.Finished.{IsFinished, process_run-IsFinished}

abbrev run : Run
run = record (new_run (codes "r1") (codes "me") (codes "t1") 3 []) { status = running }

abbrev target : Target
target = record {
  id = codes "t1";
  user_id = codes "me";
  name = codes "App";
  base_url = codes "https://app.test";
  verified_domains = [];
  auth_mode = codes "none";
  driving_enabled = false;
  allow_real_submit = false;
  created_at = 1;
}

abbrev page : Str → Captured ℤ
page viewport = record {
  url = codes "https://app.test/";
  viewport = viewport;
  width = 390;
  mobile = true;
  screenshot_png = codes "png";
  axe_json = codes "{}";
  axe_violations = 0;
  axe_nodes = 0;
  console_errors = record { first_part = true; status = 0; json = codes "{}" } ∷ [];
  network_errors = [];
  network_log_json = [];
  a11y_digest_json = [];
  load_ms = pos 12;
  perf = record {
    lcp_ms = pos 900;
    cls = pos 0;
    tbt_ms = pos 0;
    weight_bytes = pos 0;
    req_count = pos 3;
  };
  layout = record {
    horizontal_overflow = false;
    scroll_width = pos 0;
    inner_width = pos 0;
    small_tap_targets = pos 0;
    small_text = pos 0;
    missing_viewport_meta = false;
    images_no_dims = pos 0;
    examples = [];
  };
}

-- The host of any URL, and one digest for all.
abbrev outside : (CrawlOptions → CrawlError ⊎ CrawlResult ℤ) → Outside ℤ
outside crawl = record {
  crawl = crawl;
  max_pages = 25;
  max_depth = 2;
  put_fails = λ key. false;
  get_fails = λ key. false;
  insert_page_fails = λ url viewport. false;
  finish_run_fails = false;
  page_id = λ n. n ∷ [];
  now = 9;
  sha256_hex = λ s. codes "9f86d081884c7d65";
  host_of = λ url. codes "app.test";
  axe_violations = λ json. some [];
  report_json = λ rep. some (codes "{}");
  summary_json = λ s. codes "{}";
  diff_json = λ d. none;
  rule_id = λ json. [];
  decode_png = λ png. none;
  encode_png = λ image. none;
  above_cls_good = λ z. false;
  above_cls_poor = λ z. false;
  vault = record {
    login_recipes = λ id. none;
    decrypt = none;
    parse_steps = λ json. none;
    parse_credentials = λ json. none;
  };
}

abbrev good : Outside ℤ
good = outside (λ options. inr (record {
  pages = page (codes "mobile") ∷ page (codes "desktop") ∷ [];
  urls_discovered = 1;
  urls_blocked = 0;
  favicon = codes "ico";
  favicon_ext = codes "ico";
}))

abbrev bad : Outside ℤ
bad = outside (λ options. inl (crawl_error (codes "no chromium")))

abbrev world : World ℤ
world = record {
  runs = run ∷ [];
  targets = target ∷ [];
  pages = [];
  findings = [];
  objects = [];
  runs_done = 0;
  runs_failed = 0;
}

process_run-IsFinished_example : IsFinished 9 (codes "r1") (process_run good run world).runs
process_run-IsFinished_example = process_run-IsFinished good run refl world

-- One crawl error counts as two failed runs.
failed_twice : (process_run bad run world).runs_failed ≡ 2
unfolding process_run process_target process_login process_crawl fail_crawl fail finish build_login
    get_target_by_id eqb
failed_twice = refl

abbrev shot_of : Str → Str → Page ℤ
shot_of run_id key = record {
  id = run_id;
  run_id = run_id;
  url = codes "https://app.test/";
  viewport = codes "mobile";
  screenshot_key = key;
  axe_key = [];
  a11y_digest_key = [];
  axe_violation_count = 0;
  console_first_party_count = 0;
  console_third_party_count = 0;
  network_first_party_count = 0;
  network_third_party_count = 0;
  load_ms = pos 0;
  perf = (page []).perf;
  diff_counts = (0, 0);
  diff_key = [];
}

-- A page of another run is there, with the id of its place.
abbrev shared_world : World ℤ
shared_world = record world {
  pages = record (shot_of (codes "r0") (codes "a")) { id = 0 ∷ [] } ∷ [];
}

process_run-IsStep_example :
    IsStep (codes "r1") shared_world (process_run good run shared_world)
    × IsApart (codes "r1") (λ n. n ∷ []) shared_world (process_run good run shared_world)
process_run-IsStep_example =
    process_run-IsStep good run (refl, refl) shared_world (λ m n e. ground (arith, e)) (refl, tt)

abbrev second : Run
second = record run { id = codes "r2"; prev_run_id = codes "r1" }

-- Both runs have stored a screenshot of the page.
abbrev compared_world : World ℤ
compared_world = record world {
  runs = second ∷ run ∷ [];
  pages = shot_of (codes "r1") (codes "a") ∷ shot_of (codes "r2") (codes "b") ∷ [];
  objects =
      (codes "b", (codes "image/png", codes "2"))
      ∷ (codes "a", (codes "image/png", codes "1"))
      ∷ [];
}

-- An image of one point, bright or dark.
abbrev decoding : Outside ℤ
decoding = record good {
  decode_png = λ png. some (record {
    width = 1;
    height = 1;
    at = λ x y.
        if eqb png (codes "2")
        then record { red = 65535; green = 65535; blue = 65535 }
        else record { red = 0; green = 0; blue = 0 };
  });
  encode_png = λ image. some (codes "png");
}

run_diff-IsCountedIfAny_example :
    IsCountedIfAny (run_diff decoding second (codes "app") compared_world).1
run_diff-IsCountedIfAny_example =
    run_diff-IsCountedIfAny decoding second (codes "app") compared_world

-- The page has changed.
abbrev changed_in : Option RunDiff → ℕ
changed_in none = 0
changed_in (some d) = d.pages_changed

changed_test : changed_in (run_diff decoding second (codes "app") compared_world).1 ≡ 1
unfolding run_diff differs rgb8 channel_delta
changed_test = refl

abbrev waiting_world : World ℤ
waiting_world = record world { runs = record run { status = queued } ∷ [] }

work_drains_example :
    (count waits (work (good ∷ bad ∷ []) waiting_world).runs ≡ 0)
    × (count runs_now (work (good ∷ bad ∷ []) waiting_world).runs
        ≤ count runs_now waiting_world.runs)
work_drains_example =
    work_drains (good ∷ bad ∷ []) waiting_world (refl, (refl, tt))
      ((λ id. ground (arith, Bool-cases (eqb (codes "r1") id))), ((refl, refl), tt)) (omega arith)
