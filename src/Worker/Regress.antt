-- ===== src/Worker/Regress.antt =====
-- internal/worker/diff.go: the comparison of a run with its baseline. A percentage is compared and
-- sorted by its two counts.
pub mod Counts
use auditloop.Base.{
  ℕ, ◌+◌, ◌*◌, Bool, true, false, not, ◌&&◌, ◌||◌, Option, none, some, List, [], ◌∷◌, ◌++◌, map,
  ltb, leb, if◌then◌else◌, ◌>>=◌, Str, codes, eqb, is_empty, length,
}
use auditloop.Base.Int.{ℤ, pos, sub_ℕ}
use auditloop.Base.Text.Order.{less}
use auditloop.Db.Table.{update, keep_rows, first}
use auditloop.Db.Runs.{Run, get_run_by_id}
use auditloop.Diff.Delta.{string_set_delta}
use auditloop.Diff.Pixels.{Comparison, compare_screenshots}
use auditloop.Storage.{page_slug, diff_key}
use auditloop.Signals.{Finding, Detail, metric, page_weight, smell, text, rule, raw}
use auditloop.Worker.{Page, ChangedPage, RunDiff, World, Outside}
use auditloop.Worker.Pages.{put}

-- diff_pct > 0
abbrev pub is_positive : ℕ × ℕ → Bool
is_positive (changed, total) = ltb 0 total && ltb 0 changed

-- diff_pct >= VisualRegressionThreshold, which is 1 percent.
abbrev pub is_at_threshold : ℕ × ℕ → Bool
is_at_threshold (changed, total) = ltb 0 total && leb total (100 * changed)

-- The bytes, none of them when there are none.
abbrev pub or_empty : Option Str → Str
or_empty none = []
or_empty (some s) = s

-- The comparison is meaningful, and there is something to show.
unfoldable pub is_shown : Comparison → Bool
is_shown c =
    not c.size_changed
    && (not c.too_large
        && (is_positive (c.changed_pixels, c.total_pixels) && not (is_empty (or_empty c.diff_png))))

-- The first has a greater percentage.
abbrev pub is_worse : ℕ × ℕ → ℕ × ℕ → Bool
is_worse (changed, total) (changed', total') = ltb (changed' * total) (changed * total')

unfoldable pub is_regression : ChangedPage → Bool
is_regression c = not c.size_changed && is_at_threshold c.diff_counts

unfoldable pub insert_worst : ChangedPage → List ChangedPage → List ChangedPage
insert_worst c [] = c ∷ []
insert_worst c (d ∷ ds) =
    let rest = insert_worst c ds in
    if is_worse d.diff_counts c.diff_counts then d ∷ rest else c ∷ d ∷ ds

-- sort.SliceStable, worst first.
unfoldable pub sort_worst : List ChangedPage → List ChangedPage
unfolding insert_worst
sort_worst [] = []
sort_worst (c ∷ cs) = insert_worst c (sort_worst cs)

module _ {Float : Type 0} where
  unfoldable pub before_page : Page Float → Page Float → Bool
  unfolding less eqb
  before_page p q = if eqb p.url q.url then not (less q.viewport p.viewport) else less p.url q.url

  unfoldable pub insert_ordered : Page Float → List (Page Float) → List (Page Float)
  unfolding before_page
  insert_ordered p [] = p ∷ []
  insert_ordered p (q ∷ qs) =
      let rest = insert_ordered p qs in if before_page p q then p ∷ q ∷ qs else q ∷ rest

  unfoldable pub ordered : List (Page Float) → List (Page Float)
  unfolding insert_ordered
  ordered [] = []
  ordered (p ∷ ps) = insert_ordered p (ordered ps)

  unfoldable pub list_pages : Str → List (Page Float) → List (Page Float)
  unfolding eqb ordered
  list_pages run_id pages = ordered (keep_rows (λ p. eqb p.run_id run_id) pages)

  -- prevByKey: of the pages with the same URL and viewport the last.
  unfoldable pub matching : Page Float → List (Page Float) → Option (Page Float)
  unfolding eqb
  matching p [] = none
  matching p (q ∷ qs) = elim (matching p qs) [
    | some later ↦ some later
    | none ↦ if eqb q.url p.url && eqb q.viewport p.viewport then some q else none
  ]

  unfoldable pub run_totals : List (Page Float) → ℕ × (ℕ × ℕ)
  run_totals [] = (0, (0, 0))
  run_totals (p ∷ ps) =
      let (a, (c, n)) = run_totals ps in
      (
        p.axe_violation_count + a,
        (p.console_first_party_count + c, p.network_first_party_count + n),
      )

module _ {Float : Type 0} (out : Outside Float) where
  unfoldable pub fetch : Str → World Float → Option Str
  unfolding eqb
  fetch key w =
      if out.get_fails key
      then none
      else elim (first (λ o. eqb o.0 key) w.objects) [ some o ↦ some o.1.1 | none ↦ none ]

  abbrev pub detail_id : Detail Float → Str
  detail_id (metric name rating value) = []
  detail_id (page_weight bytes count) = []
  detail_id (smell name n examples) = []
  detail_id (text s) = []
  detail_id (rule id s) = id
  detail_id (raw json) = out.rule_id json

  -- runA11yRuleIDs, before the empty and repeated ids are left out, which StringSetDelta does.
  unfoldable pub run_a11y_rule_ids : List (Page Float) → World Float → List Str
  unfolding eqb
  run_a11y_rule_ids [] w = []
  run_a11y_rule_ids (p ∷ ps) w =
      map (λ f. detail_id f.1.detail)
        (keep_rows (λ f. eqb f.0 p.id && eqb f.1.type (codes "a11y")) w.findings)
      ++ run_a11y_rule_ids ps w

  -- The comparison of a page with the one of the baseline, if it comes to one.
  unfoldable pub compared : List (Page Float) → Page Float → World Float → Option Comparison
  unfolding matching fetch compare_screenshots
  compared prev cp w = do
    base ← matching cp prev
    base_img ←
        if is_empty base.screenshot_key || is_empty cp.screenshot_key
        then none
        else fetch base.screenshot_key w
    cur_img ← fetch cp.screenshot_key w
    compare_screenshots out.decode_png out.encode_png base_img cur_img

  -- A meaningful comparison has its image uploaded; the key stays empty otherwise.
  unfoldable pub upload_diff : Str → Str → Page Float → Comparison → World Float → Str × World Float
  unfolding put page_slug diff_key is_shown
  upload_diff run_id target_slug cp c w =
      let key = diff_key target_slug run_id (page_slug out.sha256_hex cp.url) cp.viewport in
      let png = or_empty c.diff_png in
      if is_shown c
      then (if out.put_fails key then [] else key, put out key (codes "image/png") png w)
      else ([], w)

  unfoldable pub update_page_diff : Str → ℕ × ℕ → Str → World Float → World Float
  unfolding eqb
  update_page_diff id counts key w = record w {
    pages =
        update (λ p. eqb p.id id) (λ p. record p { diff_counts = counts; diff_key = key }) w.pages;
  }

  -- The entry of a page, and the two counters.
  unfoldable pub note_changed : Page Float → Comparison → Str → RunDiff → RunDiff
  note_changed cp c key d =
      let counts : ℕ × ℕ = (c.changed_pixels, c.total_pixels) in
      let entry : ChangedPage = record {
        url = cp.url;
        viewport = cp.viewport;
        diff_counts = counts;
        diff_key = key;
        size_changed = c.size_changed;
        not_compared = c.too_large;
      } in
      record d {
        changed_pages =
            if is_positive counts || (c.size_changed || c.too_large)
            then d.changed_pages ++ entry ∷ []
            else d.changed_pages;
        pages_changed =
            if not c.size_changed && is_at_threshold counts
            then d.pages_changed + 1
            else d.pages_changed;
        pages_size_changed =
            if not (not c.size_changed && is_at_threshold counts) && c.size_changed
            then d.pages_size_changed + 1
            else d.pages_size_changed;
      }

  unfoldable pub diff_compared :
      Str → Str → Page Float → Option Comparison → World Float × RunDiff → World Float × RunDiff
  unfolding upload_diff update_page_diff note_changed
  diff_compared run_id target_slug cp none state = state
  diff_compared run_id target_slug cp (some c) (w, d) =
      let (key, w') = upload_diff run_id target_slug cp c w in
      (update_page_diff cp.id (c.changed_pixels, c.total_pixels) key w', note_changed cp c key d)

  -- The loop over the pages of the run.
  unfoldable pub diff_pages :
      Str
      → Str
      → List (Page Float)
      → List (Page Float)
      → World Float × RunDiff
      → World Float × RunDiff
  unfolding compared diff_compared
  diff_pages run_id target_slug prev [] state = state
  diff_pages run_id target_slug prev (cp ∷ cps) (w, d) =
      diff_pages run_id target_slug prev cps
        (diff_compared run_id target_slug cp (compared prev cp w) (w, d))

  unfoldable pub new_diff : Run → List (Page Float) → List (Page Float) → RunDiff
  unfolding string_set_delta
  new_diff prev prev_pages cur_pages =
      let (added, removed) =
        string_set_delta (map (λ p. p.url) prev_pages) (map (λ p. p.url) cur_pages) in
      record {
        prev_run_id = prev.id;
        prev_run_at = elim prev.finished_at [ some t ↦ t | none ↦ prev.created_at ];
        pages_added = added;
        pages_removed = removed;
        pages_changed = 0;
        pages_size_changed = 0;
        new_a11y_rules = [];
        resolved_a11y_rules = [];
        a11y_delta = pos 0;
        console_delta = pos 0;
        network_delta = pos 0;
        changed_pages = [];
      }

  -- What follows the loop.
  unfoldable pub close_diff :
      List (Page Float) → List (Page Float) → World Float → RunDiff → RunDiff
  unfolding sort_worst run_a11y_rule_ids string_set_delta run_totals
  close_diff prev_pages cur_pages w d =
      let (new_rules, resolved) =
        string_set_delta (run_a11y_rule_ids prev_pages w) (run_a11y_rule_ids cur_pages w) in
      let (pv, (pc, pn)) = run_totals prev_pages in
      let (cv, (cc', cn)) = run_totals cur_pages in
      record d {
        changed_pages = sort_worst d.changed_pages;
        new_a11y_rules = new_rules;
        resolved_a11y_rules = resolved;
        a11y_delta = sub_ℕ cv pv;
        console_delta = sub_ℕ cc' pc;
        network_delta = sub_ℕ cn pn;
      }

  unfoldable pub diff_against : Run → Str → World Float → Run → World Float × Option RunDiff
  unfolding list_pages diff_pages new_diff close_diff
  diff_against run target_slug w prev =
      let prev_pages = list_pages prev.id w.pages in
      let cur_pages = list_pages run.id w.pages in
      let (w', d) =
        diff_pages run.id target_slug prev_pages cur_pages
          (w, new_diff prev prev_pages cur_pages) in
      (w', some (close_diff prev_pages cur_pages w' d))

  -- runDiff; the pages are read before the loop updates them.
  unfoldable pub run_diff : Run → Str → World Float → World Float × Option RunDiff
  unfolding get_run_by_id diff_against
  run_diff run target_slug w =
      if is_empty run.prev_run_id then (w, none) else elim (get_run_by_id run.prev_run_id w.runs) [
        | none ↦ (w, none)
        | some prev ↦ diff_against run target_slug w prev
      ]
