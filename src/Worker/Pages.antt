-- ===== src/Worker/Pages.antt =====
-- internal/worker/worker.go and signals.go: what is stored of a crawled page.
use auditloop.Base.{
  ℕ, ◌+◌, Bool, not, Option, none, some, List, [], ◌∷◌, ◌++◌, map, leb, if◌then◌else◌, Str, codes,
  is_empty, length,
}
use auditloop.Db.Table.{count}
use auditloop.Storage.{page_slug, screenshot_key, axe_key, network_key, a11y_digest_key}
use auditloop.Signals.{Finding, raw, perf_findings, layout_findings}
use auditloop.Worker.{Logged, Captured, Page, PageReport, Report, Summary, World, Outside}

abbrev pub sev_for_console : Bool → Str
sev_for_console first_party = if first_party then codes "serious" else codes "info"

abbrev pub sev_for_network : Logged → Str
sev_for_network e =
    if leb 500 e.status
    then codes "serious"
    else if e.first_part
    then codes "serious"
    else codes "minor"

abbrev pub first_parties : List Logged → ℕ
first_parties es = count (λ e. e.first_part) es

abbrev pub third_parties : List Logged → ℕ
third_parties es = count (λ e. not e.first_part) es

-- The key of an artifact that is empty when there is none.
abbrev pub key_if : Str → Str → Str
key_if body key = if is_empty body then [] else key

module _ {Float : Type 0} (out : Outside Float) where
  unfoldable pub put : Str → Str → Str → World Float → World Float
  put key content_type body w =
      if out.put_fails key
      then w
      else record w { objects = (key, (content_type, body)) ∷ w.objects }

  unfoldable pub put_some : Str → Str → Str → World Float → World Float
  unfolding put
  put_some key content_type body w = if is_empty body then w else put key content_type body w

  abbrev pub violation : Str × Str → Finding Float
  violation v = record {
    type = codes "a11y";
    severity = if is_empty v.0 then codes "moderate" else v.0;
    detail = raw v.1;
  }

  abbrev pub violations_of : Option (List (Str × Str)) → List (Finding Float)
  violations_of none = []
  violations_of (some vs) = map violation vs

  abbrev pub console_finding : Logged → Finding Float
  console_finding e = record {
    type = codes "console";
    severity = sev_for_console e.first_part;
    detail = raw e.json;
  }

  abbrev pub network_finding : Logged → Finding Float
  network_finding e = record {
    type = codes "network";
    severity = sev_for_network e;
    detail = raw e.json;
  }

  unfoldable pub page_findings : Captured Float → List (Finding Float)
  unfolding perf_findings layout_findings
  page_findings pr =
      (if is_empty pr.axe_json then [] else violations_of (out.axe_violations pr.axe_json))
      ++ (map console_finding pr.console_errors
          ++ (map network_finding pr.network_errors
              ++ (perf_findings out.above_cls_good out.above_cls_poor pr.perf
                  ++ layout_findings pr.layout pr.mobile)))

  unfoldable pub page_row : Str → Str → Captured Float → Str → Page Float
  unfolding page_slug screenshot_key axe_key a11y_digest_key
  page_row run_id target_slug pr id =
      let slug = page_slug out.sha256_hex pr.url in
      record {
        id = id;
        run_id = run_id;
        url = pr.url;
        viewport = pr.viewport;
        screenshot_key = screenshot_key target_slug run_id slug pr.viewport;
        axe_key = key_if pr.axe_json (axe_key target_slug run_id slug);
        a11y_digest_key = key_if pr.a11y_digest_json (a11y_digest_key target_slug run_id slug);
        axe_violation_count = pr.axe_violations;
        console_first_party_count = first_parties pr.console_errors;
        console_third_party_count = third_parties pr.console_errors;
        network_first_party_count = first_parties pr.network_errors;
        network_third_party_count = third_parties pr.network_errors;
        load_ms = pr.load_ms;
        perf = pr.perf;
        diff_counts = (0, 0);
        diff_key = [];
      }

  unfoldable pub page_report : Str → Str → Captured Float → PageReport Float
  unfolding page_slug screenshot_key axe_key network_key a11y_digest_key page_findings
  page_report run_id target_slug pr =
      let slug = page_slug out.sha256_hex pr.url in
      record {
        url = pr.url;
        viewport = pr.viewport;
        width = pr.width;
        screenshot_key = screenshot_key target_slug run_id slug pr.viewport;
        axe_key = key_if pr.axe_json (axe_key target_slug run_id slug);
        a11y_digest_key = key_if pr.a11y_digest_json (a11y_digest_key target_slug run_id slug);
        network_key = key_if pr.network_log_json (network_key target_slug run_id slug);
        load_ms = pr.load_ms;
        console = (first_parties pr.console_errors, third_parties pr.console_errors);
        network = (first_parties pr.network_errors, third_parties pr.network_errors);
        a11y = (pr.axe_violations, pr.axe_nodes);
        perf = pr.perf;
        layout = pr.layout;
        findings = page_findings pr;
      }

  abbrev pub rolled_up : Captured Float → Summary → Summary
  rolled_up pr s = record s {
    a11y_violations = s.a11y_violations + pr.axe_violations;
    console_first = s.console_first + first_parties pr.console_errors;
    console_third = s.console_third + third_parties pr.console_errors;
    network_first = s.network_first + first_parties pr.network_errors;
    network_third = s.network_third + third_parties pr.network_errors;
  }

  -- The uploads of a page.
  unfoldable pub upload : Str → Str → Captured Float → World Float → World Float
  unfolding page_slug screenshot_key axe_key network_key a11y_digest_key put_some
  upload run_id target_slug pr w =
      let slug = page_slug out.sha256_hex pr.url in
      let json = codes "application/json" in
      let w1 =
        put_some (screenshot_key target_slug run_id slug pr.viewport) (codes "image/png")
          pr.screenshot_png w in
      let w2 = put_some (axe_key target_slug run_id slug) json pr.axe_json w1 in
      let w3 = put_some (network_key target_slug run_id slug) json pr.network_log_json w2 in
      put_some (a11y_digest_key target_slug run_id slug) json pr.a11y_digest_json w3

  -- The row, the findings and the entry of the report, unless the row cannot be inserted.
  unfoldable pub record_page :
      Str → Str → Captured Float → World Float × Report Float → World Float × Report Float
  unfolding page_findings page_row page_report
  record_page run_id target_slug pr (w, rep) =
      let id = out.page_id (length w.pages) in
      if out.insert_page_fails pr.url pr.viewport then (w, rep) else (
        record w {
          pages = w.pages ++ page_row run_id target_slug pr id ∷ [];
          findings = w.findings ++ map (λ f. (id, f)) (page_findings pr);
        },
        record rep {
          pages = rep.pages ++ page_report run_id target_slug pr ∷ [];
          summary = rolled_up pr rep.summary;
        },
      )

  unfoldable pub persist_page :
      Str → Str → Captured Float → World Float × Report Float → World Float × Report Float
  unfolding upload record_page
  persist_page run_id target_slug pr (w, rep) =
      record_page run_id target_slug pr (upload run_id target_slug pr w, rep)

  -- The loop over the pages of a crawl.
  unfoldable pub persist_pages :
      Str → Str → List (Captured Float) → World Float × Report Float → World Float × Report Float
  unfolding persist_page
  persist_pages run_id target_slug [] state = state
  persist_pages run_id target_slug (pr ∷ prs) state =
      persist_pages run_id target_slug prs (persist_page run_id target_slug pr state)
