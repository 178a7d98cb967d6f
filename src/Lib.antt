-- ===== src/Lib.antt =====
-- auditloop, a service that crawls a web site, audits its pages, and lets a language model drive a
-- goal through it.
--
-- A target has runs. A run is enqueued, claimed by a worker, crawled and compared to the run before
-- it. A target also has walkthroughs: a planner chooses one action after another, a driver performs
-- them in Chromium, and a deterministic check decides whether the goal was reached; the result is
-- compared to the walkthrough before it. All that the browser requests passes a guard against
-- requests to foreign hosts and private addresses, and, in a dry run, a guard against requests that
-- write. Pages behind a login are reached by a recipe of steps.
--
-- Files and sources:
--   Base: Booleans, lists, integers and Go strings with what package strings does to them.
--   Crawler/Ip, Crawler/Guard: internal/crawler/ssrf.go (blockedIP, hostAllowed, checkHostIP,
--     CheckURL). Crawler/Guard/Hard has the ranges that stay shut. A Refusal stands for the text of
--     ErrBlockedURL; none is a nil error.
--   Crawler/Intercept: internal/crawler/intercept.go. The interceptor is a record, handlePaused a
--     function from a paused request to the new record and what Chromium is told; `run` is a
--     history of paused requests and of arming the submit guard, in the order of the mutex.
--   Action, Action/Reply: internal/action/action.go (Validate, DedupKey, extractJSON, ParseAction).
--   Crawler/Drive: internal/crawler/driver.go, the loop of driveSession, one `round` per iteration;
--     it asks the guard before a navigation and validates each action of the planner.
--   Crawler/Drive/Session: driveSession around the loop, and Drive with its watchdog; it installs
--     and arms the interceptor.
--   Db/Table: the forms of SQL that are used, on lists of rows. Db/Runs, Db/Walkthroughs:
--     internal/db/runs.go and internal/db/walkthrough.go, with the types of internal/db/models.go;
--     one function per statement. Db/Runs/Claims and Db/Walkthroughs/Passes are histories in which
--     any callers interleave these statements.
--   Diff/Delta: internal/diff/delta.go (StringSetDelta).
--   Walkthrough/Regression: internal/walkthrough/diff.go (ComputeDiff and the keys of blockers),
--     over the rows of Db/Walkthroughs and the delta of Diff/Delta.
--   Report, Digest: the findings of a persona on a page (internal/report/report.go), and the digest of
--     the page's accessibility tree with the anchors of its elements (internal/report/a11y.go).
--   Digest/Push: internal/plugin/a11y.go (NormalizeA11yDigest, trunc). An error is its kind.
--   Gate: internal/eval/ground.go and internal/eval/verify.go. applyDOMGate first grounds the selectors
--     of the findings in the digest (Gate/Ground; in its child Names the elements behind the map of
--     names), then drops what the digest refutes (Gate/Refute,
--     Gate/Claims). Gate/Pushed joins this to the check of a push. A Go map is the list of its entries
--     where the order of a loop over it matters, and a function elsewhere.
--   Crawler/Crawl: internal/crawler/crawler.go, the loop of Crawl over its queue. A `World` is what it
--     runs on; a capture has its links, or failed, or found a dead browser.
--   Crawler/Collector: the collector of a page's console and network events, in the same file; events
--     are constructors, in the order of the mutex.
--   Limit: handlers/ratelimit.go, minIntervalLimiter. Limit/Laws has its contract over a history of
--     calls.
--   Storage: internal/storage/keys.go. Artifacts: handlers/artifacts.go, with Db/Targets for
--     internal/db/targets.go.
--   Diff/Pixels: internal/diff/diff.go. An image is its size and a function of its points.
--   Signals: internal/signals/signals.go, with the thresholds of internal/report/report.go.
--   Plugin/Schema: internal/plugin/schema.go (Validate, ReferencedFiles, WidthFor). Plugin/Map:
--     internal/plugin/map.go (MapPage).
--   Walkthrough/Generator: internal/walkthrough/generator.go, Run around the drive. Walkthrough/Refresh:
--     RefreshWalkthroughDiff of internal/walkthrough/diff.go.
--   Worker: internal/worker. A `World` is the tables, the stored objects and the counters; what the
--     worker calls outside of them is an `Outside`. Worker/Pages is persistPage, Worker/Regress
--     runDiff (with ListPages and UpdatePageDiff of internal/db/pages.go), Worker/Process ProcessRun
--     and buildLogin, Worker/Loop the loop of Run. Worker/Frame says what a step may touch;
--     a page stands under the id of its place in the table, as ids are random in the code.
--   Recipe/Login: buildLogin of the worker and of the generator.
--   Recipe, Recipe/Guided: internal/recipe/recipe.go (Validate, Compile, DeriveGuided, GotoURLs,
--     RequiredRefs).
--
-- Parameters: url.Parse, net.ParseIP and the DNS lookup are the fields of `Net` and of GuardConfig;
-- JSON decoding is an argument. Chromium and the planner are records of answers, one for each round
-- of the loop, so a theorem over all such records covers every page and every reply. Fresh ids and
-- the clock are arguments.
--
-- Bounds: the loop of the driver recurs on the number of rounds left, which is MaxActions or 20 as in
-- the source, so it needs no other fuel. The loop of a crawl recurs on a number of turns, with
-- `out_of_fuel` when there are too few; Crawler/Crawl/Termination computes a number that is enough,
-- from the room to the page limit and the length of the queue. Every other loop recurs on a list.
--
-- Simplified: strings are lists of code points whose length is counted in UTF-8 bytes; their case is
-- changed for ASCII letters only. Go's int has no upper end here. A table lists its newest row first,
-- and where SQL may take any of several rows with equal times, the first is taken. The rows of
-- walkthroughs lack the cost columns, whose numbers are floating point, and the rows of runs lack
-- the columns of the notes and evaluation jobs except for the evaluation's status. A statement
-- that fails for a reason other than its primary key is not modelled.
--
-- In a crawl the answers of the browser at a page are a function of its URL and viewport, which is no
-- restriction since the loop marks a URL as visited before it queues it; the login, the measurements,
-- the download of the favicon and the startup probe are left out.
--
-- In Worker only FinishRun and InsertPage may fail, of the statements of internal/db. A percentage of
-- changed pixels is kept as its two counts, and compared and sorted by them; the details of findings
-- are kept as they are before they become JSON. Worker/Loop takes the turns of the loop one after the
-- other, each with an `Outside` of its own. In Walkthrough/Generator only InsertWalkthroughStep may
-- fail.
--
-- Not modelled: Parse of the plugin's pushed reports, the planner of a walkthrough, the prompts and replies of the
-- evaluation by personas, notes, the storage backends, and handlers but for the artifacts and for
-- their throttle by a minimum interval (the token bucket counts in floating point), since they are
-- not yet part of this library or only call other systems; screenshots and page digests in a drive,
-- which do not influence its verdicts.
pub mod Base
pub mod Action
pub mod Crawler
pub mod Diff
pub mod Db
pub mod Walkthrough
pub mod Recipe
pub mod Digest
pub mod Report
pub mod Gate
pub mod Limit
pub mod Storage
pub mod Artifacts
pub mod Signals
pub mod Plugin
pub mod Worker
