-- ===== src/Worker/Frame/Compared.antt =====
-- What the comparison with the baseline may touch.
use auditloop.Base.{
  ◌≡◌, refl, sym, arith, inl, inr, Option, none, some, List, [], ◌∷◌, ◌++◌, Bool-cases,
  Option-cases, All-weaken, Str, codes, is_empty, All,
}
use mathlib.Core.Path.{subst}
use mathlib.Core.List.{append-nil}
use auditloop.Worker.Others.{
  AreDistinct, IsNumbered, IsNumbered-update, others-update, IsOwn, list_pages-IsOwn,
}
use auditloop.Db.Table.Laws.{All-update}
use auditloop.Db.Runs.{Run, get_run_by_id}
use auditloop.Diff.Pixels.{Comparison}
use auditloop.Storage.{◌slash◌, slug, page_slug, diff_key}
use auditloop.Storage.Laws.{IsToken}
use auditloop.Worker.{Page, RunDiff, World, Outside}
use auditloop.Worker.Pages.{put}
use auditloop.Worker.Regress.{
  upload_diff, update_page_diff, diff_compared, diff_pages, run_diff, diff_against, compared,
  is_shown, or_empty, list_pages, new_diff,
}
use auditloop.Worker.Frame.{
  IsStep, IsApart, Steps, IsStep-pages, IsStep-trans, IsApart-trans, Steps-refl,
}
use auditloop.Worker.Frame.Stored.{put-Steps}

-- What a run is given: an id without slashes, and a slug.
module _ {Float : Type 0} (out : Outside Float) (id target : Str) (h : IsToken target)
    (k : IsToken id) where
  -- The same of a step that changes these pages, where they are the run's own.
  abbrev pub OwnSteps : World Float → List (Page Float) → World Float → Type 0
  OwnSteps w cps w' =
      IsStep id w w'
      × (AreDistinct out.page_id
          → IsNumbered out.page_id w.pages
          → All (λ p. IsOwn id w.pages p.id) cps
          → IsApart id out.page_id w w')

  upload_diff-Steps :
      (cp : Page Float) (c : Comparison) (w : World Float)
      → Steps id out.page_id w (upload_diff out id target cp c w).1
  unfolding upload_diff diff_key
  upload_diff-Steps cp c w =
      let page = page_slug out.sha256_hex cp.url in
      elim (Bool-cases (is_shown c)) [
        | inl e ↦ rw e (
            put-Steps out id target h k (page slash (slug cp.viewport ++ codes ".diff.png"))
              (codes "image/png") (or_empty c.diff_png) w)
        | inr e ↦ rw e (Steps-refl id out.page_id w)
      ]

  upload_diff-pages :
      (cp : Page Float) (c : Comparison) (w : World Float)
      → (upload_diff out id target cp c w).1.pages ≡ w.pages
  unfolding upload_diff put
  upload_diff-pages cp c w = ground arith

  diff_compared-Steps :
      (cp : Page Float) (c : Option Comparison) (w : World Float) (d : RunDiff)
      → OwnSteps w (cp ∷ []) (diff_compared out id target cp c (w, d)).0
  unfolding diff_compared update_page_diff
  diff_compared-Steps cp none w d =
      let (step, apart) = Steps-refl id out.page_id w in (step, λ u n own. apart u n)
  diff_compared-Steps cp (some c) w d =
      let w1 = (upload_diff out id target cp c w).1 in
      let (step, apart) = upload_diff-Steps cp c w in
      (
        IsStep-trans id out.page_id w w1 _ step (IsStep-pages id out.page_id w1 _ refl refl refl),
        λ u n own.
            let n1 = (apart u n).numbered in
            IsApart-trans id out.page_id w w1 _ (apart u n) (record {
              numbered = IsNumbered-update out.page_id _ _ w1.pages (λ p. refl) n1;
              rows =
                  others-update id _ _ w1.pages (λ p. refl)
                    (subst (λ ps. IsOwn id ps cp.id) (sym (upload_diff-pages cp c w)) own.0);
              found = [];
              findings = sym (append-nil w1.findings);
              apart = tt;
            }),
      )

  diff_compared-IsOwn :
      (cp : Page Float) (c : Option Comparison) (w : World Float) (d : RunDiff) (page : Str)
      → IsOwn id w.pages page
      → IsOwn id (diff_compared out id target cp c (w, d)).0.pages page
  unfolding diff_compared update_page_diff
  diff_compared-IsOwn cp none w d page h = h
  diff_compared-IsOwn cp (some c) w d page h =
      let w1 = (upload_diff out id target cp c w).1 in
      All-update _ _ _ w1.pages (λ r e k. k)
        (subst (λ ps. IsOwn id ps page) (sym (upload_diff-pages cp c w)) h)

  pub diff_pages-Steps :
      (prev cps : List (Page Float)) (w : World Float) (d : RunDiff)
      → OwnSteps w cps (diff_pages out id target prev cps (w, d)).0
  unfolding diff_pages
  diff_pages-Steps prev [] w d =
      let (step, apart) = Steps-refl id out.page_id w in (step, λ u n own. apart u n)
  diff_pages-Steps prev (cp ∷ cps) w d =
      let found = compared out prev cp w in
      let state = diff_compared out id target cp found (w, d) in
      let (step, apart) = diff_compared-Steps cp found w d in
      let (rest, apart') = diff_pages-Steps prev cps state.0 state.1 in
      (
        IsStep-trans id out.page_id w state.0 _ step rest,
        λ u n own.
            let first = apart u n (own.0, tt) in
            IsApart-trans id out.page_id w state.0 _ first (
              apart' u first.numbered
                (All-weaken _ _ cps (λ p h. diff_compared-IsOwn cp found w d p.id h) own.1)),
      )

module _ {Float : Type 0} (out : Outside Float) (run : Run) (target : Str) (h : IsToken target)
    (k : IsToken run.id) where
  pub run_diff-Steps : (w : World Float) → Steps run.id out.page_id w (run_diff out run target w).0
  unfolding run_diff diff_against
  run_diff-Steps w = elim (Bool-cases (is_empty run.prev_run_id)) [
    | inl e ↦ rw e (Steps-refl run.id out.page_id w)
    | inr e ↦ elim (Option-cases (get_run_by_id run.prev_run_id w.runs)) [
      | inl n ↦ rw (e, n) (Steps-refl run.id out.page_id w)
      | inr (prev, f) ↦
          let prev_pages = list_pages prev.id w.pages in
          let cur_pages = list_pages run.id w.pages in
          rw (e, f)
            (let (step, apart) =
                diff_pages-Steps out run.id target h k prev_pages cur_pages w
                  (new_diff out prev prev_pages cur_pages) in
              (step, λ u n. apart u n (list_pages-IsOwn run.id out.page_id w.pages u n)))
    ]
  ]
