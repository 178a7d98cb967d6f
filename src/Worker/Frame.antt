-- ===== src/Worker/Frame.antt =====
-- What the processing of a run may touch: its own row, its own pages with their findings, and objects
-- under its own keys.
pub mod Stored
pub mod Compared
use auditloop.Base.{
  ℕ, ◌≡◌, ◌≢◌, refl, sym, ap, arith, ◌∙◌, inl, inr, Bool, true, Option, none, some, List, [], ◌∷◌,
  ◌++◌, Bool-cases, Option-cases, length, eqb, eqb_iff, map, All-weaken, Str, codes, is_empty, All,
  All-append,
}
use mathlib.Core.Path.{subst}
use mathlib.Core.List.{append_assoc, append-nil}
use auditloop.Signals.{Finding}
use auditloop.Worker.Others.{
  AreDistinct, IsNumbered, IsNumbered-append, IsNumbered-update, IsNumbered-fresh, others,
  others-append, others-update, All-others, IsOwn, list_pages-IsOwn,
}
use auditloop.Db.Table.{update}
use auditloop.Db.Table.Laws.{All-update}
use auditloop.Db.Runs.{Run, has_id, get_run_by_id}
use auditloop.Diff.Pixels.{Comparison}
use auditloop.Storage.{
  ◌slash◌, slug, page_slug, screenshot_key, axe_key, network_key, a11y_digest_key, diff_key,
}
use auditloop.Storage.Laws.{IsToken}
use auditloop.Artifacts.{artifact_run_id}
use auditloop.Artifacts.Laws.{segment_run_id}
use auditloop.Worker.{Captured, Page, RunDiff, World, Outside, Report}
use auditloop.Worker.Pages.{
  put, put_some, upload, record_page, persist_page, persist_pages, page_row, page_findings,
}
use auditloop.Worker.Regress.{
  upload_diff, update_page_diff, diff_compared, diff_pages, run_diff, diff_against, compared,
  is_shown, or_empty, list_pages, new_diff,
}

pub update_id : (p : Run → Bool) (rows : List Run) → update p (λ r. r) rows ≡ rows
update_id p [] = refl
update_id p (r ∷ rs) = elim (Bool-cases (p r)) [
  | inl e ↦ rw e (ap (λ t. r ∷ t) (update_id p rs))
  | inr e ↦ rw e (ap (λ t. r ∷ t) (update_id p rs))
]

pub update-update :
    (id : Str) (f g : Run → Run) (rows : List Run)
    → ((r : Run) → (f r).id ≡ r.id)
    → update (has_id id) g (update (has_id id) f rows) ≡ update (has_id id) (λ r. g (f r)) rows
update-update id f g [] h = refl
update-update id f g (r ∷ rs) h = elim (Bool-cases (has_id id r)) [
  | inl e ↦
      let e' : has_id id (f r) ≡ true = rw (h r) e in
      rw (e, e') (ap (λ t. g (f r) ∷ t) (update-update id f g rs h))
  | inr e ↦ rw (e, e) (ap (λ t. r ∷ t) (update-update id f g rs h))
]

-- Only the row with this id has changed, and it keeps its id.
abbrev pub ChangesOnly : Str → List Run → List Run → Type 0
ChangesOnly id rows rows' =
    (f : Run → Run) × ((r : Run) → (f r).id ≡ r.id) × (rows' ≡ update (has_id id) f rows)

module _ {Float : Type 0} (id : Str) where
  -- The processing has come from one world to another.
  pub record IsStep (w w' : World Float) : Type 0 where
    pub only : ChangesOnly id w.runs w'.runs
    pub added : List (Str × (Str × Str))
    pub objects : w'.objects ≡ added ++ w.objects
    pub own : All (λ o. artifact_run_id o.0 ≡ some id) added
    pub targets : w'.targets ≡ w.targets

  module _ (page_id : ℕ → Str) where
    -- The pages of other runs and their findings are as they were: rows and findings are added, but no
    -- finding under the id of such a page. Pages are still numbered.
    pub record IsApart (w w' : World Float) : Type 0 where
      pub numbered : IsNumbered page_id w'.pages
      pub rows : others id w'.pages ≡ others id w.pages
      pub found : List (Str × Finding Float)
      pub findings : w'.findings ≡ w.findings ++ found
      pub apart : All (λ f. All (λ p. p.id ≢ f.0) (others id w.pages)) found

    -- Both, the second where pages are numbered and no id is given twice.
    abbrev pub Steps : World Float → World Float → Type 0
    Steps w w' = IsStep w w' × (AreDistinct page_id → IsNumbered page_id w.pages → IsApart w w')

    pub IsApart-trans : (w v u : World Float) → IsApart w v → IsApart v u → IsApart w u
    IsApart-trans w v u h k = record {
      numbered = k.numbered;
      rows = k.rows ∙ h.rows;
      found = h.found ++ k.found;
      findings =
          k.findings
          ∙ ap (λ fs. fs ++ k.found) h.findings
          ∙ append_assoc w.findings h.found k.found;
      apart =
          All-append _ h.found k.found h.apart
            (subst (λ ps. All (λ f. All (λ p. p.id ≢ f.0) ps) k.found) h.rows k.apart);
    }

    -- Neither pages nor findings have changed.
    pub IsApart-same :
        (w w' : World Float)
        → w'.pages ≡ w.pages
        → w'.findings ≡ w.findings
        → IsNumbered page_id w.pages
        → IsApart w w'
    IsApart-same w w' p f n = record {
      numbered = subst (IsNumbered page_id) (sym p) n;
      rows = ap (others id) p;
      found = [];
      findings = f ∙ sym (append-nil w.findings);
      apart = tt;
    }

    -- Neither the runs nor the objects nor the targets have changed.
    pub IsStep-pages :
        (w w' : World Float)
        → w'.runs ≡ w.runs
        → w'.objects ≡ w.objects
        → w'.targets ≡ w.targets
        → IsStep w w'
    IsStep-pages w w' r o t = record {
      only = (λ r. r, (λ r. refl), r ∙ sym (update_id (has_id id) w.runs));
      added = [];
      objects = o;
      own = tt;
      targets = t;
    }

    pub Steps-refl : (w : World Float) → Steps w w
    Steps-refl w = (IsStep-pages w w refl refl refl, λ u n. IsApart-same w w refl refl n)

    pub IsStep-trans : (w v u : World Float) → IsStep w v → IsStep v u → IsStep w u
    IsStep-trans w v u h k =
        let (f, keep, e) = h.only in
        let (g, keep', e') = k.only in
        record {
          only = (
            λ r. g (f r),
            (λ r. keep' (f r) ∙ keep r),
            e' ∙ ap (update (has_id id) g) e ∙ update-update id f g w.runs keep,
          );
          added = k.added ++ h.added;
          objects =
              k.objects
              ∙ ap (λ os. k.added ++ os) h.objects
              ∙ sym (append_assoc k.added h.added w.objects);
          own = All-append (λ o. artifact_run_id o.0 ≡ some id) k.added h.added k.own h.own;
          targets = k.targets ∙ h.targets;
        }

    pub Steps-trans : (w v u : World Float) → Steps w v → Steps v u → Steps w u
    Steps-trans w v u (h, a) (k, b) = (
      IsStep-trans w v u h k,
      λ d n. let first = a d n in IsApart-trans w v u first (b d first.numbered),
    )

    -- Only counters have changed.
    pub Steps-same :
        (w w' : World Float)
        → w'.runs ≡ w.runs
        → w'.objects ≡ w.objects
        → w'.targets ≡ w.targets
        → w'.pages ≡ w.pages
        → w'.findings ≡ w.findings
        → Steps w w'
    Steps-same w w' r o t p f = (IsStep-pages w w' r o t, λ d n. IsApart-same w w' p f n)

    -- The run's row has changed.
    pub Steps-run :
        (w w' : World Float) (f : Run → Run)
        → ((r : Run) → (f r).id ≡ r.id)
        → w'.runs ≡ update (has_id id) f w.runs
        → w'.objects ≡ w.objects
        → w'.targets ≡ w.targets
        → w'.pages ≡ w.pages
        → w'.findings ≡ w.findings
        → Steps w w'
    Steps-run w w' f keep r o t p fs = (
      record { only = (f, keep, r); added = []; objects = o; own = tt; targets = t },
      λ d n. IsApart-same w w' p fs n,
    )
