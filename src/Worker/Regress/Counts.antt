-- ===== src/Worker/Regress/Counts.antt =====
-- The counters of a comparison tell how many of its entries are of a kind.
use auditloop.Base.{
  ℕ, ◌+◌, ◌≡◌, refl, sym, ◌∙◌, inl, inr, Bool, true, false, not, ◌&&◌, ◌||◌, Option, none, some,
  List, [], ◌∷◌, ◌++◌, arith, Option-cases, Bool-cases, Str, is_empty, if◌then◌else◌,
}
use auditloop.Db.Table.{count}
use auditloop.Db.Runs.{Run, get_run_by_id}
use auditloop.Diff.Pixels.{Comparison}
use auditloop.Worker.{ChangedPage, RunDiff, World, Outside, Page}
use auditloop.Worker.Regress.{
  is_regression, is_at_threshold, is_positive, is_worse, insert_worst, sort_worst, note_changed,
  diff_compared, diff_pages, diff_against, run_diff, compared, upload_diff, list_pages, new_diff,
}

abbrev pub is_resized : ChangedPage → Bool
is_resized c = c.size_changed

-- The counters are those of the list.
abbrev pub IsCounted : RunDiff → Type 0
IsCounted d =
    (d.pages_changed ≡ count is_regression d.changed_pages)
    × (d.pages_size_changed ≡ count is_resized d.changed_pages)

abbrev pub IsCountedIfAny : Option RunDiff → Type 0
IsCountedIfAny none = Unit
IsCountedIfAny (some d) = IsCounted d

module _ (p : ChangedPage → Bool) where
  count-append_one :
      (cs : List ChangedPage) (c : ChangedPage)
      → count p (cs ++ c ∷ []) ≡ count p cs + (if p c then 1 else 0)
  count-append_one [] c = omega arith
  count-append_one (d ∷ cs) c = omega (arith, count-append_one cs c)

  noted_count :
      (cs : List ChangedPage) (c : ChangedPage) (counted noted : Bool) (n : ℕ)
      → n ≡ count p cs
      → p c ≡ counted
      → (counted ≡ true → noted ≡ true)
      → (if counted then n + 1 else n) ≡ count p (if noted then cs ++ c ∷ [] else cs)
  noted_count cs c true noted n h e i =
      let i' = i refl in rw i' (rw (count-append_one cs c, e) (omega (arith, h)))
  noted_count cs c false true n h e i = rw (count-append_one cs c, e) (omega (arith, h))
  noted_count cs c false false n h e i = h

  count-insert_worst :
      (c : ChangedPage) (cs : List ChangedPage) → count p (insert_worst c cs) ≡ count p (c ∷ cs)
  unfolding insert_worst
  count-insert_worst c [] = refl
  count-insert_worst c (d ∷ ds) = elim (Bool-cases (is_worse d.diff_counts c.diff_counts)) [
    | inl e ↦ rw e (omega (arith, count-insert_worst c ds))
    | inr e ↦ rw e refl
  ]

  count-sort_worst : (cs : List ChangedPage) → count p (sort_worst cs) ≡ count p cs
  unfolding sort_worst
  count-sort_worst [] = refl
  count-sort_worst (c ∷ cs) =
      count-insert_worst c (sort_worst cs) ∙ (omega (arith, count-sort_worst cs))

-- One changed pixel in a hundred is one.
threshold_positive :
    (changed total : ℕ)
    → is_at_threshold (changed, total) ≡ true
    → is_positive (changed, total) ≡ true
threshold_positive changed total h = ground (arith, h)

module _ {Float : Type 0} (out : Outside Float) where
  note_changed-IsCounted :
      (cp : Page Float) (c : Comparison) (key : Str) (d : RunDiff)
      → IsCounted d
      → IsCounted (note_changed out cp c key d)
  unfolding note_changed is_regression
  note_changed-IsCounted cp c key d (h, k) =
      let changed = c.changed_pixels in
      let total = c.total_pixels in
      let counts : ℕ × ℕ = (changed, total) in
      let entry : ChangedPage = record {
        url = cp.url;
        viewport = cp.viewport;
        diff_counts = counts;
        diff_key = key;
        size_changed = c.size_changed;
        not_compared = c.too_large;
      } in
      let noted = is_positive counts || (c.size_changed || c.too_large) in
      let regressed = not c.size_changed && is_at_threshold counts in
      let positive = threshold_positive changed total in
      (
        noted_count is_regression d.changed_pages entry regressed noted d.pages_changed h refl
            (λ e. ground (arith, e, positive)),
        noted_count is_resized d.changed_pages entry (not regressed && c.size_changed) noted
            d.pages_size_changed k (ground (arith, Bool-cases c.size_changed))
            (λ e. ground (arith, e)),
      )

  diff_compared-IsCounted :
      (run_id target : Str) (cp : Page Float) (c : Option Comparison) (w : World Float)
      (d : RunDiff)
      → IsCounted d
      → IsCounted (diff_compared out run_id target cp c (w, d)).1
  unfolding diff_compared
  diff_compared-IsCounted run_id target cp none w d h = h
  diff_compared-IsCounted run_id target cp (some c) w d h =
      note_changed-IsCounted cp c (upload_diff out run_id target cp c w).0 d h

  diff_pages-IsCounted :
      (run_id target : Str) (prev cps : List (Page Float)) (w : World Float) (d : RunDiff)
      → IsCounted d
      → IsCounted (diff_pages out run_id target prev cps (w, d)).1
  unfolding diff_pages
  diff_pages-IsCounted run_id target prev [] w d h = h
  diff_pages-IsCounted run_id target prev (cp ∷ cps) w d h =
      let state = diff_compared out run_id target cp (compared out prev cp w) (w, d) in
      diff_pages-IsCounted run_id target prev cps state.0 state.1
        (diff_compared-IsCounted run_id target cp (compared out prev cp w) w d h)

  -- If a run is compared with a baseline, the pages said to have changed are the entries that are
  -- regressions, and the pages said to have changed in size those of another size.
  pub run_diff-IsCountedIfAny :
      (run : Run) (target : Str) (w : World Float) → IsCountedIfAny (run_diff out run target w).1
  unfolding run_diff diff_against
  run_diff-IsCountedIfAny run target w = elim (Bool-cases (is_empty run.prev_run_id)) [
    | inl e ↦ rw e tt
    | inr e ↦ elim (Option-cases (get_run_by_id run.prev_run_id w.runs)) [
      | inl n ↦ rw (e, n) tt
      | inr (prev, f) ↦
          let prev_pages = list_pages prev.id w.pages in
          let cur_pages = list_pages run.id w.pages in
          let d = new_diff out prev prev_pages cur_pages in
          let (w', d') = diff_pages out run.id target prev_pages cur_pages (w, d) in
          let (h, k) = diff_pages-IsCounted run.id target prev_pages cur_pages w d (refl, refl) in
          rw (e, f)
            (
              h ∙ sym (count-sort_worst is_regression d'.changed_pages),
              k ∙ sym (count-sort_worst is_resized d'.changed_pages),
            )
    ]
  ]
