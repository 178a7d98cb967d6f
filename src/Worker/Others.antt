-- ===== src/Worker/Others.antt =====
-- The pages of other runs, and that no statement of a run's processing can reach them. A page has the
-- id of its number, as the rows of one table have.
use auditloop.Base.{
  ℕ, suc, ◌+◌, ◌≤◌, ◌<◌, ◌≡◌, ◌≢◌, ◌⊎◌, inl, inr, refl, sym, ap, ◌∙◌, Bool, true, not, List, [],
  ◌∷◌, ◌++◌, arith, length, Bool-cases, Str, eqb, eqb_iff, All, All-get, All-of,
}
use mathlib.Core.List.{Memᴰ}
use auditloop.Db.Table.{update, keep_rows}
use auditloop.Worker.{Page}
use auditloop.Worker.Regress.{before_page, insert_ordered, ordered, list_pages}

-- No two numbers give the same id.
abbrev pub AreDistinct : (ℕ → Str) → Type 0
AreDistinct page_id = (m n : ℕ) → page_id m ≡ page_id n → m ≡ n

module _ {Float : Type 0} (page_id : ℕ → Str) where
  abbrev pub IsNumberedFrom : ℕ → List (Page Float) → Type 0
  IsNumberedFrom k [] = Unit
  IsNumberedFrom k (p ∷ ps) = (p.id ≡ page_id k) × IsNumberedFrom (suc k) ps

  -- Each page has the id that its place in the table gives.
  abbrev pub IsNumbered : List (Page Float) → Type 0
  IsNumbered ps = IsNumberedFrom 0 ps

  numbered_append :
      (k : ℕ) (ps : List (Page Float)) (p : Page Float)
      → IsNumberedFrom k ps
      → p.id ≡ page_id (k + length ps)
      → IsNumberedFrom k (ps ++ p ∷ [])
  numbered_append k [] p h e = (e ∙ ap page_id (omega arith), tt)
  numbered_append k (q ∷ ps) p (h, hs) e =
      (h, numbered_append (suc k) ps p hs (e ∙ ap page_id (omega arith)))

  pub IsNumbered-append :
      (ps : List (Page Float)) (p : Page Float)
      → IsNumbered ps
      → p.id ≡ page_id (length ps)
      → IsNumbered (ps ++ p ∷ [])
  IsNumbered-append ps p h e = numbered_append 0 ps p h (e ∙ ap page_id (omega arith))

  numbered_update :
      (k : ℕ) (q : Page Float → Bool) (f : Page Float → Page Float) (ps : List (Page Float))
      → ((p : Page Float) → (f p).id ≡ p.id)
      → IsNumberedFrom k ps
      → IsNumberedFrom k (update q f ps)
  numbered_update k q f [] keep h = tt
  numbered_update k q f (p ∷ ps) keep (h, hs) = elim (Bool-cases (q p)) [
    | inl e ↦ rw e (keep p ∙ h, numbered_update (suc k) q f ps keep hs)
    | inr e ↦ rw e (h, numbered_update (suc k) q f ps keep hs)
  ]

  pub IsNumbered-update :
      (q : Page Float → Bool) (f : Page Float → Page Float) (ps : List (Page Float))
      → ((p : Page Float) → (f p).id ≡ p.id)
      → IsNumbered ps
      → IsNumbered (update q f ps)
  IsNumbered-update q f ps keep h = numbered_update 0 q f ps keep h

  module _ (distinct_ids : AreDistinct page_id) where
    apart :
        (k n : ℕ) (ps : List (Page Float))
        → (n < k) ⊎ (k + length ps ≤ n)
        → IsNumberedFrom k ps
        → All (λ p. p.id ≢ page_id n) ps
    apart k n [] out h = tt
    apart k n (p ∷ ps) out (h, hs) = (
      (λ e. let same : k ≡ n = distinct_ids k n (sym h ∙ e) in absurd (ground (arith, same, out))),
      apart (suc k) n ps (ground (arith, out)) hs,
    )

    -- The next id is no page's.
    pub IsNumbered-fresh :
        (ps : List (Page Float)) → IsNumbered ps → All (λ p. p.id ≢ page_id (length ps)) ps
    IsNumbered-fresh ps h = apart 0 (length ps) ps (inr (omega arith)) h

    same_row :
        (k : ℕ) (ps : List (Page Float)) (p q : Page Float)
        → IsNumberedFrom k ps
        → Memᴰ p ps
        → Memᴰ q ps
        → p.id ≡ q.id
        → p.run_id ≡ q.run_id
    same_row k [] p q h m m' e = elim m [ ]
    same_row k (r ∷ ps) p q (h, hs) (Memᴰ.head a) (Memᴰ.head b) e =
        ap (λ (x : Page Float). x.run_id) (a ∙ sym b)
    same_row k (r ∷ ps) p q (h, hs) (Memᴰ.head a) (Memᴰ.tail b) e = absurd (
        All-get _ ps b (apart (suc k) k ps (inl (omega arith)) hs)
          (sym e ∙ ap (λ (x : Page Float). x.id) a ∙ h))
    same_row k (r ∷ ps) p q (h, hs) (Memᴰ.tail a) (Memᴰ.head b) e = absurd (
        All-get _ ps a (apart (suc k) k ps (inl (omega arith)) hs)
          (e ∙ ap (λ (x : Page Float). x.id) b ∙ h))
    same_row k (r ∷ ps) p q (h, hs) (Memᴰ.tail a) (Memᴰ.tail b) e = same_row (suc k) ps p q hs a b e

    pub IsNumbered-same_row :
        (ps : List (Page Float)) (p q : Page Float)
        → IsNumbered ps
        → Memᴰ p ps
        → Memᴰ q ps
        → p.id ≡ q.id
        → p.run_id ≡ q.run_id
    IsNumbered-same_row ps p q h m m' e = same_row 0 ps p q h m m' e

module _ {Float : Type 0} (id : Str) where
  -- The pages of the other runs.
  unfoldable pub others : List (Page Float) → List (Page Float)
  unfolding eqb
  others ps = keep_rows (λ p. not (eqb p.run_id id)) ps

  pub others-append :
      (ps : List (Page Float)) (p : Page Float) → p.run_id ≡ id → others (ps ++ p ∷ []) ≡ others ps
  unfolding others
  others-append [] p e = rw ((eqb_iff p.run_id id).1 e) refl
  others-append (q ∷ ps) p e = elim (Bool-cases (eqb q.run_id id)) [
    | inl h ↦ rw h (others-append ps p e)
    | inr h ↦ rw h (ap (λ t. q ∷ t) (others-append ps p e))
  ]

  -- An update of rows of this run alone.
  pub others-update :
      (q : Page Float → Bool) (f : Page Float → Page Float) (ps : List (Page Float))
      → ((p : Page Float) → (f p).run_id ≡ p.run_id)
      → All (λ p. q p ≡ true → p.run_id ≡ id) ps
      → others (update q f ps) ≡ others ps
  unfolding others
  others-update q f [] keep h = refl
  others-update q f (p ∷ ps) keep (h, hs) = elim (Bool-cases (q p)) [
    | inl e ↦ rw (e, keep p, (eqb_iff p.run_id id).1 (h e)) (others-update q f ps keep hs)
    | inr e ↦ elim (Bool-cases (eqb p.run_id id)) [
      | inl k ↦ rw (e, k) (others-update q f ps keep hs)
      | inr k ↦ rw (e, k) (ap (λ t. p ∷ t) (others-update q f ps keep hs))
    ]
  ]

  pub All-others : (P : Page Float → Type 0) (ps : List (Page Float)) → All P ps → All P (others ps)
  unfolding others
  All-others P [] h = tt
  All-others P (p ∷ ps) (h, hs) = elim (Bool-cases (eqb p.run_id id)) [
    | inl e ↦ rw e (All-others P ps hs)
    | inr e ↦ rw e (h, All-others P ps hs)
  ]

  insert_ordered-All :
      (P : Page Float → Type 0) (p : Page Float) (ps : List (Page Float))
      → P p
      → All P ps
      → All P (insert_ordered p ps)
  unfolding insert_ordered
  insert_ordered-All P p [] h hs = (h, tt)
  insert_ordered-All P p (q ∷ ps) h (k, ks) = elim (Bool-cases (before_page p q)) [
    | inl e ↦ rw e (h, (k, ks))
    | inr e ↦ rw e (k, insert_ordered-All P p ps h ks)
  ]

  ordered-All : (P : Page Float → Type 0) (ps : List (Page Float)) → All P ps → All P (ordered ps)
  unfolding ordered
  ordered-All P [] h = tt
  ordered-All P (p ∷ ps) (h, hs) = insert_ordered-All P p (ordered ps) h (ordered-All P ps hs)

  kept-All :
      (P : Page Float → Type 0) (ps : List (Page Float))
      → All (λ p. p.run_id ≡ id → P p) ps
      → All P (keep_rows (λ p. eqb p.run_id id) ps)
  kept-All P [] h = tt
  kept-All P (p ∷ ps) (h, hs) = elim (Bool-cases (eqb p.run_id id)) [
    | inl e ↦ rw e (h ((eqb_iff p.run_id id).0 e), kept-All P ps hs)
    | inr e ↦ rw e (kept-All P ps hs)
  ]

  -- Whatever row has this id is one of the run's.
  abbrev pub IsOwn : List (Page Float) → Str → Type 0
  IsOwn ps page = All (λ p. eqb p.id page ≡ true → p.run_id ≡ id) ps

  -- The pages that the run lists are reached by their ids alone.
  pub list_pages-IsOwn :
      (page_id : ℕ → Str) (ps : List (Page Float))
      → AreDistinct page_id
      → IsNumbered page_id ps
      → All (λ p. IsOwn ps p.id) (list_pages id ps)
  unfolding list_pages
  list_pages-IsOwn page_id ps distinct_ids h = ordered-All _ _ (
      kept-All _ ps (
        All-of _ ps (λ p m own. All-of _ ps (λ q m' e.
          IsNumbered-same_row page_id distinct_ids ps q p h m' m ((eqb_iff q.id p.id).0 e) ∙ own))))
