-- ===== src/Worker/Frame/Stored.antt =====
-- What storing the pages of a crawl may touch.
use auditloop.Base.{
  ◌≡◌, refl, sym, inl, inr, List, [], ◌∷◌, ◌++◌, Bool-cases, length, map, Str, codes, is_empty, All,
}
use auditloop.Worker.Others.{IsNumbered-append, IsNumbered-fresh, others-append, All-others}
use auditloop.Db.Runs.{has_id}
use auditloop.Storage.{
  ◌slash◌, slug, page_slug, screenshot_key, axe_key, network_key, a11y_digest_key,
}
use auditloop.Storage.Laws.{IsToken}
use auditloop.Artifacts.Laws.{segment_run_id}
use auditloop.Worker.{Captured, Page, World, Outside, Report}
use auditloop.Worker.Pages.{
  put, put_some, upload, record_page, persist_page, persist_pages, page_row, page_findings,
}
use auditloop.Worker.Frame.{Steps, IsStep-pages, IsApart-same, Steps-refl, Steps-trans, update_id}

-- All findings of one page have its id.
All-labelled {ℓ} :
    {A : Type ℓ} (P : Str → Type 0) (id : Str) (fs : List A)
    → P id
    → All (λ (f : Str × A). P f.0) (map (λ f. (id, f)) fs)
All-labelled P id [] h = tt
All-labelled P id (f ∷ fs) h = (h, All-labelled P id fs h)

-- What a run is given: an id without slashes, and a slug.
module _ {Float : Type 0} (out : Outside Float) (id target : Str) (h : IsToken target)
    (k : IsToken id) where
  pub put-Steps :
      (rest content_type body : Str) (w : World Float)
      → Steps id out.page_id w (put out (target slash id slash rest) content_type body w)
  unfolding put
  put-Steps rest content_type body w =
      let key = target slash id slash rest in
      elim (Bool-cases (out.put_fails key)) [
        | inl e ↦ rw e (Steps-refl id out.page_id w)
        | inr e ↦ rw e (
          record {
            only = (λ r. r, (λ r. refl), sym (update_id (has_id id) w.runs));
            added = (key, (content_type, body)) ∷ [];
            objects = refl;
            own = (segment_run_id target id rest h k, tt);
            targets = refl;
          },
          λ d n. IsApart-same id out.page_id w _ refl refl n,
        )
      ]

  put_some-Steps :
      (rest content_type body : Str) (w : World Float)
      → Steps id out.page_id w (put_some out (target slash id slash rest) content_type body w)
  unfolding put_some
  put_some-Steps rest content_type body w = elim (Bool-cases (is_empty body)) [
    | inl e ↦ rw e (Steps-refl id out.page_id w)
    | inr e ↦ rw e (put-Steps rest content_type body w)
  ]

  upload-Steps :
      (pr : Captured Float) (w : World Float) → Steps id out.page_id w (upload out id target pr w)
  unfolding upload screenshot_key axe_key network_key a11y_digest_key
  upload-Steps pr w =
      let page = page_slug out.sha256_hex pr.url in
      let json = codes "application/json" in
      let shot = page slash (slug pr.viewport ++ codes ".png") in
      let w1 = put_some out (target slash id slash shot) (codes "image/png") pr.screenshot_png w in
      let w2 =
        put_some out (target slash id slash page slash codes "axe.json") json pr.axe_json w1 in
      let w3 =
        put_some out (target slash id slash page slash codes "network.json") json
          pr.network_log_json w2 in
      let w4 =
        put_some out (target slash id slash page slash codes "a11y.json") json pr.a11y_digest_json
          w3 in
      Steps-trans id out.page_id w w1 w4
        (put_some-Steps shot (codes "image/png") pr.screenshot_png w)
        (Steps-trans id out.page_id w1 w2 w4
          (put_some-Steps (page slash codes "axe.json") json pr.axe_json w1)
          (Steps-trans id out.page_id w2 w3 w4
            (put_some-Steps (page slash codes "network.json") json pr.network_log_json w2)
            (put_some-Steps (page slash codes "a11y.json") json pr.a11y_digest_json w3)))

  abbrev new_row : Captured Float → World Float → Page Float
  new_row pr w = page_row out id target pr (out.page_id (length w.pages))

  row-id :
      (pr : Captured Float) (w : World Float) → (new_row pr w).id ≡ out.page_id (length w.pages)
  unfolding page_row
  row-id pr w = refl

  row-run_id : (pr : Captured Float) (w : World Float) → (new_row pr w).run_id ≡ id
  unfolding page_row
  row-run_id pr w = refl

  record_page-Steps :
      (pr : Captured Float) (w : World Float) (rep : Report Float)
      → Steps id out.page_id w (record_page out id target pr (w, rep)).0
  unfolding record_page
  record_page-Steps pr w rep = elim (Bool-cases (out.insert_page_fails pr.url pr.viewport)) [
    | inl e ↦ rw e (Steps-refl id out.page_id w)
    | inr e ↦ rw e (
      IsStep-pages id out.page_id w _ refl refl refl,
      λ d n. record {
        numbered = IsNumbered-append out.page_id w.pages (new_row pr w) n (row-id pr w);
        rows = others-append id w.pages (new_row pr w) (row-run_id pr w);
        found = map (λ f. (out.page_id (length w.pages), f)) (page_findings out pr);
        findings = refl;
        apart =
            All-labelled _ (out.page_id (length w.pages)) (page_findings out pr)
              (All-others id _ w.pages (IsNumbered-fresh out.page_id d w.pages n));
      },
    )
  ]

  pub persist_pages-Steps :
      (prs : List (Captured Float)) (w : World Float) (rep : Report Float)
      → Steps id out.page_id w (persist_pages out id target prs (w, rep)).0
  unfolding persist_pages persist_page
  persist_pages-Steps [] w rep = Steps-refl id out.page_id w
  persist_pages-Steps (pr ∷ prs) w rep =
      let w1 = upload out id target pr w in
      let state = record_page out id target pr (w1, rep) in
      Steps-trans id out.page_id w w1 _ (upload-Steps pr w) (
        Steps-trans id out.page_id w1 state.0 _ (record_page-Steps pr w1 rep)
          (persist_pages-Steps prs state.0 state.1))
