-- ===== src/Plugin/Schema/Laws.antt =====
-- What the check of a push admits.
use auditloop.Base.{
  ◌≡◌, ◌≤◌, ◌↔◌, refl, ◌∙◌, Bool, true, false, ◌&&◌, ◌||◌, not, none, some, inl, inr, List, [], ◌∷◌,
  ◌++◌, ltb, ◌==◌, Bool-cases, and-eq-true, length, all, any, keep_if, Str, codes, one_of, eqb,
  eqb_iff, eqb_refl, is_empty, trim_space, arith,
}
use auditloop.Base.Text.Laws.{one_of-append}
use auditloop.Plugin.Schema.{
  Seen, PushPage, PushPayload, PushError, unknown_environment, no_pages, too_many_pages, check_refs,
  check_parts, check_values, then_parts, check_page, check_pages, validate, file_refs,
  referenced_of, referenced_files, negative_perf_values, negative_layout_values, finding_types,
  valid_environments, max_pages,
}

abbrev is_filled : Str → Bool
is_filled f = not (is_empty f)

-- The result of a part of the check that accepts what is ok, and then has seen the names.
abbrev IsOutcome : Bool → List Str → List Str → Seen → Type 0
IsOutcome ok names seen (inl e) = ok ≡ false
IsOutcome ok names seen (inr more) =
    (ok ≡ true) × ((z : Str) → one_of z more ≡ (one_of z names || one_of z seen))

abbrev is_there : List Str → Str → Bool
is_there provided ref = is_empty ref || one_of ref provided

IsOutcome-shift :
    (ok : Bool) (x : Str) (names seen : List Str) (r : Seen)
    → IsOutcome ok names (x ∷ seen) r
    → IsOutcome ok (x ∷ names) seen r
unfolding one_of
IsOutcome-shift ok x names seen (inl e) h = h
IsOutcome-shift ok x names seen (inr more) (h, k) = (h, λ z. k z ∙ ground arith)

IsOutcome-after :
    (ok : Bool) (names more seen between : List Str) (r : Seen)
    → ((z : Str) → one_of z between ≡ (one_of z names || one_of z seen))
    → IsOutcome ok more between r
    → IsOutcome ok (names ++ more) seen r
IsOutcome-after ok names more seen between (inl e) g h = h
IsOutcome-after ok names more seen between (inr s) g (h, k) =
    (h, λ z. k z ∙ ground (arith, g z, one_of-append z names more))

-- Two parts of the check, the second with what the first has seen.
IsOutcome-then :
    (ok ok' : Bool) (names more seen : List Str) (r : Seen) (f : List Str → Seen)
    → IsOutcome ok names seen r
    → ((s : List Str) → IsOutcome ok' more s (f s))
    → IsOutcome (ok && ok') (names ++ more) seen (elim r [ inl e ↦ inl e | inr s ↦ f s ])
IsOutcome-then ok ok' names more seen (inl e) f h k = rw h refl
IsOutcome-then ok ok' names more seen (inr s) f (h, g) k =
    rw h (IsOutcome-after ok' names more seen s (f s) g (k s))

check_refs-IsOutcome :
    (provided seen refs : List Str)
    → IsOutcome
        (all (is_there provided) refs)
        (keep_if is_filled refs)
        seen
        (check_refs provided seen refs)
unfolding check_refs one_of
check_refs-IsOutcome provided seen [] = (refl, λ z. refl)
check_refs-IsOutcome provided seen (ref ∷ refs) = elim (Bool-cases (is_empty ref)) [
  | inl e ↦ rw e (check_refs-IsOutcome provided seen refs)
  | inr e ↦ elim (Bool-cases (one_of ref provided)) [
    | inl p ↦
        rw (e, p)
          (IsOutcome-shift (all (is_there provided) refs) ref (keep_if is_filled refs) seen
            (check_refs provided (ref ∷ seen) refs)
            (check_refs-IsOutcome provided (ref ∷ seen) refs))
    | inr p ↦ rw (e, p) refl
  ]
]

check_parts_iff :
    (seen names : List Str)
    → (check_parts seen names ≡ none) ↔ (all (λ n. one_of n seen) names ≡ true)
unfolding check_parts
check_parts_iff seen [] = ground arith
check_parts_iff seen (n ∷ names) =
    let (to, from) = check_parts_iff seen names in
    elim (Bool-cases (one_of n seen)) [
      | inl e ↦ rw e (check_parts_iff seen names)
      | inr e ↦ rw e ((λ h. cc h), (λ h. cc h))
    ]

all_known :
    (seen names : List Str) (z : Str)
    → all (λ n. one_of n seen) names ≡ true
    → one_of z names ≡ true
    → one_of z seen ≡ true
unfolding one_of
all_known seen [] z h k = absurd (ground (arith, k))
all_known seen (n ∷ names) z h k = elim (Bool-cases (eqb z n)) [
  | inl e ↦ let same : z ≡ n = (eqb_iff z n).0 e in rw same (ground (arith, h))
  | inr e ↦ all_known seen names z (ground (arith, h)) (ground (arith, k, e))
]

known_all :
    (seen names : List Str)
    → ((z : Str) → one_of z names ≡ true → one_of z seen ≡ true)
    → all (λ n. one_of n seen) names ≡ true
unfolding one_of
known_all seen [] h = refl
known_all seen (n ∷ names) h =
    let here = h n (ground (arith, eqb_refl n)) in
    let rest = known_all seen names (λ z k. h z (ground (arith, k))) in ground (arith, here, rest)

kept_there :
    (provided refs : List Str) (z : Str)
    → all (is_there provided) refs ≡ true
    → one_of z (keep_if is_filled refs) ≡ true
    → one_of z provided ≡ true
unfolding one_of
kept_there provided [] z h k = absurd (ground (arith, k))
kept_there provided (ref ∷ refs) z h k =
    let rest = kept_there provided refs z (ground (arith, h)) in
    elim (Bool-cases (is_empty ref)) [
      | inl e ↦ rest (rw e at k)
      | inr e ↦
          let k' = rw e at k in
          elim (Bool-cases (eqb z ref)) [
            | inl q ↦ let same : z ≡ ref = (eqb_iff z ref).0 q in rw same (ground (arith, h, e))
            | inr q ↦ rest (ground (arith, k', q))
          ]
    ]

some_error : (e : PushError) → some e ≡ none → ⊥
some_error e h = ground (arith, h)

fourth : (a b c d e : Bool) → (a && (b && (c && (d && e)))) ≡ true → d ≡ true
fourth a b c d e h = ground (arith, h)

no_member {ℓ} : {A : Type ℓ} (z : Str) → one_of z [] ≡ true → A
unfolding one_of
no_member z h = absurd (ground (arith, h))

either_there :
    (z : Str) (names more provided : List Str)
    → (one_of z names ≡ true → one_of z provided ≡ true)
    → (one_of z more ≡ true → one_of z provided ≡ true)
    → one_of z (names ++ more) ≡ true
    → one_of z provided ≡ true
either_there z names more provided f g h =
    let split = one_of-append z names more in
    elim (Bool-cases (one_of z names)) [ inl e ↦ f e | inr e ↦ g (ground (arith, h, e, split)) ]

module _ {Float : Type 0} (below_zero : Float → Bool) (provided : List Str) where
  -- The values of a page: known types of findings, and nothing measured below zero.
  abbrev pub values_ok : PushPage Float → Bool
  values_ok pg =
      not (any (λ f. not (one_of f.type finding_types)) pg.findings)
      && not (negative_perf_values below_zero pg.perf)
      && not (negative_layout_values pg.layout)

  -- A page with an identity, a known viewport and a screenshot, whose files were uploaded.
  abbrev pub page_ok : PushPage Float → Bool
  page_ok pg =
      not (is_empty (trim_space pg.url))
      && (one_of pg.viewport (codes "mobile" ∷ codes "desktop" ∷ [])
          && (not (is_empty (trim_space pg.screenshot))
              && (all (is_there provided) (file_refs pg) && values_ok pg)))

  check_values-IsOutcome :
      (pg : PushPage Float) (ok : Bool) (names seen : List Str) (r : Seen)
      → IsOutcome ok names seen r
      → IsOutcome (ok && values_ok pg) names seen (check_values below_zero pg r)
  unfolding check_values
  check_values-IsOutcome pg ok names seen (inl e) h = rw h refl
  check_values-IsOutcome pg ok names seen (inr more) (h, k) =
      elim (Bool-cases (any (λ f. not (one_of f.type finding_types)) pg.findings)) [
        | inl a ↦ rw (a, h) refl
        | inr a ↦ elim (Bool-cases (negative_perf_values below_zero pg.perf)) [
          | inl b ↦ rw (a, b, h) refl
          | inr b ↦ elim (Bool-cases (negative_layout_values pg.layout)) [
            | inl c ↦ rw (a, b, c, h) refl
            | inr c ↦ rw (a, b, c, h) (refl, k)
          ]
        ]
      ]

  check_page-IsOutcome :
      (seen : List Str) (pg : PushPage Float)
      → IsOutcome
          (page_ok pg)
          (keep_if is_filled (file_refs pg))
          seen
          (check_page below_zero provided seen pg)
  unfolding check_page
  check_page-IsOutcome seen pg = elim (Bool-cases (is_empty (trim_space pg.url))) [
    | inl a ↦ rw a refl
    | inr a ↦ elim (Bool-cases (one_of pg.viewport (codes "mobile" ∷ codes "desktop" ∷ []))) [
      | inr b ↦ rw (a, b) refl
      | inl b ↦ elim (Bool-cases (is_empty (trim_space pg.screenshot))) [
        | inl c ↦ rw (a, b, c) refl
        | inr c ↦
            rw (a, b, c)
              (check_values-IsOutcome pg (all (is_there provided) (file_refs pg))
                (keep_if is_filled (file_refs pg)) seen (check_refs provided seen (file_refs pg))
                (check_refs-IsOutcome provided seen (file_refs pg)))
      ]
    ]
  ]

  check_pages-IsOutcome :
      (seen : List Str) (pages : List (PushPage Float))
      → IsOutcome
          (all page_ok pages)
          (referenced_of pages)
          seen
          (check_pages below_zero provided seen pages)
  unfolding check_pages referenced_of one_of
  check_pages-IsOutcome seen [] = (refl, λ z. refl)
  check_pages-IsOutcome seen (pg ∷ pages) =
      let names = keep_if is_filled (file_refs pg) in
      IsOutcome-then (page_ok pg) (all page_ok pages) names (referenced_of pages) seen
        (check_page below_zero provided seen pg) (λ s. check_pages below_zero provided s pages)
        (check_page-IsOutcome seen pg) (λ s. check_pages-IsOutcome s pages)

  -- What a harness may push: a known environment or none, between one and two hundred pages that are
  -- each in order, and exactly the files that the pages name.
  pub record IsValid (p : PushPayload Float) : Type 0 where
    environment : is_empty p.environment || one_of p.environment valid_environments ≡ true
    some_pages : 1 ≤ length p.pages
    few_pages : length p.pages ≤ max_pages
    pages : all page_ok p.pages ≡ true
    parts : (z : Str) → one_of z provided ≡ one_of z (referenced_files p)

  referenced_there :
      (pages : List (PushPage Float)) (z : Str)
      → all page_ok pages ≡ true
      → one_of z (referenced_of pages) ≡ true
      → one_of z provided ≡ true
  unfolding referenced_of
  referenced_there [] z h k = no_member z k
  referenced_there (pg ∷ pages) z h k =
      let (here, later) = and-eq-true (page_ok pg) (all page_ok pages) h in
      let refs =
        fourth (not (is_empty (trim_space pg.url)))
          (one_of pg.viewport (codes "mobile" ∷ codes "desktop" ∷ []))
          (not (is_empty (trim_space pg.screenshot))) (all (is_there provided) (file_refs pg))
          (values_ok pg) here in
      either_there z (keep_if is_filled (file_refs pg)) (referenced_of pages) provided
        (kept_there provided (file_refs pg) z refs) (referenced_there pages z later) k

  -- The two loops of the check accept just the pages in order with exactly their files.
  loops_iff :
      (pages : List (PushPage Float)) (r : Seen)
      → IsOutcome (all page_ok pages) (referenced_of pages) [] r
      → (then_parts provided r ≡ none) ↔ (
          (all page_ok pages ≡ true)
          × ((z : Str) → one_of z provided ≡ one_of z (referenced_of pages)))
  unfolding one_of
  loops_iff pages (inl e) h = ((λ q. cc q), (λ q. cc (h, q.0)))
  loops_iff pages (inr seen) (h, k) =
      let (to, from) = check_parts_iff seen provided in
      (
        (λ q. (
          h,
          λ z.
              let there = referenced_there pages z h in
              let known = all_known seen provided z (to q) in ground (arith, there, known, k z),
        )),
        (λ q. from (known_all seen provided (λ z m. ground (arith, k z, q.1 z, m)))),
      )

  -- The check accepts a push if and only if it is valid.
  pub validate-IsValid_iff :
      (p : PushPayload Float) → (validate below_zero p provided ≡ none) ↔ IsValid p
  unfolding validate referenced_files
  validate-IsValid_iff p =
      let (to, from) =
        loops_iff p.pages (check_pages below_zero provided [] p.pages)
          (check_pages-IsOutcome [] p.pages) in
      let foreign = not (is_empty p.environment) && not (one_of p.environment valid_environments) in
      elim (Bool-cases foreign) [
        | inl a ↦ (
          (λ q. absurd (some_error unknown_environment (rw a at q))),
          (λ v. absurd (let e = v.environment in ground (arith, a, e))),
        )
        | inr a ↦ elim (Bool-cases (length p.pages == 0)) [
          | inl b ↦ (
            (λ q. absurd (some_error no_pages (rw (a, b) at q))),
            (λ v. absurd (let n = v.some_pages in ground (arith, b, n))),
          )
          | inr b ↦ elim (Bool-cases (ltb max_pages (length p.pages))) [
            | inl c ↦ (
              (λ q. absurd (some_error too_many_pages (rw (a, b, c) at q))),
              (λ v. absurd (let n = v.few_pages in ground (arith, c, n))),
            )
            | inr c ↦ (
              (λ q.
                  let (h, k) = to (rw (a, b, c) at q) in
                  record {
                    environment = ground (arith, a);
                    some_pages = ground (arith, b);
                    few_pages = ground (arith, c);
                    pages = h;
                    parts = k;
                  }),
              (λ v. rw (a, b, c) (from (v.pages, v.parts))),
            )
          ]
        ]
      ]
