-- ===== src/Plugin/Map/Laws.antt =====
-- The findings of a mapped page, in its rows and in its report.
use auditloop.Base.{
  ◌≡◌, refl, ap, inl, inr, Bool, true, false, ◌&&◌, ◌||◌, Option, none, some, List, [], ◌∷◌, ◌++◌,
  arith, Bool-cases, if◌then◌else◌, is_some, Str, codes, eqb, is_empty, All, All-append, All-weaken,
}
use auditloop.Plugin.Schema.{PushPage, PushPerf, PushLayout, PushFinding}
use auditloop.Signals.{
  Finding, Value, count, ratio, Perf, lcp_good_ms, lcp_poor_ms, tbt_good_ms, tbt_poor_ms,
  examples_at, LayoutSmells, rated, heavy_page, is_above, weight_warn_bytes, req_count_warn,
  perf_findings, layout_finding, layout_findings,
}
use auditloop.Base.Int.{ℤ, pos}
use auditloop.Plugin.Map.{
  PageKeys, MappedPage, Lists, add, add_all, add_pushed, add_perf, add_layout, is_replaced,
  pushed_finding, perf_of, layout_of, map_page,
}

module _ {Float : Type 0} where
  -- A finding of this type, with a severity.
  abbrev IsRated : Str → Finding Float → Type 0
  IsRated type f = (f.type ≡ type) × (is_empty f.severity ≡ false)

  rated-All :
      (name : Str) (good poor : Bool) (v : Value Float)
      → All (IsRated (codes "perf")) (rated name good poor v)
  unfolding rated
  rated-All name false poor v = tt
  rated-All name true false v = ((refl, refl), tt)
  rated-All name true true v = ((refl, refl), tt)

  heavy_page-All : (p : Perf Float) → All (IsRated (codes "perf")) (heavy_page p)
  unfolding heavy_page
  heavy_page-All p =
      elim (Bool-cases
        (is_above weight_warn_bytes p.weight_bytes || is_above req_count_warn p.req_count)) [
          | inl e ↦ rw e ((refl, refl), tt)
          | inr e ↦ rw e tt
        ]

  abbrev rated_metric :
      (name : Str) (good poor : Bool) (v : Value Float)
      → (fs : List (Finding Float)) × All (IsRated (codes "perf")) fs
  rated_metric name good poor v = (rated name good poor v, rated-All name good poor v)

  perf_findings-All :
      (good poor : Float → Bool) (p : Perf Float)
      → All (IsRated (codes "perf")) (perf_findings good poor p)
  unfolding perf_findings
  perf_findings-All good poor p =
      let rating = IsRated (codes "perf") in
      let lcp =
        rated_metric (codes "LCP") (is_above lcp_good_ms p.lcp_ms) (is_above lcp_poor_ms p.lcp_ms)
          (count p.lcp_ms) in
      let cls = rated_metric (codes "CLS") (good p.cls) (poor p.cls) (ratio p.cls) in
      let tbt =
        rated_metric (codes "TBT") (is_above tbt_good_ms p.tbt_ms) (is_above tbt_poor_ms p.tbt_ms)
          (count p.tbt_ms) in
      All-append rating lcp.0 (cls.0 ++ (tbt.0 ++ heavy_page p)) lcp.1 (
        All-append rating cls.0 (tbt.0 ++ heavy_page p) cls.1
          (All-append rating tbt.0 (heavy_page p) tbt.1 (heavy_page-All p)))

module _ (Float : Type 0) where
  layout_finding-All :
      (present : Bool) (name severity : Str) (n : ℤ) (examples : List Str)
      → is_empty severity ≡ false
      → All
          (IsRated (codes "layout"))
          (layout_finding {Float = Float} present name severity n examples)
  unfolding layout_finding
  layout_finding-All false name severity n examples h = tt
  layout_finding-All true name severity n examples h = ((refl, h), tt)

  -- The findings of a smell, with what holds of them.
  abbrev smell_list :
      (present : Bool) (name severity : Str) (n : ℤ) (examples : List Str)
      → is_empty severity ≡ false
      → (fs : List (Finding Float)) × All (IsRated (codes "layout")) fs
  smell_list present name severity n examples h = (
    layout_finding present name severity n examples,
    layout_finding-All present name severity n examples h,
  )

  layout_findings-All :
      (ls : LayoutSmells) (mobile : Bool)
      → All (IsRated (codes "layout")) (layout_findings {Float = Float} ls mobile)
  unfolding layout_findings
  layout_findings-All ls mobile =
      let rating = IsRated (codes "layout") in
      let wide =
        smell_list (mobile && ls.horizontal_overflow) (codes "horizontal-overflow")
          (codes "moderate") (pos 0) (examples_at (codes "horizontal_overflow") ls.examples) refl in
      let taps =
        smell_list (mobile && is_above 0 ls.small_tap_targets) (codes "small-tap-targets")
          (codes "moderate") ls.small_tap_targets
          (examples_at (codes "small_tap_targets") ls.examples) refl in
      let small =
        smell_list (is_above 0 ls.small_text) (codes "small-text") (codes "minor") ls.small_text
          (examples_at (codes "small_text") ls.examples) refl in
      let meta =
        smell_list ls.missing_viewport_meta (codes "missing-viewport-meta") (codes "moderate")
          (pos 0) [] refl in
      let images =
        smell_list (is_above 0 ls.images_no_dims) (codes "images-without-dimensions")
          (codes "minor") ls.images_no_dims (examples_at (codes "images_no_dims") ls.examples)
          refl in
      All-append rating wide.0 (taps.0 ++ (small.0 ++ (meta.0 ++ images.0))) wide.1 (
        All-append rating taps.0 (small.0 ++ (meta.0 ++ images.0)) taps.1 (
          All-append rating small.0 (meta.0 ++ images.0) small.1
            (All-append rating meta.0 images.0 meta.1 images.1)))

module _ {Float : Type 0} (P : Finding Float → Type 0) where
  -- Both lists are the same, and all their findings are as they should be.
  abbrev IsInStep : Lists Float → Type 0
  IsInStep ls = (ls.0 ≡ ls.1) × All P ls.0

  add-IsInStep : (f : Finding Float) (ls : Lists Float) → P f → IsInStep ls → IsInStep (add f ls)
  unfolding add
  add-IsInStep f (rows, entries) h (e, a) =
      (ap (λ fs. fs ++ f ∷ []) e, All-append P rows (f ∷ []) a (h, tt))

  add_all-IsInStep :
      (fs : List (Finding Float)) (ls : Lists Float)
      → All P fs
      → IsInStep ls
      → IsInStep (add_all fs ls)
  unfolding add_all
  add_all-IsInStep [] ls h k = k
  add_all-IsInStep (f ∷ fs) ls (h, hs) k = add_all-IsInStep fs (add f ls) hs (add-IsInStep f ls h k)

  module _ (json_id : Str → Str) (above_cls_good above_cls_poor : Float → Bool) where
    add_pushed-IsInStep :
        (pg : PushPage Float) (fs : List PushFinding) (ls : Lists Float)
        → ((f : PushFinding) → is_replaced pg f ≡ false → P (pushed_finding json_id f))
        → IsInStep ls
        → IsInStep (add_pushed json_id pg fs ls)
    unfolding add_pushed
    add_pushed-IsInStep pg [] ls h k = k
    add_pushed-IsInStep pg (f ∷ fs) ls h k =
        let taken = pushed_finding json_id f in
        elim (Bool-cases (is_replaced pg f)) [
          | inl e ↦ rw e (add_pushed-IsInStep pg fs ls h k)
          | inr e ↦
              rw e (add_pushed-IsInStep pg fs (add taken ls) h (add-IsInStep taken ls (h f e) k))
        ]

    add_perf-IsInStep :
        (env : Str) (perf : Option (PushPerf Float)) (ls : Lists Float)
        → (eqb env (codes "lab") ≡ false
            → is_some perf ≡ true
            → (f : Finding Float) → IsRated (codes "perf") f
            → P f)
        → IsInStep ls
        → IsInStep (add_perf above_cls_good above_cls_poor env perf ls)
    unfolding add_perf
    add_perf-IsInStep env none ls h k = k
    add_perf-IsInStep env (some p) ls h k =
        let fs = perf_findings above_cls_good above_cls_poor (perf_of p) in
        elim (Bool-cases (eqb env (codes "lab"))) [
          | inl e ↦ rw e k
          | inr e ↦ rw e (
              add_all-IsInStep fs ls
                (All-weaken (IsRated (codes "perf")) P fs (h e refl)
                  (perf_findings-All above_cls_good above_cls_poor (perf_of p)))
                k)
        ]

    add_layout-IsInStep :
        (viewport : Str) (layout : Option PushLayout) (ls : Lists Float)
        → ((f : Finding Float) → IsRated (codes "layout") f → P f)
        → IsInStep ls
        → IsInStep (add_layout viewport layout ls)
    unfolding add_layout
    add_layout-IsInStep viewport none ls h k = k
    add_layout-IsInStep viewport (some l) ls h k =
        let smells = layout_of l in
        let mobile = eqb viewport (codes "mobile") in
        add_all-IsInStep (layout_findings smells mobile) ls
          (All-weaken (IsRated (codes "layout")) P (layout_findings smells mobile) h
            (layout_findings-All Float smells mobile))
          k

module _ {Float : Type 0} (json_id : Str → Str) (above_cls_good above_cls_poor : Float → Bool) where
  -- A finding that has a severity, and is none of performance where a lab has measured it.
  abbrev pub IsHonest : Str → PushPage Float → Finding Float → Type 0
  IsHonest env pg f =
      (is_empty f.severity ≡ false)
      × (eqb env (codes "lab") ≡ true → is_some pg.perf ≡ true → eqb f.type (codes "perf") ≡ false)

  -- The rows and the report say the same.
  abbrev pub IsHonestPage : Str → PushPage Float → MappedPage Float → Type 0
  IsHonestPage env pg m = (m.findings ≡ m.report.findings) × All (IsHonest env pg) m.findings

  pushed-IsHonest :
      (env : Str) (pg : PushPage Float) (f : PushFinding)
      → is_replaced pg f ≡ false
      → IsHonest env pg (pushed_finding json_id f)
  unfolding is_replaced pushed_finding
  pushed-IsHonest env pg f h =
      let severity : is_empty (if is_empty f.severity then codes "info" else f.severity) ≡ false =
        elim (Bool-cases (is_empty f.severity)) [ inl e ↦ rw e refl | inr e ↦ rw e e ] in
      (severity, (λ lab block. ground (arith, h, block)))

  layout-IsHonest :
      (env : Str) (pg : PushPage Float) (f : Finding Float)
      → IsRated (codes "layout") f
      → IsHonest env pg f
  unfolding eqb
  layout-IsHonest env pg f (t, s) = (s, (λ lab block. rw t refl))

  -- The rows and the report of a pushed page have the same findings, each with a severity, and none
  -- of performance if the push declares a lab and brings a block of measurements.
  pub map_page-IsHonest :
      (run_id : Str) (pg : PushPage Float) (keys : PageKeys) (env : Str)
      → IsHonestPage env pg (map_page json_id above_cls_good above_cls_poor run_id pg keys env)
  unfolding map_page
  map_page-IsHonest run_id pg keys env =
      let P = IsHonest env pg in
      let pushed = add_pushed json_id pg pg.findings ([], []) in
      let measured = add_perf above_cls_good above_cls_poor env pg.perf pushed in
      add_layout-IsInStep P json_id above_cls_good above_cls_poor pg.viewport pg.layout measured
        (λ f r. layout-IsHonest env pg f r)
        (add_perf-IsInStep P json_id above_cls_good above_cls_poor env pg.perf pushed
          (λ e q f r. (r.1, (λ lab some_block. absurd (ground (arith, e, lab)))))
          (add_pushed-IsInStep P json_id above_cls_good above_cls_poor pg pg.findings ([], [])
            (pushed-IsHonest env pg) (refl, tt)))
