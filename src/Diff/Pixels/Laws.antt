-- ===== src/Diff/Pixels/Laws.antt =====
-- What a visual diff counts.
use auditloop.Base.{
  ℕ, ◌+◌, ◌-◌, ◌*◌, ◌≤◌, ◌<◌, ◌≡◌, ◌↔◌, refl, ap₂, ◌∙◌, inl, inr, Bool, true, false, ◌&&◌, ◌||◌,
  not, Option, some, arith, Bool-cases, is_some, max, Str,
}
use auditloop.Diff.Pixels.{
  overlap_mismatches, Image, Comparison, Rgb, differs, mismatch, in_overlap, overlap_width,
  overlap_height, total_of, compare_images, compare_tol_cap, gen_viz, visualization, channel_delta,
  rgb8,
}
use auditloop.Diff.Pixels.Counts.{box_same, box_cut, box_outside, box_all, box_le}

-- A point of the box around both images that only counts as equal when both have it.
abbrev pub is_changed : ℕ → Image → Image → ℕ → ℕ → Bool
is_changed tol base cur x y =
    not (in_overlap base cur x y) || differs tol (cur.at x y) (base.at x y)

abbrev pub changed_points : ℕ → Image → Image → ℕ
changed_points tol base cur =
    overlap_mismatches (is_changed tol base cur) (max base.width cur.width)
      (max base.height cur.height)

module _ (t : ℕ → ℕ → Bool) (base cur : Image) where
  -- A test of points that both images have counts the same in every box around the overlap.
  in_box :
      (w h : ℕ)
      → overlap_width base cur ≤ w
      → overlap_height base cur ≤ h
      → overlap_mismatches (λ x y. in_overlap base cur x y && t x y) w h
        ≡ overlap_mismatches t (overlap_width base cur) (overlap_height base cur)
  in_box w h p q =
      box_cut t (overlap_width base cur) (overlap_height base cur) w h
      ∙ ap₂ (λ a b. overlap_mismatches t a b) (omega (arith, p)) (omega (arith, q))

overlap_area :
    (base cur : Image)
    → overlap_mismatches
        (in_overlap base cur)
        (max base.width cur.width)
        (max base.height cur.height)
      ≡ overlap_width base cur * overlap_height base cur
overlap_area base cur =
    box_same (in_overlap base cur) (λ x y. in_overlap base cur x y && true) (λ x y. ground arith)
      (max base.width cur.width) (max base.height cur.height)
    ∙ (in_box (λ x y. true) base cur (max base.width cur.width) (max base.height cur.height)
          (omega arith) (omega arith)
        ∙ box_all (overlap_width base cur) (overlap_height base cur))

module _ (tol : ℕ) (base cur : Image) where
  abbrev mismatches : ℕ
  mismatches = overlap_mismatches (mismatch tol base cur) cur.width cur.height

  -- The count of the code is that of the points.
  counted :
      mismatches + (total_of base cur - overlap_width base cur * overlap_height base cur)
      ≡ changed_points tol base cur
  counted =
      let t : ℕ → ℕ → Bool = λ x y. differs tol (cur.at x y) (base.at x y) in
      let w = max base.width cur.width in
      let h = max base.height cur.height in
      let both = overlap_width base cur * overlap_height base cur in
      let split = box_outside (in_overlap base cur) t w h in
      let area = overlap_area base cur in
      let wide = in_box t base cur w h (omega arith) (omega arith) in
      let seen = in_box t base cur cur.width cur.height (omega arith) (omega arith) in
      let le = box_le (in_overlap base cur) w h in omega (arith, split, area, wide, seen, le)

  changed_le : changed_points tol base cur ≤ total_of base cur
  changed_le =
      box_le (is_changed tol base cur) (max base.width cur.width) (max base.height cur.height)

channel_delta_comm : (a b : ℕ) → channel_delta a b ≡ channel_delta b a
unfolding channel_delta
channel_delta_comm a b = ground arith

differs_comm : (tol : ℕ) (c b : Rgb) → differs tol c b ≡ differs tol b c
unfolding differs
differs_comm tol c b =
    rw
      (
        channel_delta_comm (rgb8 c).red (rgb8 b).red,
        channel_delta_comm (rgb8 c).green (rgb8 b).green,
        channel_delta_comm (rgb8 c).blue (rgb8 b).blue,
      )
      refl

-- Which of two images is the baseline does not matter to the count.
changed_points_comm :
    (tol : ℕ) (base cur : Image) → changed_points tol base cur ≡ changed_points tol cur base
changed_points_comm tol base cur =
    box_same (is_changed tol base cur) (is_changed tol cur base)
      (λ x y. let d = differs_comm tol (cur.at x y) (base.at x y) in ground (arith, d))
      (max base.width cur.width) (max base.height cur.height)
    ∙ ap₂ (λ a b. overlap_mismatches (is_changed tol cur base) a b) (omega arith) (omega arith)

-- What a comparison of two decoded screenshots says.
pub record IsComparison (tol max_viz : ℕ) (base cur : Image) (c : Comparison) : Type 0 where
  counts : c.changed_pixels ≡ changed_points tol base cur
  area : c.total_pixels ≡ max base.width cur.width * max base.height cur.height
  within : c.changed_pixels ≤ c.total_pixels
  resized : (c.size_changed ≡ false) ↔ ((base.width ≡ cur.width) × (base.height ≡ cur.height))
  capped : (c.too_large ≡ true) ↔ ((0 < max_viz) × (max_viz < cur.width * cur.height))
  shown : is_some c.diff_png ≡ not c.too_large

module _ (decode : Str → Option Image) (encode : Image → Option Str) where
  compare_images-IsComparison :
      (tol max_viz : ℕ) (base cur : Image) (png : Str)
      → encode (visualization tol base cur) ≡ some png
      → (c : Comparison) × (compare_images decode encode tol max_viz base cur ≡ some c)
        × IsComparison tol max_viz base cur c
  unfolding compare_images
  compare_images-IsComparison tol max_viz base cur png e =
      let n = counted tol base cur in
      let le = changed_le tol base cur in
      elim (Bool-cases (gen_viz max_viz cur)) [
        | inl g ↦
            rw (g, e)
              (
                _,
                refl,
                record {
                  counts = n;
                  area = refl;
                  within = omega (arith, n, le);
                  resized = ground arith;
                  capped = ground (arith, g);
                  shown = refl;
                },
              )
        | inr g ↦ rw g (
          _,
          refl,
          record {
            counts = n;
            area = refl;
            within = omega (arith, n, le);
            resized = ground arith;
            capped = ground (arith, g);
            shown = refl;
          },
        )
      ]

  -- Two screenshots that decode, with a visualization that can be encoded, are compared, and the
  -- changed pixels are the points of the box around both images that one image lacks or that
  -- differ beyond the tolerance in a channel; they are at most all of its points. The sizes and
  -- the cap of the visualization are reported as they are.
  pub compare_tol_cap-IsComparison :
      (tol max_viz : ℕ) (baseline current png : Str) (base cur : Image)
      → decode baseline ≡ some base
      → decode current ≡ some cur
      → encode (visualization tol base cur) ≡ some png
      → (c : Comparison) × (compare_tol_cap decode encode tol max_viz baseline current ≡ some c)
        × IsComparison tol max_viz base cur c
  unfolding compare_tol_cap
  compare_tol_cap-IsComparison tol max_viz baseline current png base cur h k e =
      rw (h, k) (compare_images-IsComparison tol max_viz base cur png e)
