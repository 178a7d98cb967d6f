-- ===== src/Diff/Pixels.antt =====
-- internal/diff/diff.go: the visual diff of two screenshots. The decoder and the encoder of PNG are
-- parameters; a decoded image is its size and the colour of each point, with channels of 16 bits.
-- The alpha channel, always opaque, is left out, and DiffPct is left to the two counts that it is the quotient of.
pub mod Counts
pub mod Laws
mod Tests
use auditloop.Base.{
  ℕ, zero, suc, ◌+◌, ◌-◌, ◌*◌, ◌/◌, ◌%◌, min, max, Bool, true, false, ◌&&◌, ◌||◌, not, Option, none,
  some, ltb, leb, ◌==◌, if◌then◌else◌, Str,
}

pub record Rgb : Type 0 where
  pub red : ℕ
  pub green : ℕ
  pub blue : ℕ

-- image.Image: the points of a column and a row counted from Bounds().Min.
pub record Image : Type 0 where
  pub width : ℕ
  pub height : ℕ
  pub at : ℕ → ℕ → Rgb

abbrev pub default_tolerance : ℕ
default_tolerance = 16

abbrev pub max_visualization_pixels : ℕ
max_visualization_pixels = 24000000

pub record Comparison : Type 0 where
  pub changed_pixels : ℕ
  pub total_pixels : ℕ
  pub size_changed : Bool
  pub too_large : Bool
  pub diff_png : Option Str

-- uint8(c >> 8) of each channel, with 256 for 2 ^ 8.
unfoldable pub rgb8 : Rgb → Rgb
rgb8 c = record {
  red = (c.red / 256) % 256;
  green = (c.green / 256) % 256;
  blue = (c.blue / 256) % 256;
}

unfoldable pub channel_delta : ℕ → ℕ → ℕ
channel_delta a b = if ltb b a then a - b else b - a

unfoldable pub dim : Rgb → Rgb
dim c = record { red = c.red / 3; green = c.green / 3; blue = c.blue / 3 }

unfoldable pub tint_red : Rgb → Rgb
tint_red c = record { red = 255; green = c.green / 4; blue = c.blue / 4 }

-- The test of the inner loop, without its bounds.
unfoldable pub differs : ℕ → Rgb → Rgb → Bool
unfolding rgb8 channel_delta
differs tol c b =
    let c' = rgb8 c in
    let b' = rgb8 b in
    ltb tol (channel_delta c'.red b'.red)
    || ltb tol (channel_delta c'.green b'.green)
    || ltb tol (channel_delta c'.blue b'.blue)

abbrev pub overlap_width : Image → Image → ℕ
overlap_width base cur = min base.width cur.width

abbrev pub overlap_height : Image → Image → ℕ
overlap_height base cur = min base.height cur.height

abbrev pub total_of : Image → Image → ℕ
total_of base cur = max base.width cur.width * max base.height cur.height

abbrev pub in_overlap : Image → Image → ℕ → ℕ → Bool
in_overlap base cur x y = ltb x (overlap_width base cur) && ltb y (overlap_height base cur)

abbrev pub mismatch : ℕ → Image → Image → ℕ → ℕ → Bool
mismatch tol base cur x y = in_overlap base cur x y && differs tol (cur.at x y) (base.at x y)

-- One row of the loop: what it adds to overlapMismatches, over the first n columns.
unfoldable pub row_mismatches : (ℕ → Bool) → ℕ → ℕ
row_mismatches test zero = 0
row_mismatches test (suc x) = row_mismatches test x + (if test x then 1 else 0)

-- The rows of the loop.
unfoldable pub overlap_mismatches : (ℕ → ℕ → Bool) → ℕ → ℕ → ℕ
unfolding row_mismatches
overlap_mismatches test w zero = 0
overlap_mismatches test w (suc y) = overlap_mismatches test w y + row_mismatches (λ x. test x y) w

-- What the visualization shows at a point of the current image.
unfoldable pub drawn : ℕ → Image → Image → ℕ → ℕ → Rgb
unfolding differs rgb8 dim tint_red
drawn tol base cur x y =
    let changed =
      if in_overlap base cur x y then differs tol (cur.at x y) (base.at x y) else true in
    if changed then tint_red (rgb8 (cur.at x y)) else dim (rgb8 (cur.at x y))

-- The visualization, with the colours as Set stores them.
abbrev pub visualization : ℕ → Image → Image → Image
unfolding drawn
visualization tol base cur = record {
  width = cur.width;
  height = cur.height;
  at = drawn tol base cur;
}

-- The limit of 0 is none.
abbrev pub gen_viz : ℕ → Image → Bool
gen_viz max_viz cur = max_viz == 0 || leb (cur.width * cur.height) max_viz

abbrev pub with_png : Comparison → Option Str → Option Comparison
with_png c none = none
with_png c (some png) = some (record c { diff_png = some png })

module _ (decode : Str → Option Image) (encode : Image → Option Str) where
  unfoldable pub compare_images : ℕ → ℕ → Image → Image → Option Comparison
  unfolding overlap_mismatches
  compare_images tol max_viz base cur =
      let total = total_of base cur in
      let non_overlap = total - overlap_width base cur * overlap_height base cur in
      let mismatches = overlap_mismatches (mismatch tol base cur) cur.width cur.height in
      let c : Comparison = record {
        changed_pixels = mismatches + non_overlap;
        total_pixels = total;
        size_changed = not (base.width == cur.width) || not (base.height == cur.height);
        too_large = not (gen_viz max_viz cur);
        diff_png = none;
      } in
      if gen_viz max_viz cur then with_png c (encode (visualization tol base cur)) else some c

  abbrev pub compare_decoded : ℕ → ℕ → Option Image → Option Image → Option Comparison
  unfolding compare_images
  compare_decoded tol max_viz none cur = none
  compare_decoded tol max_viz (some base) none = none
  compare_decoded tol max_viz (some base) (some cur) = compare_images tol max_viz base cur

  unfoldable pub compare_tol_cap : ℕ → ℕ → Str → Str → Option Comparison
  unfolding compare_decoded
  compare_tol_cap tol max_viz baseline current =
      compare_decoded tol max_viz (decode baseline) (decode current)

  unfoldable pub compare_tol : ℕ → Str → Str → Option Comparison
  unfolding compare_tol_cap
  compare_tol tol baseline current = compare_tol_cap tol max_visualization_pixels baseline current

  unfoldable pub compare_screenshots : Str → Str → Option Comparison
  unfolding compare_tol
  compare_screenshots baseline current = compare_tol default_tolerance baseline current
