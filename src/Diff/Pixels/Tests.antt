-- ===== src/Diff/Pixels/Tests.antt =====
-- A wide and a tall screenshot that share one point.
use auditloop.Base.{ℕ, ◌≡◌, refl, true, false, Option, none, some, [], ◌∷◌, Str, codes}
use auditloop.Diff.Pixels.{
  Rgb, Image, Comparison, compare_tol_cap, overlap_mismatches, row_mismatches, compare_images,
  differs,
}
use auditloop.Diff.Pixels.Laws.{IsComparison, compare_tol_cap-IsComparison}

abbrev grey : ℕ → Rgb
grey c = record { red = c; green = c; blue = c }

abbrev wide : Image
wide = record { width = 2; height = 1; at = λ x y. grey 0 }

abbrev tall : Image
tall = record { width = 1; height = 2; at = λ x y. grey 4096 }

abbrev bright : Image
bright = record { width = 1; height = 2; at = λ x y. grey 65535 }

abbrev decode : Str → Option Image
decode [] = none
decode (c ∷ []) = some wide
decode (c ∷ d ∷ []) = some tall
decode (c ∷ d ∷ e ∷ s) = some bright

abbrev encode : Image → Option Str
encode image = some (codes "png")

-- A difference of 16 is within the tolerance; the box of both has 4 points.
shifted_test :
    compare_tol_cap decode encode 16 0 (codes "w") (codes "tt")
    ≡ some (record {
      changed_pixels = 3;
      total_pixels = 4;
      size_changed = true;
      too_large = false;
      diff_png = some (codes "png");
    })
unfolding compare_tol_cap compare_images overlap_mismatches row_mismatches differs
shifted_test = refl

changed_test :
    compare_tol_cap decode encode 16 1 (codes "tt") (codes "bbb")
    ≡ some (record {
      changed_pixels = 2;
      total_pixels = 2;
      size_changed = false;
      too_large = true;
      diff_png = none;
    })
unfolding compare_tol_cap compare_images overlap_mismatches row_mismatches differs
changed_test = refl

no_png_test : compare_tol_cap decode encode 16 1 [] (codes "bbb") ≡ none
unfolding compare_tol_cap
no_png_test = refl

compare_tol_cap-IsComparison_example :
    (c : Comparison) × (compare_tol_cap decode encode 16 0 (codes "w") (codes "tt") ≡ some c)
    × IsComparison 16 0 wide tall c
compare_tol_cap-IsComparison_example =
    compare_tol_cap-IsComparison decode encode 16 0 (codes "w") (codes "tt") (codes "png") wide tall
      refl refl refl
