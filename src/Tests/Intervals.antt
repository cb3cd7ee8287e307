-- ===== src/Tests/Intervals.antt =====
-- `fpsi/utils/set_dec.cpp` on small intervals.
use opprf_fpsi.Prelude.{ℕ, ◌^◌, ◌≤◌, ◌≡◌, ◌↔◌, true, List, [], ◌∷◌, arith, err, undefined, Returns}
use opprf_fpsi.Prefix.Strings.{covers, low_bound, up_bound}
use opprf_fpsi.Prefix.Hits.{in_range}
use opprf_fpsi.Prefix.Bounds.{covers-bounds}
use opprf_fpsi.Prefix.Decompose.{decompose_improve}
use opprf_fpsi.Prefix.Decompose.Laws.{decompose_improve-long}
use opprf_fpsi.Prefix.SetDec.{member, set_dec, set_prefix}
use opprf_fpsi.Prefix.SetDec.Cover.{Covers, set_dec-Covers}
use opprf_fpsi.Prefix.Match.{common, set_prefix-set_dec}

abbrev widths : List ℕ
widths = 0 ∷ 2 ∷ 3 ∷ []

zero_in : member 0 widths ≡ true
unfolding member
zero_in = ground arith

covers-bounds_example :
    (covers (true ∷ []) 9 ≡ true) ↔ ((low_bound (true ∷ []) ≤ 9) × (9 ≤ up_bound (true ∷ [])))
covers-bounds_example = covers-bounds (true ∷ []) 9 (omega arith) (omega arith)

decompose_improve-long_example : decompose_improve 1 (2 ^ 40) ≡ err undefined
decompose_improve-long_example =
    decompose_improve-long 1 (2 ^ 40) (omega arith) (omega arith) (omega arith)

set_dec-Covers_example : Returns (set_dec 5 17 widths) (Covers 5 17 widths)
set_dec-Covers_example =
    set_dec-Covers 5 17 widths (omega arith) (omega arith) (omega arith) zero_in

set_prefix-set_dec_example :
    Returns
      (set_dec 5 17 widths)
      λ ps. Returns (set_prefix 9 widths) λ qs. common qs ps ≡ in_range 5 18 9
set_prefix-set_dec_example =
    set_prefix-set_dec 5 17 9 widths (omega arith) (omega arith) (omega arith) (omega arith)
      ((omega arith, (omega arith, tt)), ((omega arith, tt), (tt, tt)))
      (omega arith, (omega arith, (omega arith, tt))) zero_in
