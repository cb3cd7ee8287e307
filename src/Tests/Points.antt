-- ===== src/Tests/Points.antt =====
-- The grid of `fpsi/utils/dist_util.cpp` and the strings of the matching on concrete coordinates.
use opprf_fpsi.Prelude.{
  ◌*◌, ◌%◌, ◌^◌, ◌-◌, ◌≡◌, refl, ◌&&◌, [], ◌∷◌, arith, inl, leb, ltb, to_nat, ok, Returns,
}
use opprf_fpsi.Grid.Cells.{Point, cell, diff, intersection}
use opprf_fpsi.Grid.Neighbours.{StandsOnce, intersection-cell}
use opprf_fpsi.Grid.Powers.{fast_pow, fast_pow-power}
use opprf_fpsi.Prefix.Match.{common}
use opprf_fpsi.Matching.Params.{
  PrefixParam, IsUsable, linf_table, lp_table, if_match_table, get_selected_param, tables-IsUsable,
}
use opprf_fpsi.Matching.Strings.{
  linf_strings, linf_queries, lp_strings, lp_queries, if_match_strings, if_match_queries,
  linf_strings-linf_queries, lp_strings-lp_queries, if_match_strings-if_match_queries,
}

abbrev here : Point
here = 105 ∷ 57 ∷ []

abbrev there : Point
there = 98 ∷ 67 ∷ []

intersection-cell_example :
    Returns
      (cell there 2 (2 * 10))
      λ c. Returns (intersection here 0 2 10 (2 * 10) (2 ^ 2)) λ cells. StandsOnce c cells (2 ^ 2)
intersection-cell_example =
    intersection-cell here there 0 2 10 refl (omega arith) (omega arith) (omega arith) (
      omega arith,
      omega arith,
      omega arith,
      omega arith,
      (omega arith, omega arith, omega arith, omega arith, tt),
    )

fast_pow-power_example : fast_pow 32 240 5 ≡ 240 ^ 5 % 2 ^ 32
fast_pow-power_example = fast_pow-power 32 240 5 (omega arith) (omega arith) (omega arith)

abbrev linf_21 : PrefixParam
linf_21 = record { widths = 0 ∷ 1 ∷ 2 ∷ 3 ∷ []; room = 6 }

abbrev lp_11 : PrefixParam
lp_11 = record { widths = 0 ∷ 2 ∷ []; room = 5 }

abbrev lp_10 : PrefixParam
lp_10 = record { widths = 0 ∷ 1 ∷ []; room = 6 }

linf_found : get_selected_param linf_table 21 ≡ ok linf_21
unfolding get_selected_param linf_table
linf_found = refl

lp_11_found : get_selected_param lp_table 11 ≡ ok lp_11
unfolding get_selected_param lp_table
lp_11_found = refl

lp_10_found : get_selected_param lp_table 10 ≡ ok lp_10
unfolding get_selected_param lp_table
lp_10_found = refl

if_match_found : get_selected_param if_match_table 11 ≡ ok lp_11
unfolding get_selected_param if_match_table
if_match_found = refl

tables-IsUsable_example : IsUsable 21 linf_21
tables-IsUsable_example = tables-IsUsable 21 linf_21 (inl linf_found)

linf_strings-linf_queries_example :
    Returns
      (linf_strings 10 105)
      λ ps. Returns (linf_queries 10 98) λ qs. common qs ps ≡ to_nat (leb (diff 105 98) 10)
linf_strings-linf_queries_example =
    linf_strings-linf_queries 10 105 98 linf_21 linf_found (omega arith) (omega arith) (omega arith)

lp_strings-lp_queries_example : Returns (lp_strings 10 105) λ ps. Returns (lp_queries 10 98) λ qs.
    (common qs.0 ps.0 ≡ to_nat (leb 98 105 && leb (diff 105 98) 10))
    × (common qs.1 ps.1 ≡ to_nat (ltb 105 98 && leb (diff 105 98) 10))
lp_strings-lp_queries_example =
    lp_strings-lp_queries 10 105 98 lp_11 lp_10 lp_11_found lp_10_found (omega arith) (omega arith)
      (omega arith) (omega arith)

if_match_strings-if_match_queries_example : Returns (if_match_strings 10 300) λ ps.
    Returns
      (if_match_queries 10 305)
      λ qs. common qs ps ≡ to_nat (leb 300 305 && leb (305 - 300) 10)
if_match_strings-if_match_queries_example =
    if_match_strings-if_match_queries 10 300 305 lp_11 if_match_found (omega arith) (omega arith)
