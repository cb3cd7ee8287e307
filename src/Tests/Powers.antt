-- ===== src/Tests/Powers.antt =====
-- The arithmetic of the squares of distances, at the coordinates 100 and 95 and a prefix that ends
-- at 97.
use opprf_fpsi.Prelude.{ℕ, ◌+◌, ◌≡◌, refl, inl, inr, [], ◌∷◌, arith, ok, Returns, leb, to_nat}
use opprf_fpsi.Prefix.Match.{common}
use opprf_fpsi.Matching.Params.{PrefixParam, get_selected_param, if_match_table}
use opprf_fpsi.Matching.Strings.{if_match_strings, if_match_queries}
use opprf_fpsi.Protocol.Powers.{prefix_val, v_candidate, v_hat, diff_below, e_below, sum_words}
use opprf_fpsi.Protocol.Powers.Laws.{Meets, v_hat-wraps}
use opprf_fpsi.Protocol.Powers.Sums.{plain_sum, sum_words-if_match}

abbrev a_vole : ℕ → ℕ
a_vole s = 13

abbrev c_vole : ℕ → ℕ
c_vole s = 160

abbrev d_vole : ℕ → ℕ
d_vole s = 17

met_97 : Meets 100 95 3 2
unfolding diff_below e_below
met_97 = inl (97, (omega arith, omega arith), refl, refl)

v_hat-wraps_example :
    v_hat 2 (v_candidate 2 11 10 (prefix_val 2 5 7 a_vole 3) d_vole 2) 7 a_vole c_vole ≡ 4294967281
v_hat-wraps_example =
    v_hat-wraps 2 5 7 11 10 3 2 100 95 a_vole c_vole d_vole (inr refl) (omega arith) (omega arith)
      (omega arith) refl (omega arith) (omega arith) met_97 (omega arith) (omega arith)

abbrev param_100 : PrefixParam
param_100 = record { widths = 0 ∷ 2 ∷ 4 ∷ 6 ∷ []; room = 14 }

found_100 : get_selected_param if_match_table (100 + 1) ≡ ok param_100
unfolding get_selected_param if_match_table
found_100 = refl

sum_words-if_match_example : Returns (if_match_strings 100 (sum_words 0 (975 ∷ 1991 ∷ []))) λ ps.
    Returns
      (if_match_queries 100 (sum_words 0 (1000 ∷ 2000 ∷ [])))
      λ qs. common qs ps ≡ to_nat (leb (plain_sum (25 ∷ 9 ∷ [])) 100)
sum_words-if_match_example =
    sum_words-if_match 100 (1000 ∷ 2000 ∷ []) (975 ∷ 1991 ∷ []) (25 ∷ 9 ∷ []) param_100
      (omega arith, omega arith, refl, (omega arith, omega arith, refl, tt)) (omega arith)
      (omega arith) found_100
