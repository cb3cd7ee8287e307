-- ===== src/Tests/Interval.antt =====
-- `ssIFMat` on the sums 1000 and 1034 with the squares of distances and the threshold 10.
use opprf_fpsi.Prelude.{
  ℕ, ◌+◌, ◌^◌, ◌<◌, ◌≡◌, ◌↔◌, inl, inr, refl, ap, Bool, List, [], ◌∷◌, map, map-In, arith, ok,
  Returns, collect,
}
use opprf_fpsi.Matching.Params.{PrefixParam, if_match_table, get_selected_param}
use opprf_fpsi.Matching.Strings.{if_match_queries, length-if_match_queries}
use opprf_fpsi.Protocol.Linf.{padding_blocks}
use opprf_fpsi.Protocol.Rounds.{second_programs}
use opprf_fpsi.Protocol.Rounds.Laws.{IsClean}
use opprf_fpsi.Protocol.Rounds.Second.{collect-IsSecond}
use opprf_fpsi.Protocol.Interval.{interval_entries, interval_keys, ss_if_mat}
use opprf_fpsi.Protocol.Interval.Laws.{
  IsIn, IsInjective, entries-IsCollected, length-interval_keys, keys_of,
}
use opprf_fpsi.Protocol.Interval.Outcome.{ss_if_mat-IsIn}
use opprf_fpsi.Tests.Blocks.{
  TestBlock, hashed, number, lookup, lookup-cases, lookup-IsProgrammable, padding_blocks-In,
  value_of, value_of-Returns,
}

abbrev hash : List Bool → ℕ → TestBlock
hash p i = hashed p (number 0) i 0

hash-IsInjective : IsInjective hash
hash-IsInjective p q i j e = (cc, cc)

abbrev param_101 : PrefixParam
param_101 = record { widths = 0 ∷ 2 ∷ 4 ∷ 6 ∷ []; room = 14 }

found_101 : get_selected_param if_match_table (100 + 1) ≡ ok param_101
unfolding get_selected_param if_match_table
found_101 = refl

abbrev v_sums : ℕ → ℕ
v_sums i = 1000

abbrev u_sums : ℕ → ℕ
u_sums i = 1034

abbrev a_random : ℕ → TestBlock
a_random i = number 50

abbrev t_vals : ℕ → TestBlock
t_vals i = number 60

abbrev fill : ℕ → TestBlock × TestBlock
fill n = (number n, number n)

abbrev strings_1034 : List (List Bool)
strings_1034 = value_of (if_match_queries 100 1034)

abbrev keys_1034 : List TestBlock
keys_1034 = map (λ prefix. hash prefix 0) strings_1034

low_1000 : (j : ℕ) → j < 1 → v_sums j + 100 < 2 ^ 64
low_1000 j h = omega arith

word_1034 : (j : ℕ) → u_sums j < 2 ^ 64
word_1034 j = omega arith

keyed_1034 : interval_keys hash 100 u_sums 0 ≡ ok keys_1034
keyed_1034 =
    keys_of hash hash-IsInjective 100 1 param_101 found_101 v_sums u_sums a_random low_1000
      word_1034 0 strings_1034
      (value_of-Returns (if_match_queries 100 1034) _
        (length-if_match_queries 100 1034 param_101 found_101))

abbrev entries_1000 : List (TestBlock × TestBlock)
entries_1000 = value_of (collect (interval_entries hash 100 v_sums a_random) 0 1)

listed_1000 : collect (interval_entries hash 100 v_sums a_random) 0 1 ≡ ok entries_1000
listed_1000 = value_of-Returns (collect (interval_entries hash 100 v_sums a_random) 0 1) _ (
    entries-IsCollected hash hash-IsInjective 100 1 param_101 found_101 v_sums u_sums a_random
      low_1000 word_1034)

abbrev all_keys : List TestBlock
all_keys = value_of (collect (interval_keys hash 100 u_sums) 0 1)

asked_1034 : collect (interval_keys hash 100 u_sums) 0 1 ≡ ok all_keys
asked_1034 = value_of-Returns (collect (interval_keys hash 100 u_sums) 0 1) _ (
    collect-IsSecond (interval_keys hash 100 u_sums) 4
      (length-interval_keys hash hash-IsInjective 100 1 param_101 found_101 v_sums u_sums a_random
        low_1000 word_1034)
      (λ b. b) t_vals 1)

keys_1034-IsClean :
    (es : List (TestBlock × TestBlock)) (prefix_keys : List TestBlock)
    → IsClean lookup lookup
        (interval_keys hash 100 u_sums)
        1
        0
        keys_1034
        es
        (padding_blocks fill es 14)
        (second_programs (lookup (padding_blocks fill es 14)) prefix_keys t_vals 4 1)
        (number 50)
        (number 60)
keys_1034-IsClean es prefix_keys = record {
  padding_unasked = λ q w m n. elim (padding_blocks-In fill es 14 (q, w) n) [
    | inl l ↦ l
    | inr (k, e) ↦
        let (p, mp, d) = map-In (λ prefix. hash prefix 0) q strings_1034 m in
        let is_number : q ≡ number k = ap (λ (t : TestBlock × TestBlock). t.0) e in absurd (cc)
  ];
  separate = λ j ws q hj e m d. omega arith;
  unprogrammed = λ q m e. elim (lookup-cases (padding_blocks fill es 14) q) [
    | inl (w, n, found) ↦ (w, n)
    | inr (missing, absent) ↦ absurd (cc)
  ];
  unprogrammed_second = λ e.
      elim (lookup-cases
        (second_programs (lookup (padding_blocks fill es 14)) prefix_keys t_vals 4 1) (number 50)) [
          | inl (w, n, found) ↦ (w, n)
          | inr (missing, absent) ↦ absurd (cc)
        ];
}

ss_if_mat-IsIn_example :
    Returns
      (ss_if_mat hash lookup lookup 10 2 v_sums u_sums a_random t_vals fill 1)
      λ t_. (t_ 0 ≡ number 60) ↔ IsIn 100 1000 1034
ss_if_mat-IsIn_example =
    ss_if_mat-IsIn hash lookup lookup hash-IsInjective lookup-IsProgrammable lookup-IsProgrammable
      10 2 100 1 refl (omega arith) param_101 found_101 v_sums u_sums a_random t_vals fill low_1000
      word_1034 0 (omega arith) entries_1000 listed_1000 all_keys keys_1034 asked_1034 keyed_1034
      (keys_1034-IsClean entries_1000 all_keys)
