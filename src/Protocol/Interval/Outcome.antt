-- ===== src/Protocol/Interval/Outcome.antt =====
-- `ssIFMat` from the sums to the words that go to the equality test.
use opprf_fpsi.Prelude.{
  ℕ, ◌+◌, ◌*◌, ◌^◌, ◌<◌, ◌≡◌, ◌↔◌, inr, refl, sym, ◌∙◌, Bool, List, arith, collect, length, u64, ok,
  Returns, ok_injective,
}
use opprf_fpsi.Grid.Powers.{fast_pow, fast_pow-power}
use opprf_fpsi.Matching.Params.{PrefixParam, if_match_table, get_selected_param, tables-IsUsable}
use opprf_fpsi.Matching.Strings.{length-if_match_queries}
use opprf_fpsi.Protocol.Linf.{padding_blocks}
use opprf_fpsi.Protocol.Linf.Keys.{IsAsked, Carries}
use opprf_fpsi.Protocol.Rounds.{second_programs}
use opprf_fpsi.Protocol.Rounds.Second.{collect-IsSecond}
use opprf_fpsi.Protocol.Rounds.Laws.{IsProgrammable, IsClean, In-padding_blocks, second-IsAsked}
use opprf_fpsi.Protocol.Interval.{interval_entries, interval_keys, ss_if_mat}
use opprf_fpsi.Protocol.Interval.Laws.{
  IsIn, IsInjective, hashed_strings, entries-IsCollected, length-interval_keys, asked_entry,
  in_entry, keys_of,
}

module _ {Block Word : Type 0} (hash : List Bool → ℕ → Block)
    (opprf : List (Block × Block) → Block → Block) (opprf2 : List (Block × Word) → Block → Word)
    (injective : IsInjective hash) (programmable : IsProgrammable opprf)
    (programmable2 : IsProgrammable opprf2) (delta metric threshold bins_num : ℕ)
    (power : delta ^ metric ≡ threshold) (few : metric < 2 ^ 64) (param : PrefixParam)
    (found : get_selected_param if_match_table (threshold + 1) ≡ ok param) (v_sums u_sums : ℕ → ℕ)
    (a_random : ℕ → Block) (t : ℕ → Word) (padding : ℕ → Block × Block)
    (low : (j : ℕ) → j < bins_num → v_sums j + threshold < 2 ^ 64)
    (word : (j : ℕ) → u_sums j < 2 ^ 64) (i : ℕ) (inside : i < bins_num) (es : List (Block × Block))
    (listed : collect (interval_entries hash threshold v_sums a_random) 0 bins_num ≡ ok es)
    (prefix_keys qs : List Block)
    (asked : collect (interval_keys hash threshold u_sums) 0 bins_num ≡ ok prefix_keys)
    (keyed : interval_keys hash threshold u_sums i ≡ ok qs) where
  thresholds :
      (fast_pow 32 delta metric ≡ threshold)
      × (fast_pow 64 delta metric ≡ threshold)
      × (u64 (threshold + 1) ≡ threshold + 1)
  thresholds =
      let usable = tables-IsUsable (threshold + 1) param (inr (inr found)) in
      let short : threshold < 2 ^ 31 = omega (arith, usable.short) in
      let narrow = fast_pow-power 32 delta metric (omega arith) (omega arith) few in
      let wide = fast_pow-power 64 delta metric (omega arith) (omega arith) few in
      (omega arith, omega arith, omega arith)

  IsAsked-IsIn : (IsAsked qs es ↔ IsIn threshold (v_sums i) (u_sums i)) × Carries qs es (a_random i)
  IsAsked-IsIn =
      let (es', listed', collected) =
        entries-IsCollected hash injective threshold bins_num param found v_sums u_sums a_random low
          word in
      let same_es = ok_injective es' es (sym listed' ∙ listed) in
      let (ps, ask, _) = length-if_match_queries threshold (u_sums i) param found in
      let made =
        keys_of hash injective threshold bins_num param found v_sums u_sums a_random low word i ps
          ask in
      let same_qs = ok_injective (hashed_strings hash i ps) qs (sym made ∙ keyed) in
      let entry =
        asked_entry hash injective threshold bins_num param found v_sums u_sums a_random low word i
          inside ps ask es' collected in
      let back =
        in_entry hash injective threshold bins_num param found v_sums u_sums a_random low word i
          inside ps ask es' collected in
      rw (← same_es, ← same_qs)
        ((λ (q, v, m, n). (entry q v m n).0, back), λ q v m n. (entry q v m n).1)

  -- If no two inputs have one hash value, the programmable PRFs give what is programmed, random
  -- values do not meet by accident, the table has a set for `delta ^ metric + 1`, and the sums and
  -- the ends of their intervals are words of 64 bits, then `ssIFMat` ends, and the receiver's word
  -- for the bin is the sender's just if the sender's sum is at least the receiver's and by no more
  -- than `delta ^ metric` above it.
  pub ss_if_mat-IsIn :
      IsClean opprf opprf2
        (interval_keys hash threshold u_sums)
        bins_num
        i
        qs
        es
        (padding_blocks padding es (param.room * bins_num))
        (second_programs
          (opprf (padding_blocks padding es (param.room * bins_num)))
          prefix_keys
          t
          (length param.widths)
          bins_num)
        (a_random i)
        (t i)
      → Returns
          (ss_if_mat hash opprf opprf2 delta metric v_sums u_sums a_random t padding bins_num)
          λ t_. (t_ i ≡ t i) ↔ IsIn threshold (v_sums i) (u_sums i)
  unfolding ss_if_mat
  ss_if_mat-IsIn clean =
      let programs = padding_blocks padding es (param.room * bins_num) in
      let second = second_programs (opprf programs) prefix_keys t (length param.widths) bins_num in
      let (narrow, wide, short) = thresholds in
      let (prefix_keys', asked', made) =
        collect-IsSecond (interval_keys hash threshold u_sums) (length param.widths)
          (length-interval_keys hash injective threshold bins_num param found v_sums u_sums a_random
            low word)
          (opprf programs) t bins_num in
      let same_keys = ok_injective prefix_keys' prefix_keys (sym asked' ∙ asked) in
      let step =
        second-IsAsked opprf opprf2 programmable programmable2 (interval_keys hash threshold u_sums)
          t bins_num i inside qs keyed es programs second (a_random i)
          (λ e m. In-padding_blocks padding es (param.room * bins_num) e m) IsAsked-IsIn.1 clean
          (rw (← same_keys) made) in
      (
        λ j. opprf2 second (a_random j),
        rw (narrow, wide, short, found, listed, asked) refl,
        (λ e. IsAsked-IsIn.0.0 (step.0 e), λ h. step.1 (IsAsked-IsIn.0.1 h)),
      )
