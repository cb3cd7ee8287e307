-- ===== src/Protocol/Interval.antt =====
-- `ssIFMat_recv` of `fpsi/fpsi_recv.cpp` and `ssIFMat_send` of `fpsi_sender.cpp`, up to the equality
-- test: whether the sender's sum lies in the interval from the receiver's sum on. `hash` stands for
-- blake3 over a string and a bin.
pub mod Laws
pub mod Outcome
use opprf_fpsi.Prelude.{ℕ, ◌+◌, ◌*◌, Bool, List, map, Result, ok, ◌>>=◌, length, u64, collect}
use opprf_fpsi.Grid.Powers.{fast_pow}
use opprf_fpsi.Matching.Params.{if_match_table, get_selected_param}
use opprf_fpsi.Matching.Strings.{if_match_strings, if_match_queries}
use opprf_fpsi.Protocol.Linf.{padding_blocks}
use opprf_fpsi.Protocol.Rounds.{second_programs}

module _ {Block : Type 0} (hash : List Bool → ℕ → Block) where
  -- The receiver's keys and values for the bin `i`.
  unfoldable pub interval_entries : ℕ → (ℕ → ℕ) → (ℕ → Block) → ℕ → Result (List (Block × Block))
  interval_entries threshold v_sums a_random i =
      if_match_strings threshold (v_sums i) >>= λ prefixs.
      ok (map (λ prefix. (hash prefix i, a_random i)) prefixs)

  -- The sender's keys for the bin `i`.
  unfoldable pub interval_keys : ℕ → (ℕ → ℕ) → ℕ → Result (List Block)
  interval_keys threshold u_sums i = if_match_queries threshold (u_sums i) >>= λ prefixs.
      ok (map (λ prefix. hash prefix i) prefixs)

  -- `t_` of the receiver, by bin: steps 1 to 3 of both parties. The receiver computes the threshold
  -- in 32 bits, the sender in 64.
  unfoldable pub ss_if_mat :
      {Word : Type 0}
      → (List (Block × Block) → Block → Block)
      → (List (Block × Word) → Block → Word)
      → ℕ
      → ℕ
      → (ℕ → ℕ)
      → (ℕ → ℕ)
      → (ℕ → Block)
      → (ℕ → Word)
      → (ℕ → Block × Block)
      → ℕ
      → Result (ℕ → Word)
  ss_if_mat opprf opprf2 delta metric v_sums u_sums a_random t padding bins_num = do
    recv_param ← get_selected_param if_match_table (u64 (fast_pow 32 delta metric + 1))
    es ← collect (interval_entries (fast_pow 32 delta metric) v_sums a_random) 0 bins_num
    param ← get_selected_param if_match_table (u64 (fast_pow 64 delta metric + 1))
    prefix_keys ← collect (interval_keys (fast_pow 64 delta metric) u_sums) 0 bins_num
    let programs = padding_blocks padding es (recv_param.room * bins_num)
    let second = second_programs (opprf programs) prefix_keys t (length param.widths) bins_num
    ok (λ i. opprf2 second (a_random i))
