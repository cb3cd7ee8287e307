-- ===== src/Protocol/Rounds.antt =====
-- Steps 3 and 4 of the threads of `mp_ssFMat_linf_sh` and `mp_ssFMat_linf`, for both parties, and
-- step 5 up to the equality test. `opprf` is what a programmed PRF evaluates to: the receiver of
-- the PRF learns it for its keys.
pub mod Second
pub mod Laws
pub mod Outcome
pub mod Sums
use opprf_fpsi.Prelude.{
  ℕ, ◌*◌, ◌+◌, Bool, List, [], ◌∷◌, map, Result, ok, ◌>>=◌, length, u64, collect, flat_range, zip,
}
use opprf_fpsi.Matching.Params.{PrefixParam, linf_table, get_selected_param}
use opprf_fpsi.Mapping.Field.{Field}
use opprf_fpsi.Mapping.Exchange.{sum_from}
use opprf_fpsi.Protocol.Linf.{
  Receiver, Sender, num_hash_func, padding_blocks, get_list_sh, get_list, get_prefix_keys,
  spread_r_vals,
}

module _ {Block : Type 0} (F : Field Block) where
  open F use {zero_block}

  -- `rr_vals_sums[i]`: the sum of a column.
  unfoldable pub rr_vals_sums : List (ℕ → Block) → ℕ → Block
  rr_vals_sums rows i = sum_from F zero_block (map (λ row. row i) rows)

  -- `r_vals_sums[i]` of the sender.
  unfoldable pub r_vals_sums : (ℕ → ℕ → Block) → ℕ → ℕ → Block
  r_vals_sums r_vals dims i = sum_from F zero_block (flat_range (λ j. r_vals j i ∷ []) 0 dims)

  -- The inputs of the equality test, of the receiver and of the sender, by bin, from the threads
  -- of all dimensions.
  unfoldable pub peqt_inputs :
      (ℕ → Result (ℕ → Block)) → (ℕ → ℕ → Block) → ℕ → Result ((ℕ → Block) × (ℕ → Block))
  peqt_inputs thread r_vals dims = do
    rows ← collect (λ j. thread j >>= λ row. ok (row ∷ [])) 0 dims
    ok (rr_vals_sums rows, r_vals_sums r_vals dims)

-- Step 4 of the sender: it programs its values at what `evaluate` gave it in step 3.
unfoldable pub second_programs :
    {Block Value : Type 0}
    → (Block → Block)
    → List Block
    → (ℕ → Value)
    → ℕ
    → ℕ
    → List (Block × Value)
second_programs evaluate prefix_keys r_vals prefix_size bins_num =
    zip (map evaluate prefix_keys) (spread_r_vals r_vals prefix_size bins_num)

module _ {Block : Type 0} (hash : List Bool → Block → ℕ → ℕ → Block)
    (opprf : List (Block × Block) → Block → Block) where
  -- The row of `rr_vals` that the threads of a dimension end with, by bin, from the receiver's list
  -- and the sender's keys. `padding` are the random elements that fill up the list.
  unfoldable pub rr_row :
      List (Block × Block)
      → List Block
      → (ℕ → Block × Block)
      → ℕ
      → (ℕ → Block)
      → (ℕ → Block)
      → ℕ
      → ℕ
      → ℕ
      → Block
  rr_row es prefix_keys padding opprf_size a_random r_vals prefix_size bins_num i =
      let programs = padding_blocks padding es opprf_size in
      opprf (second_programs (opprf programs) prefix_keys r_vals prefix_size bins_num) (a_random i)

  -- `dim_thread` of `mp_ssFMat_linf_sh`; `pts` are the receiver's points, by dimension, and
  -- `other_pts` the sender's.
  unfoldable pub dim_thread_sh :
      Receiver Block
      → Sender Block
      → ℕ
      → ℕ
      → ℕ
      → (ℕ → ℕ → ℕ)
      → (ℕ → ℕ → ℕ)
      → (ℕ → ℕ → Block × Block)
      → (ℕ → ℕ → ℕ → Block)
      → ℕ
      → ℕ
      → Result (ℕ → Block)
  dim_thread_sh r s delta blk_cells pts_num pts other_pts padding drawn bins_num dim = do
    param ← get_selected_param linf_table (u64 (2 * delta + 1))
    es ← get_list_sh hash r dim delta blk_cells pts_num (pts dim)
    prefix_keys ←
        get_prefix_keys hash s delta (other_pts dim) (drawn dim) (length param.widths) bins_num
    let opprf_size = param.room * (pts_num * blk_cells) * num_hash_func
    ok (
        rr_row es prefix_keys (padding dim) opprf_size (r.a_random dim) (s.r_vals dim)
          (length param.widths) bins_num)

  -- `dim_thread` of `mp_ssFMat_linf`.
  unfoldable pub dim_thread :
      Receiver Block
      → Sender Block
      → ℕ
      → ℕ
      → (ℕ → ℕ → ℕ)
      → (ℕ → ℕ → ℕ)
      → (ℕ → ℕ → Block × Block)
      → (ℕ → ℕ → ℕ → Block)
      → ℕ
      → ℕ
      → Result (ℕ → Block)
  dim_thread r s delta pts_num pts other_pts padding drawn bins_num dim = do
    param ← get_selected_param linf_table (u64 (2 * delta + 1))
    es ← get_list hash r dim delta pts_num (pts dim)
    prefix_keys ←
        get_prefix_keys hash s delta (other_pts dim) (drawn dim) (length param.widths) bins_num
    let opprf_size = param.room * pts_num * num_hash_func
    ok (
        rr_row es prefix_keys (padding dim) opprf_size (r.a_random dim) (s.r_vals dim)
          (length param.widths) bins_num)

  module _ (F : Field Block) where
    unfoldable pub mp_ssfmat_linf_sh :
        Receiver Block
        → Sender Block
        → ℕ
        → ℕ
        → ℕ
        → ℕ
        → (ℕ → ℕ → ℕ)
        → (ℕ → ℕ → ℕ)
        → (ℕ → ℕ → Block × Block)
        → (ℕ → ℕ → ℕ → Block)
        → ℕ
        → Result ((ℕ → Block) × (ℕ → Block))
    mp_ssfmat_linf_sh r s dims delta blk_cells pts_num pts other_pts padding drawn bins_num =
        peqt_inputs F
          (dim_thread_sh r s delta blk_cells pts_num pts other_pts padding drawn bins_num) s.r_vals
          dims

    unfoldable pub mp_ssfmat_linf :
        Receiver Block
        → Sender Block
        → ℕ
        → ℕ
        → ℕ
        → (ℕ → ℕ → ℕ)
        → (ℕ → ℕ → ℕ)
        → (ℕ → ℕ → Block × Block)
        → (ℕ → ℕ → ℕ → Block)
        → ℕ
        → Result ((ℕ → Block) × (ℕ → Block))
    mp_ssfmat_linf r s dims delta pts_num pts other_pts padding drawn bins_num =
        peqt_inputs F (dim_thread r s delta pts_num pts other_pts padding drawn bins_num) s.r_vals
          dims
