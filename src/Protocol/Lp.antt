-- ===== src/Protocol/Lp.antt =====
-- The lists of keys of `mp_ssFMat_lp_sh` and `mp_ssFMat_lp` of `fpsi/fpsi_recv.cpp` and
-- `fpsi_sender.cpp`, for one dimension. `hash` stands for blake3 over a string, an identifier, the
-- number of a hash function, a bin and the side `σ`, 0 at or below the coordinate and 1 above it.
pub mod Lists
pub mod Near
pub mod Keys
pub mod Agree
use opprf_fpsi.Prelude.{
  ℕ, zero, suc, ◌+◌, ◌*◌, Bool, List, [], ◌∷◌, ◌++◌, map, Option, none, some, Result, ok, ◌>>=◌,
  collect, flat_range, flat_map, draw,
}
use opprf_fpsi.Prefix.Strings.{up_bound, low_bound}
use opprf_fpsi.Matching.Strings.{lp_strings, lp_queries}
use opprf_fpsi.Protocol.Linf.{Entry, num_hash_func}
use opprf_fpsi.Protocol.Powers.{diff_below, diff_above, e_below, e_above, prefix_val}

-- What the receiver knows of the dimension: the identifiers, their places in the simple table, the
-- two rows of `a_random` and `a_vole`, by bin.
pub record LpReceiver (Block : Type 0) : Type 0 where
  pub ids : ℕ → Block
  pub locations : ℕ → ℕ → ℕ
  pub a_zero : ℕ → ℕ
  pub a_metric : ℕ → ℕ
  pub a_vole : ℕ → ℕ → ℕ

pub record LpSender (Block : Type 0) : Type 0 where
  pub ids : ℕ → Block
  pub bins : ℕ → Option Entry

-- A key and the row of `prefix_vals` for it; a key that is asked for and its `e`.
abbrev pub Programmed : Type 0 → Type 0
Programmed Block = Block × (ℕ → ℕ)

abbrev pub Query : Type 0 → Type 0
Query Block = Block × ℕ

module _ {Block : Type 0} (hash : List Bool → Block → ℕ → ℕ → ℕ → Block) where
  unfoldable pub lp_entry : LpReceiver Block → ℕ → ℕ → ℕ → ℕ → ℕ → List Bool → Programmed Block
  lp_entry r metric sigma diff id_idx k prefix =
      let bin_idx = r.locations id_idx k in
      (
        hash prefix (r.ids id_idx) k bin_idx sigma,
        prefix_val metric (r.a_zero bin_idx) (r.a_metric bin_idx) (r.a_vole bin_idx) diff,
      )

  -- The loop over the strings of one side: by string, then by cell, then by hash function.
  unfoldable pub side_list_sh :
      LpReceiver Block
      → ℕ
      → ℕ
      → ℕ
      → (List Bool → ℕ)
      → ℕ
      → List (List Bool)
      → List (Programmed Block)
  side_list_sh r metric blk_cells sigma diff i prefixs =
      flat_map
        (λ prefix.
          flat_range
            (λ idx.
              flat_range
                (λ k. lp_entry r metric sigma (diff prefix) (i * blk_cells + idx) k prefix ∷ []) 0
                num_hash_func)
            0 blk_cells)
        prefixs

  -- The same in `mp_ssFMat_lp`: by string, then by hash function.
  unfoldable pub side_list :
      LpReceiver Block → ℕ → ℕ → (List Bool → ℕ) → ℕ → List (List Bool) → List (Programmed Block)
  side_list r metric sigma diff i prefixs =
      flat_map
        (λ prefix.
          flat_range (λ k. lp_entry r metric sigma (diff prefix) i k prefix ∷ []) 0 num_hash_func)
        prefixs

  -- Both loops for one point, and the loop over the points.
  unfoldable pub both_sides :
      (ℕ → (List Bool → ℕ) → ℕ → List (List Bool) → List (Programmed Block))
      → ℕ
      → ℕ
      → List (List Bool) × List (List Bool)
      → List (Programmed Block)
  both_sides side i pt_dim x =
      side 0 (λ prefix. diff_below pt_dim (up_bound prefix)) i x.0
      ++ side 1 (λ prefix. diff_above pt_dim (low_bound prefix)) i x.1

  unfoldable pub get_list_lp_sh :
      LpReceiver Block → ℕ → ℕ → ℕ → ℕ → (ℕ → ℕ) → Result (List (Programmed Block))
  get_list_lp_sh r metric delta blk_cells pts_num pts =
      collect
        (λ i. lp_strings delta (pts i) >>= λ x.
          ok (both_sides (side_list_sh r metric blk_cells) i (pts i) x))
        0 pts_num

  unfoldable pub get_list_lp :
      LpReceiver Block → ℕ → ℕ → ℕ → (ℕ → ℕ) → Result (List (Programmed Block))
  get_list_lp r metric delta pts_num pts =
      collect
        (λ i. lp_strings delta (pts i) >>= λ x. ok (both_sides (side_list r metric) i (pts i) x)) 0
        pts_num

  -- The sender's key for one string of a side, with its `e`.
  unfoldable pub side_query : Block → ℕ → ℕ → ℕ → (List Bool → ℕ) → List Bool → Query Block
  side_query id hash_idx i sigma e prefix = (hash prefix id hash_idx i sigma, e prefix)

  -- The queries of one bin; `drawn` are the random ones of an empty bin.
  unfoldable pub lp_entry_keys :
      LpSender Block
      → ℕ
      → (ℕ → ℕ)
      → (ℕ → Query Block)
      → ℕ
      → ℕ
      → Option Entry
      → Result (List (Query Block))
  lp_entry_keys s delta pts drawn prefix_size i none = ok (draw drawn 0 prefix_size)
  lp_entry_keys s delta pts drawn prefix_size i (some b) = lp_queries delta (pts b.idx) >>= λ y.
      ok (
        map
          (side_query (s.ids b.idx) b.hash_idx i 0
            (λ prefix. e_below (up_bound prefix) (pts b.idx)))
          y.0
        ++ map
            (side_query (s.ids b.idx) b.hash_idx i 1
              (λ prefix. e_above (low_bound prefix) (pts b.idx)))
            y.1)

  unfoldable pub lp_bin_keys :
      LpSender Block → ℕ → (ℕ → ℕ) → (ℕ → ℕ → Query Block) → ℕ → ℕ → Result (List (Query Block))
  lp_bin_keys s delta pts drawn prefix_size i =
      lp_entry_keys s delta pts (drawn i) prefix_size i (s.bins i)

  -- Step 2 of the sender's thread.
  unfoldable pub get_lp_keys :
      LpSender Block → ℕ → (ℕ → ℕ) → (ℕ → ℕ → Query Block) → ℕ → ℕ → Result (List (Query Block))
  get_lp_keys s delta pts drawn prefix_size bins_num =
      collect (lp_bin_keys s delta pts drawn prefix_size) 0 bins_num
