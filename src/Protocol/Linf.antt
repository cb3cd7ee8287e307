-- ===== src/Protocol/Linf.antt =====
-- `mp_ssFMat_linf_sh` and `mp_ssFMat_linf` of `fpsi/fpsi_recv.cpp` and `fpsi_sender.cpp`, up to
-- the equality test. `hash` stands for blake3 over a string, an identifier, the number of a hash
-- function and a bin; `opprf` for the evaluation of a programmed PRF at a key.
pub mod Lists
pub mod Keys
pub mod Agree
use opprf_fpsi.Prelude.{
  ℕ, zero, suc, ◌+◌, ◌-◌, ◌*◌, ◌≤◌, ◌<◌, ◌≡◌, Bool, List, [], ◌∷◌, ◌++◌, map, Option, none, some,
  Result, ok, ◌>>=◌, leb, if◌then◌else◌, length, replicate, collect, flat_range, flat_map, zip,
  draw,
}
use opprf_fpsi.Matching.Params.{linf_table, get_selected_param}
use opprf_fpsi.Matching.Strings.{linf_strings, linf_queries}
use opprf_fpsi.Mapping.Field.{Field}

-- What the receiver knows before the threads start: the identifiers of its points, their places
-- in the simple table (`mLocations`), and `a_random`, by dimension and bin.
pub record Receiver (Block : Type 0) : Type 0 where
  pub ids : ℕ → Block
  pub locations : ℕ → ℕ → ℕ
  pub a_random : ℕ → ℕ → Block

-- A bin of the cuckoo table that is not empty.
pub record Entry : Type 0 where
  pub idx : ℕ
  pub hash_idx : ℕ

-- What the sender knows: the identifiers, the bins of its cuckoo table, and `r_vals`.
pub record Sender (Block : Type 0) : Type 0 where
  pub ids : ℕ → Block
  pub bins : ℕ → Option Entry
  pub r_vals : ℕ → ℕ → Block

abbrev pub num_hash_func : ℕ
num_hash_func = 3

-- `padding_blocks`: fresh random elements up to the given number.
unfoldable pub padding_blocks {ℓ} : {A : Type ℓ} → (ℕ → A) → List A → ℕ → List A
padding_blocks drawn vals count = vals ++ draw drawn 0 (count - length vals)

module _ {Block : Type 0} (hash : List Bool → Block → ℕ → ℕ → Block) where
  -- The key and the value that are pushed for one prefix.
  unfoldable pub prefix_entry : Receiver Block → ℕ → ℕ → ℕ → List Bool → Block × Block
  prefix_entry r dim id_idx k prefix =
      let bin_idx = r.locations id_idx k in
      (hash prefix (r.ids id_idx) k bin_idx, r.a_random dim bin_idx)

  -- The entries of the point `i`: by cell, then by hash function, then by prefix.
  unfoldable pub point_list_sh :
      Receiver Block → ℕ → ℕ → ℕ → List (List Bool) → List (Block × Block)
  point_list_sh r dim blk_cells i prefixs =
      flat_range
        (λ idx.
          flat_range (λ k. map (prefix_entry r dim (i * blk_cells + idx) k) prefixs) 0
            num_hash_func)
        0 blk_cells

  -- Step 1 of the receiver's thread, before the padding.
  unfoldable pub get_list_sh :
      Receiver Block → ℕ → ℕ → ℕ → ℕ → (ℕ → ℕ) → Result (List (Block × Block))
  get_list_sh r dim delta blk_cells pts_num pts =
      collect
        (λ i.
          linf_strings delta (pts i) >>= λ prefixs. ok (point_list_sh r dim blk_cells i prefixs))
        0 pts_num

  -- The entries of the point `i` in `mp_ssFMat_linf`: by prefix, then by hash function.
  unfoldable pub point_list : Receiver Block → ℕ → ℕ → List (List Bool) → List (Block × Block)
  point_list r dim i prefixs =
      flat_map (λ prefix. flat_range (λ k. prefix_entry r dim i k prefix ∷ []) 0 num_hash_func)
        prefixs

  unfoldable pub get_list : Receiver Block → ℕ → ℕ → ℕ → (ℕ → ℕ) → Result (List (Block × Block))
  get_list r dim delta pts_num pts =
      collect (λ i. linf_strings delta (pts i) >>= λ prefixs. ok (point_list r dim i prefixs)) 0
        pts_num

  -- The keys that the sender asks for in one bin; `drawn` are the random ones of an empty bin.
  unfoldable pub entry_keys :
      Sender Block → ℕ → (ℕ → ℕ) → (ℕ → Block) → ℕ → ℕ → Option Entry → Result (List Block)
  entry_keys s delta pts drawn prefix_size i none = ok (draw drawn 0 prefix_size)
  entry_keys s delta pts drawn prefix_size i (some b) =
      linf_queries delta (pts b.idx) >>= λ prefixs.
      ok (map (λ prefix. hash prefix (s.ids b.idx) b.hash_idx i) prefixs)

  unfoldable pub bin_keys :
      Sender Block → ℕ → (ℕ → ℕ) → (ℕ → ℕ → Block) → ℕ → ℕ → Result (List Block)
  bin_keys s delta pts drawn prefix_size i =
      entry_keys s delta pts (drawn i) prefix_size i (s.bins i)

  -- Step 2 of the sender's thread.
  unfoldable pub get_prefix_keys :
      Sender Block → ℕ → (ℕ → ℕ) → (ℕ → ℕ → Block) → ℕ → ℕ → Result (List Block)
  get_prefix_keys s delta pts drawn prefix_size bins_num =
      collect (bin_keys s delta pts drawn prefix_size) 0 bins_num

-- `r_vals_`: the value of each bin, once for each of its keys.
unfoldable pub spread_r_vals : {Value : Type 0} → (ℕ → Value) → ℕ → ℕ → List Value
spread_r_vals r_vals prefix_size bins_num =
    flat_range (λ i. replicate prefix_size (r_vals i)) 0 bins_num
