-- ===== src/Protocol/Linf/Agree.antt =====
-- The keys of both variants of `mp_ssFMat_linf`: when a key of the sender is programmed.
use opprf_fpsi.Prelude.{ℕ, ◌+◌, ◌*◌, ◌^◌, ◌<◌, ◌≡◌, Bool, List, some, Returns, ok}
use opprf_fpsi.Matching.Params.{PrefixParam, linf_table, get_selected_param}
use opprf_fpsi.Protocol.Linf.{
  Receiver, Sender, Entry, num_hash_func, point_list_sh, point_list, get_list_sh, get_list,
  bin_keys,
}
use opprf_fpsi.Protocol.Linf.Lists.{point_list_sh-IsPointList, point_list-IsPointList}
use opprf_fpsi.Protocol.Linf.Keys.{IsInjective, IsCentre, Meet, list-bin_keys}

module _ {Block : Type 0} (hash : List Bool → Block → ℕ → ℕ → Block) where
  module _ (injective : IsInjective hash) (r : Receiver Block) (s : Sender Block)
      (dim delta pts_num : ℕ) (pts other_pts : ℕ → ℕ) (drawn : ℕ → ℕ → Block) (prefix_size i : ℕ)
      (b : Entry) (param : PrefixParam)
      (found : get_selected_param linf_table (2 * delta + 1) ≡ ok param)
      (centres : (i : ℕ) → i < pts_num → IsCentre delta (pts i)) (full : s.bins i ≡ some b)
      (small : b.hash_idx < num_hash_func) (hy : other_pts b.idx < 2 ^ 64) where
    -- If no two inputs have one hash value, the table has a set for `2 * delta + 1`, the intervals
    -- around the receiver's points and the sender's coordinate lie in the range of a word, and the
    -- sender's bin `i` holds a point under one of the hash functions, then the receiver's list and
    -- the sender's keys for the bin are computed; one of the keys is programmed just if a point of
    -- the receiver, `cells` of whose identifiers include the sender's, and whose identifier that
    -- hash function sends to this bin, lies at most `delta` away in the dimension; and whatever is
    -- programmed for one of the keys is the receiver's random value for the bin.
    pub get_list_sh-bin_keys :
        (cells : ℕ)
        → Returns (get_list_sh hash r dim delta cells pts_num pts) λ es.
          Returns
            (bin_keys hash s delta other_pts drawn prefix_size i)
            (Meet hash r s dim delta cells pts_num pts other_pts i b es)
    unfolding get_list_sh
    get_list_sh-bin_keys cells =
        list-bin_keys hash injective r s dim delta cells pts_num pts other_pts drawn prefix_size i b
          param found centres full small hy (point_list_sh hash r dim cells)
          (point_list_sh-IsPointList hash r dim cells)

    -- The same for `mp_ssFMat_linf`, where each point has one identifier and the loops over the
    -- prefixes and the hash functions are swapped.
    pub get_list-bin_keys : Returns (get_list hash r dim delta pts_num pts) λ es.
        Returns
          (bin_keys hash s delta other_pts drawn prefix_size i)
          (Meet hash r s dim delta 1 pts_num pts other_pts i b es)
    unfolding get_list
    get_list-bin_keys =
        list-bin_keys hash injective r s dim delta 1 pts_num pts other_pts drawn prefix_size i b
          param found centres full small hy (point_list hash r dim)
          (point_list-IsPointList hash r dim)
