-- ===== src/Protocol/Lp/Agree.antt =====
-- The lists of `mp_ssFMat_lp_sh` and `mp_ssFMat_lp` against the sender's queries for one bin.
use mathlib.Core.Path.{subst}
use opprf_fpsi.Prelude.{
  ℕ, ◌+◌, ◌-◌, ◌*◌, ◌^◌, ◌≤◌, ◌<◌, ◌≡◌, ◌⊎◌, inl, inr, refl, sym, ◌∙◌, Bool, List, some, In, u32,
  ok, Returns, ok_injective, arith,
}
use opprf_fpsi.Matching.Params.{PrefixParam, lp_table, get_selected_param, tables-IsUsable}
use opprf_fpsi.Matching.Strings.{lp_queries, lp_strings-lp_queries}
use opprf_fpsi.Protocol.Linf.{Entry, num_hash_func}
use opprf_fpsi.Protocol.Linf.Keys.{IsCentre}
use opprf_fpsi.Protocol.Powers.{v_candidate, v_hat}
use opprf_fpsi.Protocol.Powers.Laws.{distance}
use opprf_fpsi.Protocol.Lp.{
  LpReceiver, LpSender, Programmed, Query, side_list_sh, side_list, get_list_lp_sh, get_list_lp,
  lp_bin_keys, lp_entry_keys,
}
use opprf_fpsi.Protocol.Lp.Lists.{side_list_sh-IsSideList, side_list-IsSideList, all_queries}
use opprf_fpsi.Protocol.Lp.Near.{IsSidedInjective, IsNear}
use opprf_fpsi.Protocol.Lp.Keys.{lp_list-IsCollected, programmed_share, near_programmed}

module _ {Block : Type 0} (hash : List Bool → Block → ℕ → ℕ → ℕ → Block) where
  lp_bin_keys-full :
      (s : LpSender Block) (delta : ℕ) (pts : ℕ → ℕ) (drawn : ℕ → ℕ → Query Block)
      (prefix_size i : ℕ) (b : Entry) (qs : List (List Bool) × List (List Bool))
      → s.bins i ≡ some b
      → lp_queries delta (pts b.idx) ≡ ok qs
      → lp_bin_keys hash s delta pts drawn prefix_size i
        ≡ ok (all_queries hash (s.ids b.idx) b.hash_idx i (pts b.idx) qs)
  unfolding lp_bin_keys lp_entry_keys all_queries
  lp_bin_keys-full s delta pts drawn prefix_size i b qs full ask = rw (full, ask) refl

  module _ (injective : IsSidedInjective hash) (r : LpReceiver Block) (s : LpSender Block)
      (metric delta pts_num : ℕ) (pts other_pts : ℕ → ℕ) (drawn : ℕ → ℕ → Query Block)
      (prefix_size bin : ℕ) (b : Entry) (plus param : PrefixParam)
      (found0 : get_selected_param lp_table (delta + 1) ≡ ok plus)
      (found1 : get_selected_param lp_table delta ≡ ok param) (pos : 1 ≤ delta)
      (centres : (i : ℕ) → i < pts_num → IsCentre delta (pts i)) (full : s.bins bin ≡ some b)
      (hy : other_pts b.idx < 2 ^ 64) where
    asked : Returns (lp_queries delta (other_pts b.idx)) λ qs. Unit {0}
    asked =
        let u = tables-IsUsable delta param (inr (inl found1)) in
        let (_, _, (qs, ask, _)) =
          lp_strings-lp_queries delta delta (other_pts b.idx) plus param found0 found1 pos
            (omega arith) (omega (arith, u.short)) hy in
        (qs, ask, tt)

    -- If no two inputs have one hash value, the table has sets for `delta` and `delta + 1`, the
    -- intervals around the receiver's points and the sender's coordinate lie in the range of a word,
    -- the bin holds a point of the sender, the VOLE is valid, and the mask is a word and at least
    -- `delta ^ metric`, for sums of absolute values and of squares: whenever a key that the sender
    -- asks for in the bin is one that the receiver of `mp_ssFMat_lp_sh` programs, the key comes from
    -- a point with that identifier in that bin at most `delta` away in the dimension, and the share
    -- that the receiver computes from its row is the mask less the power of the distance to it.
    pub get_list_lp_sh-share :
        (cells : ℕ) (es : List (Programmed Block)) (ks : List (Query Block)) (q : Block) (e : ℕ)
        (row : ℕ → ℕ) (b_delta mask : ℕ) (c_vole d_vole : ℕ → ℕ)
        → get_list_lp_sh hash r metric delta cells pts_num pts ≡ ok es
        → lp_bin_keys hash s delta other_pts drawn prefix_size bin ≡ ok ks
        → In (q, e) ks
        → In (q, row) es
        → (metric ≡ 1) ⊎ (metric ≡ 2)
        → r.a_metric bin < 2 ^ 32
        → mask < 2 ^ 32
        → d_vole 0 < 2 ^ 32
        → c_vole 0 ≡ u32 (r.a_vole bin 0 * b_delta + d_vole 0)
        → delta ^ metric ≤ mask
        → (i : ℕ) × (id_idx : ℕ) × IsNear hash r delta cells pts_num pts
            (other_pts b.idx)
            (s.ids b.idx)
            b.hash_idx
            bin
            i
            id_idx
          × (v_hat metric
                (v_candidate metric b_delta mask row d_vole e)
                (r.a_metric bin)
                (r.a_vole bin)
                c_vole
              ≡ mask - distance (pts i) (other_pts b.idx) ^ metric)
    unfolding get_list_lp_sh
    get_list_lp_sh-share cells es ks q e row b_delta mask c_vole d_vole run keys m n kind small_a
          small_mask small_d vole fits =
        let (qs, ask, _) = asked in
        let same =
          ok_injective ks (all_queries hash (s.ids b.idx) b.hash_idx bin (other_pts b.idx) qs)
            (sym keys ∙ lp_bin_keys-full s delta other_pts drawn prefix_size bin b qs full ask) in
        programmed_share hash injective r metric delta cells pts_num pts plus param found0 found1
          pos centres (side_list_sh hash r metric cells)
          (side_list_sh-IsSideList hash r metric cells) (other_pts b.idx) b.hash_idx bin
          (s.ids b.idx) hy qs ask es run b_delta mask c_vole d_vole kind small_a small_mask small_d
          vole fits q e row (subst (In (q, e)) same m) n

    -- The same for `mp_ssFMat_lp`, where each point has one identifier.
    pub get_list_lp-share :
        (es : List (Programmed Block)) (ks : List (Query Block)) (q : Block) (e : ℕ) (row : ℕ → ℕ)
        (b_delta mask : ℕ) (c_vole d_vole : ℕ → ℕ)
        → get_list_lp hash r metric delta pts_num pts ≡ ok es
        → lp_bin_keys hash s delta other_pts drawn prefix_size bin ≡ ok ks
        → In (q, e) ks
        → In (q, row) es
        → (metric ≡ 1) ⊎ (metric ≡ 2)
        → r.a_metric bin < 2 ^ 32
        → mask < 2 ^ 32
        → d_vole 0 < 2 ^ 32
        → c_vole 0 ≡ u32 (r.a_vole bin 0 * b_delta + d_vole 0)
        → delta ^ metric ≤ mask
        → (i : ℕ) × (id_idx : ℕ) × IsNear hash r delta 1 pts_num pts
            (other_pts b.idx)
            (s.ids b.idx)
            b.hash_idx
            bin
            i
            id_idx
          × (v_hat metric
                (v_candidate metric b_delta mask row d_vole e)
                (r.a_metric bin)
                (r.a_vole bin)
                c_vole
              ≡ mask - distance (pts i) (other_pts b.idx) ^ metric)
    unfolding get_list_lp
    get_list_lp-share es ks q e row b_delta mask c_vole d_vole run keys m n kind small_a small_mask
          small_d vole fits =
        let (qs, ask, _) = asked in
        let same =
          ok_injective ks (all_queries hash (s.ids b.idx) b.hash_idx bin (other_pts b.idx) qs)
            (sym keys ∙ lp_bin_keys-full s delta other_pts drawn prefix_size bin b qs full ask) in
        programmed_share hash injective r metric delta 1 pts_num pts plus param found0 found1 pos
          centres (side_list hash r metric) (side_list-IsSideList hash r metric) (other_pts b.idx)
          b.hash_idx bin (s.ids b.idx) hy qs ask es run b_delta mask c_vole d_vole kind small_a
          small_mask small_d vole fits q e row (subst (In (q, e)) same m) n

    -- Under the conditions on the hash, the table, the coordinates and the bin: if a point of the
    -- receiver with the sender's identifier, which the bin's hash function sends to the bin, lies at
    -- most `delta` away in the dimension, then both lists are computed and the receiver of
    -- `mp_ssFMat_lp_sh` programs one of the keys that the sender asks for in the bin.
    pub get_list_lp_sh-IsNear :
        (cells i id_idx : ℕ)
        → b.hash_idx < num_hash_func
        → IsNear hash r delta cells pts_num pts
            (other_pts b.idx)
            (s.ids b.idx)
            b.hash_idx
            bin
            i
            id_idx
        → Returns (get_list_lp_sh hash r metric delta cells pts_num pts) λ es.
          Returns
            (lp_bin_keys hash s delta other_pts drawn prefix_size bin)
            λ ks. (q : Block) × (e : ℕ) × (row : ℕ → ℕ) × In (q, e) ks × In (q, row) es
    unfolding get_list_lp_sh
    get_list_lp_sh-IsNear cells i id_idx small near =
        let (qs, ask, _) = asked in
        let (es, run, whole) =
          lp_list-IsCollected hash injective r metric delta cells pts_num pts plus param found0
            found1 pos centres (side_list_sh hash r metric cells)
            (side_list_sh-IsSideList hash r metric cells) (other_pts b.idx) b.hash_idx bin
            (s.ids b.idx) hy in
        (
          es,
          run,
          (
            all_queries hash (s.ids b.idx) b.hash_idx bin (other_pts b.idx) qs,
            lp_bin_keys-full s delta other_pts drawn prefix_size bin b qs full ask,
            near_programmed hash injective r metric delta cells pts_num pts plus param found0 found1
                pos centres (side_list_sh hash r metric cells)
                (side_list_sh-IsSideList hash r metric cells) (other_pts b.idx) b.hash_idx bin
                (s.ids b.idx) hy qs ask es run i id_idx small near,
          ),
        )
