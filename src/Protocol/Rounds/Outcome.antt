-- ===== src/Protocol/Rounds/Outcome.antt =====
-- A thread of a dimension, from the points to the row of `rr_vals`, and the sums over the
-- dimensions.
use opprf_fpsi.Prelude.{
  ℕ, ◌+◌, ◌*◌, ◌^◌, ◌<◌, ◌≡◌, ◌↔◌, refl, sym, ap, ◌∙◌, Bool, List, inl, some, length, arith, u64,
  Result, ok, Returns, ok_injective,
}
use opprf_fpsi.Matching.Params.{PrefixParam, linf_table, get_selected_param, tables-IsUsable}
use opprf_fpsi.Protocol.Linf.{
  Receiver, Sender, Entry, num_hash_func, padding_blocks, get_list_sh, get_list, bin_keys,
  get_prefix_keys,
}
use opprf_fpsi.Protocol.Linf.Keys.{IsInjective, IsCentre, HasNear, Meet}
use opprf_fpsi.Protocol.Linf.Agree.{get_list_sh-bin_keys, get_list-bin_keys}
use opprf_fpsi.Protocol.Rounds.{second_programs, rr_row, dim_thread_sh, dim_thread}
use opprf_fpsi.Protocol.Rounds.Second.{second_programs-IsSecond}
use opprf_fpsi.Protocol.Rounds.Laws.{IsProgrammable, IsClean, In-padding_blocks, second-IsAsked}

module _ {Block : Type 0} (hash : List Bool → Block → ℕ → ℕ → Block)
    (opprf : List (Block × Block) → Block → Block) where
  -- `IsClean` for what the threads of a dimension compute.
  abbrev pub IsCleanRow :
      Receiver Block
      → Sender Block
      → ℕ
      → ℕ
      → (ℕ → ℕ)
      → (ℕ → ℕ → Block)
      → ℕ
      → ℕ
      → ℕ
      → ℕ
      → (ℕ → Block × Block)
      → List (Block × Block)
      → List Block
      → List Block
      → Type 0
  IsCleanRow r s dim delta other_pts drawn prefix_size bins_num i opprf_size padding es prefix_keys
        qs =
      let programs = padding_blocks padding es opprf_size in
      IsClean opprf opprf (bin_keys hash s delta other_pts drawn prefix_size) bins_num i qs es
        programs (second_programs (opprf programs) prefix_keys (s.r_vals dim) prefix_size bins_num)
        (r.a_random dim i) (s.r_vals dim i)

  module _ (programmable : IsProgrammable opprf) (r : Receiver Block) (s : Sender Block)
      (dim delta cells pts_num : ℕ) (pts other_pts : ℕ → ℕ) (drawn : ℕ → ℕ → Block) (bins_num i : ℕ)
      (inside : i < bins_num) (b : Entry) (param : PrefixParam)
      (found : get_selected_param linf_table (2 * delta + 1) ≡ ok param)
      (list : Result (List (Block × Block)))
      (meets : Returns list λ es.
        Returns
          (bin_keys hash s delta other_pts drawn (length param.widths) i)
          (Meet hash r s dim delta cells pts_num pts other_pts i b es))
      (es : List (Block × Block)) (listed : list ≡ ok es) (prefix_keys qs : List Block)
      (asked : get_prefix_keys hash s delta other_pts drawn (length param.widths) bins_num
        ≡ ok prefix_keys)
      (keyed : bin_keys hash s delta other_pts drawn (length param.widths) i ≡ ok qs)
      (padding : ℕ → Block × Block) (opprf_size : ℕ)
      (clean : IsCleanRow r s dim delta other_pts drawn
        (length param.widths)
        bins_num
        i
        opprf_size
        padding
        es
        prefix_keys
        qs) where
    rr_row-HasNear :
        (rr_row hash opprf es prefix_keys padding opprf_size
            (r.a_random dim)
            (s.r_vals dim)
            (length param.widths)
            bins_num
            i
          ≡ s.r_vals dim i)
        ↔ HasNear hash r delta cells pts_num pts (other_pts b.idx) (s.ids b.idx) b.hash_idx i
    unfolding rr_row
    rr_row-HasNear =
        let programs = padding_blocks padding es opprf_size in
        let (es', listed', (qs', keyed', meet)) = meets in
        let same_es = ok_injective es' es (sym listed' ∙ listed) in
        let same_qs = ok_injective qs' qs (sym keyed' ∙ keyed) in
        let met : Meet hash r s dim delta cells pts_num pts other_pts i b es qs =
          rw (← same_es, ← same_qs) meet in
        let (prefix_keys', asked', made') =
          second_programs-IsSecond hash delta param found s other_pts (opprf programs)
            (s.r_vals dim) drawn bins_num in
        let same_keys = ok_injective prefix_keys' prefix_keys (sym asked' ∙ asked) in
        let step =
          second-IsAsked opprf opprf programmable programmable
            (bin_keys hash s delta other_pts drawn (length param.widths)) (s.r_vals dim) bins_num i
            inside qs keyed es programs
            (second_programs (opprf programs) prefix_keys (s.r_vals dim) (length param.widths)
              bins_num)
            (r.a_random dim i) (λ e m. In-padding_blocks padding es opprf_size e m) met.1 clean
            (rw (← same_keys) made') in
        (λ e. met.0.0 (step.0 e), λ near. step.1 (met.0.1 near))

  short_eq :
      (delta : ℕ) (param : PrefixParam)
      → get_selected_param linf_table (2 * delta + 1) ≡ ok param
      → get_selected_param linf_table (u64 (2 * delta + 1)) ≡ ok param
  short_eq delta param found =
      let usable = tables-IsUsable (2 * delta + 1) param (inl found) in
      let short : u64 (2 * delta + 1) ≡ 2 * delta + 1 = omega (arith, usable.short) in
      ap (get_selected_param linf_table) short ∙ found

  module _ (injective : IsInjective hash) (programmable : IsProgrammable opprf) (r : Receiver Block)
      (s : Sender Block) (dim delta pts_num : ℕ) (pts other_pts : ℕ → ℕ → ℕ)
      (drawn : ℕ → ℕ → ℕ → Block) (padding : ℕ → ℕ → Block × Block) (bins_num i : ℕ)
      (inside : i < bins_num) (b : Entry) (full : s.bins i ≡ some b)
      (small : b.hash_idx < num_hash_func) (hy : other_pts dim b.idx < 2 ^ 64) (param : PrefixParam)
      (found : get_selected_param linf_table (2 * delta + 1) ≡ ok param)
      (centres : (i : ℕ) → i < pts_num → IsCentre delta (pts dim i)) (es : List (Block × Block))
      (prefix_keys qs : List Block)
      (asked : get_prefix_keys hash s delta
          (other_pts dim)
          (drawn dim)
          (length param.widths)
          bins_num
        ≡ ok prefix_keys)
      (keyed : bin_keys hash s delta (other_pts dim) (drawn dim) (length param.widths) i
        ≡ ok qs) where
    -- The sender's bin `i` holds a point, the table has a set for `2 * delta + 1`, the coordinates'
    -- intervals lie in the range of a word, hash values do not collide, the programmable PRF gives
    -- what is programmed, and random values do not meet by accident. Then the thread of the
    -- dimension ends, and the receiver's value for the bin is the sender's just if a point of the
    -- receiver that has the sender's identifier among its `blk_cells` ones, in this bin under the
    -- same hash function, lies at most `delta` away in the dimension.
    pub dim_thread_sh-HasNear :
        (blk_cells : ℕ)
        → get_list_sh hash r dim delta blk_cells pts_num (pts dim) ≡ ok es
        → IsCleanRow r s dim delta
            (other_pts dim)
            (drawn dim)
            (length param.widths)
            bins_num
            i
            (param.room * (pts_num * blk_cells) * num_hash_func)
            (padding dim)
            es
            prefix_keys
            qs
        → Returns
            (dim_thread_sh hash opprf r s delta blk_cells pts_num pts other_pts padding drawn
              bins_num dim)
            λ row.
              (row i ≡ s.r_vals dim i)
              ↔ HasNear hash r delta blk_cells pts_num
                  (pts dim)
                  (other_pts dim b.idx)
                  (s.ids b.idx)
                  b.hash_idx
                  i
    unfolding dim_thread_sh
    dim_thread_sh-HasNear blk_cells listed clean =
        let opprf_size = param.room * (pts_num * blk_cells) * num_hash_func in
        (
          rr_row hash opprf es prefix_keys (padding dim) opprf_size (r.a_random dim) (s.r_vals dim)
              (length param.widths) bins_num,
          rw (short_eq delta param found, listed, asked) refl,
          rr_row-HasNear programmable r s dim delta blk_cells pts_num (pts dim) (other_pts dim)
              (drawn dim) bins_num i inside b param found
              (get_list_sh hash r dim delta blk_cells pts_num (pts dim))
              (get_list_sh-bin_keys hash injective r s dim delta pts_num (pts dim) (other_pts dim)
                (drawn dim) (length param.widths) i b param found centres full small hy blk_cells)
              es listed prefix_keys qs asked keyed (padding dim) opprf_size clean,
        )

    -- For `mp_ssFMat_linf`, where each point has one identifier and the loops over the prefixes and
    -- the hash functions are swapped: under the conditions that the section names, the thread of the
    -- dimension ends, and the receiver's value for the bin is the sender's just if a point of the
    -- receiver with the sender's identifier, in this bin under the same hash function, lies at most
    -- `delta` away in the dimension.
    pub dim_thread-HasNear :
        get_list hash r dim delta pts_num (pts dim) ≡ ok es
        → IsCleanRow r s dim delta
            (other_pts dim)
            (drawn dim)
            (length param.widths)
            bins_num
            i
            (param.room * pts_num * num_hash_func)
            (padding dim)
            es
            prefix_keys
            qs
        → Returns
            (dim_thread hash opprf r s delta pts_num pts other_pts padding drawn bins_num dim)
            λ row.
              (row i ≡ s.r_vals dim i)
              ↔ HasNear hash r delta 1 pts_num
                  (pts dim)
                  (other_pts dim b.idx)
                  (s.ids b.idx)
                  b.hash_idx
                  i
    unfolding dim_thread
    dim_thread-HasNear listed clean =
        let opprf_size = param.room * pts_num * num_hash_func in
        (
          rr_row hash opprf es prefix_keys (padding dim) opprf_size (r.a_random dim) (s.r_vals dim)
              (length param.widths) bins_num,
          rw (short_eq delta param found, listed, asked) refl,
          rr_row-HasNear programmable r s dim delta 1 pts_num (pts dim) (other_pts dim) (drawn dim)
              bins_num i inside b param found (get_list hash r dim delta pts_num (pts dim))
              (get_list-bin_keys hash injective r s dim delta pts_num (pts dim) (other_pts dim)
                (drawn dim) (length param.widths) i b param found centres full small hy)
              es listed prefix_keys qs asked keyed (padding dim) opprf_size clean,
        )
