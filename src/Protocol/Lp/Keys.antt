-- ===== src/Protocol/Lp/Keys.antt =====
-- The sender's queries against the receiver's programmed rows, for the sums of powers.
use native.Mathlib.Nat.{pow-le-pow_left, le_trans}
use opprf_fpsi.Prelude.{
  ℕ, ◌+◌, ◌-◌, ◌*◌, ◌^◌, ◌≤◌, ◌<◌, ◌≡◌, ◌⊎◌, inl, inr, refl, sym, ap, ap₂, ◌∙◌, Bool, true, false,
  ◌&&◌, List, sub64, Bool-cases, arith, In, collect, IsCollected, collect-IsCollected, leb, ltb,
  to_nat, u32, Result, ok, ◌>>=◌, Returns, ok_injective,
}
use opprf_fpsi.Prefix.Match.{common}
use opprf_fpsi.Prefix.Shared.{In-common, common-In}
use opprf_fpsi.Grid.Cells.{diff}
use opprf_fpsi.Matching.Params.{PrefixParam, lp_table, get_selected_param}
use opprf_fpsi.Matching.Strings.{lp_strings, lp_queries, lp_strings-lp_queries}
use opprf_fpsi.Protocol.Linf.{num_hash_func}
use opprf_fpsi.Protocol.Linf.Keys.{IsCentre}
use opprf_fpsi.Protocol.Powers.{prefix_val, v_candidate, v_hat}
use opprf_fpsi.Protocol.Powers.Laws.{distance}
use opprf_fpsi.Protocol.Powers.Prefixes.{IsShared, v_hat-lp_strings}
use opprf_fpsi.Protocol.Lp.{LpReceiver, Programmed, Query, lp_entry, both_sides}
use opprf_fpsi.Protocol.Lp.Lists.{
  OfSide, AskedFor, IsSideList, both_sides-In, In-both_sides, all_queries, queries-In, In-queries,
}
use opprf_fpsi.Protocol.Lp.Near.{IsSidedInjective, IsNear, entry_row, entry_key}

ltb-lt : (a b : ℕ) → ltb a b ≡ true → a < b
ltb-lt a b e = ground arith

not_ltb : (a b : ℕ) → ltb a b ≡ false → b ≤ a
not_ltb a b e = ground arith

module _ {Block : Type 0} (hash : List Bool → Block → ℕ → ℕ → ℕ → Block) where
  -- The loop of both lists.
  abbrev pub lp_list_of :
      (ℕ → (List Bool → ℕ) → ℕ → List (List Bool) → List (Programmed Block))
      → ℕ
      → (ℕ → ℕ)
      → ℕ
      → Result (List (Programmed Block))
  lp_list_of side delta pts i =
      lp_strings delta (pts i) >>= λ x. ok (both_sides hash side i (pts i) x)

  module _ (injective : IsSidedInjective hash) (r : LpReceiver Block)
      (metric delta cells pts_num : ℕ) (pts : ℕ → ℕ) (plus param : PrefixParam)
      (found0 : get_selected_param lp_table (delta + 1) ≡ ok plus)
      (found1 : get_selected_param lp_table delta ≡ ok param) (pos : 1 ≤ delta)
      (centres : (i : ℕ) → i < pts_num → IsCentre delta (pts i))
      (side : ℕ → (List Bool → ℕ) → ℕ → List (List Bool) → List (Programmed Block))
      (side-IsSideList : IsSideList hash r metric cells side) (y k bin : ℕ) (id : Block)
      (hy : y < 2 ^ 64) where
    sides_of :
        (i : ℕ)
        → i < pts_num
        → Returns (lp_strings delta (pts i)) λ ps. Returns (lp_queries delta y) λ qs.
          (common qs.0 ps.0 ≡ to_nat (leb y (pts i) && leb (diff (pts i) y) delta))
          × (common qs.1 ps.1 ≡ to_nat (ltb (pts i) y && leb (diff (pts i) y) delta))
    sides_of i h =
        lp_strings-lp_queries delta (pts i) y plus param found0 found1 pos (centres i h).0
          (centres i h).1 hy

    pub lp_list-IsCollected :
        Returns
          (collect (lp_list_of side delta pts) 0 pts_num)
          (IsCollected (lp_list_of side delta pts) 0 pts_num)
    lp_list-IsCollected = collect-IsCollected (lp_list_of side delta pts) 0 pts_num λ i lo hi.
        let (ps, run, _) = sides_of i (omega arith) in
        (both_sides hash side i (pts i) ps, rw run refl, tt)

    module _ (qs : List (List Bool) × List (List Bool)) (ask : lp_queries delta y ≡ ok qs)
        (es : List (Programmed Block))
        (run : collect (lp_list_of side delta pts) 0 pts_num ≡ ok es) where
      listed : IsCollected (lp_list_of side delta pts) 0 pts_num es
      listed =
          let (es', run', whole) = lp_list-IsCollected in
          rw (ok_injective es es' (sym run ∙ run')) whole

      module _ (i : ℕ) (h : i < pts_num) (ps : List (List Bool) × List (List Bool))
          (strings : lp_strings delta (pts i) ≡ ok ps) where
        counted :
            (common qs.0 ps.0 ≡ to_nat (leb y (pts i) && leb (diff (pts i) y) delta))
            × (common qs.1 ps.1 ≡ to_nat (ltb (pts i) y && leb (diff (pts i) y) delta))
        counted =
            let (ps', strings', (qs', ask', counts)) = sides_of i h in
            rw (ok_injective ps ps' (sym strings ∙ strings'), ok_injective qs qs' (sym ask ∙ ask'))
              counts

        abbrev Both : List Bool → ℕ → ℕ → Type 0
        Both p d e =
            IsShared delta (pts i) y plus param found0 found1 pos (centres i h).0 (centres i h).1 hy
              ps qs strings ask p d e

        -- A string that both sides have is one of near coordinates.
        shared_near :
            (sigma : ℕ) (p : List Bool) (d e : ℕ)
            → OfSide ps (pts i) sigma p d
            → AskedFor qs y sigma p e
            → (diff (pts i) y ≤ delta) × Both p d e
        shared_near sigma p d e (inl (n, s, mine)) (inl (m, t, theirs)) =
            (ground (arith, counted.0, In-common p qs.0 ps.0 m n), inl (m, n, mine, theirs))
        shared_near sigma p d e (inr (n, s, mine)) (inr (m, t, theirs)) =
            (ground (arith, counted.1, In-common p qs.1 ps.1 m n), inr (m, n, mine, theirs))
        shared_near sigma p d e (inl (n, s, mine)) (inr (m, t, theirs)) =
            absurd (omega (arith, s, t))
        shared_near sigma p d e (inr (n, s, mine)) (inl (m, t, theirs)) =
            absurd (omega (arith, s, t))

        -- Near coordinates have a string on one of the sides.
        near_shared :
            diff (pts i) y ≤ delta
            → (sigma : ℕ) × (p : List Bool) × (d : ℕ) × (e : ℕ) × OfSide ps (pts i) sigma p d
              × AskedFor qs y sigma p e
        near_shared near = elim (Bool-cases (leb y (pts i))) [
          | inl below ↦
              let (p, m, n) = common-In qs.0 ps.0 (ground (arith, counted.0, near, below)) in
              (0, p, _, _, inl (n, refl, refl), inl (m, refl, refl))
          | inr above ↦
              let (p, m, n) = common-In qs.1 ps.1 (ground (arith, counted.1, near, above)) in
              (1, p, _, _, inr (n, refl, refl), inr (m, refl, refl))
        ]

        near_distance : diff (pts i) y ≤ delta → distance (pts i) y ≤ delta
        near_distance near =
            let wide = (centres i h).1 in
            elim (Bool-cases (ltb y (pts i))) [
              | inl e ↦
                  let d : diff (pts i) y ≡ sub64 (pts i) y = rw e refl in
                  omega (arith, d, near, wide, hy, ltb-lt y (pts i) e)
              | inr e ↦
                  let d : diff (pts i) y ≡ sub64 y (pts i) = rw e refl in
                  omega (arith, d, near, wide, hy, not_ltb y (pts i) e)
            ]

      module _ (b_delta mask : ℕ) (c_vole d_vole : ℕ → ℕ) (kind : (metric ≡ 1) ⊎ (metric ≡ 2))
          (small_a : r.a_metric bin < 2 ^ 32) (small_mask : mask < 2 ^ 32)
          (small_d : d_vole 0 < 2 ^ 32)
          (vole : c_vole 0 ≡ u32 (r.a_vole bin 0 * b_delta + d_vole 0))
          (fits : delta ^ metric ≤ mask) where
        -- The receiver's share for the bin, when the PRF gives the row at the query.
        abbrev pub share : (ℕ → ℕ) → ℕ → ℕ
        share row e =
            v_hat metric (v_candidate metric b_delta mask row d_vole e) (r.a_metric bin)
              (r.a_vole bin) c_vole

        pub programmed_share :
            (q : Block) (e : ℕ) (row : ℕ → ℕ)
            → In (q, e) (all_queries hash id k bin y qs)
            → In (q, row) es
            → (i : ℕ) × (id_idx : ℕ) × IsNear hash r delta cells pts_num pts y id k bin i id_idx
              × (share row e ≡ mask - distance (pts i) y ^ metric)
        programmed_share q e row m n =
            let (sigma, e', p, theirs, eq) = queries-In hash id k bin y qs (q, e) m in
            let (i, xs, lo, hi, got, there) = listed.0 (q, row) n in
            let (ps, strings, _) = sides_of i (omega arith) in
            let exact : both_sides hash side i (pts i) ps ≡ xs =
              ok_injective (both_sides hash side i (pts i) ps) xs
                (sym (ap (λ s. s >>= λ x. ok (both_sides hash side i (pts i) x)) strings) ∙ got) in
            let (id_idx, m_k, sigma', d, p', own, low, mine, eq') =
              both_sides-In hash r metric cells side side-IsSideList i (pts i) ps (q, row)
                (rw exact there) in
            let (same_p, same_id, same_k, same_bin, same_sigma) =
              injective p p' id (r.ids id_idx) k m_k bin (r.locations id_idx m_k) sigma sigma' (
                sym (ap (λ (t : Query Block). t.0) eq)
                ∙ entry_key hash r metric sigma' d id_idx m_k p' q row eq') in
            let mine' : OfSide ps (pts i) sigma p d = rw (same_sigma, same_p) mine in
            let (near, both) = shared_near i (omega arith) ps strings sigma p d e' mine' theirs in
            let row_eq : row ≡ prefix_val metric (r.a_zero bin) (r.a_metric bin) (r.a_vole bin) d =
              entry_row hash r metric sigma' d id_idx m_k bin p' q row same_bin eq' in
            let bound : distance (pts i) y ^ metric ≤ mask =
              le_trans (pow-le-pow_left (near_distance i (omega arith) ps strings near) metric)
                fits in
            (
              i,
              id_idx,
              (omega arith, own, near, sym same_id, ap (r.locations id_idx) same_k ∙ sym same_bin),
              ap₂ share row_eq (ap (λ (t : Query Block). t.1) eq)
                  ∙ v_hat-lp_strings delta (pts i) y plus param found0 found1 pos
                      (centres i (omega arith)).0 (centres i (omega arith)).1 hy ps qs strings ask p
                      metric (r.a_zero bin) (r.a_metric bin) b_delta mask d e' (r.a_vole bin) c_vole
                      d_vole both kind small_a small_mask small_d vole bound,
            )

      pub near_programmed :
          (i id_idx : ℕ)
          → k < num_hash_func
          → IsNear hash r delta cells pts_num pts y id k bin i id_idx
          → (q : Block) × (e : ℕ) × (row : ℕ → ℕ) × In (q, e) (all_queries hash id k bin y qs)
            × In (q, row) es
      unfolding lp_entry
      near_programmed i id_idx low (h, own, near, same_id, same_bin) =
          let (ps, strings, _) = sides_of i h in
          let (sigma, p, d, e, mine, theirs) = near_shared i h ps strings near in
          let row = prefix_val metric (r.a_zero bin) (r.a_metric bin) (r.a_vole bin) d in
          (
            hash p id k bin sigma,
            e,
            row,
            In-queries hash id k bin y qs sigma e p theirs,
            listed.1 i (both_sides hash side i (pts i) ps) (hash p id k bin sigma, row)
                (omega arith) (omega arith) (rw strings refl)
                (In-both_sides hash r metric cells side side-IsSideList i (pts i) ps
                  (hash p id k bin sigma, row) id_idx k sigma d p own low mine
                  (rw (same_id, same_bin) refl)),
          )
