-- ===== src/Protocol/Lp/Lists.antt =====
-- Which entries the lists for the sums of powers have.
use opprf_fpsi.Prelude.{
  ℕ, ◌+◌, ◌-◌, ◌*◌, ◌<◌, ◌≡◌, ◌⊎◌, refl, ap₂, ◌∙◌, ◌++◌, Bool, List, inl, inr, arith, In, map,
  map-In, In-map, In-append, In-append_left, In-append_right, In-flat_range, flat_range-In,
  In-flat_map, flat_map-In,
}
use opprf_fpsi.Prefix.Strings.{up_bound, low_bound}
use opprf_fpsi.Protocol.Linf.{num_hash_func}
use opprf_fpsi.Protocol.Linf.Lists.{Owns}
use opprf_fpsi.Protocol.Powers.{diff_below, diff_above, e_below, e_above}
use opprf_fpsi.Protocol.Lp.{
  LpReceiver, Programmed, Query, lp_entry, side_list_sh, side_list, both_sides, side_query,
}

-- A string of the receiver's lists, with its side and the difference for that side.
abbrev pub OfSide : List (List Bool) × List (List Bool) → ℕ → ℕ → List Bool → ℕ → Type 0
OfSide x pt_dim sigma prefix diff =
    (In prefix x.0 × (sigma ≡ 0) × (diff ≡ diff_below pt_dim (up_bound prefix)))
    ⊎ (In prefix x.1 × (sigma ≡ 1) × (diff ≡ diff_above pt_dim (low_bound prefix)))

-- The same for the sender's lists.
abbrev pub AskedFor : List (List Bool) × List (List Bool) → ℕ → ℕ → List Bool → ℕ → Type 0
AskedFor y pt sigma prefix e =
    (In prefix y.0 × (sigma ≡ 0) × (e ≡ e_below (up_bound prefix) pt))
    ⊎ (In prefix y.1 × (sigma ≡ 1) × (e ≡ e_above (low_bound prefix) pt))

module _ {Block : Type 0} (hash : List Bool → Block → ℕ → ℕ → ℕ → Block) where
  -- The loop over one side makes the entries of the point's identifiers, for each hash function and
  -- each string.
  abbrev pub IsSideList :
      LpReceiver Block
      → ℕ
      → ℕ
      → (ℕ → (List Bool → ℕ) → ℕ → List (List Bool) → List (Programmed Block))
      → Type 0
  IsSideList r metric cells side =
      (sigma : ℕ) (diff : List Bool → ℕ) (i : ℕ) (prefixs : List (List Bool)) (e : Programmed Block)
      → (In e (side sigma diff i prefixs)
          → (id_idx : ℕ) × (k : ℕ) × (prefix : List Bool) × Owns cells i id_idx
            × (k < num_hash_func)
            × In prefix prefixs
            × (e ≡ lp_entry hash r metric sigma (diff prefix) id_idx k prefix))
        × ((id_idx k : ℕ) (prefix : List Bool)
            → Owns cells i id_idx
            → k < num_hash_func
            → In prefix prefixs
            → e ≡ lp_entry hash r metric sigma (diff prefix) id_idx k prefix
            → In e (side sigma diff i prefixs))

  pub side_list_sh-IsSideList :
      (r : LpReceiver Block) (metric cells : ℕ)
      → IsSideList r metric cells (side_list_sh hash r metric cells)
  unfolding side_list_sh
  side_list_sh-IsSideList r metric cells sigma diff i prefixs e = (
    λ m.
        let (prefix, m1, m2) = flat_map-In _ prefixs e m in
        let (idx, lo, hi, m3) = flat_range-In _ 0 cells e m2 in
        let (k, lo1, hi1, m4) = flat_range-In _ 0 num_hash_func e m3 in
        elim m4 [
          | inl q ↦ (i * cells + idx, k, prefix, (omega arith, omega arith), hi1, m1, q)
          | inr other ↦ absurd other
        ],
    λ id_idx k prefix own small m q.
        let place : i * cells + (id_idx - i * cells) ≡ id_idx = omega arith in
        In-flat_map _ prefixs prefix e m (
          In-flat_range _ 0 cells (id_idx - i * cells) e (omega arith) (omega arith)
            (In-flat_range _ 0 num_hash_func k e (omega arith) (omega arith) (inl (rw place q)))),
  )

  pub side_list-IsSideList :
      (r : LpReceiver Block) (metric : ℕ) → IsSideList r metric 1 (side_list hash r metric)
  unfolding side_list
  side_list-IsSideList r metric sigma diff i prefixs e = (
    λ m.
        let (prefix, m1, m2) = flat_map-In _ prefixs e m in
        let (k, lo, hi, m3) = flat_range-In _ 0 num_hash_func e m2 in
        elim m3 [
          | inl q ↦ (i, k, prefix, (omega arith, omega arith), hi, m1, q)
          | inr other ↦ absurd other
        ],
    λ id_idx k prefix own small m q.
        let place : id_idx ≡ i = omega (arith, own.0, own.1) in
        In-flat_map _ prefixs prefix e m
          (In-flat_range _ 0 num_hash_func k e (omega arith) (omega arith) (inl (rw (← place) q))),
  )

  module _ (r : LpReceiver Block) (metric cells : ℕ)
      (side : ℕ → (List Bool → ℕ) → ℕ → List (List Bool) → List (Programmed Block))
      (side-IsSideList : IsSideList r metric cells side) where
    pub both_sides-In :
        (i pt_dim : ℕ) (x : List (List Bool) × List (List Bool)) (e : Programmed Block)
        → In e (both_sides hash side i pt_dim x)
        → (id_idx : ℕ) × (k : ℕ) × (sigma : ℕ) × (diff : ℕ) × (prefix : List Bool) × Owns cells i
            id_idx
          × (k < num_hash_func)
          × OfSide x pt_dim sigma prefix diff
          × (e ≡ lp_entry hash r metric sigma diff id_idx k prefix)
    unfolding both_sides
    both_sides-In i pt_dim x e m =
        let low = λ (prefix : List Bool). diff_below pt_dim (up_bound prefix) in
        let high = λ (prefix : List Bool). diff_above pt_dim (low_bound prefix) in
        elim (In-append e (side 0 low i x.0) (side 1 high i x.1) m) [
          | inl below ↦
              let (id_idx, k, prefix, own, small, n, q) = (side-IsSideList 0 low i x.0 e).0 below in
              (id_idx, k, 0, low prefix, prefix, own, small, inl (n, refl, refl), q)
          | inr above ↦
              let (id_idx, k, prefix, own, small, n, q) =
                (side-IsSideList 1 high i x.1 e).0 above in
              (id_idx, k, 1, high prefix, prefix, own, small, inr (n, refl, refl), q)
        ]

    pub In-both_sides :
        (i pt_dim : ℕ) (x : List (List Bool) × List (List Bool)) (e : Programmed Block)
        (id_idx k sigma diff : ℕ) (prefix : List Bool)
        → Owns cells i id_idx
        → k < num_hash_func
        → OfSide x pt_dim sigma prefix diff
        → e ≡ lp_entry hash r metric sigma diff id_idx k prefix
        → In e (both_sides hash side i pt_dim x)
    unfolding both_sides
    In-both_sides i pt_dim x e id_idx k sigma diff prefix own small (inl (n, s, d)) q =
        let low = λ (p : List Bool). diff_below pt_dim (up_bound p) in
        let high = λ (p : List Bool). diff_above pt_dim (low_bound p) in
        In-append_left e (side 0 low i x.0) (side 1 high i x.1) (
          (side-IsSideList 0 low i x.0 e).1 id_idx k prefix own small n
            (q ∙ ap₂ (λ a b. lp_entry hash r metric a b id_idx k prefix) s d))
    In-both_sides i pt_dim x e id_idx k sigma diff prefix own small (inr (n, s, d)) q =
        let low = λ (p : List Bool). diff_below pt_dim (up_bound p) in
        let high = λ (p : List Bool). diff_above pt_dim (low_bound p) in
        In-append_right e (side 0 low i x.0) (side 1 high i x.1) (
          (side-IsSideList 1 high i x.1 e).1 id_idx k prefix own small n
            (q ∙ ap₂ (λ a b. lp_entry hash r metric a b id_idx k prefix) s d))

  module _ (id : Block) (hash_idx i pt : ℕ) (y : List (List Bool) × List (List Bool)) where
    ask_low : List (Query Block)
    ask_low = map (side_query hash id hash_idx i 0 (λ prefix. e_below (up_bound prefix) pt)) y.0

    ask_high : List (Query Block)
    ask_high = map (side_query hash id hash_idx i 1 (λ prefix. e_above (low_bound prefix) pt)) y.1

    -- The queries for the point.
    unfoldable pub all_queries : List (Query Block)
    unfolding ask_low ask_high
    all_queries = ask_low ++ ask_high

    pub queries-In :
        (q : Query Block)
        → In q all_queries
        → (sigma : ℕ) × (e : ℕ) × (prefix : List Bool) × AskedFor y pt sigma prefix e
          × (q ≡ (hash prefix id hash_idx i sigma, e))
    unfolding all_queries ask_low ask_high side_query
    queries-In q m =
        let low = λ (p : List Bool). e_below (up_bound p) pt in
        let high = λ (p : List Bool). e_above (low_bound p) pt in
        elim (In-append q ask_low ask_high m) [
          | inl below ↦
              let (prefix, n, e) = map-In (side_query hash id hash_idx i 0 low) q y.0 below in
              (0, low prefix, prefix, inl (n, refl, refl), e)
          | inr above ↦
              let (prefix, n, e) = map-In (side_query hash id hash_idx i 1 high) q y.1 above in
              (1, high prefix, prefix, inr (n, refl, refl), e)
        ]

    pub In-queries :
        (sigma e : ℕ) (prefix : List Bool)
        → AskedFor y pt sigma prefix e
        → In (hash prefix id hash_idx i sigma, e) all_queries
    unfolding all_queries ask_low ask_high side_query
    In-queries sigma e prefix (inl (n, s, d)) =
        let low = λ (p : List Bool). e_below (up_bound p) pt in
        rw (s, d)
          (In-append_left (hash prefix id hash_idx i 0, low prefix) ask_low ask_high
            (In-map (side_query hash id hash_idx i 0 low) prefix y.0 n))
    In-queries sigma e prefix (inr (n, s, d)) =
        let high = λ (p : List Bool). e_above (low_bound p) pt in
        rw (s, d)
          (In-append_right (hash prefix id hash_idx i 1, high prefix) ask_low ask_high
            (In-map (side_query hash id hash_idx i 1 high) prefix y.1 n))
