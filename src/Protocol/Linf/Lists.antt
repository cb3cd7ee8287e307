-- ===== src/Protocol/Linf/Lists.antt =====
-- Which entries the receiver's list of `mp_ssFMat_linf_sh` and `mp_ssFMat_linf` has.
use opprf_fpsi.Prelude.{
  ℕ, ◌+◌, ◌-◌, ◌*◌, ◌≤◌, ◌<◌, ◌≡◌, Bool, List, inl, inr, arith, In, In-map, map-In, In-flat_range,
  flat_range-In, In-flat_map, flat_map-In,
}
use opprf_fpsi.Protocol.Linf.{Receiver, num_hash_func, prefix_entry, point_list_sh, point_list}

-- The identifiers of the point `i` are those from `i * cells` on.
abbrev pub Owns : ℕ → ℕ → ℕ → Type 0
Owns cells i id_idx = (i * cells ≤ id_idx) × (id_idx < i * cells + cells)

module _ {Block : Type 0} (hash : List Bool → Block → ℕ → ℕ → Block) where
  -- The entries that `f` makes of the prefixes of a point are those of its identifiers, with each
  -- of the hash functions, for each of the prefixes.
  abbrev pub IsPointList :
      Receiver Block → ℕ → ℕ → (ℕ → List (List Bool) → List (Block × Block)) → Type 0
  IsPointList r dim cells f =
      (i : ℕ) (prefixs : List (List Bool)) (e : Block × Block)
      → (In e (f i prefixs)
          → (id_idx : ℕ) × (k : ℕ) × (prefix : List Bool) × Owns cells i id_idx
            × (k < num_hash_func)
            × In prefix prefixs
            × (e ≡ prefix_entry hash r dim id_idx k prefix))
        × ((id_idx k : ℕ) (prefix : List Bool)
            → Owns cells i id_idx
            → k < num_hash_func
            → In prefix prefixs
            → e ≡ prefix_entry hash r dim id_idx k prefix
            → In e (f i prefixs))

  pub point_list_sh-IsPointList :
      (r : Receiver Block) (dim cells : ℕ)
      → IsPointList r dim cells (point_list_sh hash r dim cells)
  unfolding point_list_sh
  point_list_sh-IsPointList r dim cells i prefixs e = (
    λ m.
        let (idx, lo, hi, m1) = flat_range-In _ 0 cells e m in
        let (k, lo1, hi1, m2) = flat_range-In _ 0 num_hash_func e m1 in
        let (prefix, m3, q) = map-In _ e prefixs m2 in
        (i * cells + idx, k, prefix, (omega arith, omega arith), hi1, m3, q),
    λ id_idx k prefix own small m q.
        let place : i * cells + (id_idx - i * cells) ≡ id_idx = omega arith in
        In-flat_range _ 0 cells (id_idx - i * cells) e (omega arith) (omega arith) (
          In-flat_range _ 0 num_hash_func k e (omega arith) (omega arith)
            (rw (place, q) (In-map (prefix_entry hash r dim id_idx k) prefix prefixs m))),
  )

  pub point_list-IsPointList :
      (r : Receiver Block) (dim : ℕ) → IsPointList r dim 1 (point_list hash r dim)
  unfolding point_list
  point_list-IsPointList r dim i prefixs e = (
    λ m.
        let (prefix, m1, m2) = flat_map-In _ prefixs e m in
        let (k, lo, hi, m3) = flat_range-In _ 0 num_hash_func e m2 in
        elim m3 [
          | inl q ↦ (i, k, prefix, (omega arith, omega arith), hi, m1, q)
          | inr other ↦ absurd other
        ],
    λ id_idx k prefix own small m q.
        let place : id_idx ≡ i = omega (arith, own.0, own.1) in
        In-flat_map _ prefixs prefix e m
          (In-flat_range _ 0 num_hash_func k e (omega arith) (omega arith) (inl (rw (← place) q))),
  )
