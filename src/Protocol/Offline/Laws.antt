-- ===== src/Protocol/Offline/Laws.antt =====
-- The identifier of a near point is one of the receiver's.
use opprf_fpsi.Prelude.{
  ℕ, zero, suc, ◌*◌, ◌^◌, ◌≤◌, ◌<◌, ◌≡◌, refl, inl, inr, List, [], ◌∷◌, map, some, true, ltb, arith,
  length, get_elem?, In, In-map, collect-IsCollected, Returns, ok, ◌>>=◌,
}
use opprf_fpsi.Grid.Cells.{Point, intersection}
use opprf_fpsi.Grid.Neighbours.{Near, intersection-cell}
use opprf_fpsi.Protocol.Offline.{side_len_of, blk_cells_of, cell_ids, sh_id_xr, sh_id_y}

get_elem?-In : {A : Type 0} (xs : List A) (k : ℕ) (a : A) → get_elem? xs k ≡ some a → In a xs
get_elem?-In [] k a e = absurd (cc)
get_elem?-In (x ∷ xs) zero a e = inl (cc)
get_elem?-In (x ∷ xs) (suc k) a e = inr (get_elem?-In xs k a e)

side_len_of-small : (delta : ℕ) → delta < 2 ^ 63 → side_len_of delta ≡ 2 * delta
unfolding side_len_of
side_len_of-small delta h = omega (arith, h)

blk_cells_of-small : (dim : ℕ) → dim ≤ 30 → blk_cells_of dim ≡ ok (2 ^ dim)
unfolding blk_cells_of
blk_cells_of-small dim h = let e : ltb dim 31 ≡ true = ground arith in rw e refl

module _ {Block : Type 0} (hash : Point → Block) where
  -- If the receiver's points have `dim` coordinates of 64 bits, at least `delta` each, in at most 30
  -- dimensions, for which `BLK_CELLS` is the power of two that it stands for, the metric is at most
  -- 2, `delta` is at least 1 and below 2^63, and the sender's point is at most `delta` from one of
  -- the receiver's in each dimension, then the identifiers of both parties are computed, and the
  -- sender's is one of the receiver's.
  pub sh_id_xr-sh_id_y :
      (pts : ℕ → Point) (q : Point) (pts_num i metric dim delta : ℕ)
      → ((j : ℕ) → j < pts_num → length (pts j) ≡ dim)
      → ((j : ℕ) → j < pts_num → Near delta (pts j) (pts j))
      → i < pts_num
      → dim ≤ 30
      → metric ≤ 2
      → 1 ≤ delta
      → delta < 2 ^ 63
      → Near delta (pts i) q
      → Returns
          (sh_id_y hash q dim delta)
          λ id. Returns (sh_id_xr hash pts pts_num metric dim delta) (In id)
  unfolding sh_id_xr sh_id_y cell_ids
  sh_id_xr-sh_id_y pts q pts_num i metric dim delta sizes ranges inside small m pos low near =
      let side = side_len_of-small delta low in
      let count = blk_cells_of-small dim small in
      let (c, located, (cells, crossed, stands)) =
        intersection-cell (pts i) q metric dim delta (sizes i inside) (omega arith) m pos near in
      let (ids, run, listed) =
        collect-IsCollected
          (λ j. intersection (pts j) metric dim delta (2 * delta) (2 ^ dim) >>= λ cells.
            ok (map hash cells))
          0 pts_num
          λ j lo hi.
            let (_, _, (some_cells, e, _)) =
              intersection-cell (pts j) (pts j) metric dim delta (sizes j (omega arith))
                (omega arith) m pos (ranges j (omega arith)) in
            (map hash some_cells, rw e refl, tt) in
      (
        hash c,
        rw (side, located) refl,
        (
          ids,
          rw (count, side) run,
          listed.1 i (map hash cells) (hash c) (omega arith) (omega arith) (rw crossed refl)
              (In-map hash c cells (get_elem?-In cells stands.0 c stands.2)),
        ),
      )
