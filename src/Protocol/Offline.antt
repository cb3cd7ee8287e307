-- ===== src/Protocol/Offline.antt =====
-- The identifiers of `psi_offline_sh` of `fpsi/fpsi_recv.cpp` and `fpsi_sender.cpp`. `hash` stands for
-- blake3 over a cell, `get_blk_from_cell`.
pub mod Laws
use opprf_fpsi.Prelude.{
  ℕ, ◌-◌, ◌*◌, ◌^◌, List, map, if◌then◌else◌, ltb, ◌==◌, u64, Result, ok, err, undefined, ◌>>=◌,
  collect,
}
use opprf_fpsi.Grid.Cells.{Point, cell, intersection}

-- `SIDE_LEN = 2 * delta` of the constructors.
unfoldable pub side_len_of : ℕ → ℕ
side_len_of delta = u64 (2 * delta)

-- `BLK_CELLS = 1 << dim` of the constructors, a shift of an `int` of 32 bits: 31 gives the least
-- `int`, which becomes a `u64`, and more than 31 is undefined.
unfoldable pub blk_cells_of : ℕ → Result ℕ
blk_cells_of dim =
    if ltb dim 31 then ok (2 ^ dim) else if dim == 31 then ok (2 ^ 64 - 2 ^ 31) else err undefined

module _ {Block : Type 0} (hash : Point → Block) where
  -- The identifiers of one point of the receiver.
  unfoldable pub cell_ids : ℕ → ℕ → ℕ → ℕ → ℕ → Point → Result (List Block)
  cell_ids metric dim delta side_len blk_cells pt =
      intersection pt metric dim delta side_len blk_cells >>= λ cells. ok (map hash cells)

  -- `sh_ID_xr`, with the cells that the receiver's constructor sets.
  unfoldable pub sh_id_xr : (ℕ → Point) → ℕ → ℕ → ℕ → ℕ → Result (List Block)
  sh_id_xr pts pts_num metric dim delta = blk_cells_of dim >>= λ blk_cells.
      collect (λ i. cell_ids metric dim delta (side_len_of delta) blk_cells (pts i)) 0 pts_num

  -- The entry of `sh_ID_ys` for one point.
  unfoldable pub sh_id_y : Point → ℕ → ℕ → Result Block
  sh_id_y pt dim delta = cell pt dim (side_len_of delta) >>= λ c. ok (hash c)
