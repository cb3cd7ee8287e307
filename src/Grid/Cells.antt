-- ===== src/Grid/Cells.antt =====
-- The grid of `fpsi/utils/dist_util.cpp`. A point is the list of its coordinates; a read past the
-- last one, a division by 0 and a shift of a word by its width or more are undefined.
use opprf_fpsi.Prelude.{
  ℕ, zero, suc, ◌+◌, ◌*◌, ◌^◌, List, [], ◌∷◌, ltb, ◌==◌, if◌then◌else◌, to_nat, bit, u64, sub64,
  Result, ok, err, ◌>>=◌, undefined, invalid_argument, ◌/◌,
}

abbrev pub Point : Type 0
Point = List ℕ

unfoldable pub cell : Point → ℕ → ℕ → Result Point
cell p zero side_len = ok []
cell [] (suc dim) side_len = err undefined
cell (x ∷ p) (suc dim) side_len =
    if side_len == 0
    then err undefined
    else cell p dim side_len >>= λ corner. ok (x / side_len ∷ corner)

-- `min[i] = p[i] - delta`.
unfoldable pub lower : Point → ℕ → ℕ → Result Point
lower p zero delta = ok []
lower [] (suc dim) delta = err undefined
lower (x ∷ p) (suc dim) delta = lower p dim delta >>= λ min. ok (sub64 x delta ∷ min)

unfoldable pub block_ : Point → ℕ → ℕ → ℕ → Result Point
block_ p dim delta sidelen = lower p dim delta >>= λ min. cell min dim sidelen

-- `cross_point[i] = blk[i] * sidelen + sidelen`.
unfoldable pub cross : Point → ℕ → Point
cross [] sidelen = []
cross (b ∷ blk) sidelen = u64 (b * sidelen + sidelen) ∷ cross blk sidelen

abbrev pub diff : ℕ → ℕ → ℕ
diff x y = if ltb y x then sub64 x y else sub64 y x

-- The loops of `l1_dist`, `l2_dist` and `l_inf_dist`, from the accumulator `acc` on.
unfoldable pub l1_from : ℕ → Point → Point → ℕ → Result ℕ
l1_from acc p1 p2 zero = ok acc
l1_from acc (x ∷ p1) (y ∷ p2) (suc dim) = l1_from (u64 (acc + diff x y)) p1 p2 dim
l1_from acc _ _ (suc dim) = err undefined

unfoldable pub l2_from : ℕ → Point → Point → ℕ → Result ℕ
l2_from acc p1 p2 zero = ok acc
l2_from acc (x ∷ p1) (y ∷ p2) (suc dim) = l2_from (u64 (acc + u64 (diff x y * diff x y))) p1 p2 dim
l2_from acc _ _ (suc dim) = err undefined

unfoldable pub l_inf_from : ℕ → Point → Point → ℕ → Result ℕ
l_inf_from acc p1 p2 zero = ok acc
l_inf_from acc (x ∷ p1) (y ∷ p2) (suc dim) =
    l_inf_from (if ltb acc (diff x y) then diff x y else acc) p1 p2 dim
l_inf_from acc _ _ (suc dim) = err undefined

unfoldable pub l1_dist : Point → Point → ℕ → Result ℕ
l1_dist p1 p2 dim = l1_from 0 p1 p2 dim

unfoldable pub l2_dist : Point → Point → ℕ → Result ℕ
l2_dist p1 p2 dim = l2_from 0 p1 p2 dim

unfoldable pub l_inf_dist : Point → Point → ℕ → Result ℕ
l_inf_dist p1 p2 dim = l_inf_from 0 p1 p2 dim

-- The loop of `get_position` from dimension `i` on.
unfoldable pub position_from : ℕ → ℕ → Point → Point → ℕ → Result ℕ
position_from i pos c s zero = ok pos
position_from i pos (x ∷ c) (y ∷ s) (suc dim) =
    if ltb y x
    then if ltb 63 i then err undefined else position_from (i + 1) (u64 (pos + 2 ^ i)) c s dim
    else position_from (i + 1) pos c s dim
position_from i pos _ _ (suc dim) = err undefined

unfoldable pub get_position : Point → Point → ℕ → Result ℕ
get_position cross_point source_point dim = position_from 0 0 cross_point source_point dim

-- The loop over the dimensions `j` that makes the cell of number `i`.
unfoldable pub corner : ℕ → ℕ → Point → Result Point
corner i j [] = ok []
corner i j (b ∷ blk) =
    if ltb 63 j
    then err undefined
    else corner i (j + 1) blk >>= λ temp. ok (u64 (b + to_nat (bit i j)) ∷ temp)

-- The loop over the numbers `i` of the cells, with `left` to go.
unfoldable pub corners : ℕ → ℕ → Point → Result (List Point)
corners i zero blk = ok []
corners i (suc left) blk = do
  temp ← corner i 0 blk
  results ← corners (i + 1) left blk
  ok (temp ∷ results)

-- The choice of the distance by the metric.
unfoldable pub metric_dist : ℕ → Point → Point → ℕ → Result ℕ
metric_dist metric p c dim =
    if metric == 2
    then l2_dist p c dim
    else if metric == 1
    then l1_dist p c dim
    else if metric == 0
    then l_inf_dist p c dim
    else err invalid_argument

-- The distance and the position are computed and not used: the test that would use them is a
-- comment. `reserve`, which only a list that cannot be held in memory makes fail, is left out.
unfoldable pub intersection : Point → ℕ → ℕ → ℕ → ℕ → ℕ → Result (List Point)
intersection p metric dim delta sidelen blk_cells = do
  blk ← block_ p dim delta sidelen
  dist ← metric_dist metric p (cross blk sidelen) dim
  pos_ind ← get_position (cross blk sidelen) p dim
  corners 0 blk_cells blk
