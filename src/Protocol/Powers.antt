-- ===== src/Protocol/Powers.antt =====
-- The arithmetic of `mp_ssFMat_lp_sh` of `fpsi/fpsi_recv.cpp` and `fpsi_sender.cpp`, on words of 32
-- bits: for one prefix that both parties have, from the receiver's programmed values to the
-- parties' shares of the power of the distance; then the sums over the dimensions. `a_vole`,
-- `c_vole` and `d_vole` are what the random VOLE left for the bin and the dimension.
pub mod Laws
pub mod Sums
pub mod Prefixes
use opprf_fpsi.Prelude.{
  ℕ, zero, suc, ◌+◌, ◌-◌, ◌*◌, ◌≡◌, List, [], ◌∷◌, if◌then◌else◌, ◌==◌, u64, u32, sub64, sub32,
}
use opprf_fpsi.Grid.Powers.{fast_pow, combination}

-- `diff` of the receiver and `e` of the sender: at or below the receiver's coordinate, and above it.
unfoldable pub diff_below : ℕ → ℕ → ℕ
diff_below pt_dim x_star = sub64 pt_dim x_star

unfoldable pub diff_above : ℕ → ℕ → ℕ
diff_above pt_dim x_star = sub64 x_star pt_dim

unfoldable pub e_below : ℕ → ℕ → ℕ
e_below up pt = sub64 up pt

unfoldable pub e_above : ℕ → ℕ → ℕ
e_above low pt = sub64 pt low

-- `prefix_vals(val_index, s)`.
unfoldable pub prefix_val : ℕ → ℕ → ℕ → (ℕ → ℕ) → ℕ → ℕ → ℕ
prefix_val metric a0 ap a_vole diff s =
    if s == 0
    then a0
    else if s == metric
    then u32 (ap + fast_pow 32 diff metric)
    else u32 (a_vole (s - 1) + fast_pow 32 diff s)

-- `mid_val`.
unfoldable pub mid_val : ℕ → ℕ → ℕ → ℕ
mid_val metric tmp_e s = u32 (combination 32 metric s * fast_pow 32 tmp_e (metric - s))

-- The loop over `s`: `u_hat_candidates[tmp_idx] += mid_val * u[tmp_idx][s] - d_vole[vole_idx]`.
unfoldable pub u_hat_loop : ℕ → ℕ → (ℕ → ℕ) → (ℕ → ℕ) → ℕ → ℕ → ℕ → ℕ
u_hat_loop metric tmp_e u d_vole zero s acc = acc
u_hat_loop metric tmp_e u d_vole (suc left) s acc =
    u_hat_loop metric tmp_e u d_vole left (suc s)
      (u32 (acc + sub32 (u32 (mid_val metric tmp_e s * u s)) (d_vole (s - 1))))

-- `u_hat_candidates[tmp_idx]`, where `u` is the row that the programmable PRF gives.
unfoldable pub u_hat_candidate : ℕ → (ℕ → ℕ) → (ℕ → ℕ) → ℕ → ℕ
u_hat_candidate metric u d_vole e =
    if metric == 1
    then u32 (u 1 + u32 e)
    else u_hat_loop metric (u32 e) u d_vole (metric - 1) 1
        (u32 (u metric + fast_pow 32 (u32 e) metric))

-- `v_candidates(tmp_idx, s)`.
unfoldable pub v_candidate : ℕ → ℕ → ℕ → (ℕ → ℕ) → (ℕ → ℕ) → ℕ → ℕ → ℕ
v_candidate metric b_delta mask u d_vole e s =
    if s == metric - 1
    then sub32 mask (u_hat_candidate metric u d_vole e)
    else u32 (mid_val metric (u32 e) (s + 1) + b_delta)

-- The loop over `s`: `v_hat_i += v_i_s * a_vole[vole_idx] - c_vole[vole_idx]`.
unfoldable pub v_hat_loop : (ℕ → ℕ) → (ℕ → ℕ) → (ℕ → ℕ) → ℕ → ℕ → ℕ → ℕ
v_hat_loop selected a_vole c_vole zero s acc = acc
v_hat_loop selected a_vole c_vole (suc left) s acc =
    v_hat_loop selected a_vole c_vole left (suc s)
      (u32 (acc + sub32 (u32 (selected (s - 1) * a_vole (s - 1))) (c_vole (s - 1))))

-- `v_hat(bin_idx, dim_index)`.
unfoldable pub v_hat : ℕ → (ℕ → ℕ) → ℕ → (ℕ → ℕ) → (ℕ → ℕ) → ℕ
v_hat metric selected ap a_vole c_vole =
    v_hat_loop selected a_vole c_vole (metric - 1) 1 (u32 (ap + selected (metric - 1)))

-- `v_sums[bin_idx]` and `u_sums[bin_idx]`: sums over the dimensions, of 64 bits.
unfoldable pub sum_words : ℕ → List ℕ → ℕ
sum_words acc [] = acc
sum_words acc (v ∷ words) = sum_words (u64 (acc + v)) words
