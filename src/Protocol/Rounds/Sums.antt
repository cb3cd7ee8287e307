-- ===== src/Protocol/Rounds/Sums.antt =====
-- Step 5 of `mp_ssFMat_linf_sh` and `mp_ssFMat_linf`: the sums over the dimensions.
use opprf_fpsi.Prelude.{
  ℕ, zero, suc, ◌+◌, ◌≤◌, ◌<◌, ◌≡◌, refl, ap, ap₂, [], ◌∷◌, map, arith, collect, flat_range, Result,
  ok, ◌>>=◌, Returns,
}
use opprf_fpsi.Mapping.Field.{Field}
use opprf_fpsi.Mapping.Exchange.{sum_from}
use opprf_fpsi.Protocol.Rounds.{rr_vals_sums, r_vals_sums, peqt_inputs}

module _ {A B : Type 0} where
  -- A loop that pushes one element in each round, seen through a function.
  collect-map :
      (f : ℕ → Result A) (g : A → B) (h : ℕ → B) (start count : ℕ)
      → ((j : ℕ) → start ≤ j → j < start + count → Returns (f j) λ a. g a ≡ h j)
      → Returns
          (collect (λ j. f j >>= λ a. ok (a ∷ [])) start count)
          λ xs. map g xs ≡ flat_range (λ j. h j ∷ []) start count
  unfolding collect flat_range
  collect-map f g h start zero p = ([], refl, refl)
  collect-map f g h start (suc count) p =
      let (a, e, same) = p start (omega arith) (omega arith) in
      let (rest, d, q) =
        collect-map f g h (suc start) count (λ j lo hi. p j (omega arith) (omega arith)) in
      (a ∷ rest, rw (e, d) refl, ap₂ ◌∷◌ same q)

module _ {Block : Type 0} (F : Field Block) where
  -- If the thread of every dimension ends with the sender's value for the bin `i`, then both
  -- parties give the same block to the equality test for that bin.
  pub peqt_inputs-agree :
      (thread : ℕ → Result (ℕ → Block)) (r_vals : ℕ → ℕ → Block) (dims i : ℕ)
      → ((dim : ℕ) → dim < dims → Returns (thread dim) λ row. row i ≡ r_vals dim i)
      → Returns (peqt_inputs F thread r_vals dims) λ sums. sums.0 i ≡ sums.1 i
  unfolding peqt_inputs rr_vals_sums r_vals_sums
  peqt_inputs-agree thread r_vals dims i h =
      let (rows, run, same) =
        collect-map thread (λ row. row i) (λ dim. r_vals dim i) 0 dims
          (λ dim lo hi. h dim (omega arith)) in
      (
        (rr_vals_sums F rows, r_vals_sums F r_vals dims),
        rw run refl,
        ap (sum_from F F.zero_block) same,
      )
