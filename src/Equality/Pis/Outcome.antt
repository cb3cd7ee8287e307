-- ===== src/Equality/Pis/Outcome.antt =====
-- What the receiver of `Batch_PIS_recv_new` gets for a batch.
use opprf_fpsi.Prelude.{
  ℕ, zero, suc, ◌/◌, ◌^◌, ◌≤◌, ◌<◌, ◌≡◌, refl, sym, ap, ap₂, ◌∙◌, Bool, true, false, ◌⊕◌, ◌==◌,
  List, map, take, length, arith, if◌then◌else◌, length-map, length-take, ok, err, undefined,
}
use opprf_fpsi.Equality.Round.{Row}
use opprf_fpsi.Equality.Round.Step.{xor_row, length-xor_row}
use opprf_fpsi.Equality.Peqt.Psm.{take-xor_row}
use opprf_fpsi.Equality.Pis.{
  split_lists, compute_split_index, parity, psm_sums, block_of, pis_msg, half_send_msg, recv_block,
  row_number, masked_number, batch_pis,
}
use opprf_fpsi.Equality.Pis.Rows.{
  xor_row_comm, xor_row_assoc, xor_row_again, xor_row_zeros, take-block_of, length-block_of,
  row_number-bits_from,
}
use opprf_fpsi.Equality.Pis.Laws.{
  total_at, psm_sums-total_at, xor_row-totals, parity-xor, parity_single, totals_single,
  parity_none, totals_none,
}

unmask : (m q : Row) → length m ≡ length q → xor_row m (xor_row q m) ≡ q
unmask m q e = ap (xor_row m) (xor_row_comm q m) ∙ xor_row_again m q e

length-split_lists : (size j left : ℕ) → length (split_lists size j left) ≡ left
unfolding split_lists
length-split_lists size j zero = refl
length-split_lists size j (suc left) = ap suc (length-split_lists size (suc j) left)

-- The transfer gives the block of the sums if the parities differ, and the random block added to it
-- if they agree.
transferred :
    (s0 t0 : Bool) (t r m0 m1 : Row)
    → length t ≡ 128
    → length r ≡ 128
    → length m0 ≡ 128
    → length m1 ≡ 128
    → recv_block s0 (if s0 then m1 else m0) (half_send_msg (pis_msg t0 t r) (m0, m1))
      ≡ (if s0 ⊕ t0 then t else xor_row r t)
unfolding recv_block half_send_msg pis_msg
transferred true true t r m0 m1 a b c d =
    unmask m1 (xor_row r t) (d ∙ sym (length-xor_row r t (b ∙ sym a) ∙ b))
transferred true false t r m0 m1 a b c d =
    ap (λ q. xor_row m1 (xor_row q m1)) (xor_row_again r t (b ∙ sym a)) ∙ unmask m1 t (d ∙ sym a)
transferred false true t r m0 m1 a b c d = unmask m0 t (c ∙ sym a)
transferred false false t r m0 m1 a b c d =
    unmask m0 (xor_row r t) (c ∙ sym (length-xor_row r t (b ∙ sym a) ∙ b))

module _ (k : ℕ) (eq_res0 eq_res1 : ℕ → Bool) (r m0 m1 : Row) (small : suc k ≤ 31)
    (random_block : length r ≡ 128) (message0 : length m0 ≡ 128) (message1 : length m1 ≡ 128) where
  lists : List (List ℕ)
  lists = compute_split_index (suc k)

  sums : (ℕ → Bool) → Row
  sums e = map (total_at e) lists

  both : ℕ → Bool
  both i = eq_res0 i ⊕ eq_res1 i

  length-sums : (e : ℕ → Bool) → length (sums e) ≡ suc k
  unfolding sums lists compute_split_index
  length-sums e = length-map (total_at e) lists ∙ length-split_lists (2 ^ suc k) 0 (suc k)

  length-block : (e : ℕ → Bool) → length (block_of (sums e)) ≡ 128
  length-block e = length-block_of (sums e) (omega (arith, length-sums e, small))

  batch_pis-number :
      batch_pis (suc k) eq_res0 eq_res1 r (m0, m1)
      ≡ ok (
          masked_number
            (suc k)
            (if parity (2 ^ suc k) both
              then block_of (sums eq_res1)
              else xor_row r (block_of (sums eq_res1)))
            (block_of (sums eq_res0)))
  unfolding batch_pis sums both lists
  batch_pis-number =
      rw (psm_sums-total_at k eq_res0, psm_sums-total_at k eq_res1)
        (ap (λ got. ok (masked_number (suc k) got (block_of (sums eq_res0))))
          (transferred (parity (2 ^ suc k) eq_res0) (parity (2 ^ suc k) eq_res1)
              (block_of (sums eq_res1)) r m0 m1 (length-block eq_res1) random_block message0
              message1
            ∙ ap (λ b. if b then block_of (sums eq_res1) else xor_row r (block_of (sums eq_res1)))
                (parity-xor (2 ^ suc k) eq_res0 eq_res1)))

  sums_shares : xor_row (sums eq_res1) (sums eq_res0) ≡ sums both
  unfolding sums both
  sums_shares = xor_row_comm (sums eq_res1) (sums eq_res0) ∙ xor_row-totals eq_res0 eq_res1 lists

  opened_number :
      masked_number (suc k) (block_of (sums eq_res1)) (block_of (sums eq_res0))
      ≡ row_number (sums both)
  unfolding masked_number
  opened_number = ap row_number (
      sym (take-xor_row (suc k) (block_of (sums eq_res1)) (block_of (sums eq_res0)))
      ∙ ap₂ xor_row (take-block_of (suc k) (sums eq_res1) (length-sums eq_res1))
          (take-block_of (suc k) (sums eq_res0) (length-sums eq_res0))
      ∙ sums_shares)

  hidden_number :
      masked_number (suc k) (xor_row r (block_of (sums eq_res1))) (block_of (sums eq_res0))
      ≡ row_number (xor_row (take (suc k) r) (sums both))
  unfolding masked_number
  hidden_number = ap row_number (
      ap (take (suc k)) (xor_row_assoc r (block_of (sums eq_res1)) (block_of (sums eq_res0)))
      ∙ sym (take-xor_row (suc k) r (xor_row (block_of (sums eq_res1)) (block_of (sums eq_res0))))
      ∙ ap (xor_row (take (suc k) r)) (
          sym (take-xor_row (suc k) (block_of (sums eq_res1)) (block_of (sums eq_res0)))
          ∙ ap₂ xor_row (take-block_of (suc k) (sums eq_res1) (length-sums eq_res1))
              (take-block_of (suc k) (sums eq_res0) (length-sums eq_res0))
          ∙ sums_shares))

  -- With 2 to 2^31 words in a batch and blocks of 128 bits: if the parties have shares of 1 at
  -- exactly one place of the batch, the receiver gets its index.
  pub batch_pis-index :
      (idx : ℕ)
      → idx < 2 ^ suc k
      → ((i : ℕ) → i < 2 ^ suc k → eq_res0 i ⊕ eq_res1 i ≡ (i == idx))
      → batch_pis (suc k) eq_res0 eq_res1 r (m0, m1) ≡ ok idx
  unfolding sums both lists compute_split_index
  batch_pis-index idx low h =
      let one : parity (2 ^ suc k) both ≡ true =
        parity_single both idx (2 ^ suc k) h ∙ ground (arith, low) in
      let start : idx / 2 ^ 0 ≡ idx = omega arith in
      batch_pis-number
      ∙ ap
          (λ b. ok (
            masked_number (suc k)
              (if b then block_of (sums eq_res1) else xor_row r (block_of (sums eq_res1)))
              (block_of (sums eq_res0))))
          one
      ∙ ap ok (
          opened_number
          ∙ ap row_number (totals_single both idx (2 ^ suc k) 0 (suc k) low h)
          ∙ row_number-bits_from idx 0 (suc k) (omega (arith, start, low))
          ∙ start)

  -- Under the same conditions, if they have shares of 0 at every place, the receiver gets the first
  -- bits of the sender's random block.
  pub batch_pis-random :
      ((i : ℕ) → i < 2 ^ suc k → eq_res0 i ⊕ eq_res1 i ≡ false)
      → batch_pis (suc k) eq_res0 eq_res1 r (m0, m1) ≡ ok (row_number (take (suc k) r))
  unfolding sums both lists compute_split_index
  batch_pis-random h =
      batch_pis-number
      ∙ ap
          (λ b. ok (
            masked_number (suc k)
              (if b then block_of (sums eq_res1) else xor_row r (block_of (sums eq_res1)))
              (block_of (sums eq_res0))))
          (parity_none both (2 ^ suc k) h)
      ∙ ap ok (
          hidden_number
          ∙ ap row_number (
              ap (xor_row (take (suc k) r)) (totals_none both (2 ^ suc k) 0 (suc k) h)
              ∙ xor_row_zeros (take (suc k) r) (suc k)
                  (length-take (suc k) r ∙ omega (arith, random_block, small))))

-- For a batch of one word, which the assertion lets pass, there are no lists of indices, and the
-- code reads the first of them.
pub batch_pis-one :
    (eq_res0 eq_res1 : ℕ → Bool) (r : Row) (ot : Row × Row)
    → batch_pis 0 eq_res0 eq_res1 r ot ≡ err undefined
unfolding batch_pis psm_sums compute_split_index split_lists
batch_pis-one eq_res0 eq_res1 r ot = refl
