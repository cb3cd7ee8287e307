-- ===== src/Equality/Pis.antt =====
-- `fpsi/pis_new/batch_pis_new.cpp` and `batch_pis_new.h`: from shares of the equality of a word with
-- the words of a batch to the index of the word that it equals. The shares are the result of `eq0`
-- and `eq1`; a batch has `2 ^ k` words, as the assertions demand, and its loops are those of one
-- batch. A block is a row of 128 bits, the least significant bit first.
pub mod Split
pub mod Rows
pub mod Outcome
pub mod Find
pub mod Laws
use opprf_fpsi.Prelude.{
  ℕ, zero, suc, ◌+◌, ◌-◌, ◌*◌, ◌^◌, Bool, true, false, ◌⊕◌, List, [], ◌∷◌, ◌++◌, take, replicate,
  length, if◌then◌else◌, bit, to_nat, Result, ok, err, undefined, ◌>>=◌,
}
use opprf_fpsi.Equality.Round.{Row}
use opprf_fpsi.Equality.Round.Step.{xor_row}

-- `res[j]` of `compute_split_index` after `n` rounds: the indices with the bit `j`.
unfoldable pub split_index : ℕ → ℕ → List ℕ
split_index j zero = []
split_index j (suc n) = split_index j n ++ (if bit n j then n ∷ [] else [])

unfoldable pub split_lists : ℕ → ℕ → ℕ → List (List ℕ)
split_lists size j zero = []
split_lists size j (suc left) = split_index j size ∷ split_lists size (suc j) left

-- For `2 ^ k` elements, whose logarithm is `k`.
unfoldable pub compute_split_index : ℕ → List (List ℕ)
compute_split_index k = split_lists (2 ^ k) 0 k

-- The loop that gives `s0[i]` and `t0[i]`.
unfoldable pub parity : ℕ → (ℕ → Bool) → Bool
parity zero eq_res = false
parity (suc n) eq_res = parity n eq_res ⊕ eq_res n

-- The loop over `n` in step 2: `psm_size` indices of one list.
unfoldable pub sum_indexes : ℕ → List ℕ → (ℕ → Bool) → Result Bool
sum_indexes zero indexs eq_res = ok false
sum_indexes (suc n) [] eq_res = err undefined
sum_indexes (suc n) (i ∷ indexs) eq_res = do
  rest ← sum_indexes n indexs eq_res
  ok (eq_res i ⊕ rest)

-- The loop over `m`.
unfoldable pub psm_row : ℕ → List (List ℕ) → (ℕ → Bool) → Result Row
psm_row psm_size [] eq_res = ok []
psm_row psm_size (indexs ∷ lists) eq_res = do
  tmp ← sum_indexes psm_size indexs eq_res
  rest ← psm_row psm_size lists eq_res
  ok (tmp ∷ rest)

-- Step 2 for one batch; `psm_size` is the size of `indexs[0]`.
unfoldable pub psm_sums : List (List ℕ) → (ℕ → Bool) → Result Row
psm_sums [] eq_res = err undefined
psm_sums (indexs ∷ lists) eq_res = psm_row (length indexs) (indexs ∷ lists) eq_res

-- The block that the sums are or-ed into.
unfoldable pub block_of : Row → Row
block_of bits = bits ++ replicate (128 - length bits) false

-- `pis_msg[i]`, for the random block `r`.
unfoldable pub pis_msg : Bool → Row → Row → Row × Row
pis_msg t0 t r = let q0 = if t0 ⊕ true then xor_row r t else t in (q0, xor_row r q0)

-- `half_sendMsg_0[i]` and `half_sendMsg_1[i]`, for the messages of the random transfer.
unfoldable pub half_send_msg : Row × Row → Row × Row → Row × Row
half_send_msg pis ot = (xor_row pis.0 ot.0, xor_row pis.1 ot.1)

-- `recvMsg[i]` once the mask is off.
unfoldable pub recv_block : Bool → Row → Row × Row → Row
recv_block s0 got halves = if s0 then xor_row got halves.1 else xor_row got halves.0

-- The number that a row of bits is.
unfoldable pub row_number : Row → ℕ
row_number [] = 0
row_number (b ∷ r) = to_nat b + 2 * row_number r

-- `((recvMsg[i] ^ s[i]) & block_mask).get<u64>(0)`.
unfoldable pub masked_number : ℕ → Row → Row → ℕ
masked_number psm_num got s = row_number (take psm_num (xor_row got s))

-- `Batch_PIS_recv_new` and `Batch_PIS_send_new` for one batch after step 1, with the shares of both
-- parties, the sender's random block and the messages of the random transfer.
unfoldable pub batch_pis : ℕ → (ℕ → Bool) → (ℕ → Bool) → Row → Row × Row → Result ℕ
batch_pis k eq_res0 eq_res1 r ot = do
  s ← psm_sums (compute_split_index k) eq_res0
  t ← psm_sums (compute_split_index k) eq_res1
  let s0 = parity (2 ^ k) eq_res0
  let halves = half_send_msg (pis_msg (parity (2 ^ k) eq_res1) (block_of t) r) ot
  let got = recv_block s0 (if s0 then ot.1 else ot.0) halves
  ok (masked_number k got (block_of s))
