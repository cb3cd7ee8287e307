-- ===== src/Okvs/Row.antt =====
-- A row of the band matrix, and `RBOKVS::reformalize`. The `u64` words of `data` are rows of 64
-- bits, the most significant bit first, so that bit `k` of the band is bit `k` of their sequence.
pub mod Bits
pub mod Shift
pub mod Words
pub mod Laws
use opprf_fpsi.Prelude.{
  ℕ, zero, suc, ◌+◌, ◌-◌, ◌*◌, ◌≡◌, Bool, true, false, not, ◌&&◌, List, [], ◌∷◌, ◌++◌, drop, take,
  replicate, if◌then◌else◌, ◌==◌, to_nat, u64, sub64,
}
use opprf_fpsi.Okvs.Values.{Values}

abbrev pub Word : Type 0
Word = List Bool

pub record MatrixRow (Value : Type 0) : Type 0 where
  pub start_pos : ℕ
  pub words : List Word
  pub val : Value

pub data EncodeStatus : Type 0 where
  success : EncodeStatus
  fail : EncodeStatus
  all_zero : EncodeStatus

abbrev pub zero_word : Word
zero_word = replicate 64 false

unfoldable pub is_zero_word : Word → Bool
is_zero_word [] = true
is_zero_word (b ∷ w) = not b && is_zero_word w

-- The loop for the first block that is not zero; a block is two words.
unfoldable pub num_zero_blocks : List Word → ℕ
num_zero_blocks [] = 0
num_zero_blocks (lo ∷ []) = 0
num_zero_blocks (lo ∷ hi ∷ words) =
    if is_zero_word lo && is_zero_word hi then suc (num_zero_blocks words) else 0

-- The word under the pointer.
unfoldable pub first_word : List Word → Word
first_word [] = []
first_word (w ∷ words) = w

unfoldable pub left_shift : List Word → ℕ
left_shift words =
    let zeros = num_zero_blocks words in
    to_nat (is_zero_word (first_word (drop (2 * zeros) words))) + 2 * zeros

-- `__builtin_clzll`.
unfoldable pub leading_zeros : Word → ℕ
leading_zeros [] = 0
leading_zeros (true ∷ w) = 0
leading_zeros (false ∷ w) = suc (leading_zeros w)

-- `ptr[i] = (ptr[i] << n) | (ptr[i + 1] >> (64 - n))`, and the last word by itself.
unfoldable pub shift_words : ℕ → List Word → List Word
shift_words n [] = []
shift_words n (w ∷ []) = (drop n w ++ replicate n false) ∷ []
shift_words n (w ∷ v ∷ words) = (drop n w ++ take n v) ∷ shift_words n (v ∷ words)

unfoldable pub shift_first : List Word → List Word
shift_first words =
    let n = leading_zeros (first_word words) in if n == 0 then words else shift_words n words

module _ {Value : Type 0} where
  -- The two shifts: by whole words, then by the zeros that lead the first word.
  unfoldable pub shift_row : MatrixRow Value → MatrixRow Value
  shift_row row =
      let n = left_shift row.words in
      let ptr = drop n row.words in
      record {
        start_pos = u64 (u64 (row.start_pos + n * 64) + leading_zeros (first_word ptr));
        words = shift_first ptr ++ replicate n zero_word;
        val = row.val;
      }

  -- A row whose start position is `-1`.
  unfoldable pub meaningless : MatrixRow Value → MatrixRow Value
  meaningless row = record { start_pos = sub64 0 1; words = row.words; val = row.val }

  unfoldable pub reformalize : Values Value → ℕ → MatrixRow Value → EncodeStatus × MatrixRow Value
  reformalize V w_blocks row =
      if num_zero_blocks row.words == w_blocks
      then if V.is_zero row.val then (all_zero, meaningless row) else (fail, row)
      else (success, shift_row row)
