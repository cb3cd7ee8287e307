-- ===== src/Tests/Okvs.antt =====
-- Runs of the key-value store on two keys and 64 columns, and each of its theorems at such inputs.
use opprf_fpsi.Prelude.{
  ℕ, zero, suc, ◌≡◌, refl, ◌⊎◌, Bool, true, false, not, ◌⊕◌, List, [], ◌∷◌, map, All, replicate,
  arith, ltb, Result, ok, err, undefined, Returns, length-replicate, collect,
}
use opprf_fpsi.Okvs.{Rbokvs, div_ceil}
use opprf_fpsi.Okvs.Values.{Values}
use opprf_fpsi.Okvs.Row.{
  EncodeStatus, success, fail, reformalize, num_zero_blocks, is_zero_word, first_word,
  leading_zeros, left_shift, meaningless, shift_first, shift_row, shift_words, MatrixRow, zero_word,
}
use opprf_fpsi.Okvs.Row.Bits.{pick, Clear, Clear-zeros}
use opprf_fpsi.Okvs.Row.Laws.{band, IsRow, Reformalized, reformalize-lem}
use opprf_fpsi.Okvs.Insert.{
  set_at, put, put_status, reformalize_at, xor_words, xor_rows, absorb, claim, on_success,
  insert_loop, insert,
}
use opprf_fpsi.Okvs.Hash.{
  Byte, zero_byte, bits_value, keep_bits, mask_last, mask_band, copy_words, hash_pos, hash_band,
}
use opprf_fpsi.Okvs.Hash.Laws.{IsByte, IsHash}
use opprf_fpsi.Okvs.Solve.{
  column, column_or_zero, xor_word, xor_bit, xor_bits, xor_band, clear_first, solve_row,
  solve_column, solve, decode,
}
use opprf_fpsi.Okvs.Encode.{
  blank_row, new_row, new_rows, new_table, unless_fail, insert_rows, solve_table, encode,
}
use opprf_fpsi.Okvs.Encode.Outcome.{encode-decode, encode-total, encode_solvable, decode_narrow}
use opprf_fpsi.Okvs.Threads.{decode_at, decode_all, decode_all-eq}

bit_comm : (a b : Bool) → a ⊕ b ≡ b ⊕ a
bit_comm a b = ground arith

bit_assoc : (a b c : Bool) → (a ⊕ b) ⊕ c ≡ a ⊕ (b ⊕ c)
bit_assoc a b c = ground arith

bit_zero : (a : Bool) → a ⊕ false ≡ a
bit_zero a = ground arith

bit_self : (a : Bool) → a ⊕ a ≡ false
bit_self a = ground arith

bit_is_zero : (a : Bool) → not a ≡ true → a ≡ false
bit_is_zero a e = ground arith

-- Single bits as values.
unfoldable bit_values : Values Bool
bit_values = record {
  zero_value = false;
  xor = ◌⊕◌;
  is_zero = not;
  xor_comm = bit_comm;
  xor_assoc = bit_assoc;
  xor-zero = bit_zero;
  xor_self = bit_self;
  zero-is_zero = refl;
  is_zero-eq = bit_is_zero;
}

-- A hash that marks the first bit for one key and the second bit for the other.
abbrev first_byte : Bool → Byte
first_byte true = true ∷ replicate 7 false
first_byte false = false ∷ true ∷ replicate 6 false

abbrev hash_bytes : Bool → Bool → ℕ → List Byte
hash_bytes seed key zero = []
hash_bytes seed key (suc n) = first_byte key ∷ replicate n zero_byte

zero_bytes : (n : ℕ) → All IsByte (replicate n zero_byte)
zero_bytes zero = tt
zero_bytes (suc n) = (refl, zero_bytes n)

abbrev store : Rbokvs Bool
store = record { m_n = 2; m_size = 64; m_w = 64; m_r_pos = true; m_r_band = false }

abbrev narrow_store : Rbokvs Bool
narrow_store = record { m_n = 2; m_size = 11; m_w = 11; m_r_pos = true; m_r_band = false }

first_byte-IsByte : (key : Bool) → IsByte (first_byte key)
first_byte-IsByte true = refl
first_byte-IsByte false = refl

hash_bytes-IsHash : (o : Rbokvs Bool) → IsHash hash_bytes o
hash_bytes-IsHash o seed key zero = (tt, refl)
hash_bytes-IsHash o seed key (suc n) =
    ((first_byte-IsByte key, zero_bytes n), rw (length-replicate n zero_byte) refl)

abbrev two_keys : List Bool
two_keys = true ∷ false ∷ []

abbrev two_vals : List Bool
two_vals = true ∷ true ∷ []

abbrev no_draws : ℕ → Bool
no_draws i = false

abbrev columns : Result (EncodeStatus × (ℕ → Bool)) → ℕ → Bool
columns (ok (status, output)) = output
columns (err e) = no_draws

abbrev status_of : {A : Type 0} → Result (EncodeStatus × A) → Result EncodeStatus
status_of (ok (status, a)) = ok status
status_of (err e) = err e

-- One key with two values: there are no such columns.
encode_fails :
    status_of (encode bit_values hash_bytes store (true ∷ true ∷ []) (true ∷ false ∷ []) no_draws)
    ≡ ok fail
unfolding bit_values div_ceil reformalize num_zero_blocks is_zero_word first_word leading_zeros
    left_shift meaningless shift_first shift_row shift_words pick set_at put put_status
    reformalize_at xor_words xor_rows absorb claim on_success insert_loop insert bits_value
    keep_bits mask_last mask_band copy_words hash_pos hash_band column column_or_zero xor_word
    xor_bit xor_bits xor_band clear_first solve_row solve_column solve blank_row new_row new_rows
    new_table unless_fail insert_rows solve_table encode
encode_fails = refl

encode_runs :
    encode bit_values hash_bytes store two_keys two_vals no_draws
    ≡ ok (success, columns (encode bit_values hash_bytes store two_keys two_vals no_draws))
unfolding bit_values div_ceil reformalize num_zero_blocks is_zero_word first_word leading_zeros
    left_shift meaningless shift_first shift_row shift_words pick set_at put put_status
    reformalize_at xor_words xor_rows absorb claim on_success insert_loop insert bits_value
    keep_bits mask_last mask_band copy_words hash_pos hash_band column column_or_zero xor_word
    xor_bit xor_bits xor_band clear_first solve_row solve_column solve blank_row new_row new_rows
    new_table unless_fail insert_rows solve_table encode
encode_runs = refl

encode-decode_example :
    map
      (decode bit_values store hash_bytes
        (columns (encode bit_values hash_bytes store two_keys two_vals no_draws)))
      two_keys
    ≡ map ok two_vals
encode-decode_example =
    encode-decode bit_values hash_bytes store (hash_bytes-IsHash store) (omega arith) (omega arith)
      (omega arith) two_keys two_vals no_draws refl refl
      (columns (encode bit_values hash_bytes store two_keys two_vals no_draws)) encode_runs

encode-total_example :
    Returns
      (encode bit_values hash_bytes store two_keys two_vals no_draws)
      (λ (s : EncodeStatus × (ℕ → Bool)). (s.0 ≡ success) ⊎ (s.0 ≡ fail))
encode-total_example =
    encode-total bit_values hash_bytes store (hash_bytes-IsHash store) (omega arith) (omega arith)
      (omega arith) two_keys two_vals no_draws refl refl

abbrev two_columns : ℕ → Bool
two_columns i = ltb i 2

two_columns-decode : map (decode bit_values store hash_bytes two_columns) two_keys ≡ map ok two_vals
unfolding bit_values div_ceil mask_band copy_words hash_pos hash_band column xor_bit xor_bits
    xor_band decode
two_columns-decode = refl

encode_solvable_example :
    Returns
      (encode bit_values hash_bytes store two_keys two_vals no_draws)
      λ (s : EncodeStatus × (ℕ → Bool)).
        (s.0 ≡ success) × (map (decode bit_values store hash_bytes s.1) two_keys ≡ map ok two_vals)
encode_solvable_example =
    encode_solvable bit_values hash_bytes store (hash_bytes-IsHash store) (omega arith)
      (omega arith) (omega arith) two_keys two_vals no_draws refl refl two_columns
      two_columns-decode

decode_narrow_example : decode bit_values narrow_store hash_bytes two_columns true ≡ err undefined
decode_narrow_example =
    decode_narrow bit_values hash_bytes narrow_store two_columns true
      (hash_bytes-IsHash narrow_store) (omega arith)

decode_all-eq_example :
    decode_all bit_values hash_bytes store two_columns (λ i. ltb i 2) 5 3
    ≡ collect (decode_at bit_values hash_bytes store two_columns (λ i. ltb i 2)) 0 5
decode_all-eq_example = decode_all-eq bit_values hash_bytes store two_columns (λ i. ltb i 2) 5 3

-- A row of one block whose first set bit is the third.
abbrev late_row : MatrixRow Bool
late_row = record {
  start_pos = 7;
  words = (false ∷ false ∷ true ∷ replicate 61 false) ∷ zero_word ∷ [];
  val = true;
}

late_row-IsRow : IsRow 1 64 late_row
late_row-IsRow = ((refl, (refl, tt)), refl, zeros_clear)
  where
    zeros_clear : Clear 64 (band late_row)
    zeros_clear = Clear-zeros 64 64 (false ∷ false ∷ true ∷ replicate 61 false) tt

reformalize-lem_example : Reformalized bit_values 1 64 late_row (reformalize bit_values 1 late_row)
reformalize-lem_example = reformalize-lem bit_values 1 64 late_row late_row-IsRow (omega arith)
