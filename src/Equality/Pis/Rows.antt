-- ===== src/Equality/Pis/Rows.antt =====
-- Rows under `xor_row`, and the number that a row is.
use native.Mathlib.Nat.{pow-suc}
use opprf_fpsi.Prelude.{
  ℕ, zero, suc, ◌+◌, ◌-◌, ◌*◌, ◌/◌, ◌%◌, ◌^◌, ◌≤◌, ◌<◌, ◌≡◌, refl, ap, ap₂, ◌∙◌, false, ◌==◌, [],
  ◌∷◌, ◌++◌, take, replicate, length, bit, to_nat, arith, length-append, length-replicate,
  div-pow-suc,
}
use opprf_fpsi.Equality.Round.{Row}
use opprf_fpsi.Equality.Round.Step.{xor_row}
use opprf_fpsi.Equality.Pis.{block_of, row_number}

pub xor_row_comm : (a b : Row) → xor_row a b ≡ xor_row b a
xor_row_comm [] [] = refl
xor_row_comm [] (y ∷ b) = refl
xor_row_comm (x ∷ a) [] = refl
xor_row_comm (x ∷ a) (y ∷ b) = ap₂ ◌∷◌ (ground arith) (xor_row_comm a b)

pub xor_row_assoc : (a b c : Row) → xor_row (xor_row a b) c ≡ xor_row a (xor_row b c)
xor_row_assoc [] [] c = refl
xor_row_assoc [] (y ∷ b) [] = refl
xor_row_assoc [] (y ∷ b) (z ∷ c) = refl
xor_row_assoc (x ∷ a) [] c = refl
xor_row_assoc (x ∷ a) (y ∷ b) [] = refl
xor_row_assoc (x ∷ a) (y ∷ b) (z ∷ c) = ap₂ ◌∷◌ (ground arith) (xor_row_assoc a b c)

-- A row added to another of its length twice.
pub xor_row_again : (a b : Row) → length a ≡ length b → xor_row a (xor_row a b) ≡ b
xor_row_again [] [] e = refl
xor_row_again [] (y ∷ b) e = absurd (omega arith)
xor_row_again (x ∷ a) [] e = absurd (omega arith)
xor_row_again (x ∷ a) (y ∷ b) e = ap₂ ◌∷◌ (ground arith) (xor_row_again a b (omega arith))

pub xor_row_zeros : (a : Row) (n : ℕ) → length a ≡ n → xor_row a (replicate n false) ≡ a
xor_row_zeros [] n e = refl
xor_row_zeros (x ∷ a) zero e = absurd (omega arith)
xor_row_zeros (x ∷ a) (suc n) e = ap₂ ◌∷◌ (ground arith) (xor_row_zeros a n (omega arith))

take-front : (n : ℕ) (a b : Row) → length a ≡ n → take n (a ++ b) ≡ a
take-front zero [] b e = refl
take-front zero (x ∷ a) b e = absurd (omega arith)
take-front (suc n) [] b e = absurd (omega arith)
take-front (suc n) (x ∷ a) b e = ap (λ t. x ∷ t) (take-front n a b (omega arith))

pub take-block_of : (n : ℕ) (a : Row) → length a ≡ n → take n (block_of a) ≡ a
unfolding block_of
take-block_of n a e = take-front n a (replicate (128 - length a) false) e

pub length-block_of : (a : Row) → length a ≤ 128 → length (block_of a) ≡ 128
unfolding block_of
length-block_of a small =
    length-append a (replicate (128 - length a) false)
    ∙ omega (arith, small, length-replicate (128 - length a) false)

-- The bits of `x` from `j` on.
abbrev pub bits_from : ℕ → ℕ → ℕ → Row
bits_from x j zero = []
bits_from x j (suc left) = bit x j ∷ bits_from x (suc j) left

bit_split : (x : ℕ) → to_nat (x % 2 == 1) + 2 * (x / 2) ≡ x
bit_split x = ground arith

pub row_number-bits_from :
    (x j left : ℕ) → x / 2 ^ j < 2 ^ left → row_number (bits_from x j left) ≡ x / 2 ^ j
unfolding row_number
row_number-bits_from x j zero low = omega arith
row_number-bits_from x j (suc left) low =
    let half : x / 2 ^ suc j ≡ x / 2 ^ j / 2 = div-pow-suc x j in
    rw (row_number-bits_from x (suc j) left (omega (arith, half, low, pow-suc 2 left)), half)
      (bit_split (x / 2 ^ j))
