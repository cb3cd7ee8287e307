-- ===== src/Okvs/Values.antt =====
-- The values of the store: a block, or `VALUE_LENGTH_IN_BLOCK` blocks side by side. The code of
-- `fpsi/rb_okvs/rb_okvs.cpp` that takes blocks and the code that takes vectors of blocks differ in
-- these operations only.
use opprf_fpsi.Prelude.{ℕ, zero, suc, ◌≡◌, refl, sym, ap, ap₂, ◌∙◌, Bool, true, ◌&&◌, arith}

pub record Values (Value : Type 0) : Type 0 where
  pub zero_value : Value
  pub xor : Value → Value → Value
  pub is_zero : Value → Bool
  pub xor_comm : (a b : Value) → xor a b ≡ xor b a
  pub xor_assoc : (a b c : Value) → xor (xor a b) c ≡ xor a (xor b c)
  pub xor-zero : (a : Value) → xor a zero_value ≡ a
  pub xor_self : (a : Value) → xor a a ≡ zero_value
  pub zero-is_zero : is_zero zero_value ≡ true
  pub is_zero-eq : (a : Value) → is_zero a ≡ true → a ≡ zero_value

module _ {Value : Type 0} (V : Values Value) where
  open V use {zero_value, xor, xor_comm, xor_assoc, xor-zero, xor_self}

  pub zero-xor : (a : Value) → xor zero_value a ≡ a
  zero-xor a = xor_comm zero_value a ∙ xor-zero a

  pub xor_left_comm : (a b c : Value) → xor a (xor b c) ≡ xor b (xor a c)
  xor_left_comm a b c = sym (xor_assoc a b c) ∙ ap (λ t. xor t c) (xor_comm a b) ∙ xor_assoc b a c

  pub xor_cancel : (a b : Value) → xor a (xor a b) ≡ b
  xor_cancel a b = sym (xor_assoc a a b) ∙ ap (λ t. xor t b) (xor_self a) ∙ zero-xor b

  pub xor_interchange : (a b c d : Value) → xor (xor a b) (xor c d) ≡ xor (xor a c) (xor b d)
  xor_interchange a b c d =
      xor_assoc a b (xor c d) ∙ ap (xor a) (xor_left_comm b c d) ∙ sym (xor_assoc a c (xor b d))

-- A vector of `VALUE_LENGTH_IN_BLOCK` blocks.
unfoldable pub Blocks : Type 0 → ℕ → Type 0
Blocks Block zero = Unit {0}
Blocks Block (suc n) = Block × Blocks Block n

module _ {Block : Type 0} (B : Values Block) where
  -- `ZeroBlocks`.
  unfoldable pub zero_blocks : (n : ℕ) → Blocks Block n
  unfolding Blocks
  zero_blocks zero = tt
  zero_blocks (suc n) = (B.zero_value, zero_blocks n)

  unfoldable pub blocks_xor : (n : ℕ) → Blocks Block n → Blocks Block n → Blocks Block n
  unfolding Blocks
  blocks_xor zero a b = tt
  blocks_xor (suc n) (x, a) (y, b) = (B.xor x y, blocks_xor n a b)

  -- The loop that leaves `flag` at 0.
  unfoldable pub all_zero_blocks : (n : ℕ) → Blocks Block n → Bool
  unfolding Blocks
  all_zero_blocks zero a = true
  all_zero_blocks (suc n) (x, a) = B.is_zero x && all_zero_blocks n a

  blocks_comm : (n : ℕ) (a b : Blocks Block n) → blocks_xor n a b ≡ blocks_xor n b a
  unfolding Blocks blocks_xor
  blocks_comm zero a b = refl
  blocks_comm (suc n) (x, a) (y, b) = ap₂ (λ s t. (s, t)) (B.xor_comm x y) (blocks_comm n a b)

  blocks_assoc :
      (n : ℕ) (a b c : Blocks Block n)
      → blocks_xor n (blocks_xor n a b) c ≡ blocks_xor n a (blocks_xor n b c)
  unfolding Blocks blocks_xor
  blocks_assoc zero a b c = refl
  blocks_assoc (suc n) (x, a) (y, b) (z, c) =
      ap₂ (λ s t. (s, t)) (B.xor_assoc x y z) (blocks_assoc n a b c)

  blocks_right : (n : ℕ) (a : Blocks Block n) → blocks_xor n a (zero_blocks n) ≡ a
  unfolding Blocks blocks_xor zero_blocks
  blocks_right zero a = refl
  blocks_right (suc n) (x, a) = ap₂ (λ s t. (s, t)) (B.xor-zero x) (blocks_right n a)

  blocks_self : (n : ℕ) (a : Blocks Block n) → blocks_xor n a a ≡ zero_blocks n
  unfolding Blocks blocks_xor zero_blocks
  blocks_self zero a = refl
  blocks_self (suc n) (x, a) = ap₂ (λ s t. (s, t)) (B.xor_self x) (blocks_self n a)

  zero_blocks_lem : (n : ℕ) → all_zero_blocks n (zero_blocks n) ≡ true
  unfolding all_zero_blocks zero_blocks
  zero_blocks_lem zero = refl
  zero_blocks_lem (suc n) = rw (B.zero-is_zero, zero_blocks_lem n) refl

  all_zero_blocks_lem :
      (n : ℕ) (a : Blocks Block n) → all_zero_blocks n a ≡ true → a ≡ zero_blocks n
  unfolding Blocks all_zero_blocks zero_blocks
  all_zero_blocks_lem zero a e = refl
  all_zero_blocks_lem (suc n) (x, a) e =
      ap₂ (λ s t. (s, t)) (B.is_zero-eq x (ground arith)) (all_zero_blocks_lem n a (ground arith))

  -- Vectors of blocks as values.
  unfoldable pub long_values : (n : ℕ) → Values (Blocks Block n)
  unfolding blocks_comm blocks_assoc blocks_right blocks_self zero_blocks_lem all_zero_blocks_lem
  long_values n = record {
    zero_value = zero_blocks n;
    xor = blocks_xor n;
    is_zero = all_zero_blocks n;
    xor_comm = blocks_comm n;
    xor_assoc = blocks_assoc n;
    xor-zero = blocks_right n;
    xor_self = blocks_self n;
    zero-is_zero = zero_blocks_lem n;
    is_zero-eq = all_zero_blocks_lem n;
  }
