-- ===== src/Mapping/Field.antt =====
-- Blocks of 128 bits as cryptoTools offers them: `^`, `ZeroBlock` and `gf128Mul`, with the laws
-- of a field of characteristic 2 that the exchange of identifiers relies on.
use opprf_fpsi.Prelude.{◌≡◌, sym, ap, ◌∙◌, List, [], ◌∷◌}

pub record Field (Block : Type 0) : Type 0 where
  pub zero_block : Block
  pub xor : Block → Block → Block
  pub mul : Block → Block → Block
  pub xor_comm : (a b : Block) → xor a b ≡ xor b a
  pub xor_assoc : (a b c : Block) → xor (xor a b) c ≡ xor a (xor b c)
  pub xor-zero : (a : Block) → xor a zero_block ≡ a
  pub xor_self : (a : Block) → xor a a ≡ zero_block
  pub mul_comm : (a b : Block) → mul a b ≡ mul b a
  pub mul_assoc : (a b c : Block) → mul (mul a b) c ≡ mul a (mul b c)
  pub mul-xor : (a b c : Block) → mul a (xor b c) ≡ xor (mul a b) (mul a c)

module _ {Block : Type 0} (F : Field Block) where
  open F use {
    zero_block, xor, mul, xor_comm, xor_assoc, xor-zero, xor_self, mul_comm, mul_assoc, mul-xor,
  }

  pub zero-xor : (a : Block) → xor zero_block a ≡ a
  zero-xor a = xor_comm zero_block a ∙ xor-zero a

  pub xor_left_comm : (a b c : Block) → xor a (xor b c) ≡ xor b (xor a c)
  xor_left_comm a b c = sym (xor_assoc a b c) ∙ ap (λ t. xor t c) (xor_comm a b) ∙ xor_assoc b a c

  pub xor_cancel : (a b : Block) → xor a (xor a b) ≡ b
  xor_cancel a b = sym (xor_assoc a a b) ∙ ap (λ t. xor t b) (xor_self a) ∙ zero-xor b

  -- The sum of the blocks of a list.
  abbrev pub total : List Block → Block
  total [] = zero_block
  total (x ∷ xs) = xor x (total xs)
