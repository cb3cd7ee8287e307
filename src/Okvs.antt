-- ===== src/Okvs.antt =====
-- `fpsi/rb_okvs/rb_okvs.cpp`: the random-band key-value store over blocks, `RBOKVS`.
pub mod Values
pub mod Row
pub mod Solve
pub mod Threads
pub mod Encode
pub mod Hash
pub mod Insert
use opprf_fpsi.Prelude.{ℕ, ◌+◌, ◌-◌, ◌/◌}

-- The fields of `RBOKVS` that its operations read; the generator `mPrng` is an argument of `encode`.
pub record Rbokvs (Block : Type 0) : Type 0 where
  pub m_n : ℕ
  pub m_size : ℕ
  pub m_w : ℕ
  pub m_r_pos : Block
  pub m_r_band : Block

-- `divCeil` of cryptoTools: the quotient, rounded up.
unfoldable pub div_ceil : ℕ → ℕ → ℕ
div_ceil a b = (a + b - 1) / b

abbrev pub w_blocks : {Block : Type 0} → Rbokvs Block → ℕ
w_blocks o = div_ceil o.m_w 128
