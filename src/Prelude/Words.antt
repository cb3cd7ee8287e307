-- ===== src/Prelude/Words.antt =====
-- 64-bit and 32-bit words: wrap-around, bits and shifts as arithmetic.
use Prim.Native.Nat.{ℕ, zero, suc, ◌+◌, ◌-◌, ◌*◌, ◌/◌, ◌%◌, ◌^◌, ◌<◌}
use mathlib.Core.Path.{◌≡◌, sym, ap, ◌∙◌}
use mathlib.Core.Logic.{inl, inr}
use mathlib.Core.Bool.{Bool}
use native.Mathlib.Omega.{arith}
use native.Mathlib.Nat.{
  pow-zero, pow-suc, one-le-pow, div-div-eq-div-mul, mul_comm, mul_assoc, suc-add, mod-lt,
  mod-eq_of_lt, mul-add-mod_self_right, div-add-mod',
}
use opprf_fpsi.Prelude.Tests.{◌==◌, to_nat, Bool-cases}

abbrev pub u64 : ℕ → ℕ
u64 n = n % 2 ^ 64

abbrev pub u32 : ℕ → ℕ
u32 n = n % 2 ^ 32

-- `a - b` on u64 and on u32, for operands in range.
abbrev pub sub64 : ℕ → ℕ → ℕ
sub64 a b = (a + 2 ^ 64 - b) % 2 ^ 64

abbrev pub sub32 : ℕ → ℕ → ℕ
sub32 a b = (a + 2 ^ 32 - b) % 2 ^ 32

-- The bit `i` of a word, from the low end.
abbrev pub bit : ℕ → ℕ → Bool
bit x i = x / 2 ^ i % 2 == 1

pub pow_pos : (k : ℕ) → 0 < 2 ^ k
pow_pos k = one-le-pow k 2 (omega arith)

pub div-pow-suc : (x k : ℕ) → x / 2 ^ suc k ≡ x / 2 ^ k / 2
div-pow-suc x k = rw (pow-suc 2 k) (sym (div-div-eq-div-mul x (2 ^ k) 2))

pub pow-add : (n k : ℕ) → 2 ^ (n + k) ≡ 2 ^ n * 2 ^ k
pow-add zero k = rw (pow-zero 2) (ground arith)
pow-add (suc n) k =
    rw (suc-add n k, pow-suc 2 (n + k), pow-suc 2 n, pow-add n k)
      (mul_assoc (2 ^ n) (2 ^ k) 2
        ∙ ap (λ (t : ℕ). 2 ^ n * t) (mul_comm (2 ^ k) 2)
        ∙ sym (mul_assoc (2 ^ n) 2 (2 ^ k)))

pub div-pow-add : (x n k : ℕ) → x / 2 ^ (n + k) ≡ x / 2 ^ k / 2 ^ n
div-pow-add x n k =
    rw (pow-add n k, mul_comm (2 ^ n) (2 ^ k)) (sym (div-div-eq-div-mul x (2 ^ k) (2 ^ n)))

-- A quotient and a remainder determine the number's remainder and quotient.
pub mod_unique : (q r m : ℕ) → r < m → (q * m + r) % m ≡ r
mod_unique q r m h = mul-add-mod_self_right q m r ∙ mod-eq_of_lt h

-- The remainder by the next power of two is the top bit and the remainder by this one.
pub mod-pow-suc : (x k : ℕ) → x % 2 ^ suc k ≡ to_nat (bit x k) * 2 ^ k + x % 2 ^ k
mod-pow-suc x k = rw (pow-suc 2 k) (
    ap (λ (t : ℕ). t % (2 ^ k * 2)) split
    ∙ mod_unique (x / 2 ^ k / 2) (to_nat (bit x k) * 2 ^ k + x % 2 ^ k) (2 ^ k * 2) small)
  where
    low : x % 2 ^ k < 2 ^ k
    low = mod-lt x (pow_pos k)

    digit : to_nat (bit x k) ≡ x / 2 ^ k % 2
    digit = ground arith

    whole : x / 2 ^ k * 2 ^ k + x % 2 ^ k ≡ x
    whole = div-add-mod' x (2 ^ k)

    small : to_nat (bit x k) * 2 ^ k + x % 2 ^ k < 2 ^ k * 2
    small = elim (Bool-cases (bit x k)) [
      | inl e ↦ rw e (omega (arith, low))
      | inr e ↦ rw e (omega (arith, low))
    ]

    split : x ≡ x / 2 ^ k / 2 * (2 ^ k * 2) + (to_nat (bit x k) * 2 ^ k + x % 2 ^ k)
    split = omega (
      arith,
      whole,
      digit,
      ap (λ (t : ℕ). t * 2 ^ k) (div-add-mod' (x / 2 ^ k) 2),
      ap (λ (t : ℕ). t * 2 ^ k) digit,
    )

pub pow-add-one : (n : ℕ) → 2 ^ (n + 1) ≡ 2 ^ n * 2
pow-add-one n = pow-add n 1

pub pred_suc : (n : ℕ) → suc n - 1 ≡ n
pred_suc n = omega arith
