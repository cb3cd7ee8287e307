-- ===== src/Grid/Powers.antt =====
-- `fast_pow` of `fpsi/utils/dist_util.h`, into a word of `w` bits.
use native.Mathlib.Nat.{
  pow-zero, pow-suc, mul_comm, mul_assoc, add-mul, mul-add-mod_self_right, mod-mod_of_dvd,
  mod-eq_of_lt, div-add-mod', dvd-mul_right, mod-lt, pow-le-pow_right,
}
use opprf_fpsi.Prelude.{
  ℕ, zero, suc, ◌+◌, ◌*◌, ◌/◌, ◌%◌, ◌^◌, ◌≤◌, ◌<◌, ◌≡◌, refl, sym, ap, ◌∙◌, inl, inr, ◌==◌,
  if◌then◌else◌, arith, u64, ltb, pow-add, pow_pos, ◌-◌, Bool-cases,
}

-- The loop: `result *= base` is a product of 64 bits that is cut to `w`, `exp >>= 1` ends it after
-- as many rounds as `exp` has bits.
unfoldable pub power_loop : ℕ → ℕ → ℕ → ℕ → ℕ → ℕ
power_loop w zero result base exp = result
power_loop w (suc fuel) result base exp =
    let next = if exp % 2 == 1 then u64 (result * base) % 2 ^ w else result in
    let rest = power_loop w fuel next (u64 (base * base)) (exp / 2) in
    if exp == 0 then result else rest

unfoldable pub fast_pow : ℕ → ℕ → ℕ → ℕ
fast_pow w base exp = power_loop w 64 1 base exp

pub mod-mul : (a b m : ℕ) → a % m * b % m ≡ a * b % m
mod-mul a b m =
    sym (mul-add-mod_self_right (a / m * b) m (a % m * b))
    ∙ ap (λ (t : ℕ). t % m)
        (sym (
          ap (λ (t : ℕ). t * b) (sym (div-add-mod' a m))
          ∙ add-mul (a / m * m) (a % m) b
          ∙ ap (λ (t : ℕ). t + a % m * b)
              (mul_assoc (a / m) m b
                ∙ ap (λ (t : ℕ). a / m * t) (mul_comm m b)
                ∙ sym (mul_assoc (a / m) b m))))

pub mul-mod : (a b m : ℕ) → a * (b % m) % m ≡ a * b % m
mul-mod a b m =
    ap (λ (t : ℕ). t % m) (mul_comm a (b % m))
    ∙ mod-mul b a m
    ∙ ap (λ (t : ℕ). t % m) (mul_comm b a)

pub pow-mod : (a n m : ℕ) → (a % m) ^ n % m ≡ a ^ n % m
pow-mod a zero m = rw (pow-zero (a % m), pow-zero a) refl
pow-mod a (suc n) m =
    rw (pow-suc (a % m) n, pow-suc a n)
      (mul-mod ((a % m) ^ n) a m
        ∙ sym (mod-mul ((a % m) ^ n) a m)
        ∙ ap (λ (t : ℕ). t * a % m) (pow-mod a n m)
        ∙ mod-mul (a ^ n) a m)

pow-square : (a n : ℕ) → (a * a) ^ n ≡ a ^ (n + n)
pow-square a zero = rw (pow-zero (a * a), pow-zero a) (omega arith)
pow-square a (suc n) =
    let twice : suc n + suc n ≡ suc (suc (n + n)) = omega arith in
    rw (pow-suc (a * a) n, pow-square a n, twice, pow-suc a (suc (n + n)), pow-suc a (n + n))
      (sym (mul_assoc (a ^ (n + n)) a a))

module _ (w : ℕ) (small : w ≤ 64) where
  cut : (x : ℕ) → u64 x % 2 ^ w ≡ x % 2 ^ w
  cut x =
      let parts : 64 ≡ w + (64 - w) = omega arith in
      let split : 2 ^ 64 ≡ 2 ^ w * 2 ^ (64 - w) =
        ap (λ (t : ℕ). 2 ^ t) parts ∙ pow-add w (64 - w) in
      mod-mod_of_dvd (2 ^ w) x (rw split (dvd-mul_right (2 ^ w) (2 ^ (64 - w))))

  square-step :
      (next base h : ℕ) → next * u64 (base * base) ^ h % 2 ^ w ≡ next * base ^ (h + h) % 2 ^ w
  square-step next base h =
      let m = 2 ^ w in
      sym (mul-mod next (u64 (base * base) ^ h) m)
      ∙ ap (λ (t : ℕ). next * t % m)
          (sym (pow-mod (u64 (base * base)) h m)
            ∙ ap (λ (t : ℕ). t ^ h % m) (cut (base * base))
            ∙ pow-mod (base * base) h m
            ∙ ap (λ (t : ℕ). t % m) (pow-square base h))
      ∙ mul-mod next (base ^ (h + h)) m

  odd-step :
      (result base h : ℕ)
      → u64 (result * base) % 2 ^ w * base ^ (h + h) % 2 ^ w ≡ result * base ^ suc (h + h) % 2 ^ w
  odd-step result base h =
      ap (λ (t : ℕ). t * base ^ (h + h) % 2 ^ w) (cut (result * base))
      ∙ mod-mul (result * base) (base ^ (h + h)) (2 ^ w)
      ∙ ap (λ (t : ℕ). t % 2 ^ w)
          (mul_assoc result base (base ^ (h + h))
            ∙ ap (λ (t : ℕ). result * t)
                (mul_comm base (base ^ (h + h)) ∙ sym (pow-suc base (h + h))))

  power_loop-eq :
      (fuel result base exp : ℕ)
      → exp < 2 ^ fuel
      → result < 2 ^ w
      → power_loop w fuel result base exp ≡ result * base ^ exp % 2 ^ w
  unfolding power_loop
  power_loop-eq zero result base exp few fits =
      let none_left : exp ≡ 0 = omega arith in
      rw (none_left, pow-zero base)
        (sym (mod-eq_of_lt (omega arith)) ∙ ap (λ (t : ℕ). t % 2 ^ w) (omega arith))
  power_loop-eq (suc fuel) result base exp few fits = elim (Bool-cases (exp == 0)) [
    | inl e ↦
        let none_left : exp ≡ 0 = ground arith in
        rw (none_left, pow-zero base)
          (sym (mod-eq_of_lt (omega arith)) ∙ ap (λ (t : ℕ). t % 2 ^ w) (omega arith))
    | inr e ↦ elim (Bool-cases (exp % 2 == 1)) [
      | inl o ↦
          let odd : exp ≡ suc (exp / 2 + exp / 2) = ground arith in
          let cut_fits : u64 (result * base) % 2 ^ w < 2 ^ w =
            mod-lt (u64 (result * base)) (pow_pos w) in
          rw (e, o)
            (power_loop-eq fuel (u64 (result * base) % 2 ^ w) (u64 (base * base)) (exp / 2)
                (omega (arith, pow-suc 2 fuel)) cut_fits
              ∙ square-step (u64 (result * base) % 2 ^ w) base (exp / 2)
              ∙ odd-step result base (exp / 2)
              ∙ ap (λ (t : ℕ). result * base ^ t % 2 ^ w) (sym odd))
      | inr o ↦
          let even : exp ≡ exp / 2 + exp / 2 = ground arith in
          rw (e, o)
            (power_loop-eq fuel result (u64 (base * base)) (exp / 2) (omega (arith, pow-suc 2 fuel))
                fits
              ∙ square-step result base (exp / 2)
              ∙ ap (λ (t : ℕ). result * base ^ t % 2 ^ w) (sym even))
    ]
  ]

-- Into a word of 1 to 64 bits, `fast_pow` computes the power modulo the size of the word, for every
-- exponent of 64 bits.
pub fast_pow-power :
    (w base exp : ℕ) → 1 ≤ w → w ≤ 64 → exp < 2 ^ 64 → fast_pow w base exp ≡ base ^ exp % 2 ^ w
unfolding fast_pow
fast_pow-power w base exp pos small few =
    let one_fits : 1 < 2 ^ w =
      omega (arith, pow-le-pow_right {n = 2} (omega arith) {i = 1} {j = w} pos) in
    power_loop-eq w small 64 1 base exp few one_fits ∙ ap (λ (t : ℕ). t % 2 ^ w) (omega arith)

-- The loop of `combination`: a division after each product.
unfoldable pub combination_loop : ℕ → ℕ → ℕ → ℕ → ℕ → ℕ
combination_loop w n zero i result = result
combination_loop w n (suc left) i result =
    combination_loop w n left (i + 1) (result * (n - i) % 2 ^ w / (i + 1))

unfoldable pub combination : ℕ → ℕ → ℕ → ℕ
combination w n k =
    if ltb n k then 0 else combination_loop w n (if ltb (n - k) k then n - k else k) 0 1
