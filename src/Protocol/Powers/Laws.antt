-- ===== src/Protocol/Powers/Laws.antt =====
-- The parties' values for a dimension add up to the mask, up to the power of the distance.
use native.Mathlib.Nat.{pow-suc, pow-zero, mul-add, add-mul, mul_comm, mul_assoc}
use opprf_fpsi.Prelude.{
  ℕ, ◌+◌, ◌-◌, ◌*◌, ◌^◌, ◌%◌, ◌≤◌, ◌<◌, ◌≡◌, refl, sym, ap, ◌∙◌, ◌⊎◌, inl, inr, u32, sub32, arith,
}
use opprf_fpsi.Grid.Powers.{
  fast_pow, combination, combination_loop, fast_pow-power, mod-mul, mul-mod,
}
use opprf_fpsi.Protocol.Powers.{
  prefix_val, mid_val, u_hat_loop, u_hat_candidate, v_candidate, v_hat_loop, v_hat, diff_below,
  diff_above, e_below, e_above,
}

two-choose-one : combination 32 2 1 ≡ 2
unfolding combination combination_loop
two-choose-one = refl

pow_one : (x : ℕ) → x ^ 1 ≡ x
pow_one x = pow-suc x 0 ∙ ap (λ (t : ℕ). t * x) (pow-zero x) ∙ omega arith

pow_two : (x : ℕ) → x ^ 2 ≡ x * x
pow_two x = pow-suc x 1 ∙ ap (λ (t : ℕ). t * x) (pow_one x)

power_1 : (x : ℕ) → fast_pow 32 x 1 ≡ x % 2 ^ 32
power_1 x = fast_pow-power 32 x 1 (omega arith) (omega arith) (omega arith) ∙ ap u32 (pow_one x)

v_hat-line :
    (a0 ap b_delta mask diff e : ℕ) (a_vole c_vole d_vole : ℕ → ℕ)
    → ap < 2 ^ 32
    → mask < 2 ^ 32
    → u32 (
        v_hat 1
          (v_candidate 1 b_delta mask (prefix_val 1 a0 ap a_vole diff) d_vole e)
          ap
          a_vole
          c_vole
        + (diff + e))
      ≡ mask
unfolding v_hat v_candidate u_hat_candidate prefix_val v_hat_loop
v_hat-line a0 ap b mask diff e a c d small hm = rw (power_1 diff) (omega arith)

power_2 : (x : ℕ) → fast_pow 32 x 2 ≡ x * x % 2 ^ 32
power_2 x = fast_pow-power 32 x 2 (omega arith) (omega arith) (omega arith) ∙ ap u32 (pow_two x)

-- `2 * e` modulo the word.
mid_val-two : (e : ℕ) → mid_val 2 (u32 e) 1 ≡ u32 (2 * e)
unfolding mid_val
mid_val-two e = rw (two-choose-one, power_1 (u32 e)) (omega arith)

-- Two products with one reduced factor.
times_sum : (m x y : ℕ) → u32 (m * u32 (x + y)) ≡ u32 (m * x + m * y)
times_sum m x y = mul-mod m (x + y) (2 ^ 32) ∙ ap u32 (mul-add m x y)

sum_times : (x y m : ℕ) → u32 (u32 (x + y) * m) ≡ u32 (x * m + y * m)
sum_times x y m = mod-mul (x + y) m (2 ^ 32) ∙ ap u32 (add-mul x y m)

both_cut : (x y : ℕ) → u32 (u32 x * u32 y) ≡ u32 (x * y)
both_cut x y = mod-mul x (u32 y) (2 ^ 32) ∙ mul-mod x y (2 ^ 32)

square_sum : (x y : ℕ) → (x + y) ^ 2 ≡ x * x + 2 * y * x + y * y
square_sum x y =
    pow_two (x + y)
    ∙ omega
        (arith, mul-add (x + y) x y, add-mul x y x, add-mul x y y, mul_comm x y, mul_assoc 2 y x)

-- The sum of the words, once the products are named.
add_up :
    (a1 mask d2 e2 mu mv c d p q b s : ℕ)
    → a1 < 2 ^ 32
    → mask < 2 ^ 32
    → d < 2 ^ 32
    → mu ≡ u32 (p + q)
    → mv ≡ u32 (p + b)
    → c ≡ u32 (b + d)
    → u32 s ≡ u32 (d2 + e2 + q)
    → u32
        (u32 (u32 (a1 + sub32 mask (u32 (u32 (u32 (a1 + d2) + e2) + sub32 mu d))) + sub32 mv c) + s)
      ≡ mask
add_up a1 mask d2 e2 mu mv c d p q b s h1 h2 h3 e1 e2' e3 e4 = omega arith

v_hat-square :
    (a0 a1 b_delta mask diff e : ℕ) (a_vole c_vole d_vole : ℕ → ℕ)
    → a1 < 2 ^ 32
    → mask < 2 ^ 32
    → d_vole 0 < 2 ^ 32
    → c_vole 0 ≡ u32 (a_vole 0 * b_delta + d_vole 0)
    → u32 (
        v_hat 2
          (v_candidate 2 b_delta mask (prefix_val 2 a0 a1 a_vole diff) d_vole e)
          a1
          a_vole
          c_vole
        + (diff + e) ^ 2)
      ≡ mask
unfolding v_hat v_candidate u_hat_candidate prefix_val v_hat_loop u_hat_loop
v_hat-square a0 a1 b mask diff e a c d small hm hd vole =
    let mid = u32 (2 * e) in
    let e_square = both_cut e e in
    let cross = both_cut (2 * e) diff in
    rw (power_1 diff, power_2 diff, power_2 (u32 e), mid_val-two e)
      (add_up a1 mask (u32 (diff * diff)) (u32 (u32 e * u32 e)) (u32 (mid * u32 (a 0 + u32 diff)))
        (u32 (u32 (mid + b) * a 0)) (c 0) (d 0) (mid * a 0) (mid * u32 diff) (b * a 0)
        ((diff + e) ^ 2) small hm hd (times_sum mid (a 0) (u32 diff)) (sum_times mid b (a 0))
        (vole ∙ ap (λ (t : ℕ). u32 (t + d 0)) (mul_comm (a 0) b))
        (omega (arith, square_sum diff e, e_square, cross)))

v_hat-word :
    (metric : ℕ) (selected : ℕ → ℕ) (ap : ℕ) (a_vole c_vole : ℕ → ℕ)
    → (metric ≡ 1) ⊎ (metric ≡ 2)
    → v_hat metric selected ap a_vole c_vole < 2 ^ 32
unfolding v_hat v_hat_loop
v_hat-word metric selected ap a c (inl e) = rw e (omega arith)
v_hat-word metric selected ap a c (inr e) = rw e (omega arith)

-- For the sums of absolute values and of squares: if the masks and the shares of the VOLE are words,
-- and the VOLE is valid, then what the receiver computes from the row that is selected for a prefix,
-- plus the power of the sum of both differences, is the sender's mask modulo `2 ^ 32`.
pub v_hat-power :
    (metric a0 ap b_delta mask diff e : ℕ) (a_vole c_vole d_vole : ℕ → ℕ)
    → (metric ≡ 1) ⊎ (metric ≡ 2)
    → ap < 2 ^ 32
    → mask < 2 ^ 32
    → d_vole 0 < 2 ^ 32
    → c_vole 0 ≡ u32 (a_vole 0 * b_delta + d_vole 0)
    → u32 (
        v_hat metric
          (v_candidate metric b_delta mask (prefix_val metric a0 ap a_vole diff) d_vole e)
          ap
          a_vole
          c_vole
        + (diff + e) ^ metric)
      ≡ mask
v_hat-power metric a0 a1 b mask diff e a c d (inl one) small hm hd vole =
    rw (one, pow_one (diff + e)) (v_hat-line a0 a1 b mask diff e a c d small hm)
v_hat-power metric a0 a1 b mask diff e a c d (inr two) small hm hd vole =
    rw two (v_hat-square a0 a1 b mask diff e a c d small hm hd vole)

-- The distance in one dimension.
abbrev pub distance : ℕ → ℕ → ℕ
distance x y = x - y + (y - x)

-- A prefix at or below the receiver's coordinate `x` whose last value is `up`, or one above it whose
-- first value is `low`, that begins the sender's coordinate `y`.
abbrev pub Between : ℕ → ℕ → ℕ → Type 0
Between a b c = (a ≤ b) × (b ≤ c)

pub diff_below-e_below :
    (x up y : ℕ) → Between y up x → x < 2 ^ 64 → diff_below x up + e_below up y ≡ x - y
unfolding diff_below e_below
diff_below-e_below x up y h hx = omega (arith, h.0, h.1)

pub diff_above-e_above :
    (x low y : ℕ) → Between x low y → y < 2 ^ 64 → diff_above x low + e_above low y ≡ y - x
unfolding diff_above e_above
diff_above-e_above x low y h hy = omega (arith, h.0, h.1)

-- The difference that is programmed for the prefix and the one that the sender adds.
abbrev pub Meets : ℕ → ℕ → ℕ → ℕ → Type 0
Meets x y diff e =
    ((up : ℕ) × Between y up x × (diff ≡ diff_below x up) × (e ≡ e_below up y))
    ⊎ ((low : ℕ) × Between x low y × (diff ≡ diff_above x low) × (e ≡ e_above low y))

Meets-distance :
    (x y diff e : ℕ) → x < 2 ^ 64 → y < 2 ^ 64 → Meets x y diff e → diff + e ≡ distance x y
Meets-distance x y diff e hx hy (inl (up, h, p, q)) =
    let total = diff_below-e_below x up y h hx in omega (arith, h.0, h.1)
Meets-distance x y diff e hx hy (inr (low, h, p, q)) =
    let total = diff_above-e_above x low y h hy in omega (arith, h.0, h.1)

module _ (metric a0 a_p b_delta mask diff e x y : ℕ) (a_vole c_vole d_vole : ℕ → ℕ)
    (m : (metric ≡ 1) ⊎ (metric ≡ 2)) (small : a_p < 2 ^ 32) (hm : mask < 2 ^ 32)
    (hd : d_vole 0 < 2 ^ 32) (vole : c_vole 0 ≡ u32 (a_vole 0 * b_delta + d_vole 0))
    (hx : x < 2 ^ 64) (hy : y < 2 ^ 64) (met : Meets x y diff e) where
  abbrev share : ℕ
  share =
      v_hat metric (v_candidate metric b_delta mask (prefix_val metric a0 a_p a_vole diff) d_vole e)
        a_p a_vole c_vole

  share-distance : u32 (share + distance x y ^ metric) ≡ mask
  share-distance =
      ap (λ (t : ℕ). u32 (share + t ^ metric)) (sym (Meets-distance x y diff e hx hy met))
      ∙ v_hat-power metric a0 a_p b_delta mask diff e a_vole c_vole d_vole m small hm hd vole

  share-word : share < 2 ^ 32
  share-word =
      v_hat-word metric
        (v_candidate metric b_delta mask (prefix_val metric a0 a_p a_vole diff) d_vole e) a_p a_vole
        c_vole m

  -- For the sums of absolute values and of squares, with words for the masks, a valid VOLE, and a
  -- prefix on either side of the receiver's coordinate that begins the sender's: if the mask is at
  -- least the power of the distance, then the receiver's share is the mask less that power.
  pub v_hat-share :
      distance x y ^ metric ≤ mask
      → v_hat metric
          (v_candidate metric b_delta mask (prefix_val metric a0 a_p a_vole diff) d_vole e)
          a_p
          a_vole
          c_vole
        ≡ mask - distance x y ^ metric
  v_hat-share fits = omega (arith, share-distance, share-word)

  -- For the sums of absolute values and of squares, with words for the masks, a valid VOLE, and a
  -- prefix on either side of the receiver's coordinate that begins the sender's: if the mask is
  -- below the power of the distance, which is a word, then the receiver's share wraps around: it is
  -- above the mask by what the power misses to `2 ^ 32`.
  pub v_hat-wraps :
      mask < distance x y ^ metric
      → distance x y ^ metric < 2 ^ 32
      → v_hat metric
          (v_candidate metric b_delta mask (prefix_val metric a0 a_p a_vole diff) d_vole e)
          a_p
          a_vole
          c_vole
        ≡ mask + (2 ^ 32 - distance x y ^ metric)
  v_hat-wraps short word_power = omega (arith, share-distance, share-word)
