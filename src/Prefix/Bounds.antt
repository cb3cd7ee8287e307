-- ===== src/Prefix/Bounds.antt =====
-- `up_bound` and `low_bound` of `fpsi/utils/set_dec.cpp`: the ends of the block of values that a
-- prefix begins.
use native.Mathlib.Nat.{
  mod-eq_of_lt, mod-lt, div-add-mod', div-eq_of_lt-le, mul-add-mod_self_right, add-mul, mul_assoc,
  div-lt_iff_lt-mul, pow-suc,
}
use opprf_fpsi.Prelude.{
  ℕ, zero, suc, ◌+◌, ◌-◌, ◌*◌, ◌/◌, ◌%◌, ◌^◌, ◌≤◌, ◌<◌, ◌≡◌, ◌↔◌, refl, sym, ap, ap₂, ◌==◌, ◌∙◌,
  Bool, true, false, ◌++◌, List, [], ◌∷◌, arith, length, replicate, take, to_nat, pow_pos, pow-add,
  length-append, length-replicate,
}
use opprf_fpsi.Prefix.Strings.{
  to_bits, to_ullong, up_bound, low_bound, covers, take-to_bits, same-to_bits_iff, eq_of_same,
  same_refl,
}

pub to_ullong-lt : (s : List Bool) → to_ullong s < 2 ^ length s
unfolding to_ullong
to_ullong-lt [] = omega arith
to_ullong-lt (true ∷ s) = omega (arith, to_ullong-lt s, pow-suc 2 (length s))
to_ullong-lt (false ∷ s) = omega (arith, to_ullong-lt s, pow-suc 2 (length s))

to_ullong-append : (s t : List Bool) → to_ullong (s ++ t) ≡ to_ullong s * 2 ^ length t + to_ullong t
unfolding to_ullong
to_ullong-append [] t = omega arith
to_ullong-append (b ∷ s) t =
    rw (length-append s t, pow-add (length s) (length t), to_ullong-append s t)
      (omega (
        arith,
        add-mul (to_nat b * 2 ^ length s) (to_ullong s) (2 ^ length t),
        mul_assoc (to_nat b) (2 ^ length s) (2 ^ length t),
      ))

to_ullong-ones : (n : ℕ) → to_ullong (replicate n true) + 1 ≡ 2 ^ n
unfolding to_ullong
to_ullong-ones zero = omega arith
to_ullong-ones (suc n) = omega (
  arith,
  to_ullong-ones n,
  length-replicate n true,
  pow-suc 2 n,
  ap (λ (t : ℕ). 2 ^ t) (length-replicate n true),
)

to_ullong-zeros : (n : ℕ) → to_ullong (replicate n false) ≡ 0
unfolding to_ullong
to_ullong-zeros zero = refl
to_ullong-zeros (suc n) = omega (arith, to_ullong-zeros n)

to_bits-mod : (n x y : ℕ) → x % 2 ^ n ≡ y % 2 ^ n → to_bits n x ≡ to_bits n y
to_bits-mod n x y e = eq_of_same _ _ ((same-to_bits_iff n x y).1 e)

digit_on_top : (b : Bool) (y p : ℕ) → y < p → ((to_nat b * p + y) / p % 2 == 1) ≡ b
digit_on_top true y p h =
    rw (div-eq_of_lt-le {k = 1} p {m = 1 * p + y} (omega arith) (omega arith)) refl
digit_on_top false y p h =
    rw (div-eq_of_lt-le {k = 0} p {m = 0 * p + y} (omega arith) (omega arith)) refl

-- Reading a string back gives its characters.
to_bits-to_ullong : (s : List Bool) → to_bits (length s) (to_ullong s) ≡ s
unfolding to_bits to_ullong
to_bits-to_ullong [] = refl
to_bits-to_ullong (b ∷ s) =
    let low : (to_nat b * 2 ^ length s + to_ullong s) % 2 ^ length s ≡ to_ullong s % 2 ^ length s =
      mul-add-mod_self_right (to_nat b) (2 ^ length s) (to_ullong s) in
    ap₂ ◌∷◌ (digit_on_top b (to_ullong s) (2 ^ length s) (to_ullong-lt s))
      (to_bits-mod (length s) _ _ low ∙ to_bits-to_ullong s)

covers-quotient :
    (p : List Bool) (k v : ℕ)
    → length p + k ≡ 64
    → v < 2 ^ 64
    → (covers p v ≡ true) ↔ (v / 2 ^ k ≡ to_ullong p)
unfolding covers
covers-quotient p k v e hv =
    rw (ap (λ (t : ℕ). take (length p) (to_bits t v)) (sym e) ∙ take-to_bits (length p) k v) (
      (λ h.
          sym (mod-eq_of_lt small)
          ∙ (same-to_bits_iff n (v / 2 ^ k) (to_ullong p)).0 (rw (to_bits-to_ullong p) h)
          ∙ mod-eq_of_lt (to_ullong-lt p)),
      (λ h. rw h (rw (to_bits-to_ullong p) (same_refl p))),
    )
  where
    n : ℕ
    n = length p

    small : v / 2 ^ k < 2 ^ length p
    small = (div-lt_iff_lt-mul (pow_pos k)).1 (rw (← pow-add (length p) k, e) hv)

pub low_bound-eq : (p : List Bool) → low_bound p ≡ to_ullong p * 2 ^ (64 - length p)
unfolding low_bound
low_bound-eq p =
    let k = 64 - length p in
    to_ullong-append p (replicate k false)
    ∙ rw (length-replicate k false, to_ullong-zeros k) (omega arith)

pub up_bound-eq :
    (p : List Bool) → up_bound p + 1 ≡ to_ullong p * 2 ^ (64 - length p) + 2 ^ (64 - length p)
unfolding up_bound
up_bound-eq p =
    let k = 64 - length p in
    rw (to_ullong-append p (replicate k true), length-replicate k true)
      (omega (arith, to_ullong-ones k))

-- A prefix begins a value exactly when the value lies between its bounds.
pub covers-bounds :
    (p : List Bool) (v : ℕ)
    → length p ≤ 64
    → v < 2 ^ 64
    → (covers p v ≡ true) ↔ ((low_bound p ≤ v) × (v ≤ up_bound p))
covers-bounds p v h hv =
    let k = 64 - length p in
    let q = covers-quotient p k v (omega arith) hv in
    let low = low_bound-eq p in
    let up = up_bound-eq p in
    (
      (λ c.
          let same_block = ap (λ (t : ℕ). t * 2 ^ k) (q.0 c) in
          omega (arith, div-add-mod' v (2 ^ k), mod-lt v (pow_pos k))),
      (λ b. q.1 (
          div-eq_of_lt-le (2 ^ k) (omega (arith, b.0))
            (omega (arith, b.1, add-mul (to_ullong p) 1 (2 ^ k))))),
    )
