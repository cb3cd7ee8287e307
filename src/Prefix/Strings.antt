-- ===== src/Prefix/Strings.antt =====
-- Binary strings of `fpsi/utils/set_dec.cpp`: `to_binary_string`, `get_first_n_chars`,
-- `up_bound` and `low_bound`. A string of '0' and '1' is the list of its characters, the most
-- significant one first, with `true` for '1'.
use native.Mathlib.Nat.{suc-add, mod-lt, mod-eq_of_lt, div-lt_iff_lt-mul}
use opprf_fpsi.Prelude.{
  ap₂, ◌==◌, pow-add, ℕ, zero, suc, ◌+◌, ◌-◌, ◌*◌, ◌/◌, ◌%◌, ◌^◌, ◌≤◌, ◌<◌, ◌≡◌, refl, sym, ap, ◌∙◌,
  ◌↔◌, Bool, true, false, ◌&&◌, ◌++◌, List, [], ◌∷◌, Option, none, some, arith, length, take,
  replicate, bit, ltb, if◌then◌else◌, to_nat, length-take, div-pow-add, mod-pow-suc, pow_pos,
}

abbrev pub num_bits : ℕ
num_bits = 64

-- `bitset<n>(value).to_string()`.
unfoldable pub to_bits : ℕ → ℕ → List Bool
to_bits zero value = []
to_bits (suc n) value = bit value n ∷ to_bits n value

unfoldable pub to_binary_string : ℕ → ℕ → List Bool
to_binary_string value bits = take bits (to_bits num_bits value)

-- `none` is the exception `out_of_range`.
unfoldable pub get_first_n_chars : List Bool → ℕ → Option (List Bool)
get_first_n_chars s n = if ltb (length s) n then none else some (take n s)

-- `bitset<64>(s).to_ullong()`.
unfoldable pub to_ullong : List Bool → ℕ
to_ullong [] = 0
to_ullong (b ∷ s) = to_nat b * 2 ^ length s + to_ullong s

-- The prefix padded with '1', and with '0', to 64 characters.
unfoldable pub up_bound : List Bool → ℕ
up_bound prefix = to_ullong (prefix ++ replicate (num_bits - length prefix) true)

unfoldable pub low_bound : List Bool → ℕ
low_bound prefix = to_ullong (prefix ++ replicate (num_bits - length prefix) false)

-- Equality of strings.
unfoldable pub same : List Bool → List Bool → Bool
same [] [] = true
same (a ∷ s) (b ∷ t) = (if a then b else if b then false else true) && same s t
same _ _ = false

-- The string is a prefix of the 64 characters of the value.
unfoldable pub covers : List Bool → ℕ → Bool
covers prefix v = same (take (length prefix) (to_bits num_bits v)) prefix

pub length-to_bits : (n v : ℕ) → length (to_bits n v) ≡ n
unfolding to_bits
length-to_bits zero v = refl
length-to_bits (suc n) v = ap suc (length-to_bits n v)

pub length-to_binary_string : (v n : ℕ) → n ≤ 64 → length (to_binary_string v n) ≡ n
unfolding to_binary_string
length-to_binary_string v n h = omega (arith, length-take n (to_bits 64 v), length-to_bits 64 v)

-- The first characters are those of the quotient.
pub take-to_bits : (n k v : ℕ) → take n (to_bits (n + k) v) ≡ to_bits n (v / 2 ^ k)
unfolding to_bits
take-to_bits zero k v = refl
take-to_bits (suc n) k v =
    rw (suc-add n k) (ap₂ ◌∷◌ (ap (λ (t : ℕ). t % 2 == 1) (div-pow-add v n k)) (take-to_bits n k v))

pub same_refl : (s : List Bool) → same s s ≡ true
unfolding same
same_refl [] = refl
same_refl (true ∷ s) = same_refl s
same_refl (false ∷ s) = same_refl s

pub eq_of_same : (s t : List Bool) → same s t ≡ true → s ≡ t
unfolding same
eq_of_same [] [] h = refl
eq_of_same [] (b ∷ t) h = ground arith
eq_of_same (a ∷ s) [] h = ground arith
eq_of_same (a ∷ s) (b ∷ t) h = ground (arith, eq_of_same s t)

-- One more digit on both sides, in front of remainders below `p`.
digit_iff :
    (a b s : Bool) (p x y : ℕ)
    → x < p
    → y < p
    → ((s ≡ true) ↔ (x ≡ y))
    → (((if a then b else if b then false else true) && s) ≡ true)
      ↔ (to_nat a * p + x ≡ to_nat b * p + y)
digit_iff true true s p x y hx hy e = (λ h. omega (arith, e.0 h), λ h. e.1 (omega arith))
digit_iff true false s p x y hx hy e = (λ h. cc, λ h. absurd (omega arith))
digit_iff false true s p x y hx hy e = (λ h. cc, λ h. absurd (omega arith))
digit_iff false false s p x y hx hy e = (λ h. omega (arith, e.0 h), λ h. e.1 (omega arith))

-- Strings of one width agree exactly when the values agree modulo its power of two.
pub same-to_bits_iff :
    (n a b : ℕ) → (same (to_bits n a) (to_bits n b) ≡ true) ↔ (a % 2 ^ n ≡ b % 2 ^ n)
unfolding same to_bits
same-to_bits_iff zero a b = (λ h. omega arith, λ h. refl)
same-to_bits_iff (suc n) a b =
    rw (mod-pow-suc a n, mod-pow-suc b n)
      (digit_iff (bit a n) (bit b n) _ (2 ^ n) (a % 2 ^ n) (b % 2 ^ n) (mod-lt a (pow_pos n))
        (mod-lt b (pow_pos n)) (same-to_bits_iff n a b))

-- The first characters of `x`, all but `k`, begin `v` exactly when the quotients by `2 ^ k` agree.
pub covers_iff :
    (n k x v : ℕ)
    → n + k ≡ 64
    → x < 2 ^ 64
    → v < 2 ^ 64
    → (covers (to_binary_string x n) v ≡ true) ↔ (v / 2 ^ k ≡ x / 2 ^ k)
unfolding covers to_binary_string
covers_iff n k x v e hx hv =
    rw
      (
        length-prefix,
        ap (λ (t : ℕ). take n (to_bits t v)) (sym e) ∙ take-to_bits n k v,
        ap (λ (t : ℕ). take n (to_bits t x)) (sym e) ∙ take-to_bits n k x,
      )
      (rw (mod-eq_of_lt (quotient v hv), mod-eq_of_lt (quotient x hx)) at
        (same-to_bits_iff n (v / 2 ^ k) (x / 2 ^ k)))
  where
    length-prefix : length (to_binary_string x n) ≡ n
    length-prefix = length-to_binary_string x n (omega arith)

    quotient : (y : ℕ) → y < 2 ^ 64 → y / 2 ^ k < 2 ^ n
    quotient y h = (div-lt_iff_lt-mul (pow_pos k)).1 (rw (← pow-add n k, e) h)
