-- ===== src/Prefix/SetDec/Extend.antt =====
-- Appending every string of a length to a prefix: the extensions begin just the values that the
-- prefix begins, each once.
use native.Mathlib.Nat.{
  div-add-mod', mod-lt, mod-eq_of_lt, mul_comm, mul_left_comm, div-one, pow-suc,
}
use native.Mathlib.Numerals.{add-one}
use opprf_fpsi.Prelude.{
  ℕ, zero, suc, ◌+◌, ◌*◌, ◌/◌, ◌%◌, ◌^◌, ◌≤◌, ◌<◌, ◌≡◌, refl, ap, ◌∙◌, Bool, true, false, ◌&&◌,
  ◌++◌, List, [], ◌∷◌, arith, bit, length, take, drop, to_nat, if◌then◌else◌, ◌↔◌, length-take,
  length-drop, mod_unique, div-pow-suc, Bool-ext, Bool-cases, inl, inr, pow_pos,
}
use opprf_fpsi.Prefix.Strings.{to_bits, same, covers, length-to_bits}
use opprf_fpsi.Prefix.Hits.{hits, is_between, in_range, in_range-add}
use opprf_fpsi.Prefix.SetDec.{low_bits, extensions}

-- The number whose lowest digit comes first.
unfoldable pub from_low : List Bool → ℕ
from_low [] = 0
from_low (b ∷ s) = to_nat b + 2 * from_low s

from_low-lt : (s : List Bool) → from_low s < 2 ^ length s
unfolding from_low
from_low-lt [] = omega arith
from_low-lt (true ∷ s) = omega (arith, from_low-lt s, pow-suc 2 (length s))
from_low-lt (false ∷ s) = omega (arith, from_low-lt s, pow-suc 2 (length s))

pub length-low_bits : (n j i : ℕ) → length (low_bits n j i) ≡ n
unfolding low_bits
length-low_bits zero j i = refl
length-low_bits (suc n) j i = ap suc (length-low_bits n (j + 1) i)

mod-pow-low : (x n : ℕ) → x % 2 ^ suc n ≡ x % 2 + 2 * (x / 2 % 2 ^ n)
mod-pow-low x n =
    ap (λ (t : ℕ). t % 2 ^ suc n) split
    ∙ mod_unique (x / 2 / 2 ^ n) (x % 2 + 2 * (x / 2 % 2 ^ n)) (2 ^ suc n)
        (omega (arith, pow-suc 2 n, mod-lt (x / 2) (pow_pos n)))
  where
    split : x ≡ x / 2 / 2 ^ n * 2 ^ suc n + (x % 2 + 2 * (x / 2 % 2 ^ n))
    split = omega (
      arith,
      div-add-mod' (x / 2) (2 ^ n),
      ap (λ (t : ℕ). x / 2 / 2 ^ n * t) (pow-suc 2 n ∙ mul_comm (2 ^ n) 2),
      mul_left_comm (x / 2 / 2 ^ n) 2 (2 ^ n),
    )

digit_low_iff :
    (b c s : Bool) (y z : ℕ)
    → ((s ≡ true) ↔ (y ≡ z))
    → (((if b then c else if c then false else true) && s) ≡ true)
      ↔ (to_nat c + 2 * y ≡ to_nat b + 2 * z)
digit_low_iff true true s y z e = (λ h. omega (arith, e.0 h), λ h. e.1 (omega arith))
digit_low_iff true false s y z e = (λ h. cc, λ h. absurd (omega arith))
digit_low_iff false true s y z e = (λ h. cc, λ h. absurd (omega arith))
digit_low_iff false false s y z e = (λ h. omega (arith, e.0 h), λ h. e.1 (omega arith))

-- A string is the low digits of a number exactly when it stands for their value.
same-low_bits :
    (s : List Bool) (j i : ℕ)
    → (same s (low_bits (length s) j i) ≡ true) ↔ (i / 2 ^ j % 2 ^ length s ≡ from_low s)
unfolding same low_bits from_low
same-low_bits [] j i = (λ h. omega arith, λ h. refl)
same-low_bits (b ∷ s) j i =
    let shift : i / 2 ^ (j + 1) ≡ i / 2 ^ j / 2 = rw (add-one j) (div-pow-suc i j) in
    let ih = rw shift at (same-low_bits s (j + 1) i) in
    let digit : i / 2 ^ j % 2 ≡ to_nat (bit i j) = ground arith in
    let split : i / 2 ^ j % 2 ^ suc (length s)
        ≡ to_nat (bit i j) + 2 * (i / 2 ^ j / 2 % 2 ^ length s) =
      omega (arith, mod-pow-low (i / 2 ^ j) (length s), digit) in
    rw split (digit_low_iff b (bit i j) _ _ _ ih)

same-append :
    (s a b : List Bool)
    → same (take (length (a ++ b)) s) (a ++ b)
      ≡ (same (take (length a) s) a && same (take (length b) (drop (length a) s)) b)
unfolding same
same-append s [] b = refl
same-append [] (x ∷ a) b = refl
same-append (c ∷ s) (x ∷ a) b = rw (same-append s a b) (
    and_assoc (if c then x else if x then false else true) (same (take (length a) s) a)
      (same (take (length b) (drop (length a) s)) b))
  where
    and_assoc : (p q r : Bool) → (p && (q && r)) ≡ (p && q && r)
    and_assoc true q r = refl
    and_assoc false q r = refl

-- Of the numbers from `i` on, the one that `s` stands for is counted once.
count_value : (s : List Bool) (left i : ℕ) → ℕ
count_value s zero i = 0
count_value s (suc left) i = to_nat (same s (low_bits (length s) 0 i)) + count_value s left (i + 1)

count_value-eq :
    (s : List Bool) (left i : ℕ)
    → i + left ≤ 2 ^ length s
    → count_value s left i ≡ in_range i (i + left) (from_low s)
unfolding count_value
count_value-eq s zero i h = ground arith
count_value-eq s (suc left) i h =
    let test : same s (low_bits (length s) 0 i) ≡ is_between i (i + 1) (from_low s) =
      Bool-ext _ _ (λ e. ground (arith, rw (div-one i, small) at ((same-low_bits s 0 i).0 e)))
        (λ e. (same-low_bits s 0 i).1 (rw (div-one i, small) (ground arith))) in
    rw (test, count_value-eq s left (i + 1) (omega arith))
      (rw (regroup i left)
        (in_range-add i (i + 1) (i + 1 + left) (from_low s) (omega arith) (omega arith)))
  where
    small : i % 2 ^ length s ≡ i
    small = mod-eq_of_lt (omega arith)

    regroup : (m n : ℕ) → m + suc n ≡ m + 1 + n
    regroup m n = omega arith

-- The part of the value's characters behind the prefix.
abbrev behind : List Bool → ℕ → ℕ → List Bool
behind dec k v = take k (drop (length dec) (to_bits 64 v))

length-behind : (dec : List Bool) (k v : ℕ) → length dec + k ≤ 64 → length (behind dec k v) ≡ k
length-behind dec k v h = omega (
  arith,
  length-take k (drop (length dec) (to_bits 64 v)),
  length-drop (length dec) (to_bits 64 v),
  length-to_bits 64 v,
)

extensions-count :
    (dec : List Bool) (k v left i : ℕ)
    → length dec + k ≤ 64
    → hits v (extensions dec k left i)
      ≡ (if covers dec v then count_value (behind dec k v) left i else 0)
unfolding extensions hits count_value
extensions-count dec k v zero i h = ground arith
extensions-count dec k v (suc left) i h =
    rw (extensions-count dec k v left (i + 1) h, one)
      (elim (Bool-cases (covers dec v)) [ inl e ↦ rw e | inr e ↦ rw e ])
  where
    width : length (behind dec k v) ≡ k
    width = length-behind dec k v h

    one :
        covers (dec ++ low_bits k 0 i) v
        ≡ (covers dec v && same (behind dec k v) (low_bits (length (behind dec k v)) 0 i))
    one =
        unfold covers in
        rw (width, same-append (to_bits 64 v) dec (low_bits k 0 i), length-low_bits k 0 i)

-- All the extensions of a prefix by `k` characters begin a value as often as the prefix does.
pub extensions-hits :
    (dec : List Bool) (k v : ℕ)
    → length dec + k ≤ 64
    → hits v (extensions dec k (2 ^ k) 0) ≡ to_nat (covers dec v)
extensions-hits dec k v h =
    let s = behind dec k v in
    let width : length s ≡ k = length-behind dec k v h in
    let fits : 0 + 2 ^ k ≤ 2 ^ length s = rw width (omega arith) in
    let value : from_low s < 2 ^ k = rw width at (from_low-lt s) in
    let counted : count_value s (2 ^ k) 0 ≡ 1 = count_value-eq s (2 ^ k) 0 fits ∙ ground arith in
    rw (extensions-count dec k v (2 ^ k) 0 h, counted)
      (elim (Bool-cases (covers dec v)) [ inl e ↦ rw e | inr e ↦ rw e ])
