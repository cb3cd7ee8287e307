-- ===== src/Equality/Pis/Split.antt =====
-- The lists of indices: what stands in them, and that they have one length.
use native.Mathlib.Nat.{pow-suc}
use mathlib.Core.Path.{subst}
use opprf_fpsi.Prelude.{
  ℕ, zero, suc, ◌+◌, ◌*◌, ◌/◌, ◌^◌, ◌≤◌, ◌<◌, ◌≡◌, refl, sym, ap, ◌∙◌, inl, inr, ◌↔◌, Bool, true,
  false, ◌==◌, List, [], ◌∷◌, length, if◌then◌else◌, bit, arith, Bool-cases, length-append, In,
  In-append, In-append_left, In-append_right, div-pow-add,
}
use opprf_fpsi.Equality.Pis.{split_index}

bit_half : (x m : ℕ) → bit x (suc m) ≡ bit (x / 2) m
bit_half x m = let e : suc m ≡ m + 1 = omega arith in rw (e, div-pow-add x m 1) refl

one_more : ℕ → ℕ → List ℕ
one_more j n = if bit n j then n ∷ [] else []

split_index-step :
    (j n : ℕ) → length (split_index j (suc n)) ≡ length (split_index j n) + length (one_more j n)
unfolding split_index one_more
split_index-step j n = length-append (split_index j n) (if bit n j then n ∷ [] else [])

one_more-half : (m n x : ℕ) → x / 2 ≡ n → length (one_more (suc m) x) ≡ length (one_more m n)
unfolding one_more
one_more-half m n x e = rw (bit_half x m, e) (sizes (bit n m))
  where
    sizes : (b : Bool) → length (if b then x ∷ [] else []) ≡ length (if b then n ∷ [] else [])
    sizes true = refl
    sizes false = refl

even_none : (n : ℕ) → length (one_more 0 (2 * n)) ≡ 0
unfolding one_more
even_none n = let e : bit (2 * n) 0 ≡ false = ground arith in rw e refl

odd_one : (n : ℕ) → length (one_more 0 (suc (2 * n))) ≡ 1
unfolding one_more
odd_one n = let e : bit (suc (2 * n)) 0 ≡ true = ground arith in rw e refl

split_zero : (n : ℕ) → length (split_index 0 (2 * n)) ≡ n
unfolding split_index
split_zero zero = refl
split_zero (suc n) =
    let e : 2 * suc n ≡ suc (suc (2 * n)) = omega arith in
    rw e (
      omega (
        arith,
        split_index-step 0 (suc (2 * n)),
        split_index-step 0 (2 * n),
        even_none n,
        odd_one n,
        split_zero n,
      ))

split_half : (m n : ℕ) → length (split_index (suc m) (2 * n)) ≡ 2 * length (split_index m n)
unfolding split_index
split_half m zero = refl
split_half m (suc n) =
    let e : 2 * suc n ≡ suc (suc (2 * n)) = omega arith in
    rw e (
      omega (
        arith,
        split_index-step (suc m) (suc (2 * n)),
        split_index-step (suc m) (2 * n),
        one_more-half m n (2 * n) (omega arith),
        one_more-half m n (suc (2 * n)) (omega arith),
        split_index-step m n,
        split_half m n,
      ))

pub length-split_index : (m k : ℕ) → m ≤ k → length (split_index m (2 ^ suc k)) ≡ 2 ^ k
length-split_index zero k low =
    let e : 2 ^ suc k ≡ 2 * 2 ^ k = omega (arith, pow-suc 2 k) in rw e (split_zero (2 ^ k))
length-split_index (suc m) zero low = absurd (omega arith)
length-split_index (suc m) (suc k) low =
    let e : 2 ^ suc (suc k) ≡ 2 * 2 ^ suc k = omega (arith, pow-suc 2 (suc k)) in
    rw e
      (omega (arith, split_half m (2 ^ suc k), length-split_index m k (omega arith), pow-suc 2 k))

In_last : (i j n : ℕ) → In i (if bit n j then n ∷ [] else []) → (i ≡ n) × (bit i j ≡ true)
In_last i j n h = elim (Bool-cases (bit n j)) [
  | inl e ↦ at e (subst (λ b. In i (if b then n ∷ [] else [])) e h)
  | inr e ↦ absurd (subst (λ b. In i (if b then n ∷ [] else [])) e h)
]
  where
    at : bit n j ≡ true → In i (n ∷ []) → (i ≡ n) × (bit i j ≡ true)
    at e (inl same) = (same, rw same e)
    at e (inr none) = absurd none

listed : (i j n : ℕ) → In i (split_index j n) → (i < n) × (bit i j ≡ true)
unfolding split_index
listed i j zero h = absurd h
listed i j (suc n) h = elim (In-append i (split_index j n) (if bit n j then n ∷ [] else []) h) [
  | inl old ↦ let (low, set) = listed i j n old in (omega arith, set)
  | inr new ↦ let (same, set) = In_last i j n new in (omega arith, set)
]

lists : (i j n : ℕ) → i < n → bit i j ≡ true → In i (split_index j n)
unfolding split_index
lists i j zero low set = absurd (omega arith)
lists i j (suc n) low set = elim (Bool-cases (i == n)) [
  | inl e ↦
      let same : i ≡ n = ground arith in
      In-append_right i (split_index j n) (if bit n j then n ∷ [] else []) (
        subst (λ b. In i (if b then n ∷ [] else [])) (sym (ap (λ m. bit m j) (sym same) ∙ set))
          (inl same))
  | inr e ↦
      In-append_left i (split_index j n) (if bit n j then n ∷ [] else [])
        (lists i j n (ground arith) set)
]

-- After `n` rounds the list `j` holds the indices below `n` with the bit `j`, and no other.
pub split_index-In : (i j n : ℕ) → In i (split_index j n) ↔ (i < n) × (bit i j ≡ true)
split_index-In i j n = (λ h. listed i j n h, λ h. lists i j n h.0 h.1)
