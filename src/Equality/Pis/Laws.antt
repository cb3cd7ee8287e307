-- ===== src/Equality/Pis/Laws.antt =====
-- The sums of step 2 are the bits of the index of the match.
use opprf_fpsi.Prelude.{
  ℕ, zero, suc, ◌+◌, ◌^◌, ◌≤◌, ◌<◌, ◌≡◌, refl, ap, ap₂, ◌∙◌, inl, inr, Bool, false, ◌&&◌, ◌⊕◌, ◌==◌,
  ltb, List, [], ◌∷◌, ◌++◌, map, replicate, length, All, bit, arith, Bool-cases, if◌then◌else◌, ok,
}
use opprf_fpsi.Equality.Round.Step.{xor_row}
use opprf_fpsi.Equality.Pis.{
  split_index, split_lists, compute_split_index, parity, sum_indexes, psm_row, psm_sums,
}
use opprf_fpsi.Equality.Pis.Split.{length-split_index}
use opprf_fpsi.Equality.Pis.Rows.{bits_from}

-- The sum of the bits at some indices.
abbrev pub total_at : (ℕ → Bool) → List ℕ → Bool
total_at e [] = false
total_at e (i ∷ indexs) = e i ⊕ total_at e indexs

total_at-append : (e : ℕ → Bool) (a b : List ℕ) → total_at e (a ++ b) ≡ total_at e a ⊕ total_at e b
total_at-append e [] b = refl
total_at-append e (i ∷ a) b = rw (total_at-append e a b) (ground arith)

sum_indexes-total_at :
    (n : ℕ) (indexs : List ℕ) (e : ℕ → Bool)
    → length indexs ≡ n
    → sum_indexes n indexs e ≡ ok (total_at e indexs)
unfolding sum_indexes
sum_indexes-total_at zero [] e h = refl
sum_indexes-total_at zero (i ∷ indexs) e h = absurd (omega arith)
sum_indexes-total_at (suc n) [] e h = absurd (omega arith)
sum_indexes-total_at (suc n) (i ∷ indexs) e h =
    rw (sum_indexes-total_at n indexs e (omega arith)) refl

psm_row-total_at :
    (n : ℕ) (lists : List (List ℕ)) (e : ℕ → Bool)
    → All (λ indexs. length indexs ≡ n) lists
    → psm_row n lists e ≡ ok (map (total_at e) lists)
unfolding psm_row
psm_row-total_at n [] e h = refl
psm_row-total_at n (indexs ∷ lists) e h =
    rw (sum_indexes-total_at n indexs e h.0, psm_row-total_at n lists e h.1) refl

lists_sized :
    (k j left : ℕ)
    → j + left ≤ suc k
    → All (λ indexs. length indexs ≡ 2 ^ k) (split_lists (2 ^ suc k) j left)
unfolding split_lists
lists_sized k j zero low = tt
lists_sized k j (suc left) low =
    (length-split_index j k (omega arith), lists_sized k (suc j) left (omega arith))

pub psm_sums-total_at :
    (k : ℕ) (e : ℕ → Bool)
    → psm_sums (compute_split_index (suc k)) e ≡ ok (map (total_at e) (compute_split_index (suc k)))
unfolding psm_sums compute_split_index split_lists
psm_sums-total_at k e = rw (length-split_index 0 k (omega arith)) (
    psm_row-total_at (2 ^ k) (split_index 0 (2 ^ suc k) ∷ split_lists (2 ^ suc k) 1 k) e
      (length-split_index 0 k (omega arith), lists_sized k 1 k (omega arith)))

total_at-xor :
    (e f : ℕ → Bool) (indexs : List ℕ)
    → total_at e indexs ⊕ total_at f indexs ≡ total_at (λ i. e i ⊕ f i) indexs
total_at-xor e f [] = refl
total_at-xor e f (i ∷ indexs) = rw (← total_at-xor e f indexs) (ground arith)

-- The parties' rows are shares of the row of the sums.
pub xor_row-totals :
    (e f : ℕ → Bool) (lists : List (List ℕ))
    → xor_row (map (total_at e) lists) (map (total_at f) lists)
      ≡ map (total_at (λ i. e i ⊕ f i)) lists
xor_row-totals e f [] = refl
xor_row-totals e f (indexs ∷ lists) = ap₂ ◌∷◌ (total_at-xor e f indexs) (xor_row-totals e f lists)

pub parity-xor : (n : ℕ) (e f : ℕ → Bool) → parity n e ⊕ parity n f ≡ parity n (λ i. e i ⊕ f i)
unfolding parity
parity-xor zero e f = refl
parity-xor (suc n) e f = rw (← parity-xor n e f) (ground arith)

last_total :
    (e : ℕ → Bool) (n j : ℕ) → total_at e (if bit n j then n ∷ [] else []) ≡ (bit n j && e n)
last_total e n j = elim (Bool-cases (bit n j)) [ inl b ↦ rw b (ground arith) | inr b ↦ rw b refl ]

module _ (e : ℕ → Bool) (idx : ℕ) where
  -- Exactly one of the first `n` bits is set, or none if `idx` is `n` or more.
  total_single :
      (j n : ℕ)
      → ((i : ℕ) → i < n → e i ≡ (i == idx))
      → total_at e (split_index j n) ≡ (ltb idx n && bit idx j)
  unfolding split_index
  total_single j zero h = ground arith
  total_single j (suc n) h =
      total_at-append e (split_index j n) (if bit n j then n ∷ [] else [])
      ∙ ap₂ ◌⊕◌ (total_single j n (λ i low. h i (omega arith)))
          (last_total e n j ∙ ap (λ b. bit n j && b) (h n (omega arith)))
      ∙ elim (Bool-cases (n == idx)) [
        | inl at ↦ let same : n ≡ idx = ground arith in rw same (ground arith)
        | inr off ↦ ground (arith, off)
      ]

  pub parity_single : (n : ℕ) → ((i : ℕ) → i < n → e i ≡ (i == idx)) → parity n e ≡ ltb idx n
  unfolding parity
  parity_single zero h = ground arith
  parity_single (suc n) h =
      ground (arith, parity_single n (λ i low. h i (omega arith)), h n (omega arith))

  pub totals_single :
      (size j left : ℕ)
      → idx < size
      → ((i : ℕ) → i < size → e i ≡ (i == idx))
      → map (total_at e) (split_lists size j left) ≡ bits_from idx j left
  unfolding split_lists
  totals_single size j zero low h = refl
  totals_single size j (suc left) low h =
      ap₂ ◌∷◌ (total_single j size h ∙ ground (arith, low)) (totals_single size (suc j) left low h)

module _ (e : ℕ → Bool) where
  total_none : (j n : ℕ) → ((i : ℕ) → i < n → e i ≡ false) → total_at e (split_index j n) ≡ false
  unfolding split_index
  total_none j zero h = refl
  total_none j (suc n) h =
      total_at-append e (split_index j n) (if bit n j then n ∷ [] else [])
      ∙ ap₂ ◌⊕◌ (total_none j n (λ i low. h i (omega arith)))
          (last_total e n j ∙ ap (λ b. bit n j && b) (h n (omega arith)))
      ∙ ground arith

  pub parity_none : (n : ℕ) → ((i : ℕ) → i < n → e i ≡ false) → parity n e ≡ false
  unfolding parity
  parity_none zero h = refl
  parity_none (suc n) h =
      ground (arith, parity_none n (λ i low. h i (omega arith)), h n (omega arith))

  pub totals_none :
      (size j left : ℕ)
      → ((i : ℕ) → i < size → e i ≡ false)
      → map (total_at e) (split_lists size j left) ≡ replicate left false
  unfolding split_lists
  totals_none size j zero h = refl
  totals_none size j (suc left) h = ap₂ ◌∷◌ (total_none j size h) (totals_none size (suc j) left h)
