-- ===== src/Mapping/Assign/Near.antt =====
-- `computeBlock` of one party against `computeCell` of the other: near coordinates, and what the
-- one decodes from the other's map.
use native.Mathlib.Nat.{div-eq_of_lt}
use opprf_fpsi.Prelude.{
  ℕ, zero, suc, ◌+◌, ◌-◌, ◌*◌, ◌/◌, ◌^◌, ◌≤◌, ◌<◌, ◌≡◌, refl, sym, ap, ◌∙◌, ◌⊎◌, true, false, inl,
  inr, ◌==◌, ltb, List, [], ◌∷◌, some, arith, get_elem?, Bool-cases,
}
use opprf_fpsi.Grid.Neighbours.{near_cell}
use opprf_fpsi.Mapping.Assign.{
  Map, find, claim_all, compute_cell, compute_block, block_before, low_minus_one,
}
use opprf_fpsi.Mapping.Assign.Agree.{some_join, Agree, claim_all-Agree}

block_before-suc : (b : ℕ) → b + 1 < 2 ^ 64 → block_before (b + 1) ≡ b
unfolding block_before low_minus_one
block_before-suc b h = ground arith

cell-eq : (delta x : ℕ) → 1 ≤ delta → compute_cell delta x ≡ x / (2 * delta)
unfolding compute_cell
cell-eq d x h = let nonzero : (2 * d == 0) ≡ false = ground arith in rw nonzero refl

block-eq : (delta x : ℕ) → 1 ≤ delta → delta ≤ x → compute_block delta x ≡ (x - delta) / (2 * delta)
unfolding compute_block
block-eq d x h le =
    let nonzero : (2 * d == 0) ≡ false = ground arith in
    let above : ltb x d ≡ false = ground arith in rw (nonzero, above) refl

block-low : (delta x : ℕ) → x < delta → compute_block delta x ≡ 0
unfolding compute_block
block-low d x h =
    let nonzero : (2 * d == 0) ≡ false = ground arith in
    let below : ltb x d ≡ true = ground arith in rw (nonzero, below) refl

-- For coordinates of 64 bits at most `delta` apart, `delta` not 0, the block of the one is the cell
-- of the other or the cell before it.
pub compute_block-compute_cell :
    (delta x y : ℕ)
    → 1 ≤ delta
    → x < 2 ^ 64
    → x ≤ y + delta
    → y ≤ x + delta
    → (compute_block delta x ≡ compute_cell delta y)
      ⊎ (compute_block delta x ≡ block_before (compute_cell delta y))
compute_block-compute_cell d x y pos top left right = elim (Bool-cases (ltb x d)) [
  | inl e ↦
      let low : x < d = ground arith in
      let none_below : y / (2 * d) ≡ 0 = div-eq_of_lt (omega arith) in
      inl (block-low d x low ∙ sym (cell-eq d y pos ∙ none_below))
  | inr e ↦
      let high : d ≤ x = ground arith in
      let (small, beside) =
        near_cell (x - d) y (2 * d) (omega arith) (omega arith) (omega arith) (omega arith) in
      elim beside [
        | inl s ↦ inl (block-eq d x pos high ∙ sym (cell-eq d y pos ∙ s))
        | inr s ↦ inr (
            block-eq d x pos high
            ∙ sym (
                ap block_before (cell-eq d y pos ∙ s) ∙ block_before-suc ((x - d) / (2 * d)) small))
      ]
]

unfoldable pub cells_of : ℕ → List ℕ → List ℕ
cells_of delta [] = []
cells_of delta (y ∷ ys) = compute_cell delta y ∷ cells_of delta ys

Agree-at :
    (delta : ℕ) (ys values : List ℕ) (m : Map) (j y v : ℕ)
    → Agree (cells_of delta ys) values m
    → get_elem? ys j ≡ some y
    → get_elem? values j ≡ some v
    → (find (compute_cell delta y) m ≡ some v)
      × (find (block_before (compute_cell delta y)) m ≡ some v)
unfolding cells_of
Agree-at d [] values m j y v a ey ev = absurd (ground (arith, ey))
Agree-at d (z ∷ ys) [] m j y v a ey ev = absurd a
Agree-at d (z ∷ ys) (w ∷ values) m zero y v a ey ev =
    let same : z ≡ y = ground (arith, ey) in
    let value : w ≡ v = ground (arith, ev) in rw (sym same, sym value) (a.0, a.1)
Agree-at d (z ∷ ys) (w ∷ values) m (suc j) y v a ey ev = Agree-at d ys values m j y v a.2 ey ev

-- For a run of `getID` on the coordinates `ys` that joins no runs of cells with different values:
-- the value of a coordinate within `delta` of `x`, `delta` not 0, is what the map has at the block
-- of `x`.
pub claim_all-near :
    (prng : ℕ → ℕ) (delta x y v j : ℕ) (ys : List ℕ)
    → some_join prng 0 (cells_of delta ys) [] ≡ false
    → 1 ≤ delta
    → x < 2 ^ 64
    → x ≤ y + delta
    → y ≤ x + delta
    → get_elem? ys j ≡ some y
    → get_elem? (claim_all prng 0 (cells_of delta ys) []).0 j ≡ some v
    → find (compute_block delta x) (claim_all prng 0 (cells_of delta ys) []).1 ≡ some v
claim_all-near prng d x y v j ys free pos top left right ey ev =
    let m = (claim_all prng 0 (cells_of d ys) []).1 in
    let both =
      Agree-at d ys (claim_all prng 0 (cells_of d ys) []).0 m j y v
        (claim_all-Agree prng 0 (cells_of d ys) [] free) ey ev in
    elim (compute_block-compute_cell d x y pos top left right) [
      | inl e ↦ ap (λ k. find k m) e ∙ both.0
      | inr e ↦ ap (λ k. find k m) e ∙ both.1
    ]
