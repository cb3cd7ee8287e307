-- ===== src/Ufmap/Blocks.antt =====
-- The blocks of a near point, and of a far one.
use native.Mathlib.Nat.{add-div_right, div-add-mod', mod-lt}
use opprf_fpsi.Prelude.{
  ℕ, ◌+◌, ◌-◌, ◌*◌, ◌/◌, ◌^◌, ◌≤◌, ◌<◌, ◌≡◌, refl, sym, ap, ◌∙◌, ◌⊎◌, inl, inr, arith, leb, u64,
  Bool-cases,
}
use opprf_fpsi.Grid.Cells.{diff}
use opprf_fpsi.Grid.Neighbours.{near_cell}
use opprf_fpsi.Ufmap.{cell2_delta, canonical_block_4_delta, candidate_blocks}

canonical-eq :
    (delta y : ℕ)
    → 1 ≤ delta
    → 2 * delta < 2 ^ 64
    → canonical_block_4_delta y delta ≡ (y - delta) / (2 * delta)
unfolding canonical_block_4_delta
canonical-eq delta y pos short = elim (Bool-cases (leb delta y)) [
  | inl e ↦ let width : u64 (2 * delta) ≡ 2 * delta = omega arith in rw (width, e) (ground arith)
  | inr e ↦
      let width : u64 (2 * delta) ≡ 2 * delta = omega arith in
      let low : y - delta ≡ 0 = ground arith in rw (width, e, low) (ground arith)
]

cell-eq : (delta x : ℕ) → 1 ≤ delta → 2 * delta < 2 ^ 64 → cell2_delta x delta ≡ x / (2 * delta)
unfolding cell2_delta
cell-eq delta x pos short =
    let width : u64 (2 * delta) ≡ 2 * delta = omega arith in rw width (ground arith)

-- The second candidate is the cell before the first, or 0.
left-eq :
    (delta x : ℕ)
    → 1 ≤ delta
    → 2 * delta < 2 ^ 64
    → (candidate_blocks x delta).1 ≡ (x - 2 * delta) / (2 * delta)
unfolding candidate_blocks
left-eq delta x pos short = elim (Bool-cases (leb (2 * delta) x)) [
  | inl e ↦ let width : u64 (2 * delta) ≡ 2 * delta = omega arith in rw (width, e) (ground arith)
  | inr e ↦
      let width : u64 (2 * delta) ≡ 2 * delta = omega arith in
      let low : x - 2 * delta ≡ 0 = ground arith in rw (width, e, low) (ground arith)
]

next_left : (x w m : ℕ) → 0 < w → x / w ≡ m + 1 → (x - w) / w ≡ m
next_left x w m pos e =
    let division = div-add-mod' x w in
    let below = mod-lt x pos in
    let one_more = add-div_right (x - w) pos in
    let high : w ≤ x = ground (arith, division, below, ap (λ (t : ℕ). t * w) e) in
    let back : x - w + w ≡ x = omega arith in omega (arith, one_more, ap (λ (t : ℕ). t / w) back, e)

-- If `delta` is not 0, `2 * delta` is a word and the coordinates are words at most `delta` apart, then the
-- block that the owner encodes is one of the two that the other party asks for.
pub canonical-candidate :
    (delta x y : ℕ)
    → 1 ≤ delta
    → 2 * delta < 2 ^ 64
    → x < 2 ^ 64
    → y < 2 ^ 64
    → diff x y ≤ delta
    → (canonical_block_4_delta y delta ≡ (candidate_blocks x delta).0)
      ⊎ (canonical_block_4_delta y delta ≡ (candidate_blocks x delta).1)
unfolding candidate_blocks
canonical-candidate delta x y pos short hx hy near =
    let (_, place) =
      near_cell (y - delta) x (2 * delta) (omega arith) (omega arith) (ground (arith, near))
        (ground (arith, near)) in
    let block = canonical-eq delta y pos short in
    elim place [
      | inl same ↦ inl (block ∙ sym same ∙ sym (cell-eq delta x pos short))
      | inr next ↦
          let left = next_left x (2 * delta) ((y - delta) / (2 * delta)) (omega arith) next in
          inr (block ∙ sym left ∙ sym (left-eq delta x pos short))
    ]

-- If `delta` is not 0, `2 * delta` is a word, and the owner's block is one of the two that the
-- other party asks for, then the coordinates are less than `4 * delta` apart.
pub candidate-diff :
    (delta x y : ℕ)
    → 1 ≤ delta
    → 2 * delta < 2 ^ 64
    → (canonical_block_4_delta y delta ≡ (candidate_blocks x delta).0)
      ⊎ (canonical_block_4_delta y delta ≡ (candidate_blocks x delta).1)
    → diff x y < 4 * delta
candidate-diff delta x y pos short h =
    let block = canonical-eq delta y pos short in
    let cell = cell-eq delta x pos short in
    let left = left-eq delta x pos short in
    let w_pos : 0 < 2 * delta = omega arith in
    let y_division = div-add-mod' (y - delta) (2 * delta) in
    let y_below = mod-lt (y - delta) w_pos in
    elim h [
      | inl e ↦
          let same : (y - delta) / (2 * delta) ≡ x / (2 * delta) =
            sym block ∙ e ∙ first x delta ∙ cell in
          ground (
            arith,
            y_division,
            y_below,
            div-add-mod' x (2 * delta),
            mod-lt x w_pos,
            ap (λ (t : ℕ). t * (2 * delta)) same,
          )
      | inr e ↦
          let same : (y - delta) / (2 * delta) ≡ (x - 2 * delta) / (2 * delta) =
            sym block ∙ e ∙ left in
          ground (
            arith,
            y_division,
            y_below,
            div-add-mod' (x - 2 * delta) (2 * delta),
            mod-lt (x - 2 * delta) w_pos,
            ap (λ (t : ℕ). t * (2 * delta)) same,
          )
    ]
  where
    first : (x delta : ℕ) → (candidate_blocks x delta).0 ≡ cell2_delta x delta
    first x delta = unfold candidate_blocks in refl
