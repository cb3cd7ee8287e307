-- ===== src/Grid/Corners.antt =====
-- The cells of the loop of `intersection`, by their numbers.
use native.Mathlib.Nat.{pow-suc}
use opprf_fpsi.Prelude.{
  ℕ, zero, suc, ◌+◌, ◌-◌, ◌*◌, ◌/◌, ◌%◌, ◌^◌, ◌≤◌, ◌<◌, ◌≡◌, refl, ap, ap₂, ◌∙◌, ◌⊎◌, false, List,
  [], ◌∷◌, some, arith, length, get_elem?, ltb, to_nat, bit, u64, ok, div-pow-suc,
}
use opprf_fpsi.Grid.Cells.{Point, corner, corners}

-- The cell of number `i`, in closed form.
pub shifted : ℕ → Point → Point
shifted i [] = []
shifted i (b ∷ blk) = u64 (b + i % 2) ∷ shifted (i / 2) blk

low_bit : (i j : ℕ) → to_nat (bit i j) ≡ i / 2 ^ j % 2
low_bit i j = ground arith

corner-eq :
    (i j : ℕ) (blk : Point) → j + length blk ≤ 64 → corner i j blk ≡ ok (shifted (i / 2 ^ j) blk)
unfolding corner shifted
corner-eq i j [] h = refl
corner-eq i j (b ∷ blk) h =
    let below : ltb 63 j ≡ false = ground arith in
    let next : j + 1 ≡ suc j = omega arith in
    rw (below, corner-eq i (j + 1) blk (omega arith), next, div-pow-suc i j, low_bit i j) refl

pub shifts : ℕ → ℕ → Point → List Point
shifts i zero blk = []
shifts i (suc left) blk = shifted i blk ∷ shifts (i + 1) left blk

pub corners-eq :
    (i left : ℕ) (blk : Point) → length blk ≤ 64 → corners i left blk ≡ ok (shifts i left blk)
unfolding corners shifts
corners-eq i zero blk h = refl
corners-eq i (suc left) blk h =
    let whole : i / 2 ^ 0 ≡ i = omega arith in
    rw (corner-eq i 0 blk (omega arith), whole, corners-eq (i + 1) left blk h) refl

get-shifts :
    (i left k : ℕ) (blk : Point)
    → k < left
    → get_elem? (shifts i left blk) k ≡ some (shifted (i + k) blk)
unfolding shifts
get-shifts i zero k blk h = absurd (omega arith)
get-shifts i (suc left) zero blk h = let here : i + 0 ≡ i = omega arith in rw here refl
get-shifts i (suc left) (suc k) blk h =
    let there : i + 1 + k ≡ i + suc k = omega arith in
    get-shifts (i + 1) left k blk (omega arith) ∙ rw there refl

pub get-from_zero :
    (left k : ℕ) (blk : Point) → k < left → get_elem? (shifts 0 left blk) k ≡ some (shifted k blk)
get-from_zero left k blk h =
    let zero_first : 0 + k ≡ k = omega arith in get-shifts 0 left k blk h ∙ rw zero_first refl

-- Each coordinate of `c` is the one of `blk` or the next.
abbrev pub Beside : Point → Point → Type 0
Beside [] [] = Unit
Beside (b ∷ blk) (x ∷ c) = (b + 1 < 2 ^ 64) × ((x ≡ b) ⊎ (x ≡ b + 1)) × Beside blk c
Beside _ _ = ⊥

pub number : Point → Point → ℕ
number (b ∷ blk) (x ∷ c) = x - b + 2 * number blk c
number _ _ = 0

first : Point → ℕ
first [] = 0
first (x ∷ p) = x

others : Point → Point
others [] = []
others (x ∷ p) = p

-- A cell beside the block has one number.
pub Beside-number :
    (blk c : Point)
    → Beside blk c
    → (number blk c < 2 ^ length blk)
      × (shifted (number blk c) blk ≡ c)
      × ((k : ℕ) → k < 2 ^ length blk → shifted k blk ≡ c → k ≡ number blk c)
unfolding number shifted first others
Beside-number [] [] h = (omega arith, refl, λ k small e. omega arith)
Beside-number [] (x ∷ c) h = absurd h
Beside-number (b ∷ blk) [] h = absurd h
Beside-number (b ∷ blk) (x ∷ c) (top, beside, h) =
    let (small, same, only) = Beside-number blk c h in
    let n = number blk c in
    let size = pow-suc 2 (length blk) in
    let bit_eq : (x - b + 2 * n) % 2 ≡ x - b = ground arith in
    let half : (x - b + 2 * n) / 2 ≡ n = ground arith in
    let here : u64 (b + (x - b)) ≡ x = ground arith in
    (
      ground arith,
      rw (bit_eq, half) (ap₂ ◌∷◌ here same),
      λ k less e.
          let low : u64 (b + k % 2) ≡ x = ap first e in
          let high = only (k / 2) (omega (arith, size)) (ap others e) in omega (arith, low, high),
    )
