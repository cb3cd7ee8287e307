-- ===== src/Grid/Neighbours.antt =====
-- The cells of `intersection` against the cell of a near point.
use native.Mathlib.Nat.{
  add-div_right, le-div_iff_mul-le, div-mul-le_self, mul-le-mul_left, le_trans,
}
use opprf_fpsi.Prelude.{
  ℕ, zero, suc, ◌+◌, ◌-◌, ◌*◌, ◌/◌, ◌^◌, ◌≤◌, ◌<◌, ◌≡◌, refl, sym, ap, ◌∙◌, ◌⊎◌, inl, inr, List, [],
  ◌∷◌, Option, none, some, arith, length, get_elem?, ◌==◌, sub64, ok, Returns, Bool-cases,
}
use opprf_fpsi.Grid.Distances.{length-cross, metric_dist-Ends, position-Ends}
use opprf_fpsi.Grid.Corners.{shifts, corners-eq, get-from_zero, Beside, number, Beside-number}
use opprf_fpsi.Grid.Cells.{Point, cell, lower, block_, cross, get_position, intersection}

quotients : ℕ → Point → Point
quotients s [] = []
quotients s (x ∷ p) = (x / s) ∷ quotients s p

length-quotients : (s : ℕ) (p : Point) → length (quotients s p) ≡ length p
unfolding quotients
length-quotients s [] = refl
length-quotients s (x ∷ p) = ap suc (length-quotients s p)

cell-eq : (p : Point) (dim s : ℕ) → length p ≡ dim → 0 < s → cell p dim s ≡ ok (quotients s p)
unfolding cell quotients
cell-eq [] zero s e h = refl
cell-eq [] (suc dim) s e h = absurd (omega arith)
cell-eq (x ∷ p) zero s e h = absurd (omega arith)
cell-eq (x ∷ p) (suc dim) s e h = rw (cell-eq p dim s (omega arith) h) (ground arith)

-- Coordinate by coordinate: at most `delta` apart, with `delta` below the first one.
abbrev pub Near : ℕ → Point → Point → Type 0
Near delta [] [] = Unit
Near delta (x ∷ p) (y ∷ q) =
    (delta ≤ x) × (x < 2 ^ 64) × (x ≤ y + delta) × (y ≤ x + delta) × Near delta p q
Near delta _ _ = ⊥

lowered : ℕ → Point → Point
lowered d [] = []
lowered d (x ∷ p) = (x - d) ∷ lowered d p

lower-eq :
    (p q : Point) (dim d : ℕ) → length p ≡ dim → Near d p q → lower p dim d ≡ ok (lowered d p)
unfolding lower lowered
lower-eq [] q zero d e n = refl
lower-eq [] q (suc dim) d e n = absurd (omega arith)
lower-eq (x ∷ p) q zero d e n = absurd (omega arith)
lower-eq (x ∷ p) [] (suc dim) d e n = absurd n
lower-eq (x ∷ p) (y ∷ q) (suc dim) d e n =
    let here : sub64 x d ≡ x - d = omega (arith, n.0, n.1) in
    rw (lower-eq p q dim d (omega arith) n.4, here) refl

length-lowered : (d : ℕ) (p : Point) → length (lowered d p) ≡ length p
unfolding lowered
length-lowered d [] = refl
length-lowered d (x ∷ p) = ap suc (length-lowered d p)

div_mono : (a b k : ℕ) → 0 < k → a ≤ b → a / k ≤ b / k
div_mono a b k pos h = (le-div_iff_mul-le pos).1 (le_trans (div-mul-le_self a k) h)

div-two : (m s : ℕ) → 2 ≤ s → m / s * 2 ≤ m
div-two m s h = le_trans (mul-le-mul_left (m / s) h) (div-mul-le_self m s)

-- A whole side further is the next cell.
pub near_cell :
    (m y s : ℕ)
    → 2 ≤ s
    → m < 2 ^ 64
    → m ≤ y
    → y ≤ m + s
    → (m / s + 1 < 2 ^ 64) × ((y / s ≡ m / s) ⊎ (y / s ≡ m / s + 1))
near_cell m y s two small low high =
    let lower_side : m / s ≤ y / s = div_mono m y s (omega arith) low in
    let upper_side : y / s ≤ (m + s) / s = div_mono y (m + s) s (omega arith) high in
    let step : (m + s) / s ≡ m / s + 1 = add-div_right m (omega arith) in
    let half = div-two m s two in
    elim (Bool-cases (y / s == m / s)) [
      | inl e ↦ (omega arith, inl (ground arith))
      | inr e ↦ (omega arith, inr (ground arith))
    ]

Near-Beside :
    (d : ℕ) (p q : Point)
    → 1 ≤ d
    → Near d p q
    → Beside (quotients (2 * d) (lowered d p)) (quotients (2 * d) q)
unfolding quotients lowered
Near-Beside d [] [] pos n = tt
Near-Beside d [] (y ∷ q) pos n = absurd n
Near-Beside d (x ∷ p) [] pos n = absurd n
Near-Beside d (x ∷ p) (y ∷ q) pos (low, top, left, right, n) =
    let (small, beside) =
      near_cell (x - d) y (2 * d) (omega arith) (omega arith) (omega arith) (omega arith) in
    (small, beside, Near-Beside d p q pos n)

Near-length : (d : ℕ) (p q : Point) → Near d p q → length q ≡ length p
Near-length d [] [] n = refl
Near-length d [] (y ∷ q) n = absurd n
Near-length d (x ∷ p) [] n = absurd n
Near-length d (x ∷ p) (y ∷ q) n = ap suc (Near-length d p q n.4)

-- The cell stands at one place of the list, and at no other.
abbrev pub StandsOnce : Point → List Point → ℕ → Type 0
StandsOnce c cells n =
    (i : ℕ) × (i < n)
    × (get_elem? cells i ≡ some c)
    × ((k : ℕ) → k < n → get_elem? cells k ≡ some c → k ≡ i)

unwrap : Option Point → Point
unwrap none = []
unwrap (some c) = c

-- For points of at most 63 dimensions that are at most `delta` apart in each, `delta` not 0 and at
-- most the coordinates of the first, and cells of side `2 * delta`: both calls succeed, and the
-- cell of the second point stands at one place among the `2 ^ dim` cells of the first.
pub intersection-cell :
    (p q : Point) (metric dim delta : ℕ)
    → length p ≡ dim
    → dim ≤ 63
    → metric ≤ 2
    → 1 ≤ delta
    → Near delta p q
    → Returns (cell q dim (2 * delta)) λ c.
      Returns
        (intersection p metric dim delta (2 * delta) (2 ^ dim))
        λ cells. StandsOnce c cells (2 ^ dim)
unfolding intersection block_ get_position unwrap
intersection-cell p q metric dim d e small m pos near =
    let s = 2 * d in
    let blk = quotients s (lowered d p) in
    let c = quotients s q in
    let size : length blk ≡ dim = length-quotients s (lowered d p) ∙ length-lowered d p ∙ e in
    let crossed : length (cross blk s) ≡ dim = length-cross blk s ∙ size in
    let located : cell (lowered d p) dim s ≡ ok blk =
      cell-eq (lowered d p) dim s (length-lowered d p ∙ e) (omega arith) in
    let (dist, measured) = metric_dist-Ends metric p (cross blk s) dim m e crossed in
    let (pos_ind, placed) = position-Ends 0 0 (cross blk s) p dim (omega arith) crossed e in
    let (fits, same, only) = Beside-number blk c (Near-Beside d p q pos near) in
    let n = number blk c in
    (
      c,
      cell-eq q dim s (Near-length d p q near ∙ e) (omega arith),
      (
        shifts 0 (2 ^ dim) blk,
        rw (lower-eq p q dim d e near, located, measured, placed)
            (corners-eq 0 (2 ^ dim) blk (omega arith)),
        (
          n,
          rw size at fits,
          get-from_zero (2 ^ dim) n blk (rw size at fits) ∙ ap some same,
          λ k less found.
              only k (rw size less) (ap unwrap (sym (get-from_zero (2 ^ dim) k blk less) ∙ found)),
        ),
      ),
    )
