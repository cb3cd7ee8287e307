-- ===== src/Grid/Distances.antt =====
-- The distances and the position that `intersection` computes, and does not use, are defined.
use opprf_fpsi.Prelude.{
  ℕ, zero, suc, ◌+◌, ◌*◌, ◌^◌, ◌≤◌, ◌≡◌, refl, ap, inl, inr, false, [], ◌∷◌, arith, length, ltb,
  if◌then◌else◌, u64, ok, Result, Bool-cases,
}
use opprf_fpsi.Grid.Cells.{
  Point, cross, diff, l1_from, l2_from, l_inf_from, l1_dist, l2_dist, l_inf_dist, position_from,
  metric_dist,
}

pub length-cross : (b : Point) (s : ℕ) → length (cross b s) ≡ length b
unfolding cross
length-cross [] s = refl
length-cross (x ∷ b) s = ap suc (length-cross b s)

module _ {ℓ} {A : Type ℓ} where
  abbrev pub Ends : Result A → Type ℓ
  Ends r = (a : A) × (r ≡ ok a)

l1-Ends :
    (acc : ℕ) (p c : Point) (dim : ℕ) → length p ≡ dim → length c ≡ dim → Ends (l1_from acc p c dim)
unfolding l1_from
l1-Ends acc p c zero e f = (acc, refl)
l1-Ends acc [] c (suc dim) e f = absurd (omega arith)
l1-Ends acc (x ∷ p) [] (suc dim) e f = absurd (omega arith)
l1-Ends acc (x ∷ p) (y ∷ c) (suc dim) e f =
    l1-Ends (u64 (acc + diff x y)) p c dim (omega arith) (omega arith)

l2-Ends :
    (acc : ℕ) (p c : Point) (dim : ℕ) → length p ≡ dim → length c ≡ dim → Ends (l2_from acc p c dim)
unfolding l2_from
l2-Ends acc p c zero e f = (acc, refl)
l2-Ends acc [] c (suc dim) e f = absurd (omega arith)
l2-Ends acc (x ∷ p) [] (suc dim) e f = absurd (omega arith)
l2-Ends acc (x ∷ p) (y ∷ c) (suc dim) e f =
    l2-Ends (u64 (acc + u64 (diff x y * diff x y))) p c dim (omega arith) (omega arith)

l_inf-Ends :
    (acc : ℕ) (p c : Point) (dim : ℕ)
    → length p ≡ dim
    → length c ≡ dim
    → Ends (l_inf_from acc p c dim)
unfolding l_inf_from
l_inf-Ends acc p c zero e f = (acc, refl)
l_inf-Ends acc [] c (suc dim) e f = absurd (omega arith)
l_inf-Ends acc (x ∷ p) [] (suc dim) e f = absurd (omega arith)
l_inf-Ends acc (x ∷ p) (y ∷ c) (suc dim) e f =
    l_inf-Ends (if ltb acc (diff x y) then diff x y else acc) p c dim (omega arith) (omega arith)

pub metric_dist-Ends :
    (m : ℕ) (p c : Point) (dim : ℕ)
    → m ≤ 2
    → length p ≡ dim
    → length c ≡ dim
    → Ends (metric_dist m p c dim)
unfolding metric_dist l1_dist l2_dist l_inf_dist
metric_dist-Ends zero p c dim h e f = l_inf-Ends 0 p c dim e f
metric_dist-Ends (suc zero) p c dim h e f = l1-Ends 0 p c dim e f
metric_dist-Ends (suc (suc zero)) p c dim h e f = l2-Ends 0 p c dim e f
metric_dist-Ends (suc (suc (suc m))) p c dim h e f = absurd (omega arith)

pub position-Ends :
    (i pos : ℕ) (c p : Point) (dim : ℕ)
    → i + dim ≤ 64
    → length c ≡ dim
    → length p ≡ dim
    → Ends (position_from i pos c p dim)
unfolding position_from
position-Ends i pos c p zero h e f = (pos, refl)
position-Ends i pos [] p (suc dim) h e f = absurd (omega arith)
position-Ends i pos (x ∷ c) [] (suc dim) h e f = absurd (omega arith)
position-Ends i pos (x ∷ c) (y ∷ p) (suc dim) h e f =
    let below : ltb 63 i ≡ false = ground arith in
    elim (Bool-cases (ltb y x)) [
      | inl t ↦
          rw (t, below)
            (position-Ends (i + 1) (u64 (pos + 2 ^ i)) c p dim (omega arith) (omega arith)
              (omega arith))
      | inr t ↦ rw t (position-Ends (i + 1) pos c p dim (omega arith) (omega arith) (omega arith))
    ]
