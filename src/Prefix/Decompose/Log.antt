-- ===== src/Prefix/Decompose/Log.antt =====
-- `static_cast<u64>(std::log2(t))` of `decompose_improve`. The double is exact enough for the
-- lengths that do not end in undefined behaviour, `t < 2 ^ 31`.
use native.Mathlib.Nat.{pow-suc}
use opprf_fpsi.Prelude.{
  ℕ, zero, suc, ◌+◌, ◌/◌, ◌^◌, ◌≤◌, ◌<◌, ltb, if◌then◌else◌, arith, Bool-cases, inl, inr,
  pow-add-one,
}

unfoldable pub halve : ℕ → ℕ → ℕ
halve zero t = 0
halve (suc fuel) t = if ltb t 2 then 0 else halve fuel (t / 2) + 1

unfoldable pub floor_log2 : ℕ → ℕ
floor_log2 t = halve 64 t

halve_bounds : (f t : ℕ) → 0 < t → t < 2 ^ f → (2 ^ halve f t ≤ t) × (t < 2 ^ (halve f t + 1))
unfolding halve
halve_bounds zero t p h = omega arith
halve_bounds (suc f) t p h = elim (Bool-cases (ltb t 2)) [
  | inl e ↦ rw e (ground arith)
  | inr e ↦
      let half : t / 2 < 2 ^ f = ground (arith, pow-suc 2 f) in
      let ih = halve_bounds f (t / 2) (ground arith) half in
      rw e (omega (arith, ih, pow-add-one (halve f (t / 2)), pow-add-one (halve f (t / 2) + 1)))
]

-- The greatest power of two that is not above a u64 other than 0.
pub floor_log2_bounds :
    (t : ℕ) → 0 < t → t < 2 ^ 64 → (2 ^ floor_log2 t ≤ t) × (t < 2 ^ (floor_log2 t + 1))
unfolding floor_log2
floor_log2_bounds t p h = halve_bounds 64 t p h
