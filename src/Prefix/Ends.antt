-- ===== src/Prefix/Ends.antt =====
-- The blocks of values of the strings that `set_dec` gives lie inside the interval, and those of the
-- strings that `set_prefix` gives hold the value.
use native.Mathlib.Nat.{mul-le-mul_left, mul_comm, mul-suc}
use opprf_fpsi.Prelude.{
  ℕ, ◌+◌, ◌-◌, ◌*◌, ◌^◌, ◌≤◌, ◌<◌, ◌≡◌, ap, ◌∙◌, inl, inr, Bool, true, List, [], ◌∷◌, arith, length,
  take, length-take, All, All-In, In, pow-add, pow_pos,
}
use opprf_fpsi.Prefix.Strings.{
  to_bits, to_ullong, up_bound, low_bound, same_refl, covers, length-to_bits,
}
use opprf_fpsi.Prefix.Hits.{hits}
use opprf_fpsi.Prefix.Bounds.{low_bound-eq, up_bound-eq, to_ullong-lt, covers-bounds}
use opprf_fpsi.Prefix.SetDec.Cover.{HasWidth, Covers}
use opprf_fpsi.Prefix.Match.{queries}

In-hits :
    (p : List Bool) (v : ℕ) (ps : List (List Bool)) → In p ps → covers p v ≡ true → 1 ≤ hits v ps
unfolding hits
In-hits p v [] m c = absurd m
In-hits p v (q ∷ ps) (inl e) c = let here : covers q v ≡ true = rw (← e) c in rw here (omega arith)
In-hits p v (q ∷ ps) (inr m) c = omega (arith, In-hits p v ps m c)

-- The ends of the block of a prefix are values, in order.
ends_in_order : (p : List Bool) → length p ≤ 64 → (low_bound p ≤ up_bound p) × (up_bound p < 2 ^ 64)
ends_in_order p h =
    let k = 64 - length p in
    let whole : 64 ≡ k + length p = omega arith in
    let size : 2 ^ 64 ≡ 2 ^ k * 2 ^ length p = ap (λ (t : ℕ). 2 ^ t) whole ∙ pow-add k (length p) in
    let top = mul-le-mul_left (2 ^ k) (to_ullong-lt p) in
    let low = low_bound-eq p in
    let up = up_bound-eq p in
    let turned = mul_comm (2 ^ k) (to_ullong p) in
    (
      omega (arith, low, up, pow_pos k),
      omega (arith, up, top, size, turned, mul-suc (2 ^ k) (to_ullong p)),
    )

-- Each string that `set_dec` gives begins only values of the interval.
pub Covers-ends :
    (x y : ℕ) (u : List ℕ) (ps : List (List Bool)) (p : List Bool)
    → Covers x y u ps
    → In p ps
    → (length p ≤ 64) × (x ≤ low_bound p) × (up_bound p ≤ y)
Covers-ends x y u ps p c m =
    let wide = All-In (HasWidth u) p ps c.wide m in
    let (order, top) = ends_in_order p wide.0 in
    let low_in =
      In-hits p (low_bound p) ps m
        ((covers-bounds p (low_bound p) wide.0 (omega arith)).1 (omega arith, order)) in
    let up_in =
      In-hits p (up_bound p) ps m
        ((covers-bounds p (up_bound p) wide.0 top).1 (order, omega arith)) in
    let low_once = c.once (low_bound p) (omega arith) in
    let up_once = c.once (up_bound p) top in
    (wide.0, ground (arith, low_in, low_once), ground (arith, up_in, up_once))

-- Each string of a value's prefixes begins the value.
pub queries-covers :
    (v : ℕ) (u : List ℕ) (p : List Bool)
    → All (λ i. i ≤ 64) u
    → In p (queries v u)
    → covers p v ≡ true
unfolding queries covers
queries-covers v [] p h m = absurd m
queries-covers v (i ∷ u) p h (inl e) =
    let size : length (take (64 - i) (to_bits 64 v)) ≡ 64 - i =
      omega (arith, length-take (64 - i) (to_bits 64 v), length-to_bits 64 v) in
    rw (e, size) (same_refl (take (64 - i) (to_bits 64 v)))
queries-covers v (i ∷ u) p h (inr m) = queries-covers v u p h.1 m
