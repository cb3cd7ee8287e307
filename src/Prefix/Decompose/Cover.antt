-- ===== src/Prefix/Decompose/Cover.antt =====
-- The loop of `decompose_improve`: its strings begin just the values of two ranges, on the right
-- of `s` and on the left of `e`.
use native.Mathlib.Nat.{mod-eq_of_lt, sub-zero, mul_assoc, mul_comm, pow-suc, suc-mul, add-mul}
use opprf_fpsi.Prelude.{
  ℕ, zero, suc, ◌+◌, ◌-◌, ◌*◌, ◌%◌, ◌^◌, ◌≤◌, ◌<◌, ◌≡◌, sym, ap, ◌∙◌, Bool, true, false, [], ◌∷◌,
  if◌then◌else◌, arith, bit, u64, sub64, to_nat, pow_pos, pred_suc, mod-pow-suc,
}
use opprf_fpsi.Prefix.Strings.{to_binary_string}
use opprf_fpsi.Prefix.Hits.{hits, hits-append, in_range, in_range-add, covers-block}
use opprf_fpsi.Prefix.Decompose.{traverse}

-- A multiple of `2 ^ i` is one of the power before.
halve_step : (i a s : ℕ) → s ≡ a * 2 ^ i → (c : ℕ) × (s ≡ c * 2 ^ (i - 1))
halve_step zero a s e = (s, omega arith)
halve_step (suc i) a s e = (
  a * 2,
  rw (pred_suc i)
      (e ∙ ap (λ (t : ℕ). a * t) (pow-suc 2 i ∙ mul_comm (2 ^ i) 2) ∙ sym (mul_assoc a 2 (2 ^ i))),
)

-- One block to the right of `s`, if the bit is set.
right_hits :
    (i a s x' v : ℕ) (b : Bool)
    → i < 64
    → v < 2 ^ 64
    → s ≡ a * 2 ^ i
    → s + to_nat b * 2 ^ i ≤ 2 ^ 64
    → x' ≡ u64 s
    → hits v (if b then to_binary_string x' (64 - i) ∷ [] else [])
      ≡ in_range s (s + to_nat b * 2 ^ i) v
unfolding hits
right_hits i a s x' v true hi hv e fits ex =
    let small : s < 2 ^ 64 = omega (arith, pow_pos i) in
    let same : x' ≡ s = ex ∙ mod-eq_of_lt small in
    let block =
      covers-block (64 - i) i a x' v (omega arith) (omega arith) hv (omega arith)
        (omega (arith, pow_pos i)) in
    rw block (ground arith)
right_hits i a s x' v false hi hv e fits ex = ground arith

block_before : (a p : ℕ) → 0 < a * p → (a - 1) * p + p ≡ a * p
block_before zero p h = absurd (omega arith)
block_before (suc a) p h = rw (pred_suc a) (sym (suc-mul a p))

-- One block to the left of `e`, if the bit is set.
left_hits :
    (i a e y' v : ℕ) (b : Bool)
    → i < 64
    → v < 2 ^ 64
    → e < 2 ^ 64
    → e ≡ a * 2 ^ i
    → to_nat b * 2 ^ i ≤ e
    → y' ≡ sub64 e 1
    → hits v (if b then to_binary_string y' (64 - i) ∷ [] else [])
      ≡ in_range (e - to_nat b * 2 ^ i) e v
unfolding hits
left_hits i a e y' v true hi hv he el fits ey =
    let last : y' + 1 ≡ e = omega (arith, pow_pos i) in
    let from : (a - 1) * 2 ^ i + 2 ^ i ≡ e =
      block_before a (2 ^ i) (omega (arith, pow_pos i)) ∙ sym el in
    let block =
      covers-block (64 - i) i (a - 1) y' v (omega arith) (omega arith) hv (omega (arith, pow_pos i))
        (omega arith) in
    rw block (ground arith)
left_hits i a e y' v false hi hv he el fits ey = ground arith

next_right :
    (s x' p : ℕ) (b : Bool) → x' ≡ u64 s → (if b then u64 (x' + p) else x') ≡ u64 (s + to_nat b * p)
next_right s x' p true e = omega arith
next_right s x' p false e = omega arith

next_left :
    (e y' p : ℕ) (b : Bool)
    → e < 2 ^ 64
    → to_nat b * p ≤ e
    → y' ≡ sub64 e 1
    → (if b then sub64 y' p else y') ≡ sub64 (e - to_nat b * p) 1
next_left e y' p true he h ey = omega arith
next_left e y' p false he h ey = omega arith

glue :
    (v s s1 s2 e2 e1 e : ℕ)
    → s ≤ s1
    → s1 ≤ s2
    → e2 ≤ e1
    → e1 ≤ e
    → in_range s s1 v + in_range e1 e v + (in_range s1 s2 v + in_range e2 e1 v)
      ≡ in_range s s2 v + in_range e2 e v
glue v s s1 s2 e2 e1 e p q r t =
    omega (arith, in_range-add s s1 s2 v p q, in_range-add e2 e1 e v r t)

aligned_left :
    (a p e : ℕ) (b : Bool)
    → e ≡ a * p
    → 0 < p
    → to_nat b * p ≤ e
    → e - to_nat b * p ≡ (a - to_nat b) * p
aligned_left a p e true el h k = omega (arith, block_before a p (omega arith))
aligned_left a p e false el h k = rw (sub-zero a) (omega arith)

-- With `i` bits left, `s` and `e` are multiples of `2 ^ (i - 1)`: the strings still to come begin each
-- value of `[s, s + x % 2 ^ i)` and of `[e - y % 2 ^ i, e)` once, and no other.
pub traverse-hits :
    (i x y a b s e x' y' v : ℕ)
    → i ≤ 64
    → v < 2 ^ 64
    → e < 2 ^ 64
    → s ≡ a * 2 ^ (i - 1)
    → e ≡ b * 2 ^ (i - 1)
    → s + x % 2 ^ i ≤ 2 ^ 64
    → y % 2 ^ i ≤ e
    → x' ≡ u64 s
    → y' ≡ sub64 e 1
    → hits v (traverse i x y x' y') ≡ in_range s (s + x % 2 ^ i) v + in_range (e - y % 2 ^ i) e v
unfolding traverse hits
traverse-hits zero x y a b s e x' y' v hi hv he es ee fx fy ex ey = ground arith
traverse-hits (suc i) x y a b s e x' y' v hi hv he es ee fx fy ex ey =
    let s1 = s + to_nat (bit x i) * 2 ^ i in
    let e1 = e - to_nat (bit y i) * 2 ^ i in
    let fx' : s1 + x % 2 ^ i ≤ 2 ^ 64 = omega (arith, mod-pow-suc x i) in
    let fy' : y % 2 ^ i ≤ e1 = omega (arith, mod-pow-suc y i) in
    let by' : to_nat (bit y i) * 2 ^ i ≤ e = omega (arith, mod-pow-suc y i) in
    let es' = rw (pred_suc i) at es in
    let ee' = rw (pred_suc i) at ee in
    let right = right_hits i a s x' v (bit x i) (omega arith) hv es' (omega arith) ex in
    let left = left_hits i b e y' v (bit y i) (omega arith) hv he ee' by' ey in
    let next_s =
      halve_step i (a + to_nat (bit x i)) s1
        (omega (arith, add-mul a (to_nat (bit x i)) (2 ^ i))) in
    let next_e =
      halve_step i (b - to_nat (bit y i)) e1
        (aligned_left b (2 ^ i) e (bit y i) ee' (pow_pos i) by') in
    let rest =
      traverse-hits i x y next_s.0 next_e.0 s1 e1 _ _ v (omega arith) hv (omega arith) next_s.1
        next_e.1 fx' fy' (next_right s x' (2 ^ i) (bit x i) ex)
        (next_left e y' (2 ^ i) (bit y i) he by' ey) in
    let ends : s + x % 2 ^ suc i ≡ s1 + x % 2 ^ i = omega (arith, mod-pow-suc x i) in
    let starts : e - y % 2 ^ suc i ≡ e1 - y % 2 ^ i = omega (arith, mod-pow-suc y i) in
    rw (hits-append, hits-append, right, left, rest, ends, starts)
      (glue v s s1 (s1 + x % 2 ^ i) (e1 - y % 2 ^ i) e1 e (omega arith) (omega arith) (omega arith)
        (omega arith))
