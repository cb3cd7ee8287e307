-- ===== src/Prefix/Decompose/Laws.antt =====
-- `decompose_improve` as a whole: its strings begin just the values of the interval, each once.
use native.Mathlib.Nat.{
  mod-lt, mod-eq_of_lt, div-add-mod', mul-mod_left, pow-suc, pow-le-pow_right, add-sub_cancel,
}
use native.Mathlib.Numerals.{add-one}
use opprf_fpsi.Prelude.{
  ℕ, zero, suc, ◌+◌, ◌-◌, ◌*◌, ◌/◌, ◌%◌, ◌^◌, ◌≤◌, ◌<◌, ◌≡◌, ◌≢◌, refl, sym, ap, ◌∙◌, Bool, true,
  false, List, [], ◌∷◌, leb, ◌==◌, if◌then◌else◌, arith, u64, sub64, pow_pos, pred_suc, pow-add-one,
  mod_unique, Bool-cases, inl, inr, err, undefined, Returns, length, All, All-append, ◌++◌, bit,
}
use opprf_fpsi.Prefix.Strings.{to_binary_string, length-to_binary_string}
use opprf_fpsi.Prefix.Hits.{hits, in_range, in_range-add, covers-block}
use opprf_fpsi.Prefix.Decompose.{seek, traverse, decompose_improve}
use opprf_fpsi.Prefix.Decompose.Log.{floor_log2, floor_log2_bounds}
use opprf_fpsi.Prefix.Decompose.Cover.{traverse-hits}

mod-ne-zero : (a m q g : ℕ) → a + suc g ≡ q * m → suc g < m → a % m ≢ 0
mod-ne-zero a m q g e h z =
    let split : a / m * m + suc g ≡ q * m = omega (arith, div-add-mod' a m) in
    let rest : suc g ≡ 0 =
      sym (mod_unique (a / m) (suc g) m h) ∙ ap (λ (t : ℕ). t % m) split ∙ mul-mod_left q m in
    omega arith

-- With fuel for the distance, the loop stops at the first multiple of `m`.
seek-eq :
    (f a hi m q g : ℕ)
    → a + g ≡ q * m
    → g < m
    → g < f
    → q * m ≤ hi
    → hi < 2 ^ 64
    → seek f a hi m ≡ q * m
unfolding seek
seek-eq zero a hi m q g e gm gf fits top = absurd (omega arith)
seek-eq (suc f) a hi m q zero e gm gf fits top =
    let here : a ≡ q * m = omega arith in
    let done : a % m ≡ 0 = ap (λ (t : ℕ). t % m) here ∙ mul-mod_left q m in ground arith
seek-eq (suc f) a hi m q (suc g) e gm gf fits top =
    let next : u64 (a + 1) ≡ a + 1 = mod-eq_of_lt (omega arith) in
    let rest = seek-eq f (a + 1) hi m q g (omega arith) (omega arith) (omega arith) fits top in
    rw next (ground (arith, mod-ne-zero a m q g e gm, rest))

-- The strings are 33 to 64 characters long, so that at most 31 characters are left out.
abbrev pub IsLong : List Bool → Type 0
IsLong p = (33 ≤ length p) × (length p ≤ 64)

one_block-IsLong :
    (b : Bool) (x i : ℕ) → i ≤ 31 → All IsLong (if b then to_binary_string x (64 - i) ∷ [] else [])
one_block-IsLong true x i h =
    let n = length-to_binary_string x (64 - i) (omega arith) in ((omega arith, omega arith), tt)
one_block-IsLong false x i h = tt

traverse-IsLong : (i x y x' y' : ℕ) → i ≤ 32 → All IsLong (traverse i x y x' y')
unfolding traverse
traverse-IsLong zero x y x' y' h = tt
traverse-IsLong (suc i) x y x' y' h =
    All-append IsLong (right ++ left) _
      (All-append IsLong right left (one_block-IsLong (bit x i) x' i (omega arith))
        (one_block-IsLong (bit y i) y' i (omega arith)))
      (traverse-IsLong i x y _ _ (omega arith))
  where
    right : List (List Bool)
    right = if bit x i then to_binary_string x' (64 - i) ∷ [] else []

    left : List (List Bool)
    left = if bit y i then to_binary_string y' (64 - i) ∷ [] else []

-- What a list of strings must be to stand for the interval from `lo` to `hi`, both included.
pub record Splits (lo hi : ℕ) (ps : List (List Bool)) : Type 0 where
  pub once : (v : ℕ) → v < 2 ^ 64 → hits v ps ≡ in_range lo (hi + 1) v
  pub long : All IsLong ps

single-Splits : (x : ℕ) → x < 2 ^ 64 → Splits x x (to_binary_string x 64 ∷ [])
unfolding hits
single-Splits x h = record {
  once = λ v hv. rw (covers-block 64 0 x x v refl h hv (omega arith) (omega arith)) (ground arith);
  long = (
    (
      omega (arith, length-to_binary_string x 64 (omega arith)),
      omega (arith, length-to_binary_string x 64 (omega arith)),
    ),
    tt,
  );
}

-- The next multiple of `m` at or above `lo`.
next_multiple : (lo m : ℕ) → 0 < m → (q : ℕ) × (lo ≤ q * m) × (q * m < lo + m)
next_multiple lo m h =
    let n = lo + m - 1 in
    (
      n / m,
      omega (arith, div-add-mod' n m, mod-lt n h),
      omega (arith, div-add-mod' n m, mod-lt n h),
    )

module _ (lo hi : ℕ) (less : lo < hi) (top : hi < 2 ^ 64) where
  -- From an aligned start `a` between the ends, the two sides make up the interval.
  sides-Splits :
      (k a q : ℕ)
      → k ≤ 31
      → hi - lo + 1 < 2 ^ 32
      → a ≡ q * 2 ^ k
      → lo ≤ a
      → a < lo + 2 ^ k
      → a ≤ hi
      → hi - lo + 1 < 2 ^ (k + 1)
      → Splits lo hi (traverse (suc k) (u64 (sub64 hi a + 1)) (sub64 a lo) a (sub64 a 1))
  sides-Splits k a q hk short ea la al ah small =
      let x : u64 (sub64 hi a + 1) ≡ hi - a + 1 = omega arith in
      let y : sub64 a lo ≡ a - lo = omega arith in
      let one_more = pow-add-one k in
      let xs : (hi - a + 1) % 2 ^ suc k ≡ hi - a + 1 = mod-eq_of_lt (omega (arith, pow-suc 2 k)) in
      let ys : (a - lo) % 2 ^ suc k ≡ a - lo = mod-eq_of_lt (omega (arith, pow-suc 2 k)) in
      let start = ea ∙ ap (λ (t : ℕ). q * 2 ^ t) (sym (pred_suc k)) in
      rw (x, y)
        (record {
          once = λ v hv.
              traverse-hits (suc k) (hi - a + 1) (a - lo) q q a a a (sub64 a 1) v (omega arith) hv
                (omega arith) start start (omega (arith, xs)) (omega (arith, ys)) (omega arith) refl
              ∙ rw (xs, ys) (ground (arith, in_range-add lo a (hi + 1) v));
          long = traverse-IsLong (suc k) (hi - a + 1) (a - lo) a (sub64 a 1) (omega arith);
        })

  abbrev len : ℕ
  len = hi - lo + 1

  short_log : len < 2 ^ 31 → floor_log2 len ≤ 30
  short_log short = elim (Bool-cases (leb (floor_log2 len) 30)) [
    | inl e ↦ ground arith
    | inr e ↦
        let b = floor_log2_bounds len (omega arith) (omega arith) in
        let p : 2 ^ 31 ≤ 2 ^ floor_log2 len =
          pow-le-pow_right (omega arith) {i = 31} (ground arith) in
        absurd (omega arith)
  ]

  length-eq : len < 2 ^ 31 → u64 (sub64 hi lo + 1) ≡ len
  length-eq short = omega arith

  -- With an interval shorter than `2 ^ 31` values the call succeeds.
  long_interval : len < 2 ^ 31 → Returns (decompose_improve lo hi) (Splits lo hi)
  unfolding decompose_improve
  long_interval short =
      let k = floor_log2 len in
      let b = floor_log2_bounds len (omega arith) (omega arith) in
      let (q, above, below) = next_multiple lo (2 ^ k) (pow_pos k) in
      let found =
        seek-eq (2 ^ k) lo hi (2 ^ k) q (q * 2 ^ k - lo) (omega arith) (omega arith) (omega arith)
          (omega arith) top in
      (
        traverse (suc k) (u64 (sub64 hi (q * 2 ^ k) + 1)) (sub64 (q * 2 ^ k) lo) (q * 2 ^ k)
            (sub64 (q * 2 ^ k) 1),
        rw (length-eq short, add-sub_cancel k 1, found, add-one k)
            (ground (arith, short_log short)),
        sides-Splits k (q * 2 ^ k) q (omega (arith, short_log short)) (omega arith) refl above
            (omega arith) (omega arith) (b.1),
      )

-- On an interval of fewer than `2 ^ 31` values the call succeeds, and its strings begin each value
-- of the interval once and no other value.
pub decompose_improve-Splits :
    (lo hi : ℕ)
    → lo ≤ hi
    → hi < 2 ^ 64
    → hi - lo + 1 < 2 ^ 31
    → Returns (decompose_improve lo hi) (Splits lo hi)
unfolding decompose_improve
decompose_improve-Splits lo hi le top short = elim (Bool-cases (lo == hi)) [
  | inl e ↦
      let same_ends : lo ≡ hi = ground arith in
      (to_binary_string lo 64 ∷ [], ground arith, rw (← same_ends) (single-Splits lo (omega arith)))
  | inr e ↦ unfold decompose_improve in long_interval lo hi (ground arith) top short
]

log-ge : (t : ℕ) → 2 ^ 31 ≤ t → t < 2 ^ 64 → 31 ≤ floor_log2 t
log-ge t lo hi = elim (Bool-cases (leb 31 (floor_log2 t))) [
  | inl e ↦ ground arith
  | inr e ↦
      let b = floor_log2_bounds t (omega arith) hi in
      let p : 2 ^ (floor_log2 t + 1) ≤ 2 ^ 31 =
        pow-le-pow_right (omega arith) {j = 31} (ground arith) in
      absurd (omega arith)
]

-- A longer interval ends in undefined behaviour, also where `2 ^ 31` values are meant.
pub decompose_improve-long :
    (lo hi : ℕ)
    → lo ≤ hi
    → hi < 2 ^ 64
    → 2 ^ 31 ≤ hi - lo + 1
    → decompose_improve lo hi ≡ err undefined
unfolding decompose_improve
decompose_improve-long lo hi le top long = elim (Bool-cases (u64 (sub64 hi lo + 1) == 0)) [
  | inl e ↦ rw e (ground arith)
  | inr e ↦
      let t = u64 (sub64 hi lo + 1) in
      let size : t ≡ hi - lo + 1 = ground arith in
      let b = floor_log2_bounds t (omega arith) (omega arith) in
      let log : 31 ≤ floor_log2 t = log-ge t (omega arith) (omega arith) in rw e (ground arith)
]
