-- ===== src/Equality/Run/Laws.antt =====
-- `eq0` and `eq1` together: the parties end with shares of the conjunction of each shared row.
use native.Mathlib.Nat.{pow-suc, mul-add}
use opprf_fpsi.Prelude.{
  ℕ, zero, suc, ◌+◌, ◌-◌, ◌*◌, ◌/◌, ◌^◌, ◌≤◌, ◌≡◌, refl, sym, ap, ap₂, ◌∙◌, Bool, true, ◌&&◌, List,
  [], ◌∷◌, some, arith, length,
}
use opprf_fpsi.Equality.Triples.{Triple}
use opprf_fpsi.Equality.Round.{Row}
use opprf_fpsi.Equality.Round.Step.{Products, xor_row, halve}
use opprf_fpsi.Equality.Round.Rows.{Shaped, opened, halve_all, rows_step}
use opprf_fpsi.Equality.Run.{rounds, resize, eq}

-- The conjunction of the bits of a row.
abbrev pub all : Row → Bool
all [] = true
all (b ∷ r) = b && all r

abbrev pub all_each : List Row → List Bool
all_each [] = []
all_each (r ∷ rs) = all r ∷ all_each rs

all-halve : (r : Row) → all (halve r) ≡ all r
all-halve (x ∷ y ∷ r) = ground (arith, all-halve r)
all-halve (x ∷ []) = refl
all-halve [] = refl

all_each-halve_all : (rs : List Row) → all_each (halve_all rs) ≡ all_each rs
all_each-halve_all [] = refl
all_each-halve_all (r ∷ rs) = ap₂ ◌∷◌ (all-halve r) (all_each-halve_all rs)

-- What the rounds end in: rows of one bit, shares of the conjunctions.
abbrev IsEnd : List Row → List Row → List Row × List Row → Type 0
IsEnd rs0 rs1 (n0, n1) =
    Shaped 1 n0 n1
    × (length n0 ≡ length rs0)
    × (all_each (opened n0 n1) ≡ all_each (opened rs0 rs1))

half-split : (m n : ℕ) → m * (n / 2) + m * ((n + 1) / 2 - 1) ≡ m * (n - 1)
half-split m zero = omega arith
half-split m (suc n) =
    sym (mul-add m (suc n / 2) ((suc n + 1) / 2 - 1)) ∙ ap (λ (t : ℕ). m * t) (omega arith)

rounds-IsEnd :
    (k n : ℕ) (rs0 rs1 : List Row) (ts0 ts1 : List Triple)
    → 1 ≤ n
    → n ≤ 2 ^ k
    → Shaped n rs0 rs1
    → Products ts0 ts1
    → length rs0 * (n - 1) ≤ length ts0
    → (end : List Row × List Row) × (rounds k rs0 rs1 ts0 ts1 ≡ some end) × IsEnd rs0 rs1 end
unfolding rounds
rounds-IsEnd zero n rs0 rs1 ts0 ts1 pos small sh p h =
    let one : n ≡ 1 = omega arith in ((rs0, rs1), refl, (rw one at sh, refl, refl))
rounds-IsEnd (suc k) n rs0 rs1 ts0 ts1 pos small sh p h =
    let split = half-split (length rs0) n in
    let s = rows_step n rs0 rs1 ts0 ts1 sh p (omega arith) in
    let (end, run, (shaped, count, same)) =
      rounds-IsEnd k ((n + 1) / 2) s.next0 s.next1 s.rest0 s.rest1 (omega arith)
        (omega (arith, pow-suc 2 k)) s.shaped s.left (rw s.same_count (omega (arith, s.used))) in
    (
      end,
      rw (s.masked0, s.masked1, s.joined0, s.joined1) run,
      (
        shaped,
        count ∙ s.same_count,
        same ∙ ap all_each s.shares ∙ all_each-halve_all (opened rs0 rs1),
      ),
    )

-- Rows of one bit, one behind the other.
resize-shares :
    (n0 n1 : List Row)
    → Shaped 1 n0 n1
    → xor_row (resize (length n0) n0) (resize (length n1) n1) ≡ all_each (opened n0 n1)
unfolding resize
resize-shares [] [] sh = refl
resize-shares [] (s ∷ n1) sh = absurd sh
resize-shares (r ∷ n0) [] sh = absurd sh
resize-shares ((x ∷ []) ∷ n0) ((y ∷ []) ∷ n1) (e0, e1, sh) =
    ap₂ ◌∷◌ (ground arith) (resize-shares n0 n1 sh)
resize-shares ([] ∷ n0) (s ∷ n1) (e0, e1, sh) = absurd (omega arith)
resize-shares ((x ∷ y ∷ r) ∷ n0) (s ∷ n1) (e0, e1, sh) = absurd (omega arith)
resize-shares ((x ∷ []) ∷ n0) ([] ∷ n1) (e0, e1, sh) = absurd (omega arith)
resize-shares ((x ∷ []) ∷ n0) ((y ∷ z ∷ s) ∷ n1) (e0, e1, sh) = absurd (omega arith)

length-resize : (n0 n1 : List Row) → Shaped 1 n0 n1 → length (resize (length n0) n0) ≡ length n0
unfolding resize
length-resize [] n1 sh = refl
length-resize (r ∷ n0) [] sh = absurd sh
length-resize ((x ∷ []) ∷ n0) (s ∷ n1) (e0, e1, sh) = ap suc (length-resize n0 n1 sh)
length-resize ([] ∷ n0) (s ∷ n1) (e0, e1, sh) = absurd (omega arith)
length-resize ((x ∷ y ∷ r) ∷ n0) (s ∷ n1) (e0, e1, sh) = absurd (omega arith)

Shaped-flip : (n : ℕ) (rs ss : List Row) → Shaped n rs ss → Shaped n ss rs
Shaped-flip n [] [] sh = tt
Shaped-flip n (r ∷ rs) (s ∷ ss) (e0, e1, sh) = (e1, e0, Shaped-flip n rs ss sh)
Shaped-flip n [] (s ∷ ss) sh = absurd sh
Shaped-flip n (r ∷ rs) [] sh = absurd sh

-- The two lists of bits are shares of a third.
abbrev pub IsShared : List Bool × List Bool → List Bool → Type 0
IsShared (b0, b1) bs = (length b0 ≡ length b1) × (xor_row b0 b1 ≡ bs)

Shaped-length : (n : ℕ) (rs ss : List Row) → Shaped n rs ss → length rs ≡ length ss
Shaped-length n [] [] sh = refl
Shaped-length n (r ∷ rs) (s ∷ ss) (e0, e1, sh) = ap suc (Shaped-length n rs ss sh)
Shaped-length n [] (s ∷ ss) sh = absurd sh
Shaped-length n (r ∷ rs) [] sh = absurd sh

-- On rows of a length from 1 to `2 ^ k`, with `k` rounds and valid triples, at least one less than
-- the length for each row, no party reads past its triples, and the bits that they get are shares
-- of the conjunctions of the shared rows.
pub eq-shares :
    (k n : ℕ) (rs0 rs1 : List Row) (ts0 ts1 : List Triple)
    → 1 ≤ n
    → n ≤ 2 ^ k
    → Shaped n rs0 rs1
    → Products ts0 ts1
    → length rs0 * (n - 1) ≤ length ts0
    → (out : List Bool × List Bool) × (eq k rs0 rs1 ts0 ts1 ≡ some out)
      × IsShared out (all_each (opened rs0 rs1))
unfolding eq
eq-shares k n rs0 rs1 ts0 ts1 pos small sh p h =
    let ((n0, n1), run, (shaped, count, same)) =
      rounds-IsEnd k n rs0 rs1 ts0 ts1 pos small sh p h in
    let count1 = sym (Shaped-length 1 n0 n1 shaped) ∙ count ∙ Shaped-length n rs0 rs1 sh in
    (
      (resize (length n0) n0, resize (length n1) n1),
      rw run (rw (count, count1) refl),
      (
        length-resize n0 n1 shaped
            ∙ Shaped-length 1 n0 n1 shaped
            ∙ sym (length-resize n1 n0 (Shaped-flip 1 n0 n1 shaped)),
        resize-shares n0 n1 shaped ∙ same,
      ),
    )
