-- ===== src/Equality/Peqt/Laws.antt =====
-- What the two protocols compute: shares of equality, and of the parity of the matches of a batch.
use native.Mathlib.Nat.{pow-suc, mul-suc}
use opprf_fpsi.Prelude.{
  ℕ, zero, suc, ◌-◌, ◌*◌, ◌/◌, ◌^◌, ◌≤◌, ◌<◌, ◌≡◌, refl, ap, ap₂, ◌∙◌, Bool, ◌==◌, List, [], ◌∷◌,
  some, arith, length, All,
}
use opprf_fpsi.Equality.Triples.{Triple}
use opprf_fpsi.Equality.Round.{Row}
use opprf_fpsi.Equality.Round.Step.{Products, xor_row}
use opprf_fpsi.Equality.Round.Rows.{Shaped, opened}
use opprf_fpsi.Equality.Run.Laws.{all, all_each, IsShared, eq-shares}
use opprf_fpsi.Equality.Peqt.{word_bits, negated, input_rows, negated_rows, batch_peqt}

-- Position by position, whether the words are equal.
abbrev pub equal_each : List ℕ → List ℕ → List Bool
equal_each (x ∷ xs) (y ∷ ys) = (x == y) ∷ equal_each xs ys
equal_each _ _ = []

length-word_bits : (w x : ℕ) → length (word_bits w x) ≡ w
unfolding word_bits
length-word_bits zero x = refl
length-word_bits (suc w) x = ap suc (length-word_bits w (x / 2))

length-negated : (r : Row) → length (negated r) ≡ length r
unfolding negated
length-negated [] = refl
length-negated (b ∷ r) = ap suc (length-negated r)

same_word :
    (w x y : ℕ)
    → x < 2 ^ w
    → y < 2 ^ w
    → all (xor_row (word_bits w x) (negated (word_bits w y))) ≡ (x == y)
unfolding word_bits negated
same_word zero x y hx hy = ground arith
same_word (suc w) x y hx hy =
    let e = same_word w (x / 2) (y / 2) (omega (arith, pow-suc 2 w)) (omega (arith, pow-suc 2 w)) in
    rw e (ground arith)

rows-Shaped :
    (w : ℕ) (eles datas : List ℕ)
    → length eles ≡ length datas
    → Shaped w (input_rows w eles) (negated_rows w datas)
unfolding input_rows negated_rows
rows-Shaped w [] [] e = tt
rows-Shaped w [] (y ∷ datas) e = absurd (omega arith)
rows-Shaped w (x ∷ eles) [] e = absurd (omega arith)
rows-Shaped w (x ∷ eles) (y ∷ datas) e = (
  length-word_bits w x,
  length-negated (word_bits w y) ∙ length-word_bits w y,
  rows-Shaped w eles datas (omega arith),
)

rows-equal :
    (w : ℕ) (eles datas : List ℕ)
    → All (λ x. x < 2 ^ w) eles
    → All (λ y. y < 2 ^ w) datas
    → all_each (opened (input_rows w eles) (negated_rows w datas)) ≡ equal_each eles datas
unfolding input_rows negated_rows
rows-equal w [] datas hx hy = refl
rows-equal w (x ∷ eles) [] hx hy = refl
rows-equal w (x ∷ eles) (y ∷ datas) hx hy =
    ap₂ ◌∷◌ (same_word w x y hx.0 hy.0) (rows-equal w eles datas hx.1 hy.1)

length-input_rows : (w : ℕ) (eles : List ℕ) → length (input_rows w eles) ≡ length eles
unfolding input_rows
length-input_rows w [] = refl
length-input_rows w (x ∷ eles) = ap suc (length-input_rows w eles)

enough : (n w m : ℕ) → n * w ≤ m → n * (w - 1) ≤ m
enough n zero m h = h
enough n (suc w) m h =
    let less : n * (suc w - 1) ≡ n * w = ap (λ (t : ℕ). n * t) (omega arith) in
    omega (arith, less, mul-suc n w)

-- On two lists of one length, of words of `w` bits, with `w` valid triples for each word and
-- rounds for `w` bits, the parties end with shares of the equality of each pair.
pub batch_peqt-equal :
    (k w : ℕ) (eles datas : List ℕ) (ts0 ts1 : List Triple)
    → 1 ≤ w
    → w ≤ 2 ^ k
    → length eles ≡ length datas
    → All (λ x. x < 2 ^ w) eles
    → All (λ y. y < 2 ^ w) datas
    → Products ts0 ts1
    → length ts0 ≡ length eles * w
    → (out : List Bool × List Bool) × (batch_peqt k w eles datas ts0 ts1 ≡ some out)
      × IsShared out (equal_each eles datas)
unfolding batch_peqt
batch_peqt-equal k w eles datas ts0 ts1 pos small same hx hy p count =
    let rows = length-input_rows w eles in
    let fits = enough (length eles) w (length ts0) (omega arith) in
    let (out, run, shares) =
      eq-shares k w (input_rows w eles) (negated_rows w datas) ts0 ts1 pos small
        (rows-Shaped w eles datas same) p (rw rows fits) in
    (out, run, (shares.0, shares.1 ∙ rows-equal w eles datas hx hy))
