-- ===== src/Equality/Peqt/Psm.antt =====
-- `Batch_PSM_recv` and `Batch_PSM_send`: shares of the parity of the matches of each batch.
use native.Mathlib.Nat.{suc-mul, mul-div_cancel}
use opprf_fpsi.Prelude.{
  ℕ, zero, suc, ◌*◌, ◌/◌, ◌^◌, ◌≤◌, ◌<◌, ◌≡◌, refl, sym, ap, ap₂, ◌∙◌, Bool, ◌⊕◌, ◌==◌, ◌++◌, List,
  [], ◌∷◌, some, arith, length, take, drop, replicate, All, All-append, length-append,
  length-replicate, length-take, length-drop,
}
use opprf_fpsi.Equality.Triples.{Triple}
use opprf_fpsi.Equality.Round.Step.{Products, xor_row}
use opprf_fpsi.Equality.Peqt.{sum_bits, sum_batches, spread, batch_psm}
use opprf_fpsi.Equality.Peqt.Laws.{equal_each, batch_peqt-equal}

-- The words of each batch are compared with the word of the batch.
abbrev pub matches : ℕ → List ℕ → List ℕ → List Bool
matches batch_size eles [] = []
matches batch_size eles (d ∷ datas) =
    sum_bits (equal_each (take batch_size eles) (replicate batch_size d))
    ∷ matches batch_size (drop batch_size eles) datas

sum_bits-xor :
    (r s : List Bool) → length r ≡ length s → sum_bits r ⊕ sum_bits s ≡ sum_bits (xor_row r s)
unfolding sum_bits
sum_bits-xor [] [] e = refl
sum_bits-xor (x ∷ r) (y ∷ s) e = ground (arith, sum_bits-xor r s (omega arith))
sum_bits-xor [] (y ∷ s) e = absurd (omega arith)
sum_bits-xor (x ∷ r) [] e = absurd (omega arith)

pub take-xor_row : (n : ℕ) (r s : List Bool) → xor_row (take n r) (take n s) ≡ take n (xor_row r s)
take-xor_row zero r s = refl
take-xor_row (suc n) [] s = refl
take-xor_row (suc n) (x ∷ r) [] = refl
take-xor_row (suc n) (x ∷ r) (y ∷ s) = ap (λ t. (x ⊕ y) ∷ t) (take-xor_row n r s)

drop-xor_row : (n : ℕ) (r s : List Bool) → xor_row (drop n r) (drop n s) ≡ drop n (xor_row r s)
drop-xor_row zero r s = refl
drop-xor_row (suc n) [] s = refl
drop-xor_row (suc n) (x ∷ r) [] = nil-right (drop n r)
  where
    nil-right : (t : List Bool) → xor_row t [] ≡ []
    nil-right [] = refl
    nil-right (z ∷ t) = refl
drop-xor_row (suc n) (x ∷ r) (y ∷ s) = drop-xor_row n r s

sum_batches-shares :
    (m n : ℕ) (r s : List Bool)
    → length r ≡ length s
    → xor_row (sum_batches m n r) (sum_batches m n s) ≡ sum_batches m n (xor_row r s)
unfolding sum_batches
sum_batches-shares m zero r s e = refl
sum_batches-shares m (suc n) r s e =
    ap₂ ◌∷◌
      (sum_bits-xor (take m r) (take m s) (rw (length-take m r, length-take m s, e) refl)
        ∙ ap sum_bits (take-xor_row m r s))
      (sum_batches-shares m n (drop m r) (drop m s) (rw (length-drop m r, length-drop m s, e) refl)
        ∙ ap (sum_batches m n) (drop-xor_row m r s))

take-equal_each :
    (n d : ℕ) (xs ys : List ℕ)
    → take n (equal_each xs (replicate n d ++ ys)) ≡ equal_each (take n xs) (replicate n d)
take-equal_each zero d xs ys = refl
take-equal_each (suc n) d [] ys = refl
take-equal_each (suc n) d (x ∷ xs) ys = ap (λ t. (x == d) ∷ t) (take-equal_each n d xs ys)

drop-equal_each :
    (n d : ℕ) (xs ys : List ℕ)
    → drop n (equal_each xs (replicate n d ++ ys)) ≡ equal_each (drop n xs) ys
drop-equal_each zero d xs ys = refl
drop-equal_each (suc n) d [] ys = refl
drop-equal_each (suc n) d (x ∷ xs) ys = drop-equal_each n d xs ys

sum_batches-matches :
    (m : ℕ) (eles datas : List ℕ)
    → sum_batches m (length datas) (equal_each eles (spread m datas)) ≡ matches m eles datas
unfolding sum_batches spread
sum_batches-matches m eles [] = refl
sum_batches-matches m eles (d ∷ datas) =
    ap₂ ◌∷◌ (ap sum_bits (take-equal_each m d eles (spread m datas))) (
      ap (sum_batches m (length datas)) (drop-equal_each m d eles (spread m datas))
      ∙ sum_batches-matches m (drop m eles) datas)

length-spread : (m : ℕ) (datas : List ℕ) → length (spread m datas) ≡ length datas * m
unfolding spread
length-spread m [] = omega arith
length-spread m (d ∷ datas) =
    length-append (replicate m d) (spread m datas)
    ∙ omega (arith, length-replicate m d, length-spread m datas, suc-mul (length datas) m)

All-replicate : (P : ℕ → Type 0) (n d : ℕ) → P d → All P (replicate n d)
All-replicate P zero d h = tt
All-replicate P (suc n) d h = (h, All-replicate P n d h)

All-spread : (P : ℕ → Type 0) (m : ℕ) (datas : List ℕ) → All P datas → All P (spread m datas)
unfolding spread
All-spread P m [] h = tt
All-spread P m (d ∷ datas) h =
    All-append P (replicate m d) (spread m datas) (All-replicate P m d h.0)
      (All-spread P m datas h.1)

-- On batches of one size that is not 0, of 64-bit words, with 64 valid triples for each word of the
-- receiver and rounds for 64 bits, the parties end with shares of one bit for each batch: the
-- parity of the number of words of the batch that are equal to the sender's word for it.
pub batch_psm-matches :
    (k batch_size : ℕ) (eles datas : List ℕ) (ts0 ts1 : List Triple)
    → 1 ≤ batch_size
    → 64 ≤ 2 ^ k
    → length eles ≡ length datas * batch_size
    → All (λ x. x < 2 ^ 64) eles
    → All (λ y. y < 2 ^ 64) datas
    → Products ts0 ts1
    → length ts0 ≡ length eles * 64
    → (out : List Bool × List Bool) × (batch_psm k eles datas batch_size ts0 ts1 ≡ some out)
      × (xor_row out.0 out.1 ≡ matches batch_size eles datas)
unfolding batch_psm
batch_psm-matches k m eles datas ts0 ts1 pos small count hx hy p size =
    let ((b0, b1), run, (same, shares)) =
      batch_peqt-equal k 64 eles (spread m datas) ts0 ts1 (omega arith) small
        (count ∙ sym (length-spread m datas)) hx (All-spread (λ y. y < 2 ^ 64) m datas hy) p size in
    let batches : length eles / m ≡ length datas = rw count (mul-div_cancel (length datas) pos) in
    (
      (sum_batches m (length datas) b0, sum_batches m (length datas) b1),
      rw run (rw batches refl),
      sum_batches-shares m (length datas) b0 b1 same
          ∙ ap (sum_batches m (length datas)) shares
          ∙ sum_batches-matches m eles datas,
    )
