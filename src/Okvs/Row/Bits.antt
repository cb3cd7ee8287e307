-- ===== src/Okvs/Row/Bits.antt =====
-- The bits of a band, the sum of the columns that a band selects, and bands that are clear from a
-- position on.
use opprf_fpsi.Prelude.{
  ℕ, zero, suc, ◌+◌, ◌-◌, ◌≤◌, ◌<◌, ◌≡◌, refl, sym, ap, ap₂, ◌∙◌, Bool, true, false, ◌⊕◌, List, [],
  ◌∷◌, ◌++◌, replicate, length, arith, length-replicate,
}
use opprf_fpsi.Equality.Round.Step.{xor_row}
use opprf_fpsi.Okvs.Values.{Values, zero-xor, xor_interchange}

-- The bits of a sequence of words.
abbrev pub flatten : List (List Bool) → List Bool
flatten [] = []
flatten (w ∷ words) = w ++ flatten words

-- No bit is set at position `n` or later.
abbrev pub Clear : ℕ → List Bool → Type 0
Clear n [] = Unit
Clear zero (b ∷ bs) = (b ≡ false) × Clear zero bs
Clear (suc n) (b ∷ bs) = Clear n bs

pub Clear-mono : (n m : ℕ) (bs : List Bool) → n ≤ m → Clear n bs → Clear m bs
Clear-mono n m [] h c = tt
Clear-mono zero zero (b ∷ bs) h c = c
Clear-mono zero (suc m) (b ∷ bs) h c = Clear-mono zero m bs (omega arith) c.1
Clear-mono (suc n) zero (b ∷ bs) h c = absurd (omega arith)
Clear-mono (suc n) (suc m) (b ∷ bs) h c = Clear-mono n m bs (omega arith) c

pub Clear-zeros : (n k : ℕ) (bs : List Bool) → Clear n bs → Clear n (bs ++ replicate k false)
Clear-zeros zero zero [] c = tt
Clear-zeros zero (suc k) [] c = (refl, Clear-zeros zero k [] tt)
Clear-zeros (suc n) zero [] c = tt
Clear-zeros (suc n) (suc k) [] c = Clear-zeros n k [] tt
Clear-zeros zero k (b ∷ bs) c = (c.0, Clear-zeros zero k bs c.1)
Clear-zeros (suc n) k (b ∷ bs) c = Clear-zeros n k bs c

-- Past zeros that lead, the band is clear that much earlier.
pub Clear-past : (n k : ℕ) (bs : List Bool) → Clear n (replicate k false ++ bs) → Clear (n - k) bs
Clear-past n zero bs c = Clear-mono n (n - 0) bs (omega arith) c
Clear-past zero (suc k) bs c =
    Clear-mono (0 - k) (0 - suc k) bs (omega arith) (Clear-past zero k bs c.1)
Clear-past (suc n) (suc k) bs c =
    Clear-mono (n - k) (suc n - suc k) bs (omega arith) (Clear-past n k bs c)

pub Clear-above : (n k : ℕ) (bs : List Bool) → Clear n (replicate k false ++ (true ∷ bs)) → k < n
Clear-above zero zero bs c = cc
Clear-above (suc n) zero bs c = omega arith
Clear-above zero (suc k) bs c = absurd (omega (arith, Clear-above zero k bs c.1))
Clear-above (suc n) (suc k) bs c = omega (arith, Clear-above n k bs c)

pub Clear-xor_row : (n : ℕ) (a b : List Bool) → Clear n a → Clear n b → Clear n (xor_row a b)
Clear-xor_row n [] b c d = tt
Clear-xor_row n (x ∷ a) [] c d = tt
Clear-xor_row zero (x ∷ a) (y ∷ b) c d = (ground (arith, c.0, d.0), Clear-xor_row zero a b c.1 d.1)
Clear-xor_row (suc n) (x ∷ a) (y ∷ b) c d = Clear-xor_row n a b c d

module _ {Value : Type 0} (V : Values Value) (x : ℕ → Value) where
  open V use {zero_value, xor, xor_comm, xor_assoc, xor-zero, xor_self}

  unfoldable pub pick : Bool → Value → Value
  pick true v = v
  pick false v = zero_value

  -- The sum of the columns from `p` on that the bits select.
  unfoldable pub dot : ℕ → List Bool → Value
  dot p [] = zero_value
  dot p (b ∷ bs) = xor (pick b (x p)) (dot (suc p) bs)

  pub dot-append :
      (p q : ℕ) (a b : List Bool) → p + length a ≡ q → dot p (a ++ b) ≡ xor (dot p a) (dot q b)
  unfolding dot
  dot-append p q [] b e = let same : p ≡ q = omega arith in rw same (sym (zero-xor V (dot q b)))
  dot-append p q (c ∷ a) b e =
      rw (dot-append (suc p) q a b (omega arith))
        (sym (xor_assoc (pick c (x p)) (dot (suc p) a) (dot q b)))

  pub dot_zeros : (p k : ℕ) → dot p (replicate k false) ≡ zero_value
  unfolding dot pick
  dot_zeros p zero = refl
  dot_zeros p (suc k) = rw (dot_zeros (suc p) k) (xor-zero zero_value)

  pub dot-Clear : (p : ℕ) (bs : List Bool) → Clear zero bs → dot p bs ≡ zero_value
  unfolding dot pick
  dot-Clear p [] c = refl
  dot-Clear p (b ∷ bs) c =
      ap₂ xor (ap (λ t. pick t (x p)) c.0) (dot-Clear (suc p) bs c.1) ∙ xor-zero zero_value

  -- Zeros moved from the front of a band to its end move its start position.
  pub dot_moved :
      (p k : ℕ) (bs : List Bool)
      → dot p (replicate k false ++ bs) ≡ dot (p + k) (bs ++ replicate k false)
  dot_moved p k bs =
      dot-append p (p + k) (replicate k false) bs (omega (arith, length-replicate k false))
      ∙ ap (λ t. xor t (dot (p + k) bs)) (dot_zeros p k)
      ∙ xor_comm zero_value (dot (p + k) bs)
      ∙ sym (
          dot-append (p + k) (p + k + length bs) bs (replicate k false) refl
          ∙ ap (λ t. xor (dot (p + k) bs) t) (dot_zeros (p + k + length bs) k))

  pick-xor : (a b : Bool) (v : Value) → pick (a ⊕ b) v ≡ xor (pick a v) (pick b v)
  unfolding pick
  pick-xor true true v = sym (xor_self v)
  pick-xor true false v = sym (xor-zero v)
  pick-xor false true v = sym (zero-xor V v)
  pick-xor false false v = sym (xor-zero zero_value)

  pub dot-xor_row :
      (p : ℕ) (a b : List Bool)
      → length a ≡ length b
      → dot p (xor_row a b) ≡ xor (dot p a) (dot p b)
  unfolding dot
  dot-xor_row p [] [] e = sym (xor-zero zero_value)
  dot-xor_row p [] (y ∷ b) e = absurd (omega arith)
  dot-xor_row p (y ∷ a) [] e = absurd (omega arith)
  dot-xor_row p (y ∷ a) (z ∷ b) e =
      rw (pick-xor y z (x p), dot-xor_row (suc p) a b (omega arith))
        (xor_interchange V (pick y (x p)) (pick z (x p)) (dot (suc p) a) (dot (suc p) b))
