-- ===== src/Okvs/Solve/Laws.antt =====
-- The loops over a band that ends within the columns read no column out of range, and give the sum
-- of the columns that the band selects.
use mathlib.Core.Path.{subst}
use opprf_fpsi.Prelude.{
  ℕ, zero, suc, ◌+◌, ◌-◌, ◌*◌, ◌≤◌, ◌<◌, ◌≡◌, refl, sym, ap, ◌∙◌, inl, inr, Bool, true, false, List,
  [], ◌∷◌, ◌++◌, length, All, arith, ltb, Bool-cases, ok,
}
use opprf_fpsi.Okvs.Values.{Values}
use opprf_fpsi.Okvs.Row.{Word}
use opprf_fpsi.Okvs.Row.Bits.{flatten, Clear, pick, dot, dot-append, dot-Clear}
use opprf_fpsi.Okvs.Row.Shift.{IsWord, length-flatten}
use opprf_fpsi.Okvs.Solve.{column, column_or_zero, xor_word, xor_bit, xor_bits, xor_band}

-- A clear band stays so past its first bits.
Clear-rest : (n m : ℕ) (a bs : List Bool) → n ≡ length a + m → Clear n (a ++ bs) → Clear m bs
Clear-rest n m [] bs e c = let same : n ≡ m = omega arith in subst (λ k. Clear k bs) same c
Clear-rest zero m (x ∷ a) bs e c = absurd (omega arith)
Clear-rest (suc n) m (x ∷ a) bs e c = Clear-rest n m a bs (omega arith) c

module _ {Value : Type 0} (V : Values Value) (output : ℕ → Value) (size : ℕ) where
  column_or_zero-lem :
      (b : Bool) (j : ℕ)
      → j < size
      → column_or_zero V output size b j ≡ ok (pick V output b (output j))
  unfolding column_or_zero column pick
  column_or_zero-lem true j inside = let e : ltb j size ≡ true = ground arith in rw e refl
  column_or_zero-lem false j inside = refl

  xor_bit-lem :
      (b : Bool) (j : ℕ) (acc : Value)
      → j < size
      → xor_bit V output size b j acc ≡ ok (V.xor acc (pick V output b (output j)))
  unfolding xor_bit column pick
  xor_bit-lem true j acc inside = let e : ltb j size ≡ true = ground arith in rw e refl
  xor_bit-lem false j acc inside = ap ok (sym (V.xor-zero acc))

  xor_word-dot :
      (j : ℕ) (w : Word) (acc : Value)
      → j + length w ≤ size
      → xor_word V output size j w acc ≡ ok (V.xor acc (dot V output j w))
  unfolding xor_word dot
  xor_word-dot j [] acc inside = ap ok (sym (V.xor-zero acc))
  xor_word-dot j (b ∷ w) acc inside =
      let sum = xor_word-dot (suc j) w acc (omega arith) in
      let bit = column_or_zero-lem b j (omega arith) in
      rw (sum, bit)
        (ap ok (
          V.xor_assoc acc (dot V output (suc j) w) (pick V output b (output j))
          ∙ ap (V.xor acc) (V.xor_comm (dot V output (suc j) w) (pick V output b (output j)))))

  module _ (base : ℕ) (more64 more : ℕ → Bool) (limit : ℕ)
      (by_word : (k : ℕ) → more64 k ≡ ltb (k + 64) limit) (by_bit : (k : ℕ) → more k ≡ ltb k limit)
      (inside : base + limit ≤ size) where
    xor_bits-dot :
        (k n : ℕ) (bs : List Bool) (acc : Value)
        → n ≡ limit - k
        → n ≤ length bs
        → Clear n bs
        → xor_bits V output size base more64 more k bs acc
          ≡ ok (V.xor acc (dot V output (base + k) bs))
    unfolding xor_bits dot
    xor_bits-dot k n [] acc e long c =
        let stop : more k ≡ false = by_bit k ∙ ground arith in
        rw stop (ap ok (sym (V.xor-zero acc)))
    xor_bits-dot k zero (b ∷ bs) acc e long c =
        let stop : more k ≡ false = by_bit k ∙ ground arith in
        rw stop (
          ap ok (
            sym (V.xor-zero acc) ∙ ap (V.xor acc) (sym (dot-Clear V output (base + k) (b ∷ bs) c))))
    xor_bits-dot k (suc n) (b ∷ bs) acc e long c =
        let go : more k ≡ true = by_bit k ∙ ground arith in
        let next : base + suc k ≡ suc (base + k) = omega arith in
        let bit = xor_bit-lem b (base + k) acc (omega arith) in
        let sum = V.xor acc (pick V output b (output (base + k))) in
        rw (go, bit)
          (xor_bits-dot (suc k) n bs sum (omega arith) (omega arith) c
            ∙ ap ok (
                ap (λ p. V.xor sum (dot V output p bs)) next
                ∙ V.xor_assoc acc (pick V output b (output (base + k)))
                    (dot V output (suc (base + k)) bs)))

    -- Both loops together, on words of 64 bits that hold at least the `n` bits to come.
    pub xor_band-dot :
        (k n : ℕ) (words : List Word) (acc : Value)
        → n ≡ limit - k
        → n ≤ length words * 64
        → All IsWord words
        → Clear n (flatten words)
        → xor_band V output size base more64 more k words acc
          ≡ ok (V.xor acc (dot V output (base + k) (flatten words)))
    unfolding xor_band
    xor_band-dot k n [] acc e long h c =
        let stop : more64 k ≡ false = by_word k ∙ ground arith in
        rw stop (xor_bits-dot k n [] acc e (omega arith) c)
    xor_band-dot k n (w ∷ words) acc e long h c = elim (Bool-cases (more64 k)) [
      | inl go ↦
          let far : k + 64 < limit = ground (arith, sym (by_word k) ∙ go) in
          let start : base + k + length w ≡ base + (k + 64) = omega (arith, h.0) in
          let word = xor_word-dot (base + k) w acc (omega (arith, h.0, far, inside)) in
          rw (go, word)
            (xor_band-dot (k + 64) (n - 64) words (V.xor acc (dot V output (base + k) w))
                (omega arith) (omega arith) h.1
                (Clear-rest n (n - 64) w (flatten words) (omega (arith, h.0, far)) c)
              ∙ ap ok (
                  V.xor_assoc acc (dot V output (base + k) w)
                    (dot V output (base + (k + 64)) (flatten words))
                  ∙ ap (V.xor acc) (
                      sym (
                        dot-append V output (base + k) (base + (k + 64)) w (flatten words) start))))
      | inr stop ↦ rw stop (
          xor_bits-dot k n (flatten (w ∷ words)) acc e (omega (arith, length-flatten (w ∷ words) h))
            c)
    ]
