-- ===== src/Okvs/Hash/Laws.antt =====
-- A hashed position leaves room for the band, and no bit of a hashed band is set past its width.
use mathlib.Core.Path.{subst}
use mathlib.Core.List.{append-nil}
use native.Mathlib.Nat.{mod-lt}
use opprf_fpsi.Prelude.{
  ℕ, zero, suc, ◌+◌, ◌-◌, ◌*◌, ◌%◌, ◌^◌, ◌≤◌, ◌<◌, ◌≡◌, refl, sym, ap, ◌∙◌, inl, inr, Bool, false,
  List, [], ◌∷◌, ◌++◌, take, drop, replicate, length, All, All-append, arith, Bool-cases, ◌==◌,
  length-append, length-replicate, length-take, length-drop, take-append-drop, sub64,
}
use opprf_fpsi.Okvs.{Rbokvs, div_ceil, w_blocks}
use opprf_fpsi.Okvs.Row.Bits.{flatten, Clear, Clear-zeros}
use opprf_fpsi.Okvs.Row.Shift.{IsWord, flatten-append, replicate-add}
use opprf_fpsi.Okvs.Hash.{
  Byte, zero_byte, bits_value, keep_bits, mask_last, mask_band, copy_words, hash_pos, hash_band,
}

abbrev pub IsByte : Byte → Type 0
IsByte byte = length byte ≡ 8

length-keep_bits : (n : ℕ) (byte : Byte) → n ≤ 8 → IsByte byte → IsByte (keep_bits n byte)
unfolding keep_bits
length-keep_bits n byte small h =
    length-append (take n byte) (replicate (8 - n) false)
    ∙ omega (arith, length-take n byte, length-replicate (8 - n) false, h)

mask_last-bytes :
    (n : ℕ) (bytes : List Byte)
    → n ≤ 8
    → All IsByte bytes
    → All IsByte (mask_last n bytes) × (length (mask_last n bytes) ≡ length bytes)
unfolding mask_last
mask_last-bytes n [] small h = (tt, refl)
mask_last-bytes n (byte ∷ []) small h = ((length-keep_bits n byte small h.0, tt), refl)
mask_last-bytes n (byte ∷ next ∷ bytes) small h =
    let rest = mask_last-bytes n (next ∷ bytes) small h.1 in ((h.0, rest.0), ap suc rest.1)

-- A band is clear past its own length.
Clear-length : (bs : List Bool) → Clear (length bs) bs
Clear-length [] = tt
Clear-length (b ∷ bs) = Clear-length bs

Clear-after : (a bs : List Bool) (n m : ℕ) → length a + n ≡ m → Clear n bs → Clear m (a ++ bs)
Clear-after [] bs n m e c = let same : n ≡ m = omega arith in subst (λ k. Clear k bs) same c
Clear-after (x ∷ a) bs n zero e c = absurd (omega arith)
Clear-after (x ∷ a) bs n (suc m) e c = Clear-after a bs n m (omega arith) c

Clear-keep_bits : (n : ℕ) (byte : Byte) → n ≤ 8 → IsByte byte → Clear n (keep_bits n byte)
unfolding keep_bits
Clear-keep_bits n byte small h =
    let size : length (take n byte) ≡ n = omega (arith, length-take n byte, h) in
    Clear-zeros n (8 - n) (take n byte)
      (subst (λ k. Clear k (take n byte)) size (Clear-length (take n byte)))

mask_last-Clear :
    (n m : ℕ) (bytes : List Byte)
    → n ≤ 8
    → All IsByte bytes
    → length bytes * 8 + n ≡ m + 8
    → Clear m (flatten (mask_last n bytes))
unfolding mask_last
mask_last-Clear n m [] small h e = tt
mask_last-Clear n m (byte ∷ []) small h e =
    let same : n ≡ m = omega arith in
    subst (Clear m) (sym (append-nil (keep_bits n byte)))
      (subst (λ k. Clear k (keep_bits n byte)) same (Clear-keep_bits n byte small h.0))
mask_last-Clear n m (byte ∷ next ∷ bytes) small h e =
    Clear-after byte (flatten (mask_last n (next ∷ bytes))) (m - 8) m (omega (arith, h.0))
      (mask_last-Clear n (m - 8) (next ∷ bytes) small h.1 (omega arith))

length-flat : (bytes : List Byte) → All IsByte bytes → length (flatten bytes) ≡ length bytes * 8
length-flat [] h = refl
length-flat (byte ∷ bytes) h =
    omega (arith, length-append byte (flatten bytes), length-flat bytes h.1, h.0)

mask_band-lem :
    (w : ℕ) (bytes : List Byte)
    → All IsByte bytes
    → length bytes ≡ div_ceil w 8
    → All IsByte (mask_band w bytes)
      × (length (mask_band w bytes) ≡ length bytes)
      × Clear w (flatten (mask_band w bytes))
unfolding mask_band div_ceil
mask_band-lem w bytes h size = elim (Bool-cases (w % 8 == 0)) [
  | inl e ↦
      let whole : length (flatten bytes) ≡ w = ground (arith, length-flat bytes h) in
      rw e (h, refl, subst (λ k. Clear k (flatten bytes)) whole (Clear-length (flatten bytes)))
  | inr e ↦
      let some_left : (w % 8 ≡ 0) → ⊥ = λ z. ground arith in
      let kept = mask_last-bytes (w % 8) bytes (omega arith) h in
      rw e (kept.0, kept.1, mask_last-Clear (w % 8) w bytes (omega arith) h (omega arith))
]

All-take : {A : Type 0} (P : A → Type 0) (n : ℕ) (xs : List A) → All P xs → All P (take n xs)
All-take P zero xs h = tt
All-take P (suc n) [] h = tt
All-take P (suc n) (x ∷ xs) h = (h.0, All-take P n xs h.1)

All-drop : {A : Type 0} (P : A → Type 0) (n : ℕ) (xs : List A) → All P xs → All P (drop n xs)
All-drop P zero xs h = h
All-drop P (suc n) [] h = tt
All-drop P (suc n) (x ∷ xs) h = All-drop P n xs h.1

copy_words-lem :
    (n : ℕ) (bytes : List Byte)
    → All IsByte bytes
    → length bytes ≡ n * 8
    → All IsWord (copy_words n bytes)
      × (length (copy_words n bytes) ≡ n)
      × (flatten (copy_words n bytes) ≡ flatten bytes)
unfolding copy_words
copy_words-lem zero [] h e = (tt, refl, refl)
copy_words-lem zero (byte ∷ bytes) h e = absurd (omega arith)
copy_words-lem (suc n) bytes h e =
    let rest =
      copy_words-lem n (drop 8 bytes) (All-drop IsByte 8 bytes h)
        (omega (arith, length-drop 8 bytes)) in
    (
      (
        omega (arith, length-flat (take 8 bytes) (All-take IsByte 8 bytes h), length-take 8 bytes),
        rest.0,
      ),
      ap suc rest.1,
      ap (λ t. flatten (take 8 bytes) ++ t) rest.2
          ∙ sym (flatten-append (take 8 bytes) (drop 8 bytes))
          ∙ ap flatten (take-append-drop 8 bytes),
    )

zero_bytes :
    (n : ℕ)
    → All IsByte (replicate n zero_byte)
      × (flatten (replicate n zero_byte) ≡ replicate (n * 8) false)
zero_bytes zero = (tt, refl)
zero_bytes (suc n) =
    let rest = zero_bytes n in
    let e : suc n * 8 ≡ 8 + n * 8 = omega arith in
    ((refl, rest.0), rw e (ap (λ t. replicate 8 false ++ t) rest.1 ∙ replicate-add 8 (n * 8) false))

bytes_fit : (w : ℕ) → div_ceil w 8 ≤ div_ceil w 128 * 16
unfolding div_ceil
bytes_fit w = omega arith

module _ {Block : Type 0} (blake3 : Block → Block → ℕ → List Byte) (o : Rbokvs Block) where
  -- BLAKE3 gives as many bytes as it is asked for.
  abbrev pub IsHash : Type 0
  IsHash =
      (seed input : Block) (n : ℕ)
      → All IsByte (blake3 seed input n) × (length (blake3 seed input n) ≡ n)

  pub hash_band-lem :
      (input : Block)
      → IsHash
      → All IsWord (hash_band blake3 o input)
        × (length (hash_band blake3 o input) ≡ 2 * w_blocks o)
        × Clear o.m_w (flatten (hash_band blake3 o input))
  unfolding hash_band
  hash_band-lem input hash =
      let w_bytes = div_ceil o.m_w 8 in
      let pad = w_blocks o * 16 - w_bytes in
      let out = blake3 o.m_r_band input w_bytes in
      let (bytes, size) = hash o.m_r_band input w_bytes in
      let (masked, same, clear) = mask_band-lem o.m_w out bytes size in
      let (zeros, flat) = zero_bytes pad in
      let all = mask_band o.m_w out ++ replicate pad zero_byte in
      let (words, count, bits) =
        copy_words-lem (2 * w_blocks o) all
          (All-append IsByte (mask_band o.m_w out) (replicate pad zero_byte) masked zeros)
          (length-append (mask_band o.m_w out) (replicate pad zero_byte)
            ∙ omega (arith, length-replicate pad zero_byte, same, size, bytes_fit o.m_w)) in
      let band : flatten all ≡ flatten (mask_band o.m_w out) ++ replicate (pad * 8) false =
        flatten-append (mask_band o.m_w out) (replicate pad zero_byte)
        ∙ ap (λ t. flatten (mask_band o.m_w out) ++ t) flat in
      (
        words,
        count,
        subst (Clear o.m_w) (sym (bits ∙ band))
            (Clear-zeros o.m_w (pad * 8) (flatten (mask_band o.m_w out)) clear),
      )

  pub hash_pos-lem :
      (input : Block)
      → o.m_w ≤ o.m_size
      → o.m_size < 2 ^ 64
      → hash_pos blake3 o input + o.m_w ≤ o.m_size
  unfolding hash_pos
  hash_pos-lem input small bounded = elim (Bool-cases (o.m_size == o.m_w)) [
    | inl e ↦ rw e (ground arith)
    | inr e ↦
        let off : o.m_w < o.m_size = ground (arith, small) in
        let gap : sub64 o.m_size o.m_w ≡ o.m_size - o.m_w = omega arith in
        let n = bits_value 0 (flatten (blake3 o.m_r_pos input 8)) in
        let low : n % (o.m_size - o.m_w) < o.m_size - o.m_w = mod-lt n (omega (arith, off)) in
        rw (e, gap) (omega (arith, low, off))
  ]
