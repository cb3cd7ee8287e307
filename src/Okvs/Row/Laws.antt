-- ===== src/Okvs/Row/Laws.antt =====
-- What `reformalize` does to a row.
use mathlib.Core.List.{append_assoc}
use mathlib.Core.Path.{subst}
use opprf_fpsi.Prelude.{
  ℕ, zero, suc, ◌+◌, ◌-◌, ◌*◌, ◌≤◌, ◌<◌, ◌^◌, ◌≡◌, refl, sym, ap, ap₂, ◌∙◌, inl, inr, Bool, true,
  false, List, [], ◌∷◌, ◌++◌, drop, replicate, length, All, All-append, arith, Bool-cases,
  length-append, length-replicate, ◌==◌,
}
use opprf_fpsi.Okvs.Values.{Values}
use opprf_fpsi.Okvs.Row.{
  Word, MatrixRow, EncodeStatus, success, fail, all_zero, zero_word, first_word, left_shift,
  leading_zeros, is_zero_word, num_zero_blocks, shift_first, shift_row, reformalize,
}
use opprf_fpsi.Okvs.Row.Bits.{flatten, Clear, Clear-zeros, Clear-past, Clear-above, dot, dot_moved}
use opprf_fpsi.Okvs.Row.Shift.{
  IsWord, replicate-add, flatten-append, flatten-zeros, left_shift-Split, leading_zeros-split,
}
use opprf_fpsi.Okvs.Row.Words.{
  drop-replicate, length-shift_first, shift_first-words, flatten-shift_first,
}

All-append_right : {A : Type 0} (P : A → Type 0) (a b : List A) → All P (a ++ b) → All P b
All-append_right P [] b h = h
All-append_right P (x ∷ a) b h = All-append_right P a b h.1

All-replicate : {A : Type 0} (P : A → Type 0) (n : ℕ) (a : A) → P a → All P (replicate n a)
All-replicate P zero a h = tt
All-replicate P (suc n) a h = (h, All-replicate P n a h)

shifted_words :
    (w : Word) (rest : List Word) (bits : List Bool) (n k : ℕ)
    → leading_zeros w ≡ k
    → w ≡ replicate k false ++ (true ∷ bits)
    → All IsWord (w ∷ rest)
    → flatten (shift_first (w ∷ rest) ++ replicate n zero_word)
      ≡ (true ∷ (bits ++ flatten rest)) ++ replicate (n * 64 + k) false
shifted_words w rest bits n k count t h =
    let front : flatten (w ∷ rest) ≡ replicate k false ++ (true ∷ (bits ++ flatten rest)) =
      ap (λ u. u ++ flatten rest) t
      ∙ append_assoc (replicate k false) (true ∷ bits) (flatten rest) in
    let total : k + n * 64 ≡ n * 64 + k = omega arith in
    flatten-append (shift_first (w ∷ rest)) (replicate n zero_word)
    ∙ ap₂ ◌++◌
        (flatten-shift_first w rest h
          ∙ ap (λ j. drop j (flatten (w ∷ rest)) ++ replicate j false) count
          ∙ ap (λ u. drop k u ++ replicate k false) front
          ∙ ap (λ u. u ++ replicate k false)
              (drop-replicate k false (true ∷ (bits ++ flatten rest))))
        (flatten-zeros n)
    ∙ append_assoc (true ∷ (bits ++ flatten rest)) (replicate k false) (replicate (n * 64) false)
    ∙ ap (λ u. (true ∷ (bits ++ flatten rest)) ++ u)
        (replicate-add k (n * 64) false ∙ ap (λ j. replicate j false) total)

Clear-all : (n : ℕ) → Clear 0 (replicate n false)
Clear-all n = Clear-zeros 0 n [] tt

module _ {Value : Type 0} where
  -- The bits of a row.
  abbrev pub band : MatrixRow Value → List Bool
  band row = flatten row.words

  -- A row of `w_blocks` blocks whose set bits lie below `room`.
  abbrev pub IsRow : ℕ → ℕ → MatrixRow Value → Type 0
  IsRow w_blocks room row =
      All IsWord row.words × (length row.words ≡ 2 * w_blocks) × Clear room (band row)

  -- The bits of `row'` start with one that is set; `k` zeros of `row` went from the front to the end.
  abbrev pub IsShifted : ℕ → MatrixRow Value → MatrixRow Value → Type 0
  IsShifted k row row' =
      (rest : List Bool) × (band row ≡ replicate k false ++ (true ∷ rest))
      × (band row' ≡ (true ∷ rest) ++ replicate k false)
      × (row'.val ≡ row.val)

  shifted_band :
      (row : MatrixRow Value) (w : Word) (rest : List Word) (bits : List Bool) (n k : ℕ)
      → row.words ≡ replicate n zero_word ++ (w ∷ rest)
      → w ≡ replicate k false ++ (true ∷ bits)
      → flatten row.words ≡ replicate (n * 64 + k) false ++ (true ∷ (bits ++ flatten rest))
  shifted_band row w rest bits n k s t =
      ap flatten s
      ∙ flatten-append (replicate n zero_word) (w ∷ rest)
      ∙ ap₂ ◌++◌ (flatten-zeros n) (
          ap (λ u. u ++ flatten rest) t
          ∙ append_assoc (replicate k false) (true ∷ bits) (flatten rest))
      ∙ sym (
          append_assoc (replicate (n * 64) false) (replicate k false)
            (true ∷ (bits ++ flatten rest)))
      ∙ ap (λ u. u ++ (true ∷ (bits ++ flatten rest))) (replicate-add (n * 64) k false)

  -- What the two shifts make of a row whose first other word than zero is `w`.
  abbrev pub Shifts : ℕ → MatrixRow Value → MatrixRow Value → Type 0
  Shifts k row row' =
      IsShifted k row row'
      × All IsWord row'.words
      × (length row'.words ≡ length row.words)
      × (row.start_pos + k < 2 ^ 64 → row'.start_pos ≡ row.start_pos + k)

  pub shift_row-Shifts :
      (row : MatrixRow Value) (w : Word) (rest : List Word)
      → All IsWord row.words
      → row.words ≡ replicate (left_shift row.words) zero_word ++ (w ∷ rest)
      → is_zero_word w ≡ false
      → Shifts (left_shift row.words * 64 + leading_zeros w) row (shift_row row)
  unfolding shift_row first_word
  shift_row-Shifts row w rest h s set =
      let n = left_shift row.words in
      let k = leading_zeros w in
      let (bits, t) = leading_zeros-split w set in
      let ptr : drop n row.words ≡ w ∷ rest =
        ap (drop n) s ∙ drop-replicate n zero_word (w ∷ rest) in
      let tail : All IsWord (w ∷ rest) =
        All-append_right IsWord (replicate n zero_word) (w ∷ rest) (subst (All IsWord) s h) in
      let size : length row.words ≡ n + suc (length rest) =
        ap length s
        ∙ length-append (replicate n zero_word) (w ∷ rest)
        ∙ omega (arith, length-replicate n zero_word) in
      (
        (
          bits ++ flatten rest,
          shifted_band row w rest bits n k s t,
          rw ptr (shifted_words w rest bits n k refl t tail),
          refl,
        ),
        rw ptr (
            All-append IsWord (shift_first (w ∷ rest)) (replicate n zero_word)
              (shift_first-words w rest tail) (All-replicate IsWord n zero_word refl)),
        rw ptr (
            length-append (shift_first (w ∷ rest)) (replicate n zero_word)
            ∙ omega (arith, length-shift_first (w ∷ rest), length-replicate n zero_word, size)),
        λ small. rw ptr (omega (arith, small)),
      )

  -- The three ways in which `reformalize` ends.
  abbrev pub Reformalized :
      Values Value → ℕ → ℕ → MatrixRow Value → EncodeStatus × MatrixRow Value → Type 0
  Reformalized V b room row (success, row') =
      (k : ℕ) × (k < room)
      × IsShifted k row row'
      × (row'.start_pos ≡ row.start_pos + k)
      × IsRow b (room - k) row'
  Reformalized V b room row (fail, row') = Clear 0 (band row) × (V.is_zero row.val ≡ false)
  Reformalized V b room row (all_zero, row') = Clear 0 (band row) × (V.is_zero row.val ≡ true)

  pub reformalize-lem :
      (V : Values Value) (b room : ℕ) (row : MatrixRow Value)
      → IsRow b room row
      → row.start_pos + room ≤ 2 ^ 64
      → Reformalized V b room row (reformalize V b row)
  unfolding reformalize
  reformalize-lem V b room row is_row fits = elim (left_shift-Split b row.words is_row.0 is_row.1) [
    | inl (count, all) ↦
        let here : (num_zero_blocks row.words == b) ≡ true = ground arith in
        let clear : Clear 0 (band row) =
          subst (Clear 0) (sym (ap flatten all ∙ flatten-zeros (2 * b))) (Clear-all (2 * b * 64)) in
        elim (Bool-cases (V.is_zero row.val)) [
          | inl e ↦ rw (here, e) (clear, e)
          | inr e ↦ rw (here, e) (clear, e)
        ]
    | inr (count, w, rest, s, set) ↦
        let there : (num_zero_blocks row.words == b) ≡ false = ground arith in
        let k = left_shift row.words * 64 + leading_zeros w in
        let ((bits, before, after, val), words, size, start) =
          shift_row-Shifts row w rest is_row.0 s set in
        let spread : Clear room (replicate k false ++ (true ∷ bits)) =
          subst (Clear room) before is_row.2 in
        let low = Clear-above room k bits spread in
        rw there (
          k,
          low,
          (bits, before, after, val),
          start (omega arith),
          (
            words,
            size ∙ is_row.1,
            subst (Clear (room - k)) (sym after)
                (Clear-zeros (room - k) k (true ∷ bits) (Clear-past room k (true ∷ bits) spread)),
          ),
        )
  ]

  -- A column vector that meets the shifted row meets the row, and the other way round.
  pub shifted_dot :
      (V : Values Value) (x : ℕ → Value) (k : ℕ) (row row' : MatrixRow Value)
      → IsShifted k row row'
      → row'.start_pos ≡ row.start_pos + k
      → dot V x row'.start_pos (band row') ≡ dot V x row.start_pos (band row)
  shifted_dot V x k row row' (rest, before, after, same) start =
      rw (start, before, after) (sym (dot_moved V x row.start_pos k (true ∷ rest)))
