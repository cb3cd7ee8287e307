-- ===== src/Okvs/Solve/Columns.antt =====
-- The back substitution ends and gives columns that meet every row of the map, and `decode` is the
-- left side of a key's equation.
use opprf_fpsi.Prelude.{
  ℕ, zero, suc, ◌+◌, ◌-◌, ◌*◌, ◌≤◌, ◌<◌, ◌^◌, ◌≡◌, refl, sym, ap, ap₂, ◌∙◌, inl, inr, Bool, true,
  false, ◌&&◌, List, [], ◌∷◌, ◌++◌, length, All, arith, ltb, ◌==◌, Bool-cases, ok, Returns, u64,
  sub64,
}
use opprf_fpsi.Okvs.{Rbokvs, div_ceil, w_blocks}
use opprf_fpsi.Okvs.Values.{Values, zero-xor}
use opprf_fpsi.Okvs.Row.{Word, MatrixRow}
use opprf_fpsi.Okvs.Row.Bits.{flatten, Clear, pick, dot}
use opprf_fpsi.Okvs.Row.Shift.{IsWord}
use opprf_fpsi.Okvs.Row.Laws.{band, IsRow}
use opprf_fpsi.Okvs.Insert.{Table, set_at}
use opprf_fpsi.Okvs.Insert.Frame.{room, Meets, IsStored, Solves, set_at-same, set_at-other}
use opprf_fpsi.Okvs.Hash.{Byte, hash_pos, hash_band}
use opprf_fpsi.Okvs.Hash.Laws.{IsHash, hash_band-lem, hash_pos-lem}
use opprf_fpsi.Okvs.Solve.{clear_first, solve_row, solve_column, solve, decode}
use opprf_fpsi.Okvs.Solve.Laws.{xor_band-dot}

-- Only the columns from the start position on are read.
dot_agree :
    {Value : Type 0} (V : Values Value) (x y : ℕ → Value) (p : ℕ) (bs : List Bool)
    → ((j : ℕ) → p ≤ j → x j ≡ y j)
    → dot V x p bs ≡ dot V y p bs
unfolding dot pick
dot_agree V x y p [] same = refl
dot_agree V x y p (true ∷ bs) same =
    ap₂ V.xor (same p (omega arith)) (dot_agree V x y (suc p) bs (λ j h. same j (omega arith)))
dot_agree V x y p (false ∷ bs) same =
    ap (V.xor V.zero_value) (dot_agree V x y (suc p) bs (λ j h. same j (omega arith)))

dot-false :
    {Value : Type 0} (V : Values Value) (x : ℕ → Value) (p : ℕ) (bs : List Bool)
    → dot V x p (false ∷ bs) ≡ dot V x (suc p) bs
unfolding dot pick
dot-false V x p bs = zero-xor V (dot V x (suc p) bs)

dot-true :
    {Value : Type 0} (V : Values Value) (x : ℕ → Value) (p : ℕ) (bs : List Bool)
    → dot V x p (true ∷ bs) ≡ V.xor (x p) (dot V x (suc p) bs)
unfolding dot pick
dot-true V x p bs = refl

xor_undo : {Value : Type 0} (V : Values Value) (a d : Value) → V.xor (V.xor a d) d ≡ a
xor_undo V a d = V.xor_assoc a d d ∙ ap (V.xor a) (V.xor_self d) ∙ V.xor-zero a

clear_first-lem :
    (n : ℕ) (words : List Word) (rest : List Bool)
    → All IsWord words
    → Clear n (flatten words)
    → flatten words ≡ true ∷ rest
    → All IsWord (clear_first words)
      × (length (clear_first words) ≡ length words)
      × Clear n (flatten (clear_first words))
      × (flatten (clear_first words) ≡ false ∷ rest)
unfolding clear_first
clear_first-lem n [] rest h c e = cc
clear_first-lem n ([] ∷ words) rest h c e = absurd (omega (arith, h.0))
clear_first-lem zero ((b ∷ w) ∷ words) rest h c e = let set = sym c.0 in cc
clear_first-lem (suc n) ((b ∷ w) ∷ words) rest h c e =
    ((h.0, h.1), refl, c, ap (λ t. false ∷ t) (tail_eq b (w ++ flatten words) e))
  where
    tail : List Bool → List Bool
    tail [] = []
    tail (x ∷ xs) = xs

    tail_eq : (x : Bool) (xs : List Bool) → x ∷ xs ≡ true ∷ rest → xs ≡ rest
    tail_eq x xs same = ap tail same

band_fits : (w : ℕ) → w ≤ 2 * div_ceil w 128 * 64
unfolding div_ceil
band_fits w = omega arith

module _ {Block Value : Type 0} (V : Values Value) (o : Rbokvs Block) (wide : 64 ≤ o.m_w)
    (long : o.m_w ≤ o.m_size) (bounded : o.m_size < 2 ^ 63) where
  solve_row-lem :
      (output : ℕ → Value) (i : ℕ) (row : MatrixRow Value) (rest : List Bool)
      → i < o.m_size
      → IsRow (w_blocks o) (room V o i) row
      → band row ≡ true ∷ rest
      → solve_row V o output i row ≡ ok (V.xor row.val (dot V output (suc i) rest))
  unfolding solve_row
  solve_row-lem output i row rest low (words, size, clear) first =
      let (words', size', clear', bits) =
        clear_first-lem (room V o i) row.words rest words clear first in
      let sum : u64 (i + o.m_w) ≡ i + o.m_w = omega arith in
      let start : i + 0 ≡ i = omega arith in
      xor_band-dot V output o.m_size i
        (λ k. ltb (i + k) (sub64 (u64 (i + o.m_w)) 64) && ltb (i + k) (sub64 o.m_size 64))
        (λ k. ltb (i + k) (u64 (i + o.m_w)) && ltb (i + k) o.m_size) (room V o i)
        (λ k. by_word k (u64 (i + o.m_w)) sum) (λ k. by_bit k (u64 (i + o.m_w)) sum)
        (omega (arith, low, long)) 0 (room V o i) (clear_first row.words) row.val (omega arith)
        (omega (arith, band_fits o.m_w, size, size')) words' clear'
      ∙ ap ok (ap (V.xor row.val) (ap₂ (dot V output) start bits ∙ skip))
    where
      by_word :
          (k s : ℕ)
          → s ≡ i + o.m_w
          → ltb (i + k) (sub64 s 64) && ltb (i + k) (sub64 o.m_size 64) ≡ ltb (k + 64) (room V o i)
      by_word k s e =
          let a : sub64 s 64 ≡ i + o.m_w - 64 = omega arith in
          let b : sub64 o.m_size 64 ≡ o.m_size - 64 = omega arith in rw (a, b) (ground arith)

      by_bit :
          (k s : ℕ) → s ≡ i + o.m_w → ltb (i + k) s && ltb (i + k) o.m_size ≡ ltb k (room V o i)
      by_bit k s e = rw e (ground arith)

      skip : dot V output i (false ∷ rest) ≡ dot V output (suc i) rest
      skip = dot-false V output i rest

  row-Meets :
      (output : ℕ → Value) (i : ℕ) (row : MatrixRow Value) (rest : List Bool)
      → row.start_pos ≡ i
      → band row ≡ true ∷ rest
      → Meets V o (set_at output i (V.xor row.val (dot V output (suc i) rest))) row
  row-Meets output i row rest at first =
      let d = dot V output (suc i) rest in
      let x = set_at output i (V.xor row.val d) in
      ap₂ (dot V x) at first
      ∙ dot-true V x i rest
      ∙ ap₂ V.xor (set_at-same output i (V.xor row.val d)) (
          dot_agree V x output (suc i) rest
            (λ j h. set_at-other output i (V.xor row.val d) j (ground arith)))
      ∙ xor_undo V row.val d

  pub solve-Solves :
      (fresh : ℕ → Value) (t : Table Value) (i : ℕ) (output : ℕ → Value)
      → i ≤ o.m_size
      → ((p : ℕ)
          → i ≤ p
          → p < o.m_size
          → (t.bit_to_row p == o.m_n) ≡ false
          → Meets V o output (t.rows (t.bit_to_row p)))
      → IsStored V o t o.m_n
      → Returns (solve V o fresh t i output) (λ x. Solves V o x t)
  unfolding solve solve_column
  solve-Solves fresh t zero output low done stored =
      (output, refl, λ p small used. done p (omega arith) small used)
  solve-Solves fresh t (suc i) output low done stored =
      elim (Bool-cases (t.bit_to_row i == o.m_n)) [
        | inl free ↦ rw free (
            solve-Solves fresh t i (set_at output i (fresh i)) (omega arith)
              (λ p above small used. elim (Bool-cases (p == i)) [
                | inl here ↦
                    let at : p ≡ i = ground arith in
                    let both = ap (λ q. t.bit_to_row q == o.m_n) at in cc
                | inr off ↦ later (fresh i) p (ground arith) small used
              ])
              stored)
        | inr taken ↦
            let here = stored i (omega arith) taken in
            let row = t.rows (t.bit_to_row i) in
            let (rest, first) = here.2 in
            let v = V.xor row.val (dot V output (suc i) rest) in
            rw (taken, solve_row-lem output i row rest (omega arith) here.3 first)
              (solve-Solves fresh t i (set_at output i v) (omega arith)
                (λ p above small used. elim (Bool-cases (p == i)) [
                  | inl at ↦
                      let same : p ≡ i = ground arith in
                      rw same (row-Meets output i row rest here.1 first)
                  | inr off ↦ later v p (ground arith) small used
                ])
                stored)
      ]
    where
      above_same : (v : Value) (p : ℕ) → i < p → (j : ℕ) → p ≤ j → set_at output i v j ≡ output j
      above_same v p h j g = set_at-other output i v j (ground arith)

      later :
          (v : Value) (p : ℕ)
          → i < p
          → p < o.m_size
          → (t.bit_to_row p == o.m_n) ≡ false
          → Meets V o (set_at output i v) (t.rows (t.bit_to_row p))
      later v p above small used =
          let there = stored p small used in
          dot_agree V (set_at output i v) output (t.rows (t.bit_to_row p)).start_pos
            (band (t.rows (t.bit_to_row p)))
            (λ j g. above_same v p above j (omega (arith, there.1)))
          ∙ done p (omega arith) small used

  pub decode-dot :
      (blake3 : Block → Block → ℕ → List Byte) (code_words : ℕ → Value) (key : Block)
      → IsHash blake3 o
      → decode V o blake3 code_words key
        ≡ ok (dot V code_words (hash_pos blake3 o key) (flatten (hash_band blake3 o key)))
  unfolding decode
  decode-dot blake3 code_words key hash =
      let (words, size, clear) = hash_band-lem blake3 o key hash in
      let start : hash_pos blake3 o key + 0 ≡ hash_pos blake3 o key = omega arith in
      xor_band-dot V code_words o.m_size (hash_pos blake3 o key) (λ j. ltb j (sub64 o.m_w 64))
        (λ j. ltb j o.m_w) o.m_w (λ k. by_word k) (λ k. refl)
        (hash_pos-lem blake3 o key long (omega (arith, bounded))) 0 o.m_w (hash_band blake3 o key)
        V.zero_value (omega arith) (omega (arith, band_fits o.m_w, size)) words clear
      ∙ ap ok (
          zero-xor V
            (dot V code_words (hash_pos blake3 o key + 0) (flatten (hash_band blake3 o key)))
          ∙ ap (λ p. dot V code_words p (flatten (hash_band blake3 o key))) start)
    where
      by_word : (k : ℕ) → ltb k (sub64 o.m_w 64) ≡ ltb (k + 64) o.m_w
      by_word k = let a : sub64 o.m_w 64 ≡ o.m_w - 64 = omega arith in rw a (ground arith)
