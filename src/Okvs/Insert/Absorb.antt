-- ===== src/Okvs/Insert/Absorb.antt =====
-- The band XOR, bit by bit.
use opprf_fpsi.Prelude.{
  ℕ, suc, ◌*◌, ◌≡◌, refl, sym, ap, ap₂, ◌∙◌, ◌↔◌, Bool, false, ◌⊕◌, List, [], ◌∷◌, ◌++◌, length,
  All, arith,
}
use opprf_fpsi.Equality.Round.Step.{xor_row, length-xor_row}
use opprf_fpsi.Okvs.{Rbokvs, w_blocks}
use opprf_fpsi.Okvs.Values.{Values, xor_cancel}
use opprf_fpsi.Okvs.Row.{Word, MatrixRow}
use opprf_fpsi.Okvs.Row.Bits.{flatten, Clear-xor_row, dot, dot-xor_row}
use opprf_fpsi.Okvs.Row.Shift.{IsWord, length-flatten}
use opprf_fpsi.Okvs.Row.Laws.{band, IsRow}
use opprf_fpsi.Okvs.Insert.{xor_words, xor_rows}
use opprf_fpsi.Okvs.Insert.Frame.{Meets, IsLeading}

xor_row-append :
    (a b c d : List Bool)
    → length a ≡ length b
    → xor_row (a ++ c) (b ++ d) ≡ xor_row a b ++ xor_row c d
xor_row-append [] [] c d e = refl
xor_row-append [] (y ∷ b) c d e = absurd (omega arith)
xor_row-append (x ∷ a) [] c d e = absurd (omega arith)
xor_row-append (x ∷ a) (y ∷ b) c d e = ap (λ t. (x ⊕ y) ∷ t) (xor_row-append a b c d (omega arith))

flatten-xor_words :
    (a b : List Word)
    → All IsWord a
    → All IsWord b
    → length a ≡ length b
    → flatten (xor_words a b) ≡ xor_row (flatten a) (flatten b)
unfolding xor_words
flatten-xor_words [] [] h g e = refl
flatten-xor_words [] (v ∷ b) h g e = absurd (omega arith)
flatten-xor_words (w ∷ a) [] h g e = absurd (omega arith)
flatten-xor_words (w ∷ a) (v ∷ b) h g e =
    ap (λ t. xor_row w v ++ t) (flatten-xor_words a b h.1 g.1 (omega arith))
    ∙ sym (xor_row-append w v (flatten a) (flatten b) (h.0 ∙ sym g.0))

xor_words-words :
    (a b : List Word)
    → All IsWord a
    → All IsWord b
    → length a ≡ length b
    → All IsWord (xor_words a b) × (length (xor_words a b) ≡ length a)
unfolding xor_words
xor_words-words [] [] h g e = (tt, refl)
xor_words-words [] (v ∷ b) h g e = absurd (omega arith)
xor_words-words (w ∷ a) [] h g e = absurd (omega arith)
xor_words-words (w ∷ a) (v ∷ b) h g e =
    let rest = xor_words-words a b h.1 g.1 (omega arith) in
    ((length-xor_row w v (h.0 ∙ sym g.0) ∙ h.0, rest.0), ap suc rest.1)

module _ {Block Value : Type 0} (V : Values Value) (o : Rbokvs Block) where
  module _ (n : ℕ) (row other : MatrixRow Value) (h : IsRow (w_blocks o) n row)
      (g : IsRow (w_blocks o) n other) where
    xor_rows-band : band (xor_rows V o row other) ≡ xor_row (band row) (band other)
    unfolding xor_rows
    xor_rows-band = flatten-xor_words row.words other.words h.0 g.0 (h.1 ∙ sym g.1)

    pub xor_rows-IsRow : IsRow (w_blocks o) n (xor_rows V o row other)
    unfolding xor_rows
    xor_rows-IsRow =
        let words = xor_words-words row.words other.words h.0 g.0 (h.1 ∙ sym g.1) in
        (words.0, words.1 ∙ h.1, rw xor_rows-band (Clear-xor_row n (band row) (band other) h.2 g.2))

    -- Two rows that lead at one column leave none there.
    pub xor_rows-first :
        IsLeading V o row
        → IsLeading V o other
        → (rest : List Bool) × (band (xor_rows V o row other) ≡ false ∷ rest)
    xor_rows-first (a, e) (b, f) = (xor_row a b, xor_rows-band ∙ ap₂ xor_row e f)

    band_sizes : length (band row) ≡ length (band other)
    band_sizes =
        length-flatten row.words h.0
        ∙ ap (λ k. k * 64) (h.1 ∙ sym g.1)
        ∙ sym (length-flatten other.words g.0)

    -- Columns that meet the other row meet the sum exactly when they meet the row.
    pub xor_rows-Meets :
        (x : ℕ → Value)
        → row.start_pos ≡ other.start_pos
        → Meets V o x other
        → Meets V o x row ↔ Meets V o x (xor_rows V o row other)
    unfolding xor_rows
    xor_rows-Meets x same other_meets =
        let p = row.start_pos in
        let sum : dot V x p (band (xor_rows V o row other))
            ≡ V.xor (dot V x p (band row)) other.val =
          ap (dot V x p) xor_rows-band
          ∙ dot-xor_row V x p (band row) (band other) band_sizes
          ∙ ap (V.xor (dot V x p (band row)))
              (ap (λ q. dot V x q (band other)) same ∙ other_meets) in
        (
          λ meets. sum ∙ ap (λ v. V.xor v other.val) meets,
          λ meets.
              sym (undo (dot V x p (band row)))
              ∙ ap (V.xor other.val) (V.xor_comm other.val (dot V x p (band row)) ∙ sym sum ∙ meets)
              ∙ ap (V.xor other.val) (V.xor_comm row.val other.val)
              ∙ undo row.val,
        )
      where
        undo : (v : Value) → V.xor other.val (V.xor other.val v) ≡ v
        undo v = xor_cancel V other.val v
