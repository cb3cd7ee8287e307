-- ===== src/Okvs/Insert/Laws.antt =====
-- `insert` ends, reads the map inside its bounds only, and the map it leaves has the equations of
-- the old one and of the new row.
use opprf_fpsi.Prelude.{
  ℕ, suc, ◌+◌, ◌-◌, ◌^◌, ◌≤◌, ◌<◌, ◌≡◌, refl, sym, ap, ◌∙◌, inl, inr, true, false, arith, ◌==◌,
  Bool-cases, Result,
}
use opprf_fpsi.Okvs.{Rbokvs, w_blocks}
use opprf_fpsi.Okvs.Values.{Values}
use opprf_fpsi.Okvs.Row.{MatrixRow, EncodeStatus, success, fail, all_zero, reformalize}
use opprf_fpsi.Okvs.Row.Bits.{Clear, Clear-mono, dot-Clear}
use opprf_fpsi.Okvs.Row.Laws.{band, IsRow, IsShifted, Reformalized, reformalize-lem, shifted_dot}
use opprf_fpsi.Okvs.Insert.{Table, set_at, put, put_status, reformalize_at, claim, on_success}
use opprf_fpsi.Okvs.Insert.Frame.{
  room, Meets, IsLeading, IsStored, Extends, Inserted, set_at-same, set_at-other, put-rows,
  put-IsStored, put-Solves, Solves-put, Inserted-put,
}

module _ {Block Value : Type 0} (V : Values Value) (o : Rbokvs Block)
    (bounded : o.m_size < 2 ^ 64) where
  IsStored-suc : (t : Table Value) (n : ℕ) → IsStored V o t n → IsStored V o t (suc n)
  IsStored-suc t n stored p low e =
      let here = stored p low e in (omega (arith, here.0), here.1, here.2, here.3)

  -- A row whose band is clear leaves an equation between values.
  Clear-Meets :
      (x : ℕ → Value) (row : MatrixRow Value)
      → Clear 0 (band row)
      → Meets V o x row
      → row.val ≡ V.zero_value
  Clear-Meets x row clear meets = sym meets ∙ dot-Clear V x row.start_pos (band row) clear

  -- The row `n`, reformalized and put back: what it starts with, and what of its band is left.
  abbrev pub IsReady : Table Value → ℕ → MatrixRow Value → ℕ → Type 0
  IsReady t n row' k =
      IsShifted k (t.rows n) row'
      × (row'.start_pos ≡ (t.rows n).start_pos + k)
      × (row'.start_pos < o.m_size)
      × IsRow (w_blocks o) (room V o row'.start_pos) row'

  module _ (next : Table Value → Result (EncodeStatus × Table Value)) (t : Table Value) (n : ℕ)
      (stored : IsStored V o t n)
      (is_row : IsRow (w_blocks o) (room V o (t.rows n).start_pos) (t.rows n))
      (inside : (t.rows n).start_pos ≤ o.m_size)
      (then_next : (row' : MatrixRow Value) (k : ℕ)
        → IsReady t n row' k
        → Inserted V o (put V o t n row') n (next (put V o t n row'))) where
    on_success-Inserted :
        (r : EncodeStatus × MatrixRow Value)
        → Reformalized V (w_blocks o) (room V o (t.rows n).start_pos) (t.rows n) r
        → Inserted V o t n (on_success V o next (put_status V o t n r))
    unfolding on_success put_status
    on_success-Inserted (success, row') (k, small, shifted, start, rest) =
        let band_rest =
          Clear-mono (room V o (t.rows n).start_pos - k) (room V o row'.start_pos) (band row')
            (omega (arith, start, small)) rest.2 in
        Inserted-put V o t n row' (next (put V o t n row')) stored
          (λ x solves.
            let same = shifted_dot V x k (t.rows n) row' shifted start in
            (λ meets. same ∙ meets ∙ sym shifted.3, λ meets. sym same ∙ meets ∙ shifted.3))
          (then_next row' k
            (shifted, start, omega (arith, start, small), (rest.0, rest.1, band_rest)))
    on_success-Inserted (fail, row') (clear, e) = λ x solves meets.
        let z = ap V.is_zero (Clear-Meets x (t.rows n) clear meets) ∙ V.zero-is_zero in cc
    on_success-Inserted (all_zero, row') (clear, e) = (
      IsStored-suc (put V o t n row') n (put-IsStored V o t n row' stored),
      λ j later. put-rows V o t n row' j (ground arith),
      λ x solves. (
        Solves-put V o t n row' stored x solves,
        dot-Clear V x (t.rows n).start_pos (band (t.rows n)) clear
            ∙ sym (V.is_zero-eq (t.rows n).val e),
      ),
      λ x solves meets. put-Solves V o t n row' stored x solves,
    )

    pub reformalize_at-Inserted : Inserted V o t n (on_success V o next (reformalize_at V o t n))
    unfolding reformalize_at
    reformalize_at-Inserted = on_success-Inserted (reformalize V (w_blocks o) (t.rows n)) (
        reformalize-lem V (w_blocks o) (room V o (t.rows n).start_pos) (t.rows n) is_row
          (omega (arith, inside, bounded)))

  -- A row that stands at a column of the band matrix, with its first bit set.
  abbrev pub IsPlaced : MatrixRow Value → Type 0
  IsPlaced row =
      (row.start_pos < o.m_size)
      × IsLeading V o row
      × IsRow (w_blocks o) (room V o row.start_pos) row

  pub claim-Extends :
      (t : Table Value) (n : ℕ)
      → n < o.m_n
      → IsStored V o t n
      → IsPlaced (t.rows n)
      → (t.bit_to_row (t.rows n).start_pos == o.m_n) ≡ true
      → Extends V o t n (claim V o t n)
  unfolding claim
  claim-Extends t n small stored placed free = (
    λ p low e. elim (Bool-cases (p == s)) [
      | inl here ↦
          let at : p ≡ s = ground arith in rw (at, taken) (omega arith, refl, placed.1, placed.2)
      | inr off ↦
          let old = stored p low (ap (λ c. c == o.m_n) (sym (other p off)) ∙ e) in
          rw (other p off) (omega (arith, old.0), old.1, old.2, old.3)
    ],
    λ j later. refl,
    λ x solves. (
      λ p low e.
          let off : (p == s) ≡ false = apart p e in
          rw (← other p off) (solves p low (ap (λ c. c == o.m_n) (other p off) ∙ e)),
      rw (← ap t.rows taken) (solves s placed.0 (ap (λ c. c == o.m_n) taken ∙ unlike)),
    ),
    λ x solves meets p low e. elim (Bool-cases (p == s)) [
      | inl here ↦ let at : p ≡ s = ground arith in rw (at, taken) meets
      | inr off ↦ rw (other p off) (solves p low (ap (λ c. c == o.m_n) (sym (other p off)) ∙ e))
    ],
  )
    where
      s : ℕ
      s = (t.rows n).start_pos

      taken : set_at t.bit_to_row s n s ≡ n
      taken = set_at-same t.bit_to_row s n

      other : (p : ℕ) → (p == s) ≡ false → set_at t.bit_to_row s n p ≡ t.bit_to_row p
      other p off = set_at-other t.bit_to_row s n p off

      unlike : (n == o.m_n) ≡ false
      unlike = ground (arith, small)

      apart : (p : ℕ) → (t.bit_to_row p == o.m_n) ≡ false → (p == s) ≡ false
      apart p e = elim (Bool-cases (p == s)) [
        | inl here ↦
            let at : p ≡ s = ground arith in let both = ap (λ q. t.bit_to_row q == o.m_n) at in cc
        | inr off ↦ off
      ]
