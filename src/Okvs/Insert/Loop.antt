-- ===== src/Okvs/Insert/Loop.antt =====
-- The `while` of `insert`: every round moves the start position of the row on, so that the loop ends
-- within `mSize` rounds.
use mathlib.Core.Path.{subst}
use opprf_fpsi.Prelude.{
  ℕ, zero, suc, ◌+◌, ◌^◌, ◌≤◌, ◌<◌, ◌≡◌, refl, sym, ap, ◌∙◌, inl, inr, Bool, true, false, List, ◌∷◌,
  ◌++◌, replicate, arith, ◌==◌, ltb, Bool-cases,
}
use opprf_fpsi.Okvs.{Rbokvs, w_blocks}
use opprf_fpsi.Okvs.Values.{Values}
use opprf_fpsi.Okvs.Row.{MatrixRow}
use opprf_fpsi.Okvs.Row.Laws.{band, IsRow, IsShifted}
use opprf_fpsi.Okvs.Insert.{
  Table, put, reformalize_at, xor_rows, absorb, on_success, insert_loop, insert,
}
use opprf_fpsi.Okvs.Insert.Frame.{room, IsStored, Inserted, put-at, put-IsStored, Inserted-put}
use opprf_fpsi.Okvs.Insert.Absorb.{xor_rows-IsRow, xor_rows-first, xor_rows-Meets}
use opprf_fpsi.Okvs.Insert.Laws.{IsReady, IsPlaced, claim-Extends, reformalize_at-Inserted}

-- A band whose first bit is clear moves by at least one place.
moves :
    {Value : Type 0} (k : ℕ) (row row' : MatrixRow Value) (rest : List Bool)
    → band row ≡ false ∷ rest
    → IsShifted k row row'
    → 1 ≤ k
moves zero row row' rest e (bits, before, after, val) = let both = sym e ∙ before in cc
moves (suc k) row row' rest e shifted = omega arith

module _ {Block Value : Type 0} (V : Values Value) (o : Rbokvs Block) (bounded : o.m_size < 2 ^ 64)
    (n : ℕ) (small : n < o.m_n) where
  IsReady-IsPlaced :
      (t : Table Value) (row' : MatrixRow Value) (k : ℕ)
      → IsReady V o bounded t n row' k
      → IsPlaced V o bounded row'
  IsReady-IsPlaced t row' k ((rest, before, after, val), start, low, is_row) =
      (low, (rest ++ replicate k false, after), is_row)

  insert_loop-Inserted :
      (fuel : ℕ) (t : Table Value)
      → IsStored V o t n
      → IsPlaced V o bounded (t.rows n)
      → o.m_size ≤ (t.rows n).start_pos + fuel
      → Inserted V o t n (insert_loop V o fuel n t)
  unfolding insert_loop absorb xor_rows
  insert_loop-Inserted zero t stored placed enough = absurd (omega (arith, placed.0))
  insert_loop-Inserted (suc fuel) t stored placed enough =
      elim (Bool-cases (t.bit_to_row s == o.m_n)) [
        | inl free ↦ rw (inside, free) (claim-Extends V o bounded t n small stored placed free)
        | inr used ↦
            let there = stored s placed.0 used in
            let other = t.rows (t.bit_to_row s) in
            let is_row =
              xor_rows-IsRow V o (room V o s) row other placed.2
                (subst (λ p. IsRow (w_blocks o) (room V o p) other) refl there.3) in
            let sum = xor_rows V o row other in
            let t1 = put V o t n sum in
            let at : t1.rows n ≡ sum = put-at V o t n sum in
            let start : (t1.rows n).start_pos ≡ s = ap (λ (r : MatrixRow Value). r.start_pos) at in
            rw (inside, used)
              (Inserted-put V o t n sum
                (on_success V o (insert_loop V o fuel n) (reformalize_at V o t1 n)) stored
                (λ x solves.
                  xor_rows-Meets V o (room V o s) row other placed.2 there.3 x (sym there.1)
                    (solves s placed.0 used))
                (reformalize_at-Inserted V o bounded (insert_loop V o fuel n) t1 n
                  (put-IsStored V o t n sum stored)
                  (subst (λ (r : MatrixRow Value). IsRow (w_blocks o) (room V o r.start_pos) r)
                    (sym at) is_row)
                  (omega (arith, start, placed.0))
                  (λ row' k ready.
                    let (rest, first) =
                      xor_rows-first V o (room V o s) row other placed.2 there.3 placed.1 there.2 in
                    let far =
                      moves k sum row' rest first
                        (subst (λ (r : MatrixRow Value). IsShifted k r row') at ready.0) in
                    let at2 : (put V o t1 n row').rows n ≡ row' = put-at V o t1 n row' in
                    insert_loop-Inserted fuel (put V o t1 n row')
                      (put-IsStored V o t1 n row' (put-IsStored V o t n sum stored))
                      (subst (IsPlaced V o bounded) (sym at2) (IsReady-IsPlaced t1 row' k ready))
                      (omega (
                        arith,
                        ap (λ (r : MatrixRow Value). r.start_pos) at2,
                        ready.1,
                        start,
                        far,
                        enough,
                      )))))
      ]
    where
      row : MatrixRow Value
      row = t.rows n

      s : ℕ
      s = row.start_pos

      inside : ltb s o.m_size ≡ true
      inside = ground (arith, placed.0)

  pub insert-Inserted :
      (t : Table Value)
      → IsStored V o t n
      → IsRow (w_blocks o) (room V o (t.rows n).start_pos) (t.rows n)
      → (t.rows n).start_pos ≤ o.m_size
      → Inserted V o t n (insert V o t n)
  unfolding insert
  insert-Inserted t stored is_row low =
      reformalize_at-Inserted V o bounded (insert_loop V o o.m_size n) t n stored is_row low
        λ row' k ready.
          let at : (put V o t n row').rows n ≡ row' = put-at V o t n row' in
          insert_loop-Inserted o.m_size (put V o t n row') (put-IsStored V o t n row' stored)
            (subst (IsPlaced V o bounded) (sym at) (IsReady-IsPlaced t row' k ready)) (omega arith)
