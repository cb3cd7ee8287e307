-- ===== src/Okvs/Insert/Frame.antt =====
-- What is known of a table while the row `n` is inserted, and what putting a new row at `n` keeps.
use opprf_fpsi.Prelude.{
  ℕ, suc, ◌-◌, ◌<◌, ◌≡◌, refl, ◌∙◌, ◌↔◌, Bool, true, false, List, ◌∷◌, arith, ◌==◌, min, Result, ok,
  err,
}
use opprf_fpsi.Okvs.{Rbokvs, w_blocks}
use opprf_fpsi.Okvs.Values.{Values}
use opprf_fpsi.Okvs.Row.{MatrixRow, EncodeStatus, success, fail, all_zero}
use opprf_fpsi.Okvs.Row.Bits.{dot}
use opprf_fpsi.Okvs.Row.Laws.{band, IsRow}
use opprf_fpsi.Okvs.Insert.{Table, set_at, put}

module _ {A : Type 0} (f : ℕ → A) (i : ℕ) (a : A) where
  pub set_at-same : set_at f i a i ≡ a
  unfolding set_at
  set_at-same = ground arith

  pub set_at-other : (j : ℕ) → (j == i) ≡ false → set_at f i a j ≡ f j
  unfolding set_at
  set_at-other j e = rw e refl

module _ {Block Value : Type 0} (V : Values Value) (o : Rbokvs Block) where
  -- The columns of a band from position `p` on.
  abbrev pub room : ℕ → ℕ
  room p = min o.m_w (o.m_size - p)

  -- The columns meet the equation of the row.
  abbrev pub Meets : (ℕ → Value) → MatrixRow Value → Type 0
  Meets x row = dot V x row.start_pos (band row) ≡ row.val

  abbrev pub IsLeading : MatrixRow Value → Type 0
  IsLeading row = (rest : List Bool) × (band row ≡ true ∷ rest)

  -- The row that the map has for a column stands among the first `n`, starts there, and its first
  -- bit is set.
  abbrev pub IsStored : Table Value → ℕ → Type 0
  IsStored t n =
      (p : ℕ)
      → p < o.m_size
      → (t.bit_to_row p == o.m_n) ≡ false
      → (t.bit_to_row p < n)
        × ((t.rows (t.bit_to_row p)).start_pos ≡ p)
        × IsLeading (t.rows (t.bit_to_row p))
        × IsRow (w_blocks o) (room p) (t.rows (t.bit_to_row p))

  -- The columns meet every row of the map.
  abbrev pub Solves : (ℕ → Value) → Table Value → Type 0
  Solves x t =
      (p : ℕ) → p < o.m_size → (t.bit_to_row p == o.m_n) ≡ false → Meets x (t.rows (t.bit_to_row p))

  -- The rows of the new map are the old ones and the row `n`, as equations; the rows after `n` are
  -- as before.
  abbrev pub Extends : Table Value → ℕ → Table Value → Type 0
  Extends t n t' =
      IsStored t' (suc n)
      × ((j : ℕ) → n < j → t'.rows j ≡ t.rows j)
      × ((x : ℕ → Value) → Solves x t' → Solves x t × Meets x (t.rows n))
      × ((x : ℕ → Value) → Solves x t → Meets x (t.rows n) → Solves x t')

  abbrev pub Inserted : Table Value → ℕ → Result (EncodeStatus × Table Value) → Type 0
  Inserted t n (ok (success, t')) = Extends t n t'
  Inserted t n (ok (all_zero, t')) = Extends t n t'
  Inserted t n (ok (fail, t')) = (x : ℕ → Value) → Solves x t → Meets x (t.rows n) → ⊥
  Inserted t n (err e) = ⊥

  module _ (t : Table Value) (n : ℕ) (row : MatrixRow Value) where
    pub put-at : (put V o t n row).rows n ≡ row
    unfolding put
    put-at = set_at-same t.rows n row

    pub put-rows : (j : ℕ) → (j == n) ≡ false → (put V o t n row).rows j ≡ t.rows j
    unfolding put
    put-rows j e = set_at-other t.rows n row j e

    pub put-IsStored : IsStored t n → IsStored (put V o t n row) n
    unfolding put
    put-IsStored stored p low e =
        let here = stored p low e in
        let off : (t.bit_to_row p == n) ≡ false = ground (arith, here.0) in
        rw (set_at-other t.rows n row (t.bit_to_row p) off) here

    pub put-Solves : IsStored t n → (x : ℕ → Value) → Solves x t → Solves x (put V o t n row)
    unfolding put
    put-Solves stored x solves p low e =
        let here = stored p low e in
        let off : (t.bit_to_row p == n) ≡ false = ground (arith, here.0) in
        rw (set_at-other t.rows n row (t.bit_to_row p) off) (solves p low e)

    pub Solves-put : IsStored t n → (x : ℕ → Value) → Solves x (put V o t n row) → Solves x t
    unfolding put
    Solves-put stored x solves p low e =
        let here = stored p low e in
        let off : (t.bit_to_row p == n) ≡ false = ground (arith, here.0) in
        rw (← set_at-other t.rows n row (t.bit_to_row p) off) (solves p low e)

    -- A row may be put for the row `n` when, beside the rows of the map, it is the same equation.
    Extends-put :
        (t' : Table Value)
        → IsStored t n
        → ((x : ℕ → Value) → Solves x t → Meets x (t.rows n) ↔ Meets x row)
        → Extends (put V o t n row) n t'
        → Extends t n t'
    Extends-put t' stored same ext = (
      ext.0,
      λ j later. ext.1 j later ∙ put-rows j (ground arith),
      λ x solves.
          let old = ext.2 x solves in
          let solved = Solves-put stored x old.0 in
          (solved, (same x solved).1 (rw (← put-at) old.1)),
      λ x solves meets. ext.3 x (put-Solves stored x solves) (rw put-at ((same x solves).0 meets)),
    )

    pub Inserted-put :
        (r : Result (EncodeStatus × Table Value))
        → IsStored t n
        → ((x : ℕ → Value) → Solves x t → Meets x (t.rows n) ↔ Meets x row)
        → Inserted (put V o t n row) n r
        → Inserted t n r
    Inserted-put (ok (success, t')) stored same h = Extends-put t' stored same h
    Inserted-put (ok (all_zero, t')) stored same h = Extends-put t' stored same h
    Inserted-put (ok (fail, t')) stored same h =
        λ x solves meets. h x (put-Solves stored x solves) (rw put-at ((same x solves).0 meets))
    Inserted-put (err e) stored same h = h
