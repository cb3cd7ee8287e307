-- ===== src/Okvs/Encode/Rows.antt =====
-- The elimination ends: either it leaves a map with the equations of all the keys, or no columns
-- meet them.
use mathlib.Core.Path.{subst}
use opprf_fpsi.Prelude.{
  ℕ, zero, suc, ◌+◌, ◌≤◌, ◌<◌, ◌^◌, ◌≡◌, sym, ◌∙◌, inl, inr, List, arith, ◌==◌, Bool-cases, Result,
  ok, err, ◌>>=◌,
}
use opprf_fpsi.Okvs.{Rbokvs, w_blocks}
use opprf_fpsi.Okvs.Values.{Values}
use opprf_fpsi.Okvs.Row.{MatrixRow, EncodeStatus, success, fail, all_zero}
use opprf_fpsi.Okvs.Row.Laws.{IsRow}
use opprf_fpsi.Okvs.Insert.{Table, insert}
use opprf_fpsi.Okvs.Insert.Frame.{room, Meets, IsStored, Solves, Extends, Inserted}
use opprf_fpsi.Okvs.Insert.Loop.{insert-Inserted}
use opprf_fpsi.Okvs.Hash.{Byte}
use opprf_fpsi.Okvs.Encode.{unless_fail, insert_rows}

module _ {Block Value : Type 0} (V : Values Value) (blake3 : Block → Block → ℕ → List Byte)
    (o : Rbokvs Block) (bounded : o.m_size < 2 ^ 64) (rows : ℕ → MatrixRow Value)
    (fits : (j : ℕ)
      → j < o.m_n
      → IsRow (w_blocks o) (room V o (rows j).start_pos) (rows j)
        × ((rows j).start_pos ≤ o.m_size)) where
  -- The columns meet the rows from `i` on.
  abbrev pub MeetsFrom : (ℕ → Value) → ℕ → Type 0
  MeetsFrom x i = (j : ℕ) → i ≤ j → j < o.m_n → Meets V o x (rows j)

  -- The rows from `i` on have not been touched.
  abbrev pub IsFresh : Table Value → ℕ → Type 0
  IsFresh t i = (j : ℕ) → i ≤ j → t.rows j ≡ rows j

  abbrev pub Eliminated : Table Value → ℕ → Result (EncodeStatus × Table Value) → Type 0
  Eliminated t i (ok (success, t')) =
      IsStored V o t' o.m_n
      × ((x : ℕ → Value) → Solves V o x t' → Solves V o x t × MeetsFrom x i)
      × ((x : ℕ → Value) → Solves V o x t → MeetsFrom x i → Solves V o x t')
  Eliminated t i (ok (fail, t')) = (x : ℕ → Value) → Solves V o x t → MeetsFrom x i → ⊥
  Eliminated t i (ok (all_zero, t')) = ⊥
  Eliminated t i (err e) = ⊥

  -- The row `i` and the rows after it.
  split_rows :
      (x : ℕ → Value) (t : Table Value) (i : ℕ)
      → IsFresh t i
      → Meets V o x (t.rows i)
      → MeetsFrom x (suc i)
      → MeetsFrom x i
  split_rows x t i fresh here later j low small = elim (Bool-cases (j == i)) [
    | inl e ↦ let at : j ≡ i = ground arith in rw (at, ← fresh i (omega arith)) here
    | inr e ↦ later j (ground arith) small
  ]

  eliminate_more :
      (t t1 : Table Value) (i : ℕ) (r : Result (EncodeStatus × Table Value))
      → i < o.m_n
      → IsFresh t i
      → Extends V o t i t1
      → Eliminated t1 (suc i) r
      → Eliminated t i r
  eliminate_more t t1 i (ok (success, t')) small fresh ext rest = (
    rest.0,
    λ x solves.
        let later = rest.1 x solves in
        let here = ext.2 x later.0 in (here.0, split_rows x t i fresh here.1 later.1),
    λ x solves meets.
        rest.2 x (ext.3 x solves (rw (fresh i (omega arith)) (meets i (omega arith) small)))
          (λ j low. meets j (omega arith)),
  )
  eliminate_more t t1 i (ok (fail, t')) small fresh ext rest = λ x solves meets.
      rest x (ext.3 x solves (rw (fresh i (omega arith)) (meets i (omega arith) small)))
        (λ j low. meets j (omega arith))
  eliminate_more t t1 i (ok (all_zero, t')) small fresh ext rest = rest
  eliminate_more t t1 i (err e) small fresh ext rest = rest

  eliminate_next :
      (next : Table Value → Result (EncodeStatus × Table Value)) (t : Table Value) (i : ℕ)
      (r : Result (EncodeStatus × Table Value))
      → i < o.m_n
      → IsFresh t i
      → Inserted V o t i r
      → ((t1 : Table Value)
          → IsStored V o t1 (suc i)
          → IsFresh t1 (suc i)
          → Eliminated t1 (suc i) (next t1))
      → Eliminated t i (r >>= unless_fail V blake3 o next)
  unfolding unless_fail
  eliminate_next next t i (ok (success, t1)) small fresh ext go =
      eliminate_more t t1 i (next t1) small fresh ext
        (go t1 ext.0 (λ j low. ext.1 j low ∙ fresh j (omega arith)))
  eliminate_next next t i (ok (all_zero, t1)) small fresh ext go =
      eliminate_more t t1 i (next t1) small fresh ext
        (go t1 ext.0 (λ j low. ext.1 j low ∙ fresh j (omega arith)))
  eliminate_next next t i (ok (fail, t1)) small fresh none go =
      λ x solves meets. none x solves (rw (fresh i (omega arith)) (meets i (omega arith) small))
  eliminate_next next t i (err e) small fresh none go = none

  pub insert_rows-Eliminated :
      (left i : ℕ) (t : Table Value)
      → i + left ≡ o.m_n
      → IsStored V o t i
      → IsFresh t i
      → Eliminated t i (insert_rows V blake3 o left i t)
  unfolding insert_rows
  insert_rows-Eliminated zero i t e stored fresh =
      let end : i ≡ o.m_n = omega arith in
      (
        subst (IsStored V o t) end stored,
        λ x solves. (solves, λ j low small. absurd (omega arith)),
        λ x solves meets. solves,
      )
  insert_rows-Eliminated (suc left) i t e stored fresh =
      let small : i < o.m_n = omega arith in
      let row = fits i small in
      let same = fresh i (omega arith) in
      eliminate_next (insert_rows V blake3 o left (suc i)) t i (insert V o t i) small fresh
        (insert-Inserted V o bounded i small t stored
          (subst (λ (r : MatrixRow Value). IsRow (w_blocks o) (room V o r.start_pos) r) (sym same)
            row.0)
          (subst (λ (r : MatrixRow Value). r.start_pos ≤ o.m_size) (sym same) row.1))
        (λ t1 stored1 fresh1. insert_rows-Eliminated left (suc i) t1 (omega arith) stored1 fresh1)
