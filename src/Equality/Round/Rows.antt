-- ===== src/Equality/Round/Rows.antt =====
-- One round on all rows, of both parties.
use native.Mathlib.Nat.{suc-mul}
use opprf_fpsi.Prelude.{
  ℕ, ◌+◌, ◌*◌, ◌/◌, ◌≤◌, ◌≡◌, refl, ap₂, true, false, List, [], ◌∷◌, some, arith, length,
}
use opprf_fpsi.Equality.Triples.{Triple}
use opprf_fpsi.Equality.Round.{Masked, Row, mask_rows, join_rows}
use opprf_fpsi.Equality.Round.Step.{Products, xor_row, halve, row_step}

-- The parties have the same number of rows, each of this length.
abbrev pub Shaped : ℕ → List Row → List Row → Type 0
Shaped n [] [] = Unit
Shaped n (r ∷ rs) (s ∷ ss) = (length r ≡ n) × (length s ≡ n) × Shaped n rs ss
Shaped n _ _ = ⊥

-- The rows that the parties share.
abbrev pub opened : List Row → List Row → List Row
opened (r ∷ rs) (s ∷ ss) = xor_row r s ∷ opened rs ss
opened _ _ = []

abbrev pub halve_all : List Row → List Row
halve_all [] = []
halve_all (r ∷ rs) = halve r ∷ halve_all rs

-- The round of both parties goes through, with these results.
pub record RowsStep (n : ℕ) (rs0 rs1 : List Row) (ts0 ts1 : List Triple) : Type 0 where
  pub masks0 : List (List Masked)
  pub masks1 : List (List Masked)
  pub next0 : List Row
  pub next1 : List Row
  pub rest0 : List Triple
  pub rest1 : List Triple
  pub masked0 : mask_rows rs0 ts0 ≡ some (masks0, rest0)
  pub masked1 : mask_rows rs1 ts1 ≡ some (masks1, rest1)
  pub joined0 : join_rows true rs0 masks0 masks1 ts0 ≡ some (next0, rest0)
  pub joined1 : join_rows false rs1 masks0 masks1 ts1 ≡ some (next1, rest1)
  pub shaped : Shaped ((n + 1) / 2) next0 next1
  pub same_count : length next0 ≡ length rs0
  pub shares : opened next0 next1 ≡ halve_all (opened rs0 rs1)
  pub left : Products rest0 rest1
  pub used : length rest0 + length rs0 * (n / 2) ≡ length ts0

pub rows_step :
    (n : ℕ) (rs0 rs1 : List Row) (ts0 ts1 : List Triple)
    → Shaped n rs0 rs1
    → Products ts0 ts1
    → length rs0 * (n / 2) ≤ length ts0
    → RowsStep n rs0 rs1 ts0 ts1
unfolding mask_rows join_rows
rows_step n [] [] ts0 ts1 sh p h = record {
  masks0 = [];
  masks1 = [];
  next0 = [];
  next1 = [];
  rest0 = ts0;
  rest1 = ts1;
  masked0 = refl;
  masked1 = refl;
  joined0 = refl;
  joined1 = refl;
  shaped = tt;
  same_count = refl;
  shares = refl;
  left = p;
  used = omega arith;
}
rows_step n [] (r1 ∷ rs1) ts0 ts1 sh p h = absurd sh
rows_step n (r0 ∷ rs0) [] ts0 ts1 sh p h = absurd sh
rows_step n (r0 ∷ rs0) (r1 ∷ rs1) ts0 ts1 (e0, e1, sh) p h =
    let more = suc-mul (length rs0) (n / 2) in
    let half : length r0 / 2 ≡ n / 2 = rw e0 refl in
    let s = row_step r0 r1 ts0 ts1 (omega arith) p (omega arith) in
    let t = rows_step n rs0 rs1 s.rest0 s.rest1 sh s.left (omega (arith, s.used)) in
    record {
      masks0 = s.masks0 ∷ t.masks0;
      masks1 = s.masks1 ∷ t.masks1;
      next0 = s.next0 ∷ t.next0;
      next1 = s.next1 ∷ t.next1;
      rest0 = t.rest0;
      rest1 = t.rest1;
      masked0 = rw (s.masked0, t.masked0);
      masked1 = rw (s.masked1, t.masked1);
      joined0 = rw (s.joined0, t.joined0);
      joined1 = rw (s.joined1, t.joined1);
      shaped = (omega (arith, s.width0), omega (arith, s.width1), t.shaped);
      same_count = omega (arith, t.same_count);
      shares = ap₂ ◌∷◌ s.shares t.shares;
      left = t.left;
      used = omega (arith, s.used, t.used);
    }
