-- ===== src/Equality/Round/Step.antt =====
-- One round on the rows of both parties: the shares that they keep are shares of the conjunctions
-- of neighbouring bits.
use opprf_fpsi.Prelude.{
  ◌+◌, ◌/◌, ◌≤◌, ◌≡◌, refl, ap, ap₂, suc, Bool, true, false, ◌&&◌, ◌⊕◌, List, [], ◌∷◌, some, arith,
  length,
}
use opprf_fpsi.Equality.Triples.{Triple, IsProduct}
use opprf_fpsi.Equality.Round.{Masked, Row, mask_row, new_bit, join_row}

-- Beaver's identity: the two new bits are shares of the conjunction.
new_bit-shares :
    (x0 x1 y0 y1 : Bool) (t0 t1 : Triple)
    → IsProduct t0 t1
    → new_bit true t0 (x0 ⊕ t0.a ⊕ (x1 ⊕ t1.a)) (y0 ⊕ t0.b ⊕ (y1 ⊕ t1.b))
        ⊕ new_bit false t1 (x0 ⊕ t0.a ⊕ (x1 ⊕ t1.a)) (y0 ⊕ t0.b ⊕ (y1 ⊕ t1.b))
      ≡ ((x0 ⊕ x1) && (y0 ⊕ y1))
new_bit-shares x0 x1 y0 y1 t0 t1 h = beaver x0 x1 y0 y1 t0.a t1.a t0.b t1.b t0.c t1.c h
  where
    beaver :
        (x0 x1 y0 y1 a0 a1 b0 b1 c0 c1 : Bool)
        → c0 ⊕ c1 ≡ ((a0 ⊕ a1) && (b0 ⊕ b1))
        → ((x0 ⊕ a0 ⊕ (x1 ⊕ a1)) && (y0 ⊕ b0 ⊕ (y1 ⊕ b1)))
            ⊕ ((x0 ⊕ a0 ⊕ (x1 ⊕ a1)) && b0)
            ⊕ ((y0 ⊕ b0 ⊕ (y1 ⊕ b1)) && a0)
            ⊕ c0
            ⊕ (((x0 ⊕ a0 ⊕ (x1 ⊕ a1)) && b1) ⊕ ((y0 ⊕ b0 ⊕ (y1 ⊕ b1)) && a1) ⊕ c1)
          ≡ ((x0 ⊕ x1) && (y0 ⊕ y1))
    beaver x0 x1 y0 y1 true true b0 b1 c0 c1 h = ground arith
    beaver x0 x1 y0 y1 true false b0 b1 c0 c1 h = ground arith
    beaver x0 x1 y0 y1 false true b0 b1 c0 c1 h = ground arith
    beaver x0 x1 y0 y1 false false b0 b1 c0 c1 h = ground arith

abbrev pub xor_row : Row → Row → Row
xor_row (x ∷ r) (y ∷ s) = (x ⊕ y) ∷ xor_row r s
xor_row _ _ = []

pub length-xor_row : (a b : Row) → length a ≡ length b → length (xor_row a b) ≡ length a
length-xor_row [] [] e = refl
length-xor_row [] (y ∷ b) e = absurd (omega arith)
length-xor_row (x ∷ a) [] e = absurd (omega arith)
length-xor_row (x ∷ a) (y ∷ b) e = ap suc (length-xor_row a b (omega arith))

-- The conjunctions of neighbouring bits; an odd bit at the end stays.
abbrev pub halve : Row → Row
halve (x ∷ y ∷ r) = (x && y) ∷ halve r
halve (x ∷ []) = x ∷ []
halve [] = []

-- Position by position, the parties hold shares of products.
abbrev pub Products : List Triple → List Triple → Type 0
Products [] [] = Unit
Products (s ∷ ss) (t ∷ ts) = IsProduct s t × Products ss ts
Products _ _ = ⊥

-- The round of both parties at one row goes through, with these results.
pub record RowStep (r0 r1 : Row) (ts0 ts1 : List Triple) : Type 0 where
  pub masks0 : List Masked
  pub masks1 : List Masked
  pub next0 : Row
  pub next1 : Row
  pub rest0 : List Triple
  pub rest1 : List Triple
  pub masked0 : mask_row r0 ts0 ≡ some (masks0, rest0)
  pub masked1 : mask_row r1 ts1 ≡ some (masks1, rest1)
  pub joined0 : join_row true r0 masks0 masks1 ts0 ≡ some (next0, rest0)
  pub joined1 : join_row false r1 masks0 masks1 ts1 ≡ some (next1, rest1)
  pub width0 : length next0 ≡ (length r0 + 1) / 2
  pub width1 : length next1 ≡ (length r1 + 1) / 2
  pub shares : xor_row next0 next1 ≡ halve (xor_row r0 r1)
  pub left : Products rest0 rest1
  pub used : length rest0 + length r0 / 2 ≡ length ts0

pub row_step :
    (r0 r1 : Row) (ts0 ts1 : List Triple)
    → length r0 ≡ length r1
    → Products ts0 ts1
    → length r0 / 2 ≤ length ts0
    → RowStep r0 r1 ts0 ts1
unfolding mask_row join_row
row_step (x0 ∷ y0 ∷ r0) (x1 ∷ y1 ∷ r1) (t0 ∷ ts0) (t1 ∷ ts1) e p n =
    let s = row_step r0 r1 ts0 ts1 (omega arith) p.1 (omega arith) in
    record {
      masks0 = record { xa = x0 ⊕ t0.a; yb = y0 ⊕ t0.b } ∷ s.masks0;
      masks1 = record { xa = x1 ⊕ t1.a; yb = y1 ⊕ t1.b } ∷ s.masks1;
      next0 = new_bit true t0 (x0 ⊕ t0.a ⊕ (x1 ⊕ t1.a)) (y0 ⊕ t0.b ⊕ (y1 ⊕ t1.b)) ∷ s.next0;
      next1 = new_bit false t1 (x0 ⊕ t0.a ⊕ (x1 ⊕ t1.a)) (y0 ⊕ t0.b ⊕ (y1 ⊕ t1.b)) ∷ s.next1;
      rest0 = s.rest0;
      rest1 = s.rest1;
      masked0 = rw s.masked0;
      masked1 = rw s.masked1;
      joined0 = rw s.joined0;
      joined1 = rw s.joined1;
      width0 = omega (arith, s.width0);
      width1 = omega (arith, s.width1);
      shares = ap₂ ◌∷◌ (new_bit-shares x0 x1 y0 y1 t0 t1 p.0) s.shares;
      left = s.left;
      used = omega (arith, s.used);
    }
row_step (x0 ∷ y0 ∷ r0) (x1 ∷ y1 ∷ r1) [] ts1 e p n = absurd (omega arith)
row_step (x0 ∷ y0 ∷ r0) (x1 ∷ y1 ∷ r1) (t0 ∷ ts0) [] e p n = absurd p
row_step (x0 ∷ y0 ∷ r0) (x1 ∷ []) ts0 ts1 e p n = absurd (omega arith)
row_step (x0 ∷ y0 ∷ r0) [] ts0 ts1 e p n = absurd (omega arith)
row_step (x0 ∷ []) (x1 ∷ y1 ∷ r1) ts0 ts1 e p n = absurd (omega arith)
row_step (x0 ∷ []) [] ts0 ts1 e p n = absurd (omega arith)
row_step [] (x1 ∷ r1) ts0 ts1 e p n = absurd (omega arith)
row_step (x0 ∷ []) (x1 ∷ []) ts0 ts1 e p n = record {
  masks0 = [];
  masks1 = [];
  next0 = x0 ∷ [];
  next1 = x1 ∷ [];
  rest0 = ts0;
  rest1 = ts1;
  masked0 = refl;
  masked1 = refl;
  joined0 = refl;
  joined1 = refl;
  width0 = omega arith;
  width1 = omega arith;
  shares = refl;
  left = p;
  used = omega arith;
}
row_step [] [] ts0 ts1 e p n = record {
  masks0 = [];
  masks1 = [];
  next0 = [];
  next1 = [];
  rest0 = ts0;
  rest1 = ts1;
  masked0 = refl;
  masked1 = refl;
  joined0 = refl;
  joined1 = refl;
  width0 = omega arith;
  width1 = omega arith;
  shares = refl;
  left = p;
  used = omega arith;
}
