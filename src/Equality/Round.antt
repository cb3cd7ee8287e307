-- ===== src/Equality/Round.antt =====
-- One round of `eq0` and `eq1` of `fpsi/pis_new/equal.cpp`. `res0` and `res1` are bit vectors of
-- `n` rows one behind the other: here, the list of the rows. A round writes the shorter rows over
-- the longer ones; position `i * nextLength + j / 2` is not behind `i * curLength + j`, so no bit
-- is lost before it is read. The triples are those from the cursor `curTriple` on.
pub mod Step
pub mod Rows
use opprf_fpsi.Prelude.{Bool, true, false, ◌&&◌, ◌⊕◌, List, [], ◌∷◌, Option, none, some}
use opprf_fpsi.Equality.Triples.{Triple}

infixl 5 ◌>>=◌
abbrev pub ◌>>=◌ {ℓ κ} : {A : Type ℓ} {B : Type κ} → Option A → (A → Option B) → Option B
none >>= f = none
some a >>= f = f a

-- A position of `xa` and one of `yb`, the two vectors that a party sends.
pub record Masked : Type 0 where
  pub xa : Bool
  pub yb : Bool

abbrev pub Row : Type 0
Row = List Bool

-- The first loop at one row: the masked pairs, and the triples that are left. `none` is a read
-- past the last triple.
unfoldable pub mask_row : Row → List Triple → Option (List Masked × List Triple)
mask_row (x ∷ y ∷ row) [] = none
mask_row (x ∷ y ∷ row) (t ∷ ts) = do
  (ms, rest) ← mask_row row ts
  some (record { xa = x ⊕ t.a; yb = y ⊕ t.b } ∷ ms, rest)
mask_row (x ∷ []) ts = some ([], ts)
mask_row [] ts = some ([], ts)

unfoldable pub mask_rows : List Row → List Triple → Option (List (List Masked) × List Triple)
mask_rows [] ts = some ([], ts)
mask_rows (row ∷ rows) ts = do
  (ms, rest) ← mask_row row ts
  (mss, last) ← mask_rows rows rest
  some (ms ∷ mss, last)

-- The bit that a party keeps for a pair: `first` is the party of `eq0`, which adds `d & e`.
abbrev pub new_bit : Bool → Triple → Bool → Bool → Bool
new_bit true t d e = (d && e) ⊕ (d && t.b) ⊕ (e && t.a) ⊕ t.c
new_bit false t d e = (d && t.b) ⊕ (e && t.a) ⊕ t.c

-- The second loop at one row, over the vectors of both parties: the next row, and the triples
-- that are left.
unfoldable pub join_row :
    Bool → Row → List Masked → List Masked → List Triple → Option (Row × List Triple)
join_row first (x ∷ y ∷ row) (m0 ∷ ms0) (m1 ∷ ms1) (t ∷ ts) = do
  (next, rest) ← join_row first row ms0 ms1 ts
  some (new_bit first t (m0.xa ⊕ m1.xa) (m0.yb ⊕ m1.yb) ∷ next, rest)
join_row first (x ∷ []) ms0 ms1 ts = some (x ∷ [], ts)
join_row first [] ms0 ms1 ts = some ([], ts)
join_row first _ _ _ _ = none

unfoldable pub join_rows :
    Bool
    → List Row
    → List (List Masked)
    → List (List Masked)
    → List Triple
    → Option (List Row × List Triple)
join_rows first (row ∷ rows) (ms0 ∷ mss0) (ms1 ∷ mss1) ts = do
  (next, rest) ← join_row first row ms0 ms1 ts
  (nexts, last) ← join_rows first rows mss0 mss1 rest
  some (next ∷ nexts, last)
join_rows first [] _ _ ts = some ([], ts)
join_rows first _ _ _ _ = none
