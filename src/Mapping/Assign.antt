-- ===== src/Mapping/Assign.antt =====
-- `getID` of `fpsi/cmp_fmap/fmap.cpp`, in one dimension: every point claims the cell it lies in and
-- the one before, and points that share a cell share a random value. A block is the number of its
-- 128 bits; `unordered_map<block, block>` is an association list with each key once.
pub mod Laws
pub mod Agree
pub mod Joins
pub mod Near
use opprf_fpsi.Prelude.{
  ℕ, zero, suc, ◌+◌, ◌*◌, ◌/◌, ◌%◌, ◌^◌, ◌-◌, Bool, true, false, not, ◌==◌, ltb, if◌then◌else◌,
  List, [], ◌∷◌, Option, none, some, length,
}

abbrev pub Map : Type 0
Map = List (ℕ × ℕ)

unfoldable pub find : ℕ → Map → Option ℕ
find k [] = none
find k ((key, v) ∷ m) = if key == k then some v else find k m

-- `blocks_check[k] = v` for a key that is there.
unfoldable pub assign : ℕ → ℕ → Map → Map
assign k v [] = []
assign k v ((key, old) ∷ m) = if key == k then (key, v) ∷ m else (key, old) ∷ assign k v m

-- `insert` and `emplace`: a key that is there keeps its value.
unfoldable pub insert : ℕ → ℕ → Map → Map
insert k v m = elim (find k m) [ none ↦ (k, v) ∷ m | some old ↦ m ]

unfoldable pub compute_cell : ℕ → ℕ → ℕ
compute_cell delta input = if 2 * delta == 0 then 0 else input / (2 * delta)

unfoldable pub compute_block : ℕ → ℕ → ℕ
compute_block delta input =
    if 2 * delta == 0 then 0 else if ltb input delta then 0 else (input - delta) / (2 * delta)

-- `sub_epi64(OneBlock)` and `add_epi64(OneBlock)` work on the low 64 bits.
unfoldable pub low_minus_one : ℕ → ℕ
low_minus_one x = x / 2 ^ 64 * 2 ^ 64 + (x % 2 ^ 64 + 2 ^ 64 - 1) % 2 ^ 64

unfoldable pub low_plus_one : ℕ → ℕ
low_plus_one x = x / 2 ^ 64 * 2 ^ 64 + (x % 2 ^ 64 + 1) % 2 ^ 64

unfoldable pub block_before : ℕ → ℕ
block_before block1 = if block1 == 0 then 0 else low_minus_one block1

-- The loop that gives the value `random` to the run of cells from `tmp` on. Each round changes one
-- value to `random`, so the length of the map is fuel enough.
unfoldable pub relabel : ℕ → ℕ → ℕ → Map → Map
relabel zero random tmp m = m
relabel (suc fuel) random tmp m = elim (find tmp m) [
  | none ↦ m
  | some v ↦ if v == random then m else relabel fuel random (low_plus_one tmp) (assign tmp random m)
]

-- What a point with the cells `block0` and `block1` gets, and the map after it. `fresh` is the
-- random value that is drawn if neither cell is in the map.
unfoldable pub claim : ℕ → ℕ → ℕ → Map → ℕ × Map
claim block0 block1 fresh m = elim (find block0 m) [
  | some r0 ↦ elim (find block1 m) [
    | some r1 ↦ (r0, relabel (length m) r0 block1 m)
    | none ↦ (r0, insert block1 r0 m)
  ]
  | none ↦ elim (find block1 m) [
    | some r1 ↦ (r1, insert block0 r1 m)
    | none ↦ (fresh, insert block1 fresh (insert block0 fresh m))
  ]
]

-- Whether a random value is drawn.
unfoldable pub draws : ℕ → ℕ → Map → Bool
draws block0 block1 m = elim (find block0 m) [
  | some r0 ↦ false
  | none ↦ elim (find block1 m) [ some r1 ↦ false | none ↦ true ]
]

-- The loop over the points, by their cells: the values that are added to their identifiers, and
-- the map at the end. `prng n` is the random value after `n` draws.
unfoldable pub claim_all : (ℕ → ℕ) → ℕ → List ℕ → Map → List ℕ × Map
claim_all prng n [] m = ([], m)
claim_all prng n (cell ∷ cells) m =
    let step = claim (block_before cell) cell (prng n) m in
    let next = if draws (block_before cell) cell m then n + 1 else n in
    let rest = claim_all prng next cells step.1 in (step.0 ∷ rest.0, rest.1)
