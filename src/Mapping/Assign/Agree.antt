-- ===== src/Mapping/Assign/Agree.antt =====
-- Whole runs of `getID` in one dimension: when the map at the end agrees with what the points got.
use opprf_fpsi.Prelude.{
  ℕ, zero, suc, ◌+◌, ◌≡◌, refl, ap, ◌∙◌, Bool, true, false, not, ◌||◌, inl, inr, ◌==◌,
  if◌then◌else◌, List, [], ◌∷◌, none, some, length, arith, Option-cases,
}
use opprf_fpsi.Mapping.Assign.{Map, find, insert, relabel, claim, draws, claim_all, block_before}
use opprf_fpsi.Mapping.Assign.Laws.{find-insert, claim-find}

-- Whether the point joins two runs of cells with different values.
unfoldable pub joins : ℕ → ℕ → Map → Bool
joins block0 block1 m = elim (find block0 m) [
  | none ↦ false
  | some r0 ↦ elim (find block1 m) [ none ↦ false | some r1 ↦ not (r1 == r0) ]
]

unfoldable pub some_join : (ℕ → ℕ) → ℕ → List ℕ → Map → Bool
some_join prng n [] m = false
some_join prng n (cell ∷ cells) m =
    let next = if draws (block_before cell) cell m then n + 1 else n in
    let rest = some_join prng next cells (claim (block_before cell) cell (prng n) m).1 in
    joins (block_before cell) cell m || rest

-- Both cells of each point have the point's value in the map.
abbrev pub Agree : List ℕ → List ℕ → Map → Type 0
Agree [] [] m = Unit
Agree (cell ∷ cells) (v ∷ values) m =
    (find cell m ≡ some v) × (find (block_before cell) m ≡ some v) × Agree cells values m
Agree _ _ m = ⊥

relabel_same : (fuel r tmp : ℕ) (m : Map) → find tmp m ≡ some r → relabel fuel r tmp m ≡ m
unfolding relabel
relabel_same zero r tmp m h = refl
relabel_same (suc fuel) r tmp m h =
    let same : (r == r) ≡ true = ground arith in rw (relabel, h, same) refl

claim-keeps :
    (block0 block1 fresh k v : ℕ) (m : Map)
    → joins block0 block1 m ≡ false
    → find k m ≡ some v
    → find k (claim block0 block1 fresh m).1 ≡ some v
unfolding claim joins
claim-keeps b0 b1 fresh k v m free h = elim (Option-cases (find b0 m)) [
  | inl e0 ↦ elim (Option-cases (find b1 m)) [
    | inl e1 ↦
        rw (claim, e0, e1)
          (find-insert b1 k fresh v (insert b0 fresh m) (find-insert b0 k fresh v m h))
    | inr (r1, e1) ↦ rw (claim, e0, e1) (find-insert b0 k r1 v m h)
  ]
  | inr (r0, e0) ↦ elim (Option-cases (find b1 m)) [
    | inl e1 ↦ rw (claim, e0, e1) (find-insert b1 k r0 v m h)
    | inr (r1, e1) ↦
        let unjoined : not (r1 == r0) ≡ false = rw (joins, e0, e1) at free in
        let same : r1 ≡ r0 = ground arith in
        rw (claim, e0, e1) (ap (find k) (relabel_same (length m) r0 b1 m (e1 ∙ ap some same)) ∙ h)
  ]
]

claim_all-keeps :
    (prng : ℕ → ℕ) (n : ℕ) (cells : List ℕ) (k v : ℕ) (m : Map)
    → some_join prng n cells m ≡ false
    → find k m ≡ some v
    → find k (claim_all prng n cells m).1 ≡ some v
unfolding claim_all some_join
claim_all-keeps prng n [] k v m free h = h
claim_all-keeps prng n (cell ∷ cells) k v m free h =
    claim_all-keeps prng (if draws (block_before cell) cell m then n + 1 else n) cells k v
      (claim (block_before cell) cell (prng n) m).1 (ground arith)
      (claim-keeps (block_before cell) cell (prng n) k v m (ground arith) h)

-- If no point of the run joins two runs of cells with different values, then at the end of it the
-- cell of each point and the cell before have the value that the point got.
pub claim_all-Agree :
    (prng : ℕ → ℕ) (n : ℕ) (cells : List ℕ) (m : Map)
    → some_join prng n cells m ≡ false
    → Agree cells (claim_all prng n cells m).0 (claim_all prng n cells m).1
unfolding claim_all some_join
claim_all-Agree prng n [] m free = tt
claim_all-Agree prng n (cell ∷ cells) m free =
    let b = block_before cell in
    let next = if draws b cell m then n + 1 else n in
    let step = claim b cell (prng n) m in
    let found = claim-find b cell (prng n) m in
    let later : some_join prng next cells step.1 ≡ false = ground arith in
    (
      claim_all-keeps prng next cells cell step.0 step.1 later found.1,
      claim_all-keeps prng next cells b step.0 step.1 later found.0,
      claim_all-Agree prng next cells step.1 later,
    )
