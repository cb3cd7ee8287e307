-- ===== src/Ufmap/Ids.antt =====
-- `getID` of `fpsi/ufmap/ufmap.cpp`: the values of the blocks of one dimension, and what is encoded.
use opprf_fpsi.Prelude.{
  ℕ, zero, suc, ◌+◌, ◌-◌, ◌≤◌, ◌≡◌, refl, sym, ap, ◌∙◌, inl, inr, List, [], ◌∷◌, map, Option, none,
  some, length, length-map, length-append, length-draw, get_elem?, if◌then◌else◌, ◌==◌, ==_iff,
  Bool-cases, draw, true, arith,
}
use opprf_fpsi.Mapping.Field.{Field}
use opprf_fpsi.Protocol.Linf.{padding_blocks}
use opprf_fpsi.Ufmap.{canonical_block_4_delta}

-- `labels`: the blocks of a dimension with their values. The coordinate's number is in the high
-- half of every label, so the low half tells them apart.
abbrev pub Labels : Type 0 → Type 0
Labels Block = List (ℕ × Block)

unfoldable pub find_label : {Block : Type 0} → ℕ → Labels Block → Option Block
find_label label [] = none
find_label label ((other, value) ∷ labels) =
    if label == other then some value else find_label label labels

-- `labels.emplace(label, ..)`, with a value drawn if the label is new.
unfoldable pub settle :
    {Block : Type 0} → (ℕ → Block) → ℕ → Labels Block → Option Block → Block × Labels Block
settle drawn label labels none = (drawn (length labels), (label, drawn (length labels)) ∷ labels)
settle drawn label labels (some value) = (value, labels)

unfoldable pub emplace : {Block : Type 0} → (ℕ → Block) → ℕ → Labels Block → Block × Labels Block
emplace drawn label labels = settle drawn label labels (find_label label labels)

-- The loop over the points of a dimension: the values that go to their identifiers, and the labels.
unfoldable pub label_all :
    {Block : Type 0} → (ℕ → Block) → ℕ → List ℕ → Labels Block → List Block × Labels Block
label_all drawn delta [] labels = ([], labels)
label_all drawn delta (input ∷ inputs) labels =
    let step = emplace drawn (canonical_block_4_delta input delta) labels in
    let rest = label_all drawn delta inputs step.1 in (step.0 ∷ rest.0, rest.1)

-- `value ^ prf.eval(label)`, beside the label.
abbrev pub mask_value : {Block : Type 0} → Field Block → (ℕ → Block) → ℕ × Block → ℕ × Block
mask_value F prf (label, value) = (label, F.xor value (prf label))

-- `result.keys[i]` and `result.values[i]`, filled up with the dummies that are no labels.
unfoldable pub encoded :
    {Block : Type 0}
    → Field Block
    → (ℕ → Block)
    → (ℕ → ℕ × Block)
    → Labels Block
    → ℕ
    → List (ℕ × Block)
encoded F prf dummies labels size = padding_blocks dummies (map (mask_value F prf) labels) size

module _ {Block : Type 0} where
  -- A label that is there stays, with its value.
  find_label-settle :
      (drawn : ℕ → Block) (label other : ℕ) (value : Block) (labels : Labels Block)
      (o : Option Block)
      → find_label label labels ≡ o
      → find_label other labels ≡ some value
      → find_label other (settle drawn label labels o).1 ≡ some value
  unfolding settle find_label
  find_label-settle drawn label other value labels none new e = elim (Bool-cases (other == label)) [
    | inl q ↦
        let same : other ≡ label = (==_iff other label).0 q in
        absurd (
          none_some (find_label label labels) value new
            (ap (λ t. find_label t labels) (sym same) ∙ e))
    | inr q ↦ rw q e
  ]
    where
      none_some : (o : Option Block) (v : Block) → o ≡ none → o ≡ some v → ⊥
      none_some o v p q = cc
  find_label-settle drawn label other value labels (some w) old e = e

  settle-find_label :
      (drawn : ℕ → Block) (label : ℕ) (labels : Labels Block) (o : Option Block)
      → find_label label labels ≡ o
      → find_label label (settle drawn label labels o).1 ≡ some (settle drawn label labels o).0
  unfolding settle find_label
  settle-find_label drawn label labels none new =
      let here : (label == label) ≡ true = ground arith in rw here refl
  settle-find_label drawn label labels (some w) old = old

  find_label-label_all :
      (drawn : ℕ → Block) (delta : ℕ) (inputs : List ℕ) (labels : Labels Block) (other : ℕ)
      (value : Block)
      → find_label other labels ≡ some value
      → find_label other (label_all drawn delta inputs labels).1 ≡ some value
  unfolding label_all emplace
  find_label-label_all drawn delta [] labels other value e = e
  find_label-label_all drawn delta (x ∷ inputs) labels other value e =
      let label = canonical_block_4_delta x delta in
      find_label-label_all drawn delta inputs
        (settle drawn label labels (find_label label labels)).1 other value
        (find_label-settle drawn label other value labels (find_label label labels) refl e)

  -- The value that goes to the identifier of a point is the one that its block has at the end, so
  -- that points with the same block contribute the same value.
  pub label_all-find_label :
      (drawn : ℕ → Block) (delta : ℕ) (inputs : List ℕ) (labels : Labels Block) (k x : ℕ)
      → get_elem? inputs k ≡ some x
      → get_elem? (label_all drawn delta inputs labels).0 k
        ≡ find_label (canonical_block_4_delta x delta) (label_all drawn delta inputs labels).1
  unfolding label_all emplace
  label_all-find_label drawn delta [] labels k x e = absurd (cc)
  label_all-find_label drawn delta (y ∷ inputs) labels zero x e =
      let label = canonical_block_4_delta y delta in
      let same : y ≡ x = cc in
      rw (← same) (
        sym (
          find_label-label_all drawn delta inputs
            (settle drawn label labels (find_label label labels)).1 label
            (settle drawn label labels (find_label label labels)).0
            (settle-find_label drawn label labels (find_label label labels) refl)))
  label_all-find_label drawn delta (y ∷ inputs) labels (suc k) x e =
      let label = canonical_block_4_delta y delta in
      label_all-find_label drawn delta inputs
        (settle drawn label labels (find_label label labels)).1 k x e

  length-settle :
      (drawn : ℕ → Block) (label : ℕ) (labels : Labels Block) (o : Option Block)
      → length (settle drawn label labels o).1 ≤ suc (length labels)
  unfolding settle
  length-settle drawn label labels none = omega arith
  length-settle drawn label labels (some w) = omega arith

  length-label_all :
      (drawn : ℕ → Block) (delta : ℕ) (inputs : List ℕ) (labels : Labels Block)
      → length (label_all drawn delta inputs labels).1 ≤ length labels + length inputs
  unfolding label_all emplace
  length-label_all drawn delta [] labels = omega arith
  length-label_all drawn delta (x ∷ inputs) labels =
      let label = canonical_block_4_delta x delta in
      let o = find_label label labels in
      omega (
        arith,
        length-settle drawn label labels o,
        length-label_all drawn delta inputs (settle drawn label labels o).1,
      )

  -- Exactly `size` pairs are encoded for `size` points, the number that the key-value store is set
  -- up for: there are no more blocks than points.
  pub length-encoded :
      (F : Field Block) (drawn prf : ℕ → Block) (dummies : ℕ → ℕ × Block) (delta : ℕ)
      (inputs : List ℕ)
      → length (encoded F prf dummies (label_all drawn delta inputs []).1 (length inputs))
        ≡ length inputs
  unfolding encoded padding_blocks
  length-encoded F drawn prf dummies delta inputs =
      let labels = (label_all drawn delta inputs []).1 in
      let pairs = map (mask_value F prf) labels in
      let bound = length-label_all drawn delta inputs [] in
      let same = length-map (mask_value F prf) labels in
      let more = length-draw dummies 0 (length inputs - length pairs) in
      omega (
        arith,
        length-append pairs (draw dummies 0 (length inputs - length pairs)),
        bound,
        same,
        more,
      )
