-- ===== src/Mapping/Assign/Laws.antt =====
-- What `getID` keeps: each point's value is that of both its cells, as long as no point joins two
-- runs of cells with different values.
use opprf_fpsi.Prelude.{
  ℕ, zero, suc, ◌≡◌, ◌≢◌, refl, sym, ap, ◌∙◌, true, ◌⊎◌, inl, inr, ◌==◌, [], ◌∷◌, none, some,
  length, arith, Bool-cases, Option-cases,
}
use opprf_fpsi.Mapping.Assign.{Map, find, assign, insert, relabel, claim, low_plus_one}

insert-absent : (k v : ℕ) (m : Map) → find k m ≡ none → insert k v m ≡ ((k, v) ∷ m)
unfolding insert
insert-absent k v m h = rw (h, insert) refl

insert-present : (k v w : ℕ) (m : Map) → find k m ≡ some w → insert k v m ≡ m
unfolding insert
insert-present k v w m h = rw (h, insert) refl

same_key : (k : ℕ) → (k == k) ≡ true
same_key k = ground arith

find-head : (k v : ℕ) (m : Map) → find k ((k, v) ∷ m) ≡ some v
unfolding find
find-head k v m = rw (same_key k) refl

find-other : (k j v : ℕ) (m : Map) → k ≢ j → find j ((k, v) ∷ m) ≡ find j m
unfolding find
find-other k j v m h = elim (Bool-cases (k == j)) [
  | inl e ↦ absurd (h (ground arith))
  | inr e ↦ rw e refl
]

pub find-insert_self : (k v : ℕ) (m : Map) → find k m ≡ none → find k (insert k v m) ≡ some v
find-insert_self k v m h = ap (find k) (insert-absent k v m h) ∙ find-head k v m

some-none : (k j w : ℕ) (m : Map) → find j m ≡ some w → find k m ≡ none → k ≢ j
some-none k j w m h e q = absurd (some_none (sym h ∙ rw q at e))
  where
    some_none : some w ≢ none
    some_none e = ground (arith, e)

pub find-insert : (k j v w : ℕ) (m : Map) → find j m ≡ some w → find j (insert k v m) ≡ some w
find-insert k j v w m h = elim (Option-cases (find k m)) [
  | inl e ↦ ap (find j) (insert-absent k v m e) ∙ find-other k j v m (some-none k j w m h e) ∙ h
  | inr (x, e) ↦ ap (find j) (insert-present k v x m e) ∙ h
]

-- Whatever `insert` finds or puts there, the key is then in the map.
pub find-insert_there :
    (k v : ℕ) (m : Map) → (find k m ≡ some v) ⊎ (find k m ≡ none) → find k (insert k v m) ≡ some v
find-insert_there k v m (inl h) = find-insert k k v v m h
find-insert_there k v m (inr h) = find-insert_self k v m h

-- Assignment changes the value of its key, and of no other.
find-assign_self : (k v w : ℕ) (m : Map) → find k m ≡ some w → find k (assign k v m) ≡ some v
unfolding find assign
find-assign_self k v w [] h = absurd (ground (arith, h))
find-assign_self k v w ((key, old) ∷ m) h = elim (Bool-cases (key == k)) [
  | inl e ↦ rw e (rw e refl)
  | inr e ↦ rw e (rw e (find-assign_self k v w m (rw e at h)))
]

pub find-assign_other : (k j v : ℕ) (m : Map) → k ≢ j → find j (assign k v m) ≡ find j m
unfolding find assign
find-assign_other k j v [] h = refl
find-assign_other k j v ((key, old) ∷ m) h = elim (Bool-cases (key == k)) [
  | inl e ↦
      rw e (elim (Bool-cases (key == j)) [ inl f ↦ absurd (h (ground arith)) | inr f ↦ rw f refl ])
  | inr e ↦ rw e (elim (Bool-cases (key == j)) [
    | inl f ↦ rw f refl
    | inr f ↦ rw f (find-assign_other k j v m h)
  ])
]

pub relabel-keeps :
    (fuel random tmp k : ℕ) (m : Map)
    → find k m ≡ some random
    → find k (relabel fuel random tmp m) ≡ some random
unfolding relabel
relabel-keeps zero random tmp k m h = h
relabel-keeps (suc fuel) random tmp k m h = elim (Option-cases (find tmp m)) [
  | inl e ↦ rw (relabel, e) h
  | inr (v, e) ↦ elim (Bool-cases (v == random)) [
    | inl f ↦ rw (relabel, e, f) h
    | inr f ↦
        rw (relabel, e, f)
          (relabel-keeps fuel random (low_plus_one tmp) k (assign tmp random m)
            (elim (Bool-cases (tmp == k)) [
              | inl q ↦
                  let same : tmp ≡ k = ground arith in
                  ap (λ t. find t (assign tmp random m)) (sym same)
                  ∙ find-assign_self tmp random v m e
              | inr q ↦ find-assign_other tmp k random m (λ t. ground arith) ∙ h
            ]))
  ]
]

relabel-start :
    (fuel random tmp v : ℕ) (m : Map)
    → find tmp m ≡ some v
    → find tmp (relabel (suc fuel) random tmp m) ≡ some random
unfolding relabel
relabel-start fuel random tmp v m e = elim (Bool-cases (v == random)) [
  | inl f ↦ let same : v ≡ random = ground arith in rw (relabel, e, f) (e ∙ ap some same)
  | inr f ↦
      rw (relabel, e, f)
        (relabel-keeps fuel random (low_plus_one tmp) tmp (assign tmp random m)
          (find-assign_self tmp random v m e))
]

found-length : (k v : ℕ) (m : Map) → find k m ≡ some v → (n : ℕ) × (length m ≡ suc n)
unfolding find
found-length k v [] h = absurd (ground (arith, h))
found-length k v (e ∷ m) h = (length m, refl)

-- In every branch, both cells of the point then have the value that the point gets.
pub claim-find :
    (block0 block1 fresh : ℕ) (m : Map)
    → (find block0 (claim block0 block1 fresh m).1 ≡ some (claim block0 block1 fresh m).0)
      × (find block1 (claim block0 block1 fresh m).1 ≡ some (claim block0 block1 fresh m).0)
unfolding claim
claim-find b0 b1 fresh m = elim (Option-cases (find b0 m)) [
  | inl e0 ↦ elim (Option-cases (find b1 m)) [
    | inl e1 ↦
        let here = find-insert_self b0 fresh m e0 in
        rw (claim, e0, e1)
          (
            find-insert b1 b0 fresh fresh (insert b0 fresh m) here,
            find-insert_there b1 fresh (insert b0 fresh m) (elim (Bool-cases (b0 == b1)) [
              | inl q ↦
                  let same : b0 ≡ b1 = ground arith in
                  inl (ap (λ t. find t (insert b0 fresh m)) (sym same) ∙ here)
              | inr q ↦ inr (
                  ap (find b1) (insert-absent b0 fresh m e0)
                  ∙ find-other b0 b1 fresh m (λ t. ground arith)
                  ∙ e1)
            ]),
          )
    | inr (r1, e1) ↦ rw (claim, e0, e1) (find-insert_self b0 r1 m e0, find-insert b0 b1 r1 r1 m e1)
  ]
  | inr (r0, e0) ↦ elim (Option-cases (find b1 m)) [
    | inl e1 ↦ rw (claim, e0, e1) (find-insert b1 b0 r0 r0 m e0, find-insert_self b1 r0 m e1)
    | inr (r1, e1) ↦
        let (n, size) = found-length b1 r1 m e1 in
        rw (claim, e0, e1, size)
          (relabel-keeps (suc n) r0 b1 b0 m e0, relabel-start n r0 b1 r1 m e1)
  ]
]
