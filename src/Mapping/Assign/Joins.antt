-- ===== src/Mapping/Assign/Joins.antt =====
-- What happens in `getID` where a point joins two runs of cells.
use native.Mathlib.Nat.{suc-add}
use opprf_fpsi.Prelude.{
  ℕ, zero, suc, ◌+◌, ◌≤◌, ◌≡◌, ◌≢◌, refl, sym, ap, ◌∙◌, true, false, not, inl, inr, ◌==◌, [], ◌∷◌,
  Option, none, some, arith, to_nat, Bool-cases, Option-cases,
}
use opprf_fpsi.Mapping.Assign.{Map, find, assign, relabel, claim, low_plus_one}
use opprf_fpsi.Mapping.Assign.Laws.{claim-find}
use opprf_fpsi.Mapping.Assign.Agree.{joins}

-- The entries whose value is not `random`.
unfoldable pub others : ℕ → Map → ℕ
others random [] = 0
others random ((key, v) ∷ m) = to_nat (not (v == random)) + others random m

others-assign :
    (random k v : ℕ) (m : Map)
    → find k m ≡ some v
    → (v == random) ≡ false
    → suc (others random (assign k random m)) ≡ others random m
unfolding others find assign
others-assign random k v [] h f = absurd (ground (arith, h))
others-assign random k v ((key, old) ∷ m) h f = elim (Bool-cases (key == k)) [
  | inl e ↦ let value : old ≡ v = ground (arith, rw e at h) in rw (e, value, f) (ground arith)
  | inr e ↦ let rest = others-assign random k v m (rw e at h) f in rw e (omega (arith, rest))
]

-- As many rounds as there are entries with another value are enough for the loop: more fuel gives
-- the same map.
pub relabel-enough :
    (fuel more random tmp : ℕ) (m : Map)
    → others random m ≤ fuel
    → relabel (fuel + more) random tmp m ≡ relabel fuel random tmp m
unfolding relabel
relabel-enough zero zero random tmp m h = refl
relabel-enough zero (suc more) random tmp m h =
    let next : zero + suc more ≡ suc more = omega arith in
    rw next (elim (Option-cases (find tmp m)) [
      | inl e ↦ rw (relabel, e) refl
      | inr (v, e) ↦ elim (Bool-cases (v == random)) [
        | inl f ↦ rw (relabel, e, f) refl
        | inr f ↦ absurd (omega (arith, others-assign random tmp v m e f))
      ]
    ])
relabel-enough (suc fuel) more random tmp m h =
    let next : suc fuel + more ≡ suc (fuel + more) = suc-add fuel more in
    rw next (elim (Option-cases (find tmp m)) [
      | inl e ↦ rw (relabel, e) refl
      | inr (v, e) ↦ elim (Bool-cases (v == random)) [
        | inl f ↦ rw (relabel, e, f) refl
        | inr f ↦
            let fewer = others-assign random tmp v m e f in
            rw (relabel, e, f)
              (relabel-enough fuel more random (low_plus_one tmp) (assign tmp random m)
                (omega (arith, fewer)))
      ]
    ])

value : Option ℕ → ℕ
value none = 0
value (some v) = v

value_eq : {a b : ℕ} → some a ≡ some b → a ≡ b
unfolding value
value_eq e = ap value e

-- Where a point joins two runs with different values, the value of its own cell changes: a point
-- that got the old one no longer agrees with the map.
pub claim-joins :
    (block0 block1 fresh r1 : ℕ) (m : Map)
    → joins block0 block1 m ≡ true
    → find block1 m ≡ some r1
    → find block1 (claim block0 block1 fresh m).1 ≢ some r1
unfolding joins claim
claim-joins b0 b1 fresh r1 m joined e1 same = elim (Option-cases (find b0 m)) [
  | inl e0 ↦ absurd (ground (arith, rw (joins, e0) at joined))
  | inr (r0, e0) ↦
      let differ : not (r1 == r0) ≡ true = rw (joins, e0, e1) at joined in
      let got : (claim b0 b1 fresh m).0 ≡ r0 = rw (claim, e0, e1) refl in
      let found = claim-find b0 b1 fresh m in
      let equal = value_eq (sym same ∙ found.1) ∙ got in absurd (ground arith)
]
