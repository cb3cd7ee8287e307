-- ===== src/Prefix/SetDec/Cover.antt =====
-- `set_dec` as a whole: the strings are as wide as the set allows, and begin just the values of
-- the interval, each once.
use opprf_fpsi.Prelude.{
  ℕ, zero, suc, ◌+◌, ◌-◌, ◌^◌, ◌≤◌, ◌<◌, ◌≡◌, refl, ap₂, ◌∙◌, ◌⊎◌, inl, inr, Bool, true, ◌++◌, List,
  [], ◌∷◌, arith, length, to_nat, length-append, All, All-append, Bool-cases, Returns,
}
use opprf_fpsi.Prefix.Strings.{covers}
use opprf_fpsi.Prefix.Hits.{hits, hits-append, in_range}
use opprf_fpsi.Prefix.Decompose.Laws.{IsLong, decompose_improve-Splits}
use opprf_fpsi.Prefix.SetDec.{
  member, before, set_round, low_bits, extensions, refine, refine_all, set_dec,
}
use opprf_fpsi.Prefix.SetDec.Extend.{length-low_bits, extensions-hits}

before-member :
    (best dec : ℕ) (u : List ℕ) → (before best dec u ≡ best) ⊎ (member (before best dec u) u ≡ true)
unfolding before member
before-member best dec [] = inl refl
before-member best dec (x ∷ u) = ground (arith, before-member x dec u)

before-le : (best dec : ℕ) (u : List ℕ) → best ≤ dec → before best dec u ≤ dec
unfolding before
before-le best dec [] h = h
before-le best dec (x ∷ u) h = ground (arith, before-le x dec u)

-- The characters that a string leaves out are one of the numbers of the set.
abbrev pub HasWidth : List ℕ → List Bool → Type 0
HasWidth u p = (length p ≤ 64) × (member (64 - length p) u ≡ true)

extensions-HasWidth :
    (u : List ℕ) (dec : List Bool) (k left i : ℕ)
    → length dec + k ≤ 64
    → member (64 - (length dec + k)) u ≡ true
    → All (HasWidth u) (extensions dec k left i)
unfolding extensions
extensions-HasWidth u dec k zero i h m = tt
extensions-HasWidth u dec k (suc left) i h m =
    ((omega (arith, width), rw width m), extensions-HasWidth u dec k left (i + 1) h m)
  where
    width : length (dec ++ low_bits k 0 i) ≡ length dec + k
    width = omega (arith, length-append dec (low_bits k 0 i), length-low_bits k 0 i)

-- What the strings `ps` must be to stand for the string `dec`.
abbrev Refines : List ℕ → List Bool → List (List Bool) → Type 0
Refines u dec ps = ((v : ℕ) → hits v ps ≡ to_nat (covers dec v)) × All (HasWidth u) ps

round-member :
    (mu : ℕ) (u : List ℕ)
    → member 0 u ≡ true
    → Returns (set_round mu u) λ r. (r ≤ mu) × (member r u ≡ true)
unfolding set_round
round-member mu [] m = unfold member in cc
round-member mu (x ∷ u) m = (
  before 0 mu (x ∷ u),
  refl,
  (
    before-le 0 mu (x ∷ u) (omega arith),
    elim (before-member 0 mu (x ∷ u)) [ inl e ↦ rw e m | inr e ↦ e ],
  ),
)

refine-Refines :
    (u : List ℕ) (dec : List Bool)
    → length dec ≤ 64
    → member 0 u ≡ true
    → Returns (refine u dec) (Refines u dec)
unfolding refine
refine-Refines u dec h zero_in = elim (Bool-cases (member (64 - length dec) u)) [
  | inl e ↦ (dec ∷ [], rw e, ((λ v. unfold hits in omega arith), ((h, e), tt)))
  | inr e ↦
      let mu = 64 - length dec in
      let (r, run, (below, inside)) = round-member mu u zero_in in
      let fits : length dec + (mu - r) ≤ 64 = omega arith in
      let left : 64 - (length dec + (mu - r)) ≡ r = omega arith in
      (
        extensions dec (mu - r) (2 ^ (mu - r)) 0,
        rw (e, run),
        (
          (λ v. extensions-hits dec (mu - r) v fits),
          extensions-HasWidth u dec (mu - r) (2 ^ (mu - r)) 0 fits (rw left inside),
        ),
      )
]

refine_all-Refines :
    (u : List ℕ) (decs : List (List Bool))
    → All IsLong decs
    → member 0 u ≡ true
    → Returns (refine_all u decs) λ ps. ((v : ℕ) → hits v ps ≡ hits v decs) × All (HasWidth u) ps
unfolding refine_all hits
refine_all-Refines u [] l m = ([], refl, (λ v. refl, tt))
refine_all-Refines u (dec ∷ decs) l m =
    let (ps, run, (here, wide)) = refine-Refines u dec l.0.1 m in
    let (qs, runs, (rest, wides)) = refine_all-Refines u decs l.1 m in
    (
      ps ++ qs,
      rw (run, runs),
      (
        (λ v. hits-append v ps qs ∙ ap₂ ◌+◌ (here v) (rest v)),
        All-append (HasWidth u) ps qs wide wides,
      ),
    )

-- What a list of strings must be to stand for the interval from `x` to `y` and fit the set `u`.
pub record Covers (x y : ℕ) (u : List ℕ) (ps : List (List Bool)) : Type 0 where
  pub once : (v : ℕ) → v < 2 ^ 64 → hits v ps ≡ in_range x (y + 1) v
  pub wide : All (HasWidth u) ps

-- On an interval of fewer than `2 ^ 31` values, with 0 in the set, `set_dec` succeeds: each value
-- of the interval begins with just one of the strings, any other with none, and the number of
-- characters that each string leaves out is in the set.
pub set_dec-Covers :
    (x y : ℕ) (u : List ℕ)
    → x ≤ y
    → y < 2 ^ 64
    → y - x + 1 < 2 ^ 31
    → member 0 u ≡ true
    → Returns (set_dec x y u) (Covers x y u)
unfolding set_dec
set_dec-Covers x y u le top short m =
    let (decs, run, split) = decompose_improve-Splits x y le top short in
    let (ps, runs, (same, wide)) = refine_all-Refines u decs split.long m in
    (ps, rw run runs, record { once = λ v h. same v ∙ split.once v h; wide = wide })
