-- ===== src/Tests/Blocks.antt =====
-- Blocks for runs of the protocols on small inputs: hash values that remember what they are the
-- hash of, random blocks that are told apart by a number, and what a programmable PRF gives at a key
-- that is not programmed.
use opprf_fpsi.Prelude.{
  Result, ok, err, Returns, ℕ, zero, suc, ◌≡◌, ◌⊎◌, inl, inr, refl, sym, ap, ◌∙◌, Bool, true, false,
  ◌&&◌, ◌==◌, ==_iff, Bool-cases, List, [], ◌∷◌, In, In-append, draw, arith, if◌then◌else◌,
}
use opprf_fpsi.Prefix.Strings.{same, same_refl, eq_of_same}
use opprf_fpsi.Protocol.Linf.{padding_blocks}
use opprf_fpsi.Protocol.Rounds.Laws.{IsProgrammable}

pub data TestBlock : Type 0 where
  hashed : List Bool → TestBlock → ℕ → ℕ → TestBlock
  number : ℕ → TestBlock
  unknown : TestBlock → TestBlock

abbrev pub equal : TestBlock → TestBlock → Bool
equal (hashed p a k i) (hashed q b m j) = same p q && equal a b && k == m && i == j
equal (number n) (number m) = n == m
equal (unknown a) (unknown b) = equal a b
equal _ _ = false

-- The value of the first entry for the key.
abbrev pub lookup : List (TestBlock × TestBlock) → TestBlock → TestBlock
lookup [] q = unknown q
lookup ((p, v) ∷ es) q = if equal p q then v else lookup es q

equal_refl : (a : TestBlock) → equal a a ≡ true
equal_refl (hashed p a k i) =
    let n : (k == k) ≡ true = ground arith in
    let m : (i == i) ≡ true = ground arith in rw (same_refl p, equal_refl a, n, m) refl
equal_refl (number n) = ground arith
equal_refl (unknown a) = equal_refl a

eq_of_equal : (a b : TestBlock) → equal a b ≡ true → a ≡ b
eq_of_equal (hashed p a k i) (hashed q b m j) h =
    let (hp, ha, hk, hi) = parts (same p q) (equal a b) (k == m) (i == j) h in
    let e = eq_of_same p q hp in
    let d = eq_of_equal a b ha in let n = (==_iff k m).0 hk in let l = (==_iff i j).0 hi in cc
  where
    parts :
        (a b c d : Bool)
        → (a && b && c && d) ≡ true
        → (a ≡ true) × (b ≡ true) × (c ≡ true) × (d ≡ true)
    parts true true true true h = (refl, refl, refl, refl)
    parts true true true false h = absurd (cc)
    parts true true false d h = absurd (cc)
    parts true false c d h = absurd (cc)
    parts false b c d h = absurd (cc)
eq_of_equal (number n) (number m) h = ap number ((==_iff n m).0 h)
eq_of_equal (unknown a) (unknown b) h = ap unknown (eq_of_equal a b h)
eq_of_equal (hashed p a k i) (number n) h = absurd (cc)
eq_of_equal (hashed p a k i) (unknown b) h = absurd (cc)
eq_of_equal (number n) (hashed p a k i) h = absurd (cc)
eq_of_equal (number n) (unknown b) h = absurd (cc)
eq_of_equal (unknown b) (hashed p a k i) h = absurd (cc)
eq_of_equal (unknown b) (number n) h = absurd (cc)

-- Either the key has an entry, whose value is found, or it has none.
pub lookup-cases :
    (es : List (TestBlock × TestBlock)) (q : TestBlock)
    → ((v : TestBlock) × In (q, v) es × (lookup es q ≡ v))
      ⊎ ((lookup es q ≡ unknown q) × ((v : TestBlock) → In (q, v) es → ⊥))
lookup-cases [] q = inr (refl, λ v m. m)
lookup-cases ((p, v) ∷ es) q = elim (Bool-cases (equal p q)) [
  | inl e ↦
      let here = eq_of_equal p q e in
      inl (v, inl (ap (λ (t : TestBlock). (t, v)) (sym here)), rw e refl)
  | inr e ↦ elim (lookup-cases es q) [
    | inl (w, m, found) ↦ inl (w, inr m, rw e found)
    | inr (missing, absent) ↦ inr (rw e missing, absent_here p v es q e absent)
  ]
]
  where
    absent_here :
        (p v : TestBlock) (es : List (TestBlock × TestBlock)) (q : TestBlock)
        → equal p q ≡ false
        → ((v : TestBlock) → In (q, v) es → ⊥)
        → (w : TestBlock) → In (q, w) ((p, v) ∷ es)
        → ⊥
    absent_here p v es q e absent w (inl d) =
        let same_key : q ≡ p = ap (λ (t : TestBlock × TestBlock). t.0) d in
        let differ : equal p p ≡ false = rw same_key at e in let same_here = equal_refl p in cc
    absent_here p v es q e absent w (inr m) = absent w m

pub lookup-IsProgrammable : IsProgrammable lookup
lookup-IsProgrammable es q v m unique = elim (lookup-cases es q) [
  | inl (w, n, found) ↦ found ∙ unique w n
  | inr (missing, absent) ↦ absurd (absent v m)
]

draw-In :
    {A : Type 0} (drawn : ℕ → A) (start count : ℕ) (a : A)
    → In a (draw drawn start count)
    → (n : ℕ) × (a ≡ drawn n)
unfolding draw
draw-In drawn start zero a m = absurd m
draw-In drawn start (suc count) a (inl e) = (start, e)
draw-In drawn start (suc count) a (inr m) = draw-In drawn (suc start) count a m

-- The entries of a padded list are its own and the padding's.
pub padding_blocks-In :
    {A : Type 0} (drawn : ℕ → A) (vals : List A) (count : ℕ) (a : A)
    → In a (padding_blocks drawn vals count)
    → In a vals ⊎ ((n : ℕ) × (a ≡ drawn n))
unfolding padding_blocks
padding_blocks-In drawn vals count a m = elim (In-append a vals _ m) [
  | inl l ↦ inl l
  | inr r ↦ inr (draw-In drawn 0 _ a r)
]

-- What a call returns, as a list.
abbrev pub value_of : {A : Type 0} → Result (List A) → List A
value_of (ok xs) = xs
value_of (err e) = []

pub value_of-Returns :
    {A : Type 0} (r : Result (List A)) (P : List A → Type 0) → Returns r P → r ≡ ok (value_of r)
value_of-Returns r P (xs, e, p) = rw e refl
