-- ===== src/Prefix/Shared.antt =====
-- Two lists of strings have a common string just if they have a pair of equal ones.
use opprf_fpsi.Prelude.{
  ℕ, ◌+◌, ◌≤◌, ◌≡◌, refl, ◌⊎◌, Bool, true, List, [], ◌∷◌, inl, inr, arith, In, Bool-cases,
}
use opprf_fpsi.Prefix.Strings.{same, same_refl, eq_of_same}
use opprf_fpsi.Prefix.Match.{equal_to, common}

In-equal_to : (q : List Bool) (ps : List (List Bool)) → In q ps → 1 ≤ equal_to q ps
unfolding equal_to
In-equal_to q [] m = absurd m
In-equal_to q (p ∷ ps) (inl e) =
    let here : same q p ≡ true = rw (← e) (same_refl q) in rw here (omega arith)
In-equal_to q (p ∷ ps) (inr m) = omega (arith, In-equal_to q ps m)

equal_to-In : (q : List Bool) (ps : List (List Bool)) → 1 ≤ equal_to q ps → In q ps
unfolding equal_to
equal_to-In q [] h = absurd (omega (arith, h))
equal_to-In q (p ∷ ps) h = elim (Bool-cases (same q p)) [
  | inl e ↦ inl (eq_of_same q p e)
  | inr e ↦ inr (equal_to-In q ps (ground (arith, e, h)))
]

pub In-common : (q : List Bool) (qs ps : List (List Bool)) → In q qs → In q ps → 1 ≤ common qs ps
unfolding common
In-common q [] ps m n = absurd m
In-common q (r ∷ qs) ps (inl e) n = omega (arith, In-equal_to r ps (rw (← e) n))
In-common q (r ∷ qs) ps (inr m) n = omega (arith, In-common q qs ps m n)

pub common-In : (qs ps : List (List Bool)) → 1 ≤ common qs ps → (q : List Bool) × In q qs × In q ps
unfolding common
common-In [] ps h = absurd (omega (arith, h))
common-In (r ∷ qs) ps h = elim (first_or_rest (equal_to r ps) (common qs ps) h) [
  | inl here ↦ (r, inl refl, equal_to-In r ps here)
  | inr later ↦ let (q, m, n) = common-In qs ps later in (q, inr m, n)
]
  where
    first_or_rest : (a b : ℕ) → 1 ≤ a + b → (1 ≤ a) ⊎ (1 ≤ b)
    first_or_rest a b h = ground arith
