-- ===== src/Prefix/Hits.antt =====
-- How many strings of a list begin a value, and half-open ranges of values.
use native.Mathlib.Nat.{div-add-mod', div-eq_of_lt-le, mod-lt, add-mul}
use opprf_fpsi.Prelude.{
  ℕ, ◌+◌, ◌*◌, ◌/◌, ◌^◌, ◌≤◌, ◌<◌, ◌≡◌, sym, ap, ◌∙◌, Bool, true, ◌&&◌, ◌++◌, List, [], ◌∷◌, arith,
  leb, ltb, to_nat, pow_pos, Bool-ext,
}
use opprf_fpsi.Prefix.Strings.{to_binary_string, covers, covers_iff}

abbrev pub is_between : ℕ → ℕ → ℕ → Bool
is_between lo hi v = leb lo v && ltb v hi

-- 1 on the values `lo ≤ v < hi`, and 0 elsewhere.
abbrev pub in_range : ℕ → ℕ → ℕ → ℕ
in_range lo hi v = to_nat (is_between lo hi v)

pub in_range-add : (a b c v : ℕ) → a ≤ b → b ≤ c → in_range a b v + in_range b c v ≡ in_range a c v
in_range-add a b c v p q = ground arith

pub in_range-empty : (a v : ℕ) → in_range a a v ≡ 0
in_range-empty a v = ground arith

-- The number of strings in the list that begin the value.
unfoldable pub hits : ℕ → List (List Bool) → ℕ
hits v [] = 0
hits v (p ∷ ps) = to_nat (covers p v) + hits v ps

pub hits-append : (v : ℕ) (ps qs : List (List Bool)) → hits v (ps ++ qs) ≡ hits v ps + hits v qs
unfolding hits
hits-append v [] qs = omega arith
hits-append v (p ∷ ps) qs = omega (arith, hits-append v ps qs)

-- The first `n` characters of any value in the aligned block `[q * 2 ^ i, (q + 1) * 2 ^ i)` begin
-- just the values in that block.
pub covers-block :
    (n i q x v : ℕ)
    → n + i ≡ 64
    → x < 2 ^ 64
    → v < 2 ^ 64
    → q * 2 ^ i ≤ x
    → x < q * 2 ^ i + 2 ^ i
    → covers (to_binary_string x n) v ≡ is_between (q * 2 ^ i) (q * 2 ^ i + 2 ^ i) v
covers-block n i q x v e hx hv lo hi =
    Bool-ext _ _ (λ c. inside ((covers_iff n i x v e hx hv).0 c ∙ quotient x lo hi))
      (λ b.
        (covers_iff n i x v e hx hv).1
          (quotient v (ground arith) (ground arith) ∙ sym (quotient x lo hi)))
  where
    quotient : (y : ℕ) → q * 2 ^ i ≤ y → y < q * 2 ^ i + 2 ^ i → y / 2 ^ i ≡ q
    quotient y p r = div-eq_of_lt-le (2 ^ i) p (omega (arith, add-mul q 1 (2 ^ i)))

    inside : v / 2 ^ i ≡ q → is_between (q * 2 ^ i) (q * 2 ^ i + 2 ^ i) v ≡ true
    inside h =
        ground (arith, div-add-mod' v (2 ^ i), mod-lt v (pow_pos i), ap (λ (t : ℕ). t * 2 ^ i) h)
