-- ===== src/Prefix/Match.antt =====
-- The two sides of `fpsi/utils/set_dec.cpp` together: the prefixes that the sender asks for,
-- `set_prefix`, against those that the receiver programs, `set_dec`.
use opprf_fpsi.Prelude.{
  ℕ, suc, ◌+◌, ◌-◌, ◌^◌, ◌≤◌, ◌<◌, ◌≡◌, ◌≢◌, refl, ap, ap₂, ◌∙◌, inl, inr, Bool, true, false, List,
  [], ◌∷◌, some, ◌==◌, arith, length, take, to_nat, length-take, All, Bool-cases, sub64, ok,
  Returns,
}
use opprf_fpsi.Prefix.Strings.{
  to_bits, to_binary_string, get_first_n_chars, same, covers, length-to_bits, eq_of_same,
}
use opprf_fpsi.Prefix.Hits.{hits, in_range}
use opprf_fpsi.Prefix.SetDec.{member, set_dec, prefixes, set_prefix}
use opprf_fpsi.Prefix.SetDec.Cover.{HasWidth, set_dec-Covers}

-- The elements of a `set<u64>` come in ascending order, each once.
abbrev pub Ascends : List ℕ → Type 0
Ascends [] = Unit
Ascends (x ∷ u) = All (λ y. x < y) u × Ascends u

-- The pairs of a string of `qs` and an equal one of `ps`.
unfoldable pub equal_to : List Bool → List (List Bool) → ℕ
equal_to q [] = 0
equal_to q (p ∷ ps) = to_nat (same q p) + equal_to q ps

unfoldable pub common : List (List Bool) → List (List Bool) → ℕ
common [] ps = 0
common (q ∷ qs) ps = equal_to q ps + common qs ps

-- The queries, in closed form.
unfoldable pub queries : ℕ → List ℕ → List (List Bool)
queries v [] = []
queries v (i ∷ u) = take (64 - i) (to_bits 64 v) ∷ queries v u

first_chars :
    (v i : ℕ)
    → i ≤ 64
    → get_first_n_chars (to_bits 64 v) (sub64 64 i) ≡ some (take (64 - i) (to_bits 64 v))
unfolding get_first_n_chars
first_chars v i h =
    let size : sub64 64 i ≡ 64 - i = omega arith in rw (size, length-to_bits 64 v) (ground arith)

prefixes-eq :
    (v : ℕ) (u : List ℕ) → All (λ i. i ≤ 64) u → prefixes (to_bits 64 v) u ≡ ok (queries v u)
unfolding prefixes queries
prefixes-eq v [] h = refl
prefixes-eq v (i ∷ u) h = rw (first_chars v i h.0, prefixes, prefixes-eq v u h.1)

pub set_prefix-eq : (v : ℕ) (u : List ℕ) → All (λ i. i ≤ 64) u → set_prefix v u ≡ ok (queries v u)
unfolding set_prefix to_binary_string
set_prefix-eq v u h = unfold to_bits in prefixes-eq v u h

-- The queries that are equal to `p`.
asked : ℕ → List ℕ → List Bool → ℕ
asked v [] p = 0
asked v (i ∷ u) p = to_nat (same (take (64 - i) (to_bits 64 v)) p) + asked v u p

-- A query of another length is another string.
other_length :
    (v i : ℕ) (p : List Bool)
    → i ≤ 64
    → length p ≤ 64
    → i ≢ 64 - length p
    → same (take (64 - i) (to_bits 64 v)) p ≡ false
other_length v i p h w ne = elim (Bool-cases (same (take (64 - i) (to_bits 64 v)) p)) [
  | inl e ↦
      let widths = ap length (eq_of_same _ _ e) in
      absurd (ne (omega (arith, widths, length-take (64 - i) (to_bits 64 v), length-to_bits 64 v)))
  | inr e ↦ e
]

asked-absent :
    (v : ℕ) (u : List ℕ) (p : List Bool)
    → All (λ i. i ≤ 64) u
    → length p ≤ 64
    → All (λ i. 64 - length p < i) u
    → asked v u p ≡ 0
unfolding asked
asked-absent v [] p small w above = refl
asked-absent v (i ∷ u) p small w above =
    rw (other_length v i p small.0 w (λ e. omega (arith, above.0)))
      (omega (arith, asked-absent v u p small.1 w above.1))

asked-eq :
    (v : ℕ) (u : List ℕ) (p : List Bool)
    → Ascends u
    → All (λ i. i ≤ 64) u
    → HasWidth u p
    → asked v u p ≡ to_nat (covers p v)
unfolding asked member
asked-eq v [] p up small w = cc
asked-eq v (i ∷ u) p up small w = elim (Bool-cases (i == 64 - length p)) [
  | inl e ↦
      let here : i ≡ 64 - length p = ground arith in
      let width : 64 - i ≡ length p = omega (arith, w.0) in
      let none_left = asked-absent v u p small.1 w.0 (rw here at up.0) in
      rw (width, none_left) (unfold covers in omega arith)
  | inr e ↦
      rw (other_length v i p small.0 w.0 (λ q. ground arith))
        (omega (arith, asked-eq v u p up.1 small.1 (w.0, rw e at w.1)))
]

common-nil : (qs : List (List Bool)) → common qs [] ≡ 0
unfolding common equal_to
common-nil [] = refl
common-nil (q ∷ qs) = omega (arith, common-nil qs)

common-cons :
    (v : ℕ) (u : List ℕ) (p : List Bool) (ps : List (List Bool))
    → common (queries v u) (p ∷ ps) ≡ asked v u p + common (queries v u) ps
unfolding common equal_to queries asked
common-cons v [] p ps = refl
common-cons v (i ∷ u) p ps = omega (arith, common-cons v u p ps)

common-queries :
    (v : ℕ) (u : List ℕ) (ps : List (List Bool))
    → Ascends u
    → All (λ i. i ≤ 64) u
    → All (HasWidth u) ps
    → common (queries v u) ps ≡ hits v ps
unfolding hits
common-queries v u [] up small w = common-nil (queries v u)
common-queries v u (p ∷ ps) up small w =
    common-cons v u p ps
    ∙ ap₂ ◌+◌ (asked-eq v u p up small w.0) (common-queries v u ps up small w.1)

-- For an interval of fewer than `2 ^ 31` values and a set that holds 0 and no number above 64,
-- both calls succeed, and one of the value's prefixes is one of the interval's strings, in one
-- place, if the value lies in the interval; otherwise there is no such pair.
pub set_prefix-set_dec :
    (x y v : ℕ) (u : List ℕ)
    → x ≤ y
    → y < 2 ^ 64
    → y - x + 1 < 2 ^ 31
    → v < 2 ^ 64
    → Ascends u
    → All (λ i. i ≤ 64) u
    → member 0 u ≡ true
    → Returns
        (set_dec x y u)
        λ ps. Returns (set_prefix v u) λ qs. common qs ps ≡ in_range x (y + 1) v
set_prefix-set_dec x y v u le top short hv up small zero_in =
    let (ps, run, cover) = set_dec-Covers x y u le top short zero_in in
    (
      ps,
      run,
      (
        queries v u,
        set_prefix-eq v u small,
        common-queries v u ps up small cover.wide ∙ cover.once v hv,
      ),
    )

length-queries : (v : ℕ) (u : List ℕ) → length (queries v u) ≡ length u
unfolding queries
length-queries v [] = refl
length-queries v (i ∷ u) = ap suc (length-queries v u)

-- A value has as many prefixes as the set has elements.
pub length-set_prefix :
    (v : ℕ) (u : List ℕ) → All (λ i. i ≤ 64) u → Returns (set_prefix v u) λ qs. length qs ≡ length u
length-set_prefix v u small = (queries v u, set_prefix-eq v u small, length-queries v u)
