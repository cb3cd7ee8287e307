-- ===== src/Prefix/SetDec.antt =====
-- `set_round`, `set_dec` and `set_prefix` of `fpsi/utils/set_dec.cpp`. A `set<u64>` is the list of
-- its elements, in ascending order.
pub mod Extend
pub mod Cover
use opprf_fpsi.Prelude.{
  ℕ, zero, suc, ◌+◌, ◌-◌, ◌^◌, ◌≡◌, Bool, true, false, ◌||◌, ◌++◌, List, [], ◌∷◌, Option, none,
  some, ltb, ◌==◌, if◌then◌else◌, bit, length, sub64, Result, ok, err, ◌>>=◌, runtime_error,
  out_of_range,
}
use opprf_fpsi.Prefix.Strings.{num_bits, to_binary_string, get_first_n_chars}
use opprf_fpsi.Prefix.Decompose.{decompose_improve}

-- `u.count(mu)`.
unfoldable pub member : ℕ → List ℕ → Bool
member mu [] = false
member mu (x ∷ u) = x == mu || member mu u

-- The element before `u.lower_bound(dec)`, and `best` where there is none.
unfoldable pub before : ℕ → ℕ → List ℕ → ℕ
before best dec [] = best
before best dec (x ∷ u) = if ltb x dec then before x dec u else best

unfoldable pub set_round : ℕ → List ℕ → Result ℕ
set_round dec [] = err runtime_error
set_round dec (x ∷ u) = ok (before 0 dec (x ∷ u))

-- `binary.push_back((i >> j) & 1 ? '1' : '0')`, with `left` rounds to go.
unfoldable pub low_bits : ℕ → ℕ → ℕ → List Bool
low_bits zero j i = []
low_bits (suc left) j i = bit i j ∷ low_bits left (j + 1) i

-- `res_decs.push_back(dec + binary)`, with `left` rounds to go.
unfoldable pub extensions : List Bool → ℕ → ℕ → ℕ → List (List Bool)
extensions dec padding zero i = []
extensions dec padding (suc left) i =
    (dec ++ low_bits padding 0 i) ∷ extensions dec padding left (i + 1)

-- The strings that stand for one string of the decomposition.
unfoldable pub refine : List ℕ → List Bool → Result (List (List Bool))
refine u dec =
    let mu = num_bits - length dec in
    if member mu u
    then ok (dec ∷ [])
    else set_round mu u >>= λ mu_star. ok (extensions dec (mu - mu_star) (2 ^ (mu - mu_star)) 0)

unfoldable pub refine_all : List ℕ → List (List Bool) → Result (List (List Bool))
refine_all u [] = ok []
refine_all u (dec ∷ decs) = do ps ← refine u dec; qs ← refine_all u decs; ok (ps ++ qs)

unfoldable pub set_dec : ℕ → ℕ → List ℕ → Result (List (List Bool))
set_dec x y u = decompose_improve x y >>= refine_all u

unfoldable pub prefixes : List Bool → List ℕ → Result (List (List Bool))
prefixes s [] = ok []
prefixes s (i ∷ u) = elim (get_first_n_chars s (sub64 num_bits i)) [
  | none ↦ err out_of_range
  | some p ↦ prefixes s u >>= λ ps. ok (p ∷ ps)
]

unfoldable pub set_prefix : ℕ → List ℕ → Result (List (List Bool))
set_prefix value u = prefixes (to_binary_string value num_bits) u
