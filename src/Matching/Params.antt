-- ===== src/Matching/Params.antt =====
-- `fpsi/utils/params_selects.h`: the three tables and their lookup. A `map` is the list of its
-- entries; no table has a key twice.
use opprf_fpsi.Prelude.{
  ℕ, ◌^◌, ◌&&◌, ltb, leb, ◌≤◌, ◌<◌, ◌≡◌, refl, sym, ap, ◌⊎◌, inl, inr, Bool, true, false, List, [],
  ◌∷◌, arith, All, Bool-cases, ◌==◌, if◌then◌else◌, Result, ok, err, out_of_range,
}
use opprf_fpsi.Prefix.SetDec.{member}
use opprf_fpsi.Prefix.Match.{Ascends}

-- `PrefixParam`: the set, and the number of strings that the decomposition is given room for.
pub record PrefixParam : Type 0 where
  pub widths : List ℕ
  pub room : ℕ

abbrev pub Table : Type 0
Table = List (ℕ × PrefixParam)

abbrev entry : ℕ → List ℕ → ℕ → ℕ × PrefixParam
entry t widths room = (t, record { widths = widths; room = room })

unfoldable pub if_match_table : Table
if_match_table =
    entry 11 (0 ∷ 2 ∷ []) 5
    ∷ entry 31 (0 ∷ 1 ∷ 2 ∷ 3 ∷ []) 6
    ∷ entry 61 (0 ∷ 2 ∷ 3 ∷ 4 ∷ []) 11
    ∷ entry 121 (0 ∷ 2 ∷ 4 ∷ 5 ∷ []) 14
    ∷ entry 251 (0 ∷ 2 ∷ 4 ∷ 6 ∷ []) 17
    ∷ entry 101 (0 ∷ 2 ∷ 4 ∷ 6 ∷ []) 14
    ∷ entry 901 (0 ∷ 3 ∷ 6 ∷ 9 ∷ []) 33
    ∷ entry 3601 (0 ∷ 4 ∷ 8 ∷ 11 ∷ []) 46
    ∷ entry 14401 (0 ∷ 4 ∷ 8 ∷ 13 ∷ []) 91
    ∷ entry 62501 (0 ∷ 5 ∷ 10 ∷ 15 ∷ []) 129
    ∷ []

unfoldable pub lp_table : Table
lp_table =
    entry 10 (0 ∷ 1 ∷ []) 6
    ∷ entry 11 (0 ∷ 2 ∷ []) 5
    ∷ entry 30 (0 ∷ 1 ∷ 2 ∷ 3 ∷ []) 8
    ∷ entry 31 (0 ∷ 1 ∷ 2 ∷ 3 ∷ []) 6
    ∷ entry 60 (0 ∷ 2 ∷ 3 ∷ 4 ∷ []) 10
    ∷ entry 61 (0 ∷ 2 ∷ 3 ∷ 4 ∷ []) 11
    ∷ entry 120 (0 ∷ 3 ∷ 4 ∷ 5 ∷ []) 14
    ∷ entry 121 (0 ∷ 2 ∷ 4 ∷ 5 ∷ []) 14
    ∷ entry 250 (0 ∷ 2 ∷ 4 ∷ 6 ∷ []) 19
    ∷ entry 251 (0 ∷ 2 ∷ 4 ∷ 6 ∷ []) 17
    ∷ []

unfoldable pub linf_table : Table
linf_table =
    entry 21 (0 ∷ 1 ∷ 2 ∷ 3 ∷ []) 6
    ∷ entry 61 (0 ∷ 1 ∷ 2 ∷ 3 ∷ 4 ∷ []) 9
    ∷ entry 121 (0 ∷ 1 ∷ 2 ∷ 3 ∷ 4 ∷ 5 ∷ []) 10
    ∷ entry 241 (0 ∷ 1 ∷ 2 ∷ 3 ∷ 5 ∷ 6 ∷ []) 13
    ∷ entry 501 (0 ∷ 1 ∷ 2 ∷ 4 ∷ 5 ∷ 6 ∷ []) 17
    ∷ []

-- `getSelectedParam`.
unfoldable pub get_selected_param : Table → ℕ → Result PrefixParam
get_selected_param [] t = err out_of_range
get_selected_param ((key, param) ∷ table) t =
    if key == t then ok param else get_selected_param table t

-- What the matching relies on: an ascending set of numbers up to 64 with 0 in it, for an interval
-- of few values.
pub record IsUsable (t : ℕ) (param : PrefixParam) : Type 0 where
  pub short : t < 2 ^ 31
  pub ascends : Ascends param.widths
  pub small : All (λ i. i ≤ 64) param.widths
  pub zero_in : member 0 param.widths ≡ true

above : ℕ → List ℕ → Bool
above x [] = true
above x (y ∷ u) = ltb x y && above x u

above-All : (x : ℕ) (u : List ℕ) → above x u ≡ true → All (λ y. x < y) u
unfolding above
above-All x [] e = tt
above-All x (y ∷ u) e = (ground arith, above-All x u (ground arith))

ascending : List ℕ → Bool
ascending [] = true
ascending (x ∷ u) = above x u && ascending u

ascending-Ascends : (u : List ℕ) → ascending u ≡ true → Ascends u
unfolding ascending
ascending-Ascends [] e = tt
ascending-Ascends (x ∷ u) e = (above-All x u (ground arith), ascending-Ascends u (ground arith))

up_to_64 : List ℕ → Bool
up_to_64 [] = true
up_to_64 (x ∷ u) = leb x 64 && up_to_64 u

up_to_64-All : (u : List ℕ) → up_to_64 u ≡ true → All (λ i. i ≤ 64) u
unfolding up_to_64
up_to_64-All [] e = tt
up_to_64-All (x ∷ u) e = (ground arith, up_to_64-All u (ground arith))

usable : ℕ → PrefixParam → Bool
usable t param =
    ltb t (2 ^ 31) && (ascending param.widths && (up_to_64 param.widths && member 0 param.widths))

usable-IsUsable : (t : ℕ) (param : PrefixParam) → usable t param ≡ true → IsUsable t param
unfolding usable
usable-IsUsable t param e = record {
  short = ground arith;
  ascends = ascending-Ascends param.widths (ground arith);
  small = up_to_64-All param.widths (ground arith);
  zero_in = ground arith;
}

all_usable : Table → Bool
all_usable [] = true
all_usable ((key, param) ∷ table) = usable key param && all_usable table

from_ok : PrefixParam → Result PrefixParam → PrefixParam
from_ok p (ok q) = q
from_ok p (err e) = p

is_ok : Result PrefixParam → Bool
is_ok (ok q) = true
is_ok (err e) = false

selected-IsUsable :
    (table : Table) (t : ℕ) (param : PrefixParam)
    → all_usable table ≡ true
    → get_selected_param table t ≡ ok param
    → IsUsable t param
unfolding get_selected_param all_usable from_ok is_ok
selected-IsUsable [] t param u e = absurd (ground (arith, ap is_ok e))
selected-IsUsable ((key, q) ∷ table) t param u e = elim (Bool-cases (key == t)) [
  | inl k ↦
      let here : key ≡ t = ground arith in
      let same : q ≡ param = ap (from_ok q) (rw k at e) in
      rw (sym here, sym same) (usable-IsUsable key q (ground arith))
  | inr k ↦ selected-IsUsable table t param (ground arith) (rw k at e)
]

-- A set that one of the three tables selects ascends, holds 0 and no number above 64, and its
-- interval has fewer than `2 ^ 31` values.
pub tables-IsUsable :
    (t : ℕ) (param : PrefixParam)
    → (get_selected_param linf_table t ≡ ok param)
      ⊎ (get_selected_param lp_table t ≡ ok param)
      ⊎ (get_selected_param if_match_table t ≡ ok param)
    → IsUsable t param
unfolding linf_table lp_table if_match_table all_usable usable above ascending up_to_64 member
tables-IsUsable t param (inl e) = selected-IsUsable linf_table t param refl e
tables-IsUsable t param (inr (inl e)) = selected-IsUsable lp_table t param refl e
tables-IsUsable t param (inr (inr e)) = selected-IsUsable if_match_table t param refl e
