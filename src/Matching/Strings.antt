-- ===== src/Matching/Strings.antt =====
-- The strings of both parties for one coordinate, or one sum, and when they meet:
-- `mp_ssFMat_linf`, `mp_ssFMat_lp` and `ssIFMat` of `fpsi/fpsi_recv.cpp` and `fpsi_sender.cpp`,
-- before hashing.
use opprf_fpsi.Prelude.{
  ℕ, ◌+◌, ◌-◌, ◌*◌, ◌^◌, ◌≤◌, ◌<◌, ◌≡◌, ◌∙◌, Bool, ◌&&◌, List, arith, ltb, leb, to_nat, u64, sub64,
  Result, ok, ◌>>=◌, Returns, inl, inr, refl, length,
}
use opprf_fpsi.Prefix.SetDec.{set_dec, set_prefix}
use opprf_fpsi.Prefix.Hits.{in_range}
use opprf_fpsi.Prefix.Match.{common, set_prefix-set_dec, length-set_prefix}
use opprf_fpsi.Grid.Cells.{diff}
use opprf_fpsi.Matching.Params.{
  PrefixParam, IsUsable, linf_table, lp_table, if_match_table, get_selected_param, tables-IsUsable,
}

unfoldable pub linf_strings : ℕ → ℕ → Result (List (List Bool))
linf_strings delta x = do
  param ← get_selected_param linf_table (u64 (2 * delta + 1))
  set_dec (sub64 x delta) (u64 (x + delta)) param.widths

unfoldable pub linf_queries : ℕ → ℕ → Result (List (List Bool))
linf_queries delta y = do
  param ← get_selected_param linf_table (u64 (2 * delta + 1))
  set_prefix y param.widths

-- The strings at or below the coordinate (`sigma0`), and those above it (`sigma1`).
unfoldable pub lp_strings : ℕ → ℕ → Result (List (List Bool) × List (List Bool))
lp_strings delta x = do
  delta_plus_param ← get_selected_param lp_table (u64 (delta + 1))
  delta_param ← get_selected_param lp_table delta
  x_0 ← set_dec (sub64 x delta) x delta_plus_param.widths
  x_1 ← set_dec (u64 (x + 1)) (u64 (x + delta)) delta_param.widths
  ok (x_0, x_1)

unfoldable pub lp_queries : ℕ → ℕ → Result (List (List Bool) × List (List Bool))
lp_queries delta y = do
  delta_plus_param ← get_selected_param lp_table (u64 (delta + 1))
  delta_param ← get_selected_param lp_table delta
  prefixs_0 ← set_prefix y delta_plus_param.widths
  prefixs_1 ← set_prefix y delta_param.widths
  ok (prefixs_0, prefixs_1)

unfoldable pub if_match_strings : ℕ → ℕ → Result (List (List Bool))
if_match_strings threshold v_sum = do
  param ← get_selected_param if_match_table (u64 (threshold + 1))
  set_dec v_sum (u64 (v_sum + threshold)) param.widths

unfoldable pub if_match_queries : ℕ → ℕ → Result (List (List Bool))
if_match_queries threshold u_sum = do
  param ← get_selected_param if_match_table (u64 (threshold + 1))
  set_prefix u_sum param.widths

-- Strings and queries for the same selected set meet just for the values of the interval.
meet :
    (t x y v : ℕ) (param : PrefixParam)
    → IsUsable t param
    → x ≤ y
    → y < 2 ^ 64
    → y - x + 1 ≤ t
    → v < 2 ^ 64
    → Returns
        (set_dec x y param.widths)
        λ ps. Returns (set_prefix v param.widths) λ qs. common qs ps ≡ in_range x (y + 1) v
meet t x y v param u le top size hv =
    let short = u.short in
    set_prefix-set_dec x y v param.widths le top (omega arith) hv u.ascends u.small u.zero_in

-- The calls with their arguments in range.
module _ (d x : ℕ) (high : x + d < 2 ^ 64) where
  top_eq : u64 (x + d) ≡ x + d
  top_eq = omega arith

  bottom_eq : d ≤ x → sub64 x d ≡ x - d
  bottom_eq h = omega arith

word_eq : (table_key : ℕ) → table_key < 2 ^ 31 → u64 table_key ≡ table_key
word_eq k h = omega arith

linf_strings-eq :
    (d x : ℕ) (param : PrefixParam)
    → get_selected_param linf_table (2 * d + 1) ≡ ok param
    → d ≤ x
    → x + d < 2 ^ 64
    → linf_strings d x ≡ set_dec (x - d) (x + d) param.widths
unfolding linf_strings
linf_strings-eq d x param found low high =
    let u = tables-IsUsable (2 * d + 1) param (inl found) in
    rw (word_eq (2 * d + 1) u.short, found, bottom_eq d x high low, top_eq d x high) refl

linf_queries-eq :
    (d y : ℕ) (param : PrefixParam)
    → get_selected_param linf_table (2 * d + 1) ≡ ok param
    → linf_queries d y ≡ set_prefix y param.widths
unfolding linf_queries
linf_queries-eq d y param found =
    let u = tables-IsUsable (2 * d + 1) param (inl found) in
    rw (word_eq (2 * d + 1) u.short, found) refl

pub length-linf_queries :
    (delta y : ℕ) (param : PrefixParam)
    → get_selected_param linf_table (2 * delta + 1) ≡ ok param
    → Returns (linf_queries delta y) λ qs. length qs ≡ length param.widths
length-linf_queries d y param found =
    let u = tables-IsUsable (2 * d + 1) param (inl found) in
    let (qs, ask, count) = length-set_prefix y param.widths u.small in
    (qs, linf_queries-eq d y param found ∙ ask, count)

-- If the table has a set for `2 * delta + 1`, and the interval around `x` lies in the range of a
-- word, then both calls succeed, and the strings for `x` and the queries for `y` have one common
-- string if `x` and `y` are at most `delta` apart, and none otherwise.
pub linf_strings-linf_queries :
    (delta x y : ℕ) (param : PrefixParam)
    → get_selected_param linf_table (2 * delta + 1) ≡ ok param
    → delta ≤ x
    → x + delta < 2 ^ 64
    → y < 2 ^ 64
    → Returns
        (linf_strings delta x)
        λ ps. Returns (linf_queries delta y) λ qs. common qs ps ≡ to_nat (leb (diff x y) delta)
linf_strings-linf_queries d x y param found low high hy =
    let (ps, run, (qs, ask, count)) =
      meet (2 * d + 1) (x - d) (x + d) y param (tables-IsUsable (2 * d + 1) param (inl found))
        (omega arith) high (omega arith) hy in
    (
      ps,
      linf_strings-eq d x param found low high ∙ run,
      (qs, linf_queries-eq d y param found ∙ ask, count ∙ ground arith),
    )

pub lp_strings-eq :
    (d x : ℕ) (ps0 ps1 : List (List Bool)) (plus param : PrefixParam)
    → get_selected_param lp_table (d + 1) ≡ ok plus
    → get_selected_param lp_table d ≡ ok param
    → 1 ≤ d
    → d ≤ x
    → x + d < 2 ^ 64
    → set_dec (x - d) x plus.widths ≡ ok ps0
    → set_dec (x + 1) (x + d) param.widths ≡ ok ps1
    → lp_strings d x ≡ ok (ps0, ps1)
unfolding lp_strings
lp_strings-eq d x ps0 ps1 plus param found0 found1 pos low high run0 run1 =
    let u = tables-IsUsable (d + 1) plus (inr (inl found0)) in
    rw
      (
        word_eq (d + 1) u.short,
        found0,
        found1,
        bottom_eq d x high low,
        run0,
        top_eq 1 x (omega arith),
        top_eq d x high,
        run1,
      )
      refl

pub lp_queries-eq :
    (d y : ℕ) (qs0 qs1 : List (List Bool)) (plus param : PrefixParam)
    → get_selected_param lp_table (d + 1) ≡ ok plus
    → get_selected_param lp_table d ≡ ok param
    → set_prefix y plus.widths ≡ ok qs0
    → set_prefix y param.widths ≡ ok qs1
    → lp_queries d y ≡ ok (qs0, qs1)
unfolding lp_queries
lp_queries-eq d y qs0 qs1 plus param found0 found1 ask0 ask1 =
    let u = tables-IsUsable (d + 1) plus (inr (inl found0)) in
    rw (word_eq (d + 1) u.short, found0, found1, ask0, ask1) refl

-- If the table has sets for `delta` and `delta + 1`, `delta` is not 0, and the interval around `x`
-- lies in the range of a word, then all calls succeed; the first queries for `y` and the first
-- strings for `x` meet once if `y` is at most `x` and at most `delta` away, the second ones once if
-- `y` is above `x` and at most `delta` away, and otherwise they do not meet.
pub lp_strings-lp_queries :
    (delta x y : ℕ) (plus param : PrefixParam)
    → get_selected_param lp_table (delta + 1) ≡ ok plus
    → get_selected_param lp_table delta ≡ ok param
    → 1 ≤ delta
    → delta ≤ x
    → x + delta < 2 ^ 64
    → y < 2 ^ 64
    → Returns (lp_strings delta x) λ ps. Returns (lp_queries delta y) λ qs.
      (common qs.0 ps.0 ≡ to_nat (leb y x && leb (diff x y) delta))
      × (common qs.1 ps.1 ≡ to_nat (ltb x y && leb (diff x y) delta))
lp_strings-lp_queries d x y plus param found0 found1 pos low high hy =
    let (ps0, run0, (qs0, ask0, count0)) =
      meet (d + 1) (x - d) x y plus (tables-IsUsable (d + 1) plus (inr (inl found0))) (omega arith)
        (omega arith) (omega arith) hy in
    let (ps1, run1, (qs1, ask1, count1)) =
      meet d (x + 1) (x + d) y param (tables-IsUsable d param (inr (inl found1))) (omega arith) high
        (omega arith) hy in
    (
      (ps0, ps1),
      lp_strings-eq d x ps0 ps1 plus param found0 found1 pos low high run0 run1,
      (
        (qs0, qs1),
        lp_queries-eq d y qs0 qs1 plus param found0 found1 ask0 ask1,
        (count0 ∙ ground arith, count1 ∙ ground arith),
      ),
    )

if_match_strings-eq :
    (t v : ℕ) (param : PrefixParam)
    → get_selected_param if_match_table (t + 1) ≡ ok param
    → v + t < 2 ^ 64
    → if_match_strings t v ≡ set_dec v (v + t) param.widths
unfolding if_match_strings
if_match_strings-eq t v param found high =
    let small = tables-IsUsable (t + 1) param (inr (inr found)) in
    rw (word_eq (t + 1) small.short, found, top_eq t v high) refl

if_match_queries-eq :
    (t u : ℕ) (param : PrefixParam)
    → get_selected_param if_match_table (t + 1) ≡ ok param
    → if_match_queries t u ≡ set_prefix u param.widths
unfolding if_match_queries
if_match_queries-eq t u param found =
    let small = tables-IsUsable (t + 1) param (inr (inr found)) in
    rw (word_eq (t + 1) small.short, found) refl

pub length-if_match_queries :
    (threshold u_sum : ℕ) (param : PrefixParam)
    → get_selected_param if_match_table (threshold + 1) ≡ ok param
    → Returns (if_match_queries threshold u_sum) λ qs. length qs ≡ length param.widths
length-if_match_queries t u param found =
    let small = tables-IsUsable (t + 1) param (inr (inr found)) in
    let (qs, ask, count) = length-set_prefix u param.widths small.small in
    (qs, if_match_queries-eq t u param found ∙ ask, count)

-- If the table has a set for `threshold + 1`, and `v_sum + threshold` is in the range of a word,
-- then both calls succeed, and they meet once if `v_sum` is at most `u_sum` and by no more than
-- `threshold` below it, and otherwise not.
pub if_match_strings-if_match_queries :
    (threshold v_sum u_sum : ℕ) (param : PrefixParam)
    → get_selected_param if_match_table (threshold + 1) ≡ ok param
    → v_sum + threshold < 2 ^ 64
    → u_sum < 2 ^ 64
    → Returns (if_match_strings threshold v_sum) λ ps.
      Returns
        (if_match_queries threshold u_sum)
        λ qs. common qs ps ≡ to_nat (leb v_sum u_sum && leb (u_sum - v_sum) threshold)
if_match_strings-if_match_queries t v u param found high hu =
    let small = tables-IsUsable (t + 1) param (inr (inr found)) in
    let (ps, run, (qs, ask, count)) =
      meet (t + 1) v (v + t) u param small (omega arith) high (omega arith) hu in
    (
      ps,
      if_match_strings-eq t v param found high ∙ run,
      (qs, if_match_queries-eq t u param found ∙ ask, count ∙ ground arith),
    )
