-- ===== src/Protocol/Powers/Sums.antt =====
-- Step 6 of `mp_ssFMat_lp_sh`: the sums over the dimensions, and what the last test makes of them.
use opprf_fpsi.Prelude.{
  ℕ, ◌+◌, ◌-◌, ◌*◌, ◌^◌, ◌≤◌, ◌<◌, ◌≡◌, ◌∙◌, List, [], ◌∷◌, ◌&&◌, leb, to_nat, u64, length, arith,
  ok, Returns,
}
use opprf_fpsi.Prefix.Match.{common}
use opprf_fpsi.Matching.Params.{PrefixParam, if_match_table, get_selected_param}
use opprf_fpsi.Matching.Strings.{
  if_match_strings, if_match_queries, if_match_strings-if_match_queries,
}
use opprf_fpsi.Protocol.Powers.{sum_words}

-- The sum of the numbers of a list.
abbrev pub plain_sum : List ℕ → ℕ
plain_sum [] = 0
plain_sum (x ∷ xs) = x + plain_sum xs

-- In each dimension, the mask is a word and at least the power, and the share is what is left.
abbrev pub AreShares : List ℕ → List ℕ → List ℕ → Type 0
AreShares [] [] [] = Unit
AreShares (mask ∷ masks) (share ∷ shares) (power ∷ powers) =
    (mask < 2 ^ 32) × (power ≤ mask) × (share ≡ mask - power) × AreShares masks shares powers
AreShares _ _ _ = ⊥

sum_words-eq :
    (acc : ℕ) (words : List ℕ)
    → acc + plain_sum words < 2 ^ 64
    → sum_words acc words ≡ acc + plain_sum words
unfolding sum_words
sum_words-eq acc [] h = omega arith
sum_words-eq acc (v ∷ words) h =
    let here : u64 (acc + v) ≡ acc + v = omega (arith, h) in
    rw here (sum_words-eq (acc + v) words (omega (arith, h)) ∙ omega arith)

plain_sum-AreShares :
    (masks shares powers : List ℕ)
    → AreShares masks shares powers
    → (plain_sum masks ≡ plain_sum shares + plain_sum powers)
      × (plain_sum masks ≤ length masks * 2 ^ 32)
plain_sum-AreShares [] [] [] h = (omega arith, omega arith)
plain_sum-AreShares (mask ∷ masks) (share ∷ shares) (power ∷ powers) h =
    let rest = plain_sum-AreShares masks shares powers h.3 in
    (omega (arith, rest.0, h.1, h.2), omega (arith, rest.1, h.0))
plain_sum-AreShares [] [] (power ∷ powers) h = absurd h
plain_sum-AreShares [] (share ∷ shares) powers h = absurd h
plain_sum-AreShares (mask ∷ masks) [] powers h = absurd h
plain_sum-AreShares (mask ∷ masks) (share ∷ shares) [] h = absurd h

-- If in each of at most `2 ^ 31` dimensions the mask is at least the power of the distance and the
-- share is what is left, and the table has a set for `threshold + 1`, a number of 31 bits, then the
-- final strings for the sum of the shares and the final queries for the sum of the masks are
-- computed, and have one common string if the sum of the powers is at most the threshold, and none
-- otherwise.
pub sum_words-if_match :
    (threshold : ℕ) (masks shares powers : List ℕ) (param : PrefixParam)
    → AreShares masks shares powers
    → length masks ≤ 2 ^ 31
    → threshold < 2 ^ 31
    → get_selected_param if_match_table (threshold + 1) ≡ ok param
    → Returns (if_match_strings threshold (sum_words 0 shares)) λ ps.
      Returns
        (if_match_queries threshold (sum_words 0 masks))
        λ qs. common qs ps ≡ to_nat (leb (plain_sum powers) threshold)
sum_words-if_match t masks shares powers param h few small found =
    let sums = plain_sum-AreShares masks shares powers h in
    let u_eq : sum_words 0 masks ≡ 0 + plain_sum masks =
      sum_words-eq 0 masks (omega (arith, sums.0, sums.1)) in
    let v_eq : sum_words 0 shares ≡ 0 + plain_sum shares =
      sum_words-eq 0 shares (omega (arith, sums.0, sums.1)) in
    let (ps, run, (qs, ask, count)) =
      if_match_strings-if_match_queries t (sum_words 0 shares) (sum_words 0 masks) param found
        (omega (arith, sums.0, sums.1)) (omega (arith, sums.0, sums.1)) in
    let same = sums.0 in
    (
      ps,
      run,
      (
        qs,
        ask,
        count
            ∙ decided t (sum_words 0 shares) (sum_words 0 masks) (plain_sum powers)
                (omega (arith, same)),
      ),
    )
  where
    decided :
        (t v u power : ℕ) → u ≡ v + power → to_nat (leb v u && leb (u - v) t) ≡ to_nat (leb power t)
    decided t v u power e = ground (arith, e)
