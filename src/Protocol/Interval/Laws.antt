-- ===== src/Protocol/Interval/Laws.antt =====
-- When `ssIFMat` leaves both parties with the same word for a bin.
use opprf_fpsi.Prelude.{
  ℕ, ◌+◌, ◌-◌, ◌^◌, ◌≤◌, ◌<◌, ◌≡◌, ◌↔◌, sym, ap, ◌∙◌, Bool, ◌&&◌, List, map, arith, In, In-map,
  map-In, collect, IsCollected, collect-IsCollected, leb, to_nat, length, length-map, ok, ◌>>=◌,
  Returns, ok_injective,
}
use opprf_fpsi.Prefix.Match.{common}
use opprf_fpsi.Prefix.Shared.{In-common, common-In}
use opprf_fpsi.Matching.Params.{PrefixParam, if_match_table, get_selected_param}
use opprf_fpsi.Matching.Strings.{
  if_match_strings, if_match_queries, if_match_strings-if_match_queries, length-if_match_queries,
}
use opprf_fpsi.Protocol.Linf.Keys.{IsAsked}
use opprf_fpsi.Protocol.Rounds.Second.{pair}
use opprf_fpsi.Protocol.Interval.{interval_entries, interval_keys}

-- The sender's sum lies in the interval of the receiver's.
abbrev pub IsIn : ℕ → ℕ → ℕ → Type 0
IsIn threshold v u = (v ≤ u) × (u ≤ v + threshold)

module _ {Block : Type 0} (hash : List Bool → ℕ → Block) where
  -- No two inputs have one hash value.
  abbrev pub IsInjective : Type 0
  IsInjective = (p q : List Bool) (i j : ℕ) → hash p i ≡ hash q j → (p ≡ q) × (i ≡ j)

  abbrev pub hashed_strings : ℕ → List (List Bool) → List Block
  hashed_strings i ps = map (λ prefix. hash prefix i) ps

  abbrev entry_of : (ℕ → Block) → ℕ → List Bool → Block × Block
  entry_of a_random i prefix = (hash prefix i, a_random i)

  module _ (injective : IsInjective) (threshold bins_num : ℕ) (param : PrefixParam)
      (found : get_selected_param if_match_table (threshold + 1) ≡ ok param) (v_sums u_sums : ℕ → ℕ)
      (a_random : ℕ → Block) (low : (j : ℕ) → j < bins_num → v_sums j + threshold < 2 ^ 64)
      (word : (j : ℕ) → u_sums j < 2 ^ 64) where
    common_iff :
        (i : ℕ) (ps qs : List (List Bool))
        → i < bins_num
        → if_match_strings threshold (v_sums i) ≡ ok ps
        → if_match_queries threshold (u_sums i) ≡ ok qs
        → (1 ≤ common qs ps) ↔ IsIn threshold (v_sums i) (u_sums i)
    common_iff i ps qs hi run ask =
        let (ps', run', (qs', ask', count)) =
          if_match_strings-if_match_queries threshold (v_sums i) (u_sums i) param found (low i hi)
            (word i) in
        let same_ps = ok_injective ps ps' (sym run ∙ run') in
        let same_qs = ok_injective qs qs' (sym ask ∙ ask') in
        let counted : common qs ps
            ≡ to_nat (leb (v_sums i) (u_sums i) && leb (u_sums i - v_sums i) threshold) =
          rw (same_ps, same_qs) count in
        rw counted (ground arith)

    strings_of :
        (i : ℕ) → i < bins_num → Returns (if_match_strings threshold (v_sums i)) λ ps. Unit {0}
    strings_of i hi =
        let (ps, run, _) =
          if_match_strings-if_match_queries threshold (v_sums i) (u_sums i) param found (low i hi)
            (word i) in
        (ps, run, tt)

    entries_of :
        (i : ℕ) (ps : List (List Bool))
        → if_match_strings threshold (v_sums i) ≡ ok ps
        → interval_entries hash threshold v_sums a_random i ≡ ok (map (entry_of a_random i) ps)
    unfolding interval_entries
    entries_of i ps run = ap (λ r. r >>= λ prefixs. ok (map (entry_of a_random i) prefixs)) run

    pub keys_of :
        (i : ℕ) (qs : List (List Bool))
        → if_match_queries threshold (u_sums i) ≡ ok qs
        → interval_keys hash threshold u_sums i ≡ ok (hashed_strings i qs)
    unfolding interval_keys
    keys_of i qs ask = ap (λ r. r >>= λ prefixs. ok (hashed_strings i prefixs)) ask

    pub entries-IsCollected :
        Returns
          (collect (interval_entries hash threshold v_sums a_random) 0 bins_num)
          (IsCollected (interval_entries hash threshold v_sums a_random) 0 bins_num)
    entries-IsCollected =
        collect-IsCollected (interval_entries hash threshold v_sums a_random) 0 bins_num λ i lo hi.
          let (ps, run, _) = strings_of i (omega arith) in
          (map (entry_of a_random i) ps, entries_of i ps run, tt)

    pub length-interval_keys :
        (i : ℕ)
        → Returns (interval_keys hash threshold u_sums i) λ qs. length qs ≡ length param.widths
    length-interval_keys i =
        let (qs, ask, count) = length-if_match_queries threshold (u_sums i) param found in
        (hashed_strings i qs, keys_of i qs ask, length-map (λ prefix. hash prefix i) qs ∙ count)

    module _ (i : ℕ) (hi : i < bins_num) (ps : List (List Bool))
        (ask : if_match_queries threshold (u_sums i) ≡ ok ps) (es : List (Block × Block))
        (listed : IsCollected (interval_entries hash threshold v_sums a_random) 0 bins_num es) where
      pub asked_entry :
          (q v : Block)
          → In q (hashed_strings i ps)
          → In (q, v) es
          → IsIn threshold (v_sums i) (u_sums i) × (v ≡ a_random i)
      asked_entry q v m n =
          let (p, mp, eq) = map-In (λ prefix. hash prefix i) q ps m in
          let (j, xs, lo, hj, got, there) = listed.0 (pair q v) n in
          let (strs, run, _) = strings_of j (omega arith) in
          let exact =
            ok_injective (map (entry_of a_random j) strs) xs (sym (entries_of j strs run) ∙ got) in
          let (prefix, mprefix, e) =
            map-In (entry_of a_random j) (pair q v) strs (rw exact there) in
          let (same_p, same_bin) =
            injective p prefix i j (sym eq ∙ ap (λ (t : Block × Block). t.0) e) in
          let run_i = ap (λ k. if_match_strings threshold (v_sums k)) same_bin ∙ run in
          (
            (common_iff i strs ps hi run_i ask).0 (In-common p ps strs mp (rw same_p mprefix)),
            ap (λ (t : Block × Block). t.1) e ∙ ap a_random (sym same_bin),
          )

      pub in_entry : IsIn threshold (v_sums i) (u_sums i) → IsAsked (hashed_strings i ps) es
      in_entry h =
          let (strs, run, _) = strings_of i hi in
          let (p, mp, mstr) = common-In ps strs ((common_iff i strs ps hi run ask).1 h) in
          (
            hash p i,
            a_random i,
            In-map (λ prefix. hash prefix i) p ps mp,
            listed.1 i (map (entry_of a_random i) strs) (pair (hash p i) (a_random i)) (omega arith)
                (omega arith) (entries_of i strs run) (In-map (entry_of a_random i) p strs mstr),
          )
