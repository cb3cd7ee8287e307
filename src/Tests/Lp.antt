-- ===== src/Tests/Lp.antt =====
-- The lists for the sums of powers on one point of each party, at distance 5 with the threshold 10.
use opprf_fpsi.Prelude.{
  ℕ, ◌+◌, ◌-◌, ◌^◌, ◌≡◌, inr, refl, Bool, List, [], ◌∷◌, some, arith, ok, Returns, In,
}
use opprf_fpsi.Matching.Params.{PrefixParam, lp_table, get_selected_param}
use opprf_fpsi.Protocol.Linf.{Entry}
use opprf_fpsi.Protocol.Powers.{v_candidate, v_hat}
use opprf_fpsi.Protocol.Powers.Laws.{distance}
use opprf_fpsi.Protocol.Lp.{LpReceiver, LpSender, Query, get_list_lp_sh, lp_bin_keys}
use opprf_fpsi.Protocol.Lp.Near.{IsSidedInjective, IsNear}
use opprf_fpsi.Protocol.Lp.Agree.{get_list_lp_sh-share, get_list_lp_sh-IsNear}

-- A hash value remembers what it is the hash of.
data SidedBlock : Type 0 where
  sided : List Bool → SidedBlock → ℕ → ℕ → ℕ → SidedBlock
  plain : ℕ → SidedBlock

sided-IsSidedInjective : IsSidedInjective sided
sided-IsSidedInjective p q a b k m i j s t e = (cc, cc, cc, cc, cc)

abbrev recv : LpReceiver SidedBlock
recv = record {
  ids = λ id_idx. plain 7;
  locations = λ id_idx k. 0;
  a_zero = λ bin. 5;
  a_metric = λ bin. 7;
  a_vole = λ bin s. 13;
}

abbrev entry_0 : Entry
entry_0 = record { idx = 0; hash_idx = 1 }

abbrev send : LpSender SidedBlock
send = record { ids = λ idx. plain 7; bins = λ i. some entry_0 }

abbrev plus_10 : PrefixParam
plus_10 = record { widths = 0 ∷ 2 ∷ []; room = 5 }

abbrev param_10 : PrefixParam
param_10 = record { widths = 0 ∷ 1 ∷ []; room = 6 }

found_11 : get_selected_param lp_table (10 + 1) ≡ ok plus_10
unfolding get_selected_param lp_table
found_11 = refl

found_10 : get_selected_param lp_table 10 ≡ ok param_10
unfolding get_selected_param lp_table
found_10 = refl

abbrev centre : ℕ → ℕ
centre i = 100

abbrev other : ℕ → ℕ
other i = 95

abbrev drawn : ℕ → ℕ → Query SidedBlock
drawn i n = (plain n, n)

get_list_lp_sh-IsNear_example : Returns (get_list_lp_sh sided recv 2 10 1 1 centre) λ es.
    Returns
      (lp_bin_keys sided send 10 other drawn 4 0)
      λ ks. (q : SidedBlock) × (e : ℕ) × (row : ℕ → ℕ) × In (q, e) ks × In (q, row) es
get_list_lp_sh-IsNear_example =
    get_list_lp_sh-IsNear sided sided-IsSidedInjective recv send 2 10 1 centre other drawn 4 0
      entry_0 plus_10 param_10 found_11 found_10 (omega arith) (λ i h. (omega arith, omega arith))
      refl (omega arith) 1 0 0 (omega arith)
      (omega arith, (omega arith, omega arith), omega arith, refl, refl)

-- The lists, and a key that both have.
near_run : Returns (get_list_lp_sh sided recv 2 10 1 1 centre) λ es.
    Returns
      (lp_bin_keys sided send 10 other drawn 4 0)
      λ ks. (q : SidedBlock) × (e : ℕ) × (row : ℕ → ℕ) × In (q, e) ks × In (q, row) es
near_run =
    get_list_lp_sh-IsNear sided sided-IsSidedInjective recv send 2 10 1 centre other drawn 4 0
      entry_0 plus_10 param_10 found_11 found_10 (omega arith) (λ i h. (omega arith, omega arith))
      refl (omega arith) 1 0 0 (omega arith)
      (omega arith, (omega arith, omega arith), omega arith, refl, refl)

get_list_lp_sh-share_example :
    (i : ℕ) × (id_idx : ℕ) × IsNear sided recv 10 1 1 centre 95 (plain 7) 1 0 i id_idx
    × (v_hat 2
          (v_candidate 2 11 1000 near_run.2.2.2 (λ s. 17) near_run.2.2.1)
          7
          (λ s. 13)
          (λ s. 160)
        ≡ 1000 - distance (centre i) 95 ^ 2)
get_list_lp_sh-share_example =
    get_list_lp_sh-share sided sided-IsSidedInjective recv send 2 10 1 centre other drawn 4 0
      entry_0 plus_10 param_10 found_11 found_10 (omega arith) (λ i h. (omega arith, omega arith))
      refl (omega arith) 1 near_run.0 near_run.2.0 near_run.2.2.0 near_run.2.2.1 near_run.2.2.2 11
      1000 (λ s. 160) (λ s. 17) near_run.1 near_run.2.1 near_run.2.2.3 near_run.2.2.4 (inr refl)
      (omega arith) (omega arith) (omega arith) refl (omega arith)
