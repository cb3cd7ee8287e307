-- ===== src/Tests/Threads.antt =====
-- A thread of one dimension on one point of each party, at distance 5 with the threshold 10.
use opprf_fpsi.Prelude.{
  ℕ, ◌+◌, ◌*◌, ◌≡◌, ◌↔◌, inl, inr, refl, ap, Bool, List, [], ◌∷◌, map, some, map-In, arith, ok,
  Returns,
}
use opprf_fpsi.Matching.Params.{PrefixParam, linf_table, get_selected_param}
use opprf_fpsi.Matching.Strings.{linf_queries, length-linf_queries}
use opprf_fpsi.Protocol.Linf.{
  Receiver, Sender, Entry, padding_blocks, get_list_sh, get_list, bin_keys, get_prefix_keys,
  entry_keys,
}
use opprf_fpsi.Protocol.Linf.Keys.{IsInjective, HasNear, Meet}
use opprf_fpsi.Protocol.Linf.Agree.{get_list_sh-bin_keys, get_list-bin_keys}
use opprf_fpsi.Protocol.Rounds.{dim_thread_sh, dim_thread, second_programs}
use opprf_fpsi.Protocol.Rounds.Second.{get_prefix_keys-IsCollected}
use opprf_fpsi.Protocol.Rounds.Outcome.{IsCleanRow, dim_thread_sh-HasNear, dim_thread-HasNear}
use opprf_fpsi.Tests.Blocks.{
  TestBlock, hashed, number, lookup, lookup-cases, lookup-IsProgrammable, padding_blocks-In,
  value_of, value_of-Returns,
}

abbrev recv : Receiver TestBlock
recv = record {
  ids = λ id_idx. number 7;
  locations = λ id_idx k. 0;
  a_random = λ dim bin. number 50;
}

abbrev entry_0 : Entry
entry_0 = record { idx = 0; hash_idx = 1 }

abbrev send : Sender TestBlock
send = record { ids = λ idx. number 7; bins = λ i. some entry_0; r_vals = λ dim i. number 60 }

abbrev param_10 : PrefixParam
param_10 = record { widths = 0 ∷ 1 ∷ 2 ∷ 3 ∷ []; room = 6 }

abbrev centre : ℕ → ℕ → ℕ
centre dim i = 100

abbrev other : ℕ → ℕ → ℕ
other dim i = 105

abbrev drawn : ℕ → ℕ → ℕ → TestBlock
drawn dim i n = number n

abbrev padding : ℕ → ℕ → TestBlock × TestBlock
padding dim n = (number n, number n)

hashed-IsInjective : IsInjective hashed
hashed-IsInjective p q a b k m i j e = (cc, cc, cc, cc)

found_10 : get_selected_param linf_table (2 * 10 + 1) ≡ ok param_10
unfolding get_selected_param linf_table
found_10 = refl

-- The queries for 105.
abbrev queries_105 : List (List Bool)
queries_105 = value_of (linf_queries 10 105)

abbrev keys_105 : List TestBlock
keys_105 = map (λ prefix. hashed prefix (number 7) 1 0) queries_105

get_list_sh-bin_keys_run : Returns (get_list_sh hashed recv 0 10 1 1 (centre 0)) λ es.
    Returns
      (bin_keys hashed send 10 (other 0) (drawn 0) 4 0)
      (Meet hashed recv send 0 10 1 1 (centre 0) (other 0) 0 entry_0 es)
get_list_sh-bin_keys_run =
    get_list_sh-bin_keys hashed hashed-IsInjective recv send 0 10 1 (centre 0) (other 0) (drawn 0) 4
      0 entry_0 param_10 found_10 (λ i h. (omega arith, omega arith)) refl (omega arith)
      (omega arith) 1

get_list-bin_keys_run : Returns (get_list hashed recv 0 10 1 (centre 0)) λ es.
    Returns
      (bin_keys hashed send 10 (other 0) (drawn 0) 4 0)
      (Meet hashed recv send 0 10 1 1 (centre 0) (other 0) 0 entry_0 es)
get_list-bin_keys_run =
    get_list-bin_keys hashed hashed-IsInjective recv send 0 10 1 (centre 0) (other 0) (drawn 0) 4 0
      entry_0 param_10 found_10 (λ i h. (omega arith, omega arith)) refl (omega arith) (omega arith)

asked_105 : linf_queries 10 105 ≡ ok queries_105
asked_105 = value_of-Returns (linf_queries 10 105) _ (length-linf_queries 10 105 param_10 found_10)

keyed_105 : bin_keys hashed send 10 (other 0) (drawn 0) 4 0 ≡ ok keys_105
unfolding bin_keys entry_keys
keyed_105 = rw asked_105 refl

abbrev prefix_keys_1 : List TestBlock
prefix_keys_1 = value_of (get_prefix_keys hashed send 10 (other 0) (drawn 0) 4 1)

asked_1 : get_prefix_keys hashed send 10 (other 0) (drawn 0) 4 1 ≡ ok prefix_keys_1
asked_1 =
    value_of-Returns (get_prefix_keys hashed send 10 (other 0) (drawn 0) 4 1) _
      (get_prefix_keys-IsCollected hashed 10 param_10 found_10 send (other 0) (drawn 0) 1)

abbrev list_sh_1 : List (TestBlock × TestBlock)
list_sh_1 = value_of (get_list_sh hashed recv 0 10 1 1 (centre 0))

listed_sh_1 : get_list_sh hashed recv 0 10 1 1 (centre 0) ≡ ok list_sh_1
listed_sh_1 =
    value_of-Returns (get_list_sh hashed recv 0 10 1 1 (centre 0)) _ get_list_sh-bin_keys_run

abbrev list_1 : List (TestBlock × TestBlock)
list_1 = value_of (get_list hashed recv 0 10 1 (centre 0))

listed_1 : get_list hashed recv 0 10 1 (centre 0) ≡ ok list_1
listed_1 = value_of-Returns (get_list hashed recv 0 10 1 (centre 0)) _ get_list-bin_keys_run

clean_row :
    (es : List (TestBlock × TestBlock)) (prefix_keys : List TestBlock) (opprf_size : ℕ)
    → IsCleanRow hashed lookup recv send 0 10
        (other 0)
        (drawn 0)
        4
        1
        0
        opprf_size
        (padding 0)
        es
        prefix_keys
        keys_105
clean_row es prefix_keys opprf_size = record {
  padding_unasked = λ q w m n. elim (padding_blocks-In (padding 0) es opprf_size (q, w) n) [
    | inl l ↦ l
    | inr (k, e) ↦
        let (p, mp, d) = map-In (λ prefix. hashed prefix (number 7) 1 0) q queries_105 m in
        let is_number : q ≡ number k = ap (λ (t : TestBlock × TestBlock). t.0) e in absurd (cc)
  ];
  separate = λ j ws q hj e m d. omega arith;
  unprogrammed = λ q m e. elim (lookup-cases (padding_blocks (padding 0) es opprf_size) q) [
    | inl (w, n, found) ↦ (w, n)
    | inr (missing, absent) ↦ absurd (cc)
  ];
  unprogrammed_second = λ e.
      elim (lookup-cases
        (second_programs (lookup (padding_blocks (padding 0) es opprf_size)) prefix_keys
          (send.r_vals 0) 4 1)
        (number 50)) [ inl (w, n, found) ↦ (w, n) | inr (missing, absent) ↦ absurd (cc) ];
}

dim_thread_sh-HasNear_example :
    Returns
      (dim_thread_sh hashed lookup recv send 10 1 1 centre other padding drawn 1 0)
      λ row. (row 0 ≡ number 60) ↔ HasNear hashed recv 10 1 1 (centre 0) 105 (number 7) 1 0
dim_thread_sh-HasNear_example =
    dim_thread_sh-HasNear hashed lookup hashed-IsInjective lookup-IsProgrammable recv send 0 10 1
      centre other drawn padding 1 0 (omega arith) entry_0 refl (omega arith) (omega arith) param_10
      found_10 (λ i h. (omega arith, omega arith)) list_sh_1 prefix_keys_1 keys_105 asked_1
      keyed_105 1 listed_sh_1 (clean_row list_sh_1 prefix_keys_1 18)

dim_thread-HasNear_example :
    Returns
      (dim_thread hashed lookup recv send 10 1 centre other padding drawn 1 0)
      λ row. (row 0 ≡ number 60) ↔ HasNear hashed recv 10 1 1 (centre 0) 105 (number 7) 1 0
dim_thread-HasNear_example =
    dim_thread-HasNear hashed lookup hashed-IsInjective lookup-IsProgrammable recv send 0 10 1
      centre other drawn padding 1 0 (omega arith) entry_0 refl (omega arith) (omega arith) param_10
      found_10 (λ i h. (omega arith, omega arith)) list_1 prefix_keys_1 keys_105 asked_1 keyed_105
      listed_1 (clean_row list_1 prefix_keys_1 18)
