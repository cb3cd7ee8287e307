-- ===== src/Protocol/Rounds/Second.antt =====
-- What the sender programs in step 4 of a thread.
use opprf_fpsi.Prelude.{
  collect, ℕ, ◌+◌, ◌*◌, ◌<◌, ◌≡◌, refl, sym, ap, ◌∙◌, Bool, List, map, Option, none, some, arith,
  In, In-map, map-In, IsCollected, collect-IsCollected, collect-zip, draw, length, length-map,
  length-draw, Result, ok, ◌>>=◌, Returns, ok_injective,
}
use opprf_fpsi.Matching.Params.{PrefixParam, linf_table, get_selected_param}
use opprf_fpsi.Matching.Strings.{length-linf_queries}
use opprf_fpsi.Protocol.Linf.{Sender, Entry, bin_keys, entry_keys, get_prefix_keys, spread_r_vals}
use opprf_fpsi.Protocol.Rounds.{second_programs}

abbrev pub pair : {Block Value : Type 0} → Block → Value → Block × Value
pair u v = (u, v)

abbrev pair_up : {Block Value : Type 0} → (Block → Block) → Value → Block → Block × Value
pair_up g v w = (g w, v)

-- The entries are those of the keys of a bin, as evaluated, with the value of that bin.
abbrev pub IsSecond :
    {Block Value : Type 0}
    → (ℕ → Result (List Block))
    → (Block → Block)
    → (ℕ → Value)
    → ℕ
    → List (Block × Value)
    → Type 0
IsSecond {Block} {Value} keys g r_vals bins_num zs =
    ((u : Block) (v : Value)
      → In (u, v) zs
      → (i : ℕ) × (ws : List Block) × (w : Block) × (i < bins_num)
        × (keys i ≡ ok ws)
        × In w ws
        × (u ≡ g w)
        × (v ≡ r_vals i))
    × ((i : ℕ) (ws : List Block) (w : Block)
        → i < bins_num
        → keys i ≡ ok ws
        → In w ws
        → In (g w, r_vals i) zs)

-- Where every bin has `size` keys, the programs are those of the bins.
module _ {Block Value : Type 0} (keys : ℕ → Result (List Block)) (size : ℕ)
    (sized : (i : ℕ) → Returns (keys i) λ qs. length qs ≡ size) where
  pub collect-IsSecond :
      (g : Block → Block) (r_vals : ℕ → Value) (bins_num : ℕ)
      → Returns
          (collect keys 0 bins_num)
          λ qs. IsSecond keys g r_vals bins_num (second_programs g qs r_vals size bins_num)
  unfolding second_programs spread_r_vals
  collect-IsSecond g r_vals bins_num =
      let (qs, run, zipped) = collect-zip keys g r_vals size 0 bins_num (λ i lo hi. sized i) in
      let (zs, run2, listed) =
        collect-IsCollected (λ i. keys i >>= λ ws. ok (map (pair_up g (r_vals i)) ws)) 0 bins_num
          (λ i lo hi. let (ws, e, _) = sized i in (map (pair_up g (r_vals i)) ws, rw e refl, tt)) in
      let same_zs = ok_injective _ _ (sym run2 ∙ zipped) in
      (
        qs,
        run,
        rw (← same_zs) (
          λ u v m.
              let (i, xs, lo, hi, got, there) = listed.0 (pair u v) m in
              let (ws, e, _) = sized i in
              let exact =
                ok_injective (map (pair_up g (r_vals i)) ws) xs
                  (sym (ap (λ r. r >>= λ ws. ok (map (pair_up g (r_vals i)) ws)) e) ∙ got) in
              let (w, mw, p) = map-In (pair_up g (r_vals i)) (pair u v) ws (rw exact there) in
              (
                i,
                ws,
                w,
                omega arith,
                e,
                mw,
                ap (λ (t : Block × Value). t.0) p,
                ap (λ (t : Block × Value). t.1) p,
              ),
          λ i ws w hi e mw.
              listed.1 i (map (pair_up g (r_vals i)) ws) (pair (g w) (r_vals i)) (omega arith)
                (omega arith) (ap (λ r. r >>= λ ws. ok (map (pair_up g (r_vals i)) ws)) e)
                (In-map (pair_up g (r_vals i)) w ws mw),
        ),
      )

module _ {Block : Type 0} (hash : List Bool → Block → ℕ → ℕ → Block) where
  module _ (delta : ℕ) (param : PrefixParam)
      (found : get_selected_param linf_table (2 * delta + 1) ≡ ok param) (s : Sender Block)
      (pts : ℕ → ℕ) where
    length-entry_keys :
        (drawn : ℕ → Block) (i : ℕ) (o : Option Entry)
        → Returns
            (entry_keys hash s delta pts drawn (length param.widths) i o)
            λ qs. length qs ≡ length param.widths
    unfolding entry_keys
    length-entry_keys drawn i none =
        (draw drawn 0 (length param.widths), refl, length-draw drawn 0 (length param.widths))
    length-entry_keys drawn i (some b) =
        let (qs, ask, count) = length-linf_queries delta (pts b.idx) param found in
        (
          map (λ prefix. hash prefix (s.ids b.idx) b.hash_idx i) qs,
          rw ask refl,
          length-map _ qs ∙ count,
        )

    -- Each bin has as many keys as the set has elements, whether it is empty or not.
    pub length-bin_keys :
        (drawn : ℕ → ℕ → Block) (i : ℕ)
        → Returns
            (bin_keys hash s delta pts drawn (length param.widths) i)
            λ qs. length qs ≡ length param.widths
    unfolding bin_keys
    length-bin_keys drawn i = length-entry_keys (drawn i) i (s.bins i)

    pub get_prefix_keys-IsCollected :
        (drawn : ℕ → ℕ → Block) (bins_num : ℕ)
        → Returns
            (get_prefix_keys hash s delta pts drawn (length param.widths) bins_num)
            (IsCollected (bin_keys hash s delta pts drawn (length param.widths)) 0 bins_num)
    unfolding get_prefix_keys
    get_prefix_keys-IsCollected drawn bins_num =
        collect-IsCollected (bin_keys hash s delta pts drawn (length param.widths)) 0 bins_num
          λ i lo hi. let (qs, e, _) = length-bin_keys drawn i in (qs, e, tt)

    pub second_programs-IsSecond :
        {Value : Type 0} (g : Block → Block) (r_vals : ℕ → Value) (drawn : ℕ → ℕ → Block)
        (bins_num : ℕ)
        → Returns (get_prefix_keys hash s delta pts drawn (length param.widths) bins_num) λ qs.
          IsSecond
            (bin_keys hash s delta pts drawn (length param.widths))
            g
            r_vals
            bins_num
            (second_programs g qs r_vals (length param.widths) bins_num)
    unfolding get_prefix_keys
    second_programs-IsSecond g r_vals drawn bins_num =
        collect-IsSecond (bin_keys hash s delta pts drawn (length param.widths))
          (length param.widths) (length-bin_keys drawn) g r_vals bins_num
