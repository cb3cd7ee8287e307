-- ===== src/Protocol/Linf/Keys.antt =====
-- The keys that the sender asks for against the keys that the receiver programs.
use opprf_fpsi.Prelude.{
  ℕ, ◌+◌, ◌*◌, ◌^◌, ◌≤◌, ◌<◌, ◌≡◌, ◌↔◌, refl, sym, ap, ◌∙◌, Bool, List, map, arith, some, inl, In,
  In-map, map-In, collect, IsCollected, collect-IsCollected, leb, to_nat, Result, ok, ◌>>=◌,
  Returns, ok_injective,
}
use opprf_fpsi.Prefix.Match.{common}
use opprf_fpsi.Prefix.Shared.{In-common, common-In}
use opprf_fpsi.Grid.Cells.{diff}
use opprf_fpsi.Matching.Params.{PrefixParam, linf_table, get_selected_param, tables-IsUsable}
use opprf_fpsi.Matching.Strings.{linf_strings, linf_queries, linf_strings-linf_queries}
use opprf_fpsi.Protocol.Linf.{
  Receiver, Sender, Entry, num_hash_func, prefix_entry, bin_keys, entry_keys,
}
use opprf_fpsi.Protocol.Linf.Lists.{Owns, IsPointList}

-- The table has a set for the threshold, and the interval around `x` lies in the range of a word.
abbrev pub IsCentre : ℕ → ℕ → Type 0
IsCentre delta x = (delta ≤ x) × (x + delta < 2 ^ 64)

module _ (delta : ℕ) (param : PrefixParam)
    (found : get_selected_param linf_table (2 * delta + 1) ≡ ok param) where
  common_iff :
      (x y : ℕ) (ps qs : List (List Bool))
      → IsCentre delta x
      → y < 2 ^ 64
      → linf_strings delta x ≡ ok ps
      → linf_queries delta y ≡ ok qs
      → (1 ≤ common qs ps) ↔ (diff x y ≤ delta)
  common_iff x y ps qs centre hy run ask =
      let (ps', run', (qs', ask', count)) =
        linf_strings-linf_queries delta x y param found centre.0 centre.1 hy in
      let same_ps = ok_injective ps ps' (sym run ∙ run') in
      let same_qs = ok_injective qs qs' (sym ask ∙ ask') in
      let counted : common qs ps ≡ to_nat (leb (diff x y) delta) = rw (same_ps, same_qs) count in
      rw counted (ground arith)

-- One of the keys is programmed.
abbrev pub IsAsked : {Block : Type 0} → List Block → List (Block × Block) → Type 0
IsAsked {Block} qs es = (q : Block) × (v : Block) × In q qs × In (q, v) es

-- Every entry for one of the keys has the value `a`.
abbrev pub Carries : {Block : Type 0} → List Block → List (Block × Block) → Block → Type 0
Carries {Block} qs es a = (q v : Block) → In q qs → In (q, v) es → v ≡ a

module _ {Block : Type 0} (hash : List Bool → Block → ℕ → ℕ → Block) where
  -- No two inputs have one hash value.
  abbrev pub IsInjective : Type 0
  IsInjective =
      (p q : List Bool) (a b : Block) (k m i j : ℕ)
      → hash p a k i ≡ hash q b m j
      → (p ≡ q) × (a ≡ b) × (k ≡ m) × (i ≡ j)

  -- One of the points has the identifier and lies at most `delta` from `y` in this dimension, and
  -- the hash function `k` sends its identifier to the bin.
  abbrev pub HasNear : Receiver Block → ℕ → ℕ → ℕ → (ℕ → ℕ) → ℕ → Block → ℕ → ℕ → Type 0
  HasNear r delta cells pts_num pts y id k bin =
      (i : ℕ) × (id_idx : ℕ) × (i < pts_num)
      × Owns cells i id_idx
      × (diff (pts i) y ≤ delta)
      × (r.ids id_idx ≡ id)
      × (r.locations id_idx k ≡ bin)

  -- The loop of both lists.
  abbrev pub list_of :
      (ℕ → List (List Bool) → List (Block × Block))
      → ℕ
      → (ℕ → ℕ)
      → ℕ
      → Result (List (Block × Block))
  list_of f delta pts i = linf_strings delta (pts i) >>= λ prefixs. ok (f i prefixs)

  abbrev full_keys : Block → ℕ → ℕ → List (List Bool) → List Block
  full_keys id k bin ps = map (λ prefix. hash prefix id k bin) ps

  round_eq :
      (f : ℕ → List (List Bool) → List (Block × Block)) (delta : ℕ) (pts : ℕ → ℕ) (i : ℕ)
      (ps : List (List Bool)) (es : List (Block × Block))
      → linf_strings delta (pts i) ≡ ok ps
      → list_of f delta pts i ≡ ok es
      → f i ps ≡ es
  round_eq f delta pts i ps es run e =
      ok_injective (f i ps) es (sym (ap (λ r. r >>= λ prefixs. ok (f i prefixs)) run) ∙ e)

  module _ (injective : IsInjective) (r : Receiver Block) (dim delta cells pts_num : ℕ)
      (pts : ℕ → ℕ) (param : PrefixParam)
      (found : get_selected_param linf_table (2 * delta + 1) ≡ ok param)
      (f : ℕ → List (List Bool) → List (Block × Block))
      (f-IsPointList : IsPointList hash r dim cells f)
      (centres : (i : ℕ) → i < pts_num → IsCentre delta (pts i)) where
    strings_of : (i : ℕ) → i < pts_num → Returns (linf_strings delta (pts i)) λ ps. Unit {0}
    strings_of i h =
        let (ps, run, _) =
          linf_strings-linf_queries delta (pts i) 0 param found (centres i h).0 (centres i h).1
            (omega arith) in
        (ps, run, tt)

    pub list-IsCollected :
        Returns
          (collect (list_of f delta pts) 0 pts_num)
          (IsCollected (list_of f delta pts) 0 pts_num)
    list-IsCollected =
        collect-IsCollected (list_of f delta pts) 0 pts_num
          λ i lo hi. let (ps, run, _) = strings_of i (omega arith) in (f i ps, rw run refl, tt)

    module _ (y k bin : ℕ) (id : Block) (hy : y < 2 ^ 64) (ps : List (List Bool))
        (ask : linf_queries delta y ≡ ok ps) (es : List (Block × Block))
        (listed : IsCollected (list_of f delta pts) 0 pts_num es) where
      asked_entry :
          (q v : Block)
          → In q (full_keys id k bin ps)
          → In (q, v) es
          → HasNear r delta cells pts_num pts y id k bin × (v ≡ r.a_random dim bin)
      unfolding prefix_entry
      asked_entry q v m n =
          let (p, mp, eq) = map-In _ q ps m in
          let (i, xs, lo, hi, got, there) = listed.0 (q, v) n in
          let (strs, run, _) = strings_of i (omega arith) in
          let exact = round_eq f delta pts i strs xs run got in
          let (id_idx, m_k, prefix, own, small, mprefix, e) =
            (f-IsPointList i strs (q, v)).0 (rw exact there) in
          let (same_p, same_id, same_k, same_bin) =
            injective p prefix id (r.ids id_idx) k m_k bin (r.locations id_idx m_k)
              (sym eq ∙ ap (λ (t : Block × Block). t.0) e) in
          let near =
            (common_iff delta param found (pts i) y strs ps (centres i (omega arith)) hy run ask).0
              (In-common p ps strs mp (rw same_p mprefix)) in
          (
            (
              i,
              id_idx,
              omega arith,
              own,
              near,
              sym same_id,
              ap (r.locations id_idx) same_k ∙ sym same_bin,
            ),
            ap (λ (t : Block × Block). t.1) e ∙ ap (r.a_random dim) (sym same_bin),
          )

      near_entry :
          k < num_hash_func
          → HasNear r delta cells pts_num pts y id k bin
          → (q : Block) × In q (full_keys id k bin ps) × In (q, r.a_random dim bin) es
      unfolding prefix_entry
      near_entry small (i, id_idx, hi, own, near, same_id, same_bin) =
          let (strs, run, _) = strings_of i hi in
          let (p, mp, mstr) =
            common-In ps strs
              ((common_iff delta param found (pts i) y strs ps (centres i hi) hy run ask).1 near) in
          (
            hash p id k bin,
            In-map (λ prefix. hash prefix id k bin) p ps mp,
            listed.1 i (f i strs) (hash p id k bin, r.a_random dim bin) (omega arith) (omega arith)
                (rw run refl)
                ((f-IsPointList i strs (hash p id k bin, r.a_random dim bin)).1 id_idx k p own small
                  mstr (rw (same_id, same_bin) refl)),
          )

  bin_keys-full :
      (s : Sender Block) (delta : ℕ) (pts : ℕ → ℕ) (drawn : ℕ → ℕ → Block) (prefix_size i : ℕ)
      (b : Entry) (ps : List (List Bool))
      → s.bins i ≡ some b
      → linf_queries delta (pts b.idx) ≡ ok ps
      → bin_keys hash s delta pts drawn prefix_size i ≡ ok (full_keys (s.ids b.idx) b.hash_idx i ps)
  unfolding bin_keys entry_keys
  bin_keys-full s delta pts drawn prefix_size i b ps full ask = rw (full, ask) refl

  -- What the two sides' lists are to each other in the bin `i`, which holds `b`.
  abbrev pub Meet :
      Receiver Block
      → Sender Block
      → ℕ
      → ℕ
      → ℕ
      → ℕ
      → (ℕ → ℕ)
      → (ℕ → ℕ)
      → ℕ
      → Entry
      → List (Block × Block)
      → List Block
      → Type 0
  Meet r s dim delta cells pts_num pts other_pts i b es qs =
      (IsAsked qs es
        ↔ HasNear r delta cells pts_num pts (other_pts b.idx) (s.ids b.idx) b.hash_idx i)
      × Carries qs es (r.a_random dim i)

  module _ (injective : IsInjective) (r : Receiver Block) (s : Sender Block)
      (dim delta cells pts_num : ℕ) (pts other_pts : ℕ → ℕ) (drawn : ℕ → ℕ → Block)
      (prefix_size i : ℕ) (b : Entry) (param : PrefixParam)
      (found : get_selected_param linf_table (2 * delta + 1) ≡ ok param)
      (centres : (i : ℕ) → i < pts_num → IsCentre delta (pts i)) (full : s.bins i ≡ some b)
      (small : b.hash_idx < num_hash_func) (hy : other_pts b.idx < 2 ^ 64) where
    pub list-bin_keys :
        (f : ℕ → List (List Bool) → List (Block × Block))
        → IsPointList hash r dim cells f
        → Returns (collect (list_of f delta pts) 0 pts_num) λ es.
          Returns
            (bin_keys hash s delta other_pts drawn prefix_size i)
            (Meet r s dim delta cells pts_num pts other_pts i b es)
    list-bin_keys f f-IsPointList =
        let (es, run, listed) =
          list-IsCollected injective r dim delta cells pts_num pts param found f f-IsPointList
            centres in
        let usable = tables-IsUsable (2 * delta + 1) param (inl found) in
        let (_, _, (ps, ask, _)) =
          linf_strings-linf_queries delta delta (other_pts b.idx) param found (omega arith)
            (omega (arith, usable.short)) hy in
        let asked =
          asked_entry injective r dim delta cells pts_num pts param found f f-IsPointList centres
            (other_pts b.idx) b.hash_idx i (s.ids b.idx) hy ps ask es listed in
        let near =
          near_entry injective r dim delta cells pts_num pts param found f f-IsPointList centres
            (other_pts b.idx) b.hash_idx i (s.ids b.idx) hy ps ask es listed in
        (
          es,
          run,
          (
            full_keys (s.ids b.idx) b.hash_idx i ps,
            bin_keys-full s delta other_pts drawn prefix_size i b ps full ask,
            (
              (
                λ (q, v, m, n). (asked q v m n).0,
                λ h. let (q, m, n) = near small h in (q, r.a_random dim i, m, n),
              ),
              λ q v m n. (asked q v m n).1,
            ),
          ),
        )
