-- ===== src/Protocol/Transfer/Laws.antt =====
-- What the receiver gets for a bin, and how many matches it counts.
use opprf_fpsi.Prelude.{
  ℕ, zero, suc, ◌+◌, ◌<◌, ◌≡◌, refl, sym, ap, ap₂, ◌∙◌, Bool, true, false, ◌⊕◌, ◌||◌, ◌↔◌, ◌⊎◌,
  List, [], ◌∷◌, Option, none, some, if◌then◌else◌, length, flat_range, to_nat, arith, inl, inr,
}
use opprf_fpsi.Mapping.Field.{Field, xor_cancel}
use opprf_fpsi.Protocol.Linf.{Sender, Entry}
use opprf_fpsi.Protocol.Transfer.{
  Transfers, chosen, half_send_msgs, recv_msg, recv_msgs, find_table, look_up, psi_online_sh,
  psi_online_cmp,
}

-- The block that the receiver should get: the identifier in the bin if there is one and the parties'
-- bits differ, and otherwise one of the sender's random blocks.
abbrev pub transferred :
    {Block : Type 0} → (ℕ → Block) → Option Entry → Bool → Bool → Block × Block → Block
transferred ids (some b) true false fresh = ids b.idx
transferred ids (some b) false true fresh = ids b.idx
transferred ids o true hit fresh = fresh.1
transferred ids o false hit fresh = fresh.0

-- The bin holds a point, and the equality test said yes.
abbrev pub is_match : Option Entry → Bool → Bool → Bool
is_match none e hit = false
is_match (some b) e hit = e ⊕ hit

-- The number of rounds in which a test passes.
abbrev pub count_range : (ℕ → Bool) → ℕ → ℕ → ℕ
count_range f start zero = 0
count_range f start (suc count) = to_nat (f start) + count_range f (suc start) count

module _ {Block : Type 0} (F : Field Block) where
  open F use {xor, xor_comm}

  unmask : (a m : Block) → xor m (xor a m) ≡ a
  unmask a m = ap (xor m) (xor_comm a m) ∙ xor_cancel F m a

  -- For each bin, empty or not, and for all bits of the equality test: the receiver gets the
  -- identifier in the bin exactly if the parties' bits differ, and else one of the sender's random
  -- blocks.
  pub recv_msg-half_send_msgs :
      (ids : ℕ → Block) (o : Option Entry) (e hit : Bool) (m fresh : Block × Block)
      → recv_msg F e (chosen e m) (half_send_msgs F ids o hit m fresh)
        ≡ transferred ids o e hit fresh
  unfolding recv_msg chosen half_send_msgs
  recv_msg-half_send_msgs ids none true hit m fresh = unmask fresh.1 m.1
  recv_msg-half_send_msgs ids none false hit m fresh = unmask fresh.0 m.0
  recv_msg-half_send_msgs ids (some b) true true m fresh = unmask fresh.1 m.1
  recv_msg-half_send_msgs ids (some b) true false m fresh = unmask (ids b.idx) m.1
  recv_msg-half_send_msgs ids (some b) false true m fresh = unmask (ids b.idx) m.0
  recv_msg-half_send_msgs ids (some b) false false m fresh = unmask fresh.0 m.0

  -- The table has the block that is transferred for a bin just if the bin is a match.
  abbrev Tells :
      (Block → Bool) → Sender Block → Transfers Block → (ℕ → Bool) → (ℕ → Bool) → ℕ → Type 0
  Tells has s t ee other_ee i =
      has (transferred s.ids (s.bins i) (ee i) (other_ee i) (t.fresh i))
      ≡ is_match (s.bins i) (ee i) (other_ee i)

  module _ (equal : Block → Block → Bool) where
    length-look_up :
        (has : Block → Bool) (s : Sender Block) (t : Transfers Block) (ee other_ee : ℕ → Bool)
        (start num_ots : ℕ)
        → ((i : ℕ) → i < start + num_ots → Tells has s t ee other_ee i)
        → length (
            look_up equal has (
              flat_range
                (λ i.
                  recv_msg F
                    (ee i)
                    (chosen (ee i) (t.ot_messages i))
                    (half_send_msgs F s.ids (s.bins i) (other_ee i) (t.ot_messages i) (t.fresh i))
                  ∷ [])
                start
                num_ots))
          ≡ count_range (λ i. is_match (s.bins i) (ee i) (other_ee i)) start num_ots
    unfolding look_up flat_range
    length-look_up has s t ee other_ee start zero h = refl
    length-look_up has s t ee other_ee start (suc num_ots) h =
        let got =
          recv_msg-half_send_msgs s.ids (s.bins start) (ee start) (other_ee start)
            (t.ot_messages start) (t.fresh start) in
        let rest =
          length-look_up has s t ee other_ee (suc start) num_ots (λ i hi. h i (omega arith)) in
        rw (got, h start (omega arith))
          (counted (is_match (s.bins start) (ee start) (other_ee start)) _ _ rest)
      where
        counted :
            (b : Bool) (xs : List ℕ) (n : ℕ)
            → length xs ≡ n
            → length (if b then 0 ∷ xs else xs) ≡ to_nat b + n
        counted true xs n e = omega (arith, e)
        counted false xs n e = omega (arith, e)

    -- `==` of blocks tells equal blocks from different ones.
    abbrev pub IsEquality : Type 0
    IsEquality = (a b : Block) → (equal a b ≡ true) ↔ (a ≡ b)

    find_table-here :
        (ids : ℕ → Block) (size i : ℕ) (msg : Block)
        → IsEquality
        → i < size
        → ids i ≡ msg
        → find_table equal ids size msg ≡ true
    unfolding find_table
    find_table-here ids zero i msg h lo e = absurd (omega (arith, lo))
    find_table-here ids (suc size) i msg h lo e = elim (last_or_before size i lo) [
      | inl q ↦
          let here : equal (ids size) msg ≡ true = (h (ids size) msg).1 (ap ids (sym q) ∙ e) in
          rw here refl
      | inr before ↦
          let found = find_table-here ids size i msg h before e in
          rw found (either (equal (ids size) msg))
    ]
      where
        last_or_before : (size i : ℕ) → i < suc size → (i ≡ size) ⊎ (i < size)
        last_or_before size i lo = ground arith

        either : (b : Bool) → (b || true) ≡ true
        either true = refl
        either false = refl

    module _ (h : IsEquality) (ids : ℕ → Block) (ids_num : ℕ) (s : Sender Block)
        (t : Transfers Block) (ee other_ee : ℕ → Bool) (num_ots : ℕ)
        (known : (i : ℕ) (b : Entry)
          → i < num_ots
          → s.bins i ≡ some b
          → (ee i ⊕ other_ee i) ≡ true
          → (id_idx : ℕ) × (id_idx < ids_num) × (ids id_idx ≡ s.ids b.idx))
        (fresh : (i : ℕ)
          → i < num_ots
          → (find_table equal ids ids_num (t.fresh i).0 ≡ false)
            × (find_table equal ids ids_num (t.fresh i).1 ≡ false)) where
      tells :
          (i : ℕ) (o : Option Entry) (e hit : Bool)
          → i < num_ots
          → s.bins i ≡ o
          → ee i ≡ e
          → other_ee i ≡ hit
          → find_table equal ids ids_num (transferred s.ids o e hit (t.fresh i)) ≡ is_match o e hit
      tells i none true hit lo o e p = (fresh i lo).1
      tells i none false hit lo o e p = (fresh i lo).0
      tells i (some b) true true lo o e p = (fresh i lo).1
      tells i (some b) false false lo o e p = (fresh i lo).0
      tells i (some b) true false lo o e p =
          let (id_idx, small, same) = known i b lo o (ap₂ ◌⊕◌ e p) in
          find_table-here ids ids_num id_idx (s.ids b.idx) h small same
      tells i (some b) false true lo o e p =
          let (id_idx, small, same) = known i b lo o (ap₂ ◌⊕◌ e p) in
          find_table-here ids ids_num id_idx (s.ids b.idx) h small same

      -- If equality of blocks is decided, each identifier in a bin in which the parties' bits
      -- differ is one of the receiver's, and none of the sender's random blocks is, then both
      -- variants count exactly the bins that hold a point and in which the bits differ.
      pub psi_online-counts :
          (length (psi_online_sh equal F ids ids_num s t ee other_ee num_ots)
            ≡ count_range (λ i. is_match (s.bins i) (ee i) (other_ee i)) 0 num_ots)
          × (length (psi_online_cmp equal F ids ids_num s t ee other_ee num_ots)
              ≡ count_range (λ i. is_match (s.bins i) (ee i) (other_ee i)) 0 num_ots)
      unfolding psi_online_sh psi_online_cmp recv_msgs
      psi_online-counts =
          let all =
            length-look_up (find_table equal ids ids_num) s t ee other_ee 0 num_ots
              (λ i lo. tells i (s.bins i) (ee i) (other_ee i) (omega arith) refl refl refl) in
          (all, all)
