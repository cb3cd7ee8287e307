-- ===== src/Protocol/Transfer.antt =====
-- Step 4 of `psi_online_sh` and `psi_online_cmp` of `fpsi/fpsi_recv.cpp` and `fpsi_sender.cpp`: the
-- transfer of identifiers by random oblivious transfers, and the receiver's lookup.
pub mod Laws
use opprf_fpsi.Prelude.{
  ℕ, zero, suc, ◌+◌, Bool, true, false, ◌||◌, List, [], ◌∷◌, Option, none, some, if◌then◌else◌,
  length, flat_range,
}
use opprf_fpsi.Mapping.Field.{Field}
use opprf_fpsi.Protocol.Linf.{Sender, Entry}

-- What the random transfers leave: two blocks for each bin with the sender, and the one of the
-- receiver's choice with the receiver; and the sender's own random blocks, two for each bin.
pub record Transfers (Block : Type 0) : Type 0 where
  pub ot_messages : ℕ → Block × Block
  pub fresh : ℕ → Block × Block

-- `ot_messages[i]` of the receiver, whose choice is its bit of the equality test.
unfoldable pub chosen : {Block : Type 0} → Bool → Block × Block → Block
chosen true messages = messages.1
chosen false messages = messages.0

module _ {Block : Type 0} (F : Field Block) where
  open F use {xor}

  -- `half_sendMsg_0[i]` and `half_sendMsg_1[i]`.
  unfoldable pub half_send_msgs :
      (ℕ → Block) → Option Entry → Bool → Block × Block → Block × Block → Block × Block
  half_send_msgs ids none hit m fresh = (xor fresh.0 m.0, xor fresh.1 m.1)
  half_send_msgs ids (some b) true m fresh = (xor (ids b.idx) m.0, xor fresh.1 m.1)
  half_send_msgs ids (some b) false m fresh = (xor fresh.0 m.0, xor (ids b.idx) m.1)

  -- `recvMsgs[i]`.
  unfoldable pub recv_msg : Bool → Block → Block × Block → Block
  recv_msg true message masked = xor message masked.1
  recv_msg false message masked = xor message masked.0

  -- `recvMsgs`: what the receiver has for each bin.
  unfoldable pub recv_msgs :
      Sender Block → Transfers Block → (ℕ → Bool) → (ℕ → Bool) → ℕ → List Block
  recv_msgs s t ee other_ee num_ots =
      flat_range
        (λ i.
          recv_msg (ee i) (chosen (ee i) (t.ot_messages i))
            (half_send_msgs s.ids (s.bins i) (other_ee i) (t.ot_messages i) (t.fresh i))
          ∷ [])
        0 num_ots

module _ {Block : Type 0} (equal : Block → Block → Bool) where
  -- `find_table.find(msg) != find_table.end()`, where the table holds the first `size` identifiers.
  unfoldable pub find_table : (ℕ → Block) → ℕ → Block → Bool
  find_table ids zero msg = false
  find_table ids (suc size) msg = equal (ids size) msg || find_table ids size msg

  -- The lookup: a dummy index for each block that the table has.
  unfoldable pub look_up : (Block → Bool) → List Block → List ℕ
  look_up has [] = []
  look_up has (msg ∷ msgs) = let rest = look_up has msgs in if has msg then 0 ∷ rest else rest

  -- `intersection_idxs_tmp` at the end of `psi_online_sh`, with the identifiers `sh_ID_xr`.
  unfoldable pub psi_online_sh :
      Field Block
      → (ℕ → Block)
      → ℕ
      → Sender Block
      → Transfers Block
      → (ℕ → Bool)
      → (ℕ → Bool)
      → ℕ
      → List ℕ
  psi_online_sh F sh_id_xr ids_num s t ee other_ee num_ots =
      look_up (find_table sh_id_xr ids_num) (recv_msgs F s t ee other_ee num_ots)

  -- The same in `psi_online_cmp`, with the identifiers `cmp_ID` of the fuzzy mapping.
  unfoldable pub psi_online_cmp :
      Field Block
      → (ℕ → Block)
      → ℕ
      → Sender Block
      → Transfers Block
      → (ℕ → Bool)
      → (ℕ → Bool)
      → ℕ
      → List ℕ
  psi_online_cmp F cmp_id pts_num s t ee other_ee num_ots =
      look_up (find_table cmp_id pts_num) (recv_msgs F s t ee other_ee num_ots)
