-- ===== src/Tests/Sums.antt =====
-- The sums over the dimensions and the transfer of identifiers, with one bit for a block.
use opprf_fpsi.Prelude.{◌≡◌, refl, Bool, true, false, ◌⊕◌, not, some, length, arith}
use opprf_fpsi.Protocol.Linf.{Sender}
use opprf_fpsi.Protocol.Transfer.{Transfers, psi_online_sh, psi_online_cmp, find_table}
use opprf_fpsi.Protocol.Transfer.Laws.{psi_online-counts, IsEquality, count_range, is_match}
use opprf_fpsi.Tests.Mapping.{bits}

abbrev sender_bits : Sender Bool
sender_bits = record {
  ids = λ idx. true;
  bins = λ i. some (record { idx = 0; hash_idx = 0 });
  r_vals = λ dim i. false;
}

abbrev transfers : Transfers Bool
transfers = record { ot_messages = λ i. (true, false); fresh = λ i. (false, false) }

abbrev same_bit : Bool → Bool → Bool
same_bit a b = not (a ⊕ b)

same_bit-IsEquality : IsEquality bits same_bit
same_bit-IsEquality a b = ground arith

psi_online-counts_example :
    (length
        (psi_online_sh same_bit bits (λ i. true) 1 sender_bits transfers (λ i. true) (λ i. false) 2)
      ≡ count_range (λ i. is_match (sender_bits.bins i) true false) 0 2)
    × (length (
          psi_online_cmp same_bit bits
            (λ i. true)
            1
            sender_bits
            transfers
            (λ i. true)
            (λ i. false)
            2)
        ≡ count_range (λ i. is_match (sender_bits.bins i) true false) 0 2)
unfolding find_table
psi_online-counts_example =
    psi_online-counts bits same_bit same_bit-IsEquality (λ i. true) 1 sender_bits transfers
      (λ i. true) (λ i. false) 2 (λ i b lo full e. (0, omega arith, refl)) (λ i lo. (refl, refl))
