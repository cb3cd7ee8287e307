-- ===== src/Ufmap/Recover.antt =====
-- The share that the querying side's partner recovers from the programmed PRF.
use opprf_fpsi.Prelude.{
  ℕ, zero, suc, ◌+◌, ◌*◌, ◌≡◌, refl, sym, ap, ap₂, ◌∙◌, ◌⊎◌, inl, inr, List, ◌<◌, arith, In,
  In-flat_range,
}
use opprf_fpsi.Mapping.Field.{Field, xor_left_comm, xor_cancel}
use opprf_fpsi.Ufmap.{
  Halves, make_alignment, apply_alignment, query_keys, program_entry, recover_receiver_shares,
  program_bopprf,
}
use opprf_fpsi.Protocol.Rounds.Laws.{IsProgrammable}
use opprf_fpsi.Protocol.Rounds.Second.{pair}

module _ {Block Word : Type 0} (F : Field Block) (H : Halves F Word) where
  open F use {zero_block, xor, xor_assoc, xor_comm, xor-zero, xor_self}
  open H use {
    low64, high64, from_low64, xor64, zero64, zero-xor64, low64-xor, high64-xor, low64-from_low64,
    high64-from_low64, from_low64-xor64,
  }

  -- The parties' shares of the PRF at the candidates of a query.
  abbrev pub ShareThePrf : (ℕ → Block) → (ℕ → Block) → (ℕ → ℕ → Block) → ℕ → Type 0
  ShareThePrf key_shares query_shares prf q =
      (xor (key_shares (2 * q)) (query_shares (2 * q)) ≡ prf q 0)
      × (xor (key_shares (2 * q + 1)) (query_shares (2 * q + 1)) ≡ prf q 1)

  cancel_first : (v k s : Block) → xor (xor v (xor k s)) s ≡ xor v k
  cancel_first v k s = simp (xor_assoc, xor_self, xor-zero) refl

  cancel_second : (v k0 k1 s : Block) → xor (xor v (xor k1 s)) (xor s (xor k0 k1)) ≡ xor v k0
  cancel_second v k0 k1 s = simp (xor_assoc, xor_comm, xor_left_comm F, xor_self, xor-zero) refl

  -- After the alignment, both candidates are masked by the key share of the first.
  rho_eq :
      (key_shares query_shares : ℕ → Block) (prf : ℕ → ℕ → Block) (q sigma : ℕ) (value : Block)
      → ShareThePrf key_shares query_shares prf q
      → (sigma ≡ 0) ⊎ (sigma ≡ 1)
      → xor
          (xor value (prf q sigma))
          (apply_alignment F H query_shares (make_alignment F H key_shares) q sigma)
        ≡ xor value (key_shares (2 * q))
  unfolding apply_alignment make_alignment
  rho_eq key_shares query_shares prf q zero value h c =
      ap (λ t. xor (xor value t) (query_shares (2 * q))) (sym h.0)
      ∙ cancel_first value (key_shares (2 * q)) (query_shares (2 * q))
  rho_eq key_shares query_shares prf q (suc zero) value h c =
      ap
        (λ t.
          xor (xor value t)
            (xor (query_shares (2 * q + 1)) (xor (key_shares (2 * q)) (key_shares (2 * q + 1)))))
        (sym h.1)
      ∙ cancel_second value (key_shares (2 * q)) (key_shares (2 * q + 1)) (query_shares (2 * q + 1))
  rho_eq key_shares query_shares prf q (suc (suc sigma)) value h c =
      absurd (elim c [ inl e ↦ omega (arith, e) | inr e ↦ omega (arith, e) ])

  masked_high : (v k : Block) (w : Word) → v ≡ from_low64 w → high64 (xor v k) ≡ high64 k
  masked_high v k w e =
      high64-xor v k
      ∙ ap (λ t. xor64 t (high64 k)) (ap high64 e ∙ high64-from_low64 w)
      ∙ zero-xor64 (high64 k)

  unmasked_low : (v k p : Block) → xor (xor (xor (xor v k) p) k) p ≡ v
  unmasked_low v k p = simp (xor_assoc, xor_comm, xor_cancel F, xor_self, xor-zero) refl

  -- The two halves of a programmed value, put together again.
  unmasked_halves :
      (v k p : Block) (w u : Word)
      → v ≡ from_low64 w
      → p ≡ from_low64 u
      → xor
          (from_low64 (xor64 (low64 (from_low64 (xor64 (low64 (xor v k)) (low64 p)))) (low64 k)))
          p
        ≡ v
  unmasked_halves v k p w u e d =
      let low_v : from_low64 (low64 v) ≡ v =
        ap (λ t. from_low64 (low64 t)) e ∙ ap from_low64 (low64-from_low64 w) ∙ sym e in
      let low_p : from_low64 (low64 p) ≡ p =
        ap (λ t. from_low64 (low64 t)) d ∙ ap from_low64 (low64-from_low64 u) ∙ sym d in
      rw
        (
          low64-from_low64, low64-xor, from_low64-xor64, from_low64-xor64, from_low64-xor64, low_v,
          low_p,
        )
        (unmasked_low v (from_low64 (low64 k)) p)

  module _ (opprf : List (Block × Block) → Block → Block) (programmable : IsProgrammable opprf)
      (key_shares query_shares : ℕ → Block) (prf decoded : ℕ → ℕ → Block)
      (programmer_shares : ℕ → Block) (queries q sigma : ℕ) (value : Block) (w u : Word) where
    abbrev aligned : ℕ → ℕ → Block
    aligned = apply_alignment F H query_shares (make_alignment F H key_shares)

    abbrev programs : List (Block × Block)
    programs = program_bopprf F H decoded aligned programmer_shares queries

    entry_eq :
        ShareThePrf key_shares query_shares prf q
        → (sigma ≡ 0) ⊎ (sigma ≡ 1)
        → value ≡ from_low64 w
        → decoded q sigma ≡ xor value (prf q sigma)
        → program_entry F H (decoded q sigma) (aligned q sigma) (programmer_shares q) ≡ (
          query_keys F H key_shares q,
          from_low64 (xor64 (low64 (xor value (key_shares (2 * q)))) (low64 (programmer_shares q))),
        )
    unfolding program_entry query_keys
    entry_eq shared c e d =
        let rho =
          ap (λ t. xor t (aligned q sigma)) d
          ∙ rho_eq key_shares query_shares prf q sigma value shared c in
        ap₂ (λ a b. (from_low64 a, from_low64 (xor64 b (low64 (programmer_shares q)))))
          (ap high64 rho ∙ masked_high value (key_shares (2 * q)) w e) (ap low64 rho)

    -- If the parties share the PRF at both candidates of the query `q`, what the querying party
    -- decodes at one of them is masked with the PRF, the encoded value and the programmer's share
    -- have no high half, and the programmed PRF gives what is programmed and has only one value at
    -- the query's key, then the share that the other party recovers, plus the programmer's share,
    -- is the encoded value, whichever of the candidates it is.
    pub recover_receiver_shares-program_bopprf :
        ShareThePrf key_shares query_shares prf q
        → (sigma ≡ 0) ⊎ (sigma ≡ 1)
        → q < queries
        → value ≡ from_low64 w
        → programmer_shares q ≡ from_low64 u
        → decoded q sigma ≡ xor value (prf q sigma)
        → ((a b : Block)
            → In (query_keys F H key_shares q, a) programs
            → In (query_keys F H key_shares q, b) programs
            → a ≡ b)
        → xor
            (recover_receiver_shares F H
              (λ i. opprf programs (query_keys F H key_shares i))
              key_shares
              q)
            (programmer_shares q)
          ≡ value
    unfolding program_bopprf recover_receiver_shares
    recover_receiver_shares-program_bopprf shared c inside e d masked single =
        let out =
          from_low64
            (xor64 (low64 (xor value (key_shares (2 * q)))) (low64 (programmer_shares q))) in
        let made = entry_eq shared c e masked in
        let entry : In (pair (query_keys F H key_shares q) out) programs =
          In-flat_range _ 0 queries q _ (omega arith) (omega arith)
            (In-flat_range _ 0 2 sigma _ (omega arith) (ground (arith, c)) (inl (sym made))) in
        let got =
          programmable programs (query_keys F H key_shares q) out entry
            (λ a m. single a out m entry) in
        ap
          (λ t.
            xor (from_low64 (xor64 (low64 t) (low64 (key_shares (2 * q))))) (programmer_shares q))
          got
        ∙ unmasked_halves value (key_shares (2 * q)) (programmer_shares q) w u e d
