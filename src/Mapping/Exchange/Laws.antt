-- ===== src/Mapping/Exchange/Laws.antt =====
-- What the exchange computes, and that near points end with one identifier.
use opprf_fpsi.Prelude.{◌≡◌, sym, ap, ap₂, ◌∙◌, List, [], ◌∷◌, refl}
use opprf_fpsi.Mapping.Field.{Field, zero-xor, xor_left_comm, xor_cancel, total}
use opprf_fpsi.Mapping.Exchange.{Vole, sum_from, mask_sum, times_from, encrypt, reply, exchange_id}

module _ {Block : Type 0} (F : Field Block) where
  open F use {
    zero_block, xor, mul, xor_comm, xor_assoc, xor-zero, xor_self, mul_comm, mul_assoc, mul-xor,
  }

  -- The guarantee of a random VOLE: shares of the product of the mask and the other's scalar.
  abbrev pub IsVole : Block → Vole Block → Type 0
  IsVole other_scalar v = mul other_scalar v.mask ≡ xor v.holder_share v.other_share

  sum_from-total : (acc : Block) (xs : List Block) → sum_from F acc xs ≡ xor acc (total F xs)
  unfolding sum_from
  sum_from-total acc [] = sym (xor-zero acc)
  sum_from-total acc (x ∷ xs) = sum_from-total (xor acc x) xs ∙ xor_assoc acc x (total F xs)

  sum-total : (xs : List Block) → sum_from F zero_block xs ≡ total F xs
  sum-total xs = sum_from-total zero_block xs ∙ zero-xor F (total F xs)

  times_from-total :
      (r acc : Block) (xs : List Block) → times_from F r acc xs ≡ xor acc (mul r (total F xs))
  unfolding times_from
  times_from-total r acc [] = times-nil
    where
      mul-zero : mul r zero_block ≡ zero_block
      mul-zero =
          ap (mul r) (sym (xor_self zero_block))
          ∙ mul-xor r zero_block zero_block
          ∙ xor_self (mul r zero_block)

      times-nil : acc ≡ xor acc (mul r zero_block)
      times-nil = sym (ap (xor acc) mul-zero ∙ xor-zero acc)
  times_from-total r acc (x ∷ xs) =
      times_from-total r (xor acc (mul r x)) xs
      ∙ xor_assoc acc (mul r x) (mul r (total F xs))
      ∙ ap (xor acc) (sym (mul-xor r x (total F xs)))

  encrypt-total :
      (r id got share mask : Block) (decoded shares : List Block)
      → encrypt F r id got share mask decoded shares
        ≡ xor
            (xor
              (mul r (xor (total F decoded) id))
              (xor (xor (mul r got) share) (mul r (total F shares))))
            mask
  unfolding encrypt
  encrypt-total r id got share mask decoded shares =
      ap₂ (λ a b. xor (xor (mul r (xor a id)) b) mask) (sum-total decoded)
        (times_from-total r (xor (mul r got) share) shares)

  mask_sum-total :
      (shares : List Block) (mask : Block) → mask_sum F shares mask ≡ xor (total F shares) mask
  unfolding mask_sum
  mask_sum-total shares mask = ap (λ a. xor a mask) (sum-total shares)

  -- Once the masks are gone: the product of both scalars and the sum.
  unmasked :
      (r s id d t o m hm om n hn on : Block)
      → mul r m ≡ xor hm om
      → mul s n ≡ xor hn on
      → xor
          (xor
            (mul s
              (xor (xor (xor (mul r (xor d id)) (xor (xor (mul r (xor o m)) om) (mul r t))) n) hm))
            on)
          hn
        ≡ mul s (mul r (xor id (xor d (xor t o))))
  unmasked r s id d t o m hm om n hn on e f =
      simp (mul-xor, e, f, xor_assoc, xor_comm, xor_left_comm F, xor_cancel F) refl

  -- With valid VOLE triples, the exchange gives the product of both scalars and the sum of the
  -- party's own identifier, the decoded blocks and the PRF values that the parties share.
  pub exchange_id-total :
      (scalar other_scalar : Block) (mine theirs : Vole Block) (id : Block)
      (decoded shares other_shares : List Block)
      → IsVole scalar theirs
      → IsVole other_scalar mine
      → exchange_id F scalar other_scalar mine theirs id decoded shares other_shares
        ≡ mul other_scalar (
            mul scalar
              (xor id (xor (total F decoded) (xor (total F shares) (total F other_shares)))))
  unfolding exchange_id reply
  exchange_id-total r s mine theirs id decoded shares other_shares e f =
      ap (λ c. xor (xor (mul s (xor c theirs.holder_share)) mine.other_share) mine.holder_share)
        (encrypt-total r id (mask_sum F other_shares theirs.mask) theirs.other_share mine.mask
            decoded shares
          ∙ ap
              (λ g.
                xor
                  (xor (mul r (xor (total F decoded) id))
                    (xor (xor (mul r g) theirs.other_share) (mul r (total F shares))))
                  mine.mask)
              (mask_sum-total other_shares theirs.mask))
      ∙ unmasked r s id (total F decoded) (total F shares) (total F other_shares) theirs.mask
          theirs.holder_share theirs.other_share mine.mask mine.holder_share mine.other_share e f

  -- The blocks that a party decodes are the values of the other party's cells, masked by a PRF
  -- that is shared.
  abbrev pub IsDecoded : List Block → List Block → List Block → List Block → Type 0
  IsDecoded [] [] [] [] = Unit
  IsDecoded (v ∷ values) (d ∷ decoded) (s ∷ shares) (o ∷ other_shares) =
      (d ≡ xor v (xor s o)) × IsDecoded values decoded shares other_shares
  IsDecoded _ _ _ _ = ⊥

  one_more :
      (v s o d t u : Block)
      → xor (xor (xor v (xor s o)) d) (xor (xor s t) (xor o u)) ≡ xor v (xor d (xor t u))
  one_more v s o d t u = simp (xor_assoc, xor_left_comm F, xor_cancel F) refl

  total-IsDecoded :
      (values decoded shares other_shares : List Block)
      → IsDecoded values decoded shares other_shares
      → xor (total F decoded) (xor (total F shares) (total F other_shares)) ≡ total F values
  total-IsDecoded [] [] [] [] h = zero-xor F (xor zero_block zero_block) ∙ xor-zero zero_block
  total-IsDecoded (v ∷ values) (d ∷ decoded) (s ∷ shares) (o ∷ other_shares) h =
      ap
        (λ t.
          xor (xor t (total F decoded))
            (xor (xor s (total F shares)) (xor o (total F other_shares))))
        h.0
      ∙ one_more v s o (total F decoded) (total F shares) (total F other_shares)
      ∙ ap (xor v) (total-IsDecoded values decoded shares other_shares h.1)
  total-IsDecoded [] [] [] (o ∷ other_shares) h = absurd h
  total-IsDecoded [] [] (s ∷ shares) other_shares h = absurd h
  total-IsDecoded [] (d ∷ decoded) shares other_shares h = absurd h
  total-IsDecoded (v ∷ values) [] shares other_shares h = absurd h
  total-IsDecoded (v ∷ values) (d ∷ decoded) [] other_shares h = absurd h
  total-IsDecoded (v ∷ values) (d ∷ decoded) (s ∷ shares) [] h = absurd h

  -- With valid VOLE triples in both exchanges, if the values that each party decodes sum up to the
  -- other party's identifier, then the two exchanges give both parties the same identifier.
  pub exchange_id-agree :
      (s r s_id r_id : Block) (s_mine s_theirs r_mine r_theirs : Vole Block)
      (s_values s_decoded s_shares s_other r_values r_decoded r_shares r_other : List Block)
      → IsVole s s_theirs
      → IsVole r s_mine
      → IsVole r r_theirs
      → IsVole s r_mine
      → IsDecoded s_values s_decoded s_shares s_other
      → IsDecoded r_values r_decoded r_shares r_other
      → total F s_values ≡ r_id
      → total F r_values ≡ s_id
      → exchange_id F s r s_mine s_theirs s_id s_decoded s_shares s_other
        ≡ exchange_id F r s r_mine r_theirs r_id r_decoded r_shares r_other
  exchange_id-agree s r s_id r_id s_mine s_theirs r_mine r_theirs s_values s_decoded s_shares
        s_other r_values r_decoded r_shares r_other a b c d e f g h =
      exchange_id-total s r s_mine s_theirs s_id s_decoded s_shares s_other a b
      ∙ ap (λ t. mul r (mul s (xor s_id t)))
          (total-IsDecoded s_values s_decoded s_shares s_other e ∙ g)
      ∙ scalars_swap r s s_id r_id
      ∙ sym (
          ap (λ t. mul s (mul r (xor r_id t)))
            (total-IsDecoded r_values r_decoded r_shares r_other f ∙ h))
      ∙ sym (exchange_id-total r s r_mine r_theirs r_id r_decoded r_shares r_other c d)
    where
      scalars_swap : (r s a b : Block) → mul r (mul s (xor a b)) ≡ mul s (mul r (xor b a))
      scalars_swap r s a b =
          sym (mul_assoc r s (xor a b))
          ∙ ap₂ mul (mul_comm r s) (xor_comm a b)
          ∙ mul_assoc s r (xor b a)
