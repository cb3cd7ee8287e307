-- ===== src/Ufmap/Exchange.antt =====
-- The exchange that ends `fuzzyMap` of both parties in `fpsi/ufmap/ufmap.cpp`, for one point: from
-- the shares for its dimensions to its identifier.
use opprf_fpsi.Prelude.{◌≡◌, refl, sym, ap, ap₂, ◌∙◌, List, [], ◌∷◌}
use opprf_fpsi.Mapping.Field.{Field, xor_left_comm, xor_cancel, zero-xor, total}
use opprf_fpsi.Mapping.Exchange.{Vole, sum_from}

module _ {Block : Type 0} (F : Field Block) where
  open F use {zero_block, xor, mul, mul-xor, xor_assoc, xor_comm, xor-zero, xor_self}

  -- `sumPointShares`.
  unfoldable pub sum_point_shares : List Block → Block
  sum_point_shares shares = sum_from F zero_block shares

  -- `firstU[k]`: the recovered shares, masked.
  unfoldable pub masked_shares : Vole Block → List Block → Block
  masked_shares first receiver_shares = xor first.mask (sum_point_shares receiver_shares)

  -- `senderTerms[k]`.
  unfoldable pub sender_terms : Block → Vole Block → Block → List Block → Block → Block
  sender_terms vole_delta first u programmer_shares id =
      xor (mul vole_delta (xor (xor u (sum_point_shares programmer_shares)) id)) first.other_share

  -- `w[k]` of the other party.
  unfoldable pub scaled_terms : Block → Vole Block → Vole Block → Block → Block
  scaled_terms other_delta first second v =
      xor (mul other_delta (xor v first.holder_share)) second.other_share

  -- `identifiers[k]`: `first` is the VOLE in which the other party holds the masks, and `second` the
  -- one in which this party does.
  unfoldable pub map_point :
      Block → Block → Vole Block → Vole Block → List Block → List Block → Block → Block
  map_point vole_delta other_delta first second receiver_shares programmer_shares id =
      let u = masked_shares first receiver_shares in
      let v = xor second.mask (sender_terms vole_delta first u programmer_shares id) in
      xor (scaled_terms other_delta first second v) second.holder_share

  -- What the random VOLE promises.
  abbrev pub IsShared : Block → Vole Block → Type 0
  IsShared scalar v = mul scalar v.mask ≡ xor v.holder_share v.other_share

  -- For each dimension, the two shares of the value.
  abbrev pub AreShares : List Block → List Block → List Block → Type 0
  AreShares [] [] [] = Unit
  AreShares (v ∷ values) (s ∷ shares) (p ∷ others) = (xor s p ≡ v) × AreShares values shares others
  AreShares _ _ _ = ⊥

  sum_from-acc : (acc : Block) (xs : List Block) → sum_from F acc xs ≡ xor acc (total F xs)
  unfolding sum_from
  sum_from-acc acc [] = sym (xor-zero acc)
  sum_from-acc acc (x ∷ xs) = sum_from-acc (xor acc x) xs ∙ xor_assoc acc x (total F xs)

  sum_point_shares-total : (xs : List Block) → sum_point_shares xs ≡ total F xs
  unfolding sum_point_shares
  sum_point_shares-total xs = sum_from-acc zero_block xs ∙ zero-xor F (total F xs)

  shuffle : (s p a b : Block) → xor (xor s a) (xor p b) ≡ xor (xor s p) (xor a b)
  shuffle s p a b = simp (xor_assoc, xor_left_comm F) refl

  total-AreShares :
      (values shares others : List Block)
      → AreShares values shares others
      → xor (total F shares) (total F others) ≡ total F values
  total-AreShares [] [] [] h = xor-zero zero_block
  total-AreShares (v ∷ values) (s ∷ shares) (p ∷ others) h =
      shuffle s p (total F shares) (total F others)
      ∙ ap₂ xor h.0 (total-AreShares values shares others h.1)
  total-AreShares [] [] (p ∷ others) h = absurd h
  total-AreShares [] (s ∷ shares) others h = absurd h
  total-AreShares (v ∷ values) [] others h = absurd h
  total-AreShares (v ∷ values) (s ∷ shares) [] h = absurd h

  unmasked :
      (d e m1 h1 o1 m2 h2 o2 r p id : Block)
      → mul d m1 ≡ xor h1 o1
      → mul e m2 ≡ xor h2 o2
      → xor (xor (mul e (xor (xor m2 (xor (mul d (xor (xor (xor m1 r) p) id)) o1)) h1)) o2) h2
        ≡ mul e (mul d (xor (xor r p) id))
  unmasked d e m1 h1 o1 m2 h2 o2 r p id a b =
      simp (mul-xor, a, b, xor_assoc, xor_comm, xor_left_comm F, xor_cancel F) refl

  -- With valid VOLE triples, and shares of the values of the point's blocks, the identifier is the
  -- product of both parties' scalars and the sum of those values and the party's own identifier.
  pub map_point-total :
      (vole_delta other_delta : Block) (first second : Vole Block)
      (values receiver_shares programmer_shares : List Block) (id : Block)
      → IsShared vole_delta first
      → IsShared other_delta second
      → AreShares values receiver_shares programmer_shares
      → map_point vole_delta other_delta first second receiver_shares programmer_shares id
        ≡ mul other_delta (mul vole_delta (xor (total F values) id))
  unfolding map_point masked_shares sender_terms scaled_terms
  map_point-total d e first second values shares others id a b h =
      ap₂
        (λ r p.
          xor
            (xor
              (mul e (
                xor
                  (xor second.mask
                    (xor (mul d (xor (xor (xor first.mask r) p) id)) first.other_share))
                  first.holder_share))
              second.other_share)
            second.holder_share)
        (sum_point_shares-total shares) (sum_point_shares-total others)
      ∙ unmasked d e first.mask first.holder_share first.other_share second.mask second.holder_share
          second.other_share (total F shares) (total F others) id a b
      ∙ ap (λ t. mul e (mul d (xor t id))) (total-AreShares values shares others h)
