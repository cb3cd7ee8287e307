-- ===== src/Equality/Pis/Find.antt =====
-- `Batch_PIS_recv_new` and `Batch_PIS_send_new` for one batch, the tests for equality included.
use opprf_fpsi.Prelude.{
  ℕ, zero, suc, ◌*◌, ◌^◌, ◌≤◌, ◌<◌, ◌≡◌, refl, sym, ap, ◌∙◌, Bool, false, ◌⊕◌, ◌==◌, List, [], ◌∷◌,
  ◌++◌, Option, some, length, replicate, All, take, arith, Result, ok, length-append,
  length-replicate,
}
use opprf_fpsi.Equality.Triples.{Triple}
use opprf_fpsi.Equality.Round.{Row, ◌>>=◌}
use opprf_fpsi.Equality.Round.Step.{Products, xor_row}
use opprf_fpsi.Equality.Peqt.{spread, batch_peqt}
use opprf_fpsi.Equality.Peqt.Laws.{equal_each, batch_peqt-equal}
use opprf_fpsi.Equality.Pis.{batch_pis, row_number}
use opprf_fpsi.Equality.Pis.Outcome.{batch_pis-index, batch_pis-random}

-- The bit of a `BitVector` at an index.
unfoldable pub bit_at : List Bool → ℕ → Bool
bit_at [] i = false
bit_at (b ∷ bs) zero = b
bit_at (b ∷ bs) (suc i) = bit_at bs i

-- The words are of 64 bits; `rounds` is the number of rounds of `eq0` and `eq1`.
unfoldable pub find_index :
    ℕ → ℕ → List ℕ → ℕ → List Triple → List Triple → Row → Row × Row → Option (Result ℕ)
find_index rounds k eles d ts0 ts1 r ot = do
  (eq_res0, eq_res1) ← batch_peqt rounds 64 eles (spread (2 ^ k) (d ∷ [])) ts0 ts1
  some (batch_pis k (bit_at eq_res0) (bit_at eq_res1) r ot)

bit_at-xor_row :
    (a b : List Bool) (i : ℕ)
    → length a ≡ length b
    → bit_at a i ⊕ bit_at b i ≡ bit_at (xor_row a b) i
unfolding bit_at
bit_at-xor_row [] [] i e = refl
bit_at-xor_row [] (y ∷ b) i e = absurd (omega arith)
bit_at-xor_row (x ∷ a) [] i e = absurd (omega arith)
bit_at-xor_row (x ∷ a) (y ∷ b) zero e = refl
bit_at-xor_row (x ∷ a) (y ∷ b) (suc i) e = bit_at-xor_row a b i (omega arith)

-- No word of a list is the datum.
abbrev pub IsAway : ℕ → List ℕ → Type 0
IsAway d eles = All (λ x. (x == d) ≡ false) eles

away_bits :
    (d n i : ℕ) (eles : List ℕ)
    → IsAway d eles
    → bit_at (equal_each eles (replicate n d ++ [])) i ≡ false
unfolding bit_at
away_bits d n i [] h = refl
away_bits d zero i (x ∷ eles) h = refl
away_bits d (suc n) zero (x ∷ eles) h = h.0
away_bits d (suc n) (suc i) (x ∷ eles) h = away_bits d n i eles h.1

match_bits :
    (d n i : ℕ) (before after : List ℕ)
    → length before < n
    → IsAway d before
    → IsAway d after
    → bit_at (equal_each (before ++ (d ∷ after)) (replicate n d ++ [])) i ≡ (i == length before)
unfolding bit_at
match_bits d zero i before after low h g = absurd (omega arith)
match_bits d (suc n) zero [] after low h g = ground arith
match_bits d (suc n) (suc i) [] after low h g = away_bits d n i after g ∙ ground arith
match_bits d (suc n) zero (x ∷ before) after low h g = h.0 ∙ ground arith
match_bits d (suc n) (suc i) (x ∷ before) after low h g =
    match_bits d n i before after (omega arith) h.1 g ∙ ground arith

module _ (rounds k : ℕ) (d : ℕ) (ts0 ts1 : List Triple) (r m0 m1 : Row) (enough : 64 ≤ 2 ^ rounds)
    (small : suc k ≤ 31) (word : d < 2 ^ 64) (valid : Products ts0 ts1)
    (count : length ts0 ≡ 2 ^ suc k * 64) (random_block : length r ≡ 128)
    (message0 : length m0 ≡ 128) (message1 : length m1 ≡ 128) where
  -- What step 1 ends in.
  abbrev Tested : List ℕ → List Bool × List Bool → Type 0
  Tested eles (b0, b1) =
      (batch_peqt rounds 64 eles (spread (2 ^ suc k) (d ∷ [])) ts0 ts1 ≡ some (b0, b1))
      × ((i : ℕ)
          → bit_at b0 i ⊕ bit_at b1 i ≡ bit_at (equal_each eles (replicate (2 ^ suc k) d ++ [])) i)

  datum_words : (P : ℕ → Type 0) (n : ℕ) → P d → All P (replicate n d ++ [])
  datum_words P zero h = tt
  datum_words P (suc n) h = (h, datum_words P n h)

  tested :
      (eles : List ℕ)
      → length eles ≡ 2 ^ suc k
      → All (λ x. x < 2 ^ 64) eles
      → (out : List Bool × List Bool) × Tested eles out
  unfolding spread
  tested eles size words =
      let ((b0, b1), run, (same, shares)) =
        batch_peqt-equal rounds 64 eles (spread (2 ^ suc k) (d ∷ [])) ts0 ts1 (omega arith) enough
          (size
            ∙ sym (
                length-append (replicate (2 ^ suc k) d) []
                ∙ omega (arith, length-replicate (2 ^ suc k) d)))
          words (datum_words (λ y. y < 2 ^ 64) (2 ^ suc k) word) valid
          (count ∙ ap (λ n. n * 64) (sym size)) in
      ((b0, b1), (run, λ i. bit_at-xor_row b0 b1 i same ∙ ap (λ bs. bit_at bs i) shares))

  -- On a batch of 2 to 2^31 words of 64 bits, with 64 valid triples for each word, rounds for 64
  -- bits and blocks of 128 bits: if the datum is one word of the batch and no other is equal to it,
  -- the receiver gets the index of that word.
  pub find_index-found :
      (before after : List ℕ)
      → length (before ++ (d ∷ after)) ≡ 2 ^ suc k
      → All (λ x. x < 2 ^ 64) (before ++ (d ∷ after))
      → IsAway d before
      → IsAway d after
      → find_index rounds (suc k) (before ++ (d ∷ after)) d ts0 ts1 r (m0, m1)
        ≡ some (ok (length before))
  unfolding find_index
  find_index-found before after size words left right =
      let ((b0, b1), (run, bits)) = tested (before ++ (d ∷ after)) size words in
      let low : length before < 2 ^ suc k = omega (arith, length-append before (d ∷ after), size) in
      rw run (
        ap some (
          batch_pis-index k (bit_at b0) (bit_at b1) r m0 m1 small random_block message0 message1
            (length before) low
            λ i inside. bits i ∙ match_bits d (2 ^ suc k) i before after low left right))

  -- Under the same conditions, if no word of the batch is the datum, the receiver gets the first
  -- bits of the sender's random block.
  pub find_index-random :
      (eles : List ℕ)
      → length eles ≡ 2 ^ suc k
      → All (λ x. x < 2 ^ 64) eles
      → IsAway d eles
      → find_index rounds (suc k) eles d ts0 ts1 r (m0, m1)
        ≡ some (ok (row_number (take (suc k) r)))
  unfolding find_index
  find_index-random eles size words away =
      let ((b0, b1), (run, bits)) = tested eles size words in
      rw run (
        ap some (
          batch_pis-random k (bit_at b0) (bit_at b1) r m0 m1 small random_block message0 message1
            λ i inside. bits i ∙ away_bits d (2 ^ suc k) i eles away))
