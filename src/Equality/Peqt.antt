-- ===== src/Equality/Peqt.antt =====
-- `fpsi/pis_new/batch_peqt.h` and `batch_psm.cpp`: shares of the equality of words, and of the
-- membership of a word in a batch. The triples of `gen0` and `gen1` are arguments.
pub mod Laws
pub mod Psm
use opprf_fpsi.Prelude.{
  ℕ, zero, suc, ◌*◌, ◌/◌, ◌%◌, Bool, true, false, not, ◌⊕◌, ◌==◌, ◌++◌, List, [], ◌∷◌, Option, none,
  some, take, drop, replicate, length,
}
use opprf_fpsi.Equality.Triples.{Triple}
use opprf_fpsi.Equality.Round.{Row, ◌>>=◌}
use opprf_fpsi.Equality.Run.{eq}

-- A word of `w` bits as `BitVector` holds it: the least significant bit first.
unfoldable pub word_bits : ℕ → ℕ → Row
word_bits zero x = []
word_bits (suc w) x = (x % 2 == 1) ∷ word_bits w (x / 2)

-- `~input_bits`.
unfoldable pub negated : Row → Row
negated [] = []
negated (b ∷ r) = not b ∷ negated r

unfoldable pub input_rows : ℕ → List ℕ → List Row
input_rows w [] = []
input_rows w (x ∷ eles) = word_bits w x ∷ input_rows w eles

unfoldable pub negated_rows : ℕ → List ℕ → List Row
negated_rows w [] = []
negated_rows w (y ∷ datas) = negated (word_bits w y) ∷ negated_rows w datas

-- `Batch_PEQT_recv` and `Batch_PEQT_send`, with `w = sizeof(T) * 8`.
unfoldable pub batch_peqt :
    ℕ → ℕ → List ℕ → List ℕ → List Triple → List Triple → Option (List Bool × List Bool)
batch_peqt k w eles datas ts0 ts1 = eq k (input_rows w eles) (negated_rows w datas) ts0 ts1

-- The inner loop over `j`: the sum of the bits.
unfoldable pub sum_bits : List Bool → Bool
sum_bits [] = false
sum_bits (b ∷ bs) = b ⊕ sum_bits bs

-- The loop over `i`: a bit for each of the batches.
unfoldable pub sum_batches : ℕ → ℕ → List Bool → List Bool
sum_batches batch_size zero bs = []
sum_batches batch_size (suc left) bs =
    sum_bits (take batch_size bs) ∷ sum_batches batch_size left (drop batch_size bs)

-- `datas_copy`.
unfoldable pub spread : ℕ → List ℕ → List ℕ
spread batch_size [] = []
spread batch_size (d ∷ datas) = replicate batch_size d ++ spread batch_size datas

-- `Batch_PSM_recv` and `Batch_PSM_send`, with words of 64 bits.
unfoldable pub batch_psm :
    ℕ → List ℕ → List ℕ → ℕ → List Triple → List Triple → Option (List Bool × List Bool)
batch_psm k eles datas batch_size ts0 ts1 = do
  (res0, res1) ← batch_peqt k 64 eles (spread batch_size datas) ts0 ts1
  some (
    sum_batches batch_size (length eles / batch_size) res0,
    sum_batches batch_size (length datas) res1,
  )
