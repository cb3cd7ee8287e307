-- ===== src/Tests/Shares.antt =====
-- `fpsi/pis_new` on two words, with triples that are all zero but for one.
use opprf_fpsi.Equality.Pis.{row_number, compute_split_index, split_lists, split_index}
use opprf_fpsi.Equality.Pis.Find.{find_index, find_index-found, find_index-random}
use opprf_fpsi.Prelude.{
  ok, take, length-replicate, ℕ, ◌≡◌, refl, ap, zero, suc, Bool, true, false, List, [], ◌∷◌, some,
  arith, length, replicate,
}
use opprf_fpsi.Equality.Triples.{Triple, OtSender, OtReceiver}
use opprf_fpsi.Equality.Round.{Row}
use opprf_fpsi.Equality.Round.Step.{Products, xor_row}
use opprf_fpsi.Equality.Round.Rows.{opened}
use opprf_fpsi.Equality.Run.{eq}
use opprf_fpsi.Equality.Run.Laws.{all_each, IsShared, eq-shares}
use opprf_fpsi.Equality.Peqt.{batch_psm}
use opprf_fpsi.Equality.Peqt.Psm.{matches, batch_psm-matches}

abbrev sent : OtSender
sent = record { m0 = true; m1 = false }

abbrev received : OtReceiver
received = record { choice = true; message = false }

abbrev ours : Triple
ours = record { a = true; b = true; c = false }

abbrev theirs : Triple
theirs = record { a = false; b = true; c = false }

products : (n : ℕ) → Products (replicate n ours) (replicate n theirs)
products zero = tt
products (suc n) = (refl, products n)

counted : (n : ℕ) → length (replicate n ours) ≡ n
counted zero = refl
counted (suc n) = ap suc (counted n)

abbrev row0 : Row
row0 = true ∷ false ∷ true ∷ []

abbrev row1 : Row
row1 = false ∷ true ∷ false ∷ []

eq-shares_example :
    (out : List Bool × List Bool) × (eq 2
        (row0 ∷ [])
        (row1 ∷ [])
        (replicate 2 ours)
        (replicate 2 theirs)
      ≡ some out)
    × IsShared out (all_each (opened (row0 ∷ []) (row1 ∷ [])))
eq-shares_example =
    eq-shares 2 3 (row0 ∷ []) (row1 ∷ []) (replicate 2 ours) (replicate 2 theirs) (omega arith)
      (omega arith) (refl, refl, tt) (products 2) (omega arith)

batch_psm-matches_example :
    (out : List Bool × List Bool) × (batch_psm 6
        (7 ∷ 9 ∷ [])
        (9 ∷ [])
        2
        (replicate 128 ours)
        (replicate 128 theirs)
      ≡ some out)
    × (xor_row out.0 out.1 ≡ matches 2 (7 ∷ 9 ∷ []) (9 ∷ []))
batch_psm-matches_example =
    batch_psm-matches 6 2 (7 ∷ 9 ∷ []) (9 ∷ []) (replicate 128 ours) (replicate 128 theirs)
      (omega arith) (omega arith) refl (omega arith, (omega arith, tt)) (omega arith, tt)
      (products 128) (counted 128)

zeros_row : (n : ℕ) → length (replicate n false) ≡ n
zeros_row n = length-replicate n false

find_index-found_example :
    find_index 6 1
      (7 ∷ 9 ∷ [])
      9
      (replicate 128 ours)
      (replicate 128 theirs)
      (replicate 128 false)
      (replicate 128 false, replicate 128 false)
    ≡ some (ok 1)
find_index-found_example =
    find_index-found 6 0 9 (replicate 128 ours) (replicate 128 theirs) (replicate 128 false)
      (replicate 128 false) (replicate 128 false) (omega arith) (omega arith) (omega arith)
      (products 128) (counted 128) (zeros_row 128) (zeros_row 128) (zeros_row 128) (7 ∷ []) [] refl
      (omega arith, (omega arith, tt)) (refl, tt) tt

find_index-random_example :
    find_index 6 1
      (7 ∷ 9 ∷ [])
      5
      (replicate 128 ours)
      (replicate 128 theirs)
      (replicate 128 false)
      (replicate 128 false, replicate 128 false)
    ≡ some (ok (row_number (take 1 (replicate 128 false))))
find_index-random_example =
    find_index-random 6 0 5 (replicate 128 ours) (replicate 128 theirs) (replicate 128 false)
      (replicate 128 false) (replicate 128 false) (omega arith) (omega arith) (omega arith)
      (products 128) (counted 128) (zeros_row 128) (zeros_row 128) (zeros_row 128) (7 ∷ 9 ∷ []) refl
      (omega arith, (omega arith, tt)) (refl, (refl, tt))

-- The lists of the source's comment, for 8 elements.
split_8 :
    compute_split_index 3 ≡ (1 ∷ 3 ∷ 5 ∷ 7 ∷ []) ∷ (2 ∷ 3 ∷ 6 ∷ 7 ∷ []) ∷ (4 ∷ 5 ∷ 6 ∷ 7 ∷ []) ∷ []
unfolding compute_split_index split_lists split_index
split_8 = refl
