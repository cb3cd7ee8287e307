-- ===== src/Equality/Run.antt =====
-- `eq0` and `eq1` of `fpsi/pis_new/equal.cpp`, run against each other: in each round the parties
-- exchange the vectors `xa` and `yb`. The number of rounds is `log2ceil(length)`, a function of
-- cryptoTools, and a parameter here. `n` is the number of rows.
pub mod Laws
use opprf_fpsi.Prelude.{
  ℕ, zero, suc, Bool, true, false, ◌++◌, List, [], ◌∷◌, Option, none, some, length, take,
}
use opprf_fpsi.Equality.Triples.{Triple}
use opprf_fpsi.Equality.Round.{Row, ◌>>=◌, mask_rows, join_rows}

-- The loop over `k`. `triples.move(-n * sendLength)` takes the cursor back to where the round
-- began.
unfoldable pub rounds :
    ℕ → List Row → List Row → List Triple → List Triple → Option (List Row × List Row)
rounds zero res0 res1 ts0 ts1 = some (res0, res1)
rounds (suc k) res0 res1 ts0 ts1 = do
  (ms0, _) ← mask_rows res0 ts0
  (ms1, _) ← mask_rows res1 ts1
  (next0, rest0) ← join_rows true res0 ms0 ms1 ts0
  (next1, rest1) ← join_rows false res1 ms0 ms1 ts1
  rounds k next0 next1 rest0 rest1

abbrev pub concat : List Row → Row
concat [] = []
concat (r ∷ rs) = r ++ concat rs

-- `res.resize(n)`.
unfoldable pub resize : ℕ → List Row → Row
resize n res = take n (concat res)

unfoldable pub eq :
    ℕ → List Row → List Row → List Triple → List Triple → Option (List Bool × List Bool)
eq k in0 in1 ts0 ts1 = do
  (res0, res1) ← rounds k in0 in1 ts0 ts1
  some (resize (length in0) res0, resize (length in1) res1)
