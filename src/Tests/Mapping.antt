-- ===== src/Tests/Mapping.antt =====
-- The fuzzy mapping of `fpsi/cmp_fmap` on small inputs; a block of one bit stands for the field.
use opprf_fpsi.Prelude.{
  ℕ, ◌+◌, ◌≡◌, ◌≢◌, refl, Bool, true, false, ◌&&◌, ◌⊕◌, List, [], ◌∷◌, some, arith, get_elem?,
}
use opprf_fpsi.Mapping.Field.{Field}
use opprf_fpsi.Mapping.Exchange.{Vole, exchange_id}
use opprf_fpsi.Mapping.Exchange.Laws.{exchange_id-agree}
use opprf_fpsi.Mapping.Assign.{
  Map, find, assign, insert, low_minus_one, low_plus_one, compute_cell, compute_block, block_before,
  relabel, claim, draws, claim_all,
}
use opprf_fpsi.Mapping.Assign.Agree.{joins, some_join, Agree, claim_all-Agree}
use opprf_fpsi.Mapping.Assign.Near.{cells_of, claim_all-near}
use opprf_fpsi.Mapping.Assign.Joins.{claim-joins}

unfoldable pub bits : Field Bool
bits = record {
  zero_block = false;
  xor = ◌⊕◌;
  mul = ◌&&◌;
  xor_comm = λ a b. ground arith;
  xor_assoc = λ a b c. ground arith;
  xor-zero = λ a. ground arith;
  xor_self = λ a. ground arith;
  mul_comm = λ a b. ground arith;
  mul_assoc = λ a b c. ground arith;
  mul-xor = λ a b c. ground arith;
}

abbrev vole : Vole Bool
vole = record { mask = true; holder_share = true; other_share = false }

exchange_id-agree_example :
    exchange_id bits true true vole vole true (false ∷ []) (true ∷ []) (false ∷ [])
    ≡ exchange_id bits true true vole vole true (true ∷ []) (true ∷ []) (true ∷ [])
unfolding bits
exchange_id-agree_example =
    exchange_id-agree bits true true true true vole vole vole vole (true ∷ []) (false ∷ [])
      (true ∷ []) (false ∷ []) (true ∷ []) (true ∷ []) (true ∷ []) (true ∷ []) refl refl refl refl
      (refl, tt) (refl, tt) refl refl

abbrev joined : Map
joined = (4, 10) ∷ (5, 10) ∷ (7, 11) ∷ (6, 11) ∷ []

claim-joins_example : find 6 (claim 5 6 12 joined).1 ≢ some 11
unfolding joins find
claim-joins_example = claim-joins 5 6 12 11 joined refl refl

abbrev apart : List ℕ
apart = 5 ∷ 6 ∷ 9 ∷ []

apart_free : some_join (λ n. n + 100) 0 apart [] ≡ false
unfolding some_join joins find draws claim insert block_before low_minus_one relabel
apart_free = refl

claim_all-Agree_example :
    Agree apart (claim_all (λ n. n + 100) 0 apart []).0 (claim_all (λ n. n + 100) 0 apart []).1
claim_all-Agree_example = claim_all-Agree (λ n. n + 100) 0 apart [] apart_free

abbrev coordinates : List ℕ
coordinates = 105 ∷ 130 ∷ 185 ∷ []

coordinates_free : some_join (λ n. n + 100) 0 (cells_of 10 coordinates) [] ≡ false
unfolding some_join joins find draws claim insert block_before low_minus_one relabel cells_of
    compute_cell
coordinates_free = refl

first_value : get_elem? (claim_all (λ n. n + 100) 0 (cells_of 10 coordinates) []).0 0 ≡ some 100
unfolding find draws claim insert block_before low_minus_one relabel cells_of compute_cell claim_all
first_value = refl

claim_all-near_example :
    find (compute_block 10 98) (claim_all (λ n. n + 100) 0 (cells_of 10 coordinates) []).1
    ≡ some 100
claim_all-near_example =
    claim_all-near (λ n. n + 100) 10 98 105 100 0 coordinates coordinates_free (omega arith)
      (omega arith) (omega arith) (omega arith) refl first_value

-- The fourth point joins the runs of the first and of the others; the second and the third point
-- keep 101, and the map has 100 at their cells.
stale : (claim_all (λ n. n + 100) 0 (5 ∷ 8 ∷ 7 ∷ 6 ∷ []) []).0 ≡ (100 ∷ 101 ∷ 101 ∷ 100 ∷ [])
unfolding find draws claim insert block_before low_minus_one relabel claim_all low_plus_one assign
stale = refl

stale_map : find 8 (claim_all (λ n. n + 100) 0 (5 ∷ 8 ∷ 7 ∷ 6 ∷ []) []).1 ≡ some 100
unfolding find draws claim insert block_before low_minus_one relabel claim_all low_plus_one assign
stale_map = refl
