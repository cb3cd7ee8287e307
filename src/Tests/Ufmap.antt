-- ===== src/Tests/Ufmap.antt =====
-- The unbalanced fuzzy mapping on small inputs, with one bit for each half of a block.
use opprf_fpsi.Prelude.{
  ℕ, zero, suc, ◌+◌, ◌*◌, ◌<◌, ◌≡◌, ◌⊎◌, inl, inr, refl, sym, ap, ap₂, ◌∙◌, Bool, true, false, ◌⊕◌,
  ◌&&◌, not, List, [], ◌∷◌, In, length, arith, Bool-cases, if◌then◌else◌, flat_range,
}
use opprf_fpsi.Mapping.Field.{Field, total}
use opprf_fpsi.Mapping.Exchange.{Vole}
use opprf_fpsi.Protocol.Rounds.Laws.{IsProgrammable}
use opprf_fpsi.Grid.Cells.{diff}
use opprf_fpsi.Ufmap.{
  Halves, canonical_block_4_delta, candidate_blocks, cell2_delta, recover_receiver_shares,
  query_keys, program_bopprf, program_entry, apply_alignment, make_alignment,
}
use opprf_fpsi.Ufmap.Blocks.{canonical-candidate, candidate-diff}
use opprf_fpsi.Ufmap.Recover.{recover_receiver_shares-program_bopprf}
use opprf_fpsi.Ufmap.Exchange.{map_point, map_point-total}
use opprf_fpsi.Ufmap.Ids.{label_all, encoded, length-encoded}
use opprf_fpsi.Tests.Mapping.{bits}

canonical-candidate_example :
    (canonical_block_4_delta 37 10 ≡ (candidate_blocks 45 10).0)
    ⊎ (canonical_block_4_delta 37 10 ≡ (candidate_blocks 45 10).1)
canonical-candidate_example =
    canonical-candidate 10 45 37 (omega arith) (omega arith) (omega arith) (omega arith)
      (omega arith)

candidate-diff_example : diff 45 37 < 4 * 10
unfolding canonical_block_4_delta candidate_blocks cell2_delta
candidate-diff_example = candidate-diff 10 45 37 (omega arith) (omega arith) (inr refl)

abbrev Pair : Type 0
Pair = Bool × Bool

abbrev both : (Bool → Bool → Bool) → Pair → Pair → Pair
both f a b = (f a.0 b.0, f a.1 b.1)

abbrev halves_eq : (a b c d : Bool) → a ≡ b → c ≡ d → ◌≡◌ {A = Pair} (a, c) (b, d)
halves_eq a b c d e f = ap₂ (λ x y. (x, y)) e f

unfoldable pairs : Field Pair
pairs = record {
  zero_block = (bits.zero_block, bits.zero_block);
  xor = both bits.xor;
  mul = both bits.mul;
  xor_comm = λ a b. halves_eq _ _ _ _ (bits.xor_comm a.0 b.0) (bits.xor_comm a.1 b.1);
  xor_assoc = λ a b c. halves_eq _ _ _ _ (bits.xor_assoc a.0 b.0 c.0) (bits.xor_assoc a.1 b.1 c.1);
  xor-zero = λ a. halves_eq _ _ _ _ (bits.xor-zero a.0) (bits.xor-zero a.1);
  xor_self = λ a. halves_eq _ _ _ _ (bits.xor_self a.0) (bits.xor_self a.1);
  mul_comm = λ a b. halves_eq _ _ _ _ (bits.mul_comm a.0 b.0) (bits.mul_comm a.1 b.1);
  mul_assoc = λ a b c. halves_eq _ _ _ _ (bits.mul_assoc a.0 b.0 c.0) (bits.mul_assoc a.1 b.1 c.1);
  mul-xor = λ a b c. halves_eq _ _ _ _ (bits.mul-xor a.0 b.0 c.0) (bits.mul-xor a.1 b.1 c.1);
}

halves : Halves pairs Bool
unfolding pairs bits
halves = record {
  low64 = λ a. a.1;
  high64 = λ a. a.0;
  from_low64 = λ w. (false, w);
  xor64 = ◌⊕◌;
  zero64 = false;
  zero-xor64 = λ a. refl;
  low64-xor = λ a b. refl;
  high64-xor = λ a b. refl;
  low64-from_low64 = λ a. refl;
  high64-from_low64 = λ a. refl;
  from_low64-xor64 = λ a b. refl;
}

abbrev same_pair : Pair → Pair → Bool
same_pair a b = not (a.0 ⊕ b.0) && not (a.1 ⊕ b.1)

-- The value of the first entry for the key.
abbrev look : List (Pair × Pair) → Pair → Pair
look [] q = q
look ((p, v) ∷ es) q = if same_pair p q then v else look es q

bits_eq : (a b : Bool) → not (a ⊕ b) ≡ true → a ≡ b
bits_eq a b h = ground (arith, h)

same_pair-eq : (p q : Pair) → same_pair p q ≡ true → p ≡ q
same_pair-eq (a, b) (c, d) h =
    halves_eq a c b d (bits_eq a c (ground (arith, h))) (bits_eq b d (ground (arith, h)))

same_pair_refl : (p : Pair) → same_pair p p ≡ true
same_pair_refl (a, b) = ground arith

contradiction : (b : Bool) → b ≡ false → b ≡ true → ⊥
contradiction b e d = cc

look-cases :
    (es : List (Pair × Pair)) (q : Pair)
    → ((v : Pair) × In (q, v) es × (look es q ≡ v)) ⊎ ((v : Pair) → In (q, v) es → ⊥)
look-cases [] q = inr (λ v m. m)
look-cases ((p, v) ∷ es) q = elim (Bool-cases (same_pair p q)) [
  | inl e ↦
      let here = same_pair-eq p q e in
      inl (v, inl (ap (λ (t : Pair). (t, v)) (sym here)), rw e refl)
  | inr e ↦ elim (look-cases es q) [
    | inl (w, m, found) ↦ inl (w, inr m, rw e found)
    | inr absent ↦ inr (absent_here p v es q e absent)
  ]
]
  where
    absent_here :
        (p v : Pair) (es : List (Pair × Pair)) (q : Pair)
        → same_pair p q ≡ false
        → ((v : Pair) → In (q, v) es → ⊥)
        → (w : Pair) → In (q, w) ((p, v) ∷ es)
        → ⊥
    absent_here p v es q e absent w (inl d) =
        let same_key : q ≡ p = ap (λ (t : Pair × Pair). t.0) d in
        let equal = ap (λ t. same_pair p t) same_key ∙ same_pair_refl p in
        absurd (contradiction (same_pair p q) e equal)
    absent_here p v es q e absent w (inr m) = absent w m

look-IsProgrammable : IsProgrammable look
look-IsProgrammable es q v m unique = elim (look-cases es q) [
  | inl (w, n, found) ↦ found ∙ unique w n
  | inr absent ↦ absurd (absent v m)
]

abbrev key_shares : ℕ → Pair
key_shares i = (true, false)

abbrev query_shares : ℕ → Pair
query_shares i = (false, true)

abbrev prf : ℕ → ℕ → Pair
prf q sigma = (true, true)

-- The first candidate is encoded with the value 1; the second is not, and decodes to something
-- else.
abbrev decoded : ℕ → ℕ → Pair
decoded q zero = (true, false)
decoded q (suc sigma) = (false, false)

abbrev bopprf : List (Pair × Pair)
bopprf =
    program_bopprf pairs halves decoded
      (apply_alignment pairs halves query_shares (make_alignment pairs halves key_shares))
      (λ q. (false, true)) 1

bopprf-eq : bopprf ≡ ((false, true), (false, false)) ∷ ((false, false), (false, false)) ∷ []
unfolding program_bopprf program_entry apply_alignment make_alignment flat_range pairs bits halves
bopprf-eq = refl

-- The query's key has one value.
single_0 : (a : Pair) → In ((false, true), a) bopprf → a ≡ (false, false)
single_0 a m = elim (rw bopprf-eq at m) [
  | inl e ↦ ap (λ (t : Pair × Pair). t.1) e
  | inr (inl e) ↦
      let differ = ap (λ (t : Pair × Pair). t.0.1) e in absurd (contradiction true (differ) refl)
  | inr (inr other) ↦ absurd other
]

recover_receiver_shares-program_bopprf_example :
    pairs.xor
      (recover_receiver_shares pairs halves
        (λ i. look bopprf (query_keys pairs halves key_shares i))
        key_shares
        0)
      (false, true)
    ≡ (false, true)
unfolding pairs bits halves query_keys
recover_receiver_shares-program_bopprf_example =
    recover_receiver_shares-program_bopprf pairs halves look look-IsProgrammable key_shares
      query_shares prf decoded (λ q. (false, true)) 1 0 0 (false, true) true true (refl, refl)
      (inl refl) (omega arith) refl refl refl (λ a b m n. single_0 a m ∙ sym (single_0 b n))

abbrev shared : Vole Bool
shared = record { mask = true; holder_share = true; other_share = false }

map_point-total_example :
    map_point bits true true shared shared (true ∷ false ∷ []) (true ∷ true ∷ []) true
    ≡ bits.mul true (bits.mul true (bits.xor (total bits (false ∷ true ∷ [])) true))
unfolding bits
map_point-total_example =
    map_point-total bits true true shared shared (false ∷ true ∷ []) (true ∷ false ∷ [])
      (true ∷ true ∷ []) true refl refl (refl, (refl, tt))

length-encoded_example :
    length (
      encoded bits
        (λ label. true)
        (λ n. (100 + n, true))
        (label_all (λ n. false) 10 (37 ∷ 31 ∷ []) []).1
        2)
    ≡ 2
length-encoded_example =
    length-encoded bits (λ n. false) (λ label. true) (λ n. (100 + n, true)) 10 (37 ∷ 31 ∷ [])
