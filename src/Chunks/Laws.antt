-- ===== src/Chunks/Laws.antt =====
-- Round trips of `fpsi/utils/commu_util.cpp`.
use native.Mathlib.Nat.{suc-mul, div-add-mod', mul-div_cancel, mul-mod_left}
use opprf_fpsi.Prelude.{
  ℕ, zero, suc, ◌+◌, ◌*◌, ◌/◌, ◌%◌, ◌≤◌, ◌≡◌, refl, sym, ap, ap₂, ◌∙◌, true, false, inl, inr, ◌==◌,
  ◌++◌, List, [], ◌∷◌, length, take, drop, All, arith, length-append, length-take, length-drop,
  take-append-drop, Bool-cases, ok,
}
use opprf_fpsi.Chunks.{
  flatten_blocks, pieces, chunk_fixed_size_blocks, send_chunk, recv_one, recv_pieces, recv_chunk,
}

module _ {ℓ} {A : Type ℓ} where
  take-append : (xs ys : List A) → take (length xs) (xs ++ ys) ≡ xs
  take-append [] ys = refl
  take-append (x ∷ xs) ys = ap (λ t. x ∷ t) (take-append xs ys)

  drop-append : (xs ys : List A) → drop (length xs) (xs ++ ys) ≡ ys
  drop-append [] ys = refl
  drop-append (x ∷ xs) ys = drop-append xs ys

  length-flatten_blocks :
      (size : ℕ) (xss : List (List A))
      → All (λ xs. length xs ≡ size) xss
      → length (flatten_blocks xss) ≡ length xss * size
  unfolding flatten_blocks
  length-flatten_blocks size [] h = omega arith
  length-flatten_blocks size (xs ∷ xss) h =
      length-append xs (flatten_blocks xss)
      ∙ omega (arith, h.0, length-flatten_blocks size xss h.1, suc-mul (length xss) size)

  pieces-flatten_blocks :
      (size : ℕ) (xss : List (List A))
      → All (λ xs. length xs ≡ size) xss
      → pieces (length xss) size (flatten_blocks xss) ≡ xss
  unfolding pieces flatten_blocks
  pieces-flatten_blocks size [] h = refl
  pieces-flatten_blocks size (xs ∷ xss) h =
      ap₂ ◌∷◌
        (ap (λ n. take n (xs ++ flatten_blocks xss)) (sym h.0)
          ∙ take-append xs (flatten_blocks xss))
        (ap (pieces (length xss) size) (
            ap (λ n. drop n (xs ++ flatten_blocks xss)) (sym h.0)
            ∙ drop-append xs (flatten_blocks xss))
          ∙ pieces-flatten_blocks size xss h.1)

  -- Lists of one length that is not 0, in one piece, are cut into the same lists again.
  pub chunk_fixed_size_blocks-flatten_blocks :
      (size : ℕ) (xss : List (List A))
      → 1 ≤ size
      → All (λ xs. length xs ≡ size) xss
      → chunk_fixed_size_blocks (flatten_blocks xss) size ≡ ok xss
  unfolding chunk_fixed_size_blocks
  chunk_fixed_size_blocks-flatten_blocks size xss pos h =
      let total = length-flatten_blocks size xss h in
      let whole : (length xss * size) % size ≡ 0 = mul-mod_left (length xss) size in
      let count : length xss * size / size ≡ length xss = mul-div_cancel (length xss) pos in
      let nonzero : (size == 0) ≡ false = ground arith in
      rw (total, whole, count, nonzero) (ap ok (pieces-flatten_blocks size xss h))

  take-nil : (n : ℕ) → take {A = A} n [] ≡ []
  take-nil zero = refl
  take-nil (suc n) = refl

  take-split : (a b c : ℕ) (xs : List A) → a + b ≡ c → take a xs ++ take b (drop a xs) ≡ take c xs
  take-split zero b c xs e = ap (λ n. take n xs) (omega arith)
  take-split (suc a) b zero xs e = absurd (omega arith)
  take-split (suc a) b (suc c) [] e = take-nil b
  take-split (suc a) b (suc c) (x ∷ xs) e = ap (λ t. x ∷ t) (take-split a b c xs (omega arith))

  recv_one-ok :
      (size : ℕ) (m : List A) (ms : List (List A))
      → length m ≡ size
      → recv_one size (m ∷ ms) ≡ ok (m, ms)
  unfolding recv_one
  recv_one-ok size m ms h = let fits : (length m == size) ≡ true = ground arith in rw fits refl

  recv_pieces-pieces :
      (left size : ℕ) (blks : List A) (ms : List (List A))
      → left * size ≤ length blks
      → recv_pieces left size (pieces left size blks ++ ms) ≡ ok (take (left * size) blks, ms)
  unfolding recv_pieces pieces
  recv_pieces-pieces zero size blks ms h =
      let none_taken : zero * size ≡ 0 = omega arith in rw none_taken refl
  recv_pieces-pieces (suc left) size blks ms h =
      let more = suc-mul left size in
      let here =
        recv_one-ok size (take size blks) (pieces left size (drop size blks) ++ ms)
          (omega (arith, length-take size blks)) in
      let rest =
        recv_pieces-pieces left size (drop size blks) ms (omega (arith, length-drop size blks)) in
      rw (here, rest)
        (ap (λ t. ok (t, ms)) (take-split size (left * size) (suc left * size) blks (omega arith)))

  take-all : (xs : List A) (n : ℕ) → length xs ≤ n → take n xs ≡ xs
  take-all [] n h = take-nil n
  take-all (x ∷ xs) zero h = absurd (omega arith)
  take-all (x ∷ xs) (suc n) h = ap (λ t. x ∷ t) (take-all xs n (omega arith))

  append-nil : (xs : List A) → xs ++ [] ≡ xs
  append-nil [] = refl
  append-nil (x ∷ xs) = ap (λ t. x ∷ t) (append-nil xs)

  -- With messages of one size that is not 0, what is sent in pieces is received as it was, into a
  -- buffer of its length, and no message is left over.
  pub recv_chunk-send_chunk :
      (size : ℕ) (blks : List A)
      → 1 ≤ size
      → recv_chunk size (length blks) (send_chunk size blks) ≡ ok (blks, [])
  unfolding recv_chunk send_chunk
  recv_chunk-send_chunk size blks pos =
      let n = length blks / size in
      let split = div-add-mod' (length blks) size in
      elim (Bool-cases (length blks % size == 0)) [
        | inl e ↦
            let whole : length blks % size ≡ 0 = ground arith in
            let got = recv_pieces-pieces n size blks [] (omega arith) in
            rw (e, got) (ap (λ t. ok (t, [])) (take-all blks (n * size) (omega arith)))
        | inr e ↦
            let tail = drop (n * size) blks in
            let got = recv_pieces-pieces n size blks (tail ∷ []) (omega arith) in
            let last =
              recv_one-ok (length blks % size) tail []
                (omega (arith, length-drop (n * size) blks)) in
            rw (e, got, last) (ap (λ t. ok (t, [])) (take-append-drop (n * size) blks))
      ]
