-- ===== src/Okvs/Threads.antt =====
-- `RBOKVS::decode` on many keys: `numThreads` threads, each with its range of the keys.
use opprf_fpsi.Prelude.{
  ℕ, zero, suc, ◌+◌, ◌-◌, ◌*◌, ◌/◌, ◌≤◌, ◌<◌, ◌≡◌, refl, sym, ap, ap₂, ◌∙◌, true, false, List, [],
  ◌∷◌, ◌++◌, arith, max, ◌==◌, if◌then◌else◌, Result, ok, err, ◌>>=◌, collect,
}
use mathlib.Core.Path.{subst}
use mathlib.Core.List.{append_assoc}
use native.Mathlib.Nat.{div-mul-le_self, mul-le-mul_right, suc-mul, le_trans, mul_comm, zero-mul}
use opprf_fpsi.Okvs.{Rbokvs}
use opprf_fpsi.Okvs.Values.{Values}
use opprf_fpsi.Okvs.Hash.{Byte}
use opprf_fpsi.Okvs.Solve.{decode}

module _ {Block Value : Type 0} (V : Values Value) (blake3 : Block → Block → ℕ → List Byte)
    (o : Rbokvs Block) (code_words : ℕ → Value) (keys : ℕ → Block) where
  -- `output[j]`, as what is written at `j`.
  unfoldable pub decode_at : ℕ → Result (List (ℕ × Value))
  decode_at j = do v ← decode V o blake3 code_words (keys j); ok ((j, v) ∷ [])

  unfoldable pub thread_end : ℕ → ℕ → ℕ → ℕ
  thread_end size num_threads i =
      if i == num_threads - 1 then size else i * (size / num_threads) + size / num_threads

  -- The writes of the thread `i`.
  unfoldable pub decode_thread : ℕ → ℕ → ℕ → Result (List (ℕ × Value))
  decode_thread size num_threads i =
      let start = i * (size / num_threads) in
      collect decode_at start (thread_end size num_threads i - start)

  -- The writes of the threads, one after the other.
  unfoldable pub decode_all : ℕ → ℕ → Result (List (ℕ × Value))
  decode_all size threads =
      let num_threads = max 1 threads in collect (decode_thread size num_threads) 0 num_threads

  thread_inner : (size n j : ℕ) → j < n - 1 → thread_end size n j ≡ j * (size / n) + size / n
  unfolding thread_end
  thread_inner size n j low = let off : (j == n - 1) ≡ false = ground arith in rw off refl

  thread_last : (size n j : ℕ) → j ≡ n - 1 → thread_end size n j ≡ size
  unfolding thread_end
  thread_last size n j at = let on : (j == n - 1) ≡ true = ground arith in rw on refl

less_fits : (size n j : ℕ) → j ≤ n → j * (size / n) ≤ size
less_fits size n j low =
    le_trans (mul-le-mul_right (size / n) low)
      (subst (λ m. m ≤ size) (mul_comm (size / n) n) (div-mul-le_self size n))

module _ {A : Type 0} (f : ℕ → Result (List A)) where
  bind_append : (r s : Result (List A)) → Result (List A)
  bind_append r s = r >>= λ xs. s >>= λ ys. ok (xs ++ ys)

  bind_assoc :
      (x : List A) (r s : Result (List A))
      → bind_append (r >>= λ xs. ok (x ++ xs)) s ≡ (bind_append r s >>= λ xs. ok (x ++ xs))
  unfolding bind_append
  bind_assoc x (ok a) (ok b) = ap ok (append_assoc x a b)
  bind_assoc x (ok a) (err e) = refl
  bind_assoc x (err e) s = refl

  collect-split :
      (s a b n t : ℕ)
      → s + a ≡ t
      → a + b ≡ n
      → collect f s n ≡ bind_append (collect f s a) (collect f t b)
  unfolding bind_append collect
  collect-split s zero b n t e g =
      let at : s ≡ t = omega arith in
      let size : b ≡ n = omega arith in rw (at, size) (right_unit (collect f t n))
    where
      right_unit : (r : Result (List A)) → r ≡ (r >>= λ ys. ok ys)
      right_unit (ok a) = refl
      right_unit (err e) = refl
  collect-split s (suc a) b zero t e g = absurd (omega arith)
  collect-split s (suc a) b (suc n) t e g =
      step (f s) (collect-split (suc s) a b n t (omega arith) (omega arith))
    where
      step :
          (r : Result (List A))
          → collect f (suc s) n ≡ bind_append (collect f (suc s) a) (collect f t b)
          → (r >>= λ xs. collect f (suc s) n >>= λ rest. ok (xs ++ rest))
            ≡ bind_append
                (r >>= λ xs. collect f (suc s) a >>= λ rest. ok (xs ++ rest))
                (collect f t b)
      step (ok x) h = rw h (sym (bind_assoc x (collect f (suc s) a) (collect f t b)))
      step (err e) h = refl

  -- Ranges that follow each other from `start i` on make up one range.
  pub collect_ranges :
      (end : ℕ → ℕ) (b size left i : ℕ)
      → ((j : ℕ) → j < i + left → end j ≡ j * b + b)
      → end (i + left) ≡ size
      → (i + left) * b ≤ size
      → collect (λ j. collect f (j * b) (end j - j * b)) i (suc left)
        ≡ collect f (i * b) (size - i * b)
  unfolding collect bind_append
  collect_ranges end b size zero i inner last low =
      let at : i + 0 ≡ i = omega arith in
      let final : end i ≡ size = ap end (sym at) ∙ last in
      rw final (unit (collect f (i * b) (size - i * b)))
    where
      unit : (r : Result (List A)) → (r >>= λ xs. ok (xs ++ [])) ≡ r
      unit (ok a) = ap ok (nil a)
        where
          nil : (xs : List A) → xs ++ [] ≡ xs
          nil [] = refl
          nil (x ∷ xs) = ap (λ t. x ∷ t) (nil xs)
      unit (err e) = refl
  collect_ranges end b size (suc left) i inner last low =
      let next : suc i * b ≡ i * b + b = suc-mul i b in
      let here : end i - i * b ≡ b = omega (arith, inner i (omega arith)) in
      let bound : suc i * b ≤ size =
        let few : suc i ≤ i + suc left = omega arith in le_trans (mul-le-mul_right b few) low in
      let later =
        collect_ranges end b size left (suc i) (λ j h. inner j (omega arith))
          (let at : suc i + left ≡ i + suc left = omega arith in ap end at ∙ last)
          (let at : suc i + left ≡ i + suc left = omega arith in rw at low) in
      rw (here, later)
        (sym (
          collect-split (i * b) b (size - suc i * b) (size - i * b) (suc i * b) (sym next)
            (omega (arith, next, bound))))

module _ {Block Value : Type 0} (V : Values Value) (blake3 : Block → Block → ℕ → List Byte)
    (o : Rbokvs Block) (code_words : ℕ → Value) (keys : ℕ → Block) where
  -- The threads' ranges are the range of all the keys: for every number of threads, 0 included, the
  -- writes are those of one loop over the keys, each key once and in order.
  pub decode_all-eq :
      (size threads : ℕ)
      → decode_all V blake3 o code_words keys size threads
        ≡ collect (decode_at V blake3 o code_words keys) 0 size
  unfolding decode_all decode_thread
  decode_all-eq size threads =
      let b = size / max 1 threads in
      let one : max 1 threads ≡ suc (max 1 threads - 1) = omega arith in
      ap
        (λ n.
          collect
            (λ i.
              collect (decode_at V blake3 o code_words keys) (i * b)
                (thread_end V blake3 o code_words keys size (max 1 threads) i - i * b))
            0 n)
        one
      ∙ collect_ranges (decode_at V blake3 o code_words keys)
          (thread_end V blake3 o code_words keys size (max 1 threads)) b size (max 1 threads - 1) 0
          inner last fits
      ∙ ap₂ (collect (decode_at V blake3 o code_words keys)) (zero-mul b)
          (omega (arith, zero-mul b))
    where
      inner :
          (j : ℕ)
          → j < 0 + (max 1 threads - 1)
          → thread_end V blake3 o code_words keys size (max 1 threads) j
            ≡ j * (size / max 1 threads) + size / max 1 threads
      inner j low = thread_inner V blake3 o code_words keys size (max 1 threads) j (omega arith)

      last :
          thread_end V blake3 o code_words keys size (max 1 threads) (0 + (max 1 threads - 1))
          ≡ size
      last = thread_last V blake3 o code_words keys size (max 1 threads) _ (omega arith)

      fits : (0 + (max 1 threads - 1)) * (size / max 1 threads) ≤ size
      fits = less_fits size (max 1 threads) _ (omega arith)
