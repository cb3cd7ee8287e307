-- ===== src/Prelude/Loops.antt =====
-- Loops over a range of indices, or over a list, that push on a vector, and what they push.
use Prim.Native.Nat.{ℕ, zero, suc, ◌+◌, ◌≤◌, ◌<◌}
use mathlib.Core.Path.{◌≡◌, refl, sym, ap, ◌∙◌}
use mathlib.Core.Logic.{◌⊎◌, inl, inr}
use mathlib.Core.List.{List, [], ◌∷◌, ◌++◌, map}
use native.Mathlib.Omega.{arith}
use opprf_fpsi.Prelude.Lists.{length, replicate}
use opprf_fpsi.Prelude.Results.{Result, ok, ◌>>=◌, Returns, ok_injective}
use opprf_fpsi.Prelude.Members.{In, In-append, In-append_left, In-append_right}

first_or_later : (start i : ℕ) → start ≤ i → (start ≡ i) ⊎ (suc start ≤ i)
first_or_later s i lo = ground arith

module _ {A : Type 0} where
  -- `for (i = start; i < start + count; i++)`, each round pushing some elements.
  unfoldable pub flat_range : (ℕ → List A) → ℕ → ℕ → List A
  flat_range f start zero = []
  flat_range f start (suc count) = f start ++ flat_range f (suc start) count

  -- The same, where a round may fail.
  unfoldable pub collect : (ℕ → Result (List A)) → ℕ → ℕ → Result (List A)
  collect f start zero = ok []
  collect f start (suc count) = do xs ← f start; rest ← collect f (suc start) count; ok (xs ++ rest)

  pub In-flat_range :
      (f : ℕ → List A) (start count i : ℕ) (a : A)
      → start ≤ i
      → i < start + count
      → In a (f i)
      → In a (flat_range f start count)
  unfolding flat_range
  In-flat_range f start zero i a lo hi m = absurd (omega (arith, lo, hi))
  In-flat_range f start (suc count) i a lo hi m = elim (first_or_later start i lo) [
    | inl e ↦ In-append_left a (f start) (flat_range f (suc start) count) (rw e m)
    | inr later ↦
        In-append_right a (f start) (flat_range f (suc start) count)
          (In-flat_range f (suc start) count i a later (omega arith) m)
  ]

  pub flat_range-In :
      (f : ℕ → List A) (start count : ℕ) (a : A)
      → In a (flat_range f start count)
      → (i : ℕ) × (start ≤ i) × (i < start + count) × In a (f i)
  unfolding flat_range
  flat_range-In f start zero a m = absurd m
  flat_range-In f start (suc count) a m =
      elim (In-append a (f start) (flat_range f (suc start) count) m) [
        | inl here ↦ (start, omega arith, omega arith, here)
        | inr later ↦
            let (i, lo, hi, there) = flat_range-In f (suc start) count a later in
            (i, omega arith, omega arith, there)
      ]

  -- What the loop pushes is what its rounds push.
  abbrev pub IsCollected : (ℕ → Result (List A)) → ℕ → ℕ → List A → Type 0
  IsCollected f start count es =
      ((a : A)
        → In a es
        → (i : ℕ) × (xs : List A) × (start ≤ i) × (i < start + count) × (f i ≡ ok xs) × In a xs)
      × ((i : ℕ) (xs : List A) (a : A)
          → start ≤ i
          → i < start + count
          → f i ≡ ok xs
          → In a xs
          → In a es)

  IsCollected-append :
      (f : ℕ → Result (List A)) (start count : ℕ) (xs rest : List A)
      → f start ≡ ok xs
      → IsCollected f (suc start) count rest
      → IsCollected f start (suc count) (xs ++ rest)
  IsCollected-append f start count xs rest e h = (
    λ a m. elim (In-append a xs rest m) [
      | inl here ↦ (start, xs, omega arith, omega arith, e, here)
      | inr later ↦
          let (i, ys, lo, hi, d, there) = h.0 a later in (i, ys, omega arith, omega arith, d, there)
    ],
    λ i ys a lo hi d m. elim (first_or_later start i lo) [
      | inl q ↦
          let same_list : xs ≡ ys = ok_injective xs ys (sym e ∙ ap f q ∙ d) in
          In-append_left a xs rest (rw same_list m)
      | inr later ↦ In-append_right a xs rest (h.1 i ys a later (omega arith) d m)
    ],
  )

  -- If every round succeeds, then so does the loop.
  pub collect-IsCollected :
      (f : ℕ → Result (List A)) (start count : ℕ)
      → ((i : ℕ) → start ≤ i → i < start + count → Returns (f i) λ xs. Unit {0})
      → Returns (collect f start count) (IsCollected f start count)
  unfolding collect
  collect-IsCollected f start zero h =
      ([], refl, (λ a m. absurd m, λ i xs a lo hi e m. absurd (omega (arith, lo, hi))))
  collect-IsCollected f start (suc count) h =
      let (xs, e, _) = h start (omega arith) (omega arith) in
      let (rest, d, c) =
        collect-IsCollected f (suc start) count (λ i lo hi. h i (omega arith) (omega arith)) in
      (xs ++ rest, rw (e, d) refl, IsCollected-append f start count xs rest e c)

module _ {A B : Type 0} where
  -- `for (auto a : as)`, each round pushing some elements.
  unfoldable pub flat_map : (A → List B) → List A → List B
  flat_map f [] = []
  flat_map f (a ∷ later) = f a ++ flat_map f later

  pub In-flat_map :
      (f : A → List B) (xs : List A) (a : A) (b : B) → In a xs → In b (f a) → In b (flat_map f xs)
  unfolding flat_map
  In-flat_map f [] a b m h = absurd m
  In-flat_map f (x ∷ xs) a b (inl e) h = In-append_left b (f x) (flat_map f xs) (rw (← e) h)
  In-flat_map f (x ∷ xs) a b (inr m) h =
      In-append_right b (f x) (flat_map f xs) (In-flat_map f xs a b m h)

  pub flat_map-In :
      (f : A → List B) (xs : List A) (b : B) → In b (flat_map f xs) → (a : A) × In a xs × In b (f a)
  unfolding flat_map
  flat_map-In f [] b m = absurd m
  flat_map-In f (x ∷ xs) b m = elim (In-append b (f x) (flat_map f xs) m) [
    | inl here ↦ (x, inl refl, here)
    | inr later ↦ let (a, l, there) = flat_map-In f xs b later in (a, inr l, there)
  ]

-- A buffer filled with `count` draws of a generator.
unfoldable pub draw {ℓ} : {A : Type ℓ} → (ℕ → A) → ℕ → ℕ → List A
draw drawn start zero = []
draw drawn start (suc count) = drawn start ∷ draw drawn (suc start) count

-- Two vectors of the same size, read in step.
unfoldable pub zip {ℓ κ} : {A : Type ℓ} {B : Type κ} → List A → List B → List (A × B)
zip [] bs = []
zip (a ∷ rest) [] = []
zip (a ∷ rest) (b ∷ bs) = (a, b) ∷ zip rest bs

module _ {A B C : Type 0} where
  zip-append :
      (g : A → B) (c : C) (xs rest : List A) (tail : List C)
      → zip (map g (xs ++ rest)) (replicate (length xs) c ++ tail)
        ≡ map (λ x. (g x, c)) xs ++ zip (map g rest) tail
  unfolding zip
  zip-append g c [] rest tail = refl
  zip-append g c (x ∷ xs) rest tail = ap (λ l. (g x, c) ∷ l) (zip-append g c xs rest tail)

  zip-append_sized :
      (g : A → B) (c : C) (size : ℕ) (xs rest : List A) (tail : List C)
      → length xs ≡ size
      → zip (map g (xs ++ rest)) (replicate size c ++ tail)
        ≡ map (λ x. (g x, c)) xs ++ zip (map g rest) tail
  zip-append_sized g c size xs rest tail n = rw (← n) (zip-append g c xs rest tail)

  -- Where each round pushes `size` elements, the values that are spread by rounds of `size` stand
  -- beside the elements of their round.
  pub collect-zip :
      (f : ℕ → Result (List A)) (g : A → B) (c : ℕ → C) (size start count : ℕ)
      → ((i : ℕ) → start ≤ i → i < start + count → Returns (f i) λ xs. length xs ≡ size)
      → Returns (collect f start count) λ es.
        collect (λ i. f i >>= λ xs. ok (map (λ x. (g x, c i)) xs)) start count
        ≡ ok (zip (map g es) (flat_range (λ i. replicate size (c i)) start count))
  unfolding collect flat_range zip
  collect-zip f g c size start zero h = ([], refl, refl)
  collect-zip f g c size start (suc count) h =
      let (xs, e, n) = h start (omega arith) (omega arith) in
      let (rest, d, q) =
        collect-zip f g c size (suc start) count (λ i lo hi. h i (omega arith) (omega arith)) in
      let joined =
        zip-append_sized g (c start) size xs rest
          (flat_range (λ i. replicate size (c i)) (suc start) count) n in
      (xs ++ rest, rw (e, d) refl, rw (e, q) (ap ok (sym joined)))

pub length-draw {ℓ} :
    {A : Type ℓ} (drawn : ℕ → A) (start count : ℕ) → length (draw drawn start count) ≡ count
unfolding draw
length-draw drawn start zero = refl
length-draw drawn start (suc count) = ap suc (length-draw drawn (suc start) count)
