-- ===== src/Prelude/Members.antt =====
-- Membership in a list, by recursion.
use mathlib.Core.Path.{◌≡◌, refl, ap}
use mathlib.Core.Logic.{◌⊎◌, inl, inr}
use mathlib.Core.List.{List, [], ◌∷◌, ◌++◌, map}
use opprf_fpsi.Prelude.Lists.{All}

module _ {A : Type 0} where
  abbrev pub In : A → List A → Type 0
  In a [] = ⊥
  In a (x ∷ xs) = (a ≡ x) ⊎ In a xs

  pub In-append_left : (a : A) (xs ys : List A) → In a xs → In a (xs ++ ys)
  In-append_left a [] ys h = absurd h
  In-append_left a (x ∷ xs) ys (inl e) = inl e
  In-append_left a (x ∷ xs) ys (inr h) = inr (In-append_left a xs ys h)

  pub In-append_right : (a : A) (xs ys : List A) → In a ys → In a (xs ++ ys)
  In-append_right a [] ys h = h
  In-append_right a (x ∷ xs) ys h = inr (In-append_right a xs ys h)

  pub In-append : (a : A) (xs ys : List A) → In a (xs ++ ys) → In a xs ⊎ In a ys
  In-append a [] ys h = inr h
  In-append a (x ∷ xs) ys (inl e) = inl (inl e)
  In-append a (x ∷ xs) ys (inr h) = elim (In-append a xs ys h) [
    | inl l ↦ inl (inr l)
    | inr r ↦ inr r
  ]

  pub All-In : (P : A → Type 0) (a : A) (xs : List A) → All P xs → In a xs → P a
  All-In P a [] h m = absurd m
  All-In P a (x ∷ xs) h (inl e) = rw e h.0
  All-In P a (x ∷ xs) h (inr m) = All-In P a xs h.1 m

module _ {A B : Type 0} (f : A → B) where
  pub In-map : (a : A) (xs : List A) → In a xs → In (f a) (map f xs)
  In-map a [] h = absurd h
  In-map a (x ∷ xs) (inl e) = inl (ap f e)
  In-map a (x ∷ xs) (inr h) = inr (In-map a xs h)

  pub map-In : (b : B) (xs : List A) → In b (map f xs) → (a : A) × (In a xs) × (b ≡ f a)
  map-In b [] h = absurd h
  map-In b (x ∷ xs) (inl e) = (x, inl refl, e)
  map-In b (x ∷ xs) (inr h) = let (a, m, e) = map-In b xs h in (a, inr m, e)
