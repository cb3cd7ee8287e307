-- ===== src/Okvs/Row/Shift.antt =====
-- What the shifts of `reformalize` do to the bits of the band.
use opprf_fpsi.Prelude.{
  ℕ, zero, suc, ◌+◌, ◌*◌, ◌<◌, ◌≡◌, refl, sym, ap, ap₂, ◌∙◌, ◌⊎◌, inl, inr, true, false, List, [],
  ◌∷◌, ◌++◌, replicate, length, All, arith, Bool-cases, length-append, ◌&&◌, to_nat,
}
use mathlib.Core.List.{append_assoc}
use opprf_fpsi.Okvs.Row.{
  Word, zero_word, is_zero_word, num_zero_blocks, first_word, left_shift, leading_zeros,
}
use opprf_fpsi.Okvs.Row.Bits.{flatten}

-- A word of 64 bits.
abbrev pub IsWord : Word → Type 0
IsWord w = length w ≡ 64

pub replicate-add :
    {A : Type 0} (n m : ℕ) (a : A) → replicate n a ++ replicate m a ≡ replicate (n + m) a
replicate-add zero m a = let e : 0 + m ≡ m = omega arith in rw e refl
replicate-add (suc n) m a =
    let e : suc n + m ≡ suc (n + m) = omega arith in rw e (ap (λ t. a ∷ t) (replicate-add n m a))

pub flatten-append : (a b : List Word) → flatten (a ++ b) ≡ flatten a ++ flatten b
flatten-append [] b = refl
flatten-append (w ∷ a) b = rw (flatten-append a b) (sym (append_assoc w (flatten a) (flatten b)))

pub flatten-zeros : (n : ℕ) → flatten (replicate n zero_word) ≡ replicate (n * 64) false
flatten-zeros zero = refl
flatten-zeros (suc n) =
    let e : suc n * 64 ≡ 64 + n * 64 = omega arith in
    rw (flatten-zeros n, e) (replicate-add 64 (n * 64) false)

pub length-flatten : (a : List Word) → All IsWord a → length (flatten a) ≡ length a * 64
length-flatten [] h = refl
length-flatten (w ∷ a) h = omega (arith, length-append w (flatten a), length-flatten a h.1, h.0)

pub is_zero_word-eq : (w : Word) → is_zero_word w ≡ true → w ≡ replicate (length w) false
unfolding is_zero_word
is_zero_word-eq [] e = refl
is_zero_word-eq (b ∷ w) e = ap₂ ◌∷◌ (ground arith) (is_zero_word-eq w (ground arith))

zero_word_lem : (w : Word) → IsWord w → is_zero_word w ≡ true → w ≡ zero_word
zero_word_lem w h e = is_zero_word-eq w e ∙ ap (λ n. replicate n false) h

-- A word that is not zero: its zeros, a bit that is set, the rest.
pub leading_zeros-split :
    (w : Word)
    → is_zero_word w ≡ false
    → (rest : Word) × (w ≡ replicate (leading_zeros w) false ++ (true ∷ rest))
unfolding is_zero_word leading_zeros
leading_zeros-split [] e = cc
leading_zeros-split (true ∷ w) e = (w, refl)
leading_zeros-split (false ∷ w) e =
    let (rest, s) = leading_zeros-split w e in (rest, ap (λ t. false ∷ t) s)

-- Either every word is zero, or `left_shift` counts the zero words before the first other one.
abbrev pub Split : ℕ → List Word → Type 0
Split b words =
    (num_zero_blocks words ≡ b) × (words ≡ replicate (2 * b) zero_word)
    ⊎ (num_zero_blocks words < b)
      × (w : Word) × (rest : List Word) × (words
          ≡ replicate (left_shift words) zero_word ++ (w ∷ rest))
      × (is_zero_word w ≡ false)

zeros_then :
    (lo hi w : Word) (words rest : List Word) (n : ℕ)
    → lo ≡ zero_word
    → hi ≡ zero_word
    → words ≡ replicate n zero_word ++ (w ∷ rest)
    → lo ∷ hi ∷ words ≡ replicate (suc (suc n)) zero_word ++ (w ∷ rest)
zeros_then lo hi w words rest n e f g = ap₂ ◌∷◌ e (ap₂ ◌∷◌ f g)

left_shift-step :
    (lo hi : Word) (words : List Word)
    → is_zero_word lo && is_zero_word hi ≡ true
    → left_shift (lo ∷ hi ∷ words) ≡ suc (suc (left_shift words))
unfolding left_shift num_zero_blocks
left_shift-step lo hi words e =
    let two : 2 * suc (num_zero_blocks words) ≡ suc (suc (2 * num_zero_blocks words)) =
      omega arith in
    rw (e, two) (omega arith)

left_shift-stop :
    (lo hi : Word) (words : List Word)
    → is_zero_word lo && is_zero_word hi ≡ false
    → left_shift (lo ∷ hi ∷ words) ≡ to_nat (is_zero_word lo)
unfolding left_shift num_zero_blocks first_word
left_shift-stop lo hi words e = rw e (omega arith)

pub left_shift-Split :
    (b : ℕ) (words : List Word) → All IsWord words → length words ≡ 2 * b → Split b words
unfolding num_zero_blocks
left_shift-Split zero [] h e = inl (refl, refl)
left_shift-Split (suc b) [] h e = absurd (omega arith)
left_shift-Split zero (lo ∷ words) h e = absurd (omega arith)
left_shift-Split (suc b) (lo ∷ []) h e = absurd (omega arith)
left_shift-Split (suc b) (lo ∷ hi ∷ words) h e =
    elim (Bool-cases (is_zero_word lo && is_zero_word hi)) [
      | inl both ↦
          let z = zero_word_lem lo h.0 (ground arith) in
          let y = zero_word_lem hi h.1.0 (ground arith) in
          elim (left_shift-Split b words h.1.1 (omega arith)) [
            | inl (count, all) ↦
                let two : 2 * suc b ≡ suc (suc (2 * b)) = omega arith in
                inl (rw both (ap suc count), rw two (ap₂ ◌∷◌ z (ap₂ ◌∷◌ y all)))
            | inr (count, w, rest, s, set) ↦ inr (
              rw both (omega arith),
              w,
              rest,
              rw (left_shift-step lo hi words both)
                  (zeros_then lo hi w words rest (left_shift words) z y s),
              set,
            )
          ]
      | inr one ↦ elim (Bool-cases (is_zero_word lo)) [
        | inl low ↦ inr (
          rw one (omega arith),
          hi,
          words,
          rw (left_shift-stop lo hi words one, low)
              (ap (λ t. t ∷ hi ∷ words) (zero_word_lem lo h.0 low)),
          ground arith,
        )
        | inr low ↦ inr (
          rw one (omega arith),
          lo,
          hi ∷ words,
          rw (left_shift-stop lo hi words one, low) refl,
          low,
        )
      ]
    ]
