-- ===== src/Okvs/Row/Words.antt =====
-- `shift_words` moves the bits of the whole sequence of words.
use mathlib.Core.List.{append-nil, append_assoc}
use opprf_fpsi.Prelude.{
  ℕ, zero, suc, ◌≤◌, ◌≡◌, refl, sym, ap, ◌∙◌, inl, inr, true, false, List, [], ◌∷◌, ◌++◌, take,
  drop, replicate, length, All, arith, Bool-cases, length-append, length-replicate, length-drop,
  length-take, take-append-drop, ◌==◌,
}
use opprf_fpsi.Okvs.Row.{Word, first_word, leading_zeros, shift_words, shift_first}
use opprf_fpsi.Okvs.Row.Bits.{flatten}
use opprf_fpsi.Okvs.Row.Shift.{IsWord}

pub drop-append :
    {A : Type 0} (k : ℕ) (a b : List A) → k ≤ length a → drop k (a ++ b) ≡ drop k a ++ b
drop-append zero a b h = refl
drop-append (suc k) [] b h = absurd (omega arith)
drop-append (suc k) (x ∷ a) b h = drop-append k a b (omega arith)

pub drop-replicate : {A : Type 0} (k : ℕ) (a : A) (b : List A) → drop k (replicate k a ++ b) ≡ b
drop-replicate zero a b = refl
drop-replicate (suc k) a b = drop-replicate k a b

-- On words of 64 bits a shift by at most 64 drops bits of the sequence and appends zeros.
pub flatten-shift_words :
    (k : ℕ) (w : Word) (words : List Word)
    → k ≤ 64
    → All IsWord (w ∷ words)
    → flatten (shift_words k (w ∷ words)) ≡ drop k (flatten (w ∷ words)) ++ replicate k false
unfolding shift_words
flatten-shift_words k w [] small h =
    append-nil (drop k w ++ replicate k false)
    ∙ ap (λ t. drop k t ++ replicate k false) (sym (append-nil w))
flatten-shift_words k w (v ∷ words) small h =
    let later = flatten-shift_words k v words small h.1 in
    let here = drop-append k w (v ++ flatten words) (omega (arith, h.0)) in
    let there = drop-append k v (flatten words) (omega (arith, h.1.0)) in
    rw (later, here, there)
      (append_assoc (drop k w) (take k v) ((drop k v ++ flatten words) ++ replicate k false)
        ∙ ap (λ t. drop k w ++ t)
            (sym (append_assoc (take k v) (drop k v ++ flatten words) (replicate k false))
              ∙ ap (λ t. t ++ replicate k false)
                  (sym (append_assoc (take k v) (drop k v) (flatten words))
                    ∙ ap (λ t. t ++ flatten words) (take-append-drop k v)))
        ∙ sym (append_assoc (drop k w) (v ++ flatten words) (replicate k false)))

shift_words-words :
    (k : ℕ) (words : List Word) → k ≤ 64 → All IsWord words → All IsWord (shift_words k words)
unfolding shift_words
shift_words-words k [] small h = tt
shift_words-words k (w ∷ []) small h = (
  length-append (drop k w) (replicate k false)
      ∙ omega (arith, length-drop k w, length-replicate k false, h.0),
  tt,
)
shift_words-words k (w ∷ v ∷ words) small h = (
  length-append (drop k w) (take k v) ∙ omega (arith, length-drop k w, length-take k v, h.0, h.1.0),
  shift_words-words k (v ∷ words) small h.1,
)

length-shift_words : (k : ℕ) (words : List Word) → length (shift_words k words) ≡ length words
unfolding shift_words
length-shift_words k [] = refl
length-shift_words k (w ∷ []) = refl
length-shift_words k (w ∷ v ∷ words) = ap suc (length-shift_words k (v ∷ words))

leading_zeros-bound : (w : Word) → leading_zeros w ≤ length w
unfolding leading_zeros
leading_zeros-bound [] = omega arith
leading_zeros-bound (true ∷ w) = omega arith
leading_zeros-bound (false ∷ w) = omega (arith, leading_zeros-bound w)

pub length-shift_first : (words : List Word) → length (shift_first words) ≡ length words
unfolding shift_first
length-shift_first words = elim (Bool-cases (leading_zeros (first_word words) == 0)) [
  | inl e ↦ rw e refl
  | inr e ↦ rw e (length-shift_words (leading_zeros (first_word words)) words)
]

pub shift_first-words :
    (w : Word) (words : List Word) → All IsWord (w ∷ words) → All IsWord (shift_first (w ∷ words))
unfolding shift_first first_word
shift_first-words w words h = elim (Bool-cases (leading_zeros w == 0)) [
  | inl e ↦ rw e h
  | inr e ↦ rw e (
      shift_words-words (leading_zeros w) (w ∷ words) (omega (arith, leading_zeros-bound w, h.0)) h)
]

-- The bits after the shift of the first word: its leading zeros have moved to the end.
pub flatten-shift_first :
    (w : Word) (words : List Word)
    → All IsWord (w ∷ words)
    → flatten (shift_first (w ∷ words))
      ≡ drop (leading_zeros w) (flatten (w ∷ words)) ++ replicate (leading_zeros w) false
unfolding shift_first first_word
flatten-shift_first w words h = elim (Bool-cases (leading_zeros w == 0)) [
  | inl e ↦
      let none_lead : leading_zeros w ≡ 0 = ground arith in
      rw (e, none_lead) (sym (append-nil (flatten (w ∷ words))))
  | inr e ↦
      rw e (
        flatten-shift_words (leading_zeros w) w words (omega (arith, leading_zeros-bound w, h.0)) h)
]
