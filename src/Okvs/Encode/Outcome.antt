-- ===== src/Okvs/Encode/Outcome.antt =====
-- What a caller of `encode` and `decode` is promised, for one block a value and for several.
use mathlib.Core.Path.{subst}
use opprf_fpsi.Prelude.{
  ℕ, suc, ap, false, ◌>>=◌, Bool-cases, ◌+◌, ◌-◌, ◌*◌, ◌≤◌, ◌<◌, ◌^◌, ◌≡◌, refl, ◌⊎◌, inl, inr,
  Bool, true, List, [], ◌∷◌, map, length, arith, Result, ok, err, undefined, Returns, ltb, sub64,
}
use opprf_fpsi.Okvs.{Rbokvs, div_ceil}
use opprf_fpsi.Okvs.Values.{Values, Blocks, long_values}
use opprf_fpsi.Okvs.Row.{Word, EncodeStatus, success, fail, all_zero}
use opprf_fpsi.Okvs.Hash.{Byte, hash_pos, hash_band}
use opprf_fpsi.Okvs.Hash.Laws.{IsHash, hash_band-lem}
use opprf_fpsi.Okvs.Solve.{column, column_or_zero, xor_word, xor_band, decode}
use opprf_fpsi.Okvs.Encode.{encode, encode_long, decode_long}
use opprf_fpsi.Okvs.Encode.Laws.{Encoded, encode-Encoded}

module _ {Block Value : Type 0} (V : Values Value) (blake3 : Block → Block → ℕ → List Byte)
    (o : Rbokvs Block) (hash : IsHash blake3 o) (wide : 64 ≤ o.m_w) (long : o.m_w ≤ o.m_size)
    (bounded : o.m_size < 2 ^ 63) (keys : List Block) (vals : List Value) (fresh : ℕ → Value)
    (all_keys : length keys ≡ o.m_n) (same : length keys ≡ length vals) where
  abbrev Ends : Result (EncodeStatus × (ℕ → Value)) → Type 0
  Ends r = Encoded V blake3 o hash wide long bounded keys vals fresh all_keys same r

  ends : Ends (encode V blake3 o keys vals fresh)
  ends = encode-Encoded V blake3 o hash wide long bounded keys vals fresh all_keys same

  total :
      (r : Result (EncodeStatus × (ℕ → Value)))
      → Ends r
      → Returns r (λ (s : EncodeStatus × (ℕ → Value)). (s.0 ≡ success) ⊎ (s.0 ≡ fail))
  total (ok (success, output)) h = ((success, output), refl, inl refl)
  total (ok (fail, output)) h = ((fail, output), refl, inr refl)
  total (ok (all_zero, output)) h = absurd h
  total (err e) h = absurd h

  solvable :
      (r : Result (EncodeStatus × (ℕ → Value))) (x : ℕ → Value)
      → Ends r
      → map (decode V o blake3 x) keys ≡ map ok vals
      → Returns r λ (s : EncodeStatus × (ℕ → Value)).
        (s.0 ≡ success) × (map (decode V o blake3 s.1) keys ≡ map ok vals)
  solvable (ok (success, output)) x h e = ((success, output), refl, (refl, h))
  solvable (ok (fail, output)) x h e = absurd (h x e)
  solvable (ok (all_zero, output)) x h e = absurd h
  solvable (err e') x h e = absurd h

  -- With a hash that gives the bytes it is asked for, a band of at least 64 and at most `mSize`
  -- columns, fewer than 2^63 columns, and `mN` keys and values: when `encode` ends with `SUCCESS`,
  -- `decode` gives each key its value.
  pub encode-decode :
      (output : ℕ → Value)
      → encode V blake3 o keys vals fresh ≡ ok (success, output)
      → map (decode V o blake3 output) keys ≡ map ok vals
  encode-decode output run = subst Ends run ends

  -- Under the same conditions `encode` ends, with `SUCCESS` or with `FAIL`: the elimination stops,
  -- and no read of the map, of a band or of the columns is out of range.
  pub encode-total :
      Returns
        (encode V blake3 o keys vals fresh)
        (λ (s : EncodeStatus × (ℕ → Value)). (s.0 ≡ success) ⊎ (s.0 ≡ fail))
  encode-total = total (encode V blake3 o keys vals fresh) ends

  -- Under the same conditions, if there are columns that decode every key to its value, `encode`
  -- ends with `SUCCESS` and with such columns: it fails only where nothing can be encoded.
  pub encode_solvable :
      (x : ℕ → Value)
      → map (decode V o blake3 x) keys ≡ map ok vals
      → Returns (encode V blake3 o keys vals fresh) λ (s : EncodeStatus × (ℕ → Value)).
        (s.0 ≡ success) × (map (decode V o blake3 s.1) keys ≡ map ok vals)
  encode_solvable x e = solvable (encode V blake3 o keys vals fresh) x ends e

module _ {Block : Type 0} (B : Values Block) (blake3 : Block → Block → ℕ → List Byte)
    (o : Rbokvs Block) (n : ℕ) where
  -- The same for values of `n` blocks: under the conditions on the hash, the band, the columns, the
  -- keys and the values, after a `SUCCESS` every key decodes to its vector.
  pub encode_long-decode_long :
      (keys : List Block) (vals : List (Blocks Block n)) (fresh output : ℕ → Blocks Block n)
      → IsHash blake3 o
      → 64 ≤ o.m_w
      → o.m_w ≤ o.m_size
      → o.m_size < 2 ^ 63
      → length keys ≡ o.m_n
      → length keys ≡ length vals
      → encode_long B blake3 o n keys vals fresh ≡ ok (success, output)
      → map (decode_long B blake3 o n output) keys ≡ map ok vals
  unfolding encode_long decode_long
  encode_long-decode_long keys vals fresh output hash wide long bounded all_keys same run =
      encode-decode (long_values B n) blake3 o hash wide long bounded keys vals fresh all_keys same
        output run

one_block : (w : ℕ) → w < 64 → div_ceil w 128 ≤ 1
unfolding div_ceil
one_block w narrow = omega arith

-- What the result is unless a read is out of range.
abbrev OnlyUndefined : {A : Type 0} → Result A → Type 0
OnlyUndefined (ok a) = Unit
OnlyUndefined (err e) = e ≡ undefined

bind-undefined :
    {A B : Type 0} (r : Result A) (f : A → Result B)
    → OnlyUndefined r
    → ((a : A) → f a ≡ err undefined)
    → (r >>= f) ≡ err undefined
bind-undefined (ok a) f h g = g a
bind-undefined (err e) f h g = ap err h

module _ {Value : Type 0} (V : Values Value) (output : ℕ → Value) (size : ℕ) where
  column_or_zero-OnlyUndefined :
      (b : Bool) (j : ℕ) → OnlyUndefined (column_or_zero V output size b j)
  unfolding column_or_zero column
  column_or_zero-OnlyUndefined true j = elim (Bool-cases (ltb j size)) [
    | inl e ↦ rw e tt
    | inr e ↦ rw e refl
  ]
  column_or_zero-OnlyUndefined false j = tt

  bind-OnlyUndefined :
      {A B : Type 0} (r : Result A) (f : A → Result B)
      → OnlyUndefined r
      → ((a : A) → OnlyUndefined (f a))
      → OnlyUndefined (r >>= f)
  bind-OnlyUndefined (ok a) f h g = g a
  bind-OnlyUndefined (err e) f h g = h

  xor_word-OnlyUndefined :
      (j : ℕ) (w : Word) (acc : Value) → OnlyUndefined (xor_word V output size j w acc)
  unfolding xor_word
  xor_word-OnlyUndefined j [] acc = tt
  xor_word-OnlyUndefined j (b ∷ w) acc =
      bind-OnlyUndefined (xor_word V output size (suc j) w acc) _
        (xor_word-OnlyUndefined (suc j) w acc)
        λ sum.
          bind-OnlyUndefined (column_or_zero V output size b j) _ (column_or_zero-OnlyUndefined b j)
            λ v. tt

  past_words :
      (base : ℕ) (more64 more : ℕ → Bool) (bound k : ℕ) (words : List Word) (acc : Value)
      → ((j : ℕ) → j < bound → more64 j ≡ true)
      → k + length words * 64 < bound
      → xor_band V output size base more64 more k words acc ≡ err undefined
  unfolding xor_band
  past_words base more64 more bound k [] acc on low = rw (on k (omega arith)) refl
  past_words base more64 more bound k (w ∷ words) acc on low = rw (on k (omega arith)) (
      bind-undefined (xor_word V output size (base + k) w acc) _
        (xor_word-OnlyUndefined (base + k) w acc)
        λ sum. past_words base more64 more bound (k + 64) words sum on (omega arith))

module _ {Block Value : Type 0} (V : Values Value) (blake3 : Block → Block → ℕ → List Byte)
    (o : Rbokvs Block) where
  -- On a band of fewer than 64 columns, which is what the parameters give for a store of fewer than
  -- 64 columns, the bound `mW - 64` wraps around and `decode` reads out of range, past its band or past the
  -- columns.
  pub decode_narrow :
      (code_words : ℕ → Value) (key : Block)
      → IsHash blake3 o
      → o.m_w < 64
      → decode V o blake3 code_words key ≡ err undefined
  unfolding decode
  decode_narrow code_words key hash narrow =
      let (words, size, clear) = hash_band-lem blake3 o key hash in
      past_words V code_words o.m_size (hash_pos blake3 o key) (λ j. ltb j (sub64 o.m_w 64))
        (λ j. ltb j o.m_w) (2 ^ 64 - 64) 0 (hash_band blake3 o key) V.zero_value
        (λ j low. wraps j low) (omega (arith, size, one_block o.m_w narrow))
    where
      wraps : (j : ℕ) → j < 2 ^ 64 - 64 → ltb j (sub64 o.m_w 64) ≡ true
      wraps j low = let far : 2 ^ 64 - 64 ≤ sub64 o.m_w 64 = omega (arith, narrow) in ground arith
