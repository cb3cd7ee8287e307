-- ===== src/Prefix/Decompose.antt =====
-- `decompose_improve` of `fpsi/utils/set_dec.cpp`: an interval as a list of prefixes.
pub mod Log
pub mod Cover
pub mod Laws
use opprf_fpsi.Prelude.{
  ℕ, zero, suc, ◌+◌, ◌-◌, ◌%◌, ◌^◌, Bool, ◌&&◌, ◌||◌, not, ◌++◌, List, [], ◌∷◌, leb, ltb, ◌==◌,
  if◌then◌else◌, bit, u64, sub64, Result, ok, err, runtime_error, undefined,
}
use opprf_fpsi.Prefix.Strings.{num_bits, to_binary_string}
use Log.{floor_log2}

-- `while (a_prime <= max && (a_prime & (m - 1))) a_prime++`, for a power of two `m`, with fuel.
unfoldable pub seek : ℕ → ℕ → ℕ → ℕ → ℕ
seek zero a hi m = a
seek (suc fuel) a hi m =
    let rest = seek fuel (u64 (a + 1)) hi m in if leb a hi && not (a % m == 0) then rest else a

-- The loop from the high bit to the low bit, with `i` bits left: the strings in the order in which
-- the code pushes them. `x'` moves right and `y'` moves left.
unfoldable pub traverse : ℕ → ℕ → ℕ → ℕ → ℕ → List (List Bool)
traverse zero x y x' y' = []
traverse (suc i) x y x' y' =
    (if bit x i then to_binary_string x' (num_bits - i) ∷ [] else [])
    ++ (if bit y i then to_binary_string y' (num_bits - i) ∷ [] else [])
    ++ traverse i x y (if bit x i then u64 (x' + 2 ^ i) else x')
        (if bit y i then sub64 y' (2 ^ i) else y')

-- `1 << (w - 1)` is a shift of an `int`: with `w > 31` the mask overflows, and for the whole range
-- of u64 the length wraps to 0, whose logarithm cannot be cast.
unfoldable pub decompose_improve : ℕ → ℕ → Result (List (List Bool))
decompose_improve lo hi =
    if ltb hi lo
    then err runtime_error
    else if lo == hi
    then ok (to_binary_string lo num_bits ∷ [])
    else let t = u64 (sub64 hi lo + 1) in
      let w = floor_log2 t + 1 in
      if t == 0 || ltb 31 w
      then err undefined
      else let a = seek (2 ^ (w - 1)) lo hi (2 ^ (w - 1)) in
        if ltb hi a
        then err runtime_error
        else ok (traverse w (u64 (sub64 hi a + 1)) (sub64 a lo) a (sub64 a 1))
