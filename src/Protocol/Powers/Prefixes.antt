-- ===== src/Protocol/Powers/Prefixes.antt =====
-- The arithmetic on the powers, for the prefixes that the parties compute.
use opprf_fpsi.Prelude.{
  ℕ, ◌+◌, ◌-◌, ◌*◌, ◌^◌, ◌≤◌, ◌<◌, ◌≡◌, ◌⊎◌, inl, inr, sym, ◌∙◌, Bool, List, arith, u32, In, ok,
  ok_injective,
}
use opprf_fpsi.Prefix.Strings.{up_bound, low_bound}
use opprf_fpsi.Prefix.Bounds.{covers-bounds}
use opprf_fpsi.Prefix.Ends.{Covers-ends, queries-covers}
use opprf_fpsi.Prefix.SetDec.Cover.{set_dec-Covers}
use opprf_fpsi.Prefix.Match.{queries, set_prefix-eq}
use opprf_fpsi.Matching.Params.{PrefixParam, lp_table, get_selected_param, tables-IsUsable}
use opprf_fpsi.Matching.Strings.{lp_strings, lp_queries, lp_strings-eq, lp_queries-eq}
use opprf_fpsi.Protocol.Powers.{
  diff_below, diff_above, e_below, e_above, prefix_val, v_candidate, v_hat,
}
use opprf_fpsi.Protocol.Powers.Laws.{Meets, distance, v_hat-share}

module _ (delta x y : ℕ) (plus param : PrefixParam)
    (found0 : get_selected_param lp_table (delta + 1) ≡ ok plus)
    (found1 : get_selected_param lp_table delta ≡ ok param) (pos : 1 ≤ delta) (low : delta ≤ x)
    (high : x + delta < 2 ^ 64) (hy : y < 2 ^ 64) (ps qs : List (List Bool) × List (List Bool))
    (run : lp_strings delta x ≡ ok ps) (ask : lp_queries delta y ≡ ok qs) where
  -- A string of one of the two lists that both parties have, and the differences for that side.
  abbrev pub IsShared : List Bool → ℕ → ℕ → Type 0
  IsShared p diff e =
      (In p qs.0 × In p ps.0 × (diff ≡ diff_below x (up_bound p)) × (e ≡ e_below (up_bound p) y))
      ⊎ (In p qs.1
          × In p ps.1
          × (diff ≡ diff_above x (low_bound p))
          × (e ≡ e_above (low_bound p) y))

  IsShared-Meets : (p : List Bool) (diff e : ℕ) → IsShared p diff e → Meets x y diff e
  IsShared-Meets p diff e h =
      let u0 = tables-IsUsable (delta + 1) plus (inr (inl found0)) in
      let u1 = tables-IsUsable delta param (inr (inl found1)) in
      let (ps0, run0, cover0) =
        set_dec-Covers (x - delta) x plus.widths (omega arith) (omega arith)
          (omega (arith, u0.short)) u0.zero_in in
      let (ps1, run1, cover1) =
        set_dec-Covers (x + 1) (x + delta) param.widths (omega arith) high (omega (arith, u1.short))
          u1.zero_in in
      let made = lp_strings-eq delta x ps0 ps1 plus param found0 found1 pos low high run0 run1 in
      let asked =
        lp_queries-eq delta y (queries y plus.widths) (queries y param.widths) plus param found0
          found1 (set_prefix-eq y plus.widths u0.small) (set_prefix-eq y param.widths u1.small) in
      let same_ps = ok_injective ps (ps0, ps1) (sym run ∙ made) in
      let same_qs =
        ok_injective qs (queries y plus.widths, queries y param.widths) (sym ask ∙ asked) in
      elim h [
        | inl (m, n, d, c) ↦
            let mq : In p (queries y plus.widths) = rw same_qs at m in
            let mp : In p ps0 = rw same_ps at n in
            let (wide, first, last) = Covers-ends (x - delta) x plus.widths ps0 p cover0 mp in
            let held = (covers-bounds p y wide hy).0 (queries-covers y plus.widths p u0.small mq) in
            inl (up_bound p, (held.1, last), d, c)
        | inr (m, n, d, c) ↦
            let mq : In p (queries y param.widths) = rw same_qs at m in
            let mp : In p ps1 = rw same_ps at n in
            let (wide, first, last) =
              Covers-ends (x + 1) (x + delta) param.widths ps1 p cover1 mp in
            let held =
              (covers-bounds p y wide hy).0 (queries-covers y param.widths p u1.small mq) in
            inr (low_bound p, (omega (arith, first), held.0), d, c)
      ]

  -- If the table has sets for `delta` and `delta + 1`, the coordinates and the ends of the interval
  -- are words, `p` is a string of `lp_strings` that is also one of `lp_queries` on the same side, the
  -- VOLE is valid and the mask is a word and at least the power of the distance, then the receiver's
  -- share, for sums of absolute values and of squares, is the mask less the power of the distance,
  -- whichever common string it is.
  pub v_hat-lp_strings :
      (p : List Bool) (metric a0 a_p b_delta mask diff e : ℕ) (a_vole c_vole d_vole : ℕ → ℕ)
      → IsShared p diff e
      → (metric ≡ 1) ⊎ (metric ≡ 2)
      → a_p < 2 ^ 32
      → mask < 2 ^ 32
      → d_vole 0 < 2 ^ 32
      → c_vole 0 ≡ u32 (a_vole 0 * b_delta + d_vole 0)
      → distance x y ^ metric ≤ mask
      → v_hat metric
          (v_candidate metric b_delta mask (prefix_val metric a0 a_p a_vole diff) d_vole e)
          a_p
          a_vole
          c_vole
        ≡ mask - distance x y ^ metric
  v_hat-lp_strings p metric a0 a_p b_delta mask diff e a_vole c_vole d_vole h m small hm hd vole
        fits =
      v_hat-share metric a0 a_p b_delta mask diff e x y a_vole c_vole d_vole m small hm hd vole
        (omega arith) hy (IsShared-Meets p diff e h) fits
