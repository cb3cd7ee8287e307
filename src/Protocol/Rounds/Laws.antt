-- ===== src/Protocol/Rounds/Laws.antt =====
-- When the threads of a dimension leave both parties with the same value for a bin.
use opprf_fpsi.Prelude.{
  ℕ, ◌-◌, ◌<◌, ◌≡◌, ◌↔◌, sym, ap, ◌∙◌, List, In, In-append_left, length, draw, Result, ok,
  ok_injective,
}
use opprf_fpsi.Protocol.Linf.{padding_blocks}
use opprf_fpsi.Protocol.Linf.Keys.{IsAsked, Carries}
use opprf_fpsi.Protocol.Rounds.Second.{IsSecond, pair}

-- What a programmable PRF promises: at a key that is programmed to one value only, that value.
abbrev pub IsProgrammable : {Block Value : Type 0} → (List (Block × Value) → Block → Value) → Type 0
IsProgrammable {Block} {Value} opprf =
    (es : List (Block × Value)) (q : Block) (v : Value)
    → In (q, v) es
    → ((w : Value) → In (q, w) es → w ≡ v)
    → opprf es q ≡ v

pub In-padding_blocks :
    {A : Type 0} (drawn : ℕ → A) (vals : List A) (count : ℕ) (a : A)
    → In a vals
    → In a (padding_blocks drawn vals count)
unfolding padding_blocks
In-padding_blocks drawn vals count a m =
    In-append_left a vals (draw drawn 0 (count - length vals)) m

module _ {Block Value : Type 0} (opprf : List (Block × Block) → Block → Block)
    (opprf2 : List (Block × Value) → Block → Value) where
  -- The random values do not meet by accident, as far as the bin `i` with the keys `qs` goes: no
  -- padding is one of its keys; only keys of this bin evaluate to its random value `a`, and only
  -- programmed ones; and `a` evaluates to the sender's value `v` only if it is programmed.
  pub record IsClean (keys : ℕ → Result (List Block)) (bins_num i : ℕ) (qs : List Block)
      (es programs : List (Block × Block)) (second : List (Block × Value)) (a : Block) (v : Value)
      : Type 0 where
    pub padding_unasked : (q w : Block) → In q qs → In (q, w) programs → In (q, w) es
    pub separate :
        (j : ℕ) (ws : List Block) (q : Block)
        → j < bins_num
        → keys j ≡ ok ws
        → In q ws
        → opprf programs q ≡ a
        → j ≡ i
    pub unprogrammed :
        (q : Block) → In q qs → opprf programs q ≡ a → (w : Block) × In (q, w) programs
    pub unprogrammed_second : opprf2 second a ≡ v → (w : Value) × In (a, w) second

  module _ (programmable : IsProgrammable opprf) (programmable2 : IsProgrammable opprf2)
      (keys : ℕ → Result (List Block)) (r_vals : ℕ → Value) (bins_num i : ℕ) (inside : i < bins_num)
      (qs : List Block) (keyed : keys i ≡ ok qs) (es programs : List (Block × Block))
      (second : List (Block × Value)) (a : Block)
      (more : (e : Block × Block) → In e es → In e programs) (carries : Carries qs es a)
      (clean : IsClean keys bins_num i qs es programs second a (r_vals i)) where
    asked-to_second :
        IsSecond keys (opprf programs) r_vals bins_num second
        → IsAsked qs es
        → opprf2 second a ≡ r_vals i
    asked-to_second made (q, v, m, n) =
        let v_eq = carries q v m n in
        let first : opprf programs q ≡ a =
          programmable programs q v (more (pair q v) n)
            (λ w k. carries q w m (clean.padding_unasked q w m k) ∙ sym v_eq)
          ∙ v_eq in
        let entry : In (pair a (r_vals i)) second = rw (← first) (made.1 i qs q inside keyed m) in
        programmable2 second a (r_vals i) entry λ w k.
          let (j, ws, p, hj, e, mp, u_eq, w_eq) = made.0 a w k in
          let same_bin = clean.separate j ws p hj e mp (sym u_eq) in w_eq ∙ ap r_vals same_bin

    second-to_asked :
        IsSecond keys (opprf programs) r_vals bins_num second
        → opprf2 second a ≡ r_vals i
        → IsAsked qs es
    second-to_asked made e =
        let (w, k) = clean.unprogrammed_second e in
        let (j, ws, p, hj, d, mp, u_eq, w_eq) = made.0 a w k in
        let same_bin = clean.separate j ws p hj d mp (sym u_eq) in
        let same_keys = ok_injective ws qs (sym d ∙ ap keys same_bin ∙ keyed) in
        let mq : In p qs = rw (← same_keys) mp in
        let (v, n) = clean.unprogrammed p mq (sym u_eq) in
        (p, v, mq, clean.padding_unasked p v mq n)

    pub second-IsAsked :
        IsSecond keys (opprf programs) r_vals bins_num second
        → (opprf2 second a ≡ r_vals i) ↔ IsAsked qs es
    second-IsAsked made = (second-to_asked made, asked-to_second made)
