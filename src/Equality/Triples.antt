-- ===== src/Equality/Triples.antt =====
-- `fpsi/pis_new/triple.h` and `triple.cpp`: multiplication triples over bits, and their
-- generation from random oblivious transfers.
use opprf_fpsi.Prelude.{◌≡◌, Bool, true, false, ◌&&◌, ◌⊕◌, arith}

-- One position of the bit vectors `a`, `b`, `c` of `Triples`.
pub record Triple : Type 0 where
  pub a : Bool
  pub b : Bool
  pub c : Bool

-- The two parties' triples at one position are shares of a product.
abbrev pub IsProduct : Triple → Triple → Type 0
IsProduct s t = s.c ⊕ t.c ≡ ((s.a ⊕ t.a) && (s.b ⊕ t.b))

-- The last bits of the two messages of a random oblivious transfer, of the sender's side.
pub record OtSender : Type 0 where
  pub m0 : Bool
  pub m1 : Bool

-- The choice bit and the last bit of the message that the receiver got.
pub record OtReceiver : Type 0 where
  pub choice : Bool
  pub message : Bool

-- What an oblivious transfer guarantees: the receiver has the message of its choice.
abbrev pub IsOt : OtSender → OtReceiver → Type 0
IsOt s r = r.message ≡ (elim r.choice [ true ↦ s.m1 | false ↦ s.m0 ])

-- The inner loop of `triple0` and `triple1` at one position: `sent` is the transfer in which the
-- party is the sender, `received` the one in which it is the receiver.
unfoldable pub make_triple : OtSender → OtReceiver → Triple
make_triple sent received =
    let x = sent.m0 ⊕ sent.m1 in
    record { a = x; b = received.choice; c = sent.m0 ⊕ (x && received.choice) ⊕ received.message }

-- If the two transfers between the parties are correct, then the triples that the parties
-- compute are shares of a product.
pub make_triple-IsProduct :
    (s0 s1 : OtSender) (r0 r1 : OtReceiver)
    → IsOt s0 r1
    → IsOt s1 r0
    → IsProduct (make_triple s0 r0) (make_triple s1 r1)
unfolding make_triple
make_triple-IsProduct s0 s1 r0 r1 h0 h1 = ground arith
