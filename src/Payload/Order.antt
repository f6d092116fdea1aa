-- ===== src/Payload/Order.antt =====
-- Which data packets a call takes, by their sequence numbers.
use mathlib.Core.Path.{subst}
use xl2tpd.Base.{
  ℕ, zero, suc, ◌+◌, ◌%◌, ◌≤◌, ◌<◌, ◌≡◌, ◌≢◌, refl, sym, ap, ◌∙◌, arith, true, false, List, [], ◌∷◌,
  none, some, u16, All, ◌==◌, Bool-cases, inl, inr,
}
use xl2tpd.Session.{Call}
use xl2tpd.Control.{is_old}
use xl2tpd.Payload.{accept_ns}

-- The branches of `accept_ns`.
accept_expected :
    (c : Call) (ns : ℕ)
    → (ns == c.data_seq_num) ≡ true
    → accept_ns c ns
      ≡ some (record c { data_rec_seq_num = u16 (c.data_rec_seq_num + 1); pnu = true })
unfolding accept_ns
accept_expected c ns e = ground (arith, e)

accept_new :
    (c : Call) (ns : ℕ)
    → (ns == c.data_seq_num) ≡ false
    → is_old ns c.data_rec_seq_num ≡ false
    → ns ≤ c.data_rec_seq_num + 2
    → accept_ns c ns ≡ some (record c { data_rec_seq_num = ns })
unfolding accept_ns
accept_new c ns other new near = ground (arith, other, new, near)

accept_inv :
    (c c' : Call) (ns : ℕ)
    → ns ≢ c.data_seq_num
    → accept_ns c ns ≡ some c'
    → record c { data_rec_seq_num = ns } ≡ c'
unfolding accept_ns
accept_inv c c' ns other e = ground (arith, e)

is_old_self : (n : ℕ) → is_old n n ≡ false
unfolding is_old
is_old_self n = ground arith

is_old_next : (n : ℕ) → n < 65_536 → is_old (u16 (n + 1)) n ≡ false
unfolding is_old
is_old_next n small = ground arith

next_accepted :
    (c : Call)
    → c.data_rec_seq_num < 65_536
    → (c' : Call) × (accept_ns c (u16 (c.data_rec_seq_num + 1)) ≡ some c')
      × (c'.data_rec_seq_num ≡ u16 (c.data_rec_seq_num + 1))
next_accepted c small =
    let n = u16 (c.data_rec_seq_num + 1) in
    elim (Bool-cases (n == c.data_seq_num)) [
      | inl e ↦ (
        record c { data_rec_seq_num = u16 (c.data_rec_seq_num + 1); pnu = true },
        accept_expected c n e,
        refl,
      )
      | inr e ↦ (
        record c { data_rec_seq_num = n },
        accept_new c n e (is_old_next c.data_rec_seq_num small) (omega arith),
        refl,
      )
    ]

-- The call after some packets, those that are refused left out.
unfoldable pub taken : Call → List ℕ → Call
unfolding accept_ns
taken c [] = c
taken c (n ∷ ns) = elim (accept_ns c n) [ none ↦ taken c ns | some c' ↦ taken c' ns ]

-- `k` numbers in a row behind `n`.
abbrev pub run : ℕ → ℕ → List ℕ
run zero n = []
run (suc k) n = u16 (n + 1) ∷ run k (u16 (n + 1))

-- Packets that come in order, none lost, from the one behind the last that was received, are all
-- taken, whatever the numbers of the packets sent: the last number is that of the last packet,
-- over the wrap too.
pub in_order_taken :
    (k : ℕ) (c : Call)
    → c.data_rec_seq_num < 65_536
    → (taken c (run k c.data_rec_seq_num)).data_rec_seq_num ≡ (c.data_rec_seq_num + k) % 65_536
unfolding taken
in_order_taken zero c small = omega arith
in_order_taken (suc k) c small =
    let (c', e, r) = next_accepted c small in
    rw (taken, e)
      (ap (λ (n : ℕ). (taken c' (run k n)).data_rec_seq_num) (sym r)
        ∙ in_order_taken k c' (omega (arith, r))
        ∙ omega (arith, r))

-- A packet that was taken is taken once more when it is repeated, unless its number is that of the
-- next packet to send: nothing tells the two apart.
pub repeated_accepted :
    (c c' : Call) (ns : ℕ)
    → ns ≢ c.data_seq_num
    → accept_ns c ns ≡ some c'
    → (c'.data_rec_seq_num ≡ ns) × (accept_ns c' ns ≡ some c')
repeated_accepted c c' ns other e =
    subst (λ (x : Call). (x.data_rec_seq_num ≡ ns) × (accept_ns x ns ≡ some x))
      (accept_inv c c' ns other e)
      (
        refl,
        accept_new (record c { data_rec_seq_num = ns }) ns (ground (arith, other)) (is_old_self ns)
            (omega arith),
      )

late_refused :
    (c : Call) (n : ℕ) → c.data_rec_seq_num + 2 < n → n ≢ c.data_seq_num → accept_ns c n ≡ none
unfolding accept_ns
late_refused c n late other = ground (arith, late, other)

-- When three packets or more in a row are lost, no later one is taken before the numbers go round,
-- save one whose number is that of the next packet to send: the call stays as it is, whatever comes.
lost_three_stalls :
    (c : Call) (ns : List ℕ)
    → All (λ n. (c.data_rec_seq_num + 2 < n) × (n ≢ c.data_seq_num)) ns
    → taken c ns ≡ c
unfolding taken
lost_three_stalls c [] late = refl
lost_three_stalls c (n ∷ ns) late =
    rw (taken, late_refused c n late.0.0 late.0.1) (lost_three_stalls c ns late.1)
