-- ===== src/Avp/Safe.antt =====
-- What keeps the handlers of avp.c inside the receive buffer and away from NULL.
pub mod Handlers
pub mod Table
pub mod Step
pub mod Loop
use xl2tpd.Base.{
  ℕ, zero, suc, ◌+◌, ◌-◌, ◌%◌, ◌≤◌, ◌≡◌, ◌≢◌, arith, true, List, [], ◌∷◌, none, length,
}
use xl2tpd.Message.{avp_hdr_size}
use xl2tpd.Session.{Session, cur}
use xl2tpd.Avp.Raw.{Raw, Reply, fault, ok, einval, word_at, has_name}

-- The tunnel checks what it receives, and has a call.
abbrev pub IsReady : Session → Type 0
IsReady s = (s.tunnel.sanity ≡ true) × (s.tunnel.call_head ≢ [])

-- A reply is no fault, and leaves the tunnel so.
abbrev pub Keeps : Reply → Type 0
Keeps fault = ⊥
Keeps (ok s) = IsReady s
Keeps (einval s) = IsReady s

-- The message type of the call has a name.
abbrev pub IsNamed : Session → Type 0
IsNamed s = has_name (cur s).msgtype ≡ true

abbrev pub KeepsNamed : Reply → Type 0
KeepsNamed fault = ⊥
KeepsNamed (ok s) = IsReady s × IsNamed s
KeepsNamed (einval s) = IsReady s × IsNamed s

-- A message type that is accepted has a name.
abbrev pub Names : Reply → Type 0
Names fault = ⊥
Names (ok s) = IsReady s × IsNamed s
Names (einval s) = IsReady s

-- The value of an AVP lies in the buffer, and with it the two words that a handler may read
-- before it looks at the length.
pub record IsReadable (r : Raw) : Type 0 where
  pub first : word_at 0 r.body ≢ none
  pub second : word_at 1 r.body ≢ none
  pub value : r.length_word % 1024 - avp_hdr_size ≤ length r.body

pub readable :
    (r : Raw)
    → 4 ≤ length r.body
    → r.length_word % 1024 - avp_hdr_size ≤ length r.body
    → IsReadable r
unfolding word_at
readable r four value = record {
  first = word_0 r.body (omega arith);
  second = word_1 r.body four;
  value = value;
}
  where
    word_0 : (l : List ℕ) → 2 ≤ length l → word_at 0 l ≢ none
    word_0 [] h = absurd (omega arith)
    word_0 (a ∷ []) h = absurd (omega arith)
    word_0 (a ∷ b ∷ l) h = cc

    word_1 : (l : List ℕ) → 4 ≤ length l → word_at 1 l ≢ none
    word_1 [] h = absurd (omega arith)
    word_1 (a ∷ []) h = absurd (omega arith)
    word_1 (a ∷ b ∷ []) h = absurd (omega arith)
    word_1 (a ∷ b ∷ c ∷ []) h = absurd (omega arith)
    word_1 (a ∷ b ∷ c ∷ d ∷ l) h = cc
