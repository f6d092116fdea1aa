-- ===== src/Avp/Safe/Loop.antt =====
-- The loop of `handle_avps` stays inside the receive buffer once the tunnel has a call.
use mathlib.Core.Path.{subst}
use xl2tpd.Base.{ℕ, zero, suc, ◌+◌, ◌-◌, ◌≤◌, ◌<◌, ◌≡◌, ◌≢◌, refl, arith, Bool, true, false, ◌||◌}
use xl2tpd.Base.{List, [], ◌∷◌, Option, none, some, length, drop, length-drop, ==→ne}
use xl2tpd.Base.{Bool-cases, inl, inr, ltb, ltb→le, ◌==◌, from_be16}
use xl2tpd.Message.{avp_hdr_size, control_hdr_size}
use xl2tpd.Session.{Session, Env}
use xl2tpd.Avp.Raw.{Reply}
use xl2tpd.Avp.Loop.{Step, halt, next, ambit, alength}
use xl2tpd.Avp.Loop.{one_avp, header, end_round, avp_round, avp_loop}
use xl2tpd.Avp.Loop.{handle_avps}
use xl2tpd.Avp.Safe.{IsReady, IsNamed, Keeps}
use xl2tpd.Avp.Safe.Table.{}
use xl2tpd.Avp.Safe.Step.{KeepsStep, Follows, one_avp-Keeps}

abbrev KeepsMaybe : Option Reply → Type 0
KeepsMaybe none = Unit
KeepsMaybe (some r) = Keeps r

end_round-Keeps :
    (len word : ℕ) (rest : Session → ℕ → Option Reply) (step : Step)
    → KeepsStep step
    → ((s : Session)
        → IsReady s
        → IsNamed s
        → 0 < alength word
        → alength word ≤ len
        → KeepsMaybe (rest s (alength word)))
    → KeepsMaybe (end_round len word rest step)
unfolding end_round
end_round-Keeps len word rest (halt reply) k follows = k
end_round-Keeps len word rest (next s) k follows =
    elim (Bool-cases (alength word == 0 || ltb len (alength word))) [
      | inl stop ↦ rw stop k.0
      | inr more ↦ rw more (follows s k.0 k.1 (ground arith) (ground arith))
    ]

header_total :
    (buf : List ℕ)
    → avp_hdr_size ≤ length buf
    → (word : ℕ) × (attr : ℕ) × (header buf ≡ some (word, attr))
unfolding header
header_total [] h = absurd (omega arith)
header_total (a ∷ []) h = absurd (omega arith)
header_total (a ∷ b ∷ []) h = absurd (omega arith)
header_total (a ∷ b ∷ c ∷ []) h = absurd (omega arith)
header_total (a ∷ b ∷ c ∷ d ∷ []) h = absurd (omega arith)
header_total (a ∷ b ∷ c ∷ d ∷ e ∷ []) h = absurd (omega arith)
header_total (a ∷ b ∷ c ∷ d ∷ e ∷ f ∷ l) h = (from_be16 a b, from_be16 e f, refl)

-- The header of an AVP is as it should be: the first is the message type, and each message type is
-- mandatory. `rest` is for what comes behind it.
abbrev pub TypedBy : Bool → (ℕ → Type 0) → Option (ℕ × ℕ) → Type 0
TypedBy first rest none = Unit
TypedBy first rest (some (word, attr)) =
    (first ≡ true → attr ≡ 0) × (attr ≡ 0 → ambit word ≡ true) × rest (alength word)

-- The AVPs of a packet, as far as the fuel goes: the first is a message type, and each message type
-- has the M bit.
abbrev pub HasTypes : ℕ → Bool → ℕ → List ℕ → Type 0
HasTypes zero first len buf = Unit
HasTypes (suc fuel) first len buf =
    len ≢ 0 → TypedBy first (λ n. HasTypes fuel false (len - n) (drop n buf)) (header buf)

typed-Follows :
    (first : Bool) (attr word : ℕ) (s : Session)
    → (first ≡ true → attr ≡ 0)
    → (attr ≡ 0 → ambit word ≡ true)
    → (first ≡ false → IsNamed s)
    → Follows attr word s
typed-Follows true zero word s start m named = m refl
typed-Follows true (suc n) word s start m named = absurd (ground (arith, start refl))
typed-Follows false zero word s start m named = m refl
typed-Follows false (suc n) word s start m named = named refl

round-Keeps :
    (env : Env) (first : Bool) (len : ℕ) (s : Session) (buf : List ℕ) (word attr : ℕ)
    (typed : ℕ → Type 0) (rest : Session → ℕ → Option Reply)
    → header buf ≡ some (word, attr)
    → TypedBy first typed (some (word, attr))
    → IsReady s
    → (first ≡ false → IsNamed s)
    → len ≢ 0
    → len + 5 ≤ length buf
    → ((s' : Session) (n : ℕ)
        → typed n
        → IsReady s'
        → IsNamed s'
        → 0 < n
        → n ≤ len
        → KeepsMaybe (rest s' n))
    → KeepsMaybe (avp_round env first len s buf rest)
unfolding avp_round
round-Keeps env first len s buf word attr typed rest e (start, m, more) ready named nonzero h
      later =
    rw (avp_round, e)
      (end_round-Keeps len word rest (one_avp env first len s attr word (drop avp_hdr_size buf))
        (one_avp-Keeps env first len s attr word (drop avp_hdr_size buf) ready
          (typed-Follows first attr word s start m named)
          (omega (arith, length-drop {0} avp_hdr_size buf, nonzero, h)))
        (λ s' k n p q. later s' (alength word) more k n p q))

avp_loop-Keeps :
    (env : Env) (fuel : ℕ) (first : Bool) (len : ℕ) (s : Session) (buf : List ℕ)
    → IsReady s
    → (first ≡ false → IsNamed s)
    → HasTypes fuel first len buf
    → len + 5 ≤ length buf
    → KeepsMaybe (avp_loop env fuel first len s buf)
unfolding avp_loop
avp_loop-Keeps env zero first len s buf ready named typed h = tt
avp_loop-Keeps env (suc fuel) first len s buf ready named typed h = elim (Bool-cases (len == 0)) [
  | inl done ↦ rw done ready
  | inr more ↦
      let nonzero = ==→ne len 0 more in
      let (word, attr, e) = header_total buf (omega (arith, h, nonzero)) in
      let rest = λ (n : ℕ). HasTypes fuel false (len - n) (drop n buf) in
      rw more (
        round-Keeps env first len s buf word attr rest
          (λ s' n. avp_loop env fuel false (len - n) s' (drop n buf)) e
          (subst (TypedBy first rest) e (typed nonzero)) ready named nonzero h
          (λ s' n t k named1 p q.
            avp_loop-Keeps env fuel false (len - n) s' (drop n buf) k (λ off. named1) t
              (omega (arith, length-drop {0} n buf, h, p, q))))
]

-- Once a tunnel has a call, and checks what it receives, no packet that begins with its message
-- type, and has the M bit on each message type, makes a handler read or write through NULL, past
-- the receive buffer or past the table of message names, as long as five bytes of the buffer lie
-- behind the packet; and whatever the reply, the tunnel still has a call and still checks.
pub handle_avps-Keeps :
    (env : Env) (fuel : ℕ) (s : Session) (size : ℕ) (buf : List ℕ) (r : Reply)
    → IsReady s
    → HasTypes fuel true (size - control_hdr_size) buf
    → size + 5 ≤ control_hdr_size + length buf
    → handle_avps env fuel s size buf ≡ some r
    → Keeps r
unfolding handle_avps
handle_avps-Keeps env fuel s size buf r ready typed h e =
    let all : KeepsMaybe (handle_avps env fuel s size buf) = found in rw e at all
  where
    found : KeepsMaybe (handle_avps env fuel s size buf)
    found = elim (Bool-cases (ltb size control_hdr_size)) [
      | inl short ↦ rw short ready
      | inr long ↦ rw long (
          avp_loop-Keeps env fuel true (size - control_hdr_size) s buf ready
            (λ e. absurd (ground (arith, e))) typed
            (omega (arith, ltb→le size control_hdr_size long, h)))
    ]
