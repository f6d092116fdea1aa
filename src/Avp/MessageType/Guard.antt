-- ===== src/Avp/MessageType/Guard.antt =====
-- Which messages `message_type_avp` lets through, and what it changes.
use xl2tpd.Base.{ℕ, ◌+◌, ◌<◌, ◌≤◌, ◌≡◌, ◌≢◌, ◌⊎◌, arith, true, some, ◌∷◌, pos}
use xl2tpd.Message.{sccrq, sccrp, scccn, hello, ocrq, ocrp, occn, icrq, icrp, iccn, wen, sli}
use xl2tpd.Message.{max_msg}
use xl2tpd.Session.{Session, Env, cur, put_cur}
use xl2tpd.Avp.Raw.{Raw, ok, raw_3}
use xl2tpd.Avp.MessageType.{message_type_avp}

-- When a message may come on a tunnel, or on a call, by the state machines of the protocol.
pub record IsExpected (s : Session) (m : ℕ) : Type 0 where
  pub named : (0 < m) × (m ≤ max_msg)
  pub tunnel_message : m < hello → s.current ≡ s.tunnel.self
  pub request : m ≡ sccrq → (s.tunnel.state ≡ 0) ⊎ (s.tunnel.state ≡ sccrq)
  pub reply : m ≡ sccrp → s.tunnel.state ≡ sccrq
  pub connected : m ≡ scccn → s.tunnel.state ≡ sccrp
  pub incoming : m ≡ icrq → (s.tunnel.state ≡ scccn) × (s.current ≡ s.tunnel.self)
  pub incoming_reply : m ≡ icrp → (s.tunnel.state ≡ scccn) × ((cur s).state ≡ icrq)
  pub incoming_connected : m ≡ iccn → (cur s).state ≡ icrp
  pub link_info : m ≡ sli → (cur s).state ≡ iccn
  pub outgoing_reply : m ≡ ocrp → (s.tunnel.state ≡ scccn) × ((cur s).state ≡ ocrq)
  pub outgoing_connected : m ≡ occn → (cur s).state ≡ ocrq
  pub no_request : (m ≢ ocrq) × (m ≢ wen)

-- What an accepted message changes: the type recorded in the call that it came for, and for an
-- ICRQ a new call at the head of the list, at an address not used before.
pub record IsRecorded (s : Session) (m : ℕ) (s' : Session) : Type 0 where
  pub other : m ≢ icrq → s' ≡ put_cur s (record (cur s) { msgtype = pos m })
  pub head : m ≡ icrq → s'.tunnel.call_head ≡ s.ticks ∷ s.tunnel.call_head
  pub count : m ≡ icrq → s'.tunnel.count ≡ s.tunnel.count + 1
  pub idle : m ≡ icrq → (s'.calls s.ticks).state ≡ 0
  pub kept :
      m ≡ icrq
      → (b : ℕ) → b ≢ s.ticks
      → s'.calls b ≡ (put_cur s (record (cur s) { msgtype = pos m })).calls b

module _ (env : Env) (s : Session) (s' : Session) (checks : s.tunnel.sanity ≡ true) where
  -- On a tunnel that checks what it receives, a message type is accepted only at its length and
  -- where the states of the tunnel and of the call expect it. What is changed is then the type
  -- recorded in the call, and for an ICRQ there is one new idle call at the head of the list.
  pub message_type_avp_accepts :
      (r : Raw) (datalen m : ℕ)
      → raw_3 r ≡ some m
      → message_type_avp env s r datalen ≡ ok s'
      → (datalen ≡ 8) × IsExpected s m × IsRecorded s m s'
  unfolding message_type_avp
  message_type_avp_accepts r datalen m read e = (ground arith, ground arith, ground arith)
