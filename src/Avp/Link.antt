-- ===== src/Avp/Link.antt =====
-- What no AVP changes: the numbers of the control connection, the tunnel's own number, state and
-- configured entries, our challenge to the peer, and which call a message is for.
pub mod Handlers
pub mod Loop
use xl2tpd.Base.{ℕ, ◌≡◌, refl}
use xl2tpd.Session.{Session, Tunnel}
use xl2tpd.Avp.Raw.{Reply, fault, ok, einval}

pub record SameLink (s s' : Session) : Type 0 where
  pub control_seq_num : s'.tunnel.control_seq_num ≡ s.tunnel.control_seq_num
  pub control_rec_seq_num : s'.tunnel.control_rec_seq_num ≡ s.tunnel.control_rec_seq_num
  pub clr : s'.tunnel.clr ≡ s.tunnel.clr
  pub state : s'.tunnel.state ≡ s.tunnel.state
  pub ourtid : s'.tunnel.ourtid ≡ s.tunnel.ourtid
  pub self : s'.tunnel.self ≡ s.tunnel.self
  pub current : s'.current ≡ s.current
  pub lns : s'.tunnel.lns ≡ s.tunnel.lns
  pub lac : s'.tunnel.lac ≡ s.tunnel.lac
  pub peer : s'.tunnel.peer ≡ s.tunnel.peer
  pub chal : s'.tunnel.chal_them.chal ≡ s.tunnel.chal_them.chal
  pub chal_len : s'.tunnel.chal_them.chal_len ≡ s.tunnel.chal_them.chal_len
  pub response : s'.tunnel.chal_them.response ≡ s.tunnel.chal_them.response
  pub challenged : s'.tunnel.chal_them.state ≡ s.tunnel.chal_them.state

-- The state in a reply, if it has one.
abbrev pub SameReply : Session → Reply → Type 0
SameReply s fault = Unit
SameReply s (ok s') = SameLink s s'
SameReply s (einval s') = SameLink s s'
