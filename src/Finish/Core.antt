-- ===== src/Finish/Core.antt =====
-- What the steps of `control_finish` share: they leave the tunnel's numbers, its state, its entries
-- and our challenge to the peer as they are, and go on with the same call.
use xl2tpd.Base.{ℕ, ◌≡◌, arith, Bool, true, false, List, [], ◌∷◌, Option, none, some}
use xl2tpd.Base.{String, ◌==◌, if◌then◌else◌, if-intro, ◌>>=◌}
use xl2tpd.Session.{Call}
use xl2tpd.Send.{Buffer}
use xl2tpd.World.{
  Config, World, Event, Result, fault, done, refuse, send, hide, put_call, AnyWorld, emit_event,
  deschedule_all,
}
use xl2tpd.Finish.Tunnel.{sent}
use xl2tpd.Close.{redial, free_addresses, end_pppd, destroy_call, destroy_calls, destroy_tunnel}
use xl2tpd.Close.{
  unlink_call, leave_lac, leave_tunnel_lac, put_lac, send_cdn, send_stop_ccn, cdn_message,
  stop_ccn_message, marked, silenced, close_calls, note_close, close_one, close_all, close_tunnel,
  call_close,
}

pub record SameCore (w w' : World) : Type 0 where
  pub rec_seq : w'.session.tunnel.control_rec_seq_num ≡ w.session.tunnel.control_rec_seq_num
  pub self : w'.session.tunnel.self ≡ w.session.tunnel.self
  pub ourtid : w'.session.tunnel.ourtid ≡ w.session.tunnel.ourtid
  pub current : w'.session.current ≡ w.session.current
  pub state : w'.session.tunnel.state ≡ w.session.tunnel.state
  pub lns : w'.session.tunnel.lns ≡ w.session.tunnel.lns
  pub chal : w'.session.tunnel.chal_them.chal ≡ w.session.tunnel.chal_them.chal
  pub chal_len : w'.session.tunnel.chal_them.chal_len ≡ w.session.tunnel.chal_them.chal_len
  pub response : w'.session.tunnel.chal_them.response ≡ w.session.tunnel.chal_them.response
  pub reply : w'.session.tunnel.chal_them.reply ≡ w.session.tunnel.chal_them.reply
  pub challenged : w'.session.tunnel.chal_them.state ≡ w.session.tunnel.chal_them.state

abbrev pub AnySome : (World → Type 0) → Option World → Type 0
AnySome P none = Unit
AnySome P (some w) = P w

abbrev pub SameSome : World → Option World → Type 0
SameSome w o = AnySome (SameCore w) o

abbrev pub SameResult : World → Result → Type 0
SameResult w r = AnyWorld (SameCore w) r

pub SameCore-refl : (w : World) → SameCore w w
SameCore-refl w = ground arith

infixr 5 ◌⨾◌
pub ◌⨾◌ : {w w1 w2 : World} → SameCore w w1 → SameCore w1 w2 → SameCore w w2
a ⨾ b = ground arith

pub SameSome-trans :
    {w w1 : World} (o : Option World) → SameCore w w1 → SameSome w1 o → SameSome w o
SameSome-trans none a b = tt
SameSome-trans (some w2) a b = a ⨾ b

pub SameResult-trans :
    {w w1 : World} (r : Result) → SameCore w w1 → SameResult w1 r → SameResult w r
SameResult-trans fault a b = tt
SameResult-trans (done bad w2) a b = a ⨾ b

pub AnyWorld-map :
    {P Q : World → Type 0} → ((w : World) → P w → Q w) → (r : Result) → AnyWorld P r → AnyWorld Q r
AnyWorld-map f fault h = tt
AnyWorld-map f (done bad w) h = f w h

-- A test.
pub if-SameResult :
    (w : World) (b : Bool) (x y : Result)
    → SameResult w x
    → SameResult w y
    → SameResult w (if b then x else y)
if-SameResult w true x y p q = p
if-SameResult w false x y p q = q

-- A `do` block.
pub bind-SameSome :
    (w : World) (o : Option World) (k : World → Option World)
    → SameSome w o
    → ((w1 : World) → SameSome w1 (k w1))
    → SameSome w (o >>= k)
bind-SameSome w none k a b = tt
bind-SameSome w (some w1) k a b = SameSome-trans (k w1) a (b w1)

pub refuse-SameResult : (w : World) (msg : String) → SameResult w (refuse w msg)
unfolding refuse
refuse-SameResult w msg = ground arith

pub hide-SameCore : (cfg : Config) (w : World) → SameCore w (hide cfg w)
unfolding hide
hide-SameCore cfg w = ground arith

pub send-SameSome : (w : World) (a : ℕ) (o : Option Buffer) → SameSome w (send w a o)
unfolding send
send-SameSome w a o = ground arith

-- A state that is made ready, and the message that is then sent.
pub prepared-SameSome :
    (w w1 : World) (a : ℕ) (o : Option Buffer) → SameCore w w1 → SameSome w (send w1 a o)
prepared-SameSome w w1 a o same = SameSome-trans (send w1 a o) same (send-SameSome w1 a o)

pub sent-SameResult : (w : World) (o : Option World) → SameSome w o → SameResult w (sent o)
sent-SameResult w none same = tt
sent-SameResult w (some w') same = same

pub emit_event-SameCore : (w : World) (e : Event) → SameCore w (emit_event w e)
emit_event-SameCore w e = ground arith

pub put_call-SameCore : (w : World) (a : ℕ) (c : Call) → SameCore w (put_call w a c)
put_call-SameCore w a c = ground arith

module _ (cfg : Config) where
  redial-SameCore : (l : ℕ) (w : World) → SameCore w (redial cfg l w)
  unfolding redial
  redial-SameCore l w = ground arith

  free_addresses-SameCore : (c : Call) (w : World) → SameCore w (free_addresses cfg c w)
  unfolding free_addresses
  free_addresses-SameCore c w = ground arith

  end_pppd-SameCore : (a : ℕ) (c : Call) (w : World) → SameCore w (end_pppd a c w)
  unfolding end_pppd
  end_pppd-SameCore a c w = ground arith

  unlink_call-SameCore : (w : World) (a : ℕ) → SameCore w (unlink_call w a)
  unfolding unlink_call
  unlink_call-SameCore w a = ground arith

  leave_lac-SameCore : (o : Option ℕ) (w : World) → SameCore w (leave_lac cfg o w)
  unfolding leave_lac
  leave_lac-SameCore none w = SameCore-refl w
  leave_lac-SameCore (some l) w =
      ground (arith, redial-SameCore l (put_lac w l (record (w.lacs l) { c = none })))

  leave_tunnel_lac-SameCore : (o : Option ℕ) (w : World) → SameCore w (leave_tunnel_lac cfg o w)
  unfolding leave_tunnel_lac
  leave_tunnel_lac-SameCore none w = SameCore-refl w
  leave_tunnel_lac-SameCore (some l) w =
      ground (arith, redial-SameCore l (put_lac w l (record (w.lacs l) { t = none })))

  pub destroy_call-SameCore : (w : World) (a : ℕ) → SameCore w (destroy_call cfg w a)
  unfolding destroy_call
  destroy_call-SameCore w a =
      let c = w.session.calls a in
      let w1 = free_addresses cfg c w in
      let w2 = end_pppd a c w1 in
      free_addresses-SameCore c w
      ⨾ end_pppd-SameCore a c w1
      ⨾ unlink_call-SameCore w2 a
      ⨾ ground (arith, leave_lac-SameCore c.lac (unlink_call w2 a))

  destroy_calls-SameCore : (w : World) (l : List ℕ) → SameCore w (destroy_calls cfg w l)
  unfolding destroy_calls
  destroy_calls-SameCore w [] = SameCore-refl w
  destroy_calls-SameCore w (a ∷ l) =
      destroy_call-SameCore w a ⨾ destroy_calls-SameCore (destroy_call cfg w a) l

  destroy_tunnel-SameCore : (w : World) → SameCore w (destroy_tunnel cfg w)
  unfolding destroy_tunnel
  destroy_tunnel-SameCore w =
      let w1 = destroy_calls cfg w w.session.tunnel.call_head in
      let w2 = leave_tunnel_lac cfg w.session.tunnel.lac w1 in
      destroy_calls-SameCore w w.session.tunnel.call_head
      ⨾ leave_tunnel_lac-SameCore w.session.tunnel.lac w1
      ⨾ ground (arith, destroy_call-SameCore w2 w.session.tunnel.self)

  note_close-SameCore : (w : World) (a : ℕ) → SameCore w (note_close w a)
  unfolding note_close
  note_close-SameCore w a = ground arith

  send_cdn-SameSome : (w : World) (a : ℕ) → SameSome w (send_cdn cfg w a)
  unfolding send_cdn
  send_cdn-SameSome w a =
      let w1 = note_close (hide cfg w) a in
      let message = cdn_message cfg w1.session.tunnel (w.session.calls a) in
      SameSome-trans (send w1 a message) (hide-SameCore cfg w ⨾ note_close-SameCore (hide cfg w) a)
        (send-SameSome w1 a message)

  send_stop_ccn-SameSome : (w : World) (a : ℕ) → SameSome w (send_stop_ccn cfg w a)
  unfolding send_stop_ccn
  send_stop_ccn-SameSome w a =
      let w1 = note_close (hide cfg w) a in
      let message = stop_ccn_message cfg w1.session.tunnel (w.session.calls a) in
      SameSome-trans (send w1 a message) (hide-SameCore cfg w ⨾ note_close-SameCore (hide cfg w) a)
        (send-SameSome w1 a message)

  pub close_one-SameSome : (w : World) (a : ℕ) → SameSome w (close_one cfg w a)
  unfolding close_one
  close_one-SameSome w a =
      if-intro (SameSome w) (w.session.calls a).closing (destroy_call-SameCore w a)
        (bind-SameSome w (send_cdn cfg w a) (marked a) (send_cdn-SameSome w a) (λ w2. ground arith))

  close_all-SameSome : (l : List ℕ) (w : World) → SameSome w (close_all cfg l w)
  unfolding close_all
  close_all-SameSome [] w = SameCore-refl w
  close_all-SameSome (a ∷ l) w =
      bind-SameSome w (close_one cfg (silenced w a) a) (close_all cfg l)
        (SameSome-trans (close_one cfg (silenced w a) a) (put_call-SameCore w a _)
          (close_one-SameSome (silenced w a) a))
        (close_all-SameSome l)

  close_tunnel-SameSome : (w : World) → SameSome w (close_tunnel cfg w)
  unfolding close_tunnel
  close_tunnel-SameSome w =
      let a = w.session.tunnel.self in
      let w0 = emit_event w deschedule_all in
      if-intro (SameSome w) (w.session.calls a).closing (ground (arith, destroy_tunnel-SameCore w0))
        (bind-SameSome w (send_stop_ccn cfg w0 a >>= close_calls cfg) (marked a)
          (bind-SameSome w (send_stop_ccn cfg w0 a) (close_calls cfg)
            (SameSome-trans (send_stop_ccn cfg w0 a) (emit_event-SameCore w deschedule_all)
              (send_stop_ccn-SameSome w0 a))
            (λ w2. close_all-SameSome w2.session.tunnel.call_head w2))
          (λ w3. ground arith))

  pub call_close-SameSome : (w : World) (a : ℕ) → SameSome w (call_close cfg w a)
  unfolding call_close
  call_close-SameSome w a =
      if-intro (SameSome w) (a == w.session.tunnel.self) (close_tunnel-SameSome w)
        (close_one-SameSome w a)
