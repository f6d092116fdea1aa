-- ===== src/Finish/Moves.antt =====
-- Which state each message takes a tunnel to, and that the expected number stays.
use xl2tpd.Base.{ℕ, ◌≡◌, ◌⊎◌, inl, inr, refl, arith, Bool, true, false, Option, none, some}
use xl2tpd.Base.{if◌then◌else◌, if-intro, ◌==◌}
use xl2tpd.Base.{String, ◌>>=◌, ◌∙◌}
use xl2tpd.Message.{scccn, sccrp}
use xl2tpd.Session.{Challenge, Tunnel}
use xl2tpd.Challenge.{handle_challenge}
use xl2tpd.World.{Config, World, Result, fault, done, AnyWorld, put_tunnel, refuse, hide}
use xl2tpd.World.{send}
use xl2tpd.Finish.Tunnel.{sent}
use xl2tpd.Finish.Reply.{is_answered, send_scccn, respond_sccrp, check_sccrp}
use xl2tpd.Finish.Reply.{scccn_message, connected, own_response}
use xl2tpd.Finish.Reply.{judge_response}
use xl2tpd.Finish.Core.{SameCore, SameSome, SameResult, refuse-SameResult, hide-SameCore}
use xl2tpd.Finish.Core.{bind-SameSome, send-SameSome}
use xl2tpd.Finish.Proof.{}
use xl2tpd.Finish.Guard.{connected-SameSome}

-- The state stays or becomes `next`, and the number, the tunnel's own call and the call that the
-- message is for stay.
pub record Moves (next : ℕ) (w w' : World) : Type 0 where
  pub rec_seq : w'.session.tunnel.control_rec_seq_num ≡ w.session.tunnel.control_rec_seq_num
  pub self : w'.session.tunnel.self ≡ w.session.tunnel.self
  pub current : w'.session.current ≡ w.session.current
  pub state : (w'.session.tunnel.state ≡ w.session.tunnel.state) ⊎ (w'.session.tunnel.state ≡ next)

abbrev pub MovesResult : ℕ → World → Result → Type 0
MovesResult next w r = AnyWorld (Moves next w) r

pub Moves-SameCore :
    {next : ℕ} {w w1 : World} (w2 : World) → Moves next w w1 → SameCore w1 w2 → Moves next w w2
Moves-SameCore w2 m same = ground (arith, m, same)

pub Moves-refl : (next : ℕ) (w : World) → Moves next w w
Moves-refl next w = record { rec_seq = refl; self = refl; current = refl; state = inl refl }

pub moved :
    {next : ℕ} {w w1 : World} (r : Result)
    → Moves next w w1
    → SameResult w1 r
    → MovesResult next w r
moved fault m same = tt
moved (done bad w2) m same = Moves-SameCore w2 m same

pub moved_sent :
    {next : ℕ} {w w1 : World} (o : Option World)
    → Moves next w w1
    → SameSome w1 o
    → MovesResult next w (sent o)
moved_sent none m same = tt
moved_sent (some w2) m same = Moves-SameCore w2 m same

module _ (cfg : Config) (w0 : World) where
  -- A change of the tunnel that leaves what `Moves` names.
  pub Moves-put_tunnel :
      {next : ℕ} (w : World) (t : Tunnel)
      → Moves next w0 w
      → t.control_rec_seq_num ≡ w.session.tunnel.control_rec_seq_num
      → t.self ≡ w.session.tunnel.self
      → t.state ≡ w.session.tunnel.state
      → Moves next w0 (put_tunnel w t)
  Moves-put_tunnel w t m a b c = record {
    rec_seq = a ∙ m.rec_seq;
    self = b ∙ m.self;
    current = m.current;
    state = elim m.state [ inl e ↦ inl (c ∙ e) | inr e ↦ inr (c ∙ e) ];
  }

  -- The state is set.
  pub Moves-state :
      {next : ℕ} (w : World) (t : Tunnel)
      → Moves next w0 w
      → t.control_rec_seq_num ≡ w.session.tunnel.control_rec_seq_num
      → t.self ≡ w.session.tunnel.self
      → t.state ≡ next
      → Moves next w0 (put_tunnel w t)
  Moves-state w t m a b c = record {
    rec_seq = a ∙ m.rec_seq;
    self = b ∙ m.self;
    current = m.current;
    state = inr c;
  }

  pub refused :
      {next : ℕ} (w : World) (msg : String) → Moves next w0 w → MovesResult next w0 (refuse w msg)
  refused w msg m = moved (refuse w msg) m (refuse-SameResult w msg)

  send_scccn-Moves : (w : World) → Moves scccn w0 w → MovesResult scccn w0 (sent (send_scccn cfg w))
  unfolding send_scccn
  send_scccn-Moves w m =
      let t = record (w.session.tunnel) { state = scccn } in
      let w1 = hide cfg (put_tunnel w t) in
      let message = scccn_message w1.session.tunnel in
      let next = connected cfg w1.session.tunnel.lac in
      moved_sent (send w1 w.session.current message >>= next)
        (Moves-SameCore w1 (Moves-state w t m refl refl refl) (hide-SameCore cfg (put_tunnel w t)))
        (bind-SameSome w1 (send w1 w.session.current message) next
          (send-SameSome w1 w.session.current message)
          (connected-SameSome cfg w1.session.tunnel.lac))

  own_response-Moves :
      (w : World) (o : Option (Bool × Challenge))
      → Moves scccn w0 w
      → MovesResult scccn w0 (own_response cfg w o)
  unfolding own_response
  own_response-Moves w none m = tt
  own_response-Moves w (some (true, ch)) m =
      let t = record (w.session.tunnel) { chal_us = ch } in
      refused (put_tunnel w t) "No secret key on our end" (Moves-put_tunnel w t m refl refl refl)
  own_response-Moves w (some (false, ch)) m =
      let t = record (w.session.tunnel) { chal_us = ch } in
      send_scccn-Moves (put_tunnel w t) (Moves-put_tunnel w t m refl refl refl)

  respond_sccrp-Moves : (w : World) → Moves scccn w0 w → MovesResult scccn w0 (respond_sccrp cfg w)
  unfolding respond_sccrp
  respond_sccrp-Moves w m =
      let t = w.session.tunnel in
      let o = handle_challenge cfg t (record (t.chal_us) { ss = scccn }) in
      if-intro (MovesResult scccn w0) (t.chal_us.state == 0) {x = sent (send_scccn cfg w)}
        {y = own_response cfg w o} (send_scccn-Moves w m) (own_response-Moves w o m)

  judge_response-Moves :
      (w : World) (o : Option (Bool × Challenge))
      → Moves scccn w0 w
      → MovesResult scccn w0 (judge_response cfg w o)
  unfolding judge_response
  judge_response-Moves w none m = tt
  judge_response-Moves w (some (failed, ch)) m =
      let t = record (w.session.tunnel) { chal_them = ch } in
      let w1 = put_tunnel w t in
      let m1 = Moves-put_tunnel w t m refl refl refl in
      let r1 = refuse w1 "No secret key on our side" in
      let r2 = respond_sccrp cfg w1 in
      let r3 = refuse w1 "Invalid challenge authentication" in
      if-intro (MovesResult scccn w0) failed {x = r1} {y = if is_answered ch then r2 else r3}
        (refused w1 "No secret key on our side" m1)
        (if-intro (MovesResult scccn w0) (is_answered ch) {x = r2} {y = r3}
          (respond_sccrp-Moves w1 m1) (refused w1 "Invalid challenge authentication" m1))

  pub check_sccrp-Moves : (w : World) → Moves scccn w0 w → MovesResult scccn w0 (check_sccrp cfg w)
  unfolding check_sccrp
  check_sccrp-Moves w m =
      let t = w.session.tunnel in
      let o = handle_challenge cfg t (record (t.chal_them) { ss = sccrp }) in
      if-intro (MovesResult scccn w0) (t.chal_them.state == 0) {x = respond_sccrp cfg w}
        {y = judge_response cfg w o} (respond_sccrp-Moves w m) (judge_response-Moves w o m)
