-- ===== src/Daemon/Login.antt =====
-- A tunnel that has challenged its peer, and knows what response to expect, is connected only by it.
use mathlib.Core.Path.{subst}
use xl2tpd.Base.{
  ℕ, suc, sym, ◌∙◌, Bool-cases, ==→eq, ==→ne, ◌≡◌, ◌≢◌, ◌⊎◌, inl, inr, refl, arith, true, false,
  not, if-intro,
}
use xl2tpd.Base.{List, [], ◌∷◌, Option, none, some, if◌then◌else◌, ◌==◌, minus_one}
use xl2tpd.Message.{scccn, control_hdr_size}
use xl2tpd.Session.{Session, cur, put_cur}
use xl2tpd.Avp.Raw.{Reply, fault, ok, einval}
use xl2tpd.Avp.Loop.{handle_avps}
use xl2tpd.Avp.Link.{SameLink}
use xl2tpd.Avp.Link.Loop.{SameMaybe, handle_avps-SameMaybe}
use xl2tpd.Control.{Checked, check_control, handle_zlb}
use xl2tpd.World.{Config, World, Result, done, AnyWorld, and_then, put_session}
use xl2tpd.Finish.{control_finish}
use xl2tpd.Finish.Core.{SameCore, AnyWorld-map}
use xl2tpd.Finish.Proof.{IsPosed, IsPassed, theirs, IsGuarded, IsGuarded-SameCore}
use xl2tpd.Finish.Connected.{control_finish-Guarded}
use xl2tpd.Daemon.{run}
use xl2tpd.Daemon.{
  Packet, finish, process, after_check, handle_message, acknowledge, acknowledged, arrived,
}
use xl2tpd.Daemon.{receive, send_headers}

-- What comes before `control_finish` leaves all of the challenge but the reply.
record SameProof (s s' : Session) : Type 0 where
  state : s'.tunnel.state ≡ s.tunnel.state
  chal : s'.tunnel.chal_them.chal ≡ s.tunnel.chal_them.chal
  chal_len : s'.tunnel.chal_them.chal_len ≡ s.tunnel.chal_them.chal_len
  response : s'.tunnel.chal_them.response ≡ s.tunnel.chal_them.response
  challenged : s'.tunnel.chal_them.state ≡ s.tunnel.chal_them.state

IsPosed-SameProof :
    (cfg : Config) (s s' : Session)
    → SameProof s s'
    → IsPosed cfg s.tunnel.chal_them
    → IsPosed cfg s'.tunnel.chal_them
IsPosed-SameProof cfg s s' same p = record {
  posed = λ e. p.posed (ground (arith, e, same));
  ours = rw same.chal p.ours;
  size = ground (arith, same, p.size);
  expected = rw same.response p.expected;
}

SameLink-SameProof : (s s' : Session) → SameLink s s' → SameProof s s'
SameLink-SameProof s s' same = record {
  state = same.state;
  chal = same.chal;
  chal_len = same.chal_len;
  response = same.response;
  challenged = same.challenged;
}

check_control-SameProof :
    (w : World) (p : Packet)
    → SameProof w.session (check_control (arrived w p).session p.header p.size).session
unfolding check_control
check_control-SameProof w p = ground arith

pub acknowledged-SameCore : (w : World) → SameCore w (acknowledged w)
unfolding acknowledged
acknowledged-SameCore w = ground arith

module _ (cfg : Config) (st : ℕ) where
  abbrev pub Safe : Result → Type 0
  Safe r = AnyWorld (IsGuarded cfg st) r

  -- Before the end of `handle_avps` the state is the same.
  safe_after :
      (s s' : Session)
      → s.tunnel.state ≡ st
      → IsPosed cfg s.tunnel.chal_them
      → SameProof s s'
      → IsPosed cfg s'.tunnel.chal_them × (s'.tunnel.state ≡ st)
  safe_after s s' e posed same = (IsPosed-SameProof cfg s s' same posed, same.state ∙ e)

  acknowledge-Safe : (r : Result) → Safe r → Safe (acknowledge r)
  unfolding acknowledge
  acknowledge-Safe Result.fault safe = tt
  acknowledge-Safe (done bad w) safe =
      IsGuarded-SameCore cfg st w (acknowledged w) (acknowledged-SameCore w) safe

  finish-Safe :
      (w : World) (o : Option Reply)
      → w.session.tunnel.state ≡ st
      → IsPosed cfg (theirs w)
      → SameMaybe w.session o
      → Safe (finish cfg w o)
  unfolding finish
  finish-Safe w none e posed same = tt
  finish-Safe w (some fault) e posed same = tt
  finish-Safe w (some (einval s)) e posed same =
      let (p, f) = safe_after w.session s e posed (SameLink-SameProof w.session s same) in
      (p, λ g. inl (sym f ∙ g))
  finish-Safe w (some (ok s)) e posed same =
      let (p, f) = safe_after w.session s e posed (SameLink-SameProof w.session s same) in
      subst (λ (k : ℕ). AnyWorld (IsGuarded cfg k) (control_finish cfg (put_session w s))) f
        (control_finish-Guarded cfg (put_session w s) p)

  process-Safe :
      (w : World) (p : Packet)
      → w.session.tunnel.state ≡ st
      → IsPosed cfg (theirs w)
      → Safe (process cfg w p)
  unfolding process
  process-Safe w p e posed =
      finish-Safe w (handle_avps cfg.env (suc p.size) w.session p.size p.body) e posed
        (handle_avps-SameMaybe cfg.env (suc p.size) w.session p.size p.body)

  after_check-Safe :
      (w : World) (p : Packet) (k : Checked)
      → k.session.tunnel.state ≡ st
      → IsPosed cfg k.session.tunnel.chal_them
      → Safe (after_check cfg w p k)
  unfolding after_check handle_zlb
  after_check-Safe w p k e posed =
      let w1 = send_headers (put_session w k.session) k.sent in
      let zlb = done false (put_session w1 (handle_zlb k.session)) in
      let w2 =
        put_session w1 (put_cur k.session (record (cur k.session) { msgtype = minus_one })) in
      if-intro Safe (not k.valid) {x = done true w1}
        {y = if p.size == control_hdr_size then zlb else process cfg w2 p}
        (posed, λ g. inl (sym e ∙ g))
        (if-intro Safe (p.size == control_hdr_size) {x = zlb} {y = process cfg w2 p}
          (posed, λ g. inl (sym e ∙ g)) (process-Safe w2 p e posed))

-- Whatever packet comes to a tunnel that has challenged its peer and computed the response that it
-- expects, the tunnel stays so; and if it is connected then and was not before, the reply of the peer is the expected response, a digest
-- of a secret of ours and of bytes that we have drawn.
pub receive-Safe :
    (cfg : Config) (w : World) (p : Packet)
    → IsPosed cfg (theirs w)
    → AnyWorld (IsGuarded cfg w.session.tunnel.state) (receive cfg w p)
unfolding receive handle_message
receive-Safe cfg w p posed =
    let w1 = arrived w p in
    let k = check_control w1.session p.header p.size in
    let same = check_control-SameProof w p in
    let safe = safe_after cfg w.session.tunnel.state w.session k.session refl posed same in
    acknowledge-Safe cfg w.session.tunnel.state (after_check cfg w1 p k)
      (after_check-Safe cfg w.session.tunnel.state w1 p k safe.1 safe.0)

-- The result has a state, and this one.
abbrev Occurs : (World → Type 0) → Result → Type 0
Occurs P Result.fault = ⊥
Occurs P (done bad w) = P w

-- Behind one of the packets, the peer had passed.
abbrev pub SomePassed : Config → World → List Packet → Type 0
SomePassed cfg w [] = ⊥
SomePassed cfg w (p ∷ ps) =
    Occurs (λ w1. (IsPosed cfg (theirs w1) × IsPassed (theirs w1)) ⊎ SomePassed cfg w1 ps)
      (receive cfg w p)

abbrev Connects : Config → Type 0 → World → Type 0
Connects cfg P w = w.session.tunnel.state ≡ scccn → P

any_anyway : (P : Type 0) (cfg : Config) → P → (r : Result) → AnyWorld (Connects cfg P) r
any_anyway P cfg p Result.fault = tt
any_anyway P cfg p (done bad w) = λ e. p

-- After the first packet.
connected_later :
    (cfg : Config) (st : ℕ) (k : World → Result) (Q : World → Type 0) (r : Result)
    → st ≢ scccn
    → AnyWorld (IsGuarded cfg st) r
    → ((w1 : World)
        → IsPosed cfg (theirs w1)
        → w1.session.tunnel.state ≢ scccn
        → AnyWorld (Connects cfg (Q w1)) (k w1))
    → AnyWorld
        (Connects cfg (Occurs (λ w1. (IsPosed cfg (theirs w1) × IsPassed (theirs w1)) ⊎ Q w1) r))
        (and_then r k)
connected_later cfg st k Q Result.fault other safe later = tt
connected_later cfg st k Q (done bad w1) other (posed, safe) later =
    elim (Bool-cases (w1.session.tunnel.state == scccn)) [
      | inl e ↦ elim (safe (==→eq w1.session.tunnel.state scccn e)) [
        | inl old ↦ absurd (other old)
        | inr passed ↦
            any_anyway ((IsPosed cfg (theirs w1) × IsPassed (theirs w1)) ⊎ Q w1) cfg
              (inl (posed, passed)) (k w1)
      ]
      | inr e ↦
          AnyWorld-map {P = Connects cfg (Q w1)} (λ w2 h. λ f. inr (h f)) (k w1)
            (later w1 posed (==→ne w1.session.tunnel.state scccn e))
    ]

-- For a tunnel that is not connected, has challenged its peer, and has computed the response that it
-- expects, a digest of a secret of ours and of sixteen bytes that we have drawn: whatever packets
-- come, in any order and on any call, the tunnel is connected at the end only if behind one of them
-- the peer's reply was the response that we expected then, which was such a digest.
pub run_connected :
    (cfg : Config) (w : World) (ps : List Packet)
    → IsPosed cfg (theirs w)
    → w.session.tunnel.state ≢ scccn
    → AnyWorld (λ w'. w'.session.tunnel.state ≡ scccn → SomePassed cfg w ps) (run cfg w ps)
unfolding run
run_connected cfg w [] posed other = λ e. absurd (other e)
run_connected cfg w (p ∷ ps) posed other =
    connected_later cfg w.session.tunnel.state (λ w1. run cfg w1 ps) (λ w1. SomePassed cfg w1 ps)
      (receive cfg w p) other (receive-Safe cfg w p posed)
      (λ w1 posed1 other1. run_connected cfg w1 ps posed1 other1)
