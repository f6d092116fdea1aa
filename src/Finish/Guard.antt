-- ===== src/Finish/Guard.antt =====
-- The branches of `control_finish` about a tunnel, when the tunnel has challenged its peer.
use mathlib.Core.Path.{subst}
use xl2tpd.Base.{ℕ, ◌≡◌, inl, inr, arith, Bool, true, false, Option, none, some}
use xl2tpd.Base.{not, if◌then◌else◌, if-intro, ◌==◌, Bool-cases, is_neg, not_positive}
use xl2tpd.Base.{◌&&◌, ◌||◌, ◌>>=◌, sym, ne→==}
use xl2tpd.Message.{scccn, sccrp}
use xl2tpd.Session.{Challenge}
use xl2tpd.Challenge.{handle_challenge}
use xl2tpd.World.{Config, World, Result, AnyWorld, put_tunnel, refuse, hide, nothing}
use xl2tpd.World.{send}
use xl2tpd.Finish.Dial.{magic_lac_dial}
use xl2tpd.Finish.Tunnel.{send_sccrq, sent}
use xl2tpd.Finish.Request.{send_sccrp, respond}
use xl2tpd.Finish.Reply.{established, is_answered, send_scccn, respond_sccrp, check_sccrp}
use xl2tpd.Finish.Reply.{finish_sccrp, finish_scccn, scccn_message, connected, own_response}
use xl2tpd.Finish.Reply.{judge_response, enter}
use xl2tpd.Finish.Core.{AnySome, SameSome, SameResult, refuse-SameResult, hide-SameCore}
use xl2tpd.Finish.Core.{SameSome-trans, bind-SameSome, send-SameSome}
use xl2tpd.Finish.CallsCore.{magic_lac_dial-SameSome}
use xl2tpd.Finish.Proof.{IsPosed, IsPassed, theirs, IsGuarded}
use xl2tpd.Finish.Proof.{IsGuarded-SameCore}
use xl2tpd.Finish.Proof.{
  IsGuarded-SameResult, IsGuarded-SameSome, AnyHandled, handle_challenge-AnyHandled,
}

-- The state that a challenge is for does not matter here.
pub repose :
    {cfg : Config} (ch : Challenge) (ss : ℕ) → IsPosed cfg ch → IsPosed cfg (record ch { ss = ss })
repose ch ss p = record { posed = p.posed; ours = p.ours; size = p.size; expected = p.expected }

module _ (cfg : Config) where
  pub send_sccrq-SameResult : (w : World) (b : Bool) → SameResult w (send_sccrq cfg w b)
  unfolding send_sccrq send
  send_sccrq-SameResult w b = ground arith

  pub send_sccrp-SameResult : (w : World) (b : Bool) → SameResult w (send_sccrp cfg w b)
  unfolding send_sccrp send
  send_sccrp-SameResult w b = ground arith

  pub respond-SameSome : (w : World) → SameSome w (respond cfg w)
  unfolding respond
  respond-SameSome w = ground arith

  pub connected-SameSome : (o : Option ℕ) (w : World) → SameSome w (connected cfg o w)
  unfolding connected
  connected-SameSome none w = ground arith
  connected-SameSome (some l) w =
      SameSome-trans (magic_lac_dial cfg (established w) l) (ground arith)
        (magic_lac_dial-SameSome cfg (established w) l)

  module _ (st : ℕ) where
    abbrev pub Guarded : Result → Type 0
    Guarded r = AnyWorld (IsGuarded cfg st) r

    -- The tunnel is connected only if it was so from the start.
    abbrev pub Unready : World → Type 0
    Unready w = IsPosed cfg (theirs w) × (w.session.tunnel.state ≡ scccn → st ≡ scccn)

    pub unready : (w : World) (r : Result) → Unready w → SameResult w r → Guarded r
    unready w r (posed, old) same = IsGuarded-SameResult cfg st w r same (posed, λ e. inl (old e))

    sent-Guarded : (o : Option World) → AnySome (IsGuarded cfg st) o → Guarded (sent o)
    sent-Guarded none g = tt
    sent-Guarded (some w) g = g

    send_scccn-Guarded :
        (w : World)
        → IsPosed cfg (theirs w)
        → IsPassed (theirs w)
        → AnySome (IsGuarded cfg st) (send_scccn cfg w)
    unfolding send_scccn
    send_scccn-Guarded w posed passed =
        let w0 = put_tunnel w (record (w.session.tunnel) { state = scccn }) in
        let w1 = hide cfg w0 in
        let message = scccn_message w1.session.tunnel in
        IsGuarded-SameSome cfg st w1
          (send w1 w.session.current message >>= connected cfg w1.session.tunnel.lac)
          (bind-SameSome w1 (send w1 w.session.current message)
            (connected cfg w1.session.tunnel.lac) (send-SameSome w1 w.session.current message)
            (connected-SameSome w1.session.tunnel.lac))
          (IsGuarded-SameCore cfg st w0 w1 (hide-SameCore cfg w0) (posed, λ e. inr passed))

    own_response-Guarded :
        (w : World) (o : Option (Bool × Challenge))
        → Unready w
        → IsPassed (theirs w)
        → Guarded (own_response cfg w o)
    unfolding own_response
    own_response-Guarded w none u passed = tt
    own_response-Guarded w (some (true, ch)) u passed =
        let w1 = put_tunnel w (record (w.session.tunnel) { chal_us = ch }) in
        unready w1 (refuse w1 "No secret key on our end") u
          (refuse-SameResult w1 "No secret key on our end")
    own_response-Guarded w (some (false, ch)) u passed =
        let w1 = put_tunnel w (record (w.session.tunnel) { chal_us = ch }) in
        sent-Guarded (send_scccn cfg w1) (send_scccn-Guarded w1 u.0 passed)

    respond_sccrp-Guarded :
        (w : World) → Unready w → IsPassed (theirs w) → Guarded (respond_sccrp cfg w)
    unfolding respond_sccrp
    respond_sccrp-Guarded w u passed =
        let t = w.session.tunnel in
        let o = handle_challenge cfg t (record (t.chal_us) { ss = scccn }) in
        if-intro Guarded (t.chal_us.state == 0) {x = sent (send_scccn cfg w)}
          {y = own_response cfg w o}
          (sent-Guarded (send_scccn cfg w) (send_scccn-Guarded w u.0 passed))
          (own_response-Guarded w o u passed)

    judge_response-Guarded :
        (w : World) (ch : Challenge) (o : Option (Bool × Challenge))
        → (w.session.tunnel.state ≡ scccn → st ≡ scccn)
        → IsPosed cfg ch
        → AnyHandled cfg ch o
        → Guarded (judge_response cfg w o)
    unfolding judge_response
    judge_response-Guarded w ch none old posed h = tt
    judge_response-Guarded w ch (some (true, ch')) old posed h =
        let w1 = put_tunnel w (record (w.session.tunnel) { chal_them = ch' }) in
        unready w1 (refuse w1 "No secret key on our side") (subst (IsPosed cfg) (sym h) posed, old)
          (refuse-SameResult w1 "No secret key on our side")
    judge_response-Guarded w ch (some (false, ch')) old posed h =
        let w1 = put_tunnel w (record (w.session.tunnel) { chal_them = ch' }) in
        let no = refuse w1 "Invalid challenge authentication" in
        elim (Bool-cases (is_answered ch')) [
          | inl e ↦ rw e (respond_sccrp-Guarded w1 (h.0, old) e)
          | inr e ↦
              rw e
                (unready w1 no (h.0, old) (refuse-SameResult w1 "Invalid challenge authentication"))
        ]

    check_sccrp-Guarded : (w : World) → Unready w → Guarded (check_sccrp cfg w)
    unfolding check_sccrp
    check_sccrp-Guarded w (posed, old) =
        let ch = record (theirs w) { ss = sccrp } in
        let o = handle_challenge cfg w.session.tunnel ch in
        let no : ((theirs w).state == 0) ≡ false = ne→== (theirs w).state 0 posed.posed in
        rw no (
          judge_response-Guarded w ch o old (repose (theirs w) sccrp posed)
            (handle_challenge-AnyHandled cfg w.session.tunnel ch posed.ours posed.size))

    pub finish_sccrp-Guarded : (w : World) → Unready w → Guarded (finish_sccrp cfg w)
    unfolding finish_sccrp
    finish_sccrp-Guarded w u =
        let t = w.session.tunnel in
        let r1 = refuse w "Specify framing capability" in
        let r2 = refuse w "Specify your hostname" in
        let r3 = refuse w "Specify your assigned tunnel ID" in
        let named =
          nothing t.hostname && (not (t.chal_them.state == 0) || not (t.chal_us.state == 0)) in
        let y3 = if not_positive t.tid then r3 else check_sccrp cfg w in
        if-intro Guarded (is_neg t.fc) {x = r1} {y = if named then r2 else y3}
          (unready w r1 u (refuse-SameResult w "Specify framing capability"))
          (if-intro Guarded named {x = r2} {y = y3}
            (unready w r2 u (refuse-SameResult w "Specify your hostname"))
            (if-intro Guarded (not_positive t.tid) {x = r3} {y = check_sccrp cfg w}
              (unready w r3 u (refuse-SameResult w "Specify your assigned tunnel ID"))
              (check_sccrp-Guarded w u)))

    enter-Guarded :
        (w : World) (l : Option ℕ)
        → IsPosed cfg (theirs w)
        → IsPassed (theirs w)
        → Guarded (enter w l)
    unfolding enter
    enter-Guarded w none posed passed = tt
    enter-Guarded w (some l) posed passed = (posed, λ e. inr passed)

    pub finish_scccn-Guarded : (w : World) → Unready w → Guarded (finish_scccn cfg w)
    unfolding finish_scccn
    finish_scccn-Guarded w u =
        let no = refuse w "Invalid challenge authentication" in
        let on : ((theirs w).state == 0) ≡ false = ne→== (theirs w).state 0 u.0.posed in
        elim (Bool-cases (is_answered (theirs w))) [
          | inl e ↦ rw (on, e) (enter-Guarded w w.session.tunnel.lns u.0 e)
          | inr e ↦
              rw (on, e) (unready w no u (refuse-SameResult w "Invalid challenge authentication"))
        ]
