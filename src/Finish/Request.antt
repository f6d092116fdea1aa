-- ===== src/Finish/Request.antt =====
-- The branch of `control_finish` (control.c) for an SCCRQ: a peer asks for a tunnel.
use xl2tpd.Base.{ℕ, Bool, true, false, not, ◌&&◌, ◌||◌, if◌then◌else◌, ◌==◌}
use xl2tpd.Base.{List, [], ◌∷◌, Option, none, some, is_neg, not_positive, ◌>>=◌}
use xl2tpd.Message.{sccrp, scccn}
use xl2tpd.Session.{Tunnel, Challenge, cur, put_cur}
use xl2tpd.Address.{Lns, get_lns}
use xl2tpd.Challenge.{handle_challenge}
use xl2tpd.World.{Config, World, Other, Result, fault, done, put_session, put_tunnel}
use xl2tpd.World.{refuse, send, hide, begin, same_int, nothing}
use xl2tpd.Finish.Tunnel.{when, our_name, add_link_avps, add_response, add_our_challenge}
use xl2tpd.Finish.Tunnel.{new_challenge, put_challenge, drop_challenge, sent}

-- The walk over `tunnels`: another one of the same peer with the same number.
unfoldable pub is_duplicate : Config → Tunnel → List Other → Bool
is_duplicate cfg t [] = false
is_duplicate cfg t (y ∷ ys) =
    let rest = is_duplicate cfg t ys in
    if same_int y.tid t.tid && (y.peer == t.peer) && (not cfg.ipsecsaref || (y.refhim == t.refhim))
    then true
    else rest

-- `c->needclose = 0`, `c->closing = -1` and `return 0`.
abbrev pub close_quietly : World → Result
close_quietly w = done false (
    put_session w
      (put_cur w.session (record (cur w.session) { needclose = false; closing = true })))

-- The message, as `challenging` says with a challenge of ours.
unfoldable pub send_sccrp : Config → World → Bool → Result
unfolding send add_link_avps our_name
send_sccrp cfg w challenging =
    let t = w.session.tunnel in
    sent (
      send w w.session.current (do
        b1 ← begin sccrp t
        b2 ← add_link_avps (our_name cfg t) t b1
        b3 ← when (not (t.chal_us.state == 0)) (add_response t) b2
        when challenging (add_our_challenge t) b3))

-- The challenge is noted, and the message is sent if the response to it is known.
unfoldable pub pose : Config → World → Option (Bool × Challenge) → Result
unfolding put_challenge refuse send_sccrp
pose cfg w none = fault
pose cfg w (some (failed, ch)) =
    if failed
    then refuse (put_challenge w ch) "No secret on our side"
    else send_sccrp cfg (put_challenge w ch) true

-- What we know to expect back, before the message is sent.
unfoldable pub prepare : Config → World → Option Challenge → Result
unfolding handle_challenge pose refuse
prepare cfg w none = refuse (drop_challenge w) "malloc failed"
prepare cfg w (some ch) =
    pose cfg w (handle_challenge cfg w.session.tunnel (record ch { ss = scccn }))

unfoldable pub challenge_peer : Config → World → Result
unfolding new_challenge prepare
challenge_peer cfg w = prepare cfg w (new_challenge cfg w)

-- Our response to the peer's challenge. The result of `handle_challenge` is not looked at.
unfoldable pub respond : Config → World → Option World
unfolding handle_challenge
respond cfg w =
    let t = w.session.tunnel in
    if t.chal_us.state == 0 then some w else (do
      (failed, ch) ← handle_challenge cfg t (record (t.chal_us) { ss = sccrp })
      some (put_tunnel w (record t { chal_us = ch })))

unfoldable pub answer : Config → ℕ → Option World → Result
unfolding challenge_peer send_sccrp
answer cfg lns none = fault
answer cfg lns (some w) =
    if (cfg.lns lns).challenge then challenge_peer cfg w else send_sccrp cfg w false

-- The part from `t->state = SCCRP` on.
unfoldable pub answer_request : Config → World → ℕ → Result
unfolding hide respond answer
answer_request cfg w lns =
    answer cfg lns
      (respond cfg (hide cfg (put_tunnel w (record (w.session.tunnel) { state = sccrp }))))

-- The tunnel with the configured entry.
abbrev pub with_lns : Config → World → ℕ → World
with_lns cfg w lns = put_tunnel w (record (w.session.tunnel) {
  lns = some lns;
  ourrws = (cfg.lns lns).tun_rws;
  hbit = (cfg.lns lns).hbit;
})

-- From the choice of that entry on.
unfoldable pub check_request : Config → World → ℕ → Result
unfolding refuse is_duplicate answer_request
check_request cfg w lns =
    let w1 = with_lns cfg w lns in
    let t = w1.session.tunnel in
    if is_neg t.fc
    then refuse w1 "Specify framing capability"
    else (if nothing t.hostname && (not (t.chal_us.state == 0) || (cfg.lns lns).challenge)
        then refuse w1 "Specify your hostname"
        else (if is_duplicate cfg t cfg.others
            then close_quietly w1
            else answer_request cfg w1 lns))

unfoldable pub permit : Config → World → Option Lns → Result
unfolding refuse check_request
permit cfg w none =
    refuse (put_tunnel w (record (w.session.tunnel) { lns = none })) "No Authorization"
permit cfg w (some lns) = check_request cfg w lns.name

unfoldable pub finish_sccrq : Config → World → Result
unfolding refuse permit get_lns
finish_sccrq cfg w =
    let t = w.session.tunnel in
    if not_positive t.tid
    then refuse w "Specify your assigned tunnel ID"
    else permit cfg w (get_lns cfg.accesscontrol t.peer cfg.lnslist cfg.deflns)
