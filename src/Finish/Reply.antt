-- ===== src/Finish/Reply.antt =====
-- The branches of `control_finish` (control.c) for an SCCRP and an SCCCN, which set a tunnel up
-- when the peer has proved who it is, and for a StopCCN.
use xl2tpd.Base.{ℕ, Bool, true, false, not, ◌&&◌, ◌||◌, if◌then◌else◌, ◌==◌}
use xl2tpd.Base.{List, [], ◌∷◌, Option, none, some, ℤ, pos, is_neg, is, not_positive, ◌>>=◌}
use xl2tpd.Message.{sccrp, scccn, md_sig_size}
use xl2tpd.Session.{Tunnel, Challenge}
use xl2tpd.Send.{Buffer}
use xl2tpd.Challenge.{handle_challenge, same_bytes}
use xl2tpd.World.{Config, World, Result, fault, done, put_tunnel, emit_event}
use xl2tpd.World.{refuse, send, hide, begin, same_int, nothing, connect_pppol2tp, schedule_hello}
use xl2tpd.Finish.Dial.{magic_lac_dial}
use xl2tpd.Finish.Tunnel.{when, add_response, sent}
use xl2tpd.Finish.Request.{close_quietly}

-- `connect_pppol2tp (t)`, and the first Hello.
abbrev pub established : World → World
established w = emit_event (emit_event w connect_pppol2tp) schedule_hello

-- Whether the peer has given the response that was expected.
abbrev pub is_answered : Challenge → Bool
is_answered ch = same_bytes md_sig_size ch.reply ch.response

abbrev pub scccn_message : Tunnel → Option Buffer
scccn_message t = begin scccn t >>= when (not (t.chal_us.state == 0)) (add_response t)

-- What follows the SCCCN: a LAC dials.
unfoldable pub connected : Config → Option ℕ → World → Option World
unfolding magic_lac_dial
connected cfg none w = some (established w)
connected cfg (some l) w = magic_lac_dial cfg (established w) l

unfoldable pub send_scccn : Config → World → Option World
unfolding hide send connected
send_scccn cfg w =
    let w1 = hide cfg (put_tunnel w (record (w.session.tunnel) { state = scccn })) in
    send w1 w.session.current (scccn_message w1.session.tunnel)
    >>= connected cfg w1.session.tunnel.lac

-- Our response, if the peer has challenged us.
unfoldable pub own_response : Config → World → Option (Bool × Challenge) → Result
unfolding refuse send_scccn
own_response cfg w none = fault
own_response cfg w (some (failed, ch)) =
    let w1 = put_tunnel w (record (w.session.tunnel) { chal_us = ch }) in
    if failed then refuse w1 "No secret key on our end" else sent (send_scccn cfg w1)

unfoldable pub respond_sccrp : Config → World → Result
unfolding handle_challenge own_response send_scccn
respond_sccrp cfg w =
    let t = w.session.tunnel in
    if t.chal_us.state == 0
    then sent (send_scccn cfg w)
    else own_response cfg w (handle_challenge cfg t (record (t.chal_us) { ss = scccn }))

-- The peer's response, if we have challenged it.
unfoldable pub judge_response : Config → World → Option (Bool × Challenge) → Result
unfolding refuse same_bytes respond_sccrp
judge_response cfg w none = fault
judge_response cfg w (some (failed, ch)) =
    let w1 = put_tunnel w (record (w.session.tunnel) { chal_them = ch }) in
    if failed
    then refuse w1 "No secret key on our side"
    else (if is_answered ch
        then respond_sccrp cfg w1
        else refuse w1 "Invalid challenge authentication")

unfoldable pub check_sccrp : Config → World → Result
unfolding handle_challenge judge_response respond_sccrp
check_sccrp cfg w =
    let t = w.session.tunnel in
    if t.chal_them.state == 0
    then respond_sccrp cfg w
    else judge_response cfg w (handle_challenge cfg t (record (t.chal_them) { ss = sccrp }))

unfoldable pub finish_sccrp : Config → World → Result
unfolding refuse check_sccrp
finish_sccrp cfg w =
    let t = w.session.tunnel in
    if is_neg t.fc
    then refuse w "Specify framing capability"
    else (if nothing t.hostname && (not (t.chal_them.state == 0) || not (t.chal_us.state == 0))
        then refuse w "Specify your hostname"
        else (if not_positive t.tid
            then refuse w "Specify your assigned tunnel ID"
            else check_sccrp cfg w))

-- The log entry that follows reads `t->lns`.
unfoldable pub enter : World → Option ℕ → Result
enter w none = fault
enter w (some l) =
    done false (established (put_tunnel w (record (w.session.tunnel) { state = scccn })))

unfoldable pub finish_scccn : Config → World → Result
unfolding refuse same_bytes enter
finish_scccn cfg w =
    let t = w.session.tunnel in
    if not (t.chal_them.state == 0) && not (is_answered t.chal_them)
    then refuse w "Invalid challenge authentication"
    else enter w t.lns

-- "Deterministic Networks Inc."
abbrev pub deterministic : List ℕ
deterministic =
    b'D' ∷ b'e' ∷ b't' ∷ b'e' ∷ b'r' ∷ b'm' ∷ b'i' ∷ b'n' ∷ b'i' ∷ b's' ∷ b't' ∷ b'i' ∷ b'c' ∷ b' '
    ∷ b'N' ∷ b'e' ∷ b't' ∷ b'w' ∷ b'o' ∷ b'r' ∷ b'k' ∷ b's' ∷ b' ' ∷ b'I' ∷ b'n' ∷ b'c' ∷ b'.' ∷ []

-- The client that states its own numbers in place of ours.
unfoldable pub is_ms_client : Tunnel → Bool
unfolding same_bytes
is_ms_client t = (t.firmware == 0xff00) && same_bytes 27 t.vendor deterministic

-- From `if (!t->tid)` on.
unfoldable pub end_tunnel : World → Result
end_tunnel w =
    let t = w.session.tunnel in
    let w1 = if is t.tid 0 then put_tunnel w (record t { tid = t.qtid }) else w in
    if is_neg (w.session.calls t.self).result then done true w1 else close_quietly w1

-- The number that a StopCCN has to state.
unfoldable pub stopped_tid : Tunnel → ℤ
unfolding is_ms_client
stopped_tid t = if is_ms_client t then pos t.ourtid else t.tid

unfoldable pub finish_stop_ccn : Config → World → Result
unfolding stopped_tid end_tunnel
finish_stop_ccn cfg w =
    let t = w.session.tunnel in
    let tid = stopped_tid t in
    if is_neg t.qtid
    then done true w
    else (if not (same_int t.qtid tid) && not (not_positive tid) then done true w else end_tunnel w)
