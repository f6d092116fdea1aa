-- ===== src/Daemon.antt =====
-- A control packet from its arrival on: the part of `network_thread` (network.c) behind `get_call`,
-- and `handle_control` (control.c) with `handle_avps` and `control_finish`. Order has the order in
-- which messages are processed, Login what it takes to connect a tunnel, Refused what one refused
-- packet can do.
pub mod Order
mod Examples
pub mod Login
pub mod Refused
use xl2tpd.Base.{ℕ, suc, Bool, true, false, not, if◌then◌else◌, ◌==◌, List, [], ◌∷◌, ◌++◌, map}
use xl2tpd.Base.{Option, none, some, minus_one}
use xl2tpd.Message.{control_hdr_size}
use xl2tpd.Session.{Session, cur, put_cur}
use xl2tpd.Avp.Raw.{Reply, fault, ok, einval}
use xl2tpd.Avp.Loop.{handle_avps}
use xl2tpd.Control.{ControlHdr, Checked, check_control, control_zlb, handle_zlb, clear_vector}
use xl2tpd.World.{Config, World, Result, done, and_then, put_session, control_xmit}
use xl2tpd.Finish.{control_finish}

-- A packet: its header in host order, its size, the receive buffer behind the header, and the call
-- that `get_call` has found.
pub record Packet : Type 0 where
  pub header : ControlHdr
  pub size : ℕ
  pub body : List ℕ
  pub call : ℕ

-- `control_finish` follows where `handle_avps` has gone well.
unfoldable pub finish : Config → World → Option Reply → Result
unfolding control_finish
finish cfg w none = Result.fault
finish cfg w (some fault) = Result.fault
finish cfg w (some (einval s)) = done true (put_session w s)
finish cfg w (some (ok s)) = control_finish cfg (put_session w s)

-- What is done with a message that has passed `check_control`.
unfoldable pub process : Config → World → Packet → Result
unfolding handle_avps finish
process cfg w p = finish cfg w (handle_avps cfg.env (suc p.size) w.session p.size p.body)

-- The acknowledgements that have been sent.
abbrev pub send_headers : World → List ControlHdr → World
send_headers w hs = record w { events = w.events ++ map (λ h. control_xmit h []) hs }

unfoldable pub after_check : Config → World → Packet → Checked → Result
unfolding handle_zlb process
after_check cfg w p k =
    let w1 = send_headers (put_session w k.session) k.sent in
    if not k.valid
    then done true w1
    else (if p.size == control_hdr_size
        then done false (put_session w1 (handle_zlb k.session))
        else process cfg
            (put_session w1 (put_cur k.session (record (cur k.session) { msgtype = minus_one }))) p)

-- `handle_control`
unfoldable pub handle_message : Config → World → Packet → Result
unfolding check_control after_check
handle_message cfg w p = after_check cfg w p (check_control w.session p.header p.size)

-- A ZLB where nothing else has acknowledged the packet.
unfoldable pub acknowledged : World → World
unfolding control_zlb
acknowledged w =
    let (zlb, s) = control_zlb w.session in
    if (cur w.session).cnu
    then send_headers (put_session w (put_cur s (record (cur s) { cnu = false }))) (zlb ∷ [])
    else w

unfoldable pub acknowledge : Result → Result
unfolding acknowledged
acknowledge Result.fault = Result.fault
acknowledge (done bad w) = done bad (acknowledged w)

-- The state that `handle_packet` is called in.
abbrev pub arrived : World → Packet → World
arrived w p = put_session w (clear_vector (record (w.session) { current = p.call }))

unfoldable pub receive : Config → World → Packet → Result
unfolding handle_message acknowledge
receive cfg w p = acknowledge (handle_message cfg (arrived w p) p)

-- Packets one after the other.
unfoldable pub run : Config → World → List Packet → Result
unfolding receive
run cfg w [] = done false w
run cfg w (p ∷ ps) = and_then (receive cfg w p) (λ w1. run cfg w1 ps)
