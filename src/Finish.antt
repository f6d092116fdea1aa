-- ===== src/Finish.antt =====
-- control.c: `control_finish`, the state machine of the control connection. Dial has the request
-- for a call, Tunnel the start of a tunnel, Request an SCCRQ, Reply the other messages about the
-- tunnel, Pppd the options of the program that a call starts, Incoming an ICRQ, Calls the other
-- messages about a call.
pub mod Dial
mod Examples
pub mod Sample
pub mod Tunnel
pub mod Request
pub mod Reply
pub mod Pppd
pub mod Incoming
pub mod Calls
pub mod Core
pub mod CallsCore
pub mod Proof
pub mod Guard
pub mod GuardRequest
pub mod Moves
pub mod MovesRequest
pub mod Diagram
pub mod Slips
pub mod Posed
pub mod Connected
use xl2tpd.Base.{ℕ, Bool, true, false, ◌||◌, if◌then◌else◌, ◌==◌, ℤ, pos, negsuc}
use xl2tpd.Message.{sccrq, sccrp, scccn, stop_ccn, hello, ocrp, occn, icrq, icrp, iccn, cdn, sli}
use xl2tpd.Session.{Session, cur}
use xl2tpd.World.{Config, World, Result, done}
use xl2tpd.Finish.Dial.{request_call}
use xl2tpd.Finish.Tunnel.{sent, start_tunnel}
use xl2tpd.Finish.Request.{finish_sccrq}
use xl2tpd.Finish.Reply.{finish_sccrp, finish_scccn, finish_stop_ccn}
use xl2tpd.Finish.Incoming.{finish_icrq}
use xl2tpd.Finish.Calls.{finish_icrp, finish_iccn, finish_occn, finish_cdn}
use xl2tpd.Finish.Calls.{finish_other}

-- The cases of the `switch` that do not move a tunnel.
unfoldable pub finish_call_message : Config → World → ℕ → Result
finish_call_message cfg w m =
    if m == stop_ccn
    then finish_stop_ccn cfg w
    else (if m == icrq
        then finish_icrq cfg w
        else (if m == icrp
            then finish_icrp cfg w
            else (if m == iccn
                then finish_iccn cfg w
                else (if m == occn
                    then finish_occn cfg w
                    else (if m == cdn
                        then finish_cdn cfg w
                        else (if m == ocrp || m == hello || m == sli
                            then done false w
                            else finish_other w m))))))

-- The whole `switch`, on a message type that is not negative.
unfoldable pub finish_message : Config → World → ℕ → Result
unfolding finish_call_message
finish_message cfg w m =
    if m == 0
    then (if w.session.current == w.session.tunnel.self
        then start_tunnel cfg w
        else sent (request_call cfg w w.session.current))
    else (if m == sccrq
        then finish_sccrq cfg w
        else (if m == sccrp
            then finish_sccrp cfg w
            else (if m == scccn then finish_scccn cfg w else finish_call_message cfg w m)))

unfoldable pub finish_type : Config → World → ℤ → Result
unfolding finish_message
finish_type cfg w (negsuc n) = done true w
finish_type cfg w (pos m) = finish_message cfg w m

unfoldable pub control_finish : Config → World → Result
unfolding finish_type
control_finish cfg w = finish_type cfg w (cur w.session).msgtype
