-- ===== src/Finish/Calls.antt =====
-- The branches of `control_finish` (control.c) about a call but for the ICRQ, and `get_local_addr`.
use xl2tpd.Base.{ℕ, Bool, true, false, not, ◌&&◌, if◌then◌else◌, ◌==◌}
use xl2tpd.Base.{List, [], ◌∷◌, Option, none, some, ℤ, pos, is_neg, not_positive}
use xl2tpd.Base.{minus_one, ◌>>=◌}
use xl2tpd.Message.{iccn}
use xl2tpd.Message.{error_nores, vendor_error}
use xl2tpd.Session.{Session, cur, put_cur, formatted, set_error}
use xl2tpd.Send.{add_txspeed_avp, add_frame_avp, add_rxspeed_avp}
use xl2tpd.Address.{Iprange}
use xl2tpd.Close.{call_close, put_lac}
use xl2tpd.World.{Config, World, Result, fault, done, put_session, put_call}
use xl2tpd.World.{send, hide, begin, same_int, nothing}
use xl2tpd.Finish.Dial.{framing}
use xl2tpd.Finish.Request.{close_quietly}
use xl2tpd.Finish.Reply.{is_ms_client}
use xl2tpd.Finish.Pppd.{icrp_opts, occn_opts, iccn_opts, options_file, launch}
use xl2tpd.Finish.Incoming.{set_call_error, take_addr}

abbrev pub no_ranges : List Iprange → Bool
no_ranges [] = true
no_ranges (r ∷ rs) = false

-- The ICCN, which this end sends.
unfoldable pub send_iccn : Config → World → Option World
unfolding hide send
send_iccn cfg w =
    let a = w.session.current in
    let frame = framing w.session.tunnel.fc in
    let w1 = hide cfg (put_call w a (record (cur w.session) { state = iccn; frame = frame })) in
    let t = w1.session.tunnel in
    send w1 a (do
      b1 ← begin iccn t
      b2 ← add_txspeed_avp t.txspeed b1
      b3 ← add_frame_avp (pos frame) b2
      add_rxspeed_avp t.rxspeed b3)

-- pppd is started for the LAC, with the descriptor of the password if there is one.
unfoldable pub start_icrp : Config → World → ℕ → Option ℕ → Result
unfolding icrp_opts launch
start_icrp cfg w l fd =
    let w1 = launch cfg w w.session.current (icrp_opts (cfg.lac l) fd w.session.tunnel.peer) in
    done false (put_lac w1 l (record (w1.lacs l) { rtries = 0 }))

-- The password goes through a pipe, and is forgotten if it is not needed again.
unfoldable pub pipe_password : Config → World → ℕ → Result
unfolding start_icrp
pipe_password cfg w l =
    let st = w.lacs l in
    if nothing st.password then start_icrp cfg w l none else elim cfg.pipe [
      | none ↦ done true w
      | some fd ↦
          if not cfg.wrote
          then done true w
          else (if (cfg.lac l).redial
              then start_icrp cfg w l (some fd)
              else start_icrp cfg (put_lac w l (record st { password = [] })) l (some fd))
    ]

-- A call without a LAC is read through NULL, after the message is sent.
unfoldable pub sent_iccn : Config → Option ℕ → Option World → Result
unfolding pipe_password
sent_iccn cfg l none = fault
sent_iccn cfg none (some w) = fault
sent_iccn cfg (some l) (some w) = pipe_password cfg w l

unfoldable pub finish_icrp : Config → World → Result
unfolding send_iccn sent_iccn
finish_icrp cfg w =
    let c = cur w.session in
    if is_neg c.cid
    then done true (put_call w w.session.current (record c { needclose = true }))
    else sent_iccn cfg c.lac (send_iccn cfg w)

-- The own address is noted; without one the call is closed. `true` is `-EINVAL`.
unfoldable pub note_local : Config → ℕ → ℕ → Option (ℕ × World) → Option (Bool × World)
unfolding set_call_error call_close
note_local cfg a l none = none
note_local cfg a l (some (x, w)) =
    let w1 = record w { localaddr = λ i. if i == l then x else w.localaddr i } in
    if x == 0
    then elim (call_close cfg (set_call_error w1 a error_nores "No available local IP addresses")
        a) [ none ↦ none | some w2 ↦ some (true, w2) ]
    else some (false, w1)

-- `get_local_addr` with the LNS of the tunnel and that of the call.
unfoldable pub get_local_addr : Config → World → ℕ → Option ℕ → Option ℕ → Option (Bool × World)
unfolding take_addr note_local
get_local_addr cfg w a none l = none
get_local_addr cfg w a (some tl) none =
    if no_ranges (cfg.lns tl).localrange then some (false, w) else none
get_local_addr cfg w a (some tl) (some l) =
    if no_ranges (cfg.lns tl).localrange
    then some (false, w)
    else note_local cfg a l (take_addr cfg w (cfg.lns tl).localrange)

-- pppd is started for the LNS.
unfoldable pub start_iccn : Config → ℕ → Option (Bool × World) → Result
unfolding iccn_opts launch
start_iccn cfg a none = fault
start_iccn cfg a (some (true, w)) = done true w
start_iccn cfg a (some (false, w)) = elim (w.session.calls a).lns [
  | none ↦ fault
  | some l ↦ done false (
      launch cfg w a
        (iccn_opts (cfg.lns l) (w.localaddr l) (w.session.calls a).addr w.session.tunnel.peer))
]

unfoldable pub finish_iccn : Config → World → Result
unfolding get_local_addr start_iccn
finish_iccn cfg w =
    let a = w.session.current in
    let w1 = put_call w a (record (cur w.session) { state = iccn }) in
    if a == w.session.tunnel.self
    then done true w
    else start_iccn cfg a (get_local_addr cfg w1 a w.session.tunnel.lns (cur w.session).lns)

unfoldable pub finish_occn : Config → World → Result
unfolding options_file occn_opts launch
finish_occn cfg w =
    let c = cur w.session in
    elim (options_file c.dial_no) [
      | none ↦ fault
      | some file ↦ elim c.lac [
        | none ↦ fault
        | some l ↦
            let w1 =
              launch cfg w w.session.current (occn_opts (cfg.lac l) file w.session.tunnel.peer) in
            done false (put_lac w1 l (record (w1.lacs l) { rtries = 0 }))
      ]
    ]

-- The call that a CDN names, when it comes on the tunnel's own call.
unfoldable pub call_with_cid : Session → ℤ → List ℕ → Option ℕ
call_with_cid s cid [] = none
call_with_cid s cid (p ∷ ps) =
    let rest = call_with_cid s cid ps in if same_int (s.calls p).cid cid then some p else rest

-- The number that a CDN for the call at `p` has to state.
unfoldable pub ended_cid : Session → ℕ → ℤ
unfolding is_ms_client
ended_cid s p = if is_ms_client s.tunnel then pos (s.calls p).ourcid else (s.calls p).cid

-- What closes is `c`, whichever call was named.
unfoldable pub end_call : World → Option ℕ → Result
unfolding ended_cid
end_call w none = done true w
end_call w (some p) =
    let s = w.session in
    let c = cur s in
    let w1 = put_session w (put_cur s (record c { qcid = minus_one })) in
    let cid = ended_cid s p in
    if not (same_int c.qcid cid) && not (not_positive cid)
    then done true w
    else (if is_neg c.result then done true w1 else close_quietly w1)

unfoldable pub finish_cdn : Config → World → Result
unfolding call_with_cid end_call
finish_cdn cfg w =
    let s = w.session in
    let c = cur s in
    let own = s.current == s.tunnel.self in
    if is_neg c.qcid
    then done true w
    else end_call w (if own then call_with_cid s c.qcid s.tunnel.call_head else some s.current)

abbrev pub finish_other : World → ℕ → Result
finish_other w m = done false (
    put_session w
      (set_error w.session vendor_error (formatted "Unimplemented message %d\n" (m ∷ []))))
