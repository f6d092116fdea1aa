-- ===== src/Close.antt =====
-- call.c: `call_close` and `destroy_call`; xl2tpd.c: `destroy_tunnel`. A call is given by its
-- address, and `a` is that of the tunnel's own call or of another.
use xl2tpd.Base.{ℕ, ◌-◌, true, false, not, ◌&&◌, if◌then◌else◌, ◌==◌, elem}
use xl2tpd.Base.{List, [], ◌∷◌, Option, none, some, pos, not_positive, ◌>>=◌}
use xl2tpd.Send.{Buffer}
use xl2tpd.Session.{Call, Tunnel}
use xl2tpd.Send.Closing.{add_stop_ccn, add_cdn, unless_neg, result_clear}
use xl2tpd.Address.{unreserve_addr}
use xl2tpd.World.{Config, LacState, World, put_tunnel, put_call, emit_event, hide, hidden}
use xl2tpd.World.{kill_pppd, schedule_dial, free_call, free_tunnel, deschedule_all, send}
use xl2tpd.World.{new_outgoing}

-- The removal from the list `call_head`, and from its `count`.
unfoldable pub unlink : ℕ → List ℕ → List ℕ
unlink a [] = []
unlink a (b ∷ bs) = let rest = unlink a bs in if b == a then bs else b ∷ rest

-- The redial that follows the end of a call or a tunnel of a `struct lac`.
unfoldable pub redial : Config → ℕ → World → World
redial cfg l w =
    let conf = cfg.lac l in
    let st = w.lacs l in
    if conf.redial && not (not_positive conf.rtimeout) && not st.rsched && conf.active
    then emit_event
        (record w { lacs = λ i. if i == l then record st { rsched = true } else w.lacs i })
        (schedule_dial l conf.rtimeout)
    else w

abbrev pub put_lac : World → ℕ → LacState → World
put_lac w l st = record w { lacs = λ i. if i == l then st else w.lacs i }

-- The addresses of a call go back, the peer's and the own one.
unfoldable pub free_addresses : Config → Call → World → World
free_addresses cfg c w =
    let w1 = if c.addr == 0 then w else record w { uaddr = unreserve_addr w.uaddr c.addr } in
    elim c.lns [
      | none ↦ w1
      | some l ↦ elim (cfg.lns l).localrange [
        | [] ↦ w1
        | r ∷ rs ↦ record w1 { uaddr = unreserve_addr w1.uaddr (w1.localaddr l) }
      ]
    ]

unfoldable pub end_pppd : ℕ → Call → World → World
end_pppd a c w =
    if not_positive c.pppd
    then w
    else emit_event (put_call w a (record c { pppd = pos 0 })) (kill_pppd c.pppd)

unfoldable pub unlink_call : World → ℕ → World
unfolding unlink
unlink_call w a =
    let t = w.session.tunnel in
    put_tunnel w (record t {
      call_head = unlink a t.call_head;
      count = if elem a t.call_head then t.count - 1 else t.count;
    })

-- `c->lac->c = NULL`, and the redial.
unfoldable pub leave_lac : Config → Option ℕ → World → World
unfolding redial
leave_lac cfg none w = w
leave_lac cfg (some l) w = redial cfg l (put_lac w l (record (w.lacs l) { c = none }))

unfoldable pub destroy_call : Config → World → ℕ → World
unfolding free_addresses end_pppd unlink_call leave_lac
destroy_call cfg w a =
    let c = w.session.calls a in
    emit_event (leave_lac cfg c.lac (unlink_call (end_pppd a c (free_addresses cfg c w)) a))
      (free_call a)

unfoldable pub destroy_calls : Config → World → List ℕ → World
unfolding destroy_call
destroy_calls cfg w [] = w
destroy_calls cfg w (a ∷ calls) = destroy_calls cfg (destroy_call cfg w a) calls

-- `t->lac->t = NULL`, and the redial.
unfoldable pub leave_tunnel_lac : Config → Option ℕ → World → World
unfolding redial
leave_tunnel_lac cfg none w = w
leave_tunnel_lac cfg (some l) w = redial cfg l (put_lac w l (record (w.lacs l) { t = none }))

-- The tunnel leaves the list `tunnels`, which is the event `free_tunnel`.
unfoldable pub destroy_tunnel : Config → World → World
unfolding destroy_call destroy_calls leave_tunnel_lac
destroy_tunnel cfg w =
    let w1 = destroy_calls cfg w w.session.tunnel.call_head in
    emit_event
      (destroy_call cfg (leave_tunnel_lac cfg w.session.tunnel.lac w1) w.session.tunnel.self)
      free_tunnel

-- `closeSs`, and the result and error that the message then states.
unfoldable pub note_close : World → ℕ → World
note_close w a =
    let c = w.session.calls a in
    put_call w a (record c {
      close_ss = w.session.tunnel.control_seq_num;
      result = unless_neg c.result result_clear;
      error = unless_neg c.error 0;
    })

abbrev pub mark_closing : World → ℕ → World
mark_closing w a = put_call w a (record (w.session.calls a) { closing = true })

abbrev pub marked : ℕ → World → Option World
marked a w = some (mark_closing w a)

abbrev pub cdn_message : Config → Tunnel → Call → Option Buffer
cdn_message cfg t c =
    add_cdn (hidden t) c.ourcid c.result c.error (cfg.print c.errormsg) new_outgoing

abbrev pub stop_ccn_message : Config → Tunnel → Call → Option Buffer
stop_ccn_message cfg t c =
    add_stop_ccn (hidden t) t.ourtid c.result c.error (cfg.print c.errormsg) new_outgoing

-- The CDN of a closing call.
unfoldable pub send_cdn : Config → World → ℕ → Option World
unfolding note_close send hide
send_cdn cfg w a =
    let c = w.session.calls a in
    let w1 = note_close (hide cfg w) a in
    send w1 a (
      add_cdn (hidden w1.session.tunnel) c.ourcid c.result c.error (cfg.print c.errormsg)
        new_outgoing)

-- `call_close` of a call; `none` is a message longer than its buffer.
unfoldable pub close_one : Config → World → ℕ → Option World
unfolding destroy_call send_cdn
close_one cfg w a =
    if (w.session.calls a).closing
    then some (destroy_call cfg w a)
    else send_cdn cfg w a >>= marked a

abbrev pub silenced : World → ℕ → World
silenced w a = put_call w a (record (w.session.calls a) { needclose = false; closing = true })

-- Each call of a closing tunnel is closed without a message.
unfoldable pub close_all : Config → List ℕ → World → Option World
unfolding close_one
close_all cfg [] w = some w
close_all cfg (a ∷ calls) w = close_one cfg (silenced w a) a >>= close_all cfg calls

-- The StopCCN of a closing tunnel.
unfoldable pub send_stop_ccn : Config → World → ℕ → Option World
unfolding note_close send hide
send_stop_ccn cfg w a =
    let c = w.session.calls a in
    let w1 = note_close (hide cfg w) a in send w1 a (stop_ccn_message cfg w1.session.tunnel c)

abbrev pub close_calls : Config → World → Option World
close_calls cfg w = close_all cfg w.session.tunnel.call_head w

-- `call_close` of a tunnel's own call.
unfoldable pub close_tunnel : Config → World → Option World
unfolding destroy_tunnel send_stop_ccn close_all
close_tunnel cfg w =
    let a = w.session.tunnel.self in
    let w0 = emit_event w deschedule_all in
    if (w.session.calls a).closing
    then some (destroy_tunnel cfg w0)
    else send_stop_ccn cfg w0 a >>= close_calls cfg >>= marked a

unfoldable pub call_close : Config → World → ℕ → Option World
unfolding close_one close_tunnel
call_close cfg w a = if a == w.session.tunnel.self then close_tunnel cfg w else close_one cfg w a
