-- ===== src/Finish/Dial.antt =====
-- The request for a call: the branch of `control_finish` (control.c) for a new call that this end
-- makes, with `lac_call` and `magic_lac_dial` of xl2tpd.c, which come there.
--
-- The result of `control_finish` is not used by `lac_call`. No other tunnel has this tunnel's
-- number, so `lac_call` finds it by that. `dial_no_tmp` is shorter than its target.
use xl2tpd.Base.{ℕ, ◌+◌, ◌%◌, Bool, false, not, ◌&&◌, if◌then◌else◌, ltb, ◌==◌, u16}
use xl2tpd.Base.{Option, none, some, ℤ, pos, negsuc, ◌>>=◌}
use xl2tpd.Message.{icrq, ocrq, lbit, sync_framing, async_framing, default_min_bps}
use xl2tpd.Message.{default_max_bps}
use xl2tpd.Session.{Session, Call}
use xl2tpd.Avp.Raw.{Reply, fault, ok, einval}
use xl2tpd.Avp.MessageType.{add_call}
use xl2tpd.Send.{add_callid_avp, add_serno_avp, add_bearer_avp, add_minbps_avp}
use xl2tpd.Send.{add_maxbps_avp, add_frame_avp, add_number_avp, add_message_type_avp}
use xl2tpd.World.{Config, World, LacState, put_session, put_call, emit_event, hide, send, begin}
use xl2tpd.World.{new_outgoing, magic_lac_tunnel, dial_elsewhere}
use xl2tpd.Close.{put_lac}

abbrev pub lbit_of : Bool → ℕ
lbit_of b = if b then lbit else 0

-- `lbit` of a call that is requested: that of its LNS, else of its LAC.
unfoldable pub requested_lbit : Config → Call → ℕ
requested_lbit cfg c = elim c.lns [
  | some l ↦ lbit_of (cfg.lns l).lbit
  | none ↦ elim c.lac [ some l ↦ lbit_of (cfg.lac l).lbit | none ↦ c.lbit ]
]

-- `t->fc & SYNC_FRAMING`, on the two's complement.
abbrev pub has_sync : ℤ → Bool
has_sync (pos n) = n % 2 == 1
has_sync (negsuc n) = n % 2 == 0

abbrev pub framing : ℤ → ℕ
framing fc = if has_sync fc then sync_framing else async_framing

-- `c->serno = global_serno`, and the next number.
abbrev pub number_call : World → ℕ → Call → World
number_call w a c = record (put_call w a (record c { serno = w.global_serno })) {
  global_serno = w.global_serno + 1;
}

unfoldable pub request_incoming : Config → World → ℕ → Option World
unfolding hide send requested_lbit
request_incoming cfg w a =
    let c = w.session.calls a in
    let w1 = hide cfg w in
    let w2 = number_call w1 a (record c { state = icrq; lbit = requested_lbit cfg c }) in
    send w2 a (do
      b1 ← begin icrq w1.session.tunnel
      b2 ← add_callid_avp (u16 c.ourcid) b1
      b3 ← add_serno_avp w.global_serno b2
      add_bearer_avp (pos 0) b3)

-- Here the LAC's `lbit` is not read.
unfoldable pub request_outgoing : Config → World → ℕ → Option World
unfolding send
request_outgoing cfg w a =
    let c = w.session.calls a in
    let frame = framing w.session.tunnel.fc in
    let bit : ℕ = elim c.lns [ some l ↦ lbit_of (cfg.lns l).lbit | none ↦ c.lbit ] in
    let w1 = number_call w a (record c { state = ocrq; lbit = bit; frame = frame }) in
    send w1 a (do
      b1 ← add_message_type_avp ocrq new_outgoing
      b2 ← add_callid_avp (u16 c.ourcid) b1
      b3 ← add_serno_avp w.global_serno b2
      b4 ← add_minbps_avp (pos default_min_bps) b3
      b5 ← add_maxbps_avp (pos default_max_bps) b4
      b6 ← add_bearer_avp (pos 0) b5
      b7 ← add_frame_avp (pos frame) b6
      add_number_avp c.dial_no b7)

-- The branch for a message type 0 on a call that is not the tunnel's own.
unfoldable pub request_call : Config → World → ℕ → Option World
unfolding request_incoming request_outgoing
request_call cfg w a = if cfg.switch_io then request_incoming cfg w a else request_outgoing cfg w a

-- The new call, with what `lac_call` puts into it.
unfoldable pub joined : Config → World → Option ℕ → Option ℕ → Session → World
joined cfg w lac lns s =
    let a = w.session.ticks in
    let w1 =
      put_call (put_session w s) a
        (record (s.calls a) { cid = pos 0; lac = lac; lns = lns; dial_no = cfg.dialing }) in
    elim lac [ none ↦ w1 | some l ↦ put_lac w1 l (record (w1.lacs l) { c = some a }) ]

unfoldable pub called : Config → World → Option ℕ → Option ℕ → Reply → Option World
unfolding joined request_call
called cfg w lac lns fault = none
called cfg w lac lns (einval s) = some (put_session w s)
called cfg w lac lns (ok s) = request_call cfg (joined cfg w lac lns s) w.session.ticks

-- `lac_call` on this tunnel.
unfoldable pub lac_call : Config → World → Option ℕ → Option ℕ → Option World
unfolding add_call called
lac_call cfg w lac lns = called cfg w lac lns (add_call cfg.env w.session)

abbrev pub retried : LacState → LacState
retried st = record st { rsched = false; rtries = st.rtries + 1 }

-- `magic_lac_dial` of the LAC with the number `l`.
unfoldable pub magic_lac_dial : Config → World → ℕ → Option World
unfolding lac_call
magic_lac_dial cfg w l =
    let conf = cfg.lac l in
    let w1 = put_lac w l (retried (w.lacs l)) in
    if not conf.active
    then some w
    else (if not (conf.rmax == 0) && ltb conf.rmax ((w.lacs l).rtries + 1)
        then some w1
        else elim (w.lacs l).t [
          | none ↦ some (emit_event w1 (magic_lac_tunnel l))
          | some tid ↦
              if tid == w.session.tunnel.ourtid
              then lac_call cfg w1 (some l) none
              else some (emit_event w1 (dial_elsewhere tid l))
        ])
