-- ===== src/Finish/Slips.antt =====
-- A CDN on the own call of a tunnel (control.c), which ends the tunnel and not a call.
use xl2tpd.Base.{ℕ, ◌≡◌, ◌≢◌, refl, arith, true, false, Option, none, some}
use xl2tpd.Base.{not, ◌&&◌, if◌then◌else◌, if-intro, ◌==◌, is_neg, not_positive, ==_refl}
use xl2tpd.Base.{minus_one}
use xl2tpd.Session.{Call, cur, put_cur}
use xl2tpd.World.{Config, World, done, put_session, emit_event}
use xl2tpd.World.{deschedule_all, same_int}
use xl2tpd.Close.{call_close, close_tunnel, destroy_tunnel}
use xl2tpd.Finish.Request.{close_quietly}
use xl2tpd.Finish.Calls.{call_with_cid, ended_cid, end_call, finish_cdn}
use xl2tpd.Finish.Posed.{Good}

-- `call_close` on a tunnel's own call that is closing destroys the tunnel.
closing_destroys :
    (cfg : Config) (w : World)
    → (w.session.calls w.session.tunnel.self).closing ≡ true
    → call_close cfg w w.session.tunnel.self
      ≡ some (destroy_tunnel cfg (emit_event w deschedule_all))
unfolding call_close close_tunnel
closing_destroys cfg w closing = rw (==_refl, closing) refl

module _ (cfg : Config) (w : World) (a : ℕ) where
  -- The tunnel's own call is closing, so that `call_close` on it destroys the tunnel, and this one is
  -- as it was.
  abbrev pub IsMistaken : World → Type 0
  IsMistaken w' =
      ((w'.session.calls w.session.tunnel.self).closing ≡ true)
      × (call_close cfg w' w.session.tunnel.self
          ≡ some (destroy_tunnel cfg (emit_event w' deschedule_all)))
      × (w'.session.calls a ≡ w.session.calls a)

  quietly :
      (c : Call)
      → w.session.current ≡ w.session.tunnel.self
      → a ≢ w.session.tunnel.self
      → Good IsMistaken (close_quietly (put_session w (put_cur w.session c)))
  quietly c own other =
      let w1 = put_session w (put_cur w.session c) in
      let c1 = record (cur w1.session) { needclose = false; closing = true } in
      let w2 = put_session w1 (put_cur w1.session c1) in
      let shut : (w2.session.calls w.session.tunnel.self).closing ≡ true = ground (arith, own) in
      (shut, closing_destroys cfg w2 shut, ground (arith, own, other))

  end_call-Good :
      (o : Option ℕ)
      → w.session.current ≡ w.session.tunnel.self
      → a ≢ w.session.tunnel.self
      → Good IsMistaken (end_call w o)
  unfolding end_call
  end_call-Good none own other = tt
  end_call-Good (some p) own other =
      let s = w.session in
      let c = record (cur s) { qcid = minus_one } in
      let w1 = put_session w (put_cur s c) in
      let cid = ended_cid s p in
      let y = if is_neg (cur s).result then done true w1 else close_quietly w1 in
      if-intro (Good IsMistaken) (not (same_int (cur s).qcid cid) && not (not_positive cid))
        {x = done true w} {y = y} tt
        (if-intro (Good IsMistaken) (is_neg (cur s).result) {x = done true w1}
          {y = close_quietly w1} tt (quietly c own other))

  -- A CDN that comes on the tunnel's own call, to name another call by its identifier, ends no call:
  -- if it is accepted, the tunnel's own call is marked as closing, and every other call, the named one
  -- among them, is as it was. `call_close`, which the sweep over closing calls then makes, destroys
  -- the tunnel.
  pub cdn_closes_tunnel :
      w.session.current ≡ w.session.tunnel.self
      → a ≢ w.session.tunnel.self
      → Good IsMistaken (finish_cdn cfg w)
  unfolding finish_cdn
  cdn_closes_tunnel own other =
      let s = w.session in
      let o =
        if s.current == s.tunnel.self
        then call_with_cid s (cur s).qcid s.tunnel.call_head
        else some s.current in
      if-intro (Good IsMistaken) (is_neg (cur s).qcid) {x = done true w} {y = end_call w o} tt
        (end_call-Good o own other)
