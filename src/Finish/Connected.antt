-- ===== src/Finish/Connected.antt =====
-- A tunnel that has challenged its peer, whatever `control_finish` is given.
use xl2tpd.Base.{ℕ, if-intro, ◌==◌, if◌then◌else◌, ℤ, pos, negsuc, inl}
use xl2tpd.Message.{sccrq, sccrp, scccn}
use xl2tpd.Session.{cur}
use xl2tpd.World.{Config, World, AnyWorld}
use xl2tpd.Finish.{finish_call_message, finish_message, finish_type, control_finish}
use xl2tpd.Finish.Dial.{request_call}
use xl2tpd.Finish.Tunnel.{start_tunnel, sent}
use xl2tpd.Finish.Request.{finish_sccrq}
use xl2tpd.Finish.Reply.{finish_sccrp, finish_scccn}
use xl2tpd.Finish.CallsCore.{request_call-SameSome}
use xl2tpd.Finish.Proof.{IsPosed, theirs, IsGuarded}
use xl2tpd.Finish.Guard.{Guarded, Unready, unready, finish_sccrp-Guarded, finish_scccn-Guarded}
use xl2tpd.Finish.GuardRequest.{start_tunnel-Guarded, finish_sccrq-Guarded}
use xl2tpd.Finish.Core.{sent-SameResult}
use xl2tpd.Finish.Diagram.{finish_call_message-SameResult}

module _ (cfg : Config) (w : World) (posed : IsPosed cfg (theirs w)) where
  abbrev st : ℕ
  st = w.session.tunnel.state

  ready : Unready cfg st w
  ready = (posed, λ e. e)

  finish_message-Guarded : (m : ℕ) → Guarded cfg st (finish_message cfg w m)
  unfolding finish_message
  finish_message-Guarded m =
      let o = request_call cfg w w.session.current in
      let calls = finish_call_message cfg w m in
      let y3 = if m == scccn then finish_scccn cfg w else calls in
      let y2 = if m == sccrp then finish_sccrp cfg w else y3 in
      let y1 = if m == sccrq then finish_sccrq cfg w else y2 in
      let own = w.session.current == w.session.tunnel.self in
      let x0 = if own then start_tunnel cfg w else sent o in
      let P = Guarded cfg st in
      if-intro P (m == 0) {x = x0} {y = y1}
        (if-intro P own {x = start_tunnel cfg w} {y = sent o} (start_tunnel-Guarded cfg st w ready)
          (unready cfg st w (sent o) ready
            (sent-SameResult w o (request_call-SameSome cfg w w.session.current))))
        (if-intro P (m == sccrq) {x = finish_sccrq cfg w} {y = y2}
          (finish_sccrq-Guarded cfg st w ready)
          (if-intro P (m == sccrp) {x = finish_sccrp cfg w} {y = y3}
            (finish_sccrp-Guarded cfg st w ready)
            (if-intro P (m == scccn) {x = finish_scccn cfg w} {y = calls}
              (finish_scccn-Guarded cfg st w ready)
              (unready cfg st w calls ready (finish_call_message-SameResult cfg w m)))))

  finish_type-Guarded : (type : ℤ) → Guarded cfg st (finish_type cfg w type)
  unfolding finish_type
  finish_type-Guarded (negsuc n) = (posed, λ e. inl e)
  finish_type-Guarded (pos m) = finish_message-Guarded m

  pub control_finish-Guarded :
      AnyWorld (IsGuarded cfg w.session.tunnel.state) (control_finish cfg w)
  unfolding control_finish
  control_finish-Guarded = finish_type-Guarded (cur w.session).msgtype
