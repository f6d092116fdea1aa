-- ===== src/Finish/CallsCore.antt =====
-- The branches of `control_finish` about calls, and those that close, leave what `SameCore` names.
use xl2tpd.Base.{ℕ, arith, Bool, true, false, not, List, [], ◌∷◌, Option, none, some}
use xl2tpd.Base.{String, ◌==◌, if◌then◌else◌, if-intro, is_neg, not_positive, ◌&&◌}
use xl2tpd.Message.{icrq, ocrq, icrp, iccn, error_nores, error_invalid}
use xl2tpd.Session.{Session, Call, cur, set_error}
use xl2tpd.Address.{Iprange}
use xl2tpd.Avp.Raw.{Reply, fault, ok, einval}
use xl2tpd.Avp.MessageType.{add_call}
use xl2tpd.World.{Config, LacState, World, done, same_int, put_call, put_session}
use xl2tpd.Close.{put_lac}
use xl2tpd.Finish.Dial.{request_incoming, request_outgoing, request_call, joined, called, lac_call}
use xl2tpd.World.{hide}
use xl2tpd.Finish.Core.{prepared-SameSome, sent-SameResult}
use xl2tpd.Finish.Dial.{number_call, requested_lbit}
use xl2tpd.Finish.Dial.{framing, lbit_of, retried, magic_lac_dial}
use xl2tpd.Finish.Reply.{end_tunnel, stopped_tid, finish_stop_ccn}
use xl2tpd.Finish.Pppd.{launch}
use xl2tpd.Finish.Incoming.{
  set_call_error, take_addr, has_cid, use_addr, taken, assign_by, send_icrp, assign_addr,
  accept_call,
}
use xl2tpd.Finish.Incoming.{judge_call, first_call, finish_icrq, close_and_fail}
use xl2tpd.Finish.Calls.{
  send_iccn, sent_iccn, start_icrp, pipe_password, finish_icrp, note_local, get_local_addr,
  start_iccn,
}
use xl2tpd.Finish.Calls.{finish_iccn, finish_occn, finish_cdn, finish_other}
use xl2tpd.Finish.Core.{SameCore, SameSome, SameResult, SameCore-refl, ◌⨾◌, hide-SameCore}
use xl2tpd.Finish.Core.{SameSome-trans, SameResult-trans, put_call-SameCore}
use xl2tpd.Finish.Core.{call_close-SameSome, if-SameResult}

-- The state that a new call gives.
abbrev Added : World → Reply → Type 0
Added w fault = Unit
Added w (einval s) = SameCore w (put_session w s)
Added w (ok s) = SameCore w (put_session w s)

abbrev AnyTaken : World → Option (ℕ × World) → Type 0
AnyTaken w none = Unit
AnyTaken w (some (x, w')) = SameCore w w'

abbrev AnyLocal : World → Option (Bool × World) → Type 0
AnyLocal w none = Unit
AnyLocal w (some (failed, w')) = SameCore w w'

put_lac-SameCore : (w : World) (l : ℕ) (st : LacState) → SameCore w (put_lac w l st)
put_lac-SameCore w l st = ground arith

number_call-SameCore : (w : World) (a : ℕ) (c : Call) → SameCore w (number_call w a c)
number_call-SameCore w a c = ground arith

module _ (cfg : Config) where
  request_incoming-SameSome : (w : World) (a : ℕ) → SameSome w (request_incoming cfg w a)
  unfolding request_incoming
  request_incoming-SameSome w a =
      let c = w.session.calls a in
      let w1 = hide cfg w in
      let c1 : Call = record c { state = icrq; lbit = requested_lbit cfg c } in
      prepared-SameSome w (number_call w1 a c1) a _
        (hide-SameCore cfg w ⨾ number_call-SameCore w1 a c1)

  request_outgoing-SameSome : (w : World) (a : ℕ) → SameSome w (request_outgoing cfg w a)
  unfolding request_outgoing
  request_outgoing-SameSome w a =
      let c = w.session.calls a in
      let frame = framing w.session.tunnel.fc in
      let bit : ℕ = elim c.lns [ some l ↦ lbit_of (cfg.lns l).lbit | none ↦ c.lbit ] in
      let c1 : Call = record c { state = ocrq; lbit = bit; frame = frame } in
      prepared-SameSome w (number_call w a c1) a _ (number_call-SameCore w a c1)

  pub request_call-SameSome : (w : World) (a : ℕ) → SameSome w (request_call cfg w a)
  unfolding request_call
  request_call-SameSome w a =
      if-intro (SameSome w) cfg.switch_io (request_incoming-SameSome w a)
        (request_outgoing-SameSome w a)

  -- The new call has its own place in the store.
  added : (w : World) → Added w (add_call cfg.env w.session)
  unfolding add_call
  added w = ground arith

  joined-SameCore :
      (w : World) (lac lns : Option ℕ) (s : Session)
      → SameCore w (put_session w s)
      → SameCore w (joined cfg w lac lns s)
  unfolding joined
  joined-SameCore w lac lns s same = ground (arith, same)

  called-SameSome :
      (w : World) (lac lns : Option ℕ) (r : Reply) → Added w r → SameSome w (called cfg w lac lns r)
  unfolding called
  called-SameSome w lac lns fault same = tt
  called-SameSome w lac lns (einval s) same = same
  called-SameSome w lac lns (ok s) same =
      let w1 = joined cfg w lac lns s in
      SameSome-trans (request_call cfg w1 w.session.ticks) (joined-SameCore w lac lns s same)
        (request_call-SameSome w1 w.session.ticks)

  lac_call-SameSome : (w : World) (lac lns : Option ℕ) → SameSome w (lac_call cfg w lac lns)
  unfolding lac_call
  lac_call-SameSome w lac lns = called-SameSome w lac lns (add_call cfg.env w.session) (added w)

  pub magic_lac_dial-SameSome : (w : World) (l : ℕ) → SameSome w (magic_lac_dial cfg w l)
  unfolding magic_lac_dial
  magic_lac_dial-SameSome w l =
      let w1 = put_lac w l (retried (w.lacs l)) in
      ground (arith, lac_call-SameSome w1 (some l) none)

  end_tunnel-SameResult : (w : World) → SameResult w (end_tunnel w)
  unfolding end_tunnel
  end_tunnel-SameResult w = ground arith

  pub finish_stop_ccn-SameResult : (w : World) → SameResult w (finish_stop_ccn cfg w)
  unfolding finish_stop_ccn
  finish_stop_ccn-SameResult w =
      let t = w.session.tunnel in
      let tid = stopped_tid t in
      let wrong = not (same_int t.qtid tid) && not (not_positive tid) in
      if-SameResult w (is_neg t.qtid) (done true w) (if wrong then done true w else end_tunnel w)
        (SameCore-refl w)
        (if-SameResult w wrong (done true w) (end_tunnel w) (SameCore-refl w)
          (end_tunnel-SameResult w))

  send_icrp-SameResult : (w : World) (p : ℕ) → SameResult w (send_icrp cfg w p)
  unfolding send_icrp
  send_icrp-SameResult w p =
      let c1 : Call = record (w.session.calls p) { state = icrp } in
      let w1 = put_call w p c1 in
      sent-SameResult w _
        (prepared-SameSome w (hide cfg w1) p _ (put_call-SameCore w p c1 ⨾ hide-SameCore cfg w1))

  close_and_fail-SameResult : (w : World) (a : ℕ) → SameResult w (close_and_fail cfg w a)
  close_and_fail-SameResult w a = ground (arith, call_close-SameSome cfg w a)

  set_call_error-SameCore :
      (w : World) (a e : ℕ) (msg : String) → SameCore w (set_call_error w a e msg)
  unfolding set_call_error
  set_call_error-SameCore w a e msg = ground arith

  take_addr-AnyTaken : (w : World) (ranges : List Iprange) → AnyTaken w (take_addr cfg w ranges)
  unfolding take_addr
  take_addr-AnyTaken w ranges = ground arith

  use_addr-SameResult : (w : World) (p x : ℕ) → SameResult w (use_addr cfg w p x)
  unfolding use_addr
  use_addr-SameResult w p x =
      let c = record (w.session.calls p) { addr = x } in
      let w1 = put_call w p c in
      let msg : String = "No available IP address" in
      let w2 = set_call_error w1 p error_nores msg in
      let same = put_call-SameCore w p c in
      if-SameResult w (x == 0) (close_and_fail cfg w2 p) (send_icrp cfg w1 p)
        (SameResult-trans (close_and_fail cfg w2 p)
          (same ⨾ set_call_error-SameCore w1 p error_nores msg) (close_and_fail-SameResult w2 p))
        (SameResult-trans (send_icrp cfg w1 p) same (send_icrp-SameResult w1 p))

  taken-SameResult :
      (w : World) (p : ℕ) (o : Option (ℕ × World)) → AnyTaken w o → SameResult w (taken cfg p o)
  unfolding taken
  taken-SameResult w p none same = tt
  taken-SameResult w p (some (x, w1)) same =
      SameResult-trans (use_addr cfg w1 p x) same (use_addr-SameResult w1 p x)

  assign_by-SameResult : (w : World) (p : ℕ) (o : Option ℕ) → SameResult w (assign_by cfg w p o)
  unfolding assign_by
  assign_by-SameResult w p none = tt
  assign_by-SameResult w p (some l) =
      let c = record (w.session.calls p) { addr = 0 } in
      let w1 = put_call w p c in
      let ranges = (cfg.lns l).range in
      if-SameResult w (cfg.lns l).assign_ip (taken cfg p (take_addr cfg w ranges))
        (send_icrp cfg w1 p)
        (taken-SameResult w p (take_addr cfg w ranges) (take_addr-AnyTaken w ranges))
        (SameResult-trans (send_icrp cfg w1 p) (put_call-SameCore w p c)
          (send_icrp-SameResult w1 p))

  assign_addr-SameResult : (w : World) (p : ℕ) → SameResult w (assign_addr cfg w p)
  unfolding assign_addr
  assign_addr-SameResult w p = assign_by-SameResult w p w.session.tunnel.lns

  accept_call-SameResult :
      (w : World) (p : ℕ) (zs : List ℕ) (l : ℕ) → SameResult w (accept_call cfg w p zs l)
  unfolding accept_call
  accept_call-SameResult w p zs l =
      let c = record (w.session.calls p) { lbit = lbit_of (cfg.lns l).lbit } in
      let w1 = put_call w p c in
      let same = put_call-SameCore w p c in
      let closing = record c { needclose = false; closing = true } in
      let twice = done false (put_call w1 p closing) in
      let again = has_cid w1.session c.cid zs in
      if-SameResult w (is_neg c.cid) (close_and_fail cfg w1 p)
        (if again then twice else assign_addr cfg w1 p)
        (SameResult-trans (close_and_fail cfg w1 p) same (close_and_fail-SameResult w1 p))
        (if-SameResult w again twice (assign_addr cfg w1 p) (same ⨾ put_call-SameCore w1 p closing)
          (SameResult-trans (assign_addr cfg w1 p) same (assign_addr-SameResult w1 p)))

  judge_call-SameResult :
      (w : World) (p : ℕ) (zs : List ℕ) (l : Option ℕ) → SameResult w (judge_call cfg w p zs l)
  unfolding judge_call
  judge_call-SameResult w p zs none =
      let msg : String = "This tunnel cannot accept calls\n" in
      let w1 = set_call_error w p error_invalid msg in
      SameResult-trans (close_and_fail cfg w1 p) (set_call_error-SameCore w p error_invalid msg)
        (close_and_fail-SameResult w1 p)
  judge_call-SameResult w p zs (some l) = accept_call-SameResult w p zs l

  first_call-SameResult : (w : World) (calls : List ℕ) → SameResult w (first_call cfg w calls)
  unfolding first_call
  first_call-SameResult w [] = tt
  first_call-SameResult w (p ∷ zs) = judge_call-SameResult w p zs (w.session.calls p).lns

  pub finish_icrq-SameResult : (w : World) → SameResult w (finish_icrq cfg w)
  unfolding finish_icrq
  finish_icrq-SameResult w = first_call-SameResult w w.session.tunnel.call_head

  send_iccn-SameSome : (w : World) → SameSome w (send_iccn cfg w)
  unfolding send_iccn
  send_iccn-SameSome w =
      let a = w.session.current in
      let frame = framing w.session.tunnel.fc in
      let c1 : Call = record (cur w.session) { state = iccn; frame = frame } in
      let w1 = put_call w a c1 in
      prepared-SameSome w (hide cfg w1) a _ (put_call-SameCore w a c1 ⨾ hide-SameCore cfg w1)

  pipe_password-SameResult : (w : World) (l : ℕ) → SameResult w (pipe_password cfg w l)
  unfolding pipe_password start_icrp launch
  pipe_password-SameResult w l = ground arith

  sent_iccn-SameResult :
      (w : World) (l : Option ℕ) (o : Option World)
      → SameSome w o
      → SameResult w (sent_iccn cfg l o)
  unfolding sent_iccn
  sent_iccn-SameResult w l none same = tt
  sent_iccn-SameResult w none (some w1) same = tt
  sent_iccn-SameResult w (some l) (some w1) same =
      SameResult-trans (pipe_password cfg w1 l) same (pipe_password-SameResult w1 l)

  pub finish_icrp-SameResult : (w : World) → SameResult w (finish_icrp cfg w)
  unfolding finish_icrp
  finish_icrp-SameResult w =
      ground
        (arith, sent_iccn-SameResult w (cur w.session).lac (send_iccn cfg w) (send_iccn-SameSome w))

  pub finish_occn-SameResult : (w : World) → SameResult w (finish_occn cfg w)
  unfolding finish_occn launch
  finish_occn-SameResult w = ground arith

  pub finish_cdn-SameResult : (w : World) → SameResult w (finish_cdn cfg w)
  unfolding finish_cdn
  finish_cdn-SameResult w = ground arith

  note_local-AnyLocal :
      (w : World) (a l : ℕ) (o : Option (ℕ × World))
      → AnyTaken w o
      → AnyLocal w (note_local cfg a l o)
  unfolding note_local
  note_local-AnyLocal w a l none same = tt
  note_local-AnyLocal w a l (some (x, w1)) same =
      let w2 = record w1 { localaddr = λ i. if i == l then x else w1.localaddr i } in
      let w3 = set_call_error w2 a error_nores "No available local IP addresses" in
      ground (
        arith,
        same,
        set_call_error-SameCore w2 a error_nores "No available local IP addresses",
        call_close-SameSome cfg w3 a,
      )

  get_local_addr-AnyLocal :
      (w : World) (a : ℕ) (tl l : Option ℕ) → AnyLocal w (get_local_addr cfg w a tl l)
  unfolding get_local_addr
  get_local_addr-AnyLocal w a none l = tt
  get_local_addr-AnyLocal w a (some tl) none = ground arith
  get_local_addr-AnyLocal w a (some tl) (some l) =
      let ranges = (cfg.lns tl).localrange in
      ground
        (arith, note_local-AnyLocal w a l (take_addr cfg w ranges) (take_addr-AnyTaken w ranges))

  start_iccn-SameResult :
      (w : World) (a : ℕ) (o : Option (Bool × World))
      → AnyLocal w o
      → SameResult w (start_iccn cfg a o)
  unfolding start_iccn launch
  start_iccn-SameResult w a none same = tt
  start_iccn-SameResult w a (some (true, w1)) same = same
  start_iccn-SameResult w a (some (false, w1)) same = ground (arith, same)

  pub finish_iccn-SameResult : (w : World) → SameResult w (finish_iccn cfg w)
  unfolding finish_iccn
  finish_iccn-SameResult w =
      let a = w.session.current in
      let w1 = put_call w a (record (cur w.session) { state = iccn }) in
      let o = get_local_addr cfg w1 a w.session.tunnel.lns (cur w.session).lns in
      ground (
        arith,
        start_iccn-SameResult w1 a o
            (get_local_addr-AnyLocal w1 a w.session.tunnel.lns (cur w.session).lns),
      )

  pub finish_other-SameResult : (w : World) (m : ℕ) → SameResult w (finish_other w m)
  unfolding set_error
  finish_other-SameResult w m = ground arith
