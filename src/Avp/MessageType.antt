-- ===== src/Avp/MessageType.antt =====
-- `message_type_avp` of avp.c: the state machine's guard on each message, and the new call of an
-- ICRQ (`new_call` of call.c).
pub mod Guard
use xl2tpd.Base.{ℕ, ◌+◌, Bool, false, not, ◌&&◌, ◌||◌, if◌then◌else◌, ltb, ◌==◌}
use xl2tpd.Base.{[], ◌∷◌, pos, elem, u16}
use xl2tpd.Message.{sccrq, sccrp, scccn, stop_ccn, hello, ocrq, ocrp, occn, icrq, icrp, iccn}
use xl2tpd.Message.{cdn, sli, max_msg, unnamed_msgs}
use xl2tpd.Session.{Session, Env, cur, put_cur, fresh_call, wrong_length}
use xl2tpd.Avp.Raw.{Raw, Reply, ok, einval, ◌>>=◌, raw_3}

-- The `switch` on the message: whether it may come in the present state.
unfoldable pub admits : Session → ℕ → Bool
admits s m =
    let t = s.tunnel in
    let c = cur s in
    if m == sccrq
    then t.state == 0 || t.state == sccrq
    else (if m == sccrp
        then t.state == sccrq
        else (if m == scccn
            then t.state == sccrp
            else (if m == icrq
                then t.state == scccn && s.current == t.self
                else (if m == icrp
                    then t.state == scccn && c.state == icrq
                    else (if m == iccn
                        then c.state == icrp
                        else (if m == sli
                            then c.state == iccn
                            else (if m == ocrp
                                then t.state == scccn && c.state == ocrq
                                else (if m == occn
                                    then c.state == ocrq
                                    else elem m (stop_ccn ∷ cdn ∷ hello ∷ [])))))))))

-- The whole check under SANITY.
unfoldable pub sane : Session → ℕ → Bool
unfolding admits
sane s m = not (not (s.current == s.tunnel.self) && ltb m hello) && admits s m

-- `new_call`, put at the head of the list by `message_type_avp`. `none` is a failed allocation.
unfoldable pub add_call : Env → Session → Reply
add_call env s =
    if env.alloc s.ticks
    then ok (record s {
      tunnel = record (s.tunnel) {
        call_head = s.ticks ∷ s.tunnel.call_head;
        count = s.tunnel.count + 1;
      };
      calls = λ b.
          if b == s.ticks
          then fresh_call s.tunnel.lns s.tunnel.lac (u16 (env.entropy s.ticks))
          else s.calls b;
      ticks = s.ticks + 1;
    })
    else einval (record s { ticks = s.ticks + 1 })

unfoldable pub message_type_avp : Env → Session → Raw → ℕ → Reply
unfolding raw_3 wrong_length sane add_call
message_type_avp env s r datalen = do
  m ← raw_3 r
  let s' = put_cur s (record (cur s) { msgtype = pos m })
  if not (datalen == 8)
      then einval (wrong_length s' "Message Type" 8 datalen false)
      else (if ltb max_msg m || elem m unnamed_msgs
          then einval s'
          else (if s'.tunnel.sanity && not (sane s' m)
              then einval s'
              else (if m == icrq then add_call env s' else ok s')))
