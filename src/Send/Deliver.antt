-- ===== src/Send/Deliver.antt =====
-- A closing message from its sender's `call_close` through the receiver's `handle_avps`.
use xl2tpd.Base.{ℕ, ◌+◌, ◌≤◌, ◌<◌, ◌≡◌, inl, inr, refl, ap, ◌∙◌, arith, Bool, true, false}
use xl2tpd.Base.{List, [], ◌∷◌, ◌++◌, length, none, some, pos}
use xl2tpd.Message.{stop_ccn, cdn, control_hdr_size}
use xl2tpd.Session.{Session, Env, cur, put_cur}
use xl2tpd.Avp.Raw.{ok}
use xl2tpd.Avp.Loop.{next, handle_avps}
use xl2tpd.Send.{Buffer}
use xl2tpd.Send.Encode.{Avp, encode_all}
use xl2tpd.Send.Closing.{add_stop_ccn, add_cdn}
use xl2tpd.Send.Written.{word_avp, result_avp, stop_ccn_avps, cdn_avps, add_stop_ccn-encode}
use xl2tpd.Send.Written.{add_cdn-encode}
use xl2tpd.Send.Walk.{deliver, process, handle_avps-content}
use xl2tpd.Send.Receive.{
  typed, with_result, deliver_type, deliver_tunnel, deliver_call, deliver_result,
}

process-next :
    (env : Env) (first : Bool) (s s' : Session) (a : Avp) (more : List Avp) (behind : List ℕ)
    → deliver env first s a (encode_all more ++ behind) ≡ next s'
    → process env first s (a ∷ more) behind ≡ process env false s' more behind
unfolding process
process-next env first s s' a more behind e = rw (process, e) refl

typed-msgtype : (s : Session) (m : ℕ) → (cur (typed s m)).msgtype ≡ pos m
typed-msgtype s m = ground arith

-- The sender's side and the receiver's.
module _ (env : Env) (fuel room id result error : ℕ) (s : Session) (msg behind : List ℕ)
    (id_small : id < 65_536) (low : 1 ≤ result) (high : result ≤ 7) (small : error < 256)
    (short : length msg ≤ 1013) (fits : 26 + length msg ≤ room)
    (enough : 26 + length msg < fuel) where
  process-stop_ccn :
      s.current ≡ s.tunnel.self
      → let s1 = typed s stop_ccn in
        process env true s (stop_ccn_avps id result error msg) behind
        ≡ ok (
            with_result
              (record s1 { tunnel = record (s.tunnel) { qtid = pos id } })
              result
              error
              msg)
  unfolding process
  process-stop_ccn own =
      let a1 = word_avp 0 stop_ccn in
      let a2 = word_avp 9 id in
      let a3 = result_avp result error msg in
      let s1 = typed s stop_ccn in
      let s2 = record s1 { tunnel = record (s.tunnel) { qtid = pos id } } in
      process-next env true s s1 a1 (a2 ∷ a3 ∷ []) behind (
        deliver_type env s stop_ccn (encode_all (a2 ∷ a3 ∷ []) ++ behind) (omega arith)
          (inr (refl, own)))
      ∙ process-next env false s1 s2 a2 (a3 ∷ []) behind (
          deliver_tunnel env s1 id (encode_all (a3 ∷ []) ++ behind) id_small
            (typed-msgtype s stop_ccn))
      ∙ process-next env false s2 (with_result s2 result error msg) a3 [] behind (
          deliver_result env s2 stop_ccn result error msg (encode_all [] ++ behind)
            (typed-msgtype s stop_ccn) (inr refl) low high small short)

  process-cdn :
      let s1 = with_result (typed s cdn) result error msg in
      process env true s (cdn_avps id result error msg) behind
      ≡ ok (put_cur s1 (record (cur s1) { qcid = pos id }))
  unfolding process
  process-cdn =
      let a1 = word_avp 0 cdn in
      let a2 = result_avp result error msg in
      let a3 = word_avp 14 id in
      let s1 = typed s cdn in
      let s2 = with_result s1 result error msg in
      process-next env true s s1 a1 (a2 ∷ a3 ∷ []) behind
        (deliver_type env s cdn (encode_all (a2 ∷ a3 ∷ []) ++ behind) (omega arith) (inl refl))
      ∙ process-next env false s1 s2 a2 (a3 ∷ []) behind (
          deliver_result env s1 cdn result error msg (encode_all (a3 ∷ []) ++ behind)
            (typed-msgtype s cdn) (inl refl) low high small short)
      ∙ process-next env false s2 (put_cur s2 (record (cur s2) { qcid = pos id })) a3 [] behind (
          deliver_call env s2 id (encode_all [] ++ behind) id_small
            (ground (arith, typed-msgtype s cdn)))

  -- What `call_close` writes to close a tunnel, without hidden AVPs and into a buffer with the
  -- room for it, is taken whole by `handle_avps` of the peer on its tunnel's own call, whatever
  -- lies behind it: it records the sender's tunnel, the result and the error as they were, and the
  -- text up to its first NUL or to 119 bytes, and nothing else. The result is one of the seven of
  -- a StopCCN, the error fits a byte, the text has at most 1013 bytes, and a fuel above the number
  -- of bytes is enough.
  pub stop_ccn_received :
      s.current ≡ s.tunnel.self
      → let s1 = typed s stop_ccn in
        (b : Buffer) × (add_stop_ccn none id
            (pos result)
            (pos error)
            msg
            (record { content = []; room = room })
          ≡ some b)
        × (handle_avps env fuel s (control_hdr_size + length b.content) (b.content ++ behind)
            ≡ some (
                ok (
                  with_result
                    (record s1 { tunnel = record (s.tunnel) { qtid = pos id } })
                    result
                    error
                    msg)))
  stop_ccn_received own =
      let (b, e, c) =
        add_stop_ccn-encode room id result error msg id_small (omega arith) (omega arith) short
          fits in
      (
        b,
        e,
        handle_avps-content env fuel s (stop_ccn_avps id result error msg) b.content behind
              (
                (omega arith, omega arith),
                ((omega arith, omega arith), ((omega arith, omega arith), tt)),
              )
              c (omega arith)
            ∙ ap some (process-stop_ccn own),
      )

  -- What `call_close` writes to close a call, without hidden AVPs and into a buffer with the room
  -- for it, is taken whole by `handle_avps` of the peer on any call of the tunnel, whatever lies
  -- behind it: it records the sender's call, the result and the error as they were, and the text
  -- up to its first NUL or to 119 bytes, and nothing else. The result is from 1 to 7, the error
  -- fits a byte, the text has at most 1013 bytes, and a fuel above the number of bytes is enough.
  pub cdn_received :
      let s1 = with_result (typed s cdn) result error msg in
      (b : Buffer) × (add_cdn none id
          (pos result)
          (pos error)
          msg
          (record { content = []; room = room })
        ≡ some b)
      × (handle_avps env fuel s (control_hdr_size + length b.content) (b.content ++ behind)
          ≡ some (ok (put_cur s1 (record (cur s1) { qcid = pos id }))))
  cdn_received =
      let (b, e, c) =
        add_cdn-encode room id result error msg id_small (omega arith) (omega arith) short fits in
      (
        b,
        e,
        handle_avps-content env fuel s (cdn_avps id result error msg) b.content behind
              (
                (omega arith, omega arith),
                ((omega arith, omega arith), ((omega arith, omega arith), tt)),
              )
              c (omega arith)
            ∙ ap some process-cdn,
      )
