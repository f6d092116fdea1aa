-- ===== src/Send/Receive.antt =====
-- What the handlers make of the AVPs of a closing message, one at a time.
use xl2tpd.Base.{ℕ, ◌+◌, ◌≤◌, ◌<◌, ◌≡◌, ◌⊎◌, refl, ap, ◌∙◌, arith, true, false}
use xl2tpd.Base.{leb, take-length-append, List, ◌++◌, length, length-append, be16, some, pos}
use xl2tpd.Message.{stop_ccn, cdn}
use xl2tpd.Session.{Session, Env, cur, put_cur, copied, safe_copy}
use xl2tpd.Avp.Raw.{Raw, ok, raw_3, raw_4, raw_bytes, exact, appropriate, at_least}
use xl2tpd.Avp.MessageType.{message_type_avp, sane, admits}
use xl2tpd.Avp.TunnelAvps.{assigned_tunnel_avp}
use xl2tpd.Avp.CallAvps.{result_code_avp, assigned_call_avp, store_result, unswap}
use xl2tpd.Avp.Loop.{Handler, next, run_handler, handler, avps, alength}
use xl2tpd.Send.Encode.{word}
use xl2tpd.Send.Written.{word_avp, result_avp}
use xl2tpd.Send.Walk.{deliver}

abbrev pub typed : Session → ℕ → Session
typed s m = put_cur s (record (cur s) { msgtype = pos m })

message_type-typed :
    (env : Env) (s : Session) (m : ℕ) (behind : List ℕ)
    → m < 65_536
    → (m ≡ cdn) ⊎ ((m ≡ stop_ccn) × (s.current ≡ s.tunnel.self))
    → message_type_avp env s (record { length_word = 32_776; body = be16 m ++ behind }) 8
      ≡ ok (typed s m)
unfolding message_type_avp sane admits raw_3
message_type-typed env s m behind small h = ground arith

assigned_tunnel-put :
    (s : Session) (tid : ℕ) (behind : List ℕ)
    → tid < 65_536
    → (cur s).msgtype ≡ pos stop_ccn
    → assigned_tunnel_avp s (record { length_word = 32_776; body = be16 tid ++ behind }) 8
      ≡ ok (record s { tunnel = record (s.tunnel) { qtid = pos tid } })
unfolding assigned_tunnel_avp exact appropriate raw_3
assigned_tunnel-put s tid behind small e = ground arith

assigned_call-put :
    (s : Session) (cid : ℕ) (behind : List ℕ)
    → cid < 65_536
    → (cur s).msgtype ≡ pos cdn
    → assigned_call_avp s (record { length_word = 32_776; body = be16 cid ++ behind }) 8
      ≡ ok (put_cur s (record (cur s) { qcid = pos cid }))
unfolding assigned_call_avp exact appropriate raw_3
assigned_call-put s cid behind small e = ground arith

abbrev value_raw : ℕ → ℕ → ℕ → List ℕ → List ℕ → Raw
value_raw w result error msg behind = record {
  length_word = w;
  body = (result_avp result error msg).value ++ behind;
}

abbrev pub with_result : Session → ℕ → ℕ → List ℕ → Session
with_result s result error msg = put_cur s (record (cur s) {
  error = pos error;
  result = pos result;
  errormsg = copied (safe_copy msg (length msg));
})

raw_bytes-append :
    (w : ℕ) (xs behind : List ℕ)
    → raw_bytes (length xs) (record { length_word = w; body = xs ++ behind }) ≡ some xs
unfolding raw_bytes
raw_bytes-append w xs behind = rw (raw_bytes, fits) (ap some (take-length-append xs behind))
  where
    fits : leb (length xs) (length (xs ++ behind)) ≡ true
    fits = ground (arith, length-append xs behind)

raw_bytes-value :
    (w result error : ℕ) (msg behind : List ℕ)
    → raw_bytes (4 + length msg) (value_raw w result error msg behind)
      ≡ some ((result_avp result error msg).value)
raw_bytes-value w result error msg behind =
    ap (λ (k : ℕ). raw_bytes k (value_raw w result error msg behind)) four
    ∙ raw_bytes-append w (result_avp result error msg).value behind
  where
    four : 4 + length msg ≡ length (result_avp result error msg).value
    four = omega arith

raw_4-value :
    (w result error : ℕ) (msg behind : List ℕ)
    → error < 256
    → raw_4 (value_raw w result error msg behind) ≡ some error
unfolding raw_4
raw_4-value w result error msg behind small = ap some (omega arith)

store_result-text :
    (s : Session) (w result error : ℕ) (msg behind : List ℕ)
    → error < 256
    → store_result s (value_raw w result error msg behind) (10 + length msg) result
      ≡ ok (with_result s result error msg)
unfolding store_result unswap
store_result-text s w result error msg behind small =
    ground (
      arith,
      raw_4-value w result error msg behind small,
      raw_bytes-value w result error msg behind,
    )

-- A result and an error in the low byte, as the codes of the protocol are, are left as they are.
result_code-put :
    (s : Session) (m w result error : ℕ) (msg behind : List ℕ)
    → (cur s).msgtype ≡ pos m
    → (m ≡ cdn) ⊎ (m ≡ stop_ccn)
    → 1 ≤ result
    → result ≤ 7
    → result_code_avp s (value_raw w result error msg behind) (10 + length msg)
      ≡ store_result s (value_raw w result error msg behind) (10 + length msg) result
unfolding result_code_avp at_least appropriate raw_3 unswap
result_code-put s m w result error msg behind e kind low high = ground arith

run_ok :
    (env : Env) (s s' : Session) (attr : ℕ) (r : Raw) (h : Handler)
    → handler env attr ≡ some h
    → h s r (alength r.length_word) ≡ ok s'
    → run_handler env s attr r ≡ next s'
unfolding run_handler
run_ok env s s' attr r h e f = rw (run_handler, e, f) refl

pub deliver_type :
    (env : Env) (s : Session) (m : ℕ) (behind : List ℕ)
    → m < 65_536
    → (m ≡ cdn) ⊎ ((m ≡ stop_ccn) × (s.current ≡ s.tunnel.self))
    → deliver env true s (word_avp 0 m) behind ≡ next (typed s m)
unfolding handler avps
deliver_type env s m behind small h =
    run_ok env s (typed s m) 0 (record { length_word = 32_776; body = be16 m ++ behind })
      (message_type_avp env) refl (message_type-typed env s m behind small h)

pub deliver_tunnel :
    (env : Env) (s : Session) (tid : ℕ) (behind : List ℕ)
    → tid < 65_536
    → (cur s).msgtype ≡ pos stop_ccn
    → deliver env false s (word_avp 9 tid) behind
      ≡ next (record s { tunnel = record (s.tunnel) { qtid = pos tid } })
unfolding handler avps
deliver_tunnel env s tid behind small e =
    run_ok env s (record s { tunnel = record (s.tunnel) { qtid = pos tid } }) 9
      (record { length_word = 32_776; body = be16 tid ++ behind }) assigned_tunnel_avp refl
      (assigned_tunnel-put s tid behind small e)

pub deliver_call :
    (env : Env) (s : Session) (cid : ℕ) (behind : List ℕ)
    → cid < 65_536
    → (cur s).msgtype ≡ pos cdn
    → deliver env false s (word_avp 14 cid) behind
      ≡ next (put_cur s (record (cur s) { qcid = pos cid }))
unfolding handler avps
deliver_call env s cid behind small e =
    run_ok env s (put_cur s (record (cur s) { qcid = pos cid })) 14
      (record { length_word = 32_776; body = be16 cid ++ behind }) assigned_call_avp refl
      (assigned_call-put s cid behind small e)

pub deliver_result :
    (env : Env) (s : Session) (m result error : ℕ) (msg behind : List ℕ)
    → (cur s).msgtype ≡ pos m
    → (m ≡ cdn) ⊎ (m ≡ stop_ccn)
    → 1 ≤ result
    → result ≤ 7
    → error < 256
    → length msg ≤ 1013
    → deliver env false s (result_avp result error msg) behind
      ≡ next (with_result s result error msg)
unfolding handler avps
deliver_result env s m result error msg behind e kind low high small short =
    let w = word (result_avp result error msg) in
    run_ok env s (with_result s result error msg) 1 (value_raw w result error msg behind)
      result_code_avp refl
      (ap (result_code_avp s (value_raw w result error msg behind)) len
        ∙ result_code-put s m w result error msg behind e kind low high
        ∙ store_result-text s w result error msg behind small)
  where
    len : alength (word (result_avp result error msg)) ≡ 10 + length msg
    len = omega arith
