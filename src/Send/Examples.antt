-- ===== src/Send/Examples.antt =====
-- Messages built and taken, and the theorems at concrete inputs.
use xl2tpd.Base.{ℕ, ◌+◌, ◌≡◌, refl, arith, true, List, [], ◌∷◌, ◌++◌, length, none, some, pos}
use xl2tpd.Message.{stop_ccn, cdn}
use xl2tpd.Session.{cur, put_cur}
use xl2tpd.Sample.{env, new_session, busy_session}
use xl2tpd.Avp.Raw.{ok}
use xl2tpd.Avp.Loop.{handle_avps}
use xl2tpd.Send.{Buffer, add_result_code_avp}
use xl2tpd.Send.Encode.{Avp, encode_all}
use xl2tpd.Send.Closing.{add_stop_ccn, add_cdn}
use xl2tpd.Send.Written.{word_avp}
use xl2tpd.Send.Walk.{process, handle_avps-process}
use xl2tpd.Send.Receive.{typed, with_result}
use xl2tpd.Send.Deliver.{stop_ccn_received, cdn_received}

-- "hi"
abbrev text : List ℕ
text = 104 ∷ 105 ∷ []

result_code_bytes :
    add_result_code_avp 2 6 text (record { content = []; room = 99 })
    ≡ some
        (record { content = 128 ∷ 12 ∷ 0 ∷ 0 ∷ 0 ∷ 1 ∷ 0 ∷ 2 ∷ 0 ∷ 6 ∷ 104 ∷ 105 ∷ []; room = 99 })
unfolding add_result_code_avp
result_code_bytes = refl

abbrev hello_and_window : List Avp
hello_and_window = word_avp 0 6 ∷ word_avp 10 4 ∷ []

handle_avps-process_example :
    handle_avps env 17 new_session 28 (encode_all hello_and_window ++ (0 ∷ []))
    ≡ some (process env true new_session hello_and_window (0 ∷ []))
handle_avps-process_example =
    handle_avps-process env 17 new_session hello_and_window (0 ∷ [])
      ((omega arith, omega arith), ((omega arith, omega arith), tt)) (omega arith)

stop_ccn_received_example :
    let s1 = typed busy_session stop_ccn in
    (b : Buffer) × (add_stop_ccn none 9 (pos 1) (pos 0) text (record { content = []; room = 200 })
      ≡ some b)
    × (handle_avps env 40 busy_session (12 + length b.content) (b.content ++ [])
        ≡ some (
            ok (
              with_result
                (record s1 { tunnel = record (busy_session.tunnel) { qtid = pos 9 } })
                1
                0
                text)))
stop_ccn_received_example =
    stop_ccn_received env 40 200 9 1 0 busy_session text [] (omega arith) (omega arith)
      (omega arith) (omega arith) (omega arith) (omega arith) (omega arith) refl

cdn_received_example :
    let s1 = with_result (typed busy_session cdn) 2 6 text in
    (b : Buffer) × (add_cdn none 9 (pos 2) (pos 6) text (record { content = []; room = 200 })
      ≡ some b)
    × (handle_avps env 40 busy_session (12 + length b.content) (b.content ++ [])
        ≡ some (ok (put_cur s1 (record (cur s1) { qcid = pos 9 }))))
cdn_received_example =
    cdn_received env 40 200 9 2 6 busy_session text [] (omega arith) (omega arith) (omega arith)
      (omega arith) (omega arith) (omega arith) (omega arith)
