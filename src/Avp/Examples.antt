-- ===== src/Avp/Examples.antt =====
-- Control messages given to `handle_avps`, and its theorems at concrete inputs.
use xl2tpd.Base.{inl, ℕ, ◌≡◌, refl, arith, List, [], ◌∷◌, ◌++◌, some, be16}
use xl2tpd.Base.{pos}
use xl2tpd.Message.{icrq, sccrq}
use xl2tpd.Session.{cur, put_cur}
use xl2tpd.Sample.{env, new_session, busy_session}
use xl2tpd.Avp.Raw.{Raw, Reply, fault, ok, raw_3}
use xl2tpd.Avp.MessageType.{message_type_avp}
use xl2tpd.Avp.MessageType.Guard.{IsExpected, IsRecorded, message_type_avp_accepts}
use xl2tpd.Avp.Loop.{handle_avps}
use xl2tpd.Avp.Loop.Total.{handle_avps_total}
use xl2tpd.Avp.NullHead.{plain_avp, refused_icrq_faults}
use xl2tpd.Avp.Link.{SameLink}
use xl2tpd.Avp.Link.Loop.{handle_avps-SameLink}
use xl2tpd.Avp.Safe.{Keeps}
use xl2tpd.Avp.Safe.Loop.{handle_avps-Keeps}

abbrev sccrq_avp : Raw
sccrq_avp = record { length_word = 8; body = be16 sccrq }

accepted_sccrq :
    message_type_avp env new_session sccrq_avp 8
    ≡ ok (put_cur new_session (record (cur new_session) { msgtype = pos sccrq }))
unfolding message_type_avp
accepted_sccrq = refl

message_type_avp_accepts_example :
    let s' = put_cur new_session (record (cur new_session) { msgtype = pos sccrq }) in
    (◌≡◌ {A = ℕ} 8 8) × IsExpected new_session sccrq × IsRecorded new_session sccrq s'
unfolding raw_3 message_type_avp
message_type_avp_accepts_example =
    message_type_avp_accepts env new_session
      (put_cur new_session (record (cur new_session) { msgtype = pos sccrq })) refl sccrq_avp 8
      sccrq refl refl

handle_avps_total_example :
    (r : Reply) × (handle_avps env 40 new_session 20 (be16 8) ≡ some r)
    × (handle_avps env 21 new_session 20 (be16 8) ≡ some r)
handle_avps_total_example = handle_avps_total env 40 new_session 20 (be16 8) (omega arith)

refused_icrq_faults_example :
    handle_avps env 10 new_session 28 (plain_avp 0 icrq ++ (plain_avp 14 99 ++ [])) ≡ some fault
refused_icrq_faults_example = refused_icrq_faults env 8 new_session 99 0 [] refl (omega arith) refl

-- A Hello in a buffer of the size that the network code uses would do as well.
abbrev hello_packet : List ℕ
hello_packet = plain_avp 0 6 ++ (0 ∷ 0 ∷ 0 ∷ 0 ∷ 0 ∷ [])

hello_reply :
    handle_avps env 20 busy_session 20 hello_packet
    ≡ some (ok (put_cur busy_session (record (cur busy_session) { msgtype = pos 6 })))
unfolding handle_avps message_type_avp xl2tpd.Avp.TunnelAvps.framing_caps_avp
hello_reply = refl

-- A mandatory Hello, and framing capabilities, which do not go with it.
abbrev framing_avp : List ℕ
framing_avp = 0x80 ∷ 10 ∷ 0 ∷ 0 ∷ 0 ∷ 3 ∷ 0 ∷ 0 ∷ 0 ∷ 1 ∷ 0 ∷ 0 ∷ 0 ∷ 0 ∷ 0 ∷ []

abbrev two_avps : List ℕ
two_avps = 0x80 ∷ 8 ∷ 0 ∷ 0 ∷ 0 ∷ 0 ∷ 0 ∷ 6 ∷ framing_avp

two_reply :
    handle_avps env 3 busy_session 30 two_avps
    ≡ some (ok (put_cur busy_session (record (cur busy_session) { msgtype = pos 6 })))
unfolding handle_avps message_type_avp xl2tpd.Avp.TunnelAvps.framing_caps_avp
two_reply = refl

handle_avps-Keeps_example :
    Keeps (ok (put_cur busy_session (record (cur busy_session) { msgtype = pos 6 })))
unfolding xl2tpd.Avp.Loop.header
handle_avps-Keeps_example =
    handle_avps-Keeps env 3 busy_session 30 two_avps
      (ok (put_cur busy_session (record (cur busy_session) { msgtype = pos 6 }))) (refl, λ e. cc)
      (λ e. (
        λ f. refl,
        λ f. refl,
        λ e1. (
          λ f. absurd (ground (arith, f)),
          λ f. absurd (omega (arith, f)),
          λ e2. absurd (e2 refl),
        ),
      ))
      (omega arith) two_reply

-- A type that has no name, without the M bit, is looked up in the table for the log.
unnamed_faults : handle_avps env 3 busy_session 30 (plain_avp 0 65_535 ++ framing_avp) ≡ some fault
unfolding handle_avps message_type_avp xl2tpd.Avp.TunnelAvps.framing_caps_avp
unnamed_faults = refl

handle_avps-SameLink_example :
    SameLink busy_session (put_cur busy_session (record (cur busy_session) { msgtype = pos 6 }))
handle_avps-SameLink_example =
    handle_avps-SameLink env 20 busy_session 20 hello_packet
      (put_cur busy_session (record (cur busy_session) { msgtype = pos 6 })) (inl hello_reply)
