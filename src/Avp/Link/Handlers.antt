-- ===== src/Avp/Link/Handlers.antt =====
-- Every handler leaves the connection as it is.
use xl2tpd.Base.{◌&◌, ℕ, zero, suc, arith, List, [], ◌∷◌, All, Option, none, some, get_elem?}
use xl2tpd.Session.{Session, Env}
use xl2tpd.Avp.Raw.{Raw}
use xl2tpd.Avp.MessageType.{message_type_avp}
use xl2tpd.Avp.TunnelAvps.{
  rand_vector_avp, ignore_avp, protocol_version_avp, framing_caps_avp, bearer_caps_avp,
  firmware_rev_avp, hostname_avp, vendor_avp, challenge_avp, chalresp_avp, assigned_tunnel_avp,
  receive_window_size_avp,
}
use xl2tpd.Avp.CallAvps.{
  seq_reqd_avp, result_code_avp, bearer_type_avp, frame_type_avp, dialing_number_avp,
  dialed_number_avp, sub_address_avp, assigned_call_avp, packet_delay_avp, call_serno_avp,
  rx_speed_avp, tx_speed_avp, call_physchan_avp,
}
use xl2tpd.Avp.Loop.{Handler, avps, handler}
use xl2tpd.Avp.Link.{SameReply}

module _ (env : Env) (s : Session) (r : Raw) (n : ℕ) where
  rand_vector_avp-SameReply : SameReply s (rand_vector_avp s r n)
  unfolding rand_vector_avp
  rand_vector_avp-SameReply = ground arith

  ignore_avp-SameReply : SameReply s (ignore_avp s r n)
  unfolding ignore_avp
  ignore_avp-SameReply = ground arith

  protocol_version_avp-SameReply : SameReply s (protocol_version_avp s r n)
  unfolding protocol_version_avp
  protocol_version_avp-SameReply = ground arith

  framing_caps_avp-SameReply : SameReply s (framing_caps_avp s r n)
  unfolding framing_caps_avp
  framing_caps_avp-SameReply = ground arith

  bearer_caps_avp-SameReply : SameReply s (bearer_caps_avp s r n)
  unfolding bearer_caps_avp
  bearer_caps_avp-SameReply = ground arith

  firmware_rev_avp-SameReply : SameReply s (firmware_rev_avp s r n)
  unfolding firmware_rev_avp
  firmware_rev_avp-SameReply = ground arith

  hostname_avp-SameReply : SameReply s (hostname_avp s r n)
  unfolding hostname_avp
  hostname_avp-SameReply = ground arith

  vendor_avp-SameReply : SameReply s (vendor_avp s r n)
  unfolding vendor_avp
  vendor_avp-SameReply = ground arith

  challenge_avp-SameReply : SameReply s (challenge_avp env s r n)
  unfolding challenge_avp
  challenge_avp-SameReply = ground arith

  chalresp_avp-SameReply : SameReply s (chalresp_avp s r n)
  unfolding chalresp_avp
  chalresp_avp-SameReply = ground arith

  assigned_tunnel_avp-SameReply : SameReply s (assigned_tunnel_avp s r n)
  unfolding assigned_tunnel_avp
  assigned_tunnel_avp-SameReply = ground arith

  receive_window_size_avp-SameReply : SameReply s (receive_window_size_avp s r n)
  unfolding receive_window_size_avp
  receive_window_size_avp-SameReply = ground arith

  seq_reqd_avp-SameReply : SameReply s (seq_reqd_avp s r n)
  unfolding seq_reqd_avp
  seq_reqd_avp-SameReply = ground arith

  result_code_avp-SameReply : SameReply s (result_code_avp s r n)
  unfolding result_code_avp
  result_code_avp-SameReply = ground arith

  bearer_type_avp-SameReply : SameReply s (bearer_type_avp s r n)
  unfolding bearer_type_avp
  bearer_type_avp-SameReply = ground arith

  frame_type_avp-SameReply : SameReply s (frame_type_avp s r n)
  unfolding frame_type_avp
  frame_type_avp-SameReply = ground arith

  dialing_number_avp-SameReply : SameReply s (dialing_number_avp s r n)
  unfolding dialing_number_avp
  dialing_number_avp-SameReply = ground arith

  dialed_number_avp-SameReply : SameReply s (dialed_number_avp s r n)
  unfolding dialed_number_avp
  dialed_number_avp-SameReply = ground arith

  sub_address_avp-SameReply : SameReply s (sub_address_avp s r n)
  unfolding sub_address_avp
  sub_address_avp-SameReply = ground arith

  assigned_call_avp-SameReply : SameReply s (assigned_call_avp s r n)
  unfolding assigned_call_avp
  assigned_call_avp-SameReply = ground arith

  packet_delay_avp-SameReply : SameReply s (packet_delay_avp s r n)
  unfolding packet_delay_avp
  packet_delay_avp-SameReply = ground arith

  call_serno_avp-SameReply : SameReply s (call_serno_avp s r n)
  unfolding call_serno_avp
  call_serno_avp-SameReply = ground arith

  rx_speed_avp-SameReply : SameReply s (rx_speed_avp s r n)
  unfolding rx_speed_avp
  rx_speed_avp-SameReply = ground arith

  tx_speed_avp-SameReply : SameReply s (tx_speed_avp s r n)
  unfolding tx_speed_avp
  tx_speed_avp-SameReply = ground arith

  call_physchan_avp-SameReply : SameReply s (call_physchan_avp s r n)
  unfolding call_physchan_avp
  call_physchan_avp-SameReply = ground arith

  message_type_avp-SameReply : SameReply s (message_type_avp env s r n)
  unfolding message_type_avp
  message_type_avp-SameReply = ground arith

-- A handler of the table.
abbrev pub Leaves : Option Handler → Type 0
Leaves none = Unit
Leaves (some h) = (s : Session) (r : Raw) (n : ℕ) → SameReply s (h s r n)

avps-Leaves : (env : Env) → All Leaves (avps env)
unfolding avps
avps-Leaves env =
    message_type_avp-SameReply env
    & result_code_avp-SameReply env
    & protocol_version_avp-SameReply env
    & framing_caps_avp-SameReply env
    & bearer_caps_avp-SameReply env
    & tt
    & firmware_rev_avp-SameReply env
    & hostname_avp-SameReply env
    & vendor_avp-SameReply env
    & assigned_tunnel_avp-SameReply env
    & receive_window_size_avp-SameReply env
    & challenge_avp-SameReply env
    & tt
    & chalresp_avp-SameReply env
    & assigned_call_avp-SameReply env
    & call_serno_avp-SameReply env
    & tt
    & tt
    & bearer_type_avp-SameReply env
    & frame_type_avp-SameReply env
    & packet_delay_avp-SameReply env
    & dialed_number_avp-SameReply env
    & dialing_number_avp-SameReply env
    & sub_address_avp-SameReply env
    & tx_speed_avp-SameReply env
    & call_physchan_avp-SameReply env
    & tt
    & tt
    & tt
    & ignore_avp-SameReply env
    & ignore_avp-SameReply env
    & ignore_avp-SameReply env
    & ignore_avp-SameReply env
    & ignore_avp-SameReply env
    & tt
    & ignore_avp-SameReply env
    & rand_vector_avp-SameReply env
    & tt
    & rx_speed_avp-SameReply env
    & seq_reqd_avp-SameReply env
    & tt

Leaves-get_elem? :
    (hs : List (Option Handler)) (i : ℕ)
    → All Leaves hs
    → Leaves (elim (get_elem? hs i) [ none ↦ none | some h ↦ h ])
Leaves-get_elem? [] i all = tt
Leaves-get_elem? (h ∷ hs) zero all = all.0
Leaves-get_elem? (h ∷ hs) (suc i) all = Leaves-get_elem? hs i all.1

pub handler-Leaves : (env : Env) (attr : ℕ) → Leaves (handler env attr)
unfolding handler
handler-Leaves env attr = Leaves-get_elem? (avps env) attr (avps-Leaves env)
