-- ===== src/Avp/Safe/Handlers.antt =====
-- Every handler of the table keeps a ready tunnel ready and does not fault.
use xl2tpd.Base.{◌%◌, arith}
use xl2tpd.Session.{Session, Env}
use xl2tpd.Avp.Raw.{Raw}
use xl2tpd.Avp.Safe.{IsReady, IsNamed, IsReadable, KeepsNamed, Names}
use xl2tpd.Avp.MessageType.{message_type_avp}
use xl2tpd.Avp.TunnelAvps.{rand_vector_avp, ignore_avp, protocol_version_avp, framing_caps_avp}
use xl2tpd.Avp.TunnelAvps.{bearer_caps_avp, firmware_rev_avp, hostname_avp, vendor_avp}
use xl2tpd.Avp.TunnelAvps.{challenge_avp, chalresp_avp, assigned_tunnel_avp}
use xl2tpd.Avp.TunnelAvps.{receive_window_size_avp}
use xl2tpd.Avp.CallAvps.{seq_reqd_avp, result_code_avp, bearer_type_avp, frame_type_avp}
use xl2tpd.Avp.CallAvps.{dialing_number_avp, dialed_number_avp, sub_address_avp, assigned_call_avp}
use xl2tpd.Avp.CallAvps.{packet_delay_avp, call_serno_avp, rx_speed_avp, tx_speed_avp}
use xl2tpd.Avp.CallAvps.{call_physchan_avp}

module _ (env : Env) (s : Session) (r : Raw) (ready : IsReady s) (named : IsNamed s)
    (readable : IsReadable r) where
  pub rand_vector_avp-KeepsNamed : KeepsNamed (rand_vector_avp s r (r.length_word % 1024))
  unfolding rand_vector_avp
  rand_vector_avp-KeepsNamed = ground arith

  pub ignore_avp-KeepsNamed : KeepsNamed (ignore_avp s r (r.length_word % 1024))
  unfolding ignore_avp
  ignore_avp-KeepsNamed = ground arith

  pub protocol_version_avp-KeepsNamed : KeepsNamed (protocol_version_avp s r (r.length_word % 1024))
  unfolding protocol_version_avp
  protocol_version_avp-KeepsNamed = ground arith

  pub framing_caps_avp-KeepsNamed : KeepsNamed (framing_caps_avp s r (r.length_word % 1024))
  unfolding framing_caps_avp
  framing_caps_avp-KeepsNamed = ground arith

  pub bearer_caps_avp-KeepsNamed : KeepsNamed (bearer_caps_avp s r (r.length_word % 1024))
  unfolding bearer_caps_avp
  bearer_caps_avp-KeepsNamed = ground arith

  pub firmware_rev_avp-KeepsNamed : KeepsNamed (firmware_rev_avp s r (r.length_word % 1024))
  unfolding firmware_rev_avp
  firmware_rev_avp-KeepsNamed = ground arith

  pub hostname_avp-KeepsNamed : KeepsNamed (hostname_avp s r (r.length_word % 1024))
  unfolding hostname_avp
  hostname_avp-KeepsNamed = ground arith

  pub vendor_avp-KeepsNamed : KeepsNamed (vendor_avp s r (r.length_word % 1024))
  unfolding vendor_avp
  vendor_avp-KeepsNamed = ground arith

  pub challenge_avp-KeepsNamed : KeepsNamed (challenge_avp env s r (r.length_word % 1024))
  unfolding challenge_avp
  challenge_avp-KeepsNamed = ground arith

  pub chalresp_avp-KeepsNamed : KeepsNamed (chalresp_avp s r (r.length_word % 1024))
  unfolding chalresp_avp
  chalresp_avp-KeepsNamed = ground arith

  pub assigned_tunnel_avp-KeepsNamed : KeepsNamed (assigned_tunnel_avp s r (r.length_word % 1024))
  unfolding assigned_tunnel_avp
  assigned_tunnel_avp-KeepsNamed = ground arith

  pub receive_window_size_avp-KeepsNamed :
      KeepsNamed (receive_window_size_avp s r (r.length_word % 1024))
  unfolding receive_window_size_avp
  receive_window_size_avp-KeepsNamed = ground arith

  pub seq_reqd_avp-KeepsNamed : KeepsNamed (seq_reqd_avp s r (r.length_word % 1024))
  unfolding seq_reqd_avp
  seq_reqd_avp-KeepsNamed = ground arith

  pub result_code_avp-KeepsNamed : KeepsNamed (result_code_avp s r (r.length_word % 1024))
  unfolding result_code_avp
  result_code_avp-KeepsNamed = ground arith

  pub bearer_type_avp-KeepsNamed : KeepsNamed (bearer_type_avp s r (r.length_word % 1024))
  unfolding bearer_type_avp
  bearer_type_avp-KeepsNamed = ground arith

  pub frame_type_avp-KeepsNamed : KeepsNamed (frame_type_avp s r (r.length_word % 1024))
  unfolding frame_type_avp
  frame_type_avp-KeepsNamed = ground arith

  pub dialing_number_avp-KeepsNamed : KeepsNamed (dialing_number_avp s r (r.length_word % 1024))
  unfolding dialing_number_avp
  dialing_number_avp-KeepsNamed = ground arith

  pub dialed_number_avp-KeepsNamed : KeepsNamed (dialed_number_avp s r (r.length_word % 1024))
  unfolding dialed_number_avp
  dialed_number_avp-KeepsNamed = ground arith

  pub sub_address_avp-KeepsNamed : KeepsNamed (sub_address_avp s r (r.length_word % 1024))
  unfolding sub_address_avp
  sub_address_avp-KeepsNamed = ground arith

  pub assigned_call_avp-KeepsNamed : KeepsNamed (assigned_call_avp s r (r.length_word % 1024))
  unfolding assigned_call_avp
  assigned_call_avp-KeepsNamed = ground arith

  pub packet_delay_avp-KeepsNamed : KeepsNamed (packet_delay_avp s r (r.length_word % 1024))
  unfolding packet_delay_avp
  packet_delay_avp-KeepsNamed = ground arith

  pub call_serno_avp-KeepsNamed : KeepsNamed (call_serno_avp s r (r.length_word % 1024))
  unfolding call_serno_avp
  call_serno_avp-KeepsNamed = ground arith

  pub rx_speed_avp-KeepsNamed : KeepsNamed (rx_speed_avp s r (r.length_word % 1024))
  unfolding rx_speed_avp
  rx_speed_avp-KeepsNamed = ground arith

  pub tx_speed_avp-KeepsNamed : KeepsNamed (tx_speed_avp s r (r.length_word % 1024))
  unfolding tx_speed_avp
  tx_speed_avp-KeepsNamed = ground arith

  pub call_physchan_avp-KeepsNamed : KeepsNamed (call_physchan_avp s r (r.length_word % 1024))
  unfolding call_physchan_avp
  call_physchan_avp-KeepsNamed = ground arith

module _ (env : Env) (s : Session) (r : Raw) (ready : IsReady s) (readable : IsReadable r) where
  pub message_type_avp-Names : Names (message_type_avp env s r (r.length_word % 1024))
  unfolding message_type_avp
  message_type_avp-Names = ground arith
