-- ===== src/Daemon/Examples.antt =====
-- Packets for the tunnels of the tests, and the theorems at concrete inputs.
use xl2tpd.Base.{ℕ, ◌≡◌, refl, arith, List, [], ◌∷◌, ◌++◌, take, inl}
use xl2tpd.Message.{sccrq, sccrp, scccn}
use xl2tpd.Secret.{get_secret, found}
use xl2tpd.Challenge.{digest_of}
use xl2tpd.World.{Result, done, AnyWorld, put_session}
use xl2tpd.Finish.{control_finish}
use xl2tpd.Finish.Sample.{cfg, sixteen, waiting, new_world}
use xl2tpd.Finish.Proof.{IsPosed, theirs}
use xl2tpd.Control.Stream.{IsRun}
use xl2tpd.Avp.NullHead.{plain_avp}
use xl2tpd.Daemon.{Packet, process, run}
use xl2tpd.Daemon.Login.{SomePassed, run_connected}
use xl2tpd.Daemon.Order.{numbers, numbers-IsRun}
use xl2tpd.Daemon.Refused.{refused_is_finished, typed}

-- An SCCCN with these bytes as its response.
abbrev scccn_with : List ℕ → ℕ → Packet
scccn_with bytes ns = record {
  header = record { ver = 0xc802; length = 42; tid = 5; cid = 0; ns = ns; nr = 1 };
  size = 42;
  body =
      (0x80 ∷ 8 ∷ 0 ∷ 0 ∷ 0 ∷ 0 ∷ 0 ∷ 3 ∷ [])
      ++ (0x80 ∷ 22 ∷ 0 ∷ 0 ∷ 0 ∷ 13 ∷ [])
      ++ bytes
      ++ (0 ∷ 0 ∷ 0 ∷ 0 ∷ 0 ∷ []);
  call = 0;
}

abbrev right : List ℕ
right = 3 ∷ b'c' ∷ take 14 sixteen

abbrev wrong : List ℕ
wrong = 3 ∷ b'd' ∷ take 14 sixteen

abbrev state_of : Result → ℕ
state_of Result.fault = 99
state_of (done bad w) = w.session.tunnel.state

logged_in : state_of (run cfg waiting (scccn_with right 1 ∷ [])) ≡ scccn
unfolding run xl2tpd.Avp.MessageType.message_type_avp xl2tpd.Avp.TunnelAvps.chalresp_avp
    xl2tpd.Finish.Reply.finish_scccn
logged_in = refl

turned_away : state_of (run cfg waiting (scccn_with wrong 1 ∷ [])) ≡ sccrp
unfolding run xl2tpd.Avp.MessageType.message_type_avp xl2tpd.Avp.TunnelAvps.chalresp_avp
    xl2tpd.Finish.Reply.finish_scccn
turned_away = refl

known : get_secret cfg.stack cfg.authfile (b'a' ∷ []) (b'b' ∷ []) ≡ found (b'c' ∷ [])
unfolding get_secret
known = refl

waiting-IsPosed : IsPosed cfg (theirs waiting)
unfolding digest_of
waiting-IsPosed = record {
  posed = λ e. omega (arith, e);
  ours = (0, refl);
  size = refl;
  expected = record {
    us = b'a' ∷ [];
    them = b'b' ∷ [];
    secret = b'c' ∷ [];
    ss = 3;
    draw = 0;
    known = known;
    response_is = refl;
  };
}

run_connected_example :
    let ps = scccn_with wrong 1 ∷ scccn_with right 2 ∷ [] in
    AnyWorld
      (λ w'. w'.session.tunnel.state ≡ scccn → SomePassed cfg waiting ps)
      (run cfg waiting ps)
run_connected_example =
    run_connected cfg waiting (scccn_with wrong 1 ∷ scccn_with right 2 ∷ []) waiting-IsPosed
      (λ e. omega (arith, e))

numbers-IsRun_example :
    IsRun 1
      (numbers cfg waiting (scccn_with wrong 1 ∷ scccn_with wrong 1 ∷ scccn_with right 2 ∷ []))
numbers-IsRun_example =
    numbers-IsRun cfg waiting (scccn_with wrong 1 ∷ scccn_with wrong 1 ∷ scccn_with right 2 ∷ [])
      (omega arith) (refl, (refl, (refl, tt)))

-- A message type alone, without the mandatory bit.
abbrev lone : ℕ → Packet
lone m = record {
  header = record { ver = 0xc802; length = 20; tid = 5; cid = 0; ns = 0; nr = 0 };
  size = 20;
  body = plain_avp 0 m ++ [];
  call = 0;
}

refused_is_finished_example :
    process cfg new_world (lone 0)
    ≡ control_finish cfg (put_session new_world (typed new_world.session 0))
refused_is_finished_example =
    refused_is_finished cfg new_world (lone 0) 0 [] refl refl (omega arith) (inl refl)

-- A stranger makes the daemon ask for a tunnel.
asks : state_of (process cfg new_world (lone 0)) ≡ sccrq
unfolding process xl2tpd.Avp.MessageType.message_type_avp xl2tpd.Finish.Tunnel.start_tunnel
    xl2tpd.Send.add_message_type_avp xl2tpd.Send.Closing.add_vector xl2tpd.Send.add_protocol_avp
    xl2tpd.Send.add_frame_caps_avp xl2tpd.Send.add_bearer_caps_avp xl2tpd.Send.add_firmware_avp
    xl2tpd.Send.add_hostname_avp xl2tpd.Send.add_vendor_avp xl2tpd.Send.add_tunnelid_avp
    xl2tpd.Send.add_avp_rws
asks = refl

-- An SCCRP that says what it has to: the framing and the tunnel's number.
abbrev reply : Packet
reply = record {
  header = record { ver = 0xc802; length = 38; tid = 5; cid = 0; ns = 1; nr = 1 };
  size = 38;
  body =
      (0x80 ∷ 8 ∷ 0 ∷ 0 ∷ 0 ∷ 0 ∷ 0 ∷ 2 ∷ [])
      ++ (0x80 ∷ 10 ∷ 0 ∷ 0 ∷ 0 ∷ 3 ∷ 0 ∷ 0 ∷ 0 ∷ 3 ∷ [])
      ++ (0x80 ∷ 8 ∷ 0 ∷ 0 ∷ 0 ∷ 9 ∷ 0 ∷ 9 ∷ [])
      ++ (0 ∷ 0 ∷ 0 ∷ 0 ∷ 0 ∷ []);
  call = 0;
}

-- The stranger then answers what the daemon has asked for, and is let in unchallenged.
let_in : state_of (run cfg new_world (lone 0 ∷ reply ∷ [])) ≡ scccn
unfolding run xl2tpd.Avp.MessageType.message_type_avp xl2tpd.Finish.Tunnel.start_tunnel
    xl2tpd.Send.add_message_type_avp xl2tpd.Send.Closing.add_vector xl2tpd.Send.add_protocol_avp
    xl2tpd.Send.add_frame_caps_avp xl2tpd.Send.add_bearer_caps_avp xl2tpd.Send.add_firmware_avp
    xl2tpd.Send.add_hostname_avp xl2tpd.Send.add_vendor_avp xl2tpd.Send.add_tunnelid_avp
    xl2tpd.Send.add_avp_rws xl2tpd.Avp.TunnelAvps.framing_caps_avp
    xl2tpd.Avp.TunnelAvps.assigned_tunnel_avp xl2tpd.Finish.Reply.finish_sccrp
let_in = refl
