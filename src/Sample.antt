-- ===== src/Sample.antt =====
-- States of a tunnel that the tests of all parts start from.
use xl2tpd.Base.{true, false, [], ◌∷◌, none, minus_one, pos}
use xl2tpd.Message.{scccn}
use xl2tpd.Session.{Session, Env, Tunnel, Challenge, fresh_call}

abbrev pub env : Env
env = record { alloc = λ k. true; entropy = λ k. 77; md5 = λ bytes. bytes }

abbrev pub no_challenge : Challenge
no_challenge = record {
  ss = 0;
  secret = [];
  chal = none;
  chal_len = 0;
  response = [];
  reply = [];
  vector = none;
  vector_len = 0;
  state = 0;
}

-- What `new_tunnel` makes, for the fields of the model.
abbrev pub new_tunnel : Tunnel
new_tunnel = record {
  fc = minus_one;
  bc = minus_one;
  tid = minus_one;
  qtid = minus_one;
  ourtid = 5;
  firmware = 0;
  count = 0;
  state = 0;
  control_seq_num = 0;
  control_rec_seq_num = 0;
  clr = 0;
  sanity = true;
  rws = 0;
  self = 0;
  call_head = [];
  hostname = [];
  vendor = [];
  chal_us = no_challenge;
  chal_them = no_challenge;
  lns = none;
  lac = none;
  hbit = false;
  ourrws = pos 4;
  rxspeed = pos 10_000_000;
  txspeed = pos 10_000_000;
  ourfc = 3;
  ourbc = 0;
  peer = 150;
  refhim = 0;
}

abbrev pub new_session : Session
new_session = record {
  tunnel = new_tunnel;
  calls = λ a. fresh_call none none 0;
  current = 0;
  ticks = 1;
}

-- A connected tunnel with one call.
abbrev pub busy_session : Session
busy_session = record new_session {
  tunnel = record new_tunnel { state = scccn; call_head = 1 ∷ []; count = 1 };
  ticks = 2;
}
