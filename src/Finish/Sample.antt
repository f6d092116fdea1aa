-- ===== src/Finish/Sample.antt =====
-- A configuration and tunnels for the tests of the state machine.
use xl2tpd.Base.{ℕ, true, false, List, [], ◌∷◌, none, some, pos}
use xl2tpd.Message.{sccrp}
use xl2tpd.Session.{Challenge, Tunnel}
use xl2tpd.Sample.{env, no_challenge, new_tunnel, new_session}
use xl2tpd.Address.{init_addr}
use xl2tpd.World.{PppConf, LnsConf, LacConf, Config, World}

abbrev ppp : PppConf
ppp = record {
  authself = false;
  pap_refuse = false;
  chap_refuse = false;
  authpeer = true;
  pap_require = false;
  chap_require = true;
  authname = [];
  debug = false;
  pppoptfile = [];
  pass_peer = false;
}

-- An LNS that challenges its peers.
abbrev lns : LnsConf
lns = record {
  hostname = [];
  peername = [];
  tun_rws = pos 4;
  rxspeed = pos 10_000_000;
  txspeed = pos 10_000_000;
  hbit = false;
  lbit = false;
  challenge = true;
  range = record { start = 10; end = 19; allow = true } ∷ [];
  localrange = [];
  assign_ip = true;
  passwdauth = false;
  ppp = ppp;
}

abbrev lac : LacConf
lac = record {
  hostname = [];
  peername = [];
  tun_rws = pos 4;
  rxspeed = pos 10_000_000;
  txspeed = pos 10_000_000;
  hbit = false;
  lbit = false;
  challenge = true;
  localaddr = 0;
  remoteaddr = 0;
  defaultroute = false;
  redial = true;
  rmax = 0;
  rtimeout = pos 30;
  active = true;
  ppp = ppp;
}

-- The bytes drawn.
abbrev pub sixteen : List ℕ
sixteen = 7 ∷ 7 ∷ 7 ∷ 7 ∷ 7 ∷ 7 ∷ 7 ∷ 7 ∷ 7 ∷ 7 ∷ 7 ∷ 7 ∷ 7 ∷ 7 ∷ 7 ∷ 7 ∷ []

-- We are "a", the peer is "b", and the secret is "c".
abbrev pub cfg : Config
cfg = record {
  env = env;
  hostname = b'a' ∷ [];
  switch_io = true;
  ipsecsaref = false;
  accesscontrol = false;
  lnslist = [];
  deflns = record { name = 0; lacs = [] };
  lns = λ l. lns;
  lac = λ l. lac;
  others = [];
  random = λ k. sixteen;
  print = λ msg. [];
  authfile = some ((b'a' ∷ b' ' ∷ b'b' ∷ b' ' ∷ b'c' ∷ 10 ∷ []) ∷ []);
  stack = [];
  pipe = none;
  wrote = true;
  child = λ a. pos 1;
  dialing = [];
  fuel = 11;
}

abbrev pub new_world : World
new_world = record {
  session = new_session;
  uaddr = init_addr;
  localaddr = λ l. 0;
  lacs = λ l. record { rtries = 0; password = []; t = none; c = none; rsched = false };
  global_serno = 1;
  draws = 0;
  events = [];
}

-- What a digest is made of for an SCCCN; the digest of the tests is these bytes.
abbrev pub response : List ℕ
response = 3 ∷ b'c' ∷ sixteen

abbrev pub challenge : Challenge
challenge = record no_challenge {
  ss = 3;
  secret = b'c' ∷ [];
  chal = some sixteen;
  chal_len = 16;
  response = response;
  state = 1;
}

-- A tunnel that has sent an SCCRP with a challenge.
abbrev pub waiting_tunnel : Tunnel
waiting_tunnel = record new_tunnel {
  state = sccrp;
  tid = pos 9;
  fc = pos 3;
  hostname = b'b' ∷ [];
  lns = some 0;
  control_rec_seq_num = 1;
  control_seq_num = 1;
  chal_them = challenge;
}

abbrev pub waiting : World
waiting = record new_world { session = record new_session { tunnel = waiting_tunnel } }
