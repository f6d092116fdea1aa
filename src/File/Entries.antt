-- ===== src/File/Entries.antt =====
-- What the options of a file change: `struct global`, `struct lns`, `struct lac` and `struct host`
-- (file.h), and what `init_config`, `new_lns` and `new_lac` (file.c) put there at first. The fields
-- that the rest of the program reads of an entry are the records of World.
use xl2tpd.Base.{ℕ, Bool, true, false, List, [], ℤ, pos}
use xl2tpd.Address.{Iprange}
use xl2tpd.World.{PppConf, LnsConf, LacConf}

-- `gconfig`, and `rand_source` of misc.c; an address is in host order.
pub record Global : Type 0 where
  pub listenaddr : ℕ
  pub port : ℕ
  pub authfile : List ℕ
  pub accesscontrol : Bool
  pub forceuserspace : Bool
  pub packet_dump : Bool
  pub debug_avp : Bool
  pub debug_network : Bool
  pub debug_tunnel : Bool
  pub debug_state : Bool
  pub ipsecsaref : Bool
  pub sarefnum : ℕ
  pub max_retries : ℕ
  pub cap_backoff : ℕ
  pub rand_source : ℕ

pub record Host : Type 0 where
  pub hostname : List ℕ
  pub port : ℤ

pub record LnsEntry : Type 0 where
  pub entname : List ℕ
  pub exclusive : Bool
  pub call_rws : ℤ
  pub localaddr : ℕ
  pub lacs : List Iprange
  pub conf : LnsConf

pub record LacEntry : Type 0 where
  pub entname : List ℕ
  pub lns : List Host
  pub call_rws : ℤ
  pub autodial : Bool
  pub conf : LacConf

abbrev pub udp_listen_port : ℕ
udp_listen_port = 1701

abbrev pub ip_ipsec_refinfo : ℕ
ip_ipsec_refinfo = 30

abbrev pub default_max_retries : ℕ
default_max_retries = 5

abbrev pub default_rws_size : ℤ
default_rws_size = pos 4

abbrev pub default_bps : ℤ
default_bps = pos 10_000_000

-- RAND_DEV, RAND_SYS and RAND_EGD.
abbrev pub rand_dev : ℕ
rand_dev = 0

abbrev pub rand_sys : ℕ
rand_sys = 1

abbrev pub rand_egd : ℕ
rand_egd = 2

-- `gconfig` as `init_config` sets it. The rest of it is as main has left it.
unfoldable pub init_global : Global → Global
init_global g = record g {
  port = udp_listen_port;
  sarefnum = ip_ipsec_refinfo;
  ipsecsaref = false;
  forceuserspace = false;
  listenaddr = 0;
  debug_avp = false;
  debug_network = false;
  packet_dump = false;
  debug_tunnel = false;
  debug_state = false;
  max_retries = default_max_retries;
  cap_backoff = 0;
}

-- The options for pppd of a new entry.
abbrev pub new_ppp : Bool → PppConf
new_ppp authself = record {
  authself = authself;
  pap_refuse = false;
  chap_refuse = false;
  authpeer = false;
  pap_require = false;
  chap_require = false;
  authname = [];
  debug = false;
  pppoptfile = [];
  pass_peer = false;
}

-- `new_lns`, whose `calloc` is taken to have the memory.
unfoldable pub new_lns : LnsEntry
new_lns = record {
  entname = [];
  exclusive = false;
  call_rws = default_rws_size;
  localaddr = 0;
  lacs = [];
  conf = record {
    hostname = [];
    peername = [];
    tun_rws = default_rws_size;
    rxspeed = default_bps;
    txspeed = default_bps;
    hbit = false;
    lbit = false;
    challenge = false;
    range = [];
    localrange = [];
    assign_ip = true;
    passwdauth = false;
    ppp = new_ppp true;
  };
}

-- An entry whose memory `calloc` has cleared.
unfoldable pub cleared_lac : LacEntry
cleared_lac = record {
  entname = [];
  lns = [];
  call_rws = pos 0;
  autodial = false;
  conf = record {
    hostname = [];
    peername = [];
    tun_rws = pos 0;
    rxspeed = pos 0;
    txspeed = pos 0;
    hbit = false;
    lbit = false;
    challenge = false;
    localaddr = 0;
    remoteaddr = 0;
    defaultroute = false;
    redial = false;
    rmax = 0;
    rtimeout = pos 0;
    active = false;
    ppp = new_ppp false;
  };
}

-- `new_lac`: `rxspeed` and `txspeed` stay 0.
unfoldable pub new_lac : LacEntry
unfolding cleared_lac
new_lac = record cleared_lac {
  call_rws = default_rws_size;
  conf = record (cleared_lac.conf) {
    tun_rws = default_rws_size;
    rtimeout = pos 30;
    ppp = new_ppp true;
  };
}
