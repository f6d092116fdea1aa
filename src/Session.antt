-- ===== src/Session.antt =====
-- The state of a tunnel and its calls: `struct tunnel` of l2tp.h, `struct call` of call.h and
-- `struct challenge` of aaa.h, with `new_call` (call.c), `set_error` (misc.c), `wrong_length`
-- (avp.c) and `safe_copy` (misc.c), which the handlers share.
--
-- Calls stand in a store by address, since a call is reached through `t->self`, through the list
-- `t->call_head` and through the `c` that a handler is given, and these may be one call. The
-- order of the list `call_head` is that of the links `next`. An `int` used as a truth value is a
-- `Bool`; another one that may be -1 is a `ℤ`. A `char` array is the C string that it holds. `lns`
-- and `lac` are the numbers of configured entries, and `none` is NULL.
use xl2tpd.Base.{ℕ, ◌-◌, min, Bool, true, false, if◌then◌else◌, ◌==◌, List, [], ◌∷◌}
use xl2tpd.Base.{ℤ, pos, minus_one, Option, take, String}
use xl2tpd.Message.{result_error, error_length, max_str_len}

-- What `c->errormsg` holds: a text copied from the peer, or a format and the numbers put in.
pub data ErrorMsg : Type 0 where
  copied : List ℕ → ErrorMsg
  formatted : String → List ℕ → ErrorMsg
  -- `wrong_length`: the field, the expected and the found length, and whether more is allowed.
  length_of : String → ℕ → ℕ → Bool → ErrorMsg

pub record Call : Type 0 where
  pub lbit : ℕ
  pub fbit : ℕ
  pub ourfbit : ℕ
  pub seq_reqd : Bool
  pub prx : ℕ
  pub state : ℕ
  pub frame : ℕ
  pub msgtype : ℤ
  pub ourcid : ℕ
  pub cid : ℤ
  pub qcid : ℤ
  pub bearer : ℤ
  pub serno : ℕ
  pub txspeed : ℤ
  pub rxspeed : ℤ
  pub ppd : ℕ
  pub physchan : ℤ
  pub dialed : List ℕ
  pub dialing : List ℕ
  pub subaddy : List ℕ
  pub needclose : Bool
  pub closing : Bool
  pub result : ℤ
  pub error : ℤ
  pub cnu : Bool
  pub pnu : Bool
  pub errormsg : ErrorMsg
  pub data_seq_num : ℕ
  pub data_rec_seq_num : ℕ
  pub close_ss : ℕ
  pub plr : ℤ
  pub lns : Option ℕ
  pub lac : Option ℕ
  pub addr : ℕ
  pub dial_no : List ℕ
  pub pppd : ℤ

-- `vector` is the bytes that the pointer into the packet sees; `none` is NULL, as it is for
-- `chal`, the field `challenge`.
pub record Challenge : Type 0 where
  pub ss : ℕ
  pub secret : List ℕ
  pub chal : Option (List ℕ)
  pub chal_len : ℕ
  pub response : List ℕ
  pub reply : List ℕ
  pub vector : Option (List ℕ)
  pub vector_len : ℕ
  pub state : ℕ

pub record Tunnel : Type 0 where
  pub fc : ℤ
  pub bc : ℤ
  pub tid : ℤ
  pub qtid : ℤ
  pub ourtid : ℕ
  pub firmware : ℕ
  pub count : ℕ
  pub state : ℕ
  pub control_seq_num : ℕ
  pub control_rec_seq_num : ℕ
  pub clr : ℕ
  pub sanity : Bool
  pub rws : ℕ
  pub self : ℕ
  pub call_head : List ℕ
  pub hostname : List ℕ
  pub vendor : List ℕ
  pub chal_us : Challenge
  pub chal_them : Challenge
  pub lns : Option ℕ
  pub lac : Option ℕ
  pub hbit : Bool
  pub ourrws : ℤ
  pub rxspeed : ℤ
  pub txspeed : ℤ
  pub ourfc : ℕ
  pub ourbc : ℕ
  pub peer : ℕ
  pub refhim : ℕ

-- What the code asks of others: whether the k-th allocation gives memory, the 16 random bits of
-- the call made there, and the digest of md5.c, a public-domain library.
pub record Env : Type 0 where
  pub alloc : ℕ → Bool
  pub entropy : ℕ → ℕ
  pub md5 : List ℕ → List ℕ

-- The `t` and `c` of a handler, with the store. `ticks` counts the allocations tried, and the
-- address of a new call is its number among them, so no address is used twice.
pub record Session : Type 0 where
  pub tunnel : Tunnel
  pub calls : ℕ → Call
  pub current : ℕ
  pub ticks : ℕ

-- `*c`
abbrev pub cur : Session → Call
cur s = s.calls s.current

abbrev pub store : Session → ℕ → Call → Session
store s a c = record s { calls = λ b. if b == a then c else s.calls b }

abbrev pub put_cur : Session → Call → Session
put_cur s c = store s s.current c

-- `set_error`; the format's text is the argument.
unfoldable pub set_error : Session → ℕ → ErrorMsg → Session
set_error s error msg = put_cur s (record (cur s) {
  error = pos error;
  result = pos result_error;
  needclose = true;
  errormsg = msg;
})

unfoldable pub wrong_length : Session → String → ℕ → ℕ → Bool → Session
wrong_length s field expected found more = put_cur s (record (cur s) {
  errormsg = length_of field expected found more;
  error = pos error_length;
  result = pos result_error;
  needclose = true;
})

-- The C string in an array that holds these bytes, with a NUL behind them.
unfoldable pub c_string : List ℕ → List ℕ
c_string [] = []
c_string (b ∷ bs) = if b == 0 then [] else b ∷ c_string bs

-- The string that `safe_copy` leaves in its target.
unfoldable pub safe_copy : List ℕ → ℕ → List ℕ
unfolding c_string
safe_copy source size = c_string (take (min size (max_str_len - 1)) source)

-- The call that `new_call` makes, with its random number and the `lns` and `lac` of its tunnel.
abbrev pub fresh_call : Option ℕ → Option ℕ → ℕ → Call
fresh_call lns lac ourcid = record {
  lbit = 0;
  fbit = 0;
  ourfbit = 0;
  seq_reqd = false;
  prx = 0;
  state = 0;
  frame = 0;
  msgtype = pos 0;
  ourcid = ourcid;
  cid = pos 0;
  qcid = minus_one;
  bearer = minus_one;
  serno = 0;
  txspeed = pos 0;
  rxspeed = pos 0;
  ppd = 0;
  physchan = minus_one;
  dialed = [];
  dialing = [];
  subaddy = [];
  needclose = false;
  closing = false;
  result = minus_one;
  error = minus_one;
  cnu = false;
  pnu = false;
  errormsg = copied [];
  data_seq_num = 0;
  data_rec_seq_num = 0;
  close_ss = 0;
  plr = minus_one;
  lns = lns;
  lac = lac;
  addr = 0;
  dial_no = [];
  pppd = pos 0;
}
