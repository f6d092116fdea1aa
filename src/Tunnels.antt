-- ===== src/Tunnels.antt =====
-- Which call a packet is for: `get_call`, `get_tunnel` and `new_call` (call.c) with `new_tunnel`
-- (xl2tpd.c), over the list `tunnels`, each tunnel with its own calls.
pub mod Lookup
mod Examples
use xl2tpd.Base.{ℕ, suc, ◌+◌, Bool, true, false, not, ◌&&◌, ◌||◌, if◌then◌else◌, ◌==◌, u16}
use xl2tpd.Base.{List, [], ◌∷◌, Option, none, some, pos, minus_one}
use xl2tpd.Session.{Session, Tunnel, Challenge, Call, Env, fresh_call}
use xl2tpd.World.{Config}

-- A challenge whose memory `calloc` has cleared.
abbrev pub cleared : Challenge
cleared = record {
  ss = 0;
  secret = [];
  chal = none;
  chal_len = 0;
  response = [];
  reply = [];
  vector = none;
  vector_len = 0;
  state = 0;
}

-- The tunnel with its random number. The memory for `chal_them.vector`, which is written before it
-- is read, is left out.
unfoldable pub fresh_tunnel : ℕ → ℕ → Tunnel
fresh_tunnel ourtid self = record {
  fc = minus_one;
  bc = minus_one;
  tid = minus_one;
  qtid = minus_one;
  ourtid = ourtid;
  firmware = 0;
  count = 0;
  state = 0;
  control_seq_num = 0;
  control_rec_seq_num = 0;
  clr = 0;
  sanity = true;
  rws = 0;
  self = self;
  call_head = [];
  hostname = [];
  vendor = [];
  chal_us = cleared;
  chal_them = cleared;
  lns = none;
  lac = none;
  hbit = false;
  ourrws = pos 4;
  rxspeed = pos 10_000_000;
  txspeed = pos 10_000_000;
  ourfc = 3;
  ourbc = 0;
  peer = 0;
  refhim = 0;
}

-- The first allocation is the tunnel, the second its own call, which gets no number.
unfoldable pub new_tunnel : Env → Option Session
unfolding fresh_tunnel
new_tunnel env =
    if env.alloc 0 && env.alloc 1
    then some (record {
      tunnel = fresh_tunnel (u16 (env.entropy 0)) 1;
      calls = λ a. record (fresh_call none none 0) { ourfbit = 0x0800 };
      current = 1;
      ticks = 2;
    })
    else none

-- The tunnel has the number, and its security association is no other one.
unfoldable pub serves : Config → ℕ → ℕ → Session → Bool
serves cfg tunnel refhim st =
    (st.tunnel.ourtid == tunnel)
    && (not cfg.ipsecsaref
        || ((st.tunnel.refhim == refhim) || ((refhim == 0) || (st.tunnel.refhim == 0))))

-- The walk over the calls of a tunnel.
unfoldable pub find_call : Session → ℕ → List ℕ → Option ℕ
find_call st call [] = none
find_call st call (sc ∷ calls) =
    let rest = find_call st call calls in if (st.calls sc).ourcid == call then some sc else rest

-- The call of this tunnel: its own one for the number 0.
unfoldable pub call_in : Session → ℕ → Option ℕ
unfolding find_call
call_in st call = if call == 0 then some st.tunnel.self else find_call st call st.tunnel.call_head

-- What `get_call` returns: NULL, a call of the tunnel at a place of the list, or the own call of a
-- tunnel that is new in front of it.
pub data Found : Type 0 where
  missing : Found
  existing : ℕ → ℕ → Found
  made : Session → Found

abbrev pub further : Found → Found
further missing = missing
further (existing i a) = existing (suc i) a
further (made s) = made s

abbrev pub found_in : Option ℕ → Found
found_in none = missing
found_in (some a) = existing 0 a

-- The walk over `tunnels`.
unfoldable pub find_tunnel : Config → List Session → ℕ → ℕ → ℕ → Found
unfolding serves call_in
find_tunnel cfg [] tunnel call refhim = missing
find_tunnel cfg (st ∷ ts) tunnel call refhim =
    let rest = further (find_tunnel cfg ts tunnel call refhim) in
    if serves cfg tunnel refhim st then found_in (call_in st call) else rest

abbrev pub allocated : ℕ → ℕ → Option Session → Found
allocated addr refhim none = missing
allocated addr refhim (some st) =
    made (record st { tunnel = record (st.tunnel) { peer = addr; refhim = refhim } })

unfoldable pub get_call : Config → List Session → ℕ → ℕ → ℕ → ℕ → Found
unfolding find_tunnel new_tunnel
get_call cfg ts tunnel call addr refhim =
    if not (tunnel == 0)
    then find_tunnel cfg ts tunnel call refhim
    else (if not (call == 0) then missing else allocated addr refhim (new_tunnel cfg.env))

-- The place of the first tunnel with this number.
unfoldable pub get_tunnel : List Session → ℕ → Option ℕ
get_tunnel [] tunnel = none
get_tunnel (st ∷ ts) tunnel =
    let rest : Option ℕ = elim (get_tunnel ts tunnel) [ none ↦ none | some i ↦ some (suc i) ] in
    if not (tunnel == 0) && (st.tunnel.ourtid == tunnel) then some 0 else rest
