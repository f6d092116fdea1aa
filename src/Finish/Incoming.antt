-- ===== src/Finish/Incoming.antt =====
-- The branch of `control_finish` (control.c) for an ICRQ: a peer asks for a call, which is then the
-- head of the tunnel's list.
use xl2tpd.Base.{ℕ, Bool, true, false, if◌then◌else◌, ◌==◌, u16}
use xl2tpd.Base.{List, [], ◌∷◌, Option, none, some, ℤ, is_neg}
use xl2tpd.Base.{◌>>=◌, String}
use xl2tpd.Message.{icrp}
use xl2tpd.Message.{error_nores, error_invalid}
use xl2tpd.Session.{Session, formatted, set_error}
use xl2tpd.Send.{add_callid_avp}
use xl2tpd.Address.{Iprange, get_addr, reserve_addr}
use xl2tpd.Close.{call_close}
use xl2tpd.World.{Config, World, Result, fault, done, put_session, put_call}
use xl2tpd.World.{send, hide, begin, same_int}
use xl2tpd.Finish.Dial.{lbit_of}
use xl2tpd.Finish.Tunnel.{sent}

-- `set_error` on the call at `a`.
unfoldable pub set_call_error : World → ℕ → ℕ → String → World
unfolding set_error
set_call_error w a error msg =
    let s = set_error (record (w.session) { current = a }) error (formatted msg []) in
    put_session w (record s { current = w.session.current })

-- `call_close` and `return -EINVAL`.
abbrev pub close_and_fail : Config → World → ℕ → Result
close_and_fail cfg w a = elim (call_close cfg w a) [ none ↦ fault | some w' ↦ done true w' ]

-- An address from some ranges, reserved. `none` is a search without an end, and no address 0.
unfoldable pub take_addr : Config → World → List Iprange → Option (ℕ × World)
unfolding get_addr reserve_addr
take_addr cfg w ranges = elim (get_addr cfg.fuel w.uaddr ranges) [
  | none ↦ none
  | some none ↦ some (0, w)
  | some (some x) ↦ some (x, if x == 0 then w else record w { uaddr = reserve_addr w.uaddr x })
]

-- The walk over the calls behind the first: one with the same number.
unfoldable pub has_cid : Session → ℤ → List ℕ → Bool
has_cid s cid [] = false
has_cid s cid (z ∷ zs) =
    let rest = has_cid s cid zs in if same_int (s.calls z).cid cid then true else rest

-- The ICRP for the call at `p`.
unfoldable pub send_icrp : Config → World → ℕ → Result
unfolding hide send
send_icrp cfg w p =
    let w1 = hide cfg (put_call w p (record (w.session.calls p) { state = icrp })) in
    sent (
      send w1 p
        (do b1 ← begin icrp w1.session.tunnel; add_callid_avp (u16 (w.session.calls p).ourcid) b1))

-- The address that was found goes into the call, and the call is accepted if it is one.
unfoldable pub use_addr : Config → World → ℕ → ℕ → Result
unfolding set_call_error send_icrp
use_addr cfg w p x =
    let w1 = put_call w p (record (w.session.calls p) { addr = x }) in
    if x == 0
    then close_and_fail cfg (set_call_error w1 p error_nores "No available IP address") p
    else send_icrp cfg w1 p

unfoldable pub taken : Config → ℕ → Option (ℕ × World) → Result
unfolding use_addr
taken cfg p none = fault
taken cfg p (some (x, w)) = use_addr cfg w p x

-- The address for the peer, if the LNS of the tunnel assigns one.
unfoldable pub assign_by : Config → World → ℕ → Option ℕ → Result
unfolding take_addr taken send_icrp
assign_by cfg w p none = fault
assign_by cfg w p (some l) =
    if (cfg.lns l).assign_ip
    then taken cfg p (take_addr cfg w (cfg.lns l).range)
    else send_icrp cfg (put_call w p (record (w.session.calls p) { addr = 0 })) p

unfoldable pub assign_addr : Config → World → ℕ → Result
unfolding assign_by
assign_addr cfg w p = assign_by cfg w p w.session.tunnel.lns

-- The checks of a call whose LNS is `l`, with the calls behind it.
unfoldable pub accept_call : Config → World → ℕ → List ℕ → ℕ → Result
unfolding has_cid assign_addr
accept_call cfg w p zs l =
    let c = record (w.session.calls p) { lbit = lbit_of (cfg.lns l).lbit } in
    let w1 = put_call w p c in
    if is_neg c.cid
    then close_and_fail cfg w1 p
    else (if has_cid w1.session c.cid zs
        then done false (put_call w1 p (record c { needclose = false; closing = true }))
        else assign_addr cfg w1 p)

-- A call without an LNS is refused.
unfoldable pub judge_call : Config → World → ℕ → List ℕ → Option ℕ → Result
unfolding set_call_error accept_call
judge_call cfg w p zs none =
    close_and_fail cfg (set_call_error w p error_invalid "This tunnel cannot accept calls\n") p
judge_call cfg w p zs (some l) = accept_call cfg w p zs l

-- The call is the head of the tunnel's list, and an empty list NULL.
unfoldable pub first_call : Config → World → List ℕ → Result
unfolding judge_call
first_call cfg w [] = fault
first_call cfg w (p ∷ zs) = judge_call cfg w p zs (w.session.calls p).lns

unfoldable pub finish_icrq : Config → World → Result
unfolding first_call
finish_icrq cfg w = first_call cfg w w.session.tunnel.call_head
