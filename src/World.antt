-- ===== src/World.antt =====
-- What `control_finish` (control.c) and what it calls see and change: the configuration (`struct lns`
-- and `struct lac` of file.h), a tunnel with its calls, the addresses in use, and what goes out.
--
-- The fields that the two structures have alike for the options of pppd are a record of their own.
-- A configured name that holds a `%`, which `add_opt` would read as a format, is taken as it is.
-- Sending, and the start and end of other programs, are events in the order in which they happen.
use xl2tpd.Base.{
  ℕ, ◌+◌, Bool, true, false, List, [], ◌∷◌, ◌++◌, Option, none, some, ℤ, pos, negsuc, ◌==◌,
  if◌then◌else◌,
}
use xl2tpd.Base.{length, String, ◌>>=◌}
use xl2tpd.Message.{vendor_error, outgoing_room}
use xl2tpd.Session.{Session, Env, Tunnel, Call, ErrorMsg, formatted, store, set_error}
use xl2tpd.Control.{ControlHdr, add_control_hdr}
use xl2tpd.Send.{Buffer, add_message_type_avp}
use xl2tpd.Send.Closing.{add_vector}
use xl2tpd.Address.{Uaddr, Iprange, Lns}

pub record PppConf : Type 0 where
  pub authself : Bool
  pub pap_refuse : Bool
  pub chap_refuse : Bool
  pub authpeer : Bool
  pub pap_require : Bool
  pub chap_require : Bool
  pub authname : List ℕ
  pub debug : Bool
  pub pppoptfile : List ℕ
  pub pass_peer : Bool

-- `struct lns`; an empty list of ranges is NULL. `localaddr`, which changes, is in `World`.
pub record LnsConf : Type 0 where
  pub hostname : List ℕ
  pub peername : List ℕ
  pub tun_rws : ℤ
  pub rxspeed : ℤ
  pub txspeed : ℤ
  pub hbit : Bool
  pub lbit : Bool
  pub challenge : Bool
  pub range : List Iprange
  pub localrange : List Iprange
  pub assign_ip : Bool
  pub passwdauth : Bool
  pub ppp : PppConf

-- `struct lac`; what changes is a `LacState`.
pub record LacConf : Type 0 where
  pub hostname : List ℕ
  pub peername : List ℕ
  pub tun_rws : ℤ
  pub rxspeed : ℤ
  pub txspeed : ℤ
  pub hbit : Bool
  pub lbit : Bool
  pub challenge : Bool
  pub localaddr : ℕ
  pub remoteaddr : ℕ
  pub defaultroute : Bool
  pub redial : Bool
  pub rmax : ℕ
  pub rtimeout : ℤ
  pub active : Bool
  pub ppp : PppConf

-- `t` is the number of the tunnel that `lac->t` points to, `c` the call `lac->c`, and `rsched`
-- whether a redial is scheduled.
pub record LacState : Type 0 where
  pub rtries : ℕ
  pub password : List ℕ
  pub t : Option ℕ
  pub c : Option ℕ
  pub rsched : Bool

-- Another tunnel of the list `tunnels`.
pub record Other : Type 0 where
  pub tid : ℤ
  pub peer : ℕ
  pub refhim : ℕ

-- What does not change. `random` gives the bytes of the k-th `mk_challenge`, `print` the C string
-- in `errormsg`, `pipe` and `wrote` whether the password's pipe is made and takes it, `child` the
-- `c->pppd` that `start_pppd` leaves, `authfile` what `fgets` gives of the file of secrets, piece
-- by piece, if it can be opened, `stack` what the line buffer holds before, and `dialing` the `dial_no_tmp` of the daemon. `fuel` bounds the search for an address.
pub record Config : Type 0 where
  pub env : Env
  pub hostname : List ℕ
  pub switch_io : Bool
  pub ipsecsaref : Bool
  pub accesscontrol : Bool
  pub lnslist : List Lns
  pub deflns : Lns
  pub lns : ℕ → LnsConf
  pub lac : ℕ → LacConf
  pub others : List Other
  pub random : ℕ → List ℕ
  pub print : ErrorMsg → List ℕ
  pub authfile : Option (List (List ℕ))
  pub stack : List ℕ
  pub pipe : Option ℕ
  pub wrote : Bool
  pub child : ℕ → ℤ
  pub dialing : List ℕ
  pub fuel : ℕ

-- An option of pppd: the constants of the code, bytes, an address, two addresses with a colon of
-- which one may be left out, and the number of a descriptor.
pub data Opt : Type 0 where
  opt_text : String → Opt
  opt_bytes : List ℕ → Opt
  opt_address : ℕ → Opt
  opt_addresses : Option ℕ → Option ℕ → Opt
  opt_number : ℕ → Opt

pub data Event : Type 0 where
  control_xmit : ControlHdr → List ℕ → Event
  connect_pppol2tp : Event
  schedule_hello : Event
  start_pppd : ℕ → List Opt → Event
  kill_pppd : ℤ → Event
  free_call : ℕ → Event
  free_tunnel : Event
  deschedule_all : Event
  schedule_dial : ℕ → ℤ → Event
  magic_lac_tunnel : ℕ → Event
  dial_elsewhere : ℕ → ℕ → Event

pub record World : Type 0 where
  pub session : Session
  pub uaddr : Uaddr
  pub localaddr : ℕ → ℕ
  pub lacs : ℕ → LacState
  pub global_serno : ℕ
  pub draws : ℕ
  pub events : List Event

-- What a function returns: `fault` is a read or write through NULL or past a buffer, or a loop that
-- does not end, and `done true` is `-EINVAL`.
pub data Result : Type 0 where
  fault : Result
  done : Bool → World → Result

abbrev pub and_then : Result → (World → Result) → Result
and_then fault k = fault
and_then (done bad w) k = k w

-- The state that a result has, if any.
abbrev pub AnyWorld : (World → Type 0) → Result → Type 0
AnyWorld P fault = Unit
AnyWorld P (done bad w) = P w

abbrev pub put_session : World → Session → World
put_session w s = record w { session = s }

abbrev pub put_tunnel : World → Tunnel → World
put_tunnel w t = put_session w (record (w.session) { tunnel = t })

abbrev pub put_call : World → ℕ → Call → World
put_call w a c = put_session w (store w.session a c)

abbrev pub emit_event : World → Event → World
emit_event w e = record w { events = w.events ++ (e ∷ []) }

-- `set_error (c, VENDOR_ERROR, text)`, `c->needclose = -1` and `return -EINVAL`.
unfoldable pub refuse : World → String → Result
unfolding set_error
refuse w msg = done true (put_session w (set_error w.session vendor_error (formatted msg [])))

-- `new_outgoing`, which is taken to have the memory.
abbrev pub new_outgoing : Buffer
new_outgoing = record { content = []; room = outgoing_room }

-- The end of each branch that sends: `add_control_hdr`, `c->cnu = 0` and `control_xmit`, for the
-- call at `a`. The tunnel's number for the message is used up.
unfoldable pub send : World → ℕ → Option Buffer → Option World
unfolding add_control_hdr
send w a none = none
send w a (some b) =
    let (h, s) = add_control_hdr (record (w.session) { current = a }) (length b.content) in
    let s' = store s a (record (s.calls a) { cnu = false }) in
    some (
      emit_event (put_session w (record s' { current = w.session.current }))
        (control_xmit h b.content))

-- `i == j`, and `!strlen (s)`.
abbrev pub same_int : ℤ → ℤ → Bool
same_int (pos m) (pos n) = m == n
same_int (pos m) (negsuc n) = false
same_int (negsuc m) (pos n) = false
same_int (negsuc m) (negsuc n) = m == n

abbrev pub nothing : List ℕ → Bool
nothing [] = true
nothing (b ∷ bs) = false

-- The bytes of the next `mk_challenge`.
abbrev pub mk_challenge : Config → World → List ℕ
mk_challenge cfg w = cfg.random w.draws

-- Without hidden AVPs nothing; with them, the vector is made that then goes into the message.
unfoldable pub hide : Config → World → World
hide cfg w =
    let t = w.session.tunnel in
    if t.hbit
    then record (put_tunnel w
        (record t { chal_them = record (t.chal_them) { vector = some (mk_challenge cfg w) } })) {
          draws = w.draws + 1;
        }
    else w

-- The vector that the message has.
abbrev pub hidden : Tunnel → Option (List ℕ)
hidden t = if t.hbit then t.chal_them.vector else none

-- `add_message_type_avp`, and `add_randvect_avp` behind it.
abbrev pub begin : ℕ → Tunnel → Option Buffer
begin type t = add_message_type_avp type new_outgoing >>= add_vector (hidden t)
