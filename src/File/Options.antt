-- ===== src/File/Options.antt =====
-- The handlers of the table `words` (file.c) that set one field. Each is called with the word as it
-- was written, its value, and the object that the section is for, whose kind is the context.
use xl2tpd.Base.{ℕ, Bool, ◌||◌}
use xl2tpd.Base.{List, [], ◌∷◌, Option, none, some}
use xl2tpd.World.{PppConf, LnsConf, LacConf}
use xl2tpd.File.Text.{stored, set_boolean, set_int}
use xl2tpd.File.Entries.{Global, LnsEntry, LacEntry}

-- What the context says that `item` points to.
pub data Item : Type 0 where
  global : Global → Item
  lns : LnsEntry → Item
  lac : LacEntry → Item

-- What a handler leaves, with the result 0 or -1, or a write past an array.
pub data Outcome : Type 0 where
  ok : Item → Outcome
  refused : Item → Outcome
  overrun : Outcome

-- The names that `gethostbyname` knows, with the address in host order, and what an array on the
-- stack holds before it is written.
pub record FileEnv : Type 0 where
  pub hosts : List ℕ → Option ℕ
  pub stack : List ℕ

-- `CONTEXT_DEFAULT` is the Boolean argument.
abbrev pub Handler : Type 0
Handler = Bool → List ℕ → List ℕ → Item → Outcome

-- A handler that leaves the object alone, as all do in a context that is not theirs.
abbrev pub not_here : Item → Outcome
not_here i = refused i

-- `set_boolean` on a field.
abbrev pub boolean : List ℕ → Item → (Bool → Item) → Outcome
boolean value i put = elim (set_boolean value) [ none ↦ refused i | some b ↦ ok (put b) ]

-- `set_int` on a field, where its result is not looked at.
abbrev pub number : List ℕ → Item → (ℕ → Item) → Item
number value i put = elim (set_int value) [ none ↦ i | some n ↦ put n ]

-- The options that one kind of object has, and those that LNS and LAC share.
abbrev pub global_number : (Global → ℕ → Global) → Handler
global_number put def word value (global g) = ok (number value (global g) (λ n. global (put g n)))
global_number put def word value i = not_here i

abbrev pub global_boolean : (Global → Bool → Global) → Handler
global_boolean put def word value (global g) = boolean value (global g) (λ b. global (put g b))
global_boolean put def word value i = not_here i

abbrev pub lns_boolean : (LnsEntry → Bool → LnsEntry) → Handler
lns_boolean put def word value (lns e) = boolean value (lns e) (λ b. lns (put e b))
lns_boolean put def word value i = not_here i

abbrev pub lac_boolean : (LacEntry → Bool → LacEntry) → Handler
lac_boolean put def word value (lac e) = boolean value (lac e) (λ b. lac (put e b))
lac_boolean put def word value i = not_here i

abbrev pub shared_boolean : (LnsEntry → Bool → LnsEntry) → (LacEntry → Bool → LacEntry) → Handler
shared_boolean n l def word value (lns e) = boolean value (lns e) (λ b. lns (n e b))
shared_boolean n l def word value (lac e) = boolean value (lac e) (λ b. lac (l e b))
shared_boolean n l def word value i = not_here i

abbrev pub shared_string : (LnsEntry → List ℕ → LnsEntry) → (LacEntry → List ℕ → LacEntry) → Handler
shared_string n l def word value (lns e) = ok (lns (n e (stored value)))
shared_string n l def word value (lac e) = ok (lac (l e (stored value)))
shared_string n l def word value i = not_here i

abbrev pub put_lns_conf : LnsEntry → LnsConf → LnsEntry
put_lns_conf e c = record e { conf = c }

abbrev pub put_lac_conf : LacEntry → LacConf → LacEntry
put_lac_conf e c = record e { conf = c }

abbrev pub put_lns_ppp : LnsEntry → PppConf → LnsEntry
put_lns_ppp e p = record e { conf = record (e.conf) { ppp = p } }

abbrev pub put_lac_ppp : LacEntry → PppConf → LacEntry
put_lac_ppp e p = record e { conf = record (e.conf) { ppp = p } }

unfoldable pub set_port : Handler
set_port = global_number (λ g n. record g { port = n })

unfoldable pub set_maxretries : Handler
set_maxretries = global_number (λ g n. record g { max_retries = n })

unfoldable pub set_capbackoff : Handler
set_capbackoff = global_number (λ g n. record g { cap_backoff = n })

unfoldable pub set_saref_num : Handler
set_saref_num = global_number (λ g n. record g { sarefnum = n })

unfoldable pub set_accesscontrol : Handler
set_accesscontrol = global_boolean (λ g b. record g { accesscontrol = b })

unfoldable pub set_userspace : Handler
set_userspace = global_boolean (λ g b. record g { forceuserspace = b })

unfoldable pub set_debugavp : Handler
set_debugavp = global_boolean (λ g b. record g { debug_avp = b })

unfoldable pub set_debugnetwork : Handler
set_debugnetwork = global_boolean (λ g b. record g { debug_network = b })

unfoldable pub set_debugpacket : Handler
set_debugpacket = global_boolean (λ g b. record g { packet_dump = b })

unfoldable pub set_debugtunnel : Handler
set_debugtunnel = global_boolean (λ g b. record g { debug_tunnel = b })

unfoldable pub set_debugstate : Handler
set_debugstate = global_boolean (λ g b. record g { debug_state = b })

-- `ipsec saref` takes `force userspace` with it.
unfoldable pub set_ipsec_saref : Handler
set_ipsec_saref =
    global_boolean (λ g b. record g { ipsecsaref = b; forceuserspace = b || g.forceuserspace })

unfoldable pub set_authfile : Handler
set_authfile def word [] i = refused i
set_authfile def word (b ∷ bs) (global g) = ok (global (record g { authfile = stored (b ∷ bs) }))
set_authfile def word (b ∷ bs) i = not_here i

unfoldable pub set_exclusive : Handler
set_exclusive = lns_boolean (λ e b. record e { exclusive = b })

unfoldable pub set_passwdauth : Handler
set_passwdauth = lns_boolean (λ e b. put_lns_conf e (record (e.conf) { passwdauth = b }))

unfoldable pub set_assignip : Handler
set_assignip = lns_boolean (λ e b. put_lns_conf e (record (e.conf) { assign_ip = b }))

unfoldable pub set_autodial : Handler
set_autodial = lac_boolean (λ e b. record e { autodial = b })

unfoldable pub set_defaultroute : Handler
set_defaultroute = lac_boolean (λ e b. put_lac_conf e (record (e.conf) { defaultroute = b }))

unfoldable pub set_redial : Handler
set_redial = lac_boolean (λ e b. put_lac_conf e (record (e.conf) { redial = b }))

unfoldable pub set_hbit : Handler
set_hbit =
    shared_boolean (λ e b. put_lns_conf e (record (e.conf) { hbit = b }))
      (λ e b. put_lac_conf e (record (e.conf) { hbit = b }))

unfoldable pub set_challenge : Handler
set_challenge =
    shared_boolean (λ e b. put_lns_conf e (record (e.conf) { challenge = b }))
      (λ e b. put_lac_conf e (record (e.conf) { challenge = b }))

unfoldable pub set_lbit : Handler
set_lbit =
    shared_boolean (λ e b. put_lns_conf e (record (e.conf) { lbit = b }))
      (λ e b. put_lac_conf e (record (e.conf) { lbit = b }))

unfoldable pub set_debug : Handler
set_debug =
    shared_boolean (λ e b. put_lns_ppp e (record (e.conf.ppp) { debug = b }))
      (λ e b. put_lac_ppp e (record (e.conf.ppp) { debug = b }))

unfoldable pub set_pass_peer : Handler
set_pass_peer =
    shared_boolean (λ e b. put_lns_ppp e (record (e.conf.ppp) { pass_peer = b }))
      (λ e b. put_lac_ppp e (record (e.conf.ppp) { pass_peer = b }))

unfoldable pub set_authname : Handler
set_authname =
    shared_string (λ e v. put_lns_ppp e (record (e.conf.ppp) { authname = v }))
      (λ e v. put_lac_ppp e (record (e.conf.ppp) { authname = v }))

unfoldable pub set_pppoptfile : Handler
set_pppoptfile =
    shared_string (λ e v. put_lns_ppp e (record (e.conf.ppp) { pppoptfile = v }))
      (λ e v. put_lac_ppp e (record (e.conf.ppp) { pppoptfile = v }))

unfoldable pub set_hostname : Handler
set_hostname =
    shared_string (λ e v. put_lns_conf e (record (e.conf) { hostname = v }))
      (λ e v. put_lac_conf e (record (e.conf) { hostname = v }))
