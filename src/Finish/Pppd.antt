-- ===== src/Finish/Pppd.antt =====
-- The options of pppd that `control_finish` (control.c) puts together for a call, with `add_opt` of
-- misc.c, whose memory is taken to be there, and the start of it.
use xl2tpd.Base.{ℕ, ◌-◌, Bool, false, not, ◌||◌, if◌then◌else◌, ltb, ◌==◌, take, length}
use xl2tpd.Base.{List, [], ◌∷◌, ◌++◌, Option, none, some}
use xl2tpd.Message.{max_str_len}
use xl2tpd.World.{Config, PppConf, LnsConf, LacConf, World, put_call, emit_event, nothing}
use xl2tpd.World.{Opt, opt_text, opt_bytes, opt_address, opt_addresses, opt_number, start_pppd}

abbrev pub option_if : Bool → List Opt → List Opt
option_if b opts = if b then opts else []

abbrev pub unless_zero : ℕ → Option ℕ
unless_zero addr = if addr == 0 then none else some addr

-- "passive" and "nodetach".
abbrev pub first_opts : List Opt
first_opts = opt_text "passive" ∷ opt_text "nodetach" ∷ []

-- Whether we prove who we are.
abbrev pub self_opts : PppConf → List Opt
self_opts p =
    option_if (not p.authself || p.pap_refuse) (opt_text "refuse-pap" ∷ [])
    ++ option_if (not p.authself || p.chap_refuse) (opt_text "refuse-chap" ∷ [])

-- Whether the peer does; `login` is the option by that name.
abbrev pub peer_opts : PppConf → Bool → List Opt
peer_opts p login = option_if p.authpeer (
    opt_text "auth"
    ∷ (option_if p.pap_require (opt_text "require-pap" ∷ [])
        ++ (option_if p.chap_require (opt_text "require-chap" ∷ [])
            ++ option_if login (opt_text "login" ∷ []))))

abbrev pub name_opts : PppConf → List Opt
name_opts p =
    option_if (not (nothing p.authname)) (opt_text "name" ∷ opt_bytes p.authname ∷ [])
    ++ option_if p.debug (opt_text "debug" ∷ [])

abbrev pub file_opts : PppConf → List Opt
file_opts p = option_if (not (nothing p.pppoptfile)) (opt_text "file" ∷ opt_bytes p.pppoptfile ∷ [])

abbrev pub pass_opts : PppConf → ℕ → List Opt
pass_opts p peer = option_if p.pass_peer (opt_text "ipparam" ∷ opt_address peer ∷ [])

-- The options that both ICRP and OCCN take from the LAC, up to the debug option.
unfoldable pub lac_opts : LacConf → List Opt
lac_opts conf =
    option_if conf.defaultroute (opt_text "defaultroute" ∷ [])
    ++ (opt_addresses (unless_zero conf.localaddr) (unless_zero conf.remoteaddr)
        ∷ (self_opts conf.ppp ++ (peer_opts conf.ppp false ++ name_opts conf.ppp)))

-- The descriptor of the pipe with the password.
abbrev pub password_opts : Option ℕ → List Opt
password_opts none = []
password_opts (some fd) =
    opt_text "plugin" ∷ opt_text "passwordfd.so" ∷ opt_text "passwordfd" ∷ opt_number fd ∷ []

unfoldable pub icrp_opts : LacConf → Option ℕ → ℕ → List Opt
unfolding lac_opts
icrp_opts conf fd peer =
    first_opts
    ++ (lac_opts conf ++ (password_opts fd ++ (file_opts conf.ppp ++ pass_opts conf.ppp peer)))

-- "/var/l2tp/" and ".options", between which the number goes into an array of 128 bytes.
abbrev pub var_l2tp : List ℕ
var_l2tp = b'/' ∷ b'v' ∷ b'a' ∷ b'r' ∷ b'/' ∷ b'l' ∷ b'2' ∷ b't' ∷ b'p' ∷ b'/' ∷ []

abbrev pub dot_options : List ℕ
dot_options = b'.' ∷ b'o' ∷ b'p' ∷ b't' ∷ b'i' ∷ b'o' ∷ b'n' ∷ b's' ∷ []

-- The file's name; `none` is one that overruns the array. An option is cut at 119 bytes.
unfoldable pub options_file : List ℕ → Option (List ℕ)
options_file dial_no =
    let name = var_l2tp ++ (dial_no ++ dot_options) in
    if ltb (length name) 128 then some (take (max_str_len - 1) name) else none

unfoldable pub occn_opts : LacConf → List ℕ → ℕ → List Opt
unfolding lac_opts
occn_opts conf file peer =
    first_opts
    ++ (opt_text "file"
        ∷ opt_bytes file
        ∷ (lac_opts conf ++ (file_opts conf.ppp ++ pass_opts conf.ppp peer)))

-- The address of our end may be left out, the peer's is there.
unfoldable pub iccn_opts : LnsConf → ℕ → ℕ → ℕ → List Opt
iccn_opts conf localaddr addr peer =
    first_opts
    ++ (opt_addresses (unless_zero localaddr) (some addr)
        ∷ (self_opts conf.ppp
            ++ (peer_opts conf.ppp conf.passwdauth
                ++ (name_opts conf.ppp ++ (file_opts conf.ppp ++ pass_opts conf.ppp peer)))))

-- `start_pppd`, which leaves the number of the process in the call.
unfoldable pub launch : Config → World → ℕ → List Opt → World
launch cfg w a opts =
    put_call (emit_event w (start_pppd a opts)) a
      (record (w.session.calls a) { pppd = cfg.child a })
