-- ===== src/File/Keywords.antt =====
-- The table `words` of file.c, and `parse_one_option`.
use xl2tpd.Base.{Bool, if◌then◌else◌, List, [], ◌∷◌, Option, none, some, ℕ, String}
use xl2tpd.Secret.{same_name}
use xl2tpd.File.Text.{bytes}
use xl2tpd.File.Options.{Handler, Outcome, FileEnv, Item}
use xl2tpd.File.Options.{set_accesscontrol, set_assignip, set_authfile, set_authname}
use xl2tpd.File.Options.{set_autodial, set_capbackoff, set_challenge, set_debug, set_debugavp}
use xl2tpd.File.Options.{set_debugnetwork, set_debugpacket, set_debugstate, set_debugtunnel}
use xl2tpd.File.Options.{set_defaultroute, set_exclusive, set_hbit, set_hostname}
use xl2tpd.File.Options.{set_ipsec_saref, set_lbit, set_maxretries, set_pass_peer}
use xl2tpd.File.Options.{set_passwdauth, set_port, set_pppoptfile, set_redial, set_saref_num}
use xl2tpd.File.Options.{set_userspace}
use xl2tpd.File.Numbers.{set_flow, set_papchap, set_rmax, set_rtimeout, set_rws, set_speed}
use xl2tpd.File.Hosts.{set_iprange, set_lac, set_listenaddr, set_lns, set_localaddr}
use xl2tpd.File.Hosts.{set_localiprange, set_rand_source, set_remoteaddr}

pub record Keyword : Type 0 where
  pub keyword : List ℕ
  pub handler : Handler

abbrev pub keyword : String → Handler → Keyword
keyword word h = record { keyword = bytes word; handler = h }

unfoldable pub words : FileEnv → List Keyword
words env =
    keyword "listen-addr" (set_listenaddr env)
    ∷ keyword "port" set_port
    ∷ keyword "saref refinfo" set_saref_num
    ∷ keyword "rand source" set_rand_source
    ∷ keyword "auth file" set_authfile
    ∷ keyword "exclusive" set_exclusive
    ∷ keyword "autodial" set_autodial
    ∷ keyword "redial" set_redial
    ∷ keyword "redial timeout" set_rtimeout
    ∷ keyword "lns" set_lns
    ∷ keyword "max redials" set_rmax
    ∷ keyword "access control" set_accesscontrol
    ∷ keyword "force userspace" set_userspace
    ∷ keyword "ip range" (set_iprange env)
    ∷ keyword "no ip range" (set_iprange env)
    ∷ keyword "debug avp" set_debugavp
    ∷ keyword "debug network" set_debugnetwork
    ∷ keyword "debug packet" set_debugpacket
    ∷ keyword "debug tunnel" set_debugtunnel
    ∷ keyword "debug state" set_debugstate
    ∷ keyword "ipsec saref" set_ipsec_saref
    ∷ keyword "lac" (set_lac env)
    ∷ keyword "no lac" (set_lac env)
    ∷ keyword "assign ip" set_assignip
    ∷ keyword "local ip" (set_localaddr env)
    ∷ keyword "local ip range" (set_localiprange env)
    ∷ keyword "remote ip" (set_remoteaddr env)
    ∷ keyword "defaultroute" set_defaultroute
    ∷ keyword "length bit" set_lbit
    ∷ keyword "hidden bit" set_hbit
    ∷ keyword "require pap" set_papchap
    ∷ keyword "require chap" set_papchap
    ∷ keyword "require authentication" set_papchap
    ∷ keyword "require auth" set_papchap
    ∷ keyword "refuse pap" set_papchap
    ∷ keyword "refuse chap" set_papchap
    ∷ keyword "refuse authentication" set_papchap
    ∷ keyword "refuse auth" set_papchap
    ∷ keyword "unix authentication" set_passwdauth
    ∷ keyword "unix auth" set_passwdauth
    ∷ keyword "name" set_authname
    ∷ keyword "hostname" set_hostname
    ∷ keyword "ppp debug" set_debug
    ∷ keyword "pass peer" set_pass_peer
    ∷ keyword "pppoptfile" set_pppoptfile
    ∷ keyword "call rws" set_rws
    ∷ keyword "tunnel rws" set_rws
    ∷ keyword "flow bit" set_flow
    ∷ keyword "challenge" set_challenge
    ∷ keyword "tx bps" set_speed
    ∷ keyword "rx bps" set_speed
    ∷ keyword "bps" set_speed
    ∷ keyword "max retries" set_maxretries
    ∷ keyword "cap backoff" set_capbackoff
    ∷ []

-- The first keyword that the word is, the case of letters aside.
unfoldable pub find_keyword : List Keyword → List ℕ → Option Handler
unfolding same_name
find_keyword [] word = none
find_keyword (k ∷ ks) word =
    let rest = find_keyword ks word in if same_name word k.keyword then some k.handler else rest

-- What the handler that was found does.
abbrev pub call_handler : Option Handler → Bool → List ℕ → List ℕ → Item → Option Outcome
call_handler none def word value i = none
call_handler (some h) def word value i = some (h def word value i)

-- `parse_one_option`; `none` is -2.
unfoldable pub parse_one_option : FileEnv → Bool → List ℕ → List ℕ → Item → Option Outcome
unfolding words find_keyword
parse_one_option env def word value i =
    call_handler (find_keyword (words env) word) def word value i
