-- ===== src/File/Sound/Words.antt =====
-- The table `words` (file.c) and `parse_one_option` keep an entry good.
use xl2tpd.Base.{ℕ, Bool, if-intro}
use xl2tpd.Base.{List, [], ◌∷◌, Option, none, some, All, ◌&◌}
use xl2tpd.Secret.{same_name}
use xl2tpd.File.Options.{Item, Outcome, Handler, FileEnv}
use xl2tpd.File.Keywords.{Keyword, words, find_keyword, call_handler, parse_one_option}
use xl2tpd.File.Sound.{IsGoodItem, IsGoodOutcome, Preserves}
use xl2tpd.File.Sound.Fields
use xl2tpd.File.Sound.Values
use xl2tpd.File.Sound.Ranges

abbrev IsPreserving : Option Handler → Type 0
IsPreserving none = Unit
IsPreserving (some h) = Preserves h

abbrev KeepsGood : Keyword → Type 0
KeepsGood k = Preserves k.handler

words-All : (env : FileEnv) → All KeepsGood (words env)
unfolding words
words-All env =
    Ranges.set_listenaddr-Preserves env
    & Fields.set_port-Preserves
    & Fields.set_saref_num-Preserves
    & Ranges.set_rand_source-Preserves
    & Fields.set_authfile-Preserves
    & Fields.set_exclusive-Preserves
    & Fields.set_autodial-Preserves
    & Fields.set_redial-Preserves
    & Values.set_rtimeout-Preserves
    & Ranges.set_lns-Preserves
    & Values.set_rmax-Preserves
    & Fields.set_accesscontrol-Preserves
    & Fields.set_userspace-Preserves
    & Ranges.set_iprange-Preserves env
    & Ranges.set_iprange-Preserves env
    & Fields.set_debugavp-Preserves
    & Fields.set_debugnetwork-Preserves
    & Fields.set_debugpacket-Preserves
    & Fields.set_debugtunnel-Preserves
    & Fields.set_debugstate-Preserves
    & Fields.set_ipsec_saref-Preserves
    & Ranges.set_lac-Preserves env
    & Ranges.set_lac-Preserves env
    & Fields.set_assignip-Preserves
    & Ranges.set_localaddr-Preserves env
    & Ranges.set_localiprange-Preserves env
    & Ranges.set_remoteaddr-Preserves env
    & Fields.set_defaultroute-Preserves
    & Fields.set_lbit-Preserves
    & Fields.set_hbit-Preserves
    & Values.set_papchap-Preserves
    & Values.set_papchap-Preserves
    & Values.set_papchap-Preserves
    & Values.set_papchap-Preserves
    & Values.set_papchap-Preserves
    & Values.set_papchap-Preserves
    & Values.set_papchap-Preserves
    & Values.set_papchap-Preserves
    & Fields.set_passwdauth-Preserves
    & Fields.set_passwdauth-Preserves
    & Fields.set_authname-Preserves
    & Fields.set_hostname-Preserves
    & Fields.set_debug-Preserves
    & Fields.set_pass_peer-Preserves
    & Fields.set_pppoptfile-Preserves
    & Values.set_rws-Preserves
    & Values.set_rws-Preserves
    & Values.set_flow-Preserves
    & Fields.set_challenge-Preserves
    & Values.set_speed-Preserves
    & Values.set_speed-Preserves
    & Values.set_speed-Preserves
    & Fields.set_maxretries-Preserves
    & Fields.set_capbackoff-Preserves
    & tt

find_keyword-IsPreserving :
    (ks : List Keyword) (word : List ℕ) → All KeepsGood ks → IsPreserving (find_keyword ks word)
unfolding find_keyword
find_keyword-IsPreserving [] word all = tt
find_keyword-IsPreserving (k ∷ ks) word (first, all) =
    if-intro IsPreserving (same_name word k.keyword) first (find_keyword-IsPreserving ks word all)

abbrev pub IsGoodAnswer : Option Outcome → Type 0
IsGoodAnswer none = Unit
IsGoodAnswer (some o) = IsGoodOutcome o

pub parse_one_option-IsGoodAnswer :
    (env : FileEnv) (def : Bool) (word value : List ℕ) (i : Item)
    → IsGoodItem i
    → IsGoodAnswer (parse_one_option env def word value i)
unfolding parse_one_option
parse_one_option-IsGoodAnswer env def word value i good =
    answer (find_keyword (words env) word)
      (find_keyword-IsPreserving (words env) word (words-All env))
  where
    answer : (o : Option Handler) → IsPreserving o → IsGoodAnswer (call_handler o def word value i)
    answer none keeps = tt
    answer (some h) keeps = keeps def word value i good
