-- ===== src/File/Sound/Fields.antt =====
-- The handlers of one field keep an entry good, each by the rule for its kind.
use xl2tpd.Base.{[], ◌∷◌}
use xl2tpd.File.Options
use xl2tpd.File.Options.{Item, global, lns, lac}
use xl2tpd.File.Sound.{Preserves, global_number-Preserves, global_boolean-Preserves}
use xl2tpd.File.Sound.{lns_boolean-Preserves, lac_boolean-Preserves, shared_boolean-Preserves}

pub set_port-Preserves : Preserves Options.set_port
unfolding Options.set_port
set_port-Preserves = global_number-Preserves _

pub set_maxretries-Preserves : Preserves Options.set_maxretries
unfolding Options.set_maxretries
set_maxretries-Preserves = global_number-Preserves _

pub set_capbackoff-Preserves : Preserves Options.set_capbackoff
unfolding Options.set_capbackoff
set_capbackoff-Preserves = global_number-Preserves _

pub set_saref_num-Preserves : Preserves Options.set_saref_num
unfolding Options.set_saref_num
set_saref_num-Preserves = global_number-Preserves _

pub set_accesscontrol-Preserves : Preserves Options.set_accesscontrol
unfolding Options.set_accesscontrol
set_accesscontrol-Preserves = global_boolean-Preserves _

pub set_userspace-Preserves : Preserves Options.set_userspace
unfolding Options.set_userspace
set_userspace-Preserves = global_boolean-Preserves _

pub set_debugavp-Preserves : Preserves Options.set_debugavp
unfolding Options.set_debugavp
set_debugavp-Preserves = global_boolean-Preserves _

pub set_debugnetwork-Preserves : Preserves Options.set_debugnetwork
unfolding Options.set_debugnetwork
set_debugnetwork-Preserves = global_boolean-Preserves _

pub set_debugpacket-Preserves : Preserves Options.set_debugpacket
unfolding Options.set_debugpacket
set_debugpacket-Preserves = global_boolean-Preserves _

pub set_debugtunnel-Preserves : Preserves Options.set_debugtunnel
unfolding Options.set_debugtunnel
set_debugtunnel-Preserves = global_boolean-Preserves _

pub set_debugstate-Preserves : Preserves Options.set_debugstate
unfolding Options.set_debugstate
set_debugstate-Preserves = global_boolean-Preserves _

pub set_ipsec_saref-Preserves : Preserves Options.set_ipsec_saref
unfolding Options.set_ipsec_saref
set_ipsec_saref-Preserves = global_boolean-Preserves _

pub set_exclusive-Preserves : Preserves Options.set_exclusive
unfolding Options.set_exclusive
set_exclusive-Preserves = lns_boolean-Preserves _ (λ e b good. good)

pub set_passwdauth-Preserves : Preserves Options.set_passwdauth
unfolding Options.set_passwdauth
set_passwdauth-Preserves = lns_boolean-Preserves _ (λ e b good. good)

pub set_assignip-Preserves : Preserves Options.set_assignip
unfolding Options.set_assignip
set_assignip-Preserves = lns_boolean-Preserves _ (λ e b good. good)

pub set_autodial-Preserves : Preserves Options.set_autodial
unfolding Options.set_autodial
set_autodial-Preserves = lac_boolean-Preserves _ (λ e b good. good)

pub set_defaultroute-Preserves : Preserves Options.set_defaultroute
unfolding Options.set_defaultroute
set_defaultroute-Preserves = lac_boolean-Preserves _ (λ e b good. good)

pub set_redial-Preserves : Preserves Options.set_redial
unfolding Options.set_redial
set_redial-Preserves = lac_boolean-Preserves _ (λ e b good. good)

pub set_hbit-Preserves : Preserves Options.set_hbit
unfolding Options.set_hbit
set_hbit-Preserves = shared_boolean-Preserves _ _ (λ e b good. good) (λ e b good. good)

pub set_challenge-Preserves : Preserves Options.set_challenge
unfolding Options.set_challenge
set_challenge-Preserves = shared_boolean-Preserves _ _ (λ e b good. good) (λ e b good. good)

pub set_lbit-Preserves : Preserves Options.set_lbit
unfolding Options.set_lbit
set_lbit-Preserves = shared_boolean-Preserves _ _ (λ e b good. good) (λ e b good. good)

pub set_debug-Preserves : Preserves Options.set_debug
unfolding Options.set_debug
set_debug-Preserves = shared_boolean-Preserves _ _ (λ e b good. good) (λ e b good. good)

pub set_pass_peer-Preserves : Preserves Options.set_pass_peer
unfolding Options.set_pass_peer
set_pass_peer-Preserves = shared_boolean-Preserves _ _ (λ e b good. good) (λ e b good. good)

pub set_authname-Preserves : Preserves Options.set_authname
unfolding Options.set_authname
set_authname-Preserves def word value (global g) good = tt
set_authname-Preserves def word value (lns e) good = good
set_authname-Preserves def word value (lac e) good = good

pub set_pppoptfile-Preserves : Preserves Options.set_pppoptfile
unfolding Options.set_pppoptfile
set_pppoptfile-Preserves def word value (global g) good = tt
set_pppoptfile-Preserves def word value (lns e) good = good
set_pppoptfile-Preserves def word value (lac e) good = good

pub set_hostname-Preserves : Preserves Options.set_hostname
unfolding Options.set_hostname
set_hostname-Preserves def word value (global g) good = tt
set_hostname-Preserves def word value (lns e) good = good
set_hostname-Preserves def word value (lac e) good = good

pub set_authfile-Preserves : Preserves Options.set_authfile
unfolding Options.set_authfile
set_authfile-Preserves def word [] i good = tt
set_authfile-Preserves def word (b ∷ bs) (global g) good = tt
set_authfile-Preserves def word (b ∷ bs) (lns e) good = tt
set_authfile-Preserves def word (b ∷ bs) (lac e) good = tt
