-- ===== src/Address/Examples.antt =====
-- A small pool and some peers, and the theorems at concrete inputs.
use xl2tpd.Base.{
  ℕ, ◌≡◌, refl, arith, true, false, not, ◌&&◌, ◌||◌, ◌==◌, List, [], ◌∷◌, ◌++◌, Option, some,
}
use xl2tpd.Address.{
  Uaddr, init_addr, ip_used, reserve_addr, unreserve_addr, Iprange, get_addr, Lns, get_lns,
}
use xl2tpd.Address.Set.{ip_used_lem}
use xl2tpd.Address.Choice.{IsAnswer, get_addr_lem, first_listed, or_default, get_lns_lem}

-- Ten addresses, without the third.
abbrev ranges : List Iprange
ranges =
    record { start = 10; end = 19; allow = true }
    ∷ record { start = 12; end = 12; allow = false }
    ∷ []

abbrev taken : Uaddr
taken = reserve_addr (reserve_addr init_addr 10) 11

next_free : get_addr 11 taken ranges ≡ some (some 13)
unfolding get_addr reserve_addr ip_used
next_free = refl

ip_used_lem_example :
    (ip_used init_addr 10 ≡ false)
    × (ip_used (reserve_addr taken 266) 10 ≡ ((10 == 266) || ip_used taken 10))
    × (ip_used (unreserve_addr taken 266) 10 ≡ (not (10 == 266) && ip_used taken 10))
ip_used_lem_example = ip_used_lem taken 266 10

get_addr_lem_example :
    (res : Option ℕ) × (get_addr 11 taken ranges ≡ some res) × IsAnswer taken ranges res
get_addr_lem_example =
    get_addr_lem 11 taken ranges ((omega arith, omega arith), ((omega arith, omega arith), tt))

abbrev office : Lns
office = record { name = 1; lacs = record { start = 100; end = 200; allow = true } ∷ [] }

abbrev default : Lns
default = record { name = 0; lacs = [] }

get_lns_lem_example :
    get_lns true 150 (office ∷ []) default
    ≡ or_default true default (first_listed 150 ((office ∷ []) ++ (default ∷ [])))
get_lns_lem_example = get_lns_lem true 150 (office ∷ []) default
