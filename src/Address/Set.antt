-- ===== src/Address/Set.antt =====
-- The hash table as a set of addresses.
use xl2tpd.Base.{ℕ, ◌%◌, ◌≡◌, refl, arith, false, not, ◌&&◌, ◌||◌, ◌==◌, List, [], ◌∷◌, elem}
use xl2tpd.Address.{Uaddr, init_addr, ip_used, reserve_addr, without, unreserve_addr}

elem-without :
    (a b : ℕ) (entries : List ℕ) → elem b (without a entries) ≡ (not (b == a) && elem b entries)
unfolding without
elem-without a b [] = ground arith
elem-without a b (x ∷ entries) = ground (arith, elem-without a b entries)

-- The table stands for a set of addresses: it starts empty, a reservation adds the one address, and
-- taking it back removes the one address, whichever share a list of the table.
pub ip_used_lem :
    (u : Uaddr) (a b : ℕ)
    → (ip_used init_addr b ≡ false)
      × (ip_used (reserve_addr u a) b ≡ ((b == a) || ip_used u b))
      × (ip_used (unreserve_addr u a) b ≡ (not (b == a) && ip_used u b))
unfolding ip_used reserve_addr unreserve_addr
ip_used_lem u a b = (refl, ground arith, ground (arith, elem-without a b (u (a % 256))))
