-- ===== src/Tunnels/Examples.antt =====
-- The search for a call at concrete inputs.
use xl2tpd.Base.{◌+◌, ◌≡◌, ◌↔◌, refl, arith, List, [], ◌∷◌, none, some}
use xl2tpd.Session.{Session, fresh_call}
use xl2tpd.Sample.{new_session, busy_session}
use xl2tpd.Finish.Sample.{cfg}
use xl2tpd.Tunnels.{existing, missing, get_call, get_tunnel}
use xl2tpd.Tunnels.Lookup.{Reached, get_call_lem}

-- A tunnel with the number 6, and one with the number 5 that has two calls.
abbrev calling : Session
calling = record busy_session {
  tunnel = record (busy_session.tunnel) { call_head = 1 ∷ 2 ∷ [] };
  calls = λ a. fresh_call none none (70 + a);
}

abbrev tunnels : List Session
tunnels = record new_session { tunnel = record (new_session.tunnel) { ourtid = 6 } } ∷ calling ∷ []

second_call : get_call cfg tunnels 5 72 150 0 ≡ existing 1 2
unfolding get_call
second_call = refl

unknown_call : get_call cfg tunnels 5 80 150 0 ≡ missing
unfolding get_call
unknown_call = refl

same_tunnel : get_tunnel tunnels 5 ≡ some 1
unfolding get_tunnel
same_tunnel = refl

get_call_lem_example :
    (get_call cfg tunnels 5 72 150 0 ≡ existing 1 2) ↔ Reached cfg 5 72 0 tunnels 1 2
get_call_lem_example = get_call_lem cfg 5 72 0 tunnels 150 1 2 (λ e. omega (arith, e))
