-- ===== src/Finish/Tunnel.antt =====
-- The start of a tunnel: the branch of `control_finish` (control.c) for a message type 0 on the
-- tunnel's own call, and what the answers to the peer's messages share with it.
use xl2tpd.Base.{ℕ, zero, suc, ◌+◌, Bool, true, false, not, ◌||◌, if◌then◌else◌, u16}
use xl2tpd.Base.{List, [], ◌∷◌, Option, none, some, is_neg, ◌>>=◌}
use xl2tpd.Message.{sccrq, md_sig_size, state_challenged}
use xl2tpd.Session.{Tunnel, Challenge}
use xl2tpd.Control.{to_u16}
use xl2tpd.Send.{Buffer, add_protocol_avp, add_frame_caps_avp, add_bearer_caps_avp}
use xl2tpd.Send.{add_firmware_avp, add_hostname_avp, add_vendor_avp, add_tunnelid_avp, add_avp_rws}
use xl2tpd.Send.{add_challenge_avp, add_chalresp_avp}
use xl2tpd.Challenge.{or_else}
use xl2tpd.World.{Config, World, Result, fault, done, put_session, put_tunnel}
use xl2tpd.World.{send, mk_challenge, hide, begin}

-- An addition that is made or not.
abbrev pub when : Bool → (Buffer → Option Buffer) → Buffer → Option Buffer
when b add = if b then add else some

-- The name that we give as ours.
unfoldable pub our_name : Config → Tunnel → List ℕ
our_name cfg t =
    let by_lns : List ℕ = elim t.lns [
      | some l ↦ or_else (cfg.lns l).hostname cfg.hostname
      | none ↦ cfg.hostname
    ] in
    elim t.lac [ some l ↦ or_else (cfg.lac l).hostname by_lns | none ↦ by_lns ]

-- What an SCCRQ and an SCCRP say of this end.
unfoldable pub add_link_avps : List ℕ → Tunnel → Buffer → Option Buffer
add_link_avps name t b = do
  b1 ← add_protocol_avp b
  b2 ← add_frame_caps_avp t.ourfc b1
  b3 ← add_bearer_caps_avp t.ourbc b2
  b4 ← add_firmware_avp b3
  b5 ← add_hostname_avp name b4
  b6 ← add_vendor_avp b5
  b7 ← add_tunnelid_avp (u16 t.ourtid) b6
  when (not (is_neg t.ourrws)) (add_avp_rws (to_u16 t.ourrws)) b7

-- The 16 bytes of an array that holds these, which a challenge or a response has.
unfoldable pub signature : ℕ → List ℕ → List ℕ
signature zero bytes = []
signature (suc n) [] = 0 ∷ signature n []
signature (suc n) (b ∷ bytes) = b ∷ signature n bytes

abbrev pub add_response : Tunnel → Buffer → Option Buffer
add_response t b = add_chalresp_avp (signature md_sig_size t.chal_us.response) b

abbrev pub challenge_of : Challenge → List ℕ
challenge_of ch = elim ch.chal [ none ↦ [] | some bytes ↦ bytes ]

abbrev pub add_our_challenge : Tunnel → Buffer → Option Buffer
add_our_challenge t b = add_challenge_avp (challenge_of t.chal_them) b

-- The new challenge for the peer, for whose bytes `malloc` is asked. `none` is its failure.
unfoldable pub new_challenge : Config → World → Option Challenge
new_challenge cfg w =
    if cfg.env.alloc w.session.ticks
    then some (record (w.session.tunnel.chal_them) {
      chal = some (mk_challenge cfg w);
      chal_len = md_sig_size;
    })
    else none

-- The state after that `malloc`.
unfoldable pub put_challenge : World → Challenge → World
put_challenge w ch =
    let s = w.session in
    record w {
      session = record s { tunnel = record (s.tunnel) { chal_them = ch }; ticks = s.ticks + 1 };
      draws = w.draws + 1;
    }

abbrev pub drop_challenge : World → World
drop_challenge w =
    let s = w.session in
    put_session w (record s {
      tunnel = record (s.tunnel) { chal_them = record (s.tunnel.chal_them) { chal = none } };
      ticks = s.ticks + 1;
    })

abbrev pub sent : Option World → Result
sent none = fault
sent (some w) = done false w

-- What a configured entry says of the tunnel, if there is one.
unfoldable pub configured : Config → Tunnel → Tunnel
configured cfg t = elim t.lns [
  | some l ↦ record t {
    ourrws = (cfg.lns l).tun_rws;
    hbit = (cfg.lns l).hbit;
    rxspeed = (cfg.lns l).rxspeed;
    txspeed = (cfg.lns l).txspeed;
  }
  | none ↦ elim t.lac [
    | some l ↦ record t {
      ourrws = (cfg.lac l).tun_rws;
      hbit = (cfg.lac l).hbit;
      rxspeed = (cfg.lac l).rxspeed;
      txspeed = (cfg.lac l).txspeed;
    }
    | none ↦ t
  ]
]

abbrev pub lns_challenges : Config → Tunnel → Bool
lns_challenges cfg t = elim t.lns [ none ↦ false | some l ↦ (cfg.lns l).challenge ]

abbrev pub lac_challenges : Config → Tunnel → Bool
lac_challenges cfg t = elim t.lac [ none ↦ false | some l ↦ (cfg.lac l).challenge ]

unfoldable pub send_sccrq : Config → World → Bool → Result
unfolding send add_link_avps our_name
send_sccrq cfg w challenging =
    let t = w.session.tunnel in
    sent (
      send w w.session.current (do
        b1 ← begin sccrq t
        b2 ← add_link_avps (our_name cfg t) t b1
        when challenging (add_our_challenge t) b2))

unfoldable pub challenge_first : Config → World → Option Challenge → Result
unfolding put_challenge send_sccrq
challenge_first cfg w none = done true (drop_challenge w)
challenge_first cfg w (some ch) =
    send_sccrq cfg (put_challenge w (record ch { state = state_challenged })) true

-- The branch for a message type 0 on the tunnel's own call.
unfoldable pub start_tunnel : Config → World → Result
unfolding configured hide new_challenge challenge_first send_sccrq
start_tunnel cfg w =
    let w1 = hide cfg (put_tunnel w (record (configured cfg w.session.tunnel) { state = sccrq })) in
    let t = w1.session.tunnel in
    if lac_challenges cfg t || lns_challenges cfg t
    then challenge_first cfg w1 (new_challenge cfg w1)
    else send_sccrq cfg w1 false
