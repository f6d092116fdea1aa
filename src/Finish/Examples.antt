-- ===== src/Finish/Examples.antt =====
-- The theorems on the state machine at concrete inputs.
use xl2tpd.Base.{
  ℕ, Bool, not, if◌then◌else◌, ◌==◌, ◌≡◌, refl, arith, true, false, [], ◌∷◌, none, pos,
}
use xl2tpd.Message.{scccn, cdn}
use xl2tpd.Session.{fresh_call}
use xl2tpd.Sample.{new_tunnel, busy_session}
use xl2tpd.World.{World, Result, fault, done, AnyWorld, put_session, put_tunnel}
use xl2tpd.Finish.{control_finish}
use xl2tpd.Finish.Sample.{cfg, waiting, new_world}
use xl2tpd.Finish.Diagram.{Follows, control_finish-Follows}
use xl2tpd.Finish.Posed.{Good}
use xl2tpd.Finish.Calls.{finish_cdn}
use xl2tpd.Finish.Slips.{IsMistaken, cdn_closes_tunnel}
use xl2tpd.Avp.MessageType.{admits}

-- The tunnel's own call has got a message of this type.
abbrev typed : World → ℕ → World
typed w m = put_session w (record (w.session) {
  calls = λ a. record (fresh_call none none 0) { msgtype = pos m; qcid = pos 12; result = pos 3 };
})

admitted : admits (typed waiting scccn).session scccn ≡ true
unfolding admits
admitted = refl

control_finish-Follows_example :
    AnyWorld (Follows (typed waiting scccn)) (control_finish cfg (typed waiting scccn))
control_finish-Follows_example =
    control_finish-Follows cfg (typed waiting scccn) scccn refl admitted

-- A tunnel whose peer has said who it is.
abbrev named : World
named = put_tunnel new_world (record new_tunnel { tid = pos 9; fc = pos 3; hostname = b'b' ∷ [] })

-- A connected tunnel with the call 1, whose identifier is 12. A CDN for the identifier 12 has come on
-- the tunnel's own call.
abbrev busy : World
busy = put_session new_world (record busy_session {
  calls = λ a. record (fresh_call none none 0) {
    msgtype = pos cdn;
    cid = if a == 1 then pos 12 else pos 0;
    qcid = pos 12;
    result = pos 3;
  };
})

accepts : Result → Bool
accepts fault = false
accepts (done bad w) = not bad

-- The call is found, and the message accepted.
busy-accepts : accepts (finish_cdn cfg busy) ≡ true
unfolding finish_cdn accepts
busy-accepts = refl

cdn_closes_tunnel_example : Good (IsMistaken cfg busy 1) (finish_cdn cfg busy)
cdn_closes_tunnel_example = cdn_closes_tunnel cfg busy 1 refl (λ e. omega (arith, e))
