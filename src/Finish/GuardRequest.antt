-- ===== src/Finish/GuardRequest.antt =====
-- An SCCRQ, and the start of a tunnel, when the tunnel has challenged its peer.
use mathlib.Core.Path.{subst}
use xl2tpd.Base.{ℕ, ◌≡◌, inl, refl, arith, Bool, true, false, Option, none, some}
use xl2tpd.Base.{not, if◌then◌else◌, if-intro, ◌==◌, is_neg, not_positive}
use xl2tpd.Base.{◌&&◌, ◌||◌, sym}
use xl2tpd.Message.{scccn, md_sig_size, state_challenged, sccrp, sccrq}
use xl2tpd.Session.{Challenge, Tunnel}
use xl2tpd.Challenge.{handle_challenge}
use xl2tpd.World.{Config, World, put_tunnel, refuse, hide, nothing}
use xl2tpd.Address.{Lns, get_lns}
use xl2tpd.Finish.Tunnel.{start_tunnel, configured, new_challenge, put_challenge, drop_challenge}
use xl2tpd.Finish.Tunnel.{send_sccrq, lac_challenges, lns_challenges, challenge_first}
use xl2tpd.Finish.Request.{close_quietly, is_duplicate, send_sccrp, challenge_peer, respond, pose}
use xl2tpd.Finish.Request.{prepare, answer, answer_request, with_lns, check_request, permit}
use xl2tpd.Finish.Request.{finish_sccrq}
use xl2tpd.Finish.Core.{SameCore, SameSome, SameResult, refuse-SameResult, hide-SameCore}
use xl2tpd.Finish.Proof.{IsPosed, theirs}
use xl2tpd.Finish.Proof.{IsPosed-SameCore}
use xl2tpd.Finish.Proof.{AnyHandled, handle_challenge-AnyHandled}
use xl2tpd.Finish.Guard.{send_sccrq-SameResult, send_sccrp-SameResult, respond-SameSome, Guarded}
use xl2tpd.Finish.Guard.{Unready, unready, repose}

-- A challenge with new bytes of ours.
abbrev pub IsRenewed : Config → World → Option Challenge → Type 0
IsRenewed cfg w none = Unit
IsRenewed cfg w (some ch) =
    ch ≡ record (theirs w) { chal = some (cfg.random w.draws); chal_len = md_sig_size }

pub new_challenge-IsRenewed : (cfg : Config) (w : World) → IsRenewed cfg w (new_challenge cfg w)
unfolding new_challenge
new_challenge-IsRenewed cfg w = ground arith

renew :
    {cfg : Config} (ch : Challenge) (k : ℕ)
    → IsPosed cfg ch
    → IsPosed cfg (record ch { chal = some (cfg.random k); chal_len = md_sig_size })
renew ch k p = record { posed = p.posed; ours = (k, refl); size = refl; expected = p.expected }

drop_chal :
    {cfg : Config} (ch : Challenge) → IsPosed cfg ch → IsPosed cfg (record ch { chal = none })
drop_chal ch p = record { posed = p.posed; ours = tt; size = p.size; expected = p.expected }

module _ (cfg : Config) (st : ℕ) where
  Unready-SameCore : (w w' : World) → SameCore w w' → Unready cfg st w → Unready cfg st w'
  Unready-SameCore w w' same u =
      (IsPosed-SameCore cfg w w' same u.0, λ e. u.1 (ground (arith, e, same)))

  put_challenge-Unready :
      (w : World) (ch : Challenge)
      → IsPosed cfg ch
      → (w.session.tunnel.state ≡ scccn → st ≡ scccn)
      → Unready cfg st (put_challenge w ch)
  unfolding put_challenge
  put_challenge-Unready w ch posed old = (posed, old)

  renewed :
      (w : World) (ch : Challenge) → Unready cfg st w → IsRenewed cfg w (some ch) → IsPosed cfg ch
  renewed w ch u h = subst (IsPosed cfg) (sym h) (renew (theirs w) w.draws u.0)

  challenge_first-Guarded :
      (w : World) (o : Option Challenge)
      → Unready cfg st w
      → IsRenewed cfg w o
      → Guarded cfg st (challenge_first cfg w o)
  unfolding challenge_first
  challenge_first-Guarded w none (posed, old) h = (drop_chal (theirs w) posed, λ e. inl (old e))
  challenge_first-Guarded w (some ch) u h =
      let ch' = record ch { state = state_challenged } in
      let w1 = put_challenge w ch' in
      let fresh = renewed w ch u h in
      let marked : IsPosed cfg ch' = record {
        posed = λ e. ground (arith, e);
        ours = fresh.ours;
        size = fresh.size;
        expected = fresh.expected;
      } in
      unready cfg st w1 (send_sccrq cfg w1 true) (put_challenge-Unready w ch' marked u.1)
        (send_sccrq-SameResult cfg w1 true)

  configured-them : (t : Tunnel) → (configured cfg t).chal_them ≡ t.chal_them
  unfolding configured
  configured-them t = ground arith

  pub start_tunnel-Guarded : (w : World) → Unready cfg st w → Guarded cfg st (start_tunnel cfg w)
  unfolding start_tunnel
  start_tunnel-Guarded w u =
      let w0 = put_tunnel w (record (configured cfg w.session.tunnel) { state = sccrq }) in
      let u0 : Unready cfg st w0 = (
        subst (IsPosed cfg) (sym (configured-them w.session.tunnel)) u.0,
        λ e. absurd (ground (arith, e)),
      ) in
      let w1 = hide cfg w0 in
      let u1 = Unready-SameCore w0 w1 (hide-SameCore cfg w0) u0 in
      let t = w1.session.tunnel in
      if-intro (Guarded cfg st) (lac_challenges cfg t || lns_challenges cfg t)
        {x = challenge_first cfg w1 (new_challenge cfg w1)} {y = send_sccrq cfg w1 false}
        (challenge_first-Guarded w1 (new_challenge cfg w1) u1 (new_challenge-IsRenewed cfg w1))
        (unready cfg st w1 (send_sccrq cfg w1 false) u1 (send_sccrq-SameResult cfg w1 false))

  pose-Guarded :
      (w : World) (ch : Challenge) (o : Option (Bool × Challenge))
      → (w.session.tunnel.state ≡ scccn → st ≡ scccn)
      → IsPosed cfg ch
      → AnyHandled cfg ch o
      → Guarded cfg st (pose cfg w o)
  unfolding pose
  pose-Guarded w ch none old posed h = tt
  pose-Guarded w ch (some (true, ch')) old posed h =
      let w1 = put_challenge w ch' in
      unready cfg st w1 (refuse w1 "No secret on our side")
        (put_challenge-Unready w ch' (subst (IsPosed cfg) (sym h) posed) old)
        (refuse-SameResult w1 "No secret on our side")
  pose-Guarded w ch (some (false, ch')) old posed h =
      let w1 = put_challenge w ch' in
      unready cfg st w1 (send_sccrp cfg w1 true) (put_challenge-Unready w ch' h.0 old)
        (send_sccrp-SameResult cfg w1 true)

  prepare-Guarded :
      (w : World) (o : Option Challenge)
      → Unready cfg st w
      → IsRenewed cfg w o
      → Guarded cfg st (prepare cfg w o)
  unfolding prepare
  prepare-Guarded w none u h =
      let w1 = drop_challenge w in
      unready cfg st w1 (refuse w1 "malloc failed") (drop_chal (theirs w) u.0, u.1)
        (refuse-SameResult w1 "malloc failed")
  prepare-Guarded w (some ch) u h =
      let ch' = record ch { ss = scccn } in
      let posed : IsPosed cfg ch' = repose ch scccn (renewed w ch u h) in
      pose-Guarded w ch' (handle_challenge cfg w.session.tunnel ch') u.1 posed
        (handle_challenge-AnyHandled cfg w.session.tunnel ch' posed.ours posed.size)

  answer-Guarded :
      (w : World) (lns : ℕ) (o : Option World)
      → Unready cfg st w
      → SameSome w o
      → Guarded cfg st (answer cfg lns o)
  unfolding answer challenge_peer
  answer-Guarded w lns none u same = tt
  answer-Guarded w lns (some w1) u same =
      let u1 = Unready-SameCore w w1 same u in
      if-intro (Guarded cfg st) (cfg.lns lns).challenge {x = prepare cfg w1 (new_challenge cfg w1)}
        {y = send_sccrp cfg w1 false}
        (prepare-Guarded w1 (new_challenge cfg w1) u1 (new_challenge-IsRenewed cfg w1))
        (unready cfg st w1 (send_sccrp cfg w1 false) u1 (send_sccrp-SameResult cfg w1 false))

  answer_request-Guarded :
      (w : World) (lns : ℕ) → IsPosed cfg (theirs w) → Guarded cfg st (answer_request cfg w lns)
  unfolding answer_request
  answer_request-Guarded w lns posed =
      let w0 = put_tunnel w (record (w.session.tunnel) { state = sccrp }) in
      let w1 = hide cfg w0 in
      answer-Guarded w1 lns (respond cfg w1)
        (Unready-SameCore w0 w1 (hide-SameCore cfg w0) (posed, λ e. absurd (ground (arith, e))))
        (respond-SameSome cfg w1)

  close_quietly-SameResult : (w : World) → SameResult w (close_quietly w)
  close_quietly-SameResult w = ground arith

  check_request-Guarded :
      (w : World) (lns : ℕ) → Unready cfg st w → Guarded cfg st (check_request cfg w lns)
  unfolding check_request
  check_request-Guarded w lns u =
      let w1 = with_lns cfg w lns in
      let t = w1.session.tunnel in
      let r1 = refuse w1 "Specify framing capability" in
      let r2 = refuse w1 "Specify your hostname" in
      let r3 = close_quietly w1 in
      let r4 = answer_request cfg w1 lns in
      let again = is_duplicate cfg t cfg.others in
      let unnamed = nothing t.hostname && (not (t.chal_us.state == 0) || (cfg.lns lns).challenge) in
      if-intro (Guarded cfg st) (is_neg t.fc) {x = r1}
        {y = if unnamed then r2 else (if again then r3 else r4)}
        (unready cfg st w1 r1 u (refuse-SameResult w1 "Specify framing capability"))
        (if-intro (Guarded cfg st) unnamed {x = r2} {y = if again then r3 else r4}
          (unready cfg st w1 r2 u (refuse-SameResult w1 "Specify your hostname"))
          (if-intro (Guarded cfg st) again {x = r3} {y = r4}
            (unready cfg st w1 r3 u (close_quietly-SameResult w1))
            (answer_request-Guarded w1 lns u.0)))

  permit-Guarded : (w : World) (o : Option Lns) → Unready cfg st w → Guarded cfg st (permit cfg w o)
  unfolding permit
  permit-Guarded w none u =
      let w1 = put_tunnel w (record (w.session.tunnel) { lns = none }) in
      unready cfg st w1 (refuse w1 "No Authorization") u (refuse-SameResult w1 "No Authorization")
  permit-Guarded w (some lns) u = check_request-Guarded w lns.name u

  pub finish_sccrq-Guarded : (w : World) → Unready cfg st w → Guarded cfg st (finish_sccrq cfg w)
  unfolding finish_sccrq
  finish_sccrq-Guarded w u =
      let t = w.session.tunnel in
      let o = get_lns cfg.accesscontrol t.peer cfg.lnslist cfg.deflns in
      let no = refuse w "Specify your assigned tunnel ID" in
      if-intro (Guarded cfg st) (not_positive t.tid) {x = no} {y = permit cfg w o}
        (unready cfg st w no u (refuse-SameResult w "Specify your assigned tunnel ID"))
        (permit-Guarded w o u)
