-- ===== src/Finish/MovesRequest.antt =====
-- An SCCRQ, the start of a tunnel, and the last steps of the others: where they take a tunnel.
use xl2tpd.Base.{ℕ, ◌≡◌, refl, arith, Bool, true, false, Option, none, some}
use xl2tpd.Base.{not, if◌then◌else◌, if-intro, ◌==◌, is_neg, not_positive}
use xl2tpd.Base.{◌&&◌, ◌||◌}
use xl2tpd.Message.{scccn, state_challenged, sccrp, sccrq}
use xl2tpd.Session.{Challenge, Tunnel}
use xl2tpd.Challenge.{handle_challenge}
use xl2tpd.World.{Config, World, put_tunnel, refuse, hide, nothing}
use xl2tpd.Address.{Lns, get_lns}
use xl2tpd.Finish.Tunnel.{start_tunnel, configured, new_challenge, put_challenge, drop_challenge}
use xl2tpd.Finish.Tunnel.{send_sccrq, lac_challenges, lns_challenges, challenge_first}
use xl2tpd.Finish.Request.{close_quietly, is_duplicate, send_sccrp, challenge_peer, respond, pose}
use xl2tpd.Finish.Request.{prepare, answer, answer_request, with_lns, check_request, permit}
use xl2tpd.Finish.Request.{finish_sccrq}
use xl2tpd.Finish.Reply.{established, is_answered, check_sccrp}
use xl2tpd.Finish.Reply.{finish_sccrp, finish_scccn}
use xl2tpd.Finish.Reply.{enter}
use xl2tpd.Finish.Core.{SameSome, SameResult, hide-SameCore}
use xl2tpd.Finish.Proof.{}
use xl2tpd.Finish.Guard.{send_sccrq-SameResult, send_sccrp-SameResult, respond-SameSome}
use xl2tpd.Finish.Moves.{Moves, MovesResult, Moves-SameCore, moved, Moves-put_tunnel, Moves-state}
use xl2tpd.Finish.Moves.{refused, check_sccrp-Moves}

module _ (cfg : Config) (w0 : World) where
  pub finish_sccrp-Moves :
      (w : World) → Moves scccn w0 w → MovesResult scccn w0 (finish_sccrp cfg w)
  unfolding finish_sccrp
  finish_sccrp-Moves w m =
      let t = w.session.tunnel in
      let r1 = refuse w "Specify framing capability" in
      let r2 = refuse w "Specify your hostname" in
      let r3 = refuse w "Specify your assigned tunnel ID" in
      let named =
        nothing t.hostname && (not (t.chal_them.state == 0) || not (t.chal_us.state == 0)) in
      let y3 = if not_positive t.tid then r3 else check_sccrp cfg w in
      if-intro (MovesResult scccn w0) (is_neg t.fc) {x = r1} {y = if named then r2 else y3}
        (refused cfg w0 w "Specify framing capability" m)
        (if-intro (MovesResult scccn w0) named {x = r2} {y = y3}
          (refused cfg w0 w "Specify your hostname" m)
          (if-intro (MovesResult scccn w0) (not_positive t.tid) {x = r3} {y = check_sccrp cfg w}
            (refused cfg w0 w "Specify your assigned tunnel ID" m) (check_sccrp-Moves cfg w0 w m)))

  close_quietly-SameResult : (w : World) → SameResult w (close_quietly w)
  close_quietly-SameResult w = ground arith

  enter-Moves : (w : World) (l : Option ℕ) → Moves scccn w0 w → MovesResult scccn w0 (enter w l)
  unfolding enter
  enter-Moves w none m = tt
  enter-Moves w (some l) m =
      let t = record (w.session.tunnel) { state = scccn } in
      Moves-SameCore (established (put_tunnel w t)) (Moves-state cfg w0 w t m refl refl refl)
        (ground arith)

  pub finish_scccn-Moves :
      (w : World) → Moves scccn w0 w → MovesResult scccn w0 (finish_scccn cfg w)
  unfolding finish_scccn
  finish_scccn-Moves w m =
      let t = w.session.tunnel in
      let no = refuse w "Invalid challenge authentication" in
      if-intro (MovesResult scccn w0)
        (not (t.chal_them.state == 0) && not (is_answered t.chal_them)) {x = no} {y = enter w t.lns}
        (refused cfg w0 w "Invalid challenge authentication" m) (enter-Moves w t.lns m)

  Moves-put_challenge :
      {next : ℕ} (w : World) (ch : Challenge) → Moves next w0 w → Moves next w0 (put_challenge w ch)
  unfolding put_challenge
  Moves-put_challenge w ch m = ground (arith, m)

  Moves-drop_challenge : {next : ℕ} (w : World) → Moves next w0 w → Moves next w0 (drop_challenge w)
  Moves-drop_challenge w m = ground (arith, m)

  challenge_first-Moves :
      (w : World) (o : Option Challenge)
      → Moves sccrq w0 w
      → MovesResult sccrq w0 (challenge_first cfg w o)
  unfolding challenge_first
  challenge_first-Moves w none m = Moves-drop_challenge w m
  challenge_first-Moves w (some ch) m =
      let w1 = put_challenge w (record ch { state = state_challenged }) in
      moved (send_sccrq cfg w1 true)
        (Moves-put_challenge w (record ch { state = state_challenged }) m)
        (send_sccrq-SameResult cfg w1 true)

  configured-Moves :
      (t : Tunnel)
      → ((configured cfg t).control_rec_seq_num ≡ t.control_rec_seq_num)
        × ((configured cfg t).self ≡ t.self)
  unfolding configured
  configured-Moves t = ground arith

  pub start_tunnel-Moves :
      (w : World) → Moves sccrq w0 w → MovesResult sccrq w0 (start_tunnel cfg w)
  unfolding start_tunnel
  start_tunnel-Moves w m =
      let t0 = record (configured cfg w.session.tunnel) { state = sccrq } in
      let (a, b) = configured-Moves w.session.tunnel in
      let w1 = hide cfg (put_tunnel w t0) in
      let m1 =
        Moves-SameCore w1 (Moves-state cfg w0 w t0 m a b refl)
          (hide-SameCore cfg (put_tunnel w t0)) in
      let t = w1.session.tunnel in
      if-intro (MovesResult sccrq w0) (lac_challenges cfg t || lns_challenges cfg t)
        {x = challenge_first cfg w1 (new_challenge cfg w1)} {y = send_sccrq cfg w1 false}
        (challenge_first-Moves w1 (new_challenge cfg w1) m1)
        (moved (send_sccrq cfg w1 false) m1 (send_sccrq-SameResult cfg w1 false))

  pose-Moves :
      (w : World) (o : Option (Bool × Challenge))
      → Moves sccrp w0 w
      → MovesResult sccrp w0 (pose cfg w o)
  unfolding pose
  pose-Moves w none m = tt
  pose-Moves w (some (true, ch)) m =
      refused cfg w0 (put_challenge w ch) "No secret on our side" (Moves-put_challenge w ch m)
  pose-Moves w (some (false, ch)) m =
      moved (send_sccrp cfg (put_challenge w ch) true) (Moves-put_challenge w ch m)
        (send_sccrp-SameResult cfg (put_challenge w ch) true)

  prepare-Moves :
      (w : World) (o : Option Challenge) → Moves sccrp w0 w → MovesResult sccrp w0 (prepare cfg w o)
  unfolding prepare
  prepare-Moves w none m =
      refused cfg w0 (drop_challenge w) "malloc failed" (Moves-drop_challenge w m)
  prepare-Moves w (some ch) m =
      pose-Moves w (handle_challenge cfg w.session.tunnel (record ch { ss = scccn })) m

  answer-Moves :
      (w : World) (lns : ℕ) (o : Option World)
      → Moves sccrp w0 w
      → SameSome w o
      → MovesResult sccrp w0 (answer cfg lns o)
  unfolding answer challenge_peer
  answer-Moves w lns none m same = tt
  answer-Moves w lns (some w1) m same =
      let m1 = Moves-SameCore w1 m same in
      if-intro (MovesResult sccrp w0) (cfg.lns lns).challenge
        {x = prepare cfg w1 (new_challenge cfg w1)} {y = send_sccrp cfg w1 false}
        (prepare-Moves w1 (new_challenge cfg w1) m1)
        (moved (send_sccrp cfg w1 false) m1 (send_sccrp-SameResult cfg w1 false))

  answer_request-Moves :
      (w : World) (lns : ℕ) → Moves sccrp w0 w → MovesResult sccrp w0 (answer_request cfg w lns)
  unfolding answer_request
  answer_request-Moves w lns m =
      let t = record (w.session.tunnel) { state = sccrp } in
      let w1 = hide cfg (put_tunnel w t) in
      answer-Moves w1 lns (respond cfg w1)
        (Moves-SameCore w1 (Moves-state cfg w0 w t m refl refl refl)
          (hide-SameCore cfg (put_tunnel w t)))
        (respond-SameSome cfg w1)

  check_request-Moves :
      (w : World) (lns : ℕ) → Moves sccrp w0 w → MovesResult sccrp w0 (check_request cfg w lns)
  unfolding check_request
  check_request-Moves w lns m =
      let w1 = with_lns cfg w lns in
      let t = w1.session.tunnel in
      let m1 : Moves sccrp w0 w1 = Moves-put_tunnel cfg w0 w t m refl refl refl in
      let r1 = refuse w1 "Specify framing capability" in
      let r2 = refuse w1 "Specify your hostname" in
      let r3 = close_quietly w1 in
      let r4 = answer_request cfg w1 lns in
      let again = is_duplicate cfg t cfg.others in
      let unnamed = nothing t.hostname && (not (t.chal_us.state == 0) || (cfg.lns lns).challenge) in
      if-intro (MovesResult sccrp w0) (is_neg t.fc) {x = r1}
        {y = if unnamed then r2 else (if again then r3 else r4)}
        (refused cfg w0 w1 "Specify framing capability" m1)
        (if-intro (MovesResult sccrp w0) unnamed {x = r2} {y = if again then r3 else r4}
          (refused cfg w0 w1 "Specify your hostname" m1)
          (if-intro (MovesResult sccrp w0) again {x = r3} {y = r4}
            (moved r3 m1 (close_quietly-SameResult w1)) (answer_request-Moves w1 lns m1)))

  permit-Moves :
      (w : World) (o : Option Lns) → Moves sccrp w0 w → MovesResult sccrp w0 (permit cfg w o)
  unfolding permit
  permit-Moves w none m =
      let t = record (w.session.tunnel) { lns = none } in
      refused cfg w0 (put_tunnel w t) "No Authorization"
        (Moves-put_tunnel cfg w0 w t m refl refl refl)
  permit-Moves w (some lns) m = check_request-Moves w lns.name m

  pub finish_sccrq-Moves :
      (w : World) → Moves sccrp w0 w → MovesResult sccrp w0 (finish_sccrq cfg w)
  unfolding finish_sccrq
  finish_sccrq-Moves w m =
      let t = w.session.tunnel in
      let o = get_lns cfg.accesscontrol t.peer cfg.lnslist cfg.deflns in
      let no = refuse w "Specify your assigned tunnel ID" in
      if-intro (MovesResult sccrp w0) (not_positive t.tid) {x = no} {y = permit cfg w o}
        (refused cfg w0 w "Specify your assigned tunnel ID" m) (permit-Moves w o m)
