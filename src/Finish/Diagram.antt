-- ===== src/Finish/Diagram.antt =====
-- The state diagram of a tunnel, and `control_finish` on all messages.
use mathlib.Core.Path.{subst}
use xl2tpd.Base.{ℕ, ◌≡◌, ◌⊎◌, inl, inr, refl, sym, arith, Bool, true, false, if-intro}
use xl2tpd.Base.{if◌then◌else◌, ◌==◌, ◌||◌, Bool-cases, pos, negsuc, ℤ}
use xl2tpd.Message.{sccrq, sccrp, scccn, stop_ccn, hello, ocrp, occn, icrq, icrp, iccn, cdn, sli}
use xl2tpd.Session.{Session, cur}
use xl2tpd.Avp.MessageType.{admits}
use xl2tpd.World.{Config, World, Result, done, AnyWorld}
use xl2tpd.Finish.{finish_call_message, finish_message, finish_type, control_finish}
use xl2tpd.Finish.Dial.{request_call}
use xl2tpd.Finish.Tunnel.{start_tunnel, sent}
use xl2tpd.Finish.Reply.{finish_sccrp, finish_scccn, finish_stop_ccn}
use xl2tpd.Finish.Incoming.{finish_icrq}
use xl2tpd.Finish.Calls.{finish_icrp, finish_iccn, finish_occn, finish_cdn, finish_other}
use xl2tpd.Finish.Core.{sent-SameResult}
use xl2tpd.Finish.Core.{SameCore, SameResult, SameCore-refl, if-SameResult, AnyWorld-map}
use xl2tpd.Finish.CallsCore.{request_call-SameSome, finish_stop_ccn-SameResult}
use xl2tpd.Finish.CallsCore.{finish_icrq-SameResult, finish_icrp-SameResult, finish_iccn-SameResult}
use xl2tpd.Finish.CallsCore.{finish_occn-SameResult, finish_cdn-SameResult, finish_other-SameResult}
use xl2tpd.Finish.Moves.{MovesResult, Moves-refl, moved}
use xl2tpd.Finish.MovesRequest.{start_tunnel-Moves, finish_sccrq-Moves, finish_sccrp-Moves}
use xl2tpd.Finish.MovesRequest.{finish_scccn-Moves}

-- The tunnels that this end asks for go along the top, those that a peer asks for along the bottom.
infix 4 ◌⟶◌
pub data ◌⟶◌ : ℕ → ℕ → Type 0 where
  asked : 0 ⟶ sccrp
  crossed : sccrq ⟶ sccrp
  accepted : sccrq ⟶ scccn
  confirmed : sccrp ⟶ scccn

-- Where a message takes a tunnel, if anywhere.
abbrev pub target : ℕ → ℕ
target m = if m == 0 then sccrq else (if m == sccrq then sccrp else scccn)

module _ (cfg : Config) where
  pub finish_call_message-SameResult :
      (w : World) (m : ℕ) → SameResult w (finish_call_message cfg w m)
  unfolding finish_call_message
  finish_call_message-SameResult w m =
      let r = λ (b : Bool) (x y : Result). if-SameResult w b x y in
      let y6 = if m == ocrp || m == hello || m == sli then done false w else finish_other w m in
      let y5 = if m == cdn then finish_cdn cfg w else y6 in
      let y4 = if m == occn then finish_occn cfg w else y5 in
      let y3 = if m == iccn then finish_iccn cfg w else y4 in
      let y2 = if m == icrp then finish_icrp cfg w else y3 in
      let y1 = if m == icrq then finish_icrq cfg w else y2 in
      r (m == stop_ccn) (finish_stop_ccn cfg w) y1 (finish_stop_ccn-SameResult cfg w) (
        r (m == icrq) (finish_icrq cfg w) y2 (finish_icrq-SameResult cfg w) (
          r (m == icrp) (finish_icrp cfg w) y3 (finish_icrp-SameResult cfg w) (
            r (m == iccn) (finish_iccn cfg w) y4 (finish_iccn-SameResult cfg w) (
              r (m == occn) (finish_occn cfg w) y5 (finish_occn-SameResult cfg w) (
                r (m == cdn) (finish_cdn cfg w) y6 (finish_cdn-SameResult cfg w) (
                  r (m == ocrp || m == hello || m == sli) (done false w) (finish_other w m)
                    (SameCore-refl w) (finish_other-SameResult cfg w m)))))))

  finish_message-Moves : (w : World) (m : ℕ) → MovesResult (target m) w (finish_message cfg w m)
  unfolding finish_message
  finish_message-Moves w m =
      let same = λ (r : Result) (h : SameResult w r) (n : ℕ). moved r (Moves-refl n w) h in
      let calls = finish_call_message-SameResult w m in
      elim (Bool-cases (m == 0)) [
        | inl e ↦ rw e (
            let started = start_tunnel-Moves cfg w w (Moves-refl sccrq w) in
            let o = request_call cfg w w.session.current in
            if-intro (MovesResult sccrq w) (w.session.current == w.session.tunnel.self)
              {x = start_tunnel cfg w} {y = sent o} started
              (same (sent o) (sent-SameResult w o (request_call-SameSome cfg w w.session.current))
                sccrq))
        | inr e ↦ elim (Bool-cases (m == sccrq)) [
          | inl f ↦ rw (e, f) (finish_sccrq-Moves cfg w w (Moves-refl sccrp w))
          | inr f ↦
              rw (e, f)
                (let y2 = if m == scccn then finish_scccn cfg w else finish_call_message cfg w m in
                  if-intro (MovesResult scccn w) (m == sccrp) {x = finish_sccrp cfg w} {y = y2}
                    (finish_sccrp-Moves cfg w w (Moves-refl scccn w))
                    (if-intro (MovesResult scccn w) (m == scccn) {x = finish_scccn cfg w}
                      {y = finish_call_message cfg w m}
                      (finish_scccn-Moves cfg w w (Moves-refl scccn w))
                      (same (finish_call_message cfg w m) calls scccn)))
        ]
      ]

  finish_type-Keeps :
      (w : World) (type : ℤ)
      → AnyWorld
          (λ w'.
            (w'.session.tunnel.control_rec_seq_num ≡ w.session.tunnel.control_rec_seq_num)
            × (w'.session.tunnel.self ≡ w.session.tunnel.self)
            × (w'.session.current ≡ w.session.current))
          (finish_type cfg w type)
  unfolding finish_type
  finish_type-Keeps w (negsuc n) = (refl, refl, refl)
  finish_type-Keeps w (pos m) =
      AnyWorld-map (λ w' k. (k.rec_seq, k.self, k.current)) (finish_message cfg w m)
        (finish_message-Moves w m)

  -- Whatever a message holds, finishing it leaves the number of the next message, the tunnel's own
  -- call and the call it came for as they are.
  pub control_finish-Keeps :
      (w : World)
      → AnyWorld
          (λ w'.
            (w'.session.tunnel.control_rec_seq_num ≡ w.session.tunnel.control_rec_seq_num)
            × (w'.session.tunnel.self ≡ w.session.tunnel.self)
            × (w'.session.current ≡ w.session.current))
          (control_finish cfg w)
  unfolding control_finish
  control_finish-Keeps w = finish_type-Keeps w (cur w.session).msgtype

arrow : {a b : ℕ} (st st' : ℕ) → a ⟶ b → st ≡ a → st' ≡ b → st ⟶ st'
arrow st st' edge e f = rw (e, f) edge

edge :
    (s : Session) (m st' : ℕ)
    → admits s m ≡ true
    → (st' ≡ s.tunnel.state) ⊎ (st' ≡ target m)
    → (m ≡ sccrq) ⊎ (m ≡ sccrp) ⊎ (m ≡ scccn)
    → (st' ≡ s.tunnel.state) ⊎ (s.tunnel.state ⟶ st')
unfolding admits
edge s m st' h (inl e) k = inl e
edge s m st' h (inr e) (inl k) =
    let there : st' ≡ sccrp = ground (arith, e, k) in
    let from : (s.tunnel.state ≡ 0) ⊎ (s.tunnel.state ≡ sccrq) = ground (arith, h, k) in
    elim from [
      | inl z ↦ inr (arrow s.tunnel.state st' asked z there)
      | inr z ↦ inr (arrow s.tunnel.state st' crossed z there)
    ]
edge s m st' h (inr e) (inr (inl k)) =
    let from : s.tunnel.state ≡ sccrq = ground (arith, h, k) in
    inr (arrow s.tunnel.state st' accepted from (ground (arith, e, k)))
edge s m st' h (inr e) (inr (inr k)) =
    let from : s.tunnel.state ≡ sccrp = ground (arith, h, k) in
    inr (arrow s.tunnel.state st' confirmed from (ground (arith, e, k)))

admitted_type :
    (s : Session) (m : ℕ)
    → admits s m ≡ true
    → ((m ≡ sccrq) ⊎ (m ≡ sccrp) ⊎ (m ≡ scccn))
      ⊎ (((m == 0) ≡ false)
          × ((m == sccrq) ≡ false)
          × ((m == sccrp) ≡ false)
          × ((m == scccn) ≡ false))
unfolding admits
admitted_type s m h = ground (arith, h)

pub call_message :
    (cfg : Config) (w : World) (m : ℕ)
    → (m == 0) ≡ false
    → (m == sccrq) ≡ false
    → (m == sccrp) ≡ false
    → (m == scccn) ≡ false
    → finish_message cfg w m ≡ finish_call_message cfg w m
unfolding finish_message
call_message cfg w m a b c d = rw (a, b, c, d) refl

-- The state stays, or the diagram has an arrow to the new one.
abbrev pub Follows : World → World → Type 0
Follows w w' =
    (w'.session.tunnel.state ≡ w.session.tunnel.state)
    ⊎ (w.session.tunnel.state ⟶ w'.session.tunnel.state)

-- A message that the state machine admits moves a tunnel only along an arrow of the diagram: an
-- SCCRQ from the start or from a request of our own, an SCCRP from that request, and an SCCCN from
-- the reply to the peer's request. That is so whatever is configured and however it ends.
pub control_finish-Follows :
    (cfg : Config) (w : World) (m : ℕ)
    → (cur w.session).msgtype ≡ pos m
    → admits w.session m ≡ true
    → AnyWorld (Follows w) (control_finish cfg w)
unfolding control_finish finish_type
control_finish-Follows cfg w m type h =
    subst (λ (t : ℤ). AnyWorld (Follows w) (finish_type cfg w t)) (sym type)
      (elim (admitted_type w.session m h) [
        | inl k ↦
            AnyWorld-map (λ w' move. edge w.session m w'.session.tunnel.state h move.state k)
              (finish_message cfg w m) (finish_message-Moves cfg w m)
        | inr (a, b, c, d) ↦
            AnyWorld-map (λ w' (same : SameCore w w'). inl same.state) (finish_message cfg w m)
              (subst (SameResult w) (sym (call_message cfg w m a b c d))
                (finish_call_message-SameResult cfg w m))
      ])
