-- ===== src/Daemon/Refused.antt =====
-- A message type without the mandatory bit: its refusal is passed over.
use xl2tpd.Base.{ℕ, suc, ◌-◌, ◌≡◌, refl, ap, ap₂, ◌∙◌, arith, true, false}
use xl2tpd.Base.{List, ◌++◌, some, be16, pos, drop, ltb, ◌||◌, elem, ◌%◌, ◌^◌, ◌<◌}
use xl2tpd.Base.{Bool-cases, Option, ◌≤◌, ◌/◌, ◌⊎◌, inl, inr, from_be16, from_be16-be16}
use xl2tpd.Message.{max_msg, unnamed_msgs}
use xl2tpd.Session.{Session, Env, cur, put_cur}
use xl2tpd.Avp.Raw.{Reply, ok, einval}
use xl2tpd.Avp.MessageType.{message_type_avp, sane}
use xl2tpd.Avp.Loop.{avp_round, avp_loop, handle_avps}
use xl2tpd.Avp.NullHead.{plain_avp}
use xl2tpd.World.{Config, World, put_session}
use xl2tpd.Finish.{control_finish}
use xl2tpd.Daemon.{Packet, finish, process}

-- The session in which the refused type is recorded.
abbrev pub typed : Session → ℕ → Session
typed s m = put_cur s (record (cur s) { msgtype = pos m })

-- A type that is refused: it has no name, or the state machine does not expect it.
abbrev pub IsRefused : Session → ℕ → Type 0
IsRefused s m =
    ((ltb max_msg m || elem m unnamed_msgs) ≡ true)
    ⊎ ((s.tunnel.sanity ≡ true) × (sane (typed s m) m ≡ false))

read_type : (m : ℕ) → m < 2 ^ 16 → from_be16 (m / 256 % 256) (m % 256) ≡ m
read_type m small = from_be16-be16 m small

refused_type :
    (env : Env) (s : Session) (m : ℕ) (rest : List ℕ)
    → m < 2 ^ 16
    → IsRefused s m
    → message_type_avp env s (record { length_word = 8; body = be16 m ++ rest }) 8
      ≡ einval (typed s m)
unfolding message_type_avp
refused_type env s m rest small (inl h) = rw (read_type m small, h) refl
refused_type env s m rest small (inr (sanity, h)) =
    elim (Bool-cases (ltb max_msg m || elem m unnamed_msgs)) [
      | inl e ↦ rw (read_type m small, e) refl
      | inr e ↦ rw (read_type m small, e, sanity, h) refl
    ]

refused_round :
    (env : Env) (len : ℕ) (s : Session) (m : ℕ) (more : List ℕ) (k : Session → ℕ → Option Reply)
    → 8 ≤ len
    → m < 2 ^ 16
    → IsRefused s m
    → avp_round env true len s (plain_avp 0 m ++ more) k ≡ k (typed s m) 8
unfolding avp_round
refused_round env len s m more k fits small refused =
    ground (arith, refused_type env s m more small refused)

refused_handled :
    (env : Env) (s : Session) (m : ℕ) (more : List ℕ)
    → m < 2 ^ 16
    → IsRefused s m
    → handle_avps env 21 s 20 (plain_avp 0 m ++ more) ≡ some (ok (typed s m))
unfolding handle_avps avp_loop
refused_handled env s m more small refused =
    refused_round env 8 s m more
      (λ s' n. avp_loop env 20 false (8 - n) s' (drop n (plain_avp 0 m ++ more))) (omega arith)
      small refused

-- A control message that is a message type alone, without the mandatory bit, is finished as that
-- type also where the type is refused: because it has no name, as 0 has none, or because the state
-- machine does not expect it.
pub refused_is_finished :
    (cfg : Config) (w : World) (p : Packet) (m : ℕ) (more : List ℕ)
    → p.size ≡ 20
    → p.body ≡ plain_avp 0 m ++ more
    → m < 2 ^ 16
    → IsRefused w.session m
    → process cfg w p ≡ control_finish cfg (put_session w (typed w.session m))
unfolding process finish
refused_is_finished cfg w p m more size body small refused =
    ap₂ (λ (n : ℕ) (b : List ℕ). finish cfg w (handle_avps cfg.env (suc n) w.session n b)) size body
    ∙ ap (finish cfg w) (refused_handled cfg.env w.session m more small refused)
