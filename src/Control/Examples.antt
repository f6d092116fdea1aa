-- ===== src/Control/Examples.antt =====
-- Packets given to `check_control` and `receive_control`, and the theorems at concrete inputs.
use xl2tpd.Base.{ℕ, ◌<◌, ◌≡◌, ◌↔◌, ◌⊎◌, refl, arith, true, false, List, [], ◌∷◌}
use xl2tpd.Session.{Session}
use xl2tpd.Sample.{new_session, new_tunnel}
use xl2tpd.Control.{ControlHdr, is_old, check_control, handle_control, receive_control}
use xl2tpd.Control.Serial.{IsBefore, is_old_iff}
use xl2tpd.Control.Check.{acknowledgement, IsOldMessage, check_control_answers}
use xl2tpd.Control.Stream.{Packet, delivered}

abbrev packet : ℕ → ControlHdr
packet n = record { ver = 0xc802; length = 20; tid = 5; cid = 0; ns = n; nr = 3 }

-- A tunnel that expects a number, and has sent the four messages before its own.
abbrev expecting : ℕ → Session
expecting n = record new_session {
  tunnel = record new_tunnel { control_rec_seq_num = n; control_seq_num = 4 };
}

is_old_iff_example : (is_old 7 9 ≡ true) ↔ (IsBefore 7 9 × (7 < 9))
is_old_iff_example = is_old_iff 7 9 (omega arith) (omega arith)

-- A repeated message before the numbers go round is answered.
repeated_answered :
    (check_control (expecting 9) (packet 7) 20).sent
    ≡ record { ver = 0xc802; length = 12; tid = 65_535; cid = 0; ns = 4; nr = 9 } ∷ []
unfolding check_control
repeated_answered = refl

check_control_answers_example :
    let k = check_control (expecting 9) (packet 7) 20 in
    ((k.sent ≡ acknowledgement (expecting 9) ∷ []) ↔ IsOldMessage (expecting 9) (packet 7) 20)
    × ((k.sent ≡ []) ↔ ¬ (IsOldMessage (expecting 9) (packet 7) 20))
    × ((k.sent ≡ []) ⊎ ((k.valid ≡ false) × (k.session ≡ expecting 9)))
check_control_answers_example =
    check_control_answers (expecting 9) (packet 7) 20 (omega arith) (omega arith) (omega arith)

abbrev arrivals : List Packet
arrivals =
    (packet 65_535, 20, 1 ∷ [])
    ∷ (packet 1, 20, 1 ∷ [])
    ∷ (packet 65_535, 20, 1 ∷ [])
    ∷ (packet 0, 20, 1 ∷ [])
    ∷ []

in_order : delivered (λ body s. (false, s, [])) (expecting 65_535) arrivals ≡ 65_535 ∷ 0 ∷ []
unfolding delivered receive_control handle_control check_control
in_order = refl
