-- ===== src/Network/Examples.antt =====
-- Messages given to `control_xmit` and headers given to `fix_hdr`, and the theorems at concrete
-- inputs.
use xl2tpd.Base.{ℕ, ◌≡◌, refl, arith, List, [], ◌∷◌}
use xl2tpd.Session.{Session}
use xl2tpd.Sample.{new_session, new_tunnel}
use xl2tpd.Network.{close, fix_hdr, host_word, extract}
use xl2tpd.Network.Resend.{course, delays, IsGivenUp, course_unacknowledged}
use xl2tpd.Network.Header.{fix_hdr_control}

course_unacknowledged_example :
    (s' : Session) × (course 6 5 new_session 0 2 ≡ (1 ∷ 2 ∷ 4 ∷ 8 ∷ 16 ∷ [], close s'))
    × (◌≡◌ {A = ℕ} 5 5)
    × IsGivenUp (new_session.calls 0) (s'.calls 0)
    × (s'.calls 1 ≡ new_session.calls 1)
    × (s'.tunnel ≡ new_tunnel)
unfolding delays
course_unacknowledged_example =
    course_unacknowledged 5 6 new_session 2 1 (omega arith) (omega arith) (λ e. omega (arith, e))

abbrev at_the_end : Session
at_the_end = record new_session { tunnel = record new_tunnel { clr = 65_535 } }

-- A control message without the bit for sequence numbers.
abbrev short_bits : List ℕ
short_bits = 0xc0 ∷ 2 ∷ 0 ∷ 12 ∷ 0 ∷ 5 ∷ 0 ∷ 0 ∷ 0 ∷ 1 ∷ 0 ∷ 2 ∷ []

abbrev scccn_header : List ℕ
scccn_header = 0xc8 ∷ 2 ∷ 0 ∷ 20 ∷ 0 ∷ 5 ∷ 0 ∷ 0 ∷ 0 ∷ 1 ∷ 0 ∷ 2 ∷ []

fix_hdr_control_example :
    let h = fix_hdr scccn_header in
    (host_word 0 h ≡ 0xc802)
    × (host_word 1 h ≡ 20)
    × (host_word 4 h ≡ 1)
    × (host_word 5 h ≡ 2)
    × (extract h ≡ (5, 0))
fix_hdr_control_example = fix_hdr_control 0xc8 2 0 20 0 5 0 0 0 1 0 2 [] refl refl refl
