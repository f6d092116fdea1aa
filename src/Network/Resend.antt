-- ===== src/Network/Resend.antt =====
-- How often a control message is sent, and when it is given up.
use xl2tpd.Base.{
  ℕ, zero, suc, ◌+◌, ◌^◌, ◌≤◌, ◌<◌, ◌≡◌, ◌≢◌, ◌⊎◌, inl, inr, Bool-cases, refl, ap, arith, min, true,
  false,
}
use xl2tpd.Base.{List, [], ◌∷◌, length}
use xl2tpd.Session.{Session, Call, formatted}
use xl2tpd.Control.Serial.{IsBefore}
use xl2tpd.Network.{Xmit, toss, close, resend, control_xmit, give_up}

-- The calls of `control_xmit` for one message that the peer never acknowledges: the delays after
-- each sending, and how it ends.
abbrev Course : Type 0
Course = List ℕ × Xmit

abbrev sent_first : ℕ → Course → Course
sent_first delay (delays, end) = (delay ∷ delays, end)

unfoldable pub course : ℕ → ℕ → Session → ℕ → ℕ → Course
course zero max s retries ns = ([], toss)
course (suc fuel) max s retries ns = elim (control_xmit max s true retries ns) [
  | toss ↦ ([], toss)
  | close s' ↦ ([], close s')
  | resend delay retries' ↦ sent_first delay (course fuel max s retries' ns)
]

-- The delays double.
unfoldable pub delays : ℕ → ℕ → List ℕ
delays zero k = []
delays (suc n) k = 2 ^ min k 31 ∷ delays n (k + 1)

length-delays : (n k : ℕ) → length (delays n k) ≡ n
unfolding delays
length-delays zero k = refl
length-delays (suc n) k = ap suc (length-delays n (k + 1))

pub course_lem :
    (left fuel max : ℕ) (s : Session) (retries ns : ℕ)
    → s.tunnel.clr ≤ ns
    → retries + left ≡ max
    → left < fuel
    → course fuel max s retries ns ≡ (delays left retries, close (give_up s))
unfolding course delays control_xmit
course_lem left zero max s retries ns a b c = elim c [ ]
course_lem zero (suc fuel) max s retries ns a b c = ground arith
course_lem (suc left) (suc fuel) max s retries ns a b c =
    ground (arith, course_lem left fuel max s (retries + 1) ns a)

-- The tunnel's own call in two states. If it was closing, the closing message could not be delivered,
-- and it is to be destroyed without one; else a closing message is to be sent, with the text "Timeout".
abbrev pub IsGivenUp : Call → Call → Type 0
IsGivenUp c c' =
    ((c.needclose ≡ true) × (c' ≡ record c { needclose = false; closing = true }))
    ⊎ ((c.needclose ≡ false)
        × (c' ≡ record c { errormsg = formatted "Timeout" []; needclose = true }))

give_up-IsGivenUp :
    (s : Session) → IsGivenUp (s.calls s.tunnel.self) ((give_up s).calls s.tunnel.self)
unfolding give_up
give_up-IsGivenUp s = elim (Bool-cases (s.calls s.tunnel.self).needclose) [
  | inl e ↦ inl (e, ground (arith, e))
  | inr e ↦ inr (e, ground (arith, e))
]

give_up-others : (s : Session) (a : ℕ) → a ≢ s.tunnel.self → (give_up s).calls a ≡ s.calls a
unfolding give_up
give_up-others s a other = ground (arith, other)

give_up-tunnel : (s : Session) → (give_up s).tunnel ≡ s.tunnel
unfolding give_up
give_up-tunnel s = ground arith

-- A message of a tunnel that is never acknowledged is sent as often as `max_retries` says, with the
-- delays doubling from 1 up to 2 ^ 31 seconds and no other limit to them. Then `call_close` is called
-- for the tunnel: if it was closing it is to be destroyed without a message, else with a closing
-- message of the text "Timeout". The tunnel and its other calls are as they were. One more call of
-- `control_xmit` than there are sendings is made.
pub course_unacknowledged :
    (max fuel : ℕ) (s : Session) (ns a : ℕ)
    → s.tunnel.clr ≤ ns
    → max < fuel
    → a ≢ s.tunnel.self
    → (s' : Session) × (course fuel max s 0 ns ≡ (delays max 0, close s'))
      × (length (delays max 0) ≡ max)
      × IsGivenUp (s.calls s.tunnel.self) (s'.calls s.tunnel.self)
      × (s'.calls a ≡ s.calls a)
      × (s'.tunnel ≡ s.tunnel)
course_unacknowledged max fuel s ns a p q other = (
  give_up s,
  course_lem max fuel max s 0 ns p (omega arith) q,
  length-delays max 0,
  give_up-IsGivenUp s,
  give_up-others s a other,
  give_up-tunnel s,
)

-- A message that was not sent yet, and whose number comes after the last one that the peer has
-- acknowledged but is smaller as a plain number since the numbers have gone round, is thrown away
-- without being sent.
unsent_tossed :
    (max : ℕ) (s : Session) (ns : ℕ)
    → s.tunnel.clr < 65_536
    → IsBefore s.tunnel.clr ns
    → ns < s.tunnel.clr
    → control_xmit max s true 0 ns ≡ toss
unfolding control_xmit
unsent_tossed max s ns small before below = ground arith
