-- ===== src/Control/Serial.antt =====
-- Sequence numbers of the control connection against the order modulo 65536.
use xl2tpd.Base.{ℕ, ◌+◌, ◌-◌, ◌%◌, ◌<◌, ◌≡◌, ◌↔◌, arith, true}
use xl2tpd.Control.{is_old}

-- `n` comes before `m` by less than half the number space.
abbrev pub IsBefore : ℕ → ℕ → Type 0
IsBefore n m = (0 < (m + 65_536 - n) % 65_536) × ((m + 65_536 - n) % 65_536 < 32_768)

-- `check_control` takes a number for an old one exactly when it comes before the expected one in
-- the order of the protocol, and is smaller as a plain number too: where the numbers have just
-- gone round, an old one is not known as such, since the difference of two `_u16` is an `int` and
-- never above 32768 if it is negative.
pub is_old_iff :
    (ns expected : ℕ)
    → ns < 65_536
    → expected < 65_536
    → (is_old ns expected ≡ true) ↔ (IsBefore ns expected × (ns < expected))
unfolding is_old
is_old_iff ns expected p q = (λ h. ground arith, λ h. ground arith)
