-- ===== src/Control/Check.antt =====
-- What `check_control` answers.
use xl2tpd.Base.{
  ap, sym, ◌∙◌, refl, inl, inr, Bool-cases, ℕ, ◌<◌, ◌≡◌, ◌↔◌, ◌⊎◌, arith, Bool, true, false, [],
  ◌∷◌, ltb, ◌==◌, ◌&&◌,
}
use xl2tpd.Message.{control_hdr_size}
use xl2tpd.Session.{Session, cur}
use xl2tpd.Control.{ControlHdr, control_zlb, is_old, to_u16}
use xl2tpd.Control.{Checked, check_control}
use xl2tpd.Control.Serial.{IsBefore, is_old_iff}

-- The header alone that acknowledges what has been received: it takes no number.
abbrev pub acknowledgement : Session → ControlHdr
acknowledgement s = record {
  ver = 0xc802;
  length = 12;
  tid = to_u16 s.tunnel.tid;
  cid = to_u16 (cur s).cid;
  ns = s.tunnel.control_seq_num;
  nr = s.tunnel.control_rec_seq_num;
}

-- A message, whole, whose number comes before the expected one in the order of the protocol and as
-- a plain number.
abbrev pub IsOldMessage : Session → ControlHdr → ℕ → Type 0
IsOldMessage s h len =
    (control_hdr_size < len)
    × (len ≡ h.length)
    × IsBefore h.ns s.tunnel.control_rec_seq_num
    × (h.ns < s.tunnel.control_rec_seq_num)

control_zlb_lem :
    (s : Session) → s.tunnel.control_seq_num < 65_536 → control_zlb s ≡ (acknowledgement s, s)
unfolding control_zlb
control_zlb_lem s h = ground arith

-- What is checked of a packet before its number is compared.
abbrev may_answer : Session → ControlHdr → ℕ → Bool
may_answer s h len =
    is_old h.ns s.tunnel.control_rec_seq_num && ltb control_hdr_size len && (len == h.length)

IsOldMessage-iff :
    (s : Session) (h : ControlHdr) (len : ℕ)
    → s.tunnel.control_rec_seq_num < 65_536
    → h.ns < 65_536
    → (may_answer s h len ≡ true) ↔ IsOldMessage s h len
IsOldMessage-iff s h len q r =
    let old = is_old_iff h.ns s.tunnel.control_rec_seq_num r q in
    (
      λ e.
          let i : is_old h.ns s.tunnel.control_rec_seq_num ≡ true = ground (arith, e) in
          let (before, below) = old.0 i in (ground (arith, e), ground (arith, e), before, below),
      λ (long, whole, before, below). ground (arith, long, whole, old.1 (before, below)),
    )

answered :
    (s : Session) (h : ControlHdr) (len : ℕ)
    → s.tunnel.control_seq_num < 65_536
    → may_answer s h len ≡ true
    → check_control s h len ≡ record { valid = false; session = s; sent = acknowledgement s ∷ [] }
unfolding check_control
answered s h len p e = ground (arith, control_zlb_lem s p)

silent :
    (s : Session) (h : ControlHdr) (len : ℕ)
    → may_answer s h len ≡ false
    → (check_control s h len).sent ≡ []
unfolding check_control
silent s h len e = ground arith

-- Whatever packet is checked: an acknowledgement is sent at once exactly if it is a whole message whose
-- number comes before the expected one both in the order modulo 65536 and as a plain number, and
-- else nothing is sent. Where something is sent the packet is refused and the tunnel and all its
-- calls are as they were.
pub check_control_answers :
    (s : Session) (h : ControlHdr) (len : ℕ)
    → s.tunnel.control_seq_num < 65_536
    → s.tunnel.control_rec_seq_num < 65_536
    → h.ns < 65_536
    → let k = check_control s h len in
      ((k.sent ≡ acknowledgement s ∷ []) ↔ IsOldMessage s h len)
      × ((k.sent ≡ []) ↔ ¬ (IsOldMessage s h len))
      × ((k.sent ≡ []) ⊎ ((k.valid ≡ false) × (k.session ≡ s)))
check_control_answers s h len p q r =
    let old = IsOldMessage-iff s h len q r in
    elim (Bool-cases (may_answer s h len)) [
      | inl e ↦
          let sent = ap (λ (k : Checked). k.sent) (answered s h len p e) in
          (
            (λ f. old.0 e, λ o. sent),
            (λ f. absurd (some_sent (sym sent ∙ f)), λ none_old. absurd (none_old (old.0 e))),
            inr (rw (answered s h len p e) (refl, refl)),
          )
      | inr e ↦
          let sent = silent s h len e in
          (
            (λ f. absurd (some_sent (sym f ∙ sent)), λ o. absurd (not_both e (old.1 o))),
            (λ f o. not_both e (old.1 o), λ none_old. sent),
            inl sent,
          )
    ]
  where
    some_sent : ¬ (acknowledgement s ∷ [] ≡ [])
    some_sent e = cc e

    not_both : {b : Bool} → b ≡ false → b ≡ true → ⊥
    not_both e f = ground (arith, e, f)

-- A message that was received before and whose number comes before the expected one, but is
-- greater as a plain number since the numbers have gone round, is refused without an answer: the
-- peer, whose acknowledgement was lost, hears nothing until it gives up.
repeated_after_wrap :
    (s : Session) (h : ControlHdr) (len : ℕ)
    → h.ns < 65_536
    → s.tunnel.control_rec_seq_num < h.ns
    → IsBefore h.ns s.tunnel.control_rec_seq_num
    → ((check_control s h len).valid ≡ false) × ((check_control s h len).sent ≡ [])
unfolding check_control
repeated_after_wrap s h len p q before = (
  ground (arith, is_old_iff h.ns s.tunnel.control_rec_seq_num p),
  ground (arith, is_old_iff h.ns s.tunnel.control_rec_seq_num p),
)
