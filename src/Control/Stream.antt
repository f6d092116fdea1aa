-- ===== src/Control/Stream.antt =====
-- What a sequence of control packets, in any order and with repetitions, delivers.
use mathlib.Core.Path.{subst}
use xl2tpd.Base.{
  ◌∙◌, ℕ, ◌+◌, ◌<◌, ◌≡◌, ◌⊎◌, refl, arith, Bool, true, false, not, ◌&&◌, if◌then◌else◌,
}
use xl2tpd.Base.{◌==◌, List, [], ◌∷◌, u16, inl, inr, minus_one}
use xl2tpd.Message.{control_hdr_size}
use xl2tpd.Session.{Session, cur, put_cur}
use xl2tpd.Control.{ControlHdr, control_zlb}
use xl2tpd.Control.{
  check_control, handle_zlb, handle_control, receive_control, good_ver, clear_vector,
}

-- The numbers go up by one from `n`, modulo 65536.
abbrev pub IsRun : ℕ → List ℕ → Type 0
IsRun n [] = Unit
IsRun n (m ∷ ms) = (m ≡ n) × IsRun (u16 (n + 1)) ms

-- A packet: its header, the length of what came, and what it holds behind the header.
abbrev pub Packet : Type 0
Packet = ControlHdr × ℕ × List ℕ

abbrev pub AllGood : List Packet → Type 0
AllGood [] = Unit
AllGood ((h, len, body) ∷ ps) = (good_ver h.ver ≡ true) × AllGood ps

rec-zlb :
    (s : Session) → (control_zlb s).1.tunnel.control_rec_seq_num ≡ s.tunnel.control_rec_seq_num
unfolding control_zlb
rec-zlb s = refl

pub check_rec :
    (s : Session) (h : ControlHdr) (len : ℕ)
    → good_ver h.ver ≡ true
    → let rec = s.tunnel.control_rec_seq_num in
      let k = check_control s h len in
      ((k.valid ≡ true) × (h.ns ≡ rec) × (k.session.tunnel.control_rec_seq_num ≡ u16 (rec + 1)))
      ⊎ ((k.valid ≡ false) × (k.session.tunnel.control_rec_seq_num ≡ rec))
unfolding check_control
check_rec s h len good = ground arith

pub zlb_rec :
    (s : Session)
    → (handle_zlb s).tunnel.control_rec_seq_num ≡ u16 (s.tunnel.control_rec_seq_num + 65_535)
unfolding handle_zlb
zlb_rec s = refl

module _ (process : List ℕ → Session → Bool × Session × List ControlHdr) where
  -- Whether `handle_control` goes on to the message in a packet.
  abbrev pub is_processed : Session → ControlHdr → ℕ → Bool
  is_processed s h len =
      (check_control (clear_vector s) h len).valid && not (len == control_hdr_size)

  -- The numbers of the messages that are processed, in the order of their processing.
  unfoldable pub delivered : Session → List Packet → List ℕ
  delivered s [] = []
  delivered s ((h, len, body) ∷ ps) =
      let rest = delivered (receive_control (process body) s h len).session ps in
      if is_processed s h len then h.ns ∷ rest else rest

  module _
      (keeps : (body : List ℕ) (s : Session)
        → (process body s).1.tunnel.control_rec_seq_num ≡ s.tunnel.control_rec_seq_num) where
    handle_rec :
        (s : Session) (h : ControlHdr) (len : ℕ) (body : List ℕ)
        → good_ver h.ver ≡ true
        → s.tunnel.control_rec_seq_num < 65_536
        → let rec = s.tunnel.control_rec_seq_num in
          let rec' = (handle_control (process body) s h len).session.tunnel.control_rec_seq_num in
          (((check_control s h len).valid && not (len == control_hdr_size) ≡ true)
            × (h.ns ≡ rec)
            × (rec' ≡ u16 (rec + 1)))
          ⊎ (((check_control s h len).valid && not (len == control_hdr_size) ≡ false)
              × (rec' ≡ rec))
    unfolding handle_control
    handle_rec s h len body good small =
        let k = check_control s h len in
        ground (
          arith,
          check_rec s h len good,
          zlb_rec k.session,
          keeps body (put_cur k.session (record (cur k.session) { msgtype = minus_one })),
        )

    receive_rec :
        (s : Session) (h : ControlHdr) (len : ℕ) (body : List ℕ)
        → (receive_control (process body) s h len).session.tunnel.control_rec_seq_num
          ≡ (handle_control
              (process body)
              (clear_vector s)
              h
              len).session.tunnel.control_rec_seq_num
    unfolding receive_control
    receive_rec s h len body =
        ground (arith, rec-zlb (handle_control (process body) (clear_vector s) h len).session)

    -- If processing a message leaves the expected number alone, and no version word is bad, then
    -- whatever packets come, in any order and however often, the messages that are processed carry
    -- the numbers from the expected one on, each exactly once and in order, modulo 65536.
    pub delivered-IsRun :
        (s : Session) (packets : List Packet)
        → s.tunnel.control_rec_seq_num < 65_536
        → AllGood packets
        → IsRun s.tunnel.control_rec_seq_num (delivered s packets)
    unfolding delivered
    delivered-IsRun s [] small good = tt
    delivered-IsRun s ((h, len, body) ∷ ps) small good =
        elim (handle_rec (clear_vector s) h len body good.0 small) [
          | inl (p, n, r) ↦ rw p (
            n,
            subst
                (λ (k : ℕ). IsRun k (delivered (receive_control (process body) s h len).session ps))
                (receive_rec s h len body ∙ r)
                (delivered-IsRun (receive_control (process body) s h len).session ps
                  (omega (arith, receive_rec s h len body, r)) good.1),
          )
          | inr (p, r) ↦ rw p (
              subst
                (λ (k : ℕ). IsRun k (delivered (receive_control (process body) s h len).session ps))
                (receive_rec s h len body ∙ r)
                (delivered-IsRun (receive_control (process body) s h len).session ps
                  (omega (arith, receive_rec s h len body, r)) good.1))
        ]
