-- ===== src/Payload/RoundTrip.antt =====
-- A data packet from its sender's `add_payload_hdr` to the receiver's `expand_payload`.
use xl2tpd.Base.{
  ℕ, ◌+◌, ◌/◌, ◌%◌, ◌<◌, ◌≡◌, ◌⊎◌, inl, inr, arith, Bool, true, not, ◌==◌, ◌&&◌, if◌then◌else◌,
  List, ◌++◌, length, pos,
}
use xl2tpd.Session.{Session, Call, cur}
use xl2tpd.Network.{host_word, load, fix_hdr, fix_len, swaps}
use xl2tpd.Payload.{add_payload_hdr, check_payload, full_hdr, if_then}

-- What a call sends: a length or none, and sequence numbers or none.
abbrev pub IsFlags : Call → Type 0
IsFlags c =
    ((c.lbit ≡ 0) ⊎ (c.lbit ≡ 0x4000))
    × ((c.fbit ≡ 0) ⊎ (c.fbit ≡ 0x800))
    × ((c.ourfbit ≡ 0) ⊎ (c.ourfbit ≡ 0x800))

abbrev pub has_length : Call → Bool
has_length c = not (c.lbit == 0)

abbrev pub has_flow : Call → Bool
has_flow c = not (c.fbit == 0 && c.ourfbit == 0)

-- The packet at the receiver, behind `fix_hdr`.
abbrev pub received : Session → List ℕ → List ℕ
received s body = fix_hdr ((add_payload_hdr s (length body)).0 ++ body)

word_back : (n : ℕ) → n < 65_536 → load (n % 256) (n / 256 % 256) ≡ n
word_back n h = omega arith

module _ (s : Session) (r : Call) (body : List ℕ) (tid cid : ℕ) where
  -- A data packet as a call sends it, with a length or none and with sequence numbers or none, is
  -- read as it was meant: behind `fix_hdr` it passes `check_payload`, and the full header that
  -- `expand_payload` makes has the tunnel and the call that it was sent to, the sender's numbers
  -- if it has them and else the receiver's own, and no offset. Its data may fill 65523 bytes.
  pub full_hdr-add_payload_hdr :
      IsFlags (cur s)
      → s.tunnel.tid ≡ pos tid
      → (cur s).cid ≡ pos cid
      → tid < 65_536
      → cid < 65_536
      → (cur s).data_seq_num < 65_536
      → (cur s).data_rec_seq_num < 65_536
      → length body + 12 < 65_536
      → let n = length body + 6 + if_then (has_flow (cur s)) 4 + if_then (has_length (cur s)) 2 in
        let h = full_hdr r n (received s body) in
        (check_payload true n (received s body) ≡ true)
        × (h.tid ≡ tid)
        × (h.cid ≡ cid)
        × (h.o_size ≡ 0)
        × (h.ns ≡ (if has_flow (cur s) then (cur s).data_seq_num else r.data_rec_seq_num))
        × (h.nr ≡ (if has_flow (cur s) then (cur s).data_rec_seq_num else r.data_seq_num))
  unfolding add_payload_hdr full_hdr check_payload fix_hdr fix_len swaps host_word
  full_hdr-add_payload_hdr (inl l, inl f, inl o) t c small_t small_c small_n small_r small =
      rw (l, f, o, t, c) (ground arith)
  full_hdr-add_payload_hdr (inl l, inl f, inr o) t c small_t small_c small_n small_r small =
      rw (l, f, o, t, c) (ground arith)
  full_hdr-add_payload_hdr (inl l, inr f, inl o) t c small_t small_c small_n small_r small =
      rw (l, f, o, t, c) (ground arith)
  full_hdr-add_payload_hdr (inl l, inr f, inr o) t c small_t small_c small_n small_r small =
      rw (l, f, o, t, c) (ground arith)
  full_hdr-add_payload_hdr (inr l, inl f, inl o) t c small_t small_c small_n small_r small =
      rw (l, f, o, t, c) (ground arith)
  full_hdr-add_payload_hdr (inr l, inl f, inr o) t c small_t small_c small_n small_r small =
      rw (l, f, o, t, c) (ground arith)
  full_hdr-add_payload_hdr (inr l, inr f, inl o) t c small_t small_c small_n small_r small =
      rw (l, f, o, t, c) (ground arith)
  full_hdr-add_payload_hdr (inr l, inr f, inr o) t c small_t small_c small_n small_r small =
      rw (l, f, o, t, c) (ground arith)
