-- ===== src/Payload/Offset.antt =====
-- The offset of a data packet is not checked against its length.
use xl2tpd.Base.{
  Bool-cases, inl, inr, ◌==◌, ℕ, ◌+◌, ◌-◌, ◌^◌, ◌≤◌, ◌<◌, ◌≡◌, refl, arith, true, List, ◌∷◌, length,
  some, u16, pos,
}
use xl2tpd.Session.{Session, Call, cur, put_cur}
use xl2tpd.Control.{is_old}
use xl2tpd.Network.{host_word, load}
use xl2tpd.Payload.{
  missing, PayloadHdr, payload, handle_payload, check_payload, expand_payload, full_hdr, accept_ns,
}

-- Without sequence numbers in the packet, a call always takes it.
own_taken : (c : Call) → (c' : Call) × (accept_ns c c.data_rec_seq_num ≡ some c')
unfolding accept_ns is_old
own_taken c = elim (Bool-cases (c.data_rec_seq_num == c.data_seq_num)) [
  | inl e ↦
      (record c { data_rec_seq_num = u16 (c.data_rec_seq_num + 1); pnu = true }, ground (arith, e))
  | inr e ↦ (c, ground (arith, e))
]

module _ (s : Session) (room t0 t1 c0 c1 o0 o1 : ℕ) (rest : List ℕ) where
  abbrev packet : List ℕ
  packet = 2 ∷ 2 ∷ t0 ∷ t1 ∷ c0 ∷ c1 ∷ o0 ∷ o1 ∷ rest

  checked : check_payload s.tunnel.sanity (8 + length rest) packet ≡ true
  unfolding check_payload
  checked = ground arith

  abbrev expected_hdr : PayloadHdr
  expected_hdr = record {
    ver = 514;
    length = u16 (8 + length rest + 6);
    tid = load t0 t1;
    cid = load c0 c1;
    ns = (cur s).data_rec_seq_num;
    nr = (cur s).data_seq_num;
    o_size = load o0 o1;
  }

  own_hdr : full_hdr (cur s) (8 + length rest) packet ≡ expected_hdr
  unfolding full_hdr
  own_hdr = refl

  own_missing : missing (host_word 0 packet) ≡ 6
  unfolding host_word
  own_missing = refl

  expanded :
      (c' : Call)
      → 6 ≤ room
      → accept_ns (cur s) (cur s).data_rec_seq_num ≡ some c'
      → expand_payload s room (8 + length rest) packet
        ≡ some (
          expected_hdr,
          8 + length rest + 6,
          put_cur s (record c' { plr = pos (cur s).data_seq_num }),
        )
  unfolding expand_payload
  expanded c' h e = rw (expand_payload, own_missing, own_hdr, e) (ground (arith, h))

  handed :
      (s' : Session)
      → 0 < length rest
      → length rest < load o0 o1
      → o0 < 256
      → o1 < 256
      → expand_payload s room (8 + length rest) packet
        ≡ some (expected_hdr, 8 + length rest + 6, s')
      → handle_payload s room (8 + length rest) packet
        ≡ payload (load o0 o1) (2 ^ 64 + length rest - load o0 o1) s'
  unfolding handle_payload
  handed s' some_data beyond small_0 small_1 e = rw (handle_payload, checked, e) (ground arith)

-- A data packet on any call, without a length and sequence numbers, that has some data and states
-- an offset beyond it, passes every check; what `write_packet` then takes for the length of the
-- data is the difference of two `size_t`, which wraps to nearly 2 ^ 64.
offset_unchecked :
    (s : Session) (room t0 t1 c0 c1 o0 o1 : ℕ) (rest : List ℕ)
    → 6 ≤ room
    → 0 < length rest
    → length rest < load o0 o1
    → o0 < 256
    → o1 < 256
    → (s' : Session) × (handle_payload s room
          (8 + length rest)
          (2 ∷ 2 ∷ t0 ∷ t1 ∷ c0 ∷ c1 ∷ o0 ∷ o1 ∷ rest)
        ≡ payload (load o0 o1) (2 ^ 64 + length rest - load o0 o1) s')
offset_unchecked s room t0 t1 c0 c1 o0 o1 rest space some_data beyond small_0 small_1 =
    let (c', e) = own_taken (cur s) in
    let s' = put_cur s (record c' { plr = pos (cur s).data_seq_num }) in
    (
      s',
      handed s room t0 t1 c0 c1 o0 o1 rest s' some_data beyond small_0 small_1
          (expanded s room t0 t1 c0 c1 o0 o1 rest c' space e),
    )
