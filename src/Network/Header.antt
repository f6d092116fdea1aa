-- ===== src/Network/Header.antt =====
-- Which words of a header are in host order behind `fix_hdr`.
use xl2tpd.Base.{ℕ, ◌/◌, ◌%◌, ◌^◌, ◌<◌, ◌≡◌, refl, arith, true, false, not, ◌==◌, List, ◌∷◌}
use xl2tpd.Network.{load, bit, fix_len, fix_hdr, host_word, extract}

-- The high bit of a word as it is loaded is that of its second byte in the packet.
high_bit : (a b : ℕ) → a < 256 → b < 128 → bit 15 (load a b) ≡ false
high_bit a b p q = eq_zero→ (load a b / 2 ^ 15 % 2) (omega arith)
  where
    eq_zero→ : (n : ℕ) → n ≡ 0 → not (n == 0) ≡ false
    eq_zero→ n e = rw e

module _ (v0 v1 l0 l1 t0 t1 c0 c1 s0 s1 r0 r1 : ℕ) (rest : List ℕ) where
  abbrev packet : List ℕ
  packet = v0 ∷ v1 ∷ l0 ∷ l1 ∷ t0 ∷ t1 ∷ c0 ∷ c1 ∷ s0 ∷ s1 ∷ r0 ∷ r1 ∷ rest

  -- A header with the bits for a length and for sequence numbers, and none for an offset, as every
  -- control message that conforms has, is turned whole into host order: the host loads each of
  -- its six words as the value that the network order states, and `extract` finds the tunnel and
  -- the call in the third and the fourth.
  pub fix_hdr_control :
      bit 14 (load v1 v0) ≡ true
      → bit 11 (load v1 v0) ≡ true
      → bit 9 (load v1 v0) ≡ false
      → let h = fix_hdr packet in
        (host_word 0 h ≡ load v1 v0)
        × (host_word 1 h ≡ load l1 l0)
        × (host_word 4 h ≡ load s1 s0)
        × (host_word 5 h ≡ load r1 r0)
        × (extract h ≡ (load t1 t0, load c1 c0))
  unfolding fix_hdr extract
  fix_hdr_control len seq off = ground arith

  -- A control message without the bit for sequence numbers is told apart by the wrong byte: with
  -- a clear high bit in the second byte, its sequence numbers are left in network order.
  fix_hdr_misses :
      bit 14 (load v1 v0) ≡ true
      → bit 11 (load v1 v0) ≡ false
      → bit 9 (load v1 v0) ≡ false
      → v0 < 256
      → v1 < 128
      → (host_word 4 (fix_hdr packet) ≡ load s0 s1) × (host_word 5 (fix_hdr packet) ≡ load r0 r1)
  unfolding fix_hdr host_word
  fix_hdr_misses len seq off small high =
      rw (fix_hdr, fix_len, len, seq, off, high_bit v0 v1 small high) (refl, refl)
