-- ===== src/Payload/Examples.antt =====
-- Data packets at concrete inputs.
use xl2tpd.Base.{◌≡◌, refl, arith, true, [], ◌∷◌, inl, inr, none, pos}
use xl2tpd.Session.{Session, Call, fresh_call}
use xl2tpd.Sample.{new_tunnel, new_session}
use xl2tpd.Payload.{check_payload, full_hdr}
use xl2tpd.Payload.Order.{taken, in_order_taken}
use xl2tpd.Payload.RoundTrip.{received, full_hdr-add_payload_hdr}

-- A call that has received packet 65534, and sends 9 next.
abbrev near_wrap : Call
near_wrap = record (fresh_call none none 0) { data_rec_seq_num = 65_534; data_seq_num = 9 }

abbrev early : Call
early = record (fresh_call none none 0) { data_rec_seq_num = 4; data_seq_num = 90 }

in_order_taken_example : (taken near_wrap (65_535 ∷ 0 ∷ 1 ∷ [])).data_rec_seq_num ≡ 1
in_order_taken_example = in_order_taken 3 near_wrap (omega arith)

-- A call that numbers its packets and gives their length.
abbrev numbering : Session
numbering = record new_session {
  tunnel = record new_tunnel { tid = pos 7 };
  calls = λ a. record (fresh_call none none 0) {
    lbit = 0x4000;
    fbit = 0x800;
    cid = pos 3;
    data_seq_num = 300;
    data_rec_seq_num = 20;
  };
}

full_hdr-add_payload_hdr_example :
    let h = full_hdr early 14 (received numbering (1 ∷ 2 ∷ [])) in
    (check_payload true 14 (received numbering (1 ∷ 2 ∷ [])) ≡ true)
    × (h.tid ≡ 7)
    × (h.cid ≡ 3)
    × (h.o_size ≡ 0)
    × (h.ns ≡ 300)
    × (h.nr ≡ 20)
full_hdr-add_payload_hdr_example =
    full_hdr-add_payload_hdr numbering early (1 ∷ 2 ∷ []) 7 3 (inr refl, inr refl, inl refl) refl
      refl (omega arith) (omega arith) (omega arith) (omega arith) (omega arith)
