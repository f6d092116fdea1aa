-- ===== src/Payload.antt =====
-- Data packets: `add_payload_hdr` (call.c), `check_payload`, `expand_payload` and the data part of
-- `handle_packet` (control.c).
--
-- A received packet is the bytes from `buf->start` on, with its header in the host's order, as
-- `fix_hdr` leaves it. `expand_payload` copies each field towards the front of the buffer, never
-- over one that it has still to read. A `size_t` has 64 bits.
pub mod RoundTrip
pub mod Order
pub mod Offset
mod Examples
use xl2tpd.Base.{
  ℕ, ◌+◌, ◌-◌, ◌/◌, ◌%◌, ◌^◌, Bool, true, false, not, ◌&&◌, ◌||◌, if◌then◌else◌, ltb, leb, ◌==◌,
}
use xl2tpd.Base.{List, [], ◌∷◌, ◌++◌, Option, none, some, pos, u16, be16, bit_or, drop}
use xl2tpd.Session.{Session, Call, cur, put_cur}
use xl2tpd.Control.{to_u16, is_old}
use xl2tpd.Network.{host_word}

-- `struct payload_hdr`.
pub record PayloadHdr : Type 0 where
  pub ver : ℕ
  pub length : ℕ
  pub tid : ℕ
  pub cid : ℕ
  pub ns : ℕ
  pub nr : ℕ
  pub o_size : ℕ

abbrev pub payload_hdr_size : ℕ
payload_hdr_size = 14

abbrev pub if_then : Bool → ℕ → ℕ
if_then b n = if b then n else 0

abbrev words_if : Bool → List ℕ → List ℕ
words_if b bytes = if b then bytes else []

-- The header that `add_payload_hdr` puts in front of `len` bytes, in network order.
unfoldable pub add_payload_hdr : Session → ℕ → List ℕ × Session
add_payload_hdr s len =
    let c = cur s in
    let flow = not (c.fbit == 0 && c.ourfbit == 0) in
    let long = not (c.lbit == 0) in
    (
      be16 (u16 (bit_or (bit_or (bit_or c.lbit c.fbit) c.ourfbit) 2))
          ++ (words_if long (be16 (u16 (len + 6 + if_then flow 4 + if_then long 2)))
              ++ (be16 (to_u16 s.tunnel.tid)
                  ++ (be16 (to_u16 c.cid)
                      ++ words_if flow (be16 c.data_seq_num ++ be16 c.data_rec_seq_num)))),
      put_cur s (record c { data_seq_num = u16 (c.data_seq_num + 1) }),
    )

-- PTBIT, PLBIT, PFBIT and PSBIT of the version word.
abbrev pub ptbit : ℕ → Bool
ptbit ver = not (ver / 32_768 % 2 == 0)

abbrev pub plbit : ℕ → Bool
plbit ver = not (ver / 16_384 % 2 == 0)

abbrev pub pfbit : ℕ → Bool
pfbit ver = not (ver / 2048 % 2 == 0)

abbrev pub psbit : ℕ → Bool
psbit ver = not (ver / 512 % 2 == 0)

-- `check_payload` on a packet of `len` bytes for a call; true is the result 0.
unfoldable pub check_payload : Bool → ℕ → List ℕ → Bool
unfolding host_word
check_payload sanity len buf =
    let ver = host_word 0 buf in
    let ehlen = 6 + if_then (pfbit ver) 4 + if_then (psbit ver) 2 in
    if ltb len 6
    then false
    else (if not sanity
        then true
        else (if ptbit ver
            then false
            else (if not (ver % 8 == 2)
                then false
                else (if ltb len ehlen && not (plbit ver)
                    then false
                    else not (not (len == host_word 1 buf) && plbit ver)))))

-- How many bytes of a full header are missing.
abbrev pub missing : ℕ → ℕ
missing ver =
    if_then (not (plbit ver)) 2 + if_then (not (pfbit ver)) 4 + if_then (not (psbit ver)) 2

-- The full header that `expand_payload` makes.
unfoldable pub full_hdr : Call → ℕ → List ℕ → PayloadHdr
unfolding host_word
full_hdr c len buf =
    let ver = host_word 0 buf in
    let i = 1 + if_then (plbit ver) 1 in
    let j = i + 2 + if_then (pfbit ver) 2 in
    record {
      ver = ver;
      length = if plbit ver then host_word 1 buf else u16 (len + missing ver);
      tid = host_word i buf;
      cid = host_word (i + 1) buf;
      ns = if pfbit ver then host_word (i + 2) buf else c.data_rec_seq_num;
      nr = if pfbit ver then host_word (i + 3) buf else c.data_seq_num;
      o_size = if psbit ver then host_word j buf else 0;
    }

abbrev pub payload_fudge : ℕ
payload_fudge = 2

-- The sequence numbers of a call after a packet; `none` is -EINVAL.
unfoldable pub accept_ns : Call → ℕ → Option Call
accept_ns c ns =
    if not (ns == c.data_seq_num)
    then (if is_old ns c.data_rec_seq_num
        then none
        else (if leb ns (c.data_rec_seq_num + payload_fudge)
            then some (record c { data_rec_seq_num = ns })
            else none))
    else some (record c { data_rec_seq_num = u16 (c.data_rec_seq_num + 1); pnu = true })

-- `expand_payload` on a buffer with `room` bytes in front of the packet: the full header, the
-- packet's length with it, and the call.
unfoldable pub expand_payload : Session → ℕ → ℕ → List ℕ → Option (PayloadHdr × ℕ × Session)
unfolding full_hdr accept_ns
expand_payload s room len buf =
    let ehlen = missing (host_word 0 buf) in
    let h = full_hdr (cur s) len buf in
    if ltb room ehlen then none else elim (accept_ns (cur s) h.ns) [
      | none ↦ none
      | some c ↦ some (h, len + ehlen, put_cur s (record c { plr = pos h.nr }))
    ]

-- What a data packet comes to: an error; a payload ZLB; or data for `write_packet`, which skips
-- the header and the offset, with the length that is left as a `size_t`.
pub data Payload : Type 0 where
  bad : Session → Payload
  zlb : Session → Payload
  payload : ℕ → ℕ → Session → Payload

-- `a - b` for `size_t`.
abbrev pub sub_size : ℕ → ℕ → ℕ
sub_size a b = (a + 2 ^ 64 - b) % 2 ^ 64

-- `handle_packet` on a data packet. A payload has its offset and its length.
unfoldable pub handle_payload : Session → ℕ → ℕ → List ℕ → Payload
unfolding check_payload expand_payload
handle_payload s room len buf =
    if not (check_payload s.tunnel.sanity len buf)
    then bad s
    else elim (expand_payload s room len buf) [
      | none ↦ bad s
      | some (h, n, s') ↦
          if ltb payload_hdr_size n
          then payload h.o_size (sub_size n (payload_hdr_size + h.o_size)) s'
          else (if n == payload_hdr_size
              then (let c = cur s' in
                  zlb (
                    put_cur s' (record c { data_rec_seq_num = u16 (c.data_rec_seq_num + 65_535) })))
              else bad s')
    ]
