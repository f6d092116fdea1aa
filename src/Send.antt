-- ===== src/Send.antt =====
-- avpsend.c: adding an AVP to an outgoing control message.
--
-- `content` is the bytes from `buf->start` on, as many as `buf->len`, and `room` how many there are
-- from `buf->start` to the end of the memory. The code does not check for an overrun: one is `none`.
pub mod Encode
pub mod Walk
pub mod Closing
pub mod Written
pub mod Receive
pub mod Deliver
mod Examples
use xl2tpd.Base.{ℕ, ◌+◌, ◌-◌, ◌/◌, ◌%◌, ◌^◌, min, Bool, true, false, if◌then◌else◌, ltb, leb, ◌==◌}
use xl2tpd.Base.{List, [], ◌∷◌, ◌++◌, Option, none, some, length, take, be16, ℤ, pos, negsuc, u16}

pub record Buffer : Type 0 where
  pub content : List ℕ
  pub room : ℕ

-- Bytes written behind the content, which then count, and bytes behind those which do not.
unfoldable pub emit : List ℕ → ℕ → Buffer → Option Buffer
emit bytes behind b =
    if leb (length b.content + length bytes + behind) b.room
    then some (record b { content = b.content ++ bytes })
    else none

-- `length | MBIT` for a `_u16`.
abbrev pub with_mbit : ℕ → ℕ
with_mbit n = n % 32_768 + 32_768

-- The three words of a header; the vendor is 0.
unfoldable pub add_nonmandatory_header : ℕ → ℕ → List ℕ
add_nonmandatory_header len type = be16 len ++ (be16 0 ++ be16 type)

unfoldable pub add_header : ℕ → ℕ → List ℕ
unfolding add_nonmandatory_header
add_header len type = add_nonmandatory_header (with_mbit len) type

-- The 32 bits of an `int`, in two words.
abbrev pub bits_32 : ℤ → ℕ
bits_32 (pos n) = n % 2 ^ 32
bits_32 (negsuc n) = 2 ^ 32 - 1 - n % 2 ^ 32

abbrev pub be32 : ℕ → List ℕ
be32 n = be16 (n / 65_536 % 65_536) ++ be16 (n % 65_536)

-- The AVPs of one 16-bit value.
unfoldable pub add_word : List ℕ → ℕ → Buffer → Option Buffer
unfolding emit
add_word header value b = emit (header ++ be16 value) 0 b

-- The AVPs of one 32-bit value.
unfoldable pub add_long : List ℕ → ℕ → Buffer → Option Buffer
unfolding emit
add_long header value b = emit (header ++ be32 value) 0 b

-- The AVPs of some bytes.
unfoldable pub add_bytes : ℕ → List ℕ → Buffer → Option Buffer
unfolding emit add_header
add_bytes type bytes b = emit (add_header (6 + length bytes) type ++ bytes) 0 b

unfoldable pub add_message_type_avp : ℕ → Buffer → Option Buffer
unfolding add_word add_header
add_message_type_avp type b = add_word (add_header 8 0) type b

unfoldable pub add_protocol_avp : Buffer → Option Buffer
unfolding add_word add_header
add_protocol_avp b = add_word (add_header 8 2) 0x100 b

unfoldable pub add_frame_caps_avp : ℕ → Buffer → Option Buffer
unfolding add_long add_header
add_frame_caps_avp caps b = add_long (add_header 10 3) (u16 caps) b

unfoldable pub add_bearer_caps_avp : ℕ → Buffer → Option Buffer
unfolding add_long add_header
add_bearer_caps_avp caps b = add_long (add_header 10 4) (u16 caps) b

unfoldable pub add_firmware_avp : Buffer → Option Buffer
unfolding add_word add_nonmandatory_header
add_firmware_avp b = add_word (add_nonmandatory_header 8 6) 0x690 b

abbrev pub max_name : ℕ
max_name = 1017

unfoldable pub add_hostname_avp : List ℕ → Buffer → Option Buffer
unfolding emit add_header
add_hostname_avp hostname b =
    let namelen = if ltb max_name (length hostname) then max_name else length hostname in
    emit (add_header (6 + namelen) 7 ++ take namelen hostname) 0 b

-- "xelerance.com"
abbrev pub vendor_name : List ℕ
vendor_name =
    b'x' ∷ b'e' ∷ b'l' ∷ b'e' ∷ b'r' ∷ b'a' ∷ b'n' ∷ b'c' ∷ b'e' ∷ b'.' ∷ b'c' ∷ b'o' ∷ b'm' ∷ []

-- `strcpy` writes the NUL too.
unfoldable pub add_vendor_avp : Buffer → Option Buffer
unfolding emit add_nonmandatory_header
add_vendor_avp b = emit (add_nonmandatory_header (6 + length vendor_name) 8 ++ vendor_name) 1 b

unfoldable pub add_tunnelid_avp : ℕ → Buffer → Option Buffer
unfolding add_word add_header
add_tunnelid_avp tid b = add_word (add_header 8 9) tid b

unfoldable pub add_avp_rws : ℕ → Buffer → Option Buffer
unfolding add_word add_header
add_avp_rws rws b = add_word (add_header 8 10) rws b

unfoldable pub add_challenge_avp : List ℕ → Buffer → Option Buffer
unfolding add_bytes
add_challenge_avp c b = add_bytes 11 c b

unfoldable pub add_chalresp_avp : List ℕ → Buffer → Option Buffer
unfolding add_bytes
add_chalresp_avp c b = add_bytes 13 c b

unfoldable pub add_randvect_avp : List ℕ → Buffer → Option Buffer
unfolding add_bytes
add_randvect_avp c b = add_bytes 36 c b

unfoldable pub add_result_code_avp : ℕ → ℕ → List ℕ → Buffer → Option Buffer
unfolding emit add_header
add_result_code_avp result error msg b =
    emit (add_header (10 + length msg) 1 ++ (be16 result ++ (be16 error ++ msg))) 0 b

unfoldable pub add_callid_avp : ℕ → Buffer → Option Buffer
unfolding add_word add_header
add_callid_avp callid b = add_word (add_header 8 14) callid b

unfoldable pub add_serno_avp : ℕ → Buffer → Option Buffer
unfolding add_long add_header
add_serno_avp value b = add_long (add_header 10 15) (value % 2 ^ 32) b

unfoldable pub add_bearer_avp : ℤ → Buffer → Option Buffer
unfolding add_long add_header
add_bearer_avp value b = add_long (add_header 10 18) (bits_32 value) b

unfoldable pub add_frame_avp : ℤ → Buffer → Option Buffer
unfolding add_long add_header
add_frame_avp value b = add_long (add_header 10 19) (bits_32 value) b

unfoldable pub add_txspeed_avp : ℤ → Buffer → Option Buffer
unfolding add_long add_header
add_txspeed_avp value b = add_long (add_header 10 24) (bits_32 value) b

unfoldable pub add_rxspeed_avp : ℤ → Buffer → Option Buffer
unfolding add_long add_nonmandatory_header
add_rxspeed_avp value b = add_long (add_nonmandatory_header 10 38) (bits_32 value) b

unfoldable pub add_physchan_avp : ℕ → Buffer → Option Buffer
unfolding add_long add_nonmandatory_header
add_physchan_avp value b = add_long (add_nonmandatory_header 10 25) (value % 2 ^ 32) b

unfoldable pub add_ppd_avp : ℕ → Buffer → Option Buffer
unfolding add_word add_header
add_ppd_avp ppd b = add_word (add_header 8 20) ppd b

unfoldable pub add_seqreqd_avp : Buffer → Option Buffer
unfolding emit add_header
add_seqreqd_avp b = emit (add_header 6 39) 0 b

unfoldable pub add_minbps_avp : ℤ → Buffer → Option Buffer
unfolding add_long add_header
add_minbps_avp value b = add_long (add_header 10 16) (bits_32 value) b

unfoldable pub add_maxbps_avp : ℤ → Buffer → Option Buffer
unfolding add_long add_header
add_maxbps_avp value b = add_long (add_header 10 17) (bits_32 value) b

unfoldable pub add_number_avp : List ℕ → Buffer → Option Buffer
unfolding add_bytes
add_number_avp number b = add_bytes 21 number b
