-- ===== src/Message.antt =====
-- The constants of control.h, avp.h, l2tp.h and aaa.h that the code compares with.
use xl2tpd.Base.{ℕ, List, [], ◌∷◌}

-- Control message types.
abbrev pub sccrq : ℕ
sccrq = 1

abbrev pub sccrp : ℕ
sccrp = 2

abbrev pub scccn : ℕ
scccn = 3

abbrev pub stop_ccn : ℕ
stop_ccn = 4

abbrev pub hello : ℕ
hello = 6

abbrev pub ocrq : ℕ
ocrq = 7

abbrev pub ocrp : ℕ
ocrp = 8

abbrev pub occn : ℕ
occn = 9

abbrev pub icrq : ℕ
icrq = 10

abbrev pub icrp : ℕ
icrp = 11

abbrev pub iccn : ℕ
iccn = 12

abbrev pub cdn : ℕ
cdn = 14

abbrev pub wen : ℕ
wen = 15

abbrev pub sli : ℕ
sli = 16

abbrev pub max_msg : ℕ
max_msg = 16

-- The indices up to `max_msg` at which `msgtypes` holds NULL.
abbrev pub unnamed_msgs : List ℕ
unnamed_msgs = 0 ∷ 5 ∷ 13 ∷ []

-- Error and result codes.
abbrev pub error_length : ℕ
error_length = 2

abbrev pub error_reserved : ℕ
error_reserved = 3

abbrev pub error_nores : ℕ
error_nores = 4

abbrev pub error_invalid : ℕ
error_invalid = 6

abbrev pub vendor_error : ℕ
vendor_error = 6

abbrev pub result_error : ℕ
result_error = 2

-- Sizes.
abbrev pub max_str_len : ℕ
max_str_len = 120

abbrev pub md_sig_size : ℕ
md_sig_size = 16

abbrev pub max_vector_size : ℕ
max_vector_size = 1024

abbrev pub avp_hdr_size : ℕ
avp_hdr_size = 6

abbrev pub control_hdr_size : ℕ
control_hdr_size = 12

abbrev pub state_challenged : ℕ
state_challenged = 1

-- Bits of a header's version word.
abbrev pub lbit : ℕ
lbit = 0x4000

-- Framing types.
abbrev pub sync_framing : ℕ
sync_framing = 1

abbrev pub async_framing : ℕ
async_framing = 2

abbrev pub vector_size : ℕ
vector_size = 16

abbrev pub default_min_bps : ℕ
default_min_bps = 10_000

abbrev pub default_max_bps : ℕ
default_max_bps = 10_000_000

-- What a control message may fill: a buffer of MAX_RECV_SIZE, behind the header.
abbrev pub outgoing_room : ℕ
outgoing_room = 4084
