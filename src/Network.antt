-- ===== src/Network.antt =====
-- network.c: resending control messages, and the byte order of a received header.
--
-- The host is little-endian, so a 16-bit load takes the low byte first. `control_xmit` is given
-- the message's own fields, and its result says what it then does with the buffer.
pub mod Resend
pub mod Header
mod Examples
use xl2tpd.Base.{ℕ, zero, suc, ◌+◌, ◌-◌, ◌*◌, ◌/◌, ◌%◌, ◌^◌, min, Bool, true, false, not, ◌&&◌}
use xl2tpd.Base.{if◌then◌else◌, ltb, ◌==◌, List, [], ◌∷◌}
use xl2tpd.Session.{Session, Call, store, formatted}

-- What `control_xmit` does: the buffer is freed; or it is freed and `call_close` is called on the
-- tunnel's own call; or it is sent, and the function is scheduled again after some seconds.
pub data Xmit : Type 0 where
  toss : Xmit
  close : Session → Xmit
  resend : ℕ → ℕ → Xmit

-- What too many tries leave in the tunnel's own call.
unfoldable pub give_up : Session → Session
give_up s =
    let a = s.tunnel.self in
    let c = s.calls a in
    if c.needclose
    then store s a (record c { needclose = false; closing = true })
    else store s a (record c { errormsg = formatted "Timeout" []; needclose = true })

-- `control_xmit` on a buffer that belongs to a tunnel or to none, with `buf->retries` and the Ns
-- of its header, for a limit `gconfig.max_retries`.
unfoldable pub control_xmit : ℕ → Session → Bool → ℕ → ℕ → Xmit
unfolding give_up
control_xmit max_retries s owned retries ns =
    if owned && ltb ns s.tunnel.clr
    then toss
    else (if ltb max_retries (retries + 1)
        then (if owned then close (give_up s) else toss)
        else resend (2 ^ min retries 31) (retries + 1))

-- `swaps` on the first `n` bytes.
unfoldable pub swaps : ℕ → List ℕ → List ℕ
swaps n [] = []
swaps n (a ∷ []) = a ∷ []
swaps n (a ∷ b ∷ l) = if ltb n 2 then a ∷ b ∷ l else b ∷ a ∷ swaps (n - 2) l

-- A 16-bit load by the host.
abbrev pub load : ℕ → ℕ → ℕ
load low high = low + 256 * high

abbrev pub bit : ℕ → ℕ → Bool
bit k word = not (word / 2 ^ k % 2 == 0)

-- The bytes that `fix_hdr` swaps. CTBIT is tested on the word as it is loaded, the other bits on
-- the word in host order.
unfoldable pub fix_len : ℕ → ℕ → ℕ
fix_len a b =
    let ver = load b a in
    if bit 15 (load a b)
    then 12
    else 6
      + (if bit 9 ver then 2 else 0)
      + (if bit 14 ver then 2 else 0)
      + (if bit 11 ver then 4 else 0)

unfoldable pub fix_hdr : List ℕ → List ℕ
unfolding swaps fix_len
fix_hdr [] = []
fix_hdr (a ∷ []) = a ∷ []
fix_hdr (a ∷ b ∷ l) = swaps (fix_len a b) (a ∷ b ∷ l)

-- The 16-bit value at a word index, as the host loads it; 0 past the end.
unfoldable pub host_word : ℕ → List ℕ → ℕ
host_word i [] = 0
host_word i (a ∷ []) = 0
host_word zero (a ∷ b ∷ l) = load a b
host_word (suc i) (a ∷ b ∷ l) = host_word i l

-- `extract`: the tunnel and the call that a fixed header names.
unfoldable pub extract : List ℕ → ℕ × ℕ
unfolding host_word
extract buf =
    if bit 14 (host_word 0 buf)
    then (host_word 2 buf, host_word 3 buf)
    else (host_word 1 buf, host_word 2 buf)
