-- ===== src/Frame.antt =====
-- PPP frames on the pty: `write_packet` (control.c) and `read_packet` (call.c).
--
-- The reads and writes of the pty are given as what the system calls return, one after the other;
-- where the list ends, the code waits, and the result is `none`. `write_packet` is only called for
-- synchronous framing, and starts here behind the header.
pub mod Write
pub mod Read
pub mod RoundTrip
mod Examples
use xl2tpd.Base.{
  ℕ, zero, suc, ◌+◌, ◌-◌, ◌/◌, ◌%◌, Bool, true, false, not, ◌&&◌, ◌||◌, if◌then◌else◌,
}
use xl2tpd.Base.{ltb, leb, ◌==◌, List, [], ◌∷◌, ◌++◌, Option, none, some, length, take, drop, map}
use xl2tpd.Fcs.{add_fcs}

abbrev pub ppp_flag : ℕ
ppp_flag = 0x7e

abbrev pub ppp_escape : ℕ
ppp_escape = 0x7d

abbrev pub max_recv_size : ℕ
max_recv_size = 4096

-- `b ^ 0x20` turns the bit of weight 32.
abbrev pub xor_trans : ℕ → ℕ
xor_trans b = if b / 32 % 2 == 0 then b + 32 else b - 32

-- One byte as it goes into `wbuf`.
unfoldable pub escaped : ℕ → List ℕ
escaped e =
    if ltb e 0x20 || e == ppp_escape || e == ppp_flag then ppp_escape ∷ xor_trans e ∷ [] else e ∷ []

abbrev prefixed : List ℕ → Option (List ℕ) → Option (List ℕ)
prefixed bytes none = none
prefixed bytes (some more) = some (bytes ++ more)

-- The bytes put into `wbuf` from `pos` on; `none` where the check of the room refuses.
unfoldable pub stuffed : ℕ → List ℕ → Option (List ℕ)
unfolding escaped
stuffed pos [] = some (ppp_flag ∷ [])
stuffed pos (e ∷ es) =
    let rest = stuffed (pos + length (escaped e)) es in
    if leb (max_recv_size - 4) pos then none else prefixed (escaped e) rest

-- `wbuf` for a packet's data.
unfoldable pub frame : List ℕ → Option (List ℕ)
unfolding stuffed
frame bytes = prefixed (ppp_flag ∷ []) (stuffed 1 (add_fcs bytes))

-- What `write` returns: a count, -1 with EINTR or EAGAIN, or -1 with another error.
pub data Wrote : Type 0 where
  wrote : ℕ → Wrote
  again : Wrote
  failed : Wrote

-- What `write_packet` returns. With `eio` of a failed write, `needclose` is set and `fd` is -1.
pub data Status : Type 0 where
  sent : Status
  eio : Status
  einval : Status

abbrev behind : List ℕ → Option (List ℕ × Status) → Option (List ℕ × Status)
behind first none = none
behind first (some (out, status)) = some (first ++ out, status)

-- The loop on `write`: the bytes that the pty got, and the status.
unfoldable pub write_all : List ℕ → List Wrote → Option (List ℕ × Status)
write_all [] results = some ([], sent)
write_all (b ∷ bs) [] = none
write_all (b ∷ bs) (wrote n ∷ results) =
    behind (take n (b ∷ bs)) (write_all (drop n (b ∷ bs)) results)
write_all (b ∷ bs) (again ∷ results) = write_all (b ∷ bs) results
write_all (b ∷ bs) (failed ∷ results) = some ([], eio)

unfoldable pub write_packet : Bool → List ℕ → List Wrote → Option (List ℕ × Status)
unfolding write_all frame
write_packet opened bytes results =
    if not opened
    then some ([], eio)
    else elim (frame bytes) [ none ↦ some ([], einval) | some wbuf ↦ write_all wbuf results ]

-- What `read` returns: some bytes, 0, -1 with EIO, EINTR or EAGAIN, or -1 with another error.
pub data Got : Type 0 where
  bytes : ℕ → List ℕ → Got
  nothing : Got
  interrupted : Got
  broken : Got

-- What `read_packet` leaves: `finished` has the value returned, what `buf` holds, and what is left
-- in `rbuf`; `invalid` is -EINVAL and `dead` is -errno, with what `buf` holds.
pub data Outcome : Type 0 where
  finished : ℕ → List ℕ → List ℕ → Outcome
  invalid : List ℕ → Outcome
  dead : List ℕ → Outcome

-- The `switch` on one byte: return, or go on with `escape` and the content.
pub data Turn : Type 0 where
  stop : Outcome → Turn
  more : Bool → List ℕ → Turn

unfoldable pub turn : ℕ → Bool → List ℕ → ℕ → List ℕ → Turn
turn maxlen escape content ch rest =
    if ch == ppp_flag
    then (if escape
        then stop (invalid content)
        else (if leb 2 (length content)
            then stop (finished (length content - 2) (take (length content - 2) content) rest)
            else (if length content == 1
                then stop (finished 1 content rest)
                else more escape content)))
    else (if ch == ppp_escape
        then more true content
        else (if ltb (length content) maxlen
            then more false (content ++ ((if escape then xor_trans ch else ch) ∷ []))
            else stop (invalid content)))

-- The bytes in `rbuf`.
unfoldable pub chunk : ℕ → Bool → List ℕ → List ℕ → Turn
unfolding turn
chunk maxlen escape content [] = more escape content
chunk maxlen escape content (ch ∷ rest) = elim (turn maxlen escape content ch rest) [
  | stop o ↦ stop o
  | more escape' content' ↦ chunk maxlen escape' content' rest
]

-- The loop from a `read` on, with the errors so far.
unfoldable pub read_loop : ℕ → ℕ → Bool → List ℕ → List Got → Option Outcome
unfolding chunk
read_loop errors maxlen escape content [] = none
read_loop errors maxlen escape content (bytes b bs ∷ reads) =
    elim (chunk maxlen escape content (b ∷ bs)) [
      | stop o ↦ some o
      | more escape' content' ↦ read_loop errors maxlen escape' content' reads
    ]
read_loop errors maxlen escape content (nothing ∷ reads) = some (finished 0 content [])
read_loop errors maxlen escape content (interrupted ∷ reads) = some (finished 0 content [])
read_loop errors maxlen escape content (broken ∷ reads) =
    let rest = read_loop (errors + 1) maxlen escape content reads in
    if ltb 10 (errors + 1) then some (dead content) else rest

-- `read_packet` on what `rbuf` and `buf` hold. `escape` starts as 0 at each call.
unfoldable pub read_packet : ℕ → List ℕ → List ℕ → List Got → Option Outcome
unfolding read_loop
read_packet maxlen content rbuf reads = elim (chunk maxlen false content rbuf) [
  | stop o ↦ some o
  | more escape content' ↦ read_loop 0 maxlen escape content' reads
]
