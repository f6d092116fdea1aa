-- ===== src/Avp/Raw.antt =====
-- What an AVP handler of avp.c is given and what it returns, and the checks that the handlers
-- under `#ifdef SANITY` share (the build defines SANITY).
--
-- A handler's `data` points at an AVP whose header is in host order. `length_word` is its first
-- word, and `body` the bytes from `raw[3]` to the end of the receive buffer. A read beyond them,
-- or through NULL, or beyond the table `msgtypes`, is a `fault`.
use xl2tpd.Base.{
  ℕ, zero, suc, ◌+◌, ◌*◌, Bool, true, false, not, ◌&&◌, if◌then◌else◌, ltb, leb, ◌==◌,
}
use xl2tpd.Base.{List, [], ◌∷◌, Option, none, some, elem, take, length, String}
use xl2tpd.Base.{ℤ, pos, negsuc, from_be16}
use xl2tpd.Message.{max_msg}
use xl2tpd.Session.{Session, cur, wrong_length}

pub record Raw : Type 0 where
  pub length_word : ℕ
  pub body : List ℕ

-- `einval` is any result but 0.
pub data Reply : Type 0 where
  fault : Reply
  ok : Session → Reply
  einval : Session → Reply

infixl 5 ◌>>=◌
abbrev pub ◌>>=◌ {ℓ} : {A : Type ℓ} → Option A → (A → Reply) → Reply
none >>= k = fault
some a >>= k = k a

-- The 16-bit word at index i of some bytes, in network order.
unfoldable pub word_at : ℕ → List ℕ → Option ℕ
word_at i [] = none
word_at i (a ∷ []) = none
word_at zero (a ∷ b ∷ l) = some (from_be16 a b)
word_at (suc i) (a ∷ b ∷ l) = word_at i l

-- `ntohs (raw[3].s)`, and the two words from there as an `unsigned int`.
unfoldable pub raw_3 : Raw → Option ℕ
unfolding word_at
raw_3 r = word_at 0 r.body

unfoldable pub raw_4 : Raw → Option ℕ
unfolding word_at
raw_4 r = word_at 1 r.body

unfoldable pub raw_3_4 : Raw → Option ℕ
unfolding word_at
raw_3_4 r = elim (word_at 0 r.body) [
  | none ↦ none
  | some hi ↦ elim (word_at 1 r.body) [ none ↦ none | some lo ↦ some (hi * 65_536 + lo) ]
]

-- `n` bytes from `raw[3]` on.
unfoldable pub raw_bytes : ℕ → Raw → Option (List ℕ)
raw_bytes n r = if leb n (length r.body) then some (take n r.body) else none

-- `c->msgtype` is one of the labels.
abbrev pub is_in : ℤ → List ℕ → Bool
is_in (pos n) labels = elem n labels
is_in (negsuc n) labels = false

-- `msgtypes[c->msgtype]` is in the table. The log reads it, since `debug` is on from `new_tunnel` on.
abbrev pub has_name : ℤ → Bool
has_name (pos n) = not (ltb max_msg n)
has_name (negsuc n) = false

-- A handler's result behind a line in the log with the name of the message.
abbrev pub logged : Session → Reply → Reply
logged s k = if has_name (cur s).msgtype then k else fault

-- The `switch (c->msgtype)` that lets other messages pass by with 0.
unfoldable pub appropriate : Session → List ℕ → Reply → Reply
appropriate s labels k =
    if s.tunnel.sanity && not (is_in (cur s).msgtype labels) then logged s (ok s) else k

-- `datalen != expected`, and `datalen < expected`.
unfoldable pub exact : Session → String → ℕ → ℕ → Bool → Reply → Reply
unfolding wrong_length
exact s field expected datalen more k =
    if s.tunnel.sanity && not (datalen == expected)
    then einval (wrong_length s field expected datalen more)
    else k

unfoldable pub at_least : Session → String → ℕ → ℕ → Reply → Reply
unfolding wrong_length
at_least s field expected datalen k =
    if s.tunnel.sanity && ltb datalen expected
    then einval (wrong_length s field expected datalen true)
    else k
