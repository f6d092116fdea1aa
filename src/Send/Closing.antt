-- ===== src/Send/Closing.antt =====
-- call.c: the AVPs of the two messages that `call_close` sends, a StopCCN and a CDN.
--
-- The message text is the C string `c->errormsg`. With hidden AVPs (`hbit`), a vector goes first.
use xl2tpd.Base.{ℕ, if◌then◌else◌, List, Option, none, some, ℤ, pos, u16, is_neg, ◌>>=◌}
use xl2tpd.Message.{stop_ccn, cdn}
use xl2tpd.Control.{to_u16}
use xl2tpd.Send.{Buffer, add_message_type_avp, add_randvect_avp, add_tunnelid_avp}
use xl2tpd.Send.{add_result_code_avp, add_callid_avp}

abbrev pub result_clear : ℕ
result_clear = 1

-- `if (n < 0) n = value`
abbrev pub unless_neg : ℤ → ℕ → ℤ
unless_neg n value = if is_neg n then pos value else n

unfoldable pub add_vector : Option (List ℕ) → Buffer → Option Buffer
unfolding add_randvect_avp
add_vector none b = some b
add_vector (some vector) b = add_randvect_avp vector b

-- For a tunnel.
unfoldable pub add_stop_ccn : Option (List ℕ) → ℕ → ℤ → ℤ → List ℕ → Buffer → Option Buffer
add_stop_ccn vector ourtid result error msg b = do
  b1 ← add_message_type_avp stop_ccn b
  b2 ← add_vector vector b1
  b3 ← add_tunnelid_avp (u16 ourtid) b2
  add_result_code_avp (to_u16 (unless_neg result result_clear)) (to_u16 (unless_neg error 0)) msg b3

-- For a call.
unfoldable pub add_cdn : Option (List ℕ) → ℕ → ℤ → ℤ → List ℕ → Buffer → Option Buffer
add_cdn vector ourcid result error msg b = do
  b1 ← add_message_type_avp cdn b
  b2 ← add_vector vector b1
  b3 ←
      add_result_code_avp (to_u16 (unless_neg result result_clear)) (to_u16 (unless_neg error 0))
        msg b2
  add_callid_avp (u16 ourcid) b3
