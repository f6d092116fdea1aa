-- ===== src/Avp/CallAvps.antt =====
-- The handlers of avp.c that set fields of a call: of `c`, or of the head of the tunnel's list.
use xl2tpd.Base.{ℕ, ◌-◌, ◌/◌, ◌%◌, true, false, not, ◌&&◌, ◌||◌, if◌then◌else◌, ltb, ◌==◌}
use xl2tpd.Base.{List, [], ◌∷◌, pos, minus_one, to_int, is, Option, some, none, drop}
use xl2tpd.Message.{stop_ccn, ocrq, ocrp, occn, icrq, icrp, iccn, cdn, avp_hdr_size}
use xl2tpd.Session.{Session, copied, cur, store, put_cur, safe_copy}
use xl2tpd.Avp.Raw.{Raw, Reply, ok, einval, ◌>>=◌, raw_3, raw_4, raw_3_4, raw_bytes, is_in}
use xl2tpd.Avp.Raw.{logged, appropriate, exact, at_least}
use xl2tpd.Avp.TunnelAvps.{text_size}

-- `t->call_head`, which is read through.
abbrev pub head : List ℕ → Option ℕ
head [] = none
head (a ∷ rest) = some a

-- A message that is not ICCN is an error here.
unfoldable pub seq_reqd_avp : Session → Raw → ℕ → Reply
unfolding exact
seq_reqd_avp s r datalen = exact s "Sequencing Required" 6 datalen true (
    if s.tunnel.sanity && not (is_in (cur s).msgtype (iccn ∷ []))
    then logged s (einval s)
    else ok (put_cur s (record (cur s) { seq_reqd = true })))

-- The repair of a code whose bytes were swapped by the peer.
unfoldable pub unswap : ℕ → ℕ
unswap n = if n % 256 == 0 && not (n / 256 == 0) then n / 256 else n

-- The part of `result_code_avp` behind the checks of the result.
unfoldable pub store_result : Session → Raw → ℕ → ℕ → Reply
unfolding raw_4 raw_bytes unswap safe_copy
store_result s r datalen result =
    if ltb 10 datalen
    then (do
      error ← raw_4 r
      bytes ← raw_bytes (datalen - avp_hdr_size) r
      ok (
          put_cur s (record (cur s) {
            error = pos (unswap error);
            result = pos result;
            errormsg = copied (safe_copy (drop 4 bytes) (datalen - 10));
          })))
    else (if datalen == 10
        then (do
          error ← raw_4 r
          ok (
              put_cur s (record (cur s) {
                error = pos (unswap error);
                result = pos result;
                errormsg = copied [];
              })))
        else ok (
            put_cur s
              (record (cur s) { error = minus_one; result = pos result; errormsg = copied [] })))

unfoldable pub result_code_avp : Session → Raw → ℕ → Reply
unfolding at_least appropriate raw_3 unswap store_result
result_code_avp s r datalen = at_least s "Result Code" 8 datalen (
    appropriate s (cdn ∷ stop_ccn ∷ []) (do
      word ← raw_3 r
      let result = unswap word
      if is (cur s).msgtype stop_ccn && (ltb 7 result || ltb result 1)
          then ok s
          else (if is (cur s).msgtype cdn && (ltb 11 result || ltb result 1)
              then ok s
              else store_result s r datalen result)))

unfoldable pub bearer_type_avp : Session → Raw → ℕ → Reply
unfolding exact appropriate raw_4
bearer_type_avp s r datalen = appropriate s (icrq ∷ ocrq ∷ []) (
    exact s "Bearer Type" 10 datalen false (do
      b ← raw_4 r
      a ← head s.tunnel.call_head
      ok (store s a (record (s.calls a) { bearer = pos b }))))

unfoldable pub frame_type_avp : Session → Raw → ℕ → Reply
unfolding exact appropriate raw_4
frame_type_avp s r datalen = appropriate s (iccn ∷ ocrq ∷ occn ∷ []) (
    exact s "Frame Type" 10 datalen false
      (do b ← raw_4 r; ok (put_cur s (record (cur s) { frame = b }))))

unfoldable pub dialing_number_avp : Session → Raw → ℕ → Reply
unfolding at_least appropriate raw_bytes safe_copy
dialing_number_avp s r datalen = appropriate s (icrq ∷ []) (
    at_least s "Dialing Number" 6 datalen (do
      bytes ← raw_bytes (text_size r) r
      a ← head s.tunnel.call_head
      ok (store s a (record (s.calls a) { dialing = safe_copy bytes (text_size r) }))))

unfoldable pub dialed_number_avp : Session → Raw → ℕ → Reply
unfolding at_least appropriate raw_bytes safe_copy
dialed_number_avp s r datalen = appropriate s (ocrq ∷ icrq ∷ []) (
    at_least s "Dialed Number" 6 datalen (do
      bytes ← raw_bytes (text_size r) r
      a ← head s.tunnel.call_head
      ok (store s a (record (s.calls a) { dialed = safe_copy bytes (text_size r) }))))

unfoldable pub sub_address_avp : Session → Raw → ℕ → Reply
unfolding at_least appropriate raw_bytes safe_copy
sub_address_avp s r datalen = appropriate s (ocrp ∷ icrq ∷ []) (
    at_least s "Sub-address" 6 datalen (do
      bytes ← raw_bytes (text_size r) r
      a ← head s.tunnel.call_head
      ok (store s a (record (s.calls a) { subaddy = safe_copy bytes (text_size r) }))))

-- A message with no case of its own can come here only without SANITY.
unfoldable pub assigned_call_avp : Session → Raw → ℕ → Reply
unfolding exact appropriate raw_3
assigned_call_avp s r datalen = appropriate s (cdn ∷ icrp ∷ icrq ∷ ocrp ∷ []) (
    exact s "Assigned Call ID" 8 datalen false (do
      id ← raw_3 r
      if is (cur s).msgtype cdn
          then ok (put_cur s (record (cur s) { qcid = pos id }))
          else (if is (cur s).msgtype icrq
              then (do
                a ← head s.tunnel.call_head
                ok (store s a (record (s.calls a) { cid = pos id })))
              else (if is_in (cur s).msgtype (icrp ∷ ocrp ∷ [])
                  then ok (put_cur s (record (cur s) { cid = pos id }))
                  else logged s (ok s)))))

unfoldable pub packet_delay_avp : Session → Raw → ℕ → Reply
unfolding exact appropriate raw_3
packet_delay_avp s r datalen = appropriate s (icrp ∷ ocrq ∷ iccn ∷ ocrp ∷ occn ∷ []) (
    exact s "Assigned Call ID" 8 datalen false
      (do ppd ← raw_3 r; ok (put_cur s (record (cur s) { ppd = ppd }))))

-- Without STRICT a wrong length is only logged.
unfoldable pub call_serno_avp : Session → Raw → ℕ → Reply
unfolding appropriate raw_3_4
call_serno_avp s r datalen = appropriate s (icrq ∷ ocrq ∷ []) (do
  n ← raw_3_4 r
  a ← head s.tunnel.call_head
  ok (store s a (record (s.calls a) { serno = n })))

unfoldable pub rx_speed_avp : Session → Raw → ℕ → Reply
unfolding exact appropriate raw_3_4
rx_speed_avp s r datalen = appropriate s (iccn ∷ occn ∷ ocrp ∷ []) (
    exact s "Connect Speed (RX)" 10 datalen false
      (do n ← raw_3_4 r; ok (put_cur s (record (cur s) { rxspeed = to_int n }))))

unfoldable pub tx_speed_avp : Session → Raw → ℕ → Reply
unfolding exact appropriate raw_3_4
tx_speed_avp s r datalen = appropriate s (iccn ∷ occn ∷ ocrp ∷ []) (
    exact s "Connect Speed (tx)" 10 datalen false
      (do n ← raw_3_4 r; ok (put_cur s (record (cur s) { txspeed = to_int n }))))

unfoldable pub call_physchan_avp : Session → Raw → ℕ → Reply
unfolding exact appropriate raw_3_4
call_physchan_avp s r datalen = appropriate s (icrq ∷ ocrq ∷ ocrp ∷ occn ∷ []) (
    exact s "Physical Channel" 10 datalen false (do
      n ← raw_3_4 r
      a ← head s.tunnel.call_head
      ok (store s a (record (s.calls a) { physchan = to_int n }))))
