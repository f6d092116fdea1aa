-- ===== src/Avp/TunnelAvps.antt =====
-- The handlers of avp.c that set fields of the tunnel.
use xl2tpd.Base.{ℕ, ◌+◌, ◌-◌, ◌%◌, min, true, false, not, ◌&&◌, ◌||◌, if◌then◌else◌, ltb, ◌==◌}
use xl2tpd.Base.{[], ◌∷◌, pos, is, some, none, take}
use xl2tpd.Message.{sccrq, sccrp, scccn, stop_ccn, ocrp, occn, md_sig_size, max_str_len}
use xl2tpd.Message.{max_vector_size, avp_hdr_size, state_challenged}
use xl2tpd.Session.{Session, Env, Tunnel, cur, wrong_length, safe_copy}
use xl2tpd.Avp.Raw.{Raw, Reply, ok, einval, ◌>>=◌, raw_3, raw_4, raw_bytes, appropriate, exact}
use xl2tpd.Avp.Raw.{at_least}

-- `raw[0].s & 0x03FF` less the header.
abbrev pub value_size : Raw → ℕ
value_size r = r.length_word % 1024 - avp_hdr_size

abbrev pub put_tunnel : Session → Tunnel → Session
put_tunnel s t = record s { tunnel = t }

-- `ASYNC_FRAMING | SYNC_FRAMING` and `ANALOG_BEARER | DIGITAL_BEARER` are both 3.
abbrev pub low_two_bits : ℕ → ℕ
low_two_bits n = n % 4

unfoldable pub rand_vector_avp : Session → Raw → ℕ → Reply
unfolding wrong_length
rand_vector_avp s r datalen =
    if s.tunnel.sanity
      && (ltb (r.length_word % 1024) avp_hdr_size || ltb max_vector_size (value_size r))
    then einval (wrong_length s "Random Vector" 6 datalen true)
    else ok (
        put_tunnel s (record (s.tunnel) {
          chal_us = record (s.tunnel.chal_us) {
            vector = some (take (value_size r) r.body);
            vector_len = value_size r;
          };
        }))

unfoldable pub ignore_avp : Session → Raw → ℕ → Reply
ignore_avp s r datalen = ok s

-- The version is only logged.
unfoldable pub protocol_version_avp : Session → Raw → ℕ → Reply
unfolding exact appropriate raw_3
protocol_version_avp s r datalen =
    exact s "Protocol Version" 8 datalen true
      (appropriate s (sccrp ∷ sccrq ∷ []) (do ver ← raw_3 r; ok s))

unfoldable pub framing_caps_avp : Session → Raw → ℕ → Reply
unfolding exact appropriate raw_4
framing_caps_avp s r datalen = appropriate s (sccrp ∷ sccrq ∷ []) (
    exact s "Framming Capabilities" 10 datalen false
      (do caps ← raw_4 r; ok (put_tunnel s (record (s.tunnel) { fc = pos (low_two_bits caps) }))))

unfoldable pub bearer_caps_avp : Session → Raw → ℕ → Reply
unfolding exact appropriate raw_4
bearer_caps_avp s r datalen = appropriate s (sccrp ∷ sccrq ∷ []) (
    exact s "Bearer Capabilities" 10 datalen false
      (do caps ← raw_4 r; ok (put_tunnel s (record (s.tunnel) { bc = pos (low_two_bits caps) }))))

unfoldable pub firmware_rev_avp : Session → Raw → ℕ → Reply
unfolding exact appropriate raw_3
firmware_rev_avp s r datalen = appropriate s (sccrp ∷ sccrq ∷ []) (
    exact s "Firmware Revision" 8 datalen false
      (do ver ← raw_3 r; ok (put_tunnel s (record (s.tunnel) { firmware = ver }))))

-- The size of a text after the cut to MAXSTRLEN - 1.
abbrev pub text_size : Raw → ℕ
text_size r = min (value_size r) (max_str_len - 1)

unfoldable pub hostname_avp : Session → Raw → ℕ → Reply
unfolding at_least appropriate raw_bytes safe_copy
hostname_avp s r datalen = appropriate s (sccrp ∷ sccrq ∷ []) (
    at_least s "Hostname" 6 datalen (do
      bytes ← raw_bytes (text_size r) r
      ok (put_tunnel s (record (s.tunnel) { hostname = safe_copy bytes (text_size r) }))))

unfoldable pub vendor_avp : Session → Raw → ℕ → Reply
unfolding at_least appropriate raw_bytes safe_copy
vendor_avp s r datalen = appropriate s (sccrp ∷ sccrq ∷ []) (
    at_least s "Vendor" 6 datalen (do
      bytes ← raw_bytes (text_size r) r
      ok (put_tunnel s (record (s.tunnel) { vendor = safe_copy bytes (text_size r) }))))

-- The old challenge is freed first, so a failed allocation leaves NULL.
unfoldable pub challenge_avp : Env → Session → Raw → ℕ → Reply
unfolding at_least appropriate raw_bytes
challenge_avp env s r datalen = appropriate s (sccrp ∷ sccrq ∷ []) (
    at_least s "challenge" 6 datalen (
      if env.alloc s.ticks
      then (do
        bytes ← raw_bytes (value_size r) r
        ok (record s {
          ticks = s.ticks + 1;
          tunnel = record (s.tunnel) {
            chal_us = record (s.tunnel.chal_us) {
              chal = some bytes;
              chal_len = value_size r;
              state = state_challenged;
            };
          };
        }))
      else einval (record s {
        ticks = s.ticks + 1;
        tunnel = record (s.tunnel) { chal_us = record (s.tunnel.chal_us) { chal = none } };
      })))

unfoldable pub chalresp_avp : Session → Raw → ℕ → Reply
unfolding at_least appropriate raw_bytes
chalresp_avp s r datalen = appropriate s (sccrp ∷ scccn ∷ []) (
    at_least s "challenge" 6 datalen (
      if not (value_size r == md_sig_size) then einval s else (do
        bytes ← raw_bytes md_sig_size r
        ok (
            put_tunnel s
              (record (s.tunnel) { chal_them = record (s.tunnel.chal_them) { reply = bytes } })))))

unfoldable pub assigned_tunnel_avp : Session → Raw → ℕ → Reply
unfolding exact appropriate raw_3
assigned_tunnel_avp s r datalen = appropriate s (sccrp ∷ sccrq ∷ stop_ccn ∷ []) (
    exact s "Assigned Tunnel ID" 8 datalen false (do
      tid ← raw_3 r
      ok (
          put_tunnel s (
            if is (cur s).msgtype stop_ccn
            then record (s.tunnel) { qtid = pos tid }
            else record (s.tunnel) { tid = pos tid }))))

unfoldable pub receive_window_size_avp : Session → Raw → ℕ → Reply
unfolding exact appropriate raw_3
receive_window_size_avp s r datalen = appropriate s (sccrp ∷ sccrq ∷ ocrp ∷ occn ∷ stop_ccn ∷ []) (
    exact s "Receive Window Size" 8 datalen false
      (do rws ← raw_3 r; ok (put_tunnel s (record (s.tunnel) { rws = rws }))))
