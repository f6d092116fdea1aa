-- ===== src/Avp/Loop.antt =====
-- The table `avps` and the loop `handle_avps` of avp.c.
pub mod Total
use xl2tpd.Base.{
  ℕ, zero, suc, ◌-◌, ◌/◌, ◌%◌, Bool, true, false, not, ◌&&◌, ◌||◌, if◌then◌else◌, ltb, ◌==◌,
}
use xl2tpd.Base.{List, [], ◌∷◌, Option, none, some, drop, get_elem?, String}
use xl2tpd.Message.{avp_hdr_size, control_hdr_size, vendor_error, error_length, error_reserved}
use xl2tpd.Session.{Session, Env, cur, put_cur, formatted, set_error}
use xl2tpd.Avp.Raw.{Raw, Reply, fault, ok, einval, word_at}
use xl2tpd.Avp.MessageType.{message_type_avp}
use xl2tpd.Avp.TunnelAvps.{rand_vector_avp, ignore_avp, protocol_version_avp, framing_caps_avp}
use xl2tpd.Avp.TunnelAvps.{bearer_caps_avp, firmware_rev_avp, hostname_avp, vendor_avp}
use xl2tpd.Avp.TunnelAvps.{challenge_avp, chalresp_avp, assigned_tunnel_avp}
use xl2tpd.Avp.TunnelAvps.{receive_window_size_avp}
use xl2tpd.Avp.CallAvps.{seq_reqd_avp, result_code_avp, bearer_type_avp, frame_type_avp}
use xl2tpd.Avp.CallAvps.{dialing_number_avp, dialed_number_avp, sub_address_avp, assigned_call_avp}
use xl2tpd.Avp.CallAvps.{packet_delay_avp, call_serno_avp, rx_speed_avp, tx_speed_avp}
use xl2tpd.Avp.CallAvps.{call_physchan_avp}
use xl2tpd.Avp.Hidden.{Decrypted, decrypt_avp}

abbrev pub Handler : Type 0
Handler = Session → Raw → ℕ → Reply

-- The handlers by attribute; `none` is NULL.
unfoldable pub avps : Env → List (Option Handler)
avps env =
    some (message_type_avp env)
    ∷ some result_code_avp
    ∷ some protocol_version_avp
    ∷ some framing_caps_avp
    ∷ some bearer_caps_avp
    ∷ none
    ∷ some firmware_rev_avp
    ∷ some hostname_avp
    ∷ some vendor_avp
    ∷ some assigned_tunnel_avp
    ∷ some receive_window_size_avp
    ∷ some (challenge_avp env)
    ∷ none
    ∷ some chalresp_avp
    ∷ some assigned_call_avp
    ∷ some call_serno_avp
    ∷ none
    ∷ none
    ∷ some bearer_type_avp
    ∷ some frame_type_avp
    ∷ some packet_delay_avp
    ∷ some dialed_number_avp
    ∷ some dialing_number_avp
    ∷ some sub_address_avp
    ∷ some tx_speed_avp
    ∷ some call_physchan_avp
    ∷ none
    ∷ none
    ∷ none
    ∷ some ignore_avp
    ∷ some ignore_avp
    ∷ some ignore_avp
    ∷ some ignore_avp
    ∷ some ignore_avp
    ∷ none
    ∷ some ignore_avp
    ∷ some rand_vector_avp
    ∷ none
    ∷ some rx_speed_avp
    ∷ some seq_reqd_avp
    ∷ []

abbrev pub avp_max : ℕ
avp_max = 39

unfoldable pub handler : Env → ℕ → Option Handler
unfolding avps
handler env attr = elim (get_elem? (avps env) attr) [ none ↦ none | some h ↦ h ]

-- AMBIT, AHBIT, AZBITS and ALENGTH of a header's first word.
abbrev pub ambit : ℕ → Bool
ambit word = not (word / 32_768 % 2 == 0)

abbrev pub ahbit : ℕ → Bool
ahbit word = not (word / 16_384 % 2 == 0)

abbrev pub azbits : ℕ → Bool
azbits word = not (word / 1024 % 16 == 0)

abbrev pub alength : ℕ → ℕ
alength word = word % 1024

-- What one round of the loop does: return, or go on behind the AVP with `goto next`.
pub data Step : Type 0 where
  halt : Reply → Step
  next : Session → Step

abbrev pub close_with : Session → ℕ → String → List ℕ → Step
close_with s error text args = halt (einval (set_error s error (formatted text args)))

-- The call of the handler.
unfoldable pub run_handler : Env → Session → ℕ → Raw → Step
unfolding handler set_error
run_handler env s attr r = elim (handler env attr) [
  | none ↦
      if ambit r.length_word
      then close_with s vendor_error "No handler for attr %d (%s)" (attr ∷ [])
      else next s
  | some h ↦ elim (h s r (alength r.length_word)) [
    | fault ↦ halt fault
    | ok s' ↦ next s'
    | einval s' ↦
        if ambit r.length_word
        then halt (einval (put_cur s' (record (cur s') { needclose = true })))
        else next s'
  ]
]

-- A hidden AVP is decrypted first; `goto next` skips one that cannot be.
unfoldable pub reveal : Env → Session → ℕ → ℕ → List ℕ → Step
unfolding run_handler decrypt_avp set_error
reveal env s attr word body =
    if ahbit word
    then elim (decrypt_avp env s.tunnel.chal_us word attr body) [
      | Decrypted.fault ↦ halt Reply.fault
      | Decrypted.refused ↦
          if ambit word then close_with s vendor_error "Invalid Hidden AVP" [] else next s
      | Decrypted.plain r ↦ run_handler env s attr r
    ]
    else run_handler env s attr (record { length_word = word; body = body })

-- One round, on a header in host order. `first` is `firstavp`, and `len` what is left.
unfoldable pub one_avp : Env → Bool → ℕ → Session → ℕ → ℕ → List ℕ → Step
unfolding reveal set_error
one_avp env first len s attr word body =
    if ltb avp_max attr
    then (if ambit word
        then close_with s vendor_error "mandatory attribute %d cannot be handled" (attr ∷ [])
        else next s)
    else (if ltb len (alength word)
        then close_with s error_length "Invalid AVP length" []
        else (if not (attr == 0) && first
            then close_with s vendor_error "First AVP must be message type" []
            else (if ltb (alength word) avp_hdr_size
                then close_with s error_length "AVP too small" []
                else (if azbits word
                    then (if ambit word
                        then close_with s error_reserved "reserved bits set in AVP" []
                        else next s)
                    else reveal env s attr word body))))

-- The first word and the attribute of the header at `data`, swapped to host order.
unfoldable pub header : List ℕ → Option (ℕ × ℕ)
unfolding word_at
header buf = elim (word_at 0 buf) [
  | none ↦ none
  | some word ↦ elim (word_at 2 buf) [ none ↦ none | some attr ↦ some (word, attr) ]
]

-- The end of a round, with `rest s n` for the rounds that follow from `n` bytes on. Behind
-- `next:` a length of zero breaks the loop, and one past the end makes `len` negative; both end
-- in -EINVAL.
unfoldable pub end_round : ℕ → ℕ → (Session → ℕ → Option Reply) → Step → Option Reply
end_round len word rest (halt reply) = some reply
end_round len word rest (next s) =
    if alength word == 0 || ltb len (alength word) then some (einval s) else rest s (alength word)

-- One round on the bytes at `data`.
unfoldable pub avp_round :
    Env → Bool → ℕ → Session → List ℕ → (Session → ℕ → Option Reply) → Option Reply
unfolding header one_avp end_round
avp_round env first len s buf rest = elim (header buf) [
  | none ↦ some fault
  | some (word, attr) ↦
      end_round len word rest (one_avp env first len s attr word (drop avp_hdr_size buf))
]

-- The loop. `len` is what is left of the packet, and `buf` the bytes from there to the end of the
-- receive buffer. `none` means that the fuel ran out.
unfoldable pub avp_loop : Env → ℕ → Bool → ℕ → Session → List ℕ → Option Reply
unfolding avp_round
avp_loop env zero first len s buf = none
avp_loop env (suc fuel) first len s buf =
    if len == 0
    then some (ok s)
    else avp_round env first len s buf (λ s' n. avp_loop env fuel false (len - n) s' (drop n buf))

-- `handle_avps` on a packet of `size` bytes with its header, where `buf` is the receive buffer
-- from behind the header on. A size below the header's makes `len` negative.
unfoldable pub handle_avps : Env → ℕ → Session → ℕ → List ℕ → Option Reply
unfolding avp_loop
handle_avps env fuel s size buf =
    if ltb size control_hdr_size
    then some (einval s)
    else avp_loop env fuel true (size - control_hdr_size) s buf
