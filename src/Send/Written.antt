-- ===== src/Send/Written.antt =====
-- What the `add_` functions write, as AVPs, and what a closing message holds.
use mathlib.Core.List.{append_assoc, append-nil}
use xl2tpd.Base.{ℕ, ◌+◌, ◌≤◌, ◌<◌, ◌≡◌, refl, sym, ap, ap₂, ◌∙◌, arith, true}
use xl2tpd.Base.{
  List, [], ◌∷◌, ◌++◌, length, length-append, be16, Option, none, some, pos, u16, ◌>>=◌,
}
use xl2tpd.Message.{stop_ccn, cdn}
use xl2tpd.Send.{Buffer, emit, with_mbit, add_header, add_nonmandatory_header}
use xl2tpd.Send.{add_message_type_avp, add_tunnelid_avp, add_result_code_avp, add_callid_avp}
use xl2tpd.Send.Encode.{Avp, word, encode, encode_all}
use xl2tpd.Send.Closing.{add_vector, add_stop_ccn, add_cdn}

abbrev pub word_avp : ℕ → ℕ → Avp
word_avp attr n = record { mandatory = true; attr = attr; value = be16 n }

abbrev pub result_avp : ℕ → ℕ → List ℕ → Avp
result_avp result error msg = record {
  mandatory = true;
  attr = 1;
  value = be16 result ++ (be16 error ++ msg);
}

pub add_message_type_avp-encode :
    (n : ℕ) (b : Buffer) → add_message_type_avp n b ≡ emit (encode (word_avp 0 n)) 0 b
unfolding add_message_type_avp
add_message_type_avp-encode n b = refl

pub add_tunnelid_avp-encode :
    (n : ℕ) (b : Buffer) → add_tunnelid_avp n b ≡ emit (encode (word_avp 9 n)) 0 b
unfolding add_tunnelid_avp
add_tunnelid_avp-encode n b = refl

pub add_callid_avp-encode :
    (n : ℕ) (b : Buffer) → add_callid_avp n b ≡ emit (encode (word_avp 14 n)) 0 b
unfolding add_callid_avp
add_callid_avp-encode n b = refl

pub add_result_code_avp-encode :
    (result error : ℕ) (msg : List ℕ) (b : Buffer)
    → length msg ≤ 1013
    → add_result_code_avp result error msg b ≡ emit (encode (result_avp result error msg)) 0 b
unfolding add_result_code_avp add_header add_nonmandatory_header
add_result_code_avp-encode result error msg b h =
    ap
      (λ (w : ℕ). emit (be16 w ++ (be16 0 ++ (be16 1 ++ (be16 result ++ (be16 error ++ msg))))) 0 b)
      same
  where
    same : with_mbit (10 + length msg) ≡ word (result_avp result error msg)
    same = omega arith

bind-some :
    (o : Option Buffer) (k : Buffer → Option Buffer) (b : Buffer) (r : Option Buffer)
    → o ≡ some b
    → k b ≡ r
    → (o >>= k) ≡ r
bind-some o k b r e f = rw e f

abbrev extended : Buffer → List ℕ → Buffer
extended b xs = record b { content = b.content ++ xs }

emit-fits :
    (xs : List ℕ) (b : Buffer)
    → length b.content + length xs ≤ b.room
    → emit xs 0 b ≡ some (extended b xs)
unfolding emit
emit-fits xs b h = ground arith

pub content-emit :
    (xs : List ℕ) (b b' : Buffer) → emit xs 0 b ≡ some b' → b'.content ≡ b.content ++ xs
unfolding emit
content-emit xs b b' e = ground arith

abbrev pub stop_ccn_avps : ℕ → ℕ → ℕ → List ℕ → List Avp
stop_ccn_avps ourtid result error msg =
    word_avp 0 stop_ccn ∷ word_avp 9 ourtid ∷ result_avp result error msg ∷ []

abbrev pub cdn_avps : ℕ → ℕ → ℕ → List ℕ → List Avp
cdn_avps ourcid result error msg =
    word_avp 0 cdn ∷ result_avp result error msg ∷ word_avp 14 ourcid ∷ []

-- Three AVPs written in order.
content_3 :
    (a1 a2 a3 : Avp) (b1 b2 b3 : Buffer) (n : ℕ)
    → emit (encode a1) 0 (record { content = []; room = n }) ≡ some b1
    → emit (encode a2) 0 b1 ≡ some b2
    → emit (encode a3) 0 b2 ≡ some b3
    → b3.content ≡ encode_all (a1 ∷ a2 ∷ a3 ∷ [])
content_3 a1 a2 a3 b1 b2 b3 n e1 e2 e3 =
    content-emit (encode a3) b2 b3 e3
    ∙ ap (λ (l : List ℕ). l ++ encode a3)
        (content-emit (encode a2) b1 b2 e2
          ∙ ap (λ (l : List ℕ). l ++ encode a2)
              (content-emit (encode a1) (record { content = []; room = n }) b1 e1))
    ∙ append_assoc (encode a1) (encode a2) (encode a3)
    ∙ ap (λ (l : List ℕ). encode a1 ++ (encode a2 ++ l)) (sym (append-nil (encode a3)))

whole : (k : ℕ) → k < 65_536 → u16 k ≡ k
whole k h = omega arith

module _ (n id result error : ℕ) (msg : List ℕ) (id_small : id < 65_536)
    (result_small : result < 65_536) (error_small : error < 65_536) (short : length msg ≤ 1013)
    (fits : 26 + length msg ≤ n) where
  abbrev pub b0 : Buffer
  b0 = record { content = []; room = n }

  result-encode :
      (b : Buffer)
      → add_result_code_avp (u16 result) (u16 error) msg b
        ≡ emit (encode (result_avp result error msg)) 0 b
  result-encode b =
      ap₂ (λ (k l : ℕ). add_result_code_avp k l msg b) (whole result result_small)
        (whole error error_small)
      ∙ add_result_code_avp-encode result error msg b short

  pub add_stop_ccn-encode :
      (b : Buffer) × (add_stop_ccn none id
          (pos result)
          (pos error)
          msg
          (record { content = []; room = n })
        ≡ some b)
      × (b.content ≡ encode_all (stop_ccn_avps id result error msg))
  unfolding add_stop_ccn add_vector
  add_stop_ccn-encode =
      let b1 = extended b0 (encode (word_avp 0 stop_ccn)) in
      let b2 = extended b1 (encode (word_avp 9 id)) in
      let b3 = extended b2 (encode (result_avp result error msg)) in
      let e1 = emit-fits (encode (word_avp 0 stop_ccn)) b0 (omega arith) in
      let e2 = emit-fits (encode (word_avp 9 id)) b1 (omega arith) in
      let e3 = emit-fits (encode (result_avp result error msg)) b2 (omega arith) in
      (
        b3,
        bind-some (add_message_type_avp stop_ccn b0)
            (λ c. add_tunnelid_avp (u16 id) c >>= add_result_code_avp (u16 result) (u16 error) msg)
            b1 (some b3) (add_message_type_avp-encode stop_ccn b0 ∙ e1)
            (bind-some (add_tunnelid_avp (u16 id) b1)
              (add_result_code_avp (u16 result) (u16 error) msg) b2 (some b3)
              (ap (λ (k : ℕ). add_tunnelid_avp k b1) (whole id id_small)
                ∙ add_tunnelid_avp-encode id b1
                ∙ e2)
              (result-encode b2 ∙ e3)),
        content_3 (word_avp 0 stop_ccn) (word_avp 9 id) (result_avp result error msg) b1 b2 b3 n e1
            e2 e3,
      )

  pub add_cdn-encode :
      (b : Buffer) × (add_cdn none id
          (pos result)
          (pos error)
          msg
          (record { content = []; room = n })
        ≡ some b)
      × (b.content ≡ encode_all (cdn_avps id result error msg))
  unfolding add_cdn add_vector
  add_cdn-encode =
      let b1 = extended b0 (encode (word_avp 0 cdn)) in
      let b2 = extended b1 (encode (result_avp result error msg)) in
      let b3 = extended b2 (encode (word_avp 14 id)) in
      let e1 = emit-fits (encode (word_avp 0 cdn)) b0 (omega arith) in
      let e2 = emit-fits (encode (result_avp result error msg)) b1 (omega arith) in
      let e3 = emit-fits (encode (word_avp 14 id)) b2 (
        omega (
          arith,
          length-append (encode (word_avp 0 cdn)) (encode (result_avp result error msg)),
        )) in
      (
        b3,
        bind-some (add_message_type_avp cdn b0)
            (λ c. add_result_code_avp (u16 result) (u16 error) msg c >>= add_callid_avp (u16 id)) b1
            (some b3) (add_message_type_avp-encode cdn b0 ∙ e1)
            (bind-some (add_result_code_avp (u16 result) (u16 error) msg b1)
              (add_callid_avp (u16 id)) b2 (some b3) (result-encode b1 ∙ e2)
              (ap (λ (k : ℕ). add_callid_avp k b2) (whole id id_small)
                ∙ add_callid_avp-encode id b2
                ∙ e3)),
        content_3 (word_avp 0 cdn) (result_avp result error msg) (word_avp 14 id) b1 b2 b3 n e1 e2
            e3,
      )
