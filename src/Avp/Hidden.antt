-- ===== src/Avp/Hidden.antt =====
-- `decrypt_avp` of aaa.c: a hidden AVP is turned into a plain one.
use xl2tpd.Base.{ℕ, ◌+◌, ◌-◌, ◌*◌, ◌/◌, ◌%◌, if◌then◌else◌, ltb, leb, ◌==◌, bit_xor}
use xl2tpd.Base.{List, [], ◌∷◌, ◌++◌, none, some, take, drop, length, be16, get_elem?}
use xl2tpd.Message.{md_sig_size, avp_hdr_size}
use xl2tpd.Session.{Env, Challenge, c_string}
use xl2tpd.Avp.Raw.{Raw, word_at}

pub data Decrypted : Type 0 where
  fault refused : Decrypted
  plain : Raw → Decrypted

-- `digest[cnt]`
abbrev pub digest_byte : List ℕ → ℕ → ℕ
digest_byte digest i = elim (get_elem? digest i) [ none ↦ 0 | some b ↦ b ]

-- The loop over the bytes from `ptr` to `end`. A segment of the cipher text is saved at its first
-- byte, for the digest of the next one.
module _ (env : Env) (secret : List ℕ) where
  unfoldable pub decrypt_bytes : List ℕ → ℕ → List ℕ → List ℕ → List ℕ
  decrypt_bytes digest cnt saved [] = []
  decrypt_bytes digest cnt saved (b ∷ bs) =
      let fresh = leb md_sig_size cnt in
      let digest' : List ℕ = if fresh then env.md5 (secret ++ saved) else digest in
      let cnt' : ℕ = if fresh then 0 else cnt in
      let saved' : List ℕ = if cnt' == 0 then take md_sig_size (b ∷ bs) else saved in
      bit_xor b (digest_byte digest' cnt') ∷ decrypt_bytes digest' (cnt' + 1) saved' bs

-- `flags`: the four high bits without the one for hiding.
abbrev pub plain_flags : ℕ → ℕ
plain_flags word = word / 32_768 % 2 * 32_768 + word / 4096 % 4 * 4096

-- The new header starts two bytes on, so its length field stands over the first two bytes of
-- the value, and the plain value behind them.
unfoldable pub rewrite_header : ℕ → List ℕ → Decrypted
unfolding word_at
rewrite_header word bytes = elim (word_at 0 bytes) [
  | none ↦ fault
  | some inner ↦
      if ltb (word % 4096 - 2) (inner + avp_hdr_size)
      then refused
      else plain
          (record { length_word = inner + avp_hdr_size + plain_flags word; body = drop 2 bytes })
]

unfoldable pub decrypt_avp : Env → Challenge → ℕ → ℕ → List ℕ → Decrypted
unfolding decrypt_bytes rewrite_header c_string
decrypt_avp env chal word attr body =
    let size = word % 4096 - avp_hdr_size in
    elim (chal.vector) [
      | none ↦ refused
      | some vector ↦
          let secret = c_string chal.secret in
          if ltb (length body) size
          then fault
          else rewrite_header word (
              decrypt_bytes env secret (env.md5 (be16 attr ++ (secret ++ vector))) 0 []
                (take size body)
              ++ drop size body)
    ]
