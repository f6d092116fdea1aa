-- ===== src/Avp/Safe/Table.antt =====
-- The table `avps`, and the plain AVP that `decrypt_avp` gives.
use xl2tpd.Base.{◌&◌, ℕ, zero, suc, ◌+◌, ◌-◌, ◌/◌, ◌%◌, ◌≤◌, ◌≡◌, ◌<◌, true, refl, ap, arith}
use xl2tpd.Base.{List, [], ◌∷◌, ◌++◌, Option, none, some, get_elem?, length, take, drop, All}
use xl2tpd.Base.{
  length-append, length-take, length-drop, Bool-cases, inl, inr, ltb, ltb→le, le→ltb, from_be16,
  be16, if◌then◌else◌,
}
use xl2tpd.Message.{avp_hdr_size}
use xl2tpd.Session.{Session, Env, Challenge, c_string}
use xl2tpd.Avp.Raw.{Raw}
use xl2tpd.Avp.Hidden.{plain_flags, decrypt_bytes, rewrite_header, decrypt_avp, Decrypted}
use xl2tpd.Avp.Loop.{Handler, avps, handler, ambit}
use xl2tpd.Avp.Safe.{IsReady, IsNamed, IsReadable, KeepsNamed, Names, readable}
use xl2tpd.Avp.Safe.Handlers

abbrev pub IsSafe : Option Handler → Type 0
IsSafe none = Unit
IsSafe (some h) =
    (s : Session) (r : Raw)
    → IsReady s
    → IsNamed s
    → IsReadable r
    → KeepsNamed (h s r (r.length_word % 1024))

-- The first handler, which is for the message type, needs none before it.
abbrev pub IsNaming : Option Handler → Type 0
IsNaming none = ⊥
IsNaming (some h) =
    (s : Session) (r : Raw) → IsReady s → IsReadable r → Names (h s r (r.length_word % 1024))

abbrev AllSafe : List (Option Handler) → Type 0
AllSafe [] = ⊥
AllSafe (h ∷ hs) = IsNaming h × All IsSafe hs

IsSafe-lookup :
    (hs : List (Option Handler)) (i : ℕ)
    → All IsSafe hs
    → IsSafe (elim (get_elem? hs i) [ none ↦ none | some h ↦ h ])
IsSafe-lookup [] i all = tt
IsSafe-lookup (h ∷ hs) zero all = all.0
IsSafe-lookup (h ∷ hs) (suc i) all = IsSafe-lookup hs i all.1

avps-AllSafe : (env : Env) → AllSafe (avps env)
unfolding avps
avps-AllSafe env =
    Handlers.message_type_avp-Names env
    & Handlers.result_code_avp-KeepsNamed env
    & Handlers.protocol_version_avp-KeepsNamed env
    & Handlers.framing_caps_avp-KeepsNamed env
    & Handlers.bearer_caps_avp-KeepsNamed env
    & tt
    & Handlers.firmware_rev_avp-KeepsNamed env
    & Handlers.hostname_avp-KeepsNamed env
    & Handlers.vendor_avp-KeepsNamed env
    & Handlers.assigned_tunnel_avp-KeepsNamed env
    & Handlers.receive_window_size_avp-KeepsNamed env
    & Handlers.challenge_avp-KeepsNamed env
    & tt
    & Handlers.chalresp_avp-KeepsNamed env
    & Handlers.assigned_call_avp-KeepsNamed env
    & Handlers.call_serno_avp-KeepsNamed env
    & tt
    & tt
    & Handlers.bearer_type_avp-KeepsNamed env
    & Handlers.frame_type_avp-KeepsNamed env
    & Handlers.packet_delay_avp-KeepsNamed env
    & Handlers.dialed_number_avp-KeepsNamed env
    & Handlers.dialing_number_avp-KeepsNamed env
    & Handlers.sub_address_avp-KeepsNamed env
    & Handlers.tx_speed_avp-KeepsNamed env
    & Handlers.call_physchan_avp-KeepsNamed env
    & tt
    & tt
    & tt
    & Handlers.ignore_avp-KeepsNamed env
    & Handlers.ignore_avp-KeepsNamed env
    & Handlers.ignore_avp-KeepsNamed env
    & Handlers.ignore_avp-KeepsNamed env
    & Handlers.ignore_avp-KeepsNamed env
    & tt
    & Handlers.ignore_avp-KeepsNamed env
    & Handlers.rand_vector_avp-KeepsNamed env
    & tt
    & Handlers.rx_speed_avp-KeepsNamed env
    & Handlers.seq_reqd_avp-KeepsNamed env
    & tt

abbrev entry : List (Option Handler) → ℕ → Option Handler
entry hs i = elim (get_elem? hs i) [ none ↦ none | some h ↦ h ]

naming : (hs : List (Option Handler)) → AllSafe hs → IsNaming (entry hs 0)
naming [] none_such = elim none_such [ ]
naming (h ∷ hs) all = all.0

IsSafe-later : (hs : List (Option Handler)) (n : ℕ) → AllSafe hs → IsSafe (entry hs (suc n))
IsSafe-later [] n none_such = elim none_such [ ]
IsSafe-later (h ∷ hs) n all = IsSafe-lookup hs n all.1

pub handler-IsNaming : (env : Env) → IsNaming (handler env 0)
unfolding handler
handler-IsNaming env = naming (avps env) (avps-AllSafe env)

pub handler-IsSafe : (env : Env) (n : ℕ) → IsSafe (handler env (suc n))
unfolding handler
handler-IsSafe env n = IsSafe-later (avps env) n (avps-AllSafe env)

length-decrypt_bytes :
    (env : Env) (secret bytes digest : List ℕ) (cnt : ℕ) (saved : List ℕ)
    → length (decrypt_bytes env secret digest cnt saved bytes) ≡ length bytes
unfolding decrypt_bytes
length-decrypt_bytes env secret [] digest cnt saved = refl
length-decrypt_bytes env secret (b ∷ bs) digest cnt saved =
    ap suc (length-decrypt_bytes env secret bs _ _ _)

-- What is decrypted is no fault, and a plain AVP that comes out is readable and as mandatory.
abbrev pub IsFine : ℕ → Decrypted → Type 0
IsFine word Decrypted.fault = ⊥
IsFine word Decrypted.refused = Unit
IsFine word (Decrypted.plain r) = IsReadable r × (ambit word ≡ true → ambit r.length_word ≡ true)

-- The M bit of the new length word.
mandatory : (word n : ℕ) → n < 4096 → ambit word ≡ true → ambit (n + plain_flags word) ≡ true
mandatory word n small m = ground (arith, m)

rewrite_header-IsFine :
    (word : ℕ) (bytes : List ℕ)
    → word / 1024 % 4 ≡ 0
    → word % 1024 - avp_hdr_size + 4 ≤ length bytes
    → IsFine word (rewrite_header word bytes)
unfolding rewrite_header
rewrite_header-IsFine word [] z h = absurd (omega arith)
rewrite_header-IsFine word (a ∷ []) z h = absurd (omega arith)
rewrite_header-IsFine word (a ∷ b ∷ l) z h =
    elim (Bool-cases (ltb (word % 4096 - 2) (from_be16 a b + avp_hdr_size))) [
      | inl long ↦ rw long tt
      | inr fits ↦ rw fits (
        readable _ (omega (arith, ltb→le _ _ fits)) (omega (arith, ltb→le _ _ fits)),
        mandatory word (from_be16 a b + avp_hdr_size) (omega (arith, ltb→le _ _ fits)),
      )
    ]

pub decrypt_avp-IsFine :
    (env : Env) (chal : Challenge) (word attr : ℕ) (body : List ℕ)
    → word / 1024 % 4 ≡ 0
    → word % 1024 - avp_hdr_size + 4 ≤ length body
    → IsFine word (decrypt_avp env chal word attr body)
unfolding decrypt_avp
decrypt_avp-IsFine env chal word attr body z h = from (chal.vector)
  where
    size : ℕ
    size = word % 4096 - avp_hdr_size

    secret : List ℕ
    secret = c_string chal.secret

    clear : List ℕ → List ℕ
    clear vector =
        decrypt_bytes env secret (env.md5 (be16 attr ++ (secret ++ vector))) 0 [] (take size body)
        ++ drop size body

    fits : (vector : List ℕ) → length (clear vector) ≡ length body
    fits vector = omega (
      arith,
      length-append {0}
          (decrypt_bytes env secret (env.md5 (be16 attr ++ (secret ++ vector))) 0 []
            (take size body))
          (drop size body),
      length-decrypt_bytes env secret (take size body) (env.md5 (be16 attr ++ (secret ++ vector))) 0
          [],
      length-take {0} size body,
      length-drop {0} size body,
    )

    from :
        (o : Option (List ℕ))
        → IsFine word (elim o [
          | none ↦ Decrypted.refused
          | some vector ↦
              if ltb (length body) size then Decrypted.fault else rewrite_header word (clear vector)
        ])
    from none = tt
    from (some vector) =
        rw (le→ltb (length body) size (omega arith))
          (rewrite_header-IsFine word (clear vector) z (omega (arith, fits vector)))
