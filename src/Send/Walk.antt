-- ===== src/Send/Walk.antt =====
-- `handle_avps` on a message made of AVPs: it goes from one to the next, in order.
use mathlib.Core.List.{append_assoc}
use xl2tpd.Base.{
  ℕ, zero, suc, ◌+◌, ◌-◌, ◌/◌, ◌%◌, ◌≤◌, ◌<◌, ◌≡◌, refl, ap, ap₂, ne→==, ◌∙◌, arith, Bool, true,
  false,
}
use xl2tpd.Base.{not, ◌&&◌, if◌then◌else◌, ltb, ◌==◌, List, [], ◌∷◌, ◌++◌, length, be16, from_be16}
use xl2tpd.Base.{Option, some, drop, drop-length-append, length-append}
use xl2tpd.Message.{vendor_error, control_hdr_size}
use xl2tpd.Session.{Session, Env}
use xl2tpd.Avp.Raw.{Reply, ok}
use xl2tpd.Avp.Loop.{
  Step, halt, next, alength, ahbit, azbits, close_with, run_handler, reveal, one_avp,
}
use xl2tpd.Avp.Loop.{header, end_round, avp_round, avp_loop, handle_avps}
use xl2tpd.Send.Encode.{Avp, word, encode, encode_all, size_all, IsFit, AllFit}

-- The handler of an AVP, on its value and what lies behind it in the buffer; only a message type
-- may come first.
abbrev pub deliver : Env → Bool → Session → Avp → List ℕ → Step
deliver env first s a behind =
    if not (a.attr == 0) && first
    then close_with s vendor_error "First AVP must be message type" []
    else run_handler env s a.attr (record { length_word = word a; body = a.value ++ behind })

unfoldable pub process : Env → Bool → Session → List Avp → List ℕ → Reply
process env first s [] behind = ok s
process env first s (a ∷ more) behind = elim (deliver env first s a (encode_all more ++ behind)) [
  | halt reply ↦ reply
  | next s' ↦ process env false s' more behind
]

word_facts :
    (a : Avp)
    → IsFit a
    → (from_be16 (word a / 256 % 256) (word a % 256) ≡ word a)
      × (alength (word a) ≡ 6 + length a.value)
      × (ahbit (word a) ≡ false)
      × (azbits (word a) ≡ false)
word_facts a fit = (ground arith, ground arith, ground arith, ground arith)

one_avp_lem :
    (env : Env) (first : Bool) (len : ℕ) (s : Session) (a : Avp) (behind : List ℕ)
    → IsFit a
    → 6 + length a.value ≤ len
    → one_avp env first len s a.attr (word a) (a.value ++ behind) ≡ deliver env first s a behind
unfolding one_avp reveal
one_avp_lem env first len s a behind fit room = ground (arith, word_facts a fit)

encode-append :
    (a : Avp) (more : List ℕ)
    → encode a ++ more ≡ be16 (word a) ++ (be16 0 ++ (be16 a.attr ++ (a.value ++ more)))
encode-append a more = refl

drop-encode : (a : Avp) (more : List ℕ) → drop (6 + length a.value) (encode a ++ more) ≡ more
drop-encode a more = ap (λ k. drop k (encode a ++ more)) six ∙ drop-length-append a.value more
  where
    six : 6 + length a.value ≡ suc (suc (suc (suc (suc (suc (length a.value))))))
    six = omega arith

header-encode :
    (a : Avp) (more : List ℕ) → IsFit a → header (encode a ++ more) ≡ some (word a, a.attr)
unfolding header
header-encode a more fit = ground (arith, word_facts a fit)

round_at :
    (env : Env) (first : Bool) (len : ℕ) (s : Session) (buf : List ℕ)
    (rest : Session → ℕ → Option Reply) (w attr : ℕ)
    → header buf ≡ some (w, attr)
    → avp_round env first len s buf rest
      ≡ end_round len w rest (one_avp env first len s attr w (drop 6 buf))
unfolding avp_round
round_at env first len s buf rest w attr e = rw (avp_round, e)

-- The rest of the round, on what the handler left.
abbrev resume : (Session → ℕ → Option Reply) → ℕ → Step → Option Reply
resume rest n (halt reply) = some reply
resume rest n (next s) = rest s n

resume_lem :
    (a : Avp) (len : ℕ) (rest : Session → ℕ → Option Reply) (d : Step)
    → IsFit a
    → 6 + length a.value ≤ len
    → end_round len (word a) rest d ≡ resume rest (6 + length a.value) d
unfolding end_round
resume_lem a len rest (halt reply) fit room = refl
resume_lem a len rest (next s) fit room = ground (arith, word_facts a fit)

round_lem :
    (env : Env) (first : Bool) (len : ℕ) (s : Session) (a : Avp) (behind : List ℕ)
    (rest : Session → ℕ → Option Reply)
    → IsFit a
    → 6 + length a.value ≤ len
    → avp_round env first len s (encode a ++ behind) rest
      ≡ resume rest (6 + length a.value) (deliver env first s a behind)
round_lem env first len s a behind rest fit room =
    round_at env first len s (encode a ++ behind) rest (word a) a.attr (header-encode a behind fit)
    ∙ ap (end_round len (word a) rest) (one_avp_lem env first len s a behind fit room)
    ∙ resume_lem a len rest (deliver env first s a behind) fit room

-- One AVP, given what the loop does with the rest.
module _ (env : Env) (fuel : ℕ) (a : Avp) (more : List Avp) (behind : List ℕ)
    (follows : (s : Session)
      → avp_loop env fuel false (size_all more) s (encode_all more ++ behind)
        ≡ some (process env false s more behind)) where
  abbrev buf : List ℕ
  buf = encode a ++ (encode_all more ++ behind)

  abbrev rest : Session → ℕ → Option Reply
  rest s n = avp_loop env fuel false (size_all (a ∷ more) - n) s (drop n buf)

  resume-process :
      (d : Step)
      → resume rest (6 + length a.value) d
        ≡ some (elim d [ halt reply ↦ reply | next s ↦ process env false s more behind ])
  resume-process (halt reply) = refl
  resume-process (next s) =
      ap₂ (λ k l. avp_loop env fuel false k s l) (left (length a.value) (size_all more))
        (drop-encode a (encode_all more ++ behind))
      ∙ follows s
    where
      left : (n m : ℕ) → 6 + n + m - (6 + n) ≡ m
      left n m = omega arith

  process-cons :
      (first : Bool) (s : Session)
      → IsFit a
      → avp_loop env (suc fuel) first (size_all (a ∷ more)) s buf
        ≡ some (process env first s (a ∷ more) behind)
  unfolding avp_loop process
  process-cons first s fit = rw (ne→== (size_all (a ∷ more)) 0 (omega arith)) (
      round_lem env first (size_all (a ∷ more)) s a (encode_all more ++ behind) rest fit
        (omega arith)
      ∙ resume-process (deliver env first s a (encode_all more ++ behind)))

avp_loop-process :
    (avps : List Avp) (env : Env) (fuel : ℕ) (first : Bool) (s : Session) (behind : List ℕ)
    → AllFit avps
    → size_all avps < fuel
    → avp_loop env fuel first (size_all avps) s (encode_all avps ++ behind)
      ≡ some (process env first s avps behind)
unfolding avp_loop process
avp_loop-process avps env zero first s behind fit h = absurd (omega arith)
avp_loop-process [] env (suc fuel) first s behind fit h = refl
avp_loop-process (a ∷ more) env (suc fuel) first s behind fit h =
    ap (λ (l : List ℕ). avp_loop env (suc fuel) first (size_all (a ∷ more)) s l)
      (append_assoc (encode a) (encode_all more) behind)
    ∙ process-cons env fuel a more behind
        (λ s'. avp_loop-process more env fuel false s' behind fit.1 (omega arith)) first s fit.0

-- On a message that consists of whole AVPs of the table, and whatever lies behind it in the
-- buffer, `handle_avps` gives each AVP in turn to its handler with exactly its value, until one
-- ends it; only a message type may come first.
pub handle_avps-process :
    (env : Env) (fuel : ℕ) (s : Session) (avps : List Avp) (behind : List ℕ)
    → AllFit avps
    → size_all avps < fuel
    → handle_avps env fuel s (control_hdr_size + size_all avps) (encode_all avps ++ behind)
      ≡ some (process env true s avps behind)
unfolding handle_avps
handle_avps-process env fuel s avps behind fit h = rw (whole (size_all avps)) (
    ap (λ (k : ℕ). avp_loop env fuel true k s (encode_all avps ++ behind)) (left (size_all avps))
    ∙ avp_loop-process avps env fuel true s behind fit h)
  where
    whole : (n : ℕ) → ltb (12 + n) 12 ≡ false
    whole n = ground arith

    left : (n : ℕ) → 12 + n - 12 ≡ n
    left n = omega arith

length-encode_all : (avps : List Avp) → length (encode_all avps) ≡ size_all avps
length-encode_all [] = refl
length-encode_all (a ∷ more) =
    omega (arith, length-append (encode a) (encode_all more), length-encode_all more)

-- The same, on a content that is such a message.
pub handle_avps-content :
    (env : Env) (fuel : ℕ) (s : Session) (avps : List Avp) (content behind : List ℕ)
    → AllFit avps
    → content ≡ encode_all avps
    → size_all avps < fuel
    → handle_avps env fuel s (control_hdr_size + length content) (content ++ behind)
      ≡ some (process env true s avps behind)
handle_avps-content env fuel s avps content behind fit e enough =
    ap₂ (λ (n : ℕ) (l : List ℕ). handle_avps env fuel s (control_hdr_size + n) (l ++ behind))
      (ap (λ (l : List ℕ). length l) e ∙ length-encode_all avps) e
    ∙ handle_avps-process env fuel s avps behind fit enough
