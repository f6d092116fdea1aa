-- ===== src/Avp/Safe/Step.antt =====
-- One round of `handle_avps` (avp.c) stays inside the receive buffer and the table of names.
use mathlib.Core.Path.{subst}
use xl2tpd.Base.{if-intro, sym, ℕ, zero, suc, ◌+◌, ◌-◌, ◌≤◌, ◌≡◌, refl, arith, Bool, true, false}
use xl2tpd.Base.{String, List, [], ◌∷◌, Option, none, some, length}
use xl2tpd.Base.{Bool-cases, inl, inr, if◌then◌else◌}
use xl2tpd.Message.{avp_hdr_size, vendor_error}
use xl2tpd.Session.{Session, Env, cur, put_cur, set_error}
use xl2tpd.Avp.Raw.{Raw, Reply, fault, ok, einval}
use xl2tpd.Avp.Hidden.{Decrypted, decrypt_avp}
use xl2tpd.Avp.Loop.{Handler, Step, halt, next, ambit, ahbit, azbits, alength, close_with, handler}
use xl2tpd.Avp.Loop.{run_handler, reveal, one_avp}
use xl2tpd.Avp.Safe.{IsReady, IsNamed, IsReadable, Keeps, KeepsNamed, Names, readable}
use xl2tpd.Avp.Safe.Table.{
  IsSafe, IsNaming, handler-IsSafe, handler-IsNaming, IsFine, decrypt_avp-IsFine,
}

abbrev pub KeepsStep : Step → Type 0
KeepsStep (halt r) = Keeps r
KeepsStep (next s) = IsReady s × IsNamed s

close_with-Keeps :
    (s : Session) (error : ℕ) (text : String) (args : List ℕ)
    → IsReady s
    → KeepsStep (close_with s error text args)
unfolding set_error
close_with-Keeps s error text args h = h

-- The message type is mandatory where it comes, and there before any other AVP.
abbrev pub Follows : ℕ → ℕ → Session → Type 0
Follows zero word s = ambit word ≡ true
Follows (suc n) word s = IsNamed s

-- The result of a handler, as `run_handler` takes it.
abbrev ended : Raw → Reply → Step
ended r fault = halt fault
ended r (ok s) = next s
ended r (einval s) =
    if ambit r.length_word
    then halt (einval (put_cur s (record (cur s) { needclose = true })))
    else next s

abbrev handled_by : Session → ℕ → Raw → Option Handler → Step
handled_by s attr r none =
    if ambit r.length_word
    then close_with s vendor_error "No handler for attr %d (%s)" (attr ∷ [])
    else next s
handled_by s attr r (some h) = ended r (h s r (alength r.length_word))

run_handler-handled_by :
    (env : Env) (s : Session) (attr : ℕ) (r : Raw)
    → run_handler env s attr r ≡ handled_by s attr r (handler env attr)
unfolding run_handler
run_handler-handled_by env s attr r = by_handler (handler env attr)
  where
    by_reply :
        (reply : Reply)
        → elim reply as (λ x. Step) [
          | fault ↦ halt fault
          | ok s' ↦ next s'
          | einval s' ↦
              if ambit r.length_word
              then halt (einval (put_cur s' (record (cur s') { needclose = true })))
              else next s'
        ]
          ≡ ended r reply
    by_reply fault = refl
    by_reply (ok s') = refl
    by_reply (einval s') = refl

    by_handler :
        (o : Option Handler)
        → elim o as (λ x. Step) [
          | none ↦
              if ambit r.length_word
              then close_with s vendor_error "No handler for attr %d (%s)" (attr ∷ [])
              else next s
          | some h ↦ elim (h s r (alength r.length_word)) as (λ x. Step) [
            | fault ↦ halt fault
            | ok s' ↦ next s'
            | einval s' ↦
                if ambit r.length_word
                then halt (einval (put_cur s' (record (cur s') { needclose = true })))
                else next s'
          ]
        ]
          ≡ handled_by s attr r o
    by_handler none = refl
    by_handler (some h) = by_reply (h s r (alength r.length_word))

ended-Keeps : (r : Raw) (reply : Reply) → KeepsNamed reply → KeepsStep (ended r reply)
ended-Keeps r fault k = k
ended-Keeps r (ok s) k = k
ended-Keeps r (einval s) k = if-intro KeepsStep (ambit r.length_word) k.0 k

ended-Names :
    (r : Raw) (reply : Reply) → ambit r.length_word ≡ true → Names reply → KeepsStep (ended r reply)
ended-Names r fault m k = k
ended-Names r (ok s) m k = k
ended-Names r (einval s) m k = rw m k

handled_by-Keeps :
    (s : Session) (attr : ℕ) (r : Raw) (o : Option Handler)
    → IsSafe o
    → IsReady s
    → IsNamed s
    → IsReadable r
    → KeepsStep (handled_by s attr r o)
handled_by-Keeps s attr r none safe ready named readable =
    if-intro KeepsStep (ambit r.length_word)
      (close_with-Keeps s vendor_error "No handler for attr %d (%s)" (attr ∷ []) ready)
      (ready, named)
handled_by-Keeps s attr r (some h) safe ready named readable =
    ended-Keeps r (h s r (alength r.length_word)) (safe s r ready named readable)

named_by-Keeps :
    (s : Session) (r : Raw) (o : Option Handler)
    → IsNaming o
    → IsReady s
    → ambit r.length_word ≡ true
    → IsReadable r
    → KeepsStep (handled_by s 0 r o)
named_by-Keeps s r none none_such ready m readable = elim none_such [ ]
named_by-Keeps s r (some h) naming ready m readable =
    ended-Names r (h s r (alength r.length_word)) m (naming s r ready readable)

run_handler-Keeps :
    (env : Env) (s : Session) (attr : ℕ) (r : Raw)
    → IsReady s
    → Follows attr r.length_word s
    → IsReadable r
    → KeepsStep (run_handler env s attr r)
run_handler-Keeps env s zero r ready m readable =
    subst KeepsStep (sym (run_handler-handled_by env s 0 r))
      (named_by-Keeps s r (handler env 0) (handler-IsNaming env) ready m readable)
run_handler-Keeps env s (suc n) r ready named readable =
    subst KeepsStep (sym (run_handler-handled_by env s (suc n) r)) (
      handled_by-Keeps s (suc n) r (handler env (suc n)) (handler-IsSafe env n) ready named
        readable)

-- An AVP that is passed by is no message type, since that is mandatory.
passed-Keeps :
    (attr word : ℕ) (s : Session)
    → IsReady s
    → Follows attr word s
    → ambit word ≡ false
    → KeepsStep (next s)
passed-Keeps zero word s ready m off = absurd (ground (arith, m, off))
passed-Keeps (suc n) word s ready named off = (ready, named)

-- Closing for a mandatory AVP, or passing by.
passed_or_closed :
    (attr word : ℕ) (s : Session) (stop : Step)
    → IsReady s
    → Follows attr word s
    → KeepsStep stop
    → KeepsStep (if ambit word then stop else next s)
passed_or_closed attr word s stop ready follows closes = elim (Bool-cases (ambit word)) [
  | inl m ↦ rw m closes
  | inr m ↦ rw m (passed-Keeps attr word s ready follows m)
]

Follows-mandatory :
    (attr word word' : ℕ) (s : Session)
    → (ambit word ≡ true → ambit word' ≡ true)
    → Follows attr word s
    → Follows attr word' s
Follows-mandatory zero word word' s keep m = keep m
Follows-mandatory (suc n) word word' s keep named = named

reveal-Keeps :
    (env : Env) (s : Session) (attr word : ℕ) (body : List ℕ)
    → IsReady s
    → Follows attr word s
    → azbits word ≡ false
    → avp_hdr_size ≤ alength word
    → alength word - avp_hdr_size + 4 ≤ length body
    → KeepsStep (reveal env s attr word body)
unfolding reveal
reveal-Keeps env s attr word body ready follows z six h = elim (Bool-cases (ahbit word)) [
  | inl hidden ↦ rw hidden (
      from (decrypt_avp env s.tunnel.chal_us word attr body)
        (decrypt_avp-IsFine env s.tunnel.chal_us word attr body (ground arith) h))
  | inr shown ↦
      rw shown
        (run_handler-Keeps env s attr _ ready follows (readable _ (omega arith) (omega arith)))
]
  where
    from :
        (d : Decrypted)
        → IsFine word d
        → KeepsStep (elim d [
          | Decrypted.fault ↦ halt Reply.fault
          | Decrypted.refused ↦
              if ambit word then close_with s vendor_error "Invalid Hidden AVP" [] else next s
          | Decrypted.plain r ↦ run_handler env s attr r
        ])
    from Decrypted.fault fine = absurd fine
    from Decrypted.refused fine =
        passed_or_closed attr word s (close_with s vendor_error "Invalid Hidden AVP" []) ready
          follows (close_with-Keeps s vendor_error "Invalid Hidden AVP" [] ready)
    from (Decrypted.plain r) fine =
        run_handler-Keeps env s attr r ready
          (Follows-mandatory attr word r.length_word s fine.1 follows) fine.0

pub one_avp-Keeps :
    (env : Env) (first : Bool) (len : ℕ) (s : Session) (attr word : ℕ) (body : List ℕ)
    → IsReady s
    → Follows attr word s
    → len + 4 ≤ avp_hdr_size + length body
    → KeepsStep (one_avp env first len s attr word body)
unfolding one_avp set_error
one_avp-Keeps env first len s attr word body ready follows h =
    ground (
      arith,
      reveal-Keeps env s attr word body ready follows,
      passed-Keeps attr word s ready follows,
    )
