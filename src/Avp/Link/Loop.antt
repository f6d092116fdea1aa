-- ===== src/Avp/Link/Loop.antt =====
-- `handle_avps` leaves the connection as it is.
use mathlib.Core.Path.{subst}
use xl2tpd.Base.{
  ◌⊎◌, ℕ, zero, suc, ◌-◌, ◌≡◌, arith, Bool, true, false, List, [], ◌∷◌, Option, none, some, drop,
  Bool-cases, inl, inr, if◌then◌else◌, ◌==◌, ◌||◌, ltb,
}
use xl2tpd.Session.{Session, Env, cur, put_cur, set_error}
use xl2tpd.Avp.Raw.{Raw, Reply, fault, ok, einval}
use xl2tpd.Avp.Hidden.{Decrypted, decrypt_avp}
use xl2tpd.Avp.Loop.{
  Handler, Step, halt, next, ambit, alength, ahbit, handler, close_with, run_handler, reveal,
}
use xl2tpd.Avp.Loop.{one_avp, end_round, header, avp_round, avp_loop, handle_avps}
use xl2tpd.Message.{vendor_error, control_hdr_size}
use xl2tpd.Avp.Link.{SameLink, SameReply}
use xl2tpd.Avp.Link.Handlers.{Leaves, handler-Leaves}

abbrev SameStep : Session → Step → Type 0
SameStep s (halt reply) = SameReply s reply
SameStep s (next s') = SameLink s s'

abbrev pub SameMaybe : Session → Option Reply → Type 0
SameMaybe s none = Unit
SameMaybe s (some reply) = SameReply s reply

-- After a handler, or without one.
abbrev after : Raw → Reply → Step
after r fault = halt fault
after r (ok s') = next s'
after r (einval s') =
    if ambit r.length_word
    then halt (einval (put_cur s' (record (cur s') { needclose = true })))
    else next s'

after-SameStep :
    (s : Session) (r : Raw) (reply : Reply) → SameReply s reply → SameStep s (after r reply)
after-SameStep s r fault same = same
after-SameStep s r (ok s') same = same
after-SameStep s r (einval s') same = elim (Bool-cases (ambit r.length_word)) [
  | inl m ↦ rw m (ground (arith, same))
  | inr m ↦ rw m same
]

abbrev handled : Session → ℕ → Raw → Option Handler → Step
handled s attr r none =
    if ambit r.length_word
    then close_with s vendor_error "No handler for attr %d (%s)" (attr ∷ [])
    else next s
handled s attr r (some h) = after r (h s r (alength r.length_word))

handled-SameStep :
    (s : Session) (attr : ℕ) (r : Raw) (o : Option Handler)
    → Leaves o
    → SameStep s (handled s attr r o)
unfolding set_error
handled-SameStep s attr r none leaves = ground arith
handled-SameStep s attr r (some h) leaves =
    after-SameStep s r (h s r (alength r.length_word)) (leaves s r (alength r.length_word))

run_handler-SameStep :
    (env : Env) (s : Session) (attr : ℕ) (r : Raw) → SameStep s (run_handler env s attr r)
unfolding run_handler
run_handler-SameStep env s attr r =
    handled-SameStep s attr r (handler env attr) (handler-Leaves env attr)

reveal-SameStep :
    (env : Env) (s : Session) (attr word : ℕ) (body : List ℕ)
    → SameStep s (reveal env s attr word body)
unfolding reveal set_error
reveal-SameStep env s attr word body = elim (Bool-cases (ahbit word)) [
  | inl hidden ↦ rw hidden (from (decrypt_avp env s.tunnel.chal_us word attr body))
  | inr shown ↦
      rw shown (run_handler-SameStep env s attr (record { length_word = word; body = body }))
]
  where
    from :
        (d : Decrypted)
        → SameStep s (elim d [
          | Decrypted.fault ↦ halt Reply.fault
          | Decrypted.refused ↦
              if ambit word then close_with s vendor_error "Invalid Hidden AVP" [] else next s
          | Decrypted.plain r ↦ run_handler env s attr r
        ])
    from Decrypted.fault = tt
    from Decrypted.refused = ground arith
    from (Decrypted.plain r) = run_handler-SameStep env s attr r

one_avp-SameStep :
    (env : Env) (first : Bool) (len : ℕ) (s : Session) (attr word : ℕ) (body : List ℕ)
    → SameStep s (one_avp env first len s attr word body)
unfolding one_avp set_error
one_avp-SameStep env first len s attr word body =
    ground (arith, reveal-SameStep env s attr word body)

same_trans : (s s' : Session) (o : Option Reply) → SameLink s s' → SameMaybe s' o → SameMaybe s o
same_trans s s' none a b = tt
same_trans s s' (some fault) a b = tt
same_trans s s' (some (ok s'')) a b = ground (arith, a, b)
same_trans s s' (some (einval s'')) a b = ground (arith, a, b)

end_round-SameMaybe :
    (s : Session) (len word : ℕ) (rest : Session → ℕ → Option Reply) (d : Step)
    → ((s' : Session) (n : ℕ) → SameMaybe s' (rest s' n))
    → SameStep s d
    → SameMaybe s (end_round len word rest d)
unfolding end_round
end_round-SameMaybe s len word rest (halt reply) all same = same
end_round-SameMaybe s len word rest (next s') all same =
    elim (Bool-cases (alength word == 0 || ltb len (alength word))) [
      | inl e ↦ rw e same
      | inr e ↦ rw e (same_trans s s' (rest s' (alength word)) same (all s' (alength word)))
    ]

avp_round-SameMaybe :
    (env : Env) (first : Bool) (len : ℕ) (s : Session) (buf : List ℕ)
    (rest : Session → ℕ → Option Reply)
    → ((s' : Session) (n : ℕ) → SameMaybe s' (rest s' n))
    → SameMaybe s (avp_round env first len s buf rest)
unfolding avp_round
avp_round-SameMaybe env first len s buf rest all = from (header buf)
  where
    from :
        (o : Option (ℕ × ℕ))
        → SameMaybe s (elim o [
          | none ↦ some fault
          | some (word, attr) ↦
              end_round len word rest (one_avp env first len s attr word (drop 6 buf))
        ])
    from none = tt
    from (some (word, attr)) =
        end_round-SameMaybe s len word rest (one_avp env first len s attr word (drop 6 buf)) all
          (one_avp-SameStep env first len s attr word (drop 6 buf))

avp_loop-SameMaybe :
    (fuel : ℕ) (env : Env) (first : Bool) (len : ℕ) (s : Session) (buf : List ℕ)
    → SameMaybe s (avp_loop env fuel first len s buf)
unfolding avp_loop
avp_loop-SameMaybe zero env first len s buf = tt
avp_loop-SameMaybe (suc fuel) env first len s buf = elim (Bool-cases (len == 0)) [
  | inl e ↦ rw e (ground arith)
  | inr e ↦ rw e (
      avp_round-SameMaybe env first len s buf
        (λ s' n. avp_loop env fuel false (len - n) s' (drop n buf))
        (λ s' n. avp_loop-SameMaybe fuel env false (len - n) s' (drop n buf)))
]

pub handle_avps-SameMaybe :
    (env : Env) (fuel : ℕ) (s : Session) (size : ℕ) (buf : List ℕ)
    → SameMaybe s (handle_avps env fuel s size buf)
unfolding handle_avps
handle_avps-SameMaybe env fuel s size buf = elim (Bool-cases (ltb size control_hdr_size)) [
  | inl e ↦ rw e (ground arith)
  | inr e ↦ rw e (avp_loop-SameMaybe fuel env true (size - control_hdr_size) s buf)
]

-- Whatever a packet holds, and however it ends, `handle_avps` leaves the sequence numbers of the
-- connection, the tunnel's own number, its state, its own call, its configured entries and its
-- peer as they are, and goes on with the same call; nor does it change our challenge to the peer
-- or the response that we expect.
pub handle_avps-SameLink :
    (env : Env) (fuel : ℕ) (s : Session) (size : ℕ) (buf : List ℕ) (s' : Session)
    → (handle_avps env fuel s size buf ≡ some (ok s'))
      ⊎ (handle_avps env fuel s size buf ≡ some (einval s'))
    → SameLink s s'
handle_avps-SameLink env fuel s size buf s' (inl e) =
    subst (SameMaybe s) e (handle_avps-SameMaybe env fuel s size buf)
handle_avps-SameLink env fuel s size buf s' (inr e) =
    subst (SameMaybe s) e (handle_avps-SameMaybe env fuel s size buf)
