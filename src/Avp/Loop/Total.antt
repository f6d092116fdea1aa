-- ===== src/Avp/Loop/Total.antt =====
-- The loop of `handle_avps` ends on every packet.
use xl2tpd.Base.{
  ℕ, zero, suc, ◌-◌, ◌≤◌, ◌<◌, ◌≡◌, ◌≢◌, refl, ap, ◌∙◌, if◌then◌else◌, arith, Bool, true, false,
  ◌||◌, ltb, ◌==◌,
}
use xl2tpd.Base.{List, Option, some, none, drop, Bool-cases, inl, inr}
use xl2tpd.Message.{avp_hdr_size, control_hdr_size}
use xl2tpd.Session.{Session, Env}
use xl2tpd.Avp.Raw.{Reply, fault, ok, einval}
use xl2tpd.Avp.Loop.{
  Step, halt, next, alength, header, one_avp, end_round, avp_round, avp_loop, handle_avps,
}

-- Two rounds that differ only in what follows are related as what follows is.
module _ {ℓ} (R : Option Reply → Option Reply → Type ℓ) (env : Env) (first : Bool) (len : ℕ)
    (s : Session) (rest rest' : Session → ℕ → Option Reply)
    (replies : (r : Reply) → R (some r) (some r))
    (follows : (s' : Session) (n : ℕ) → 0 < n → n ≤ len → R (rest s' n) (rest' s' n)) where
  end_round-rel :
      (word : ℕ) (step : Step) → R (end_round len word rest step) (end_round len word rest' step)
  unfolding end_round
  end_round-rel word (halt reply) = replies reply
  end_round-rel word (next s') = elim (Bool-cases (alength word == 0 || ltb len (alength word))) [
    | inl stop ↦ rw stop (replies (einval s'))
    | inr more ↦ rw more (follows s' (alength word) (ground arith) (ground arith))
  ]

  pub avp_round-rel :
      (buf : List ℕ) → R (avp_round env first len s buf rest) (avp_round env first len s buf rest')
  unfolding avp_round
  avp_round-rel buf = from (header buf)
    where
      tail_of : (Session → ℕ → Option Reply) → Option (ℕ × ℕ) → Option Reply
      tail_of k o = elim o [
        | none ↦ some fault
        | some (word, attr) ↦
            end_round len word k (one_avp env first len s attr word (drop avp_hdr_size buf))
      ]

      from : (o : Option (ℕ × ℕ)) → R (tail_of rest o) (tail_of rest' o)
      from none = replies fault
      from (some (word, attr)) =
          end_round-rel word (one_avp env first len s attr word (drop avp_hdr_size buf))

avp_loop-ne-none :
    (env : Env) (fuel : ℕ) (first : Bool) (len : ℕ) (s : Session) (buf : List ℕ)
    → len < fuel
    → avp_loop env fuel first len s buf ≢ none
unfolding avp_loop
avp_loop-ne-none env zero first len s buf h = elim h [ ]
avp_loop-ne-none env (suc fuel) first len s buf h =
    let rest = λ (s' : Session) (n : ℕ). avp_loop env fuel false (len - n) s' (drop n buf) in
    let found =
      avp_round-rel (λ o _. o ≢ none) env first len s rest rest (λ r. cc)
        (λ s' n p q. avp_loop-ne-none env fuel false (len - n) s' (drop n buf) (omega arith)) buf in
    ground (arith, found)

-- More fuel than bytes gives the same answer.
avp_loop_fuel :
    (env : Env) (f g : ℕ) (first : Bool) (len : ℕ) (s : Session) (buf : List ℕ)
    → len < f
    → len < g
    → avp_loop env f first len s buf ≡ avp_loop env g first len s buf
unfolding avp_loop
avp_loop_fuel env zero g first len s buf h k = elim h [ ]
avp_loop_fuel env (suc f) zero first len s buf h k = elim k [ ]
avp_loop_fuel env (suc f) (suc g) first len s buf h k =
    ap (λ r. if len == 0 then some (ok s) else r)
      (avp_round-rel ◌≡◌ env first len s (λ s' n. avp_loop env f false (len - n) s' (drop n buf))
        (λ s' n. avp_loop env g false (len - n) s' (drop n buf)) (λ r. refl)
        (λ s' n p q.
          avp_loop_fuel env f g false (len - n) s' (drop n buf) (omega arith) (omega arith))
        buf)

some_of_ne_none {ℓ} : {A : Type ℓ} (o : Option A) → o ≢ none → (a : A) × (o ≡ some a)
some_of_ne_none none h = absurd (h refl)
some_of_ne_none (some a) h = (a, refl)

-- On every packet and in every state the loop of `handle_avps` ends, within as many rounds as the
-- packet has bytes, and the reply does not depend on how much more fuel there is.
pub handle_avps_total :
    (env : Env) (fuel : ℕ) (s : Session) (size : ℕ) (buf : List ℕ)
    → size < fuel
    → (r : Reply) × (handle_avps env fuel s size buf ≡ some r)
      × (handle_avps env (suc size) s size buf ≡ some r)
unfolding handle_avps
handle_avps_total env fuel s size buf h = elim (Bool-cases (ltb size control_hdr_size)) [
  | inl short ↦ (einval s, rw short, rw short)
  | inr long ↦
      let len = size - control_hdr_size in
      let r =
        some_of_ne_none (avp_loop env fuel true len s buf)
          (avp_loop-ne-none env fuel true len s buf (omega arith)) in
      (
        r.0,
        rw long r.1,
        rw long
            (avp_loop_fuel env (suc size) fuel true len s buf (omega arith) (omega arith) ∙ r.1),
      )
]
