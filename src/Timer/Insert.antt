-- ===== src/Timer/Insert.antt =====
-- What `schedule` and `deschedule` do to the queue.
use xl2tpd.Base.{ℕ, ◌≡◌, ◌≢◌, refl, ap, ◌==◌}
use xl2tpd.Base.{List, [], ◌∷◌, ◌++◌, some, Bool-cases, inl, inr, ne→==, ==_refl}
use xl2tpd.Timer.{Timeval, Entry, tv_less, deadline, insert, schedule, deschedule}
use xl2tpd.Timer.Order.{NotAfter, NotAfter-of_less, AllFrom, AllFrom-trans, AllUntil, AllAfter}
use xl2tpd.Timer.Order.{IsSorted, AllAfter-of_less}

module _ {ℓ} {A : Type ℓ} where
  AllFrom-insert :
      (a : Timeval) (e : Entry A) (ps : List (Entry A))
      → NotAfter a e.tv
      → AllFrom a ps
      → AllFrom a (insert e ps)
  unfolding insert
  AllFrom-insert a e [] h all = (h, tt)
  AllFrom-insert a e (p ∷ ps) h all = elim (Bool-cases (tv_less e.tv p.tv)) [
    | inl before ↦ rw before (h, all)
    | inr behind ↦ rw behind (all.0, AllFrom-insert a e ps h all.1)
  ]

  pub insert-IsSorted : (e : Entry A) (ps : List (Entry A)) → IsSorted ps → IsSorted (insert e ps)
  unfolding insert
  insert-IsSorted e [] s = (tt, tt)
  insert-IsSorted e (p ∷ ps) s = elim (Bool-cases (tv_less e.tv p.tv)) [
    | inl before ↦
        let le = NotAfter-of_less e.tv p.tv before in
        rw before ((le, AllFrom-trans e.tv p.tv ps le s.0), s)
    | inr behind ↦ rw behind (AllFrom-insert p.tv e ps behind s.0, insert-IsSorted e ps s.1)
  ]

  -- The place of a new entry: behind all that are due at its time or before, ahead of the rest.
  record Place (e : Entry A) (ps : List (Entry A)) : Type ℓ where
    pub front : List (Entry A)
    pub back : List (Entry A)
    pub split : ps ≡ front ++ back
    pub joined : insert e ps ≡ front ++ (e ∷ back)
    pub front_until : AllUntil e.tv front
    pub back_after : AllAfter e.tv back

  insert-Place : (e : Entry A) (ps : List (Entry A)) → IsSorted ps → Place e ps
  unfolding insert
  insert-Place e [] s = record {
    front = [];
    back = [];
    split = refl;
    joined = refl;
    front_until = tt;
    back_after = tt;
  }
  insert-Place e (p ∷ ps) s = elim (Bool-cases (tv_less e.tv p.tv)) [
    | inl before ↦ record {
      front = [];
      back = p ∷ ps;
      split = refl;
      joined = rw before;
      front_until = tt;
      back_after = (before, AllAfter-of_less e.tv p.tv ps before s.0);
    }
    | inr behind ↦
        let q = insert-Place e ps s.1 in
        record {
          front = p ∷ q.front;
          back = q.back;
          split = ap (λ l. p ∷ l) q.split;
          joined = rw behind (ap (λ l. p ∷ l) q.joined);
          front_until = (behind, q.front_until);
          back_after = q.back_after;
        }
  ]

  -- No entry of the queue has this address.
  abbrev pub IsFresh : ℕ → List (Entry A) → Type 0
  IsFresh s [] = Unit
  IsFresh s (p ∷ ps) = (p.id ≢ s) × IsFresh s ps

  deschedule-insert :
      (e : Entry A) (ps : List (Entry A))
      → IsFresh e.id ps
      → deschedule (some e.id) (insert e ps) ≡ ps
  unfolding deschedule insert
  deschedule-insert e [] f = rw (==_refl e.id)
  deschedule-insert e (p ∷ ps) f = elim (Bool-cases (tv_less e.tv p.tv)) [
    | inl before ↦ rw (before, ==_refl e.id)
    | inr behind ↦ rw (behind, ne→== p.id e.id f.0) (ap (λ l. p ∷ l) (deschedule-insert e ps f.1))
  ]

  -- `schedule` keeps a queue in order, and puts the new entry behind every entry that is due no
  -- later and ahead of every entry that is due later: the queue is cut in two there, nothing
  -- else changes.
  pub schedule_lem :
      (now diff : Timeval) (id : ℕ) (action : A) (events : List (Entry A))
      → IsSorted events
      → let e : Entry A = record { id = id; tv = deadline now diff; action = action } in
        IsSorted (schedule now id diff action events)
        × (front : List (Entry A)) × (back : List (Entry A)) × (events ≡ front ++ back)
        × (schedule now id diff action events ≡ front ++ (e ∷ back))
        × AllUntil e.tv front
        × AllAfter e.tv back
  unfolding schedule
  schedule_lem now diff id action events s =
      let e : Entry A = record { id = id; tv = deadline now diff; action = action } in
      let q = insert-Place e events s in
      (insert-IsSorted e events s, q.front, q.back, q.split, q.joined, q.front_until, q.back_after)

  -- An event that is taken back with the address that `schedule` returned leaves the queue as it
  -- was, whatever else is in it, as long as that address was not in use.
  pub deschedule-schedule :
      (now diff : Timeval) (id : ℕ) (action : A) (events : List (Entry A))
      → IsFresh id events
      → deschedule (some id) (schedule now id diff action events) ≡ events
  unfolding schedule
  deschedule-schedule now diff id action events f =
      deschedule-insert (record { id = id; tv = deadline now diff; action = action }) events f

  AllFrom-deschedule :
      (a : Timeval) (s : ℕ) (ps : List (Entry A))
      → AllFrom a ps
      → AllFrom a (deschedule (some s) ps)
  unfolding deschedule
  AllFrom-deschedule a s [] all = tt
  AllFrom-deschedule a s (p ∷ ps) all = elim (Bool-cases (p.id == s)) [
    | inl here ↦ rw here all.1
    | inr other ↦ rw other (all.0, AllFrom-deschedule a s ps all.1)
  ]

  -- `deschedule` keeps a queue in order.
  pub deschedule-IsSorted :
      (s : ℕ) (ps : List (Entry A)) → IsSorted ps → IsSorted (deschedule (some s) ps)
  unfolding deschedule
  deschedule-IsSorted s [] h = tt
  deschedule-IsSorted s (p ∷ ps) h = elim (Bool-cases (p.id == s)) [
    | inl here ↦ rw here h.1
    | inr other ↦ rw other (AllFrom-deschedule p.tv s ps h.0, deschedule-IsSorted s ps h.1)
  ]
