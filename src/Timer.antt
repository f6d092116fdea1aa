-- ===== src/Timer.antt =====
-- scheduler.c and scheduler.h: the queue of timed events.
--
-- `events` is the list of entries from the head on. An entry is known by its address `id`, which
-- stands for the pointer that `schedule` returns; `func` and `data` together are one value of a
-- type `A`, which this code only moves. Absolute times are not negative.
pub mod Order
pub mod Insert
pub mod Run
mod Examples
use xl2tpd.Base.{ℕ, zero, suc, ◌+◌, ◌-◌, Bool, true, false, ◌&&◌, if◌then◌else◌}
use xl2tpd.Base.{
  ℤ, pos, sub_ℕ, not_positive, ◌*◌, ltb, leb, ◌==◌, List, [], ◌∷◌, Option, none, some,
}

pub record Timeval : Type 0 where
  pub sec : ℕ
  pub usec : ℕ

-- TVLESS and TVLESSEQ
abbrev pub tv_less : Timeval → Timeval → Bool
tv_less a b = if a.sec == b.sec then ltb a.usec b.usec else ltb a.sec b.sec

abbrev pub tv_lesseq : Timeval → Timeval → Bool
tv_lesseq a b = if a.sec == b.sec then leb a.usec b.usec else leb a.sec b.sec

pub record Entry {ℓ} (A : Type ℓ) : Type ℓ where
  pub id : ℕ
  pub tv : Timeval
  pub action : A

-- `gettimeofday` plus the delay, as `schedule` computes it.
unfoldable pub deadline : Timeval → Timeval → Timeval
deadline now diff =
    let sec = now.sec + diff.sec in
    let usec = now.usec + diff.usec in
    if ltb 1_000_000 usec
    then record { sec = sec + 1; usec = usec - 1_000_000 }
    else record { sec = sec; usec = usec }

pub record Wait : Type 0 where
  pub sec : ℤ
  pub usec : ℕ

-- The wait that `process_schedule` returns through `ptv` when `head` is the next event. One of no
-- time or less is replaced by a second.
unfoldable pub next_wait : Timeval → Timeval → Wait
next_wait now head =
    let borrow : ℕ = if ltb head.usec now.usec then 1 else 0 in
    let sec = sub_ℕ head.sec (now.sec + borrow) in
    let usec = head.usec + 1_000_000 * borrow - now.usec in
    if not_positive sec && leb usec 0
    then record { sec = pos 1; usec = 0 }
    else record { sec = sec; usec = usec }

module _ {ℓ} {A : Type ℓ} where
  -- The loop of `schedule` that looks for the place, and the insertion.
  pub insert : Entry A → List (Entry A) → List (Entry A)
  insert e [] = e ∷ []
  insert e (p ∷ ps) = if tv_less e.tv p.tv then e ∷ p ∷ ps else p ∷ insert e ps

  pub schedule : Timeval → ℕ → Timeval → A → List (Entry A) → List (Entry A)
  schedule now id diff action events =
      insert (record { id = id; tv = deadline now diff; action = action }) events

  pub deschedule : Option ℕ → List (Entry A) → List (Entry A)
  deschedule none events = events
  deschedule (some s) [] = []
  deschedule (some s) (p ∷ ps) = if p.id == s then ps else p ∷ deschedule (some s) ps

-- `process_schedule`. `clock k` is what the k-th `gettimeofday` of the call returns, and
-- `exec p events w` is the call of `p->func`, which may change the queue and the rest of the
-- state `w`. The result is the queue and state left, and the time last read; `none` means that
-- the fuel ran out.
-- NULL, the `none`, when no event is left.
unfoldable pub next_event {ℓ} : {A : Type ℓ} → Timeval → List (Entry A) → Option Wait
next_event now [] = none
next_event now (p ∷ ps) = some (next_wait now p.tv)

pub record Outcome {ℓ κ} (A : Type ℓ) (W : Type κ) : Type (ℓ ⊔ κ) where
  pub events : List (Entry A)
  pub world : W
  pub now : Timeval

-- The loop of `process_schedule`. `clock k` is what the k-th `gettimeofday` of the call returns,
-- and `exec p events w` is the call of `p->func`, which may change the queue and the rest of the
-- state `w`. The result is the queue and state left, and the time last read; `none` means that
-- the fuel ran out.
module _ {ℓ κ} {A : Type ℓ} {W : Type κ} where
  module _ (clock : ℕ → Timeval) (exec : Entry A → List (Entry A) → W → List (Entry A) × W) where
    pub run_due : ℕ → ℕ → Timeval → List (Entry A) → W → Option (Outcome A W)
    run_due zero k now events w = none
    run_due (suc fuel) k now [] w = some (record { events = []; world = w; now = now })
    run_due (suc fuel) k now (p ∷ ps) w =
        let next = exec p ps w in
        let rest = run_due fuel (k + 1) (clock k) next.0 next.1 in
        if tv_lesseq p.tv (clock k)
        then rest
        else some (record { events = p ∷ ps; world = w; now = clock k })

    -- The whole call: the loop, then the wait for the head of what is left.
    pub process_schedule : ℕ → List (Entry A) → W → Option (Outcome A W × Option Wait)
    unfolding run_due
    process_schedule fuel events w = elim (run_due fuel 0 (record { sec = 0; usec = 0 }) events w) [
      | none ↦ none
      | some o ↦ some (o, next_event o.now o.events)
    ]
