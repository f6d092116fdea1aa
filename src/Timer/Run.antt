-- ===== src/Timer/Run.antt =====
-- Deadlines and waits in microseconds, and what the loop of `process_schedule` does.
use xl2tpd.Base.{ℕ, zero, suc, ◌+◌, ◌-◌, ◌*◌, ◌≤◌, ◌<◌, ◌≡◌, ◌≢◌, ◌↔◌, refl, arith, true}
use xl2tpd.Base.{if◌then◌else◌, List, [], ◌∷◌, some, Bool-cases, inl, inr, ltb, pos}
use xl2tpd.Timer.{Timeval, Entry, Outcome, tv_less, tv_lesseq, deadline, next_wait, run_due}
use xl2tpd.Timer.Order.{NotAfter, AllAfter, IsSorted, AllAfter-of_less, less_of_not_lesseq}

abbrev pub micros : Timeval → ℕ
micros t = t.sec * 1_000_000 + t.usec

-- `schedule` computes the present time plus the delay exactly. From two normal times its
-- microseconds are at most 1000000, and fail to be normal just where the two parts make up
-- 1000000, since the code tests `>`.
pub deadline_lem :
    (now diff : Timeval)
    → now.usec < 1_000_000
    → diff.usec < 1_000_000
    → (micros (deadline now diff) ≡ micros now + micros diff)
      × ((deadline now diff).usec ≤ 1_000_000)
      × (((deadline now diff).usec < 1_000_000) ↔ (now.usec + diff.usec ≢ 1_000_000))
unfolding deadline
deadline_lem now diff p q = (ground arith, ground arith, (λ h. ground arith, λ h. ground arith))

-- For a next event that is due after the present time, the wait of `process_schedule` is
-- positive and ends exactly when the event is due: the branch that replaces it is not taken.
pub next_wait_lem :
    (now head : Timeval)
    → now.usec < 1_000_000
    → tv_less now head ≡ true
    → (s : ℕ) × ((next_wait now head).sec ≡ pos s)
      × (micros now + (s * 1_000_000 + (next_wait now head).usec) ≡ micros head)
      × (0 < s * 1_000_000 + (next_wait now head).usec)
unfolding next_wait
next_wait_lem now head p h = (
  head.sec - (now.sec + (if ltb head.usec now.usec then 1 else 0)),
  ground arith,
  ground arith,
  ground arith,
)

module _ {ℓ} {A : Type ℓ} where
  -- How many entries are due at a time.
  abbrev due_count : Timeval → List (Entry A) → ℕ
  due_count t [] = 0
  due_count t (p ∷ ps) = due_count t ps + (if tv_lesseq p.tv t then 1 else 0)

due_step : (a b c : Timeval) → tv_lesseq a b ≡ true → NotAfter b c → tv_lesseq a c ≡ true
due_step a b c p q = ground arith

module _ {ℓ κ} {A : Type ℓ} {W : Type κ} where
  module _ (clock : ℕ → Timeval) (exec : Entry A → List (Entry A) → W → List (Entry A) × W)
      (bound : Timeval) (early : (k : ℕ) → NotAfter (clock k) bound)
      (later : (p : Entry A) (ps : List (Entry A)) (w : W)
        → due_count bound (exec p ps w).0 ≤ due_count bound ps)
      (sorting : (p : Entry A) (ps : List (Entry A)) (w : W)
        → IsSorted ps
        → IsSorted (exec p ps w).0) where
    -- The loop of `process_schedule` ends, with no more rounds than there are entries due at a time
    -- which no clock reading of the call passes, one more for the last test included, if the
    -- functions that are called add no entry that is due at that time already and keep the queue
    -- in order. Every entry that it leaves is due after the last time that it read.
    run_due_ends :
        (fuel k : ℕ) (now : Timeval) (events : List (Entry A)) (w : W)
        → IsSorted events
        → due_count bound events < fuel
        → (o : Outcome A W) × (run_due clock exec fuel k now events w ≡ some o)
          × IsSorted o.events
          × AllAfter o.now o.events
    unfolding run_due
    run_due_ends zero k now events w s h = elim h [ ]
    run_due_ends (suc fuel) k now [] w s h =
        (record { events = []; world = w; now = now }, refl, tt, tt)
    run_due_ends (suc fuel) k now (p ∷ ps) w s h = elim (Bool-cases (tv_lesseq p.tv (clock k))) [
      | inl due ↦ rw due (
          run_due_ends fuel (k + 1) (clock k) (exec p ps w).0 (exec p ps w).1 (sorting p ps w s.1)
            (ground (arith, due_step p.tv (clock k) bound due (early k), later p ps w)))
      | inr waits ↦ (
        record { events = p ∷ ps; world = w; now = clock k },
        rw waits,
        s,
        (
          less_of_not_lesseq p.tv (clock k) waits,
          AllAfter-of_less (clock k) p.tv ps (less_of_not_lesseq p.tv (clock k) waits) s.0,
        ),
      )
    ]
