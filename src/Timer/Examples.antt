-- ===== src/Timer/Examples.antt =====
-- Runs of the scheduler, and its theorems at concrete inputs.
use xl2tpd.Base.{ℕ, ◌≡◌, refl, arith, List, [], ◌∷◌, ◌++◌, some}
use xl2tpd.Timer.{Timeval, Entry, deadline, insert, schedule, deschedule}
use xl2tpd.Timer.{run_due}
use xl2tpd.Timer.Order.{AllAfter, AllUntil, IsSorted}
use xl2tpd.Timer.Insert.{schedule_lem, deschedule-schedule}

abbrev at : ℕ → ℕ → Timeval
at sec usec = record { sec = sec; usec = usec }

abbrev entry : ℕ → ℕ → Entry ℕ
entry id sec = record { id = id; tv = at sec 0; action = id }

abbrev queue : List (Entry ℕ)
queue = entry 1 10 ∷ entry 2 20 ∷ entry 3 30 ∷ []

queue-IsSorted : IsSorted queue
queue-IsSorted = ground arith

-- An event due at the same time as another stands behind it.
schedule_behind :
    schedule (at 5 0) 4 (at 15 0) 4 queue ≡ entry 1 10 ∷ entry 2 20 ∷ entry 4 20 ∷ entry 3 30 ∷ []
unfolding schedule insert deadline
schedule_behind = refl

schedule_lem_example :
    let e : Entry ℕ = record { id = 4; tv = deadline (at 5 0) (at 15 0); action = 4 } in
    IsSorted (schedule (at 5 0) 4 (at 15 0) 4 queue)
    × (front : List (Entry ℕ)) × (back : List (Entry ℕ)) × (queue ≡ front ++ back)
    × (schedule (at 5 0) 4 (at 15 0) 4 queue ≡ front ++ (e ∷ back))
    × AllUntil e.tv front
    × AllAfter e.tv back
schedule_lem_example = schedule_lem (at 5 0) (at 15 0) 4 4 queue queue-IsSorted

deschedule-schedule_example : deschedule (some 4) (schedule (at 5 0) 4 (at 15 0) 4 queue) ≡ queue
deschedule-schedule_example = deschedule-schedule (at 5 0) (at 15 0) 4 4 queue (omega arith)

-- The first two entries are due at second 25, and each is logged as it runs.
abbrev log : Entry ℕ → List (Entry ℕ) → List ℕ → List (Entry ℕ) × List ℕ
log p ps w = (ps, p.id ∷ w)

run_two :
    run_due (λ k. at 25 0) log 4 0 (at 0 0) queue []
    ≡ some (record { events = entry 3 30 ∷ []; world = 2 ∷ 1 ∷ []; now = at 25 0 })
unfolding run_due
run_two = refl
