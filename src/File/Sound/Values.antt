-- ===== src/File/Sound/Values.antt =====
-- The handlers for windows, speeds and redials, and for addresses, keep an entry good.
use xl2tpd.Base.{ℕ, inl, inr, arith, Bool, true, if◌then◌else◌, if-intro}
use xl2tpd.Base.{List, Option, none, some, ℤ, pos, not_positive}
use xl2tpd.Base.{Bool-cases, ◌==◌}
use xl2tpd.File.Text.{set_int, below_one, atoi}
use xl2tpd.File.Entries.{LnsEntry, LacEntry}
use xl2tpd.File.Options.{Item, global, lns, lac, ok, refused, number}
use xl2tpd.File.Options.{put_lns_conf, put_lac_conf}
use xl2tpd.File.Numbers
use xl2tpd.File.Numbers.{letter, window, checked_window, lns_speed, lac_speed, papchap}
use xl2tpd.File.Sound.{IsPositive, IsGoodLns, IsGoodLac, IsGoodItem, IsGoodOutcome}
use xl2tpd.File.Sound.{Preserves}

-- A number that is stored where it was tested to be at least one.
tested_number :
    (value : List ℕ) (i : Item) (put : ℕ → Item)
    → ((n : ℕ) → IsPositive (pos n) → IsGoodItem (put n))
    → IsGoodOutcome (if below_one value then refused i else ok (number value i put))
tested_number value i put good = answer (set_int value)
  where
    answer :
        (o : Option ℕ)
        → IsGoodOutcome (
            if elim o as (λ x. Bool) [ none ↦ true | some n ↦ n == 0 ]
            then refused i
            else ok (elim o as (λ x. Item) [ none ↦ i | some n ↦ put n ]))
    answer none = tt
    answer (some n) = elim (Bool-cases (n == 0)) [
      | inl zero_value ↦ rw zero_value tt
      | inr other ↦ rw other (good n other)
    ]

pub set_rtimeout-Preserves : Preserves Numbers.set_rtimeout
unfolding Numbers.set_rtimeout
set_rtimeout-Preserves def word value (global g) good = tt
set_rtimeout-Preserves def word value (lns e) good = tt
set_rtimeout-Preserves def word value (lac e) good =
    tested_number value (lac e) _ (λ n h. (good.0, h))

pub set_rmax-Preserves : Preserves Numbers.set_rmax
unfolding Numbers.set_rmax
set_rmax-Preserves def word value (global g) good = tt
set_rmax-Preserves def word value (lns e) good = tt
set_rmax-Preserves def word value (lac e) good = tested_number value (lac e) _ (λ n h. good)

pub set_speed-Preserves : Preserves Numbers.set_speed
unfolding Numbers.set_speed
set_speed-Preserves def word value (global g) good = tt
set_speed-Preserves def word value (lns e) good =
    tested_number value (lns e) (λ n. lns (put_lns_conf e (lns_speed word e.conf n)))
      (λ n h. ground (arith, h, good))
set_speed-Preserves def word value (lac e) good =
    tested_number value (lac e) (λ n. lac (put_lac_conf e (lac_speed word e.conf n)))
      (λ n h. ground (arith, h, good))

checked_window-IsGoodOutcome :
    (w : ℤ) (i : Item) → (IsPositive w → IsGoodItem i) → IsGoodOutcome (checked_window w i)
checked_window-IsGoodOutcome w i good = elim (Bool-cases (not_positive w)) [
  | inl low ↦ rw low tt
  | inr high ↦ rw high (good high)
]

set_lns_rws-IsGood :
    (word value : List ℕ) (e : LnsEntry)
    → IsGoodLns e
    → IsGoodOutcome (Numbers.set_lns_rws word value e)
unfolding Numbers.set_lns_rws
set_lns_rws-IsGood word value e good =
    let w = window value e.conf.tun_rws in
    if-intro IsGoodOutcome (letter word 0 == b'c')
      {x = ok (lns (record e { call_rws = window value e.call_rws }))} good
      (if-intro IsGoodOutcome (letter word 0 == b't') {y = ok (lns e)}
        (checked_window-IsGoodOutcome w (lns (put_lns_conf e (record (e.conf) { tun_rws = w })))
          (λ h. ground (arith, h, good)))
        good)

set_lac_rws-IsGood :
    (word value : List ℕ) (e : LacEntry)
    → IsGoodLac e
    → IsGoodOutcome (Numbers.set_lac_rws word value e)
unfolding Numbers.set_lac_rws
set_lac_rws-IsGood word value e good =
    let w = window value e.conf.tun_rws in
    if-intro IsGoodOutcome (letter word 0 == b'c')
      {x = ok (lac (record e { call_rws = window value e.call_rws }))} good
      (if-intro IsGoodOutcome (letter word 0 == b't') {y = ok (lac e)}
        (checked_window-IsGoodOutcome w (lac (put_lac_conf e (record (e.conf) { tun_rws = w })))
          (λ h. (h, good.1)))
        good)

pub set_rws-Preserves : Preserves Numbers.set_rws
unfolding Numbers.set_rws
set_rws-Preserves def word value (global g) good = tt
set_rws-Preserves def word value (lns e) good =
    if-intro IsGoodOutcome (Numbers.below_minus_one (atoi value)) {x = refused (lns e)} tt
      (set_lns_rws-IsGood word value e good)
set_rws-Preserves def word value (lac e) good =
    if-intro IsGoodOutcome (Numbers.below_minus_one (atoi value)) {x = refused (lac e)} tt
      (set_lac_rws-IsGood word value e good)

pub set_flow-Preserves : Preserves Numbers.set_flow
unfolding Numbers.set_flow
set_flow-Preserves def word value (global g) good = ground arith
set_flow-Preserves def word value (lns e) good = ground (arith, good)
set_flow-Preserves def word value (lac e) good = ground (arith, good)

pub set_papchap-Preserves : Preserves Numbers.set_papchap
unfolding Numbers.set_papchap
set_papchap-Preserves def word value (global g) good = ground arith
set_papchap-Preserves def word value (lns e) good = ground (arith, good)
set_papchap-Preserves def word value (lac e) good = ground (arith, good)
