-- ===== src/File/Sound.antt =====
-- What each handler of file.c keeps of an LNS or LAC entry.
pub mod Fields
pub mod Values
pub mod Ranges
pub mod Words
pub mod Lists
pub mod Whole
use xl2tpd.Base.{
  ℕ, ◌≡◌, ◌≤◌, ◌⊎◌, inl, inr, refl, arith, Bool, true, false, if◌then◌else◌, if-intro,
}
use xl2tpd.Base.{
  List, [], ◌∷◌, ◌++◌, Option, none, some, ℤ, pos, not_positive, All, ltb, Bool-cases,
}
use xl2tpd.Address.{Iprange}
use xl2tpd.File.Text.{yesno, set_int, below_one}
use xl2tpd.File.Entries.{Global, LnsEntry, LacEntry}
use xl2tpd.File.Options.{Item, global, lns, lac, Outcome, ok, refused, overrun, Handler, FileEnv}
use xl2tpd.File.Options.{boolean, number, global_number, global_boolean, lns_boolean, lac_boolean}
use xl2tpd.File.Options.{shared_boolean}

abbrev pub IsPositive : ℤ → Type 0
IsPositive z = not_positive z ≡ false

abbrev pub IsOrdered : Iprange → Type 0
IsOrdered r = r.start ≤ r.end

-- The window and the speeds are positive, no range is backwards, and the own address comes from one
-- option alone.
abbrev pub IsGoodLns : LnsEntry → Type 0
IsGoodLns e =
    IsPositive e.conf.tun_rws
    × IsPositive e.conf.rxspeed
    × IsPositive e.conf.txspeed
    × All IsOrdered e.conf.range
    × All IsOrdered e.conf.localrange
    × All IsOrdered e.lacs
    × ((e.localaddr ≡ 0) ⊎ (e.conf.localrange ≡ []))

-- The window and the time before a redial are positive.
abbrev pub IsGoodLac : LacEntry → Type 0
IsGoodLac e = IsPositive e.conf.tun_rws × IsPositive e.conf.rtimeout

abbrev pub IsGoodItem : Item → Type 0
IsGoodItem (global g) = Unit
IsGoodItem (lns e) = IsGoodLns e
IsGoodItem (lac e) = IsGoodLac e

-- Of an option that is accepted.
abbrev pub IsGoodOutcome : Outcome → Type 0
IsGoodOutcome (ok i) = IsGoodItem i
IsGoodOutcome (refused i) = Unit
IsGoodOutcome overrun = Unit

abbrev pub Preserves : Handler → Type 0
Preserves h =
    (def : Bool) (word value : List ℕ) (i : Item)
    → IsGoodItem i
    → IsGoodOutcome (h def word value i)

pub boolean-IsGoodOutcome :
    (value : List ℕ) (i : Item) (put : Bool → Item)
    → ((b : Bool) → IsGoodItem (put b))
    → IsGoodOutcome (boolean value i put)
boolean-IsGoodOutcome value i put good = answer (yesno value)
  where
    answer :
        (o : Option Bool)
        → IsGoodOutcome (elim o as (λ x. Outcome) [ none ↦ refused i | some b ↦ ok (put b) ])
    answer none = tt
    answer (some b) = good b

pub global_boolean-Preserves : (put : Global → Bool → Global) → Preserves (global_boolean put)
global_boolean-Preserves put def word value (global g) good =
    boolean-IsGoodOutcome value (global g) (λ b. global (put g b)) (λ b. tt)
global_boolean-Preserves put def word value (lns e) good = tt
global_boolean-Preserves put def word value (lac e) good = tt

pub global_number-Preserves : (put : Global → ℕ → Global) → Preserves (global_number put)
global_number-Preserves put def word value (global g) good = answer (set_int value)
  where
    answer :
        (o : Option ℕ)
        → IsGoodItem (elim o as (λ x. Item) [ none ↦ global g | some n ↦ global (put g n) ])
    answer none = tt
    answer (some n) = tt
global_number-Preserves put def word value (lns e) good = tt
global_number-Preserves put def word value (lac e) good = tt

pub lns_boolean-Preserves :
    (put : LnsEntry → Bool → LnsEntry)
    → ((e : LnsEntry) (b : Bool) → IsGoodLns e → IsGoodLns (put e b))
    → Preserves (lns_boolean put)
lns_boolean-Preserves put keep def word value (global g) good = tt
lns_boolean-Preserves put keep def word value (lns e) good =
    boolean-IsGoodOutcome value (lns e) (λ b. lns (put e b)) (λ b. keep e b good)
lns_boolean-Preserves put keep def word value (lac e) good = tt

pub lac_boolean-Preserves :
    (put : LacEntry → Bool → LacEntry)
    → ((e : LacEntry) (b : Bool) → IsGoodLac e → IsGoodLac (put e b))
    → Preserves (lac_boolean put)
lac_boolean-Preserves put keep def word value (global g) good = tt
lac_boolean-Preserves put keep def word value (lns e) good = tt
lac_boolean-Preserves put keep def word value (lac e) good =
    boolean-IsGoodOutcome value (lac e) (λ b. lac (put e b)) (λ b. keep e b good)

pub shared_boolean-Preserves :
    (n : LnsEntry → Bool → LnsEntry) (l : LacEntry → Bool → LacEntry)
    → ((e : LnsEntry) (b : Bool) → IsGoodLns e → IsGoodLns (n e b))
    → ((e : LacEntry) (b : Bool) → IsGoodLac e → IsGoodLac (l e b))
    → Preserves (shared_boolean n l)
shared_boolean-Preserves n l kn kl def word value (global g) good = tt
shared_boolean-Preserves n l kn kl def word value (lns e) good =
    boolean-IsGoodOutcome value (lns e) (λ b. lns (n e b)) (λ b. kn e b good)
shared_boolean-Preserves n l kn kl def word value (lac e) good =
    boolean-IsGoodOutcome value (lac e) (λ b. lac (l e b)) (λ b. kl e b good)
