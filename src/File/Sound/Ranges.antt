-- ===== src/File/Sound/Ranges.antt =====
-- The handlers for addresses keep an entry good: a range is put in only with its ends in order.
use xl2tpd.Base.{ℕ, ◌≡◌, inl, inr, refl, arith, Bool, true, false, not, if◌then◌else◌}
use xl2tpd.Base.{List, [], ◌∷◌, ◌++◌, Option, none, some, All, Bool-cases, ◌==◌, ==→eq}
use xl2tpd.Address.{Iprange}
use xl2tpd.File.Text.{split_at, strip_end, skip_blank}
use xl2tpd.File.Entries.{LnsEntry}
use xl2tpd.File.Options.{Item, global, lns, lac, Outcome, ok, refused, FileEnv, put_lns_conf}
use xl2tpd.File.Hosts
use xl2tpd.File.Hosts.{Ranged, range, no_range, smashed, sensed, with_range, set_range, range_end}
use xl2tpd.File.Hosts.{single, pair, ranged, denies, set_ip}
use xl2tpd.File.Sound.{IsOrdered, IsGoodLns, IsGoodItem, IsGoodOutcome, Preserves}

abbrev IsOrderedRange : Ranged → Type 0
IsOrderedRange smashed = Unit
IsOrderedRange no_range = Unit
IsOrderedRange (range r) = IsOrdered r

sensed-IsOrderedRange : (deny : Bool) (start end : ℕ) → IsOrderedRange (sensed deny start end)
sensed-IsOrderedRange deny start end = ground arith

range_end-IsOrderedRange :
    (env : FileEnv) (deny : Bool) (start : ℕ) (o : Option (List ℕ))
    → IsOrderedRange (range_end env deny start o)
unfolding range_end
range_end-IsOrderedRange env deny start none = tt
range_end-IsOrderedRange env deny start (some d) = ground arith

single-IsOrderedRange :
    (env : FileEnv) (deny : Bool) (value : List ℕ) → IsOrderedRange (single env deny value)
unfolding single
single-IsOrderedRange env deny [] = tt
single-IsOrderedRange env deny (b ∷ bs) = ground arith

pair-IsOrderedRange :
    (env : FileEnv) (deny : Bool) (value d : List ℕ) → IsOrderedRange (pair env deny value d)
unfolding pair
pair-IsOrderedRange env deny [] d = tt
pair-IsOrderedRange env deny (v ∷ vs) [] = tt
pair-IsOrderedRange env deny (v ∷ vs) (b ∷ bs) = ends (env.hosts (v ∷ vs))
  where
    ends :
        (o : Option ℕ)
        → IsOrderedRange (elim o as (λ x. Ranged) [
          | none ↦ no_range
          | some start ↦ range_end env deny start (Hosts.complete env.stack (v ∷ vs) (b ∷ bs))
        ])
    ends none = tt
    ends (some start) =
        range_end-IsOrderedRange env deny start (Hosts.complete env.stack (v ∷ vs) (b ∷ bs))

set_range-IsOrderedRange :
    (env : FileEnv) (word value : List ℕ) → IsOrderedRange (set_range env word value)
unfolding set_range ranged
set_range-IsOrderedRange env word value = ends (split_at b'-' value)
  where
    ends :
        (o : Option (List ℕ × List ℕ))
        → IsOrderedRange (elim o as (λ x. Ranged) [
          | none ↦ single env (denies word) value
          | some (front, behind) ↦ pair env (denies word) (strip_end front) (skip_blank behind)
        ])
    ends none = single-IsOrderedRange env (denies word) value
    ends (some (front, behind)) =
        pair-IsOrderedRange env (denies word) (strip_end front) (skip_blank behind)

All-append :
    (rs : List Iprange) (r : Iprange)
    → All IsOrdered rs
    → IsOrdered r
    → All IsOrdered (rs ++ (r ∷ []))
All-append [] r all h = (h, tt)
All-append (x ∷ rs) r (first, all) h = (first, All-append rs r all h)

with_range-IsGoodOutcome :
    (rs : List Iprange) (r : Ranged) (put : List Iprange → LnsEntry)
    → All IsOrdered rs
    → IsOrderedRange r
    → ((rs' : List Iprange) → All IsOrdered rs' → IsGoodLns (put rs'))
    → IsGoodOutcome (with_range rs r put)
with_range-IsGoodOutcome rs smashed put all h good = tt
with_range-IsGoodOutcome rs no_range put all h good = tt
with_range-IsGoodOutcome rs (range r) put all h good = good (rs ++ (r ∷ [])) (All-append rs r all h)

pub set_iprange-Preserves : (env : FileEnv) → Preserves (Hosts.set_iprange env)
unfolding Hosts.set_iprange
set_iprange-Preserves env def word value (global g) good = tt
set_iprange-Preserves env def word value (lac e) good = tt
set_iprange-Preserves env def word value (lns e) (w, rx, tx, rs, locals, ls, own) =
    with_range-IsGoodOutcome e.conf.range (set_range env word value)
      (λ rs. put_lns_conf e (record (e.conf) { range = rs })) rs
      (set_range-IsOrderedRange env word value) (λ rs' all. (w, rx, tx, all, locals, ls, own))

pub set_lac-Preserves : (env : FileEnv) → Preserves (Hosts.set_lac env)
unfolding Hosts.set_lac
set_lac-Preserves env def word value (global g) good = tt
set_lac-Preserves env def word value (lac e) good = tt
set_lac-Preserves env def word value (lns e) (w, rx, tx, rs, locals, ls, own) =
    with_range-IsGoodOutcome e.lacs (set_range env word value) (λ rs. record e { lacs = rs }) ls
      (set_range-IsOrderedRange env word value) (λ rs' all. (w, rx, tx, rs, locals, all, own))

pub set_localiprange-Preserves : (env : FileEnv) → Preserves (Hosts.set_localiprange env)
unfolding Hosts.set_localiprange
set_localiprange-Preserves env def word value (global g) good = tt
set_localiprange-Preserves env def word value (lac e) good = tt
set_localiprange-Preserves env def word value (lns e) (w, rx, tx, rs, locals, ls, own) =
    elim (Bool-cases (e.localaddr == 0)) [
      | inl unset ↦ rw unset (
          with_range-IsGoodOutcome e.conf.localrange (set_range env word value)
            (λ rs. put_lns_conf e (record (e.conf) { localrange = rs })) locals
            (set_range-IsOrderedRange env word value)
            (λ rs' all. (w, rx, tx, rs, all, ls, inl (==→eq e.localaddr 0 unset))))
      | inr set ↦ rw set tt
    ]

set_ip-IsGoodOutcome :
    (env : FileEnv) (value : List ℕ) (i : Item) (put : ℕ → Item)
    → ((a : ℕ) → IsGoodItem (put a))
    → IsGoodOutcome (set_ip env value i put)
unfolding set_ip
set_ip-IsGoodOutcome env value i put good = answer (env.hosts value)
  where
    answer :
        (o : Option ℕ)
        → IsGoodOutcome (elim o as (λ x. Outcome) [ none ↦ refused i | some a ↦ ok (put a) ])
    answer none = tt
    answer (some a) = good a

pub set_listenaddr-Preserves : (env : FileEnv) → Preserves (Hosts.set_listenaddr env)
unfolding Hosts.set_listenaddr
set_listenaddr-Preserves env def word value (global g) good =
    set_ip-IsGoodOutcome env value (global g) _ (λ a. tt)
set_listenaddr-Preserves env def word value (lns e) good = tt
set_listenaddr-Preserves env def word value (lac e) good = tt

pub set_remoteaddr-Preserves : (env : FileEnv) → Preserves (Hosts.set_remoteaddr env)
unfolding Hosts.set_remoteaddr
set_remoteaddr-Preserves env def word value (global g) good = tt
set_remoteaddr-Preserves env def word value (lns e) good = tt
set_remoteaddr-Preserves env def word value (lac e) good =
    set_ip-IsGoodOutcome env value (lac e) _ (λ a. good)

own_address :
    (env : FileEnv) (value : List ℕ) (e : LnsEntry) (rs : List Iprange)
    → e.conf.localrange ≡ rs
    → IsGoodLns e
    → IsGoodOutcome (
        if not (Hosts.has_no_range rs)
        then refused (lns e)
        else set_ip env value (lns e) (λ a. lns (record e { localaddr = a })))
own_address env value e [] none_there (w, rx, tx, rs, locals, ls, own) =
    set_ip-IsGoodOutcome env value (lns e) _ (λ a. (w, rx, tx, rs, locals, ls, inr none_there))
own_address env value e (r ∷ rs) there good = tt

pub set_localaddr-Preserves : (env : FileEnv) → Preserves (Hosts.set_localaddr env)
unfolding Hosts.set_localaddr
set_localaddr-Preserves env def word value (global g) good = tt
set_localaddr-Preserves env def word value (lns e) good =
    own_address env value e e.conf.localrange refl good
set_localaddr-Preserves env def word value (lac e) good =
    set_ip-IsGoodOutcome env value (lac e) _ (λ a. good)

pub set_lns-Preserves : Preserves Hosts.set_lns
unfolding Hosts.set_lns
set_lns-Preserves def word value (global g) good = tt
set_lns-Preserves def word value (lns e) good = tt
set_lns-Preserves def word value (lac e) good = good

pub set_rand_source-Preserves : Preserves Hosts.set_rand_source
unfolding Hosts.set_rand_source
set_rand_source-Preserves true word value i good = tt
set_rand_source-Preserves false word value (global g) good = ground arith
set_rand_source-Preserves false word value (lns e) good = tt
set_rand_source-Preserves false word value (lac e) good = tt
