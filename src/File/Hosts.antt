-- ===== src/File/Hosts.antt =====
-- The handlers of the table `words` (file.c) for addresses, ranges of them, the LNS to call, and the
-- source of random numbers.
use xl2tpd.Base.{ℕ, suc, ◌+◌, ◌-◌, Bool, true, false, not, ◌&&◌, if◌then◌else◌, ltb, ◌==◌}
use xl2tpd.Base.{List, [], ◌∷◌, ◌++◌, Option, none, some, pos, length, take, drop}
use xl2tpd.Address.{Iprange}
use xl2tpd.Session.{c_string}
use xl2tpd.File.Text.{bytes, atoi, split_at, strip_end, skip_blank, stored}
use xl2tpd.File.Entries.{Global, Host, LnsEntry, udp_listen_port, rand_dev, rand_sys}
use xl2tpd.File.Entries.{rand_egd}
use xl2tpd.File.Options.{Item, global, lns, lac, Outcome, ok, refused, overrun, FileEnv, Handler}
use xl2tpd.File.Options.{not_here, put_lns_conf, put_lac_conf}
use xl2tpd.File.Numbers.{letter}

-- The dots of a string.
unfoldable pub dots : List ℕ → ℕ
dots [] = 0
dots (b ∷ bs) = let rest = dots bs in if b == b'.' then suc rest else rest

-- The walk from the end of `ip_hi` to the front, on its bytes up to there in reverse: what is left
-- in front of the place behind the dot that makes `count` negative. `none` is a walk past the
-- front.
unfoldable pub find_dot : ℕ → List ℕ → Option (List ℕ)
find_dot count [] = none
find_dot count (b ∷ front) =
    let rest = find_dot (if b == b'.' then count - 1 else count) front in
    if b == b'.' && (count == 0) then some (b ∷ front) else rest

unfoldable pub reversed : List ℕ → List ℕ
reversed [] = []
reversed (b ∷ bs) = reversed bs ++ (b ∷ [])

-- `ip_hi` after `strcpy (ip_hi, value)`, with the byte behind it that the walk reads first.
abbrev pub ip_hi : List ℕ → List ℕ → List ℕ
ip_hi stack value = value ++ (0 ∷ drop (length value + 1) (take 17 stack))

-- The end of a range that gives only the last fields of its address. `none` is a write past
-- `ip_hi`, at its end or its front.
unfoldable pub complete : List ℕ → List ℕ → List ℕ → Option (List ℕ)
unfolding dots find_dot reversed
complete stack value d =
    if not (ltb (dots d) 3)
    then some d
    else (if not (ltb (length value) 16)
        then none
        else elim (find_dot (dots d) (reversed (ip_hi stack value))) [
          | none ↦ if ltb (length d) 17 then none else some d
          | some front ↦
              if length front == 17
              then none
              else (if ltb (length d + length front) 16
                  then some (c_string (reversed front ++ d))
                  else some d)
        ])

-- What `set_range` returns: NULL, or the range that is put behind the list.
pub data Ranged : Type 0 where
  smashed : Ranged
  no_range : Ranged
  range : Iprange → Ranged

-- The first letter of the word says whether the range is one to deny.
abbrev pub denies : List ℕ → Bool
denies word = letter word 0 == b'n'

abbrev pub sensed : Bool → ℕ → ℕ → Ranged
sensed deny start end =
    if ltb end start
    then no_range
    else range (record { start = start; end = end; allow = not deny })

unfoldable pub range_end : FileEnv → Bool → ℕ → Option (List ℕ) → Ranged
range_end env deny start none = smashed
range_end env deny start (some d) = elim (env.hosts d) [
  | none ↦ no_range
  | some end ↦ sensed deny start end
]

unfoldable pub single : FileEnv → Bool → List ℕ → Ranged
single env deny value = elim value [
  | [] ↦ no_range
  | b ∷ bs ↦ elim (env.hosts (b ∷ bs)) [ none ↦ no_range | some start ↦ sensed deny start start ]
]

unfoldable pub pair : FileEnv → Bool → List ℕ → List ℕ → Ranged
unfolding complete range_end
pair env deny [] d = no_range
pair env deny (v ∷ vs) [] = no_range
pair env deny (v ∷ vs) (b ∷ bs) = elim (env.hosts (v ∷ vs)) [
  | none ↦ no_range
  | some start ↦ range_end env deny start (complete env.stack (v ∷ vs) (b ∷ bs))
]

unfoldable pub ranged : FileEnv → Bool → List ℕ → Ranged
unfolding single pair
ranged env deny value = elim (split_at b'-' value) [
  | none ↦ single env deny value
  | some (front, behind) ↦ pair env deny (strip_end front) (skip_blank behind)
]

unfoldable pub set_range : FileEnv → List ℕ → List ℕ → Ranged
unfolding ranged
set_range env word value = ranged env (denies word) value

-- A list of ranges of an LNS with the new one. `return -1` leaves the list NULL.
abbrev pub with_range : List Iprange → Ranged → (List Iprange → LnsEntry) → Outcome
with_range rs smashed put = overrun
with_range rs no_range put = refused (lns (put []))
with_range rs (range r) put = ok (lns (put (rs ++ (r ∷ []))))

unfoldable pub set_iprange : FileEnv → Handler
unfolding set_range
set_iprange env def word value (lns e) =
    with_range e.conf.range (set_range env word value)
      (λ rs. put_lns_conf e (record (e.conf) { range = rs }))
set_iprange env def word value i = not_here i

unfoldable pub set_localiprange : FileEnv → Handler
unfolding set_range
set_localiprange env def word value (lns e) =
    if not (e.localaddr == 0)
    then refused (lns e)
    else with_range e.conf.localrange (set_range env word value)
        (λ rs. put_lns_conf e (record (e.conf) { localrange = rs }))
set_localiprange env def word value i = not_here i

unfoldable pub set_lac : FileEnv → Handler
unfolding set_range
set_lac env def word value (lns e) =
    with_range e.lacs (set_range env word value) (λ rs. record e { lacs = rs })
set_lac env def word value i = not_here i

-- `set_ip` on a field.
unfoldable pub set_ip : FileEnv → List ℕ → Item → (ℕ → Item) → Outcome
set_ip env value i put = elim (env.hosts value) [ none ↦ refused i | some a ↦ ok (put a) ]

unfoldable pub set_listenaddr : FileEnv → Handler
unfolding set_ip
set_listenaddr env def word value (global g) =
    set_ip env value (global g) (λ a. global (record g { listenaddr = a }))
set_listenaddr env def word value i = not_here i

abbrev pub has_no_range : List Iprange → Bool
has_no_range [] = true
has_no_range (r ∷ rs) = false

unfoldable pub set_localaddr : FileEnv → Handler
unfolding set_ip
set_localaddr env def word value (global g) = not_here (global g)
set_localaddr env def word value (lns e) =
    if not (has_no_range e.conf.localrange)
    then refused (lns e)
    else set_ip env value (lns e) (λ a. lns (record e { localaddr = a }))
set_localaddr env def word value (lac e) =
    set_ip env value (lac e) (λ a. lac (put_lac_conf e (record (e.conf) { localaddr = a })))

unfoldable pub set_remoteaddr : FileEnv → Handler
unfolding set_ip
set_remoteaddr env def word value (lac e) =
    set_ip env value (lac e) (λ a. lac (put_lac_conf e (record (e.conf) { remoteaddr = a })))
set_remoteaddr env def word value i = not_here i

-- The host of an LNS, and its port behind a colon.
abbrev pub host_of : List ℕ → Host
host_of value = elim (split_at b':' value) [
  | none ↦ record { hostname = stored value; port = pos udp_listen_port }
  | some (front, behind) ↦ record { hostname = stored front; port = atoi behind }
]

unfoldable pub set_lns : Handler
unfolding split_at
set_lns def word value (lac e) = ok (lac (record e { lns = e.lns ++ (host_of value ∷ []) }))
set_lns def word value i = not_here i

-- `strncmp (value, word, n) == 0` for a constant of n bytes.
unfoldable pub starts_with : List ℕ → List ℕ → Bool
starts_with [] value = true
starts_with (b ∷ bs) [] = false
starts_with (b ∷ bs) (c ∷ cs) = (b == c) && starts_with bs cs

abbrev pub put_source : Global → ℕ → Item
put_source g n = global (record g { rand_source = n })

-- Here alone a section for defaults is another context. The seed of `rand` is left out.
unfoldable pub set_rand_source : Handler
unfolding starts_with
set_rand_source true word value i = refused i
set_rand_source false word value (global g) =
    if starts_with (bytes "egd") value
    then refused (put_source g rand_egd)
    else (if starts_with (bytes "dev") value
        then ok (put_source g rand_dev)
        else (if starts_with (bytes "sys") value
            then ok (put_source g rand_sys)
            else refused (global g)))
set_rand_source false word value i = refused i
