-- ===== src/File/Numbers.antt =====
-- The handlers of the table `words` (file.c) for windows, speeds and redials, and for the
-- authentication that pppd asks for. Some look at letters of the word, which has been compared
-- without regard to case.
use xl2tpd.Base.{ℕ, Bool, false, not, if◌then◌else◌, ◌==◌, is_neg, not_positive}
use xl2tpd.Base.{List, none, some, ℤ, pos, negsuc, minus_one, get_elem?}
use xl2tpd.World.{PppConf, LnsConf, LacConf}
use xl2tpd.File.Text.{atoi, set_boolean, set_int, below_one, split_at}
use xl2tpd.File.Entries.{LnsEntry, LacEntry}
use xl2tpd.File.Options.{Item, global, lns, lac, Outcome, ok, refused, overrun, Handler, not_here}
use xl2tpd.File.Options.{number, put_lns_conf, put_lac_conf, put_lns_ppp, put_lac_ppp}

-- The byte of a string at an index up to its length, at which the NUL is.
abbrev pub letter : List ℕ → ℕ → ℕ
letter word i = elim (get_elem? word i) [ none ↦ 0 | some b ↦ b ]

unfoldable pub set_rtimeout : Handler
set_rtimeout def word value (lac e) =
    if below_one value
    then refused (lac e)
    else ok
        (number value (lac e) (λ n. lac (put_lac_conf e (record (e.conf) { rtimeout = pos n }))))
set_rtimeout def word value i = not_here i

unfoldable pub set_rmax : Handler
set_rmax def word value (lac e) =
    if below_one value
    then refused (lac e)
    else ok (number value (lac e) (λ n. lac (put_lac_conf e (record (e.conf) { rmax = n }))))
set_rmax def word value i = not_here i

-- `atoi (value) < -1`
abbrev pub below_minus_one : ℤ → Bool
below_minus_one (pos n) = false
below_minus_one (negsuc n) = not (n == 0)

-- The number goes into a window, where it is not negative.
abbrev pub window : List ℕ → ℤ → ℤ
window value old = elim (set_int value) [ none ↦ old | some n ↦ pos n ]

-- The window of a tunnel is looked at when it has been stored.
abbrev pub checked_window : ℤ → Item → Outcome
checked_window w i = if not_positive w then refused i else ok i

unfoldable pub set_lns_rws : List ℕ → List ℕ → LnsEntry → Outcome
set_lns_rws word value e =
    if letter word 0 == b'c'
    then ok (lns (record e { call_rws = window value e.call_rws }))
    else (if letter word 0 == b't'
        then (let w = window value e.conf.tun_rws in
            checked_window w (lns (put_lns_conf e (record (e.conf) { tun_rws = w }))))
        else ok (lns e))

unfoldable pub set_lac_rws : List ℕ → List ℕ → LacEntry → Outcome
set_lac_rws word value e =
    if letter word 0 == b'c'
    then ok (lac (record e { call_rws = window value e.call_rws }))
    else (if letter word 0 == b't'
        then (let w = window value e.conf.tun_rws in
            checked_window w (lac (put_lac_conf e (record (e.conf) { tun_rws = w }))))
        else ok (lac e))

unfoldable pub set_rws : Handler
unfolding set_lns_rws set_lac_rws
set_rws def word value (global g) = not_here (global g)
set_rws def word value (lns e) =
    if below_minus_one (atoi value) then refused (lns e) else set_lns_rws word value e
set_rws def word value (lac e) =
    if below_minus_one (atoi value) then refused (lac e) else set_lac_rws word value e

-- Which of `txspeed` and `rxspeed` a word is for; another word is for both.
abbrev pub is_tx : List ℕ → Bool
is_tx word = letter word 0 == b't'

abbrev pub is_rx : List ℕ → Bool
is_rx word = letter word 0 == b'r'

abbrev pub lns_speed : List ℕ → LnsConf → ℕ → LnsConf
lns_speed word c n =
    if is_tx word
    then record c { txspeed = pos n }
    else (if is_rx word
        then record c { rxspeed = pos n }
        else record c { rxspeed = pos n; txspeed = pos n })

abbrev pub lac_speed : List ℕ → LacConf → ℕ → LacConf
lac_speed word c n =
    if is_tx word
    then record c { txspeed = pos n }
    else (if is_rx word
        then record c { rxspeed = pos n }
        else record c { rxspeed = pos n; txspeed = pos n })

unfoldable pub set_speed : Handler
set_speed def word value (global g) = not_here (global g)
set_speed def word value (lns e) =
    if below_one value
    then refused (lns e)
    else ok (number value (lns e) (λ n. lns (put_lns_conf e (lns_speed word e.conf n))))
set_speed def word value (lac e) =
    if below_one value
    then refused (lac e)
    else ok (number value (lac e) (λ n. lac (put_lac_conf e (lac_speed word e.conf n))))

-- Whether a call has sequence numbers, which is a window that is not negative.
abbrev pub flow : Bool → ℤ → ℤ
flow b w = if b then (if is_neg w then pos 0 else w) else minus_one

unfoldable pub set_flow : Handler
set_flow def word value i = elim (set_boolean value) [
  | none ↦ refused i
  | some b ↦ elim i [
    | global g ↦ not_here (global g)
    | lns e ↦ ok (lns (record e { call_rws = flow b e.call_rws }))
    | lac e ↦ ok (lac (record e { call_rws = flow b e.call_rws }))
  ]
]

-- The field that the first letter behind the space and the third letter of the word stand for.
unfoldable pub papchap : List ℕ → List ℕ → Bool → PppConf → PppConf
papchap word c b p =
    let refuse = letter word 2 == b'f' in
    if letter c 0 == b'p'
    then (if refuse then record p { pap_refuse = b } else record p { pap_require = b })
    else (if letter c 0 == b'a'
        then (if refuse then record p { authself = not b } else record p { authpeer = b })
        else (if refuse then record p { chap_refuse = b } else record p { chap_require = b }))

-- A word without a space is read through NULL.
unfoldable pub set_papchap : Handler
unfolding papchap split_at
set_papchap def word value i = elim (set_boolean value) [
  | none ↦ refused i
  | some b ↦ elim i [
    | global g ↦ not_here (global g)
    | lns e ↦ elim (split_at 32 word) [
      | none ↦ overrun
      | some (front, c) ↦ ok (lns (put_lns_ppp e (papchap word c b e.conf.ppp)))
    ]
    | lac e ↦ elim (split_at 32 word) [
      | none ↦ overrun
      | some (front, c) ↦ ok (lac (put_lac_ppp e (papchap word c b e.conf.ppp)))
    ]
  ]
]
