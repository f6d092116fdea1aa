-- ===== src/Console/Calls.antt =====
-- The handlers of `control_handlers` (xl2tpd.c) that begin and end calls. What `magic_lac_dial`,
-- `lac_call`, `lac_hangup`, `lac_disconnect` and `l2tp_call` do then is asked for.
use xl2tpd.Base.{ℕ, true, false, not, if◌then◌else◌, ltb}
use xl2tpd.Base.{List, [], ◌∷◌, Option, none, some, ℤ, length, drop, get_elem?}
use xl2tpd.Session.{c_string}
use xl2tpd.File.Text.{atoi, split_at, stored}
use xl2tpd.File.Parse.{find_lac}
use xl2tpd.Console.Line.{tokens}
use xl2tpd.Console.State.{Lac, magic_lac_dial, lac_call, lac_hangup, lac_disconnect, l2tp_call}
use xl2tpd.Console.State.{
  Console, ConsoleEnv, Handled, handled, crashed, with_code, ask, lac_entries,
}
use xl2tpd.Console.State.{activated, put_line}
use xl2tpd.Console.Handlers.{is_zero}

-- `strchr (bufp, ' ') + 1`, which is no address where there is no space.
abbrev pub behind_space : List ℕ → Option (List ℕ)
behind_space mem = elim (split_at 32 (c_string mem)) [
  | none ↦ none
  | some (front, behind) ↦ some behind
]

-- The entry of the list that a name is of.
abbrev pub named_line : List Lac → Option ℕ → Option (ℕ × Lac)
named_line ls none = none
named_line ls (some i) = elim (get_elem? ls i) [ none ↦ none | some l ↦ some (i, l) ]

abbrev pub find_line : Console → List ℕ → Option (ℕ × Lac)
find_line k name = named_line k.laclist (find_lac name (lac_entries k))

-- `strncpy` of what is given.
abbrev pub with_authname : Option (List ℕ) → Lac → Lac
with_authname none l = l
with_authname (some s) l =
    let c = l.entry.conf in
    record l {
      entry = record (l.entry) { conf = record c { ppp = record (c.ppp) { authname = stored s } } };
    }

abbrev pub with_password : Option (List ℕ) → Lac → Lac
with_password none l = l
with_password (some s) l = record l { password = stored s }

-- A LAC by its name is dialled if it has no call; a tunnel by its number gets one.
abbrev pub dial_line : ℕ → Lac → Console → Handled
dial_line i l k =
    let k1 = put_line i l k in
    if l.call then handled (with_code 1 k1) else handled (with_code 0 (ask (magic_lac_dial i) k1))

abbrev pub call_number : ConsoleEnv → ℤ → Console → Handled
call_number env n k =
    if is_zero n
    then handled (with_code 1 k)
    else handled (with_code (if env.calls n then 0 else 1) (ask (lac_call n) k))

abbrev pub connect :
    ConsoleEnv → List ℕ → Option (List ℕ) → Option (List ℕ) → Console → Option (ℕ × Lac) → Handled
connect env name authname password k none = call_number env (atoi name) k
connect env name authname password k (some (i, l)) =
    dial_line i (with_password password (with_authname authname (activated true l))) k

unfoldable pub control_handle_lac_connect : ConsoleEnv → List ℕ → Console → Handled
unfolding tokens find_lac atoi
control_handle_lac_connect env mem k =
    let ts = tokens 32 (c_string (drop 1 mem)) in
    let k1 = record k { switch_io = true } in
    elim ts [
      | [] ↦ crashed
      | name ∷ more ↦ connect env name (get_elem? more 0) (get_elem? more 1) k1 (find_line k1 name)
    ]

-- The number goes into 128 bytes.
unfoldable pub outgoing_call : ConsoleEnv → List (List ℕ) → Console → Handled
unfolding find_lac atoi
outgoing_call env [] k = crashed
outgoing_call env (name ∷ []) k = crashed
outgoing_call env (name ∷ dial_no ∷ more) k =
    let k1 = record k { dial_no_tmp = dial_no } in
    if not (ltb (length dial_no) 128)
    then crashed
    else connect env name none none k1 (find_line k1 name)

unfoldable pub control_handle_lac_outgoing_call : ConsoleEnv → List ℕ → Console → Handled
unfolding tokens outgoing_call
control_handle_lac_outgoing_call env mem k = elim (behind_space mem) [
  | none ↦ crashed
  | some params ↦ outgoing_call env (tokens 32 params) (record k { switch_io = false })
]

unfoldable pub control_handle_lac_hangup : List ℕ → Console → Handled
unfolding atoi
control_handle_lac_hangup mem k = elim (behind_space mem) [
  | none ↦ crashed
  | some callstr ↦ handled (with_code 0 (ask (lac_hangup (atoi callstr)) k))
]

abbrev pub disconnect_line : ℕ → Lac → Console → Handled
disconnect_line i l k =
    let k1 = put_line i (activated false l) k in
    elim l.tunnel [
      | none ↦ handled (with_code 1 k1)
      | some tid ↦ handled (with_code 0 (ask (lac_disconnect tid) k1))
    ]

abbrev pub disconnect : List ℕ → Console → Option (ℕ × Lac) → Handled
disconnect name k (some (i, l)) = disconnect_line i l k
disconnect name k none =
    if is_zero (atoi name)
    then handled (with_code 1 k)
    else handled (with_code 0 (ask (lac_disconnect (atoi name)) k))

unfoldable pub control_handle_lac_disconnect : List ℕ → Console → Handled
unfolding find_lac atoi
control_handle_lac_disconnect mem k = elim (behind_space mem) [
  | none ↦ crashed
  | some name ↦ disconnect name k (find_line k name)
]

-- `l2tp_call` looks up the host; where there is none, it reads the LAC, which is NULL here.
abbrev pub tunnel_to : ConsoleEnv → List ℕ → Console → Option ℕ → Handled
tunnel_to env host k none = crashed
tunnel_to env host k (some a) =
    handled (with_code (if env.connects host then 0 else 1) (ask (l2tp_call host) k))

unfoldable pub control_handle_tunnel : ConsoleEnv → List ℕ → Console → Handled
control_handle_tunnel env mem k = elim (behind_space mem) [
  | none ↦ crashed
  | some host ↦ tunnel_to env host k (env.file.hosts host)
]
