-- ===== src/Console/State.antt =====
-- What the commands of the control pipe change: the lists of file.h, `switch_io`, `dial_no_tmp`, the
-- functions that a command calls, and its answers (`write_res` of xl2tpd.c).
use xl2tpd.Base.{
  ℕ, if◌then◌else◌, ◌==◌, ◌&&◌, Bool, true, false, List, [], ◌∷◌, ◌++◌, Option, none, some, ℤ, map,
  get_elem?,
}
use xl2tpd.File.Text.{bytes}
use xl2tpd.File.Entries.{LnsEntry, LacEntry}
use xl2tpd.File.Options.{FileEnv}
use xl2tpd.File.Parse.{find_lns}
use xl2tpd.File.Settings.{put_at}

-- `struct lac` with its tries, its password, the number of its tunnel, and whether it has a call.
pub record Lac : Type 0 where
  pub entry : LacEntry
  pub rtries : ℕ
  pub password : List ℕ
  pub tunnel : Option ℤ
  pub call : Bool

-- The calls into the rest of the program. A LAC is known by its place in the list, and an LNS too,
-- where `call_close` is called on the calls of its tunnels. The last is no call: the tunnel of a LAC
-- and its calls lose their pointer to it.
pub data Ask : Type 0 where
  magic_lac_dial : ℕ → Ask
  lac_call : ℤ → Ask
  lac_hangup : ℤ → Ask
  lac_disconnect : ℤ → Ask
  l2tp_call : List ℕ → Ask
  close_calls : ℕ → Ask
  forget_lac : ℕ → Ask

-- A line of the result: its code, or an entry of a listing.
pub data Answer : Type 0 where
  code : ℕ → Answer
  lns_name : ℕ → List ℕ → Answer
  lac_name : ℕ → List ℕ → Answer
  lns_count : ℕ → Answer
  lac_count : ℕ → Answer
  tunnel_report : Answer

pub record Console : Type 0 where
  pub lnslist : List LnsEntry
  pub deflns : Option LnsEntry
  pub laclist : List Lac
  pub deflac : LacEntry
  pub switch_io : Bool
  pub dial_no_tmp : List ℕ
  pub asked : List Ask
  pub answers : List Answer

-- The fuel is for `parse_one_line`. Whether `lac_call` and `l2tp_call` find what they need is theirs
-- to say.
pub record ConsoleEnv : Type 0 where
  pub file : FileEnv
  pub fuel : ℕ
  pub calls : ℤ → Bool
  pub connects : List ℕ → Bool

-- The end of a handler, or an access outside of an object.
pub data Handled : Type 0 where
  handled : Console → Handled
  crashed : Handled

abbrev pub with_code : ℕ → Console → Console
with_code n k = record k { answers = k.answers ++ (code n ∷ []) }

abbrev pub ask : Ask → Console → Console
ask a k = record k { asked = k.asked ++ (a ∷ []) }

abbrev pub lac_entries : Console → List LacEntry
lac_entries k = map (λ l. l.entry) k.laclist

-- A LAC with its number of tries back at 0.
abbrev pub activated : Bool → Lac → Lac
activated b l = record l {
  rtries = 0;
  entry = record (l.entry) { conf = record (l.entry.conf) { active = b } };
}

abbrev pub put_line : ℕ → Lac → Console → Console
put_line i l k = record k { laclist = put_at k.laclist i l }

-- Where `find_lns_by_name` finds an LNS.
pub data Place : Type 0 where
  at_default : Place
  at_place : ℕ → Place

abbrev pub found_default : Option LnsEntry → Option (Place × LnsEntry)
found_default none = none
found_default (some e) = some (at_default, e)

abbrev pub found_at : List LnsEntry → Option ℕ → Option (Place × LnsEntry)
found_at es none = none
found_at es (some i) = elim (get_elem? es i) [ none ↦ none | some e ↦ some (at_place i, e) ]

-- `strcmp` of the two is 0.
unfoldable pub same_string : List ℕ → List ℕ → Bool
same_string [] [] = true
same_string [] (y ∷ ys) = false
same_string (x ∷ xs) [] = false
same_string (x ∷ xs) (y ∷ ys) = let rest = same_string xs ys in (x == y) && rest

unfoldable pub find_lns_by_name : Console → List ℕ → Option (Place × LnsEntry)
unfolding same_string find_lns
find_lns_by_name k name =
    if same_string name (bytes "default")
    then found_default k.deflns
    else found_at k.lnslist (find_lns name k.lnslist)

abbrev pub put_lns : Place → LnsEntry → Console → Console
put_lns at_default e k = record k { deflns = some e }
put_lns (at_place i) e k = record k { lnslist = put_at k.lnslist i e }
