-- ===== src/Console/Handlers.antt =====
-- The handlers of the table `control_handlers` (xl2tpd.c). A handler is given the memory from the
-- letter of the command on. Calls and Removal have those about calls and those that remove an entry.
use xl2tpd.Base.{ℕ, suc, Bool, true, false, if◌then◌else◌, ◌==◌}
use xl2tpd.Base.{List, [], ◌∷◌, ◌++◌, Option, none, some, ℤ, pos, length}
use xl2tpd.File.Text.{stored}
use xl2tpd.File.Entries.{LnsEntry, new_lns, new_lac}
use xl2tpd.File.Options.{lns, lac, Outcome, ok, refused}
use xl2tpd.File.Parse.{find_lac}
use xl2tpd.Console.Line.{command_name, parse_one_line}
use xl2tpd.Console.State.{Lac, magic_lac_dial}
use xl2tpd.Console.State.{Answer, code, lns_name, lac_name, lns_count, lac_count, tunnel_report}
use xl2tpd.Console.State.{
  Console, ConsoleEnv, Handled, handled, crashed, with_code, ask, lac_entries,
}
use xl2tpd.Console.State.{activated, Place, at_place, find_lns_by_name, put_lns}

-- `atoi (x) == 0`
abbrev pub is_zero : ℤ → Bool
is_zero (pos n) = n == 0
is_zero (ℤ.negsuc n) = false

-- The entries of a listing, with their numbers.
unfoldable pub list_lns : ℕ → List LnsEntry → List Answer
list_lns n [] = []
list_lns n (e ∷ es) = lns_name n e.entname ∷ list_lns (suc n) es

unfoldable pub list_lac : ℕ → List Lac → List Answer
list_lac n [] = []
list_lac n (l ∷ ls) = lac_name n l.entry.entname ∷ list_lac (suc n) ls

abbrev pub list_default : ℕ → Option LnsEntry → List Answer
list_default n none = lns_count n ∷ []
list_default n (some e) = lns_name n e.entname ∷ lns_count (suc n) ∷ []

unfoldable pub control_handle_available : Console → Handled
unfolding list_lns list_lac
control_handle_available k = handled (record k {
  answers =
      k.answers
      ++ (code 0
          ∷ (list_lns 0 k.lnslist
              ++ (list_default (length k.lnslist) k.deflns
                  ++ (list_lac 0 k.laclist
                      ++ (lac_name (length k.laclist) k.deflac.entname
                          ∷ lac_count (suc (length k.laclist))
                          ∷ tunnel_report
                          ∷ [])))));
})

-- What `parse_one_line_lns` has changed stays, also where an option is refused.
abbrev pub modified : Place → Console → Outcome → Handled
modified p k (ok (lns e)) = handled (with_code 0 (put_lns p e k))
modified p k (refused (lns e)) = handled (with_code 3 (put_lns p e k))
modified p k other = crashed

abbrev pub lns_place : Console → List ℕ → Option (Place × LnsEntry) → Place × LnsEntry × Console
lns_place k name (some (p, e)) = (p, e, k)
lns_place k name none =
    let e = record new_lns { entname = stored name } in
    (at_place 0, e, record k { lnslist = e ∷ k.lnslist })

abbrev pub changed : Place → Console → Option Outcome → Option Handled
changed p k none = none
changed p k (some o) = some (modified p k o)

abbrev pub modify : ConsoleEnv → List ℕ → Place × LnsEntry × Console → Option Handled
modify env after (p, e, k) = changed p k (parse_one_line env.fuel env.file after (lns e))

abbrev pub modify_line : ConsoleEnv → List ℕ × List ℕ → Console → Option Handled
modify_line env ([], after) k = some crashed
modify_line env (b ∷ bs, after) k =
    modify env after (lns_place k (b ∷ bs) (find_lns_by_name k (b ∷ bs)))

unfoldable pub control_handle_lns_add_modify : ConsoleEnv → List ℕ → Console → Option Handled
unfolding command_name find_lns_by_name new_lns parse_one_line
control_handle_lns_add_modify env mem k = modify_line env (command_name mem) k

-- A new LAC, which is dialled if it wants to be.
abbrev pub added : Console → Outcome → Handled
added k (ok (lac e)) =
    let l : Lac = record { entry = e; rtries = 0; password = []; tunnel = none; call = false } in
    if e.autodial
    then handled (
        with_code 0 (
          ask (magic_lac_dial 0)
            (record k { switch_io = true; laclist = activated true l ∷ k.laclist })))
    else handled (with_code 0 (record k { laclist = l ∷ k.laclist }))
added k (refused i) = handled (with_code 3 k)
added k other = crashed

abbrev pub finished : Console → Option Outcome → Option Handled
finished k none = none
finished k (some o) = some (added k o)

abbrev pub add_named : ConsoleEnv → List ℕ → List ℕ → Console → Option ℕ → Option Handled
add_named env name after k (some i) = some (handled k)
add_named env name after k none =
    finished k
      (parse_one_line env.fuel env.file after (lac (record new_lac { entname = stored name })))

abbrev pub add_line : ConsoleEnv → List ℕ × List ℕ → Console → Option Handled
add_line env ([], after) k = some (handled (with_code 1 k))
add_line env (b ∷ bs, after) k = add_named env (b ∷ bs) after k (find_lac (b ∷ bs) (lac_entries k))

unfoldable pub control_handle_lac_add_modify : ConsoleEnv → List ℕ → Console → Option Handled
unfolding command_name find_lac new_lac parse_one_line
control_handle_lac_add_modify env mem k = add_line env (command_name mem) k
