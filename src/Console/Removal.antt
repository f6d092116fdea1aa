-- ===== src/Console/Removal.antt =====
-- The handlers of `control_handlers` (xl2tpd.c) that remove an entry or list its state. What is
-- written of tunnels and calls is one answer, and `show_status` writes to the log alone.
use xl2tpd.Base.{ℕ, zero, suc, List, [], ◌∷◌, ◌++◌, Option, none, some, ℤ}
use xl2tpd.File.Entries.{LnsEntry}
use xl2tpd.File.Parse.{find_lns}
use xl2tpd.Console.Line.{command_name}
use xl2tpd.Console.State.{Lac, lac_disconnect, close_calls, forget_lac, tunnel_report}
use xl2tpd.Console.State.{
  Console, Handled, handled, crashed, with_code, ask, Place, find_lns_by_name,
}
use xl2tpd.Console.Calls.{behind_space, find_line}

-- The list without the entry at a place.
unfoldable pub remove_at {ℓ} : {A : Type ℓ} → ℕ → List A → List A
remove_at i [] = []
remove_at zero (x ∷ xs) = xs
remove_at (suc i) (x ∷ xs) = x ∷ remove_at i xs

abbrev pub remove_lns : Console → Option ℕ → Handled
remove_lns k none = handled (with_code 1 k)
remove_lns k (some i) =
    handled (with_code 0 (record (ask (close_calls i) k) { lnslist = remove_at i k.lnslist }))

unfoldable pub control_handle_lns_remove : List ℕ → Console → Handled
unfolding find_lns remove_at
control_handle_lns_remove mem k = elim (behind_space mem) [
  | none ↦ crashed
  | some name ↦ remove_lns k (find_lns name k.lnslist)
]

-- The tunnel of a LAC is ended first; a tunnel and calls that still have the LAC then lose it.
abbrev pub disconnected : Option ℤ → Console → Console
disconnected none k = k
disconnected (some tid) k = ask (lac_disconnect tid) k

abbrev pub remove_lac : Console → Option (ℕ × Lac) → Handled
remove_lac k none = handled (with_code 1 k)
remove_lac k (some (i, l)) = handled (
    with_code 0
      (record (ask (forget_lac i) (disconnected l.tunnel k)) { laclist = remove_at i k.laclist }))

unfoldable pub control_handle_lac_remove : List ℕ → Console → Handled
unfolding remove_at
control_handle_lac_remove mem k = elim (behind_space mem) [
  | none ↦ crashed
  | some name ↦ remove_lac k (find_line k name)
]

abbrev pub status_of : Console → Option (Place × LnsEntry) → Handled
status_of k none = handled (with_code 1 k)
status_of k (some (p, e)) =
    let k1 = with_code 0 k in handled (record k1 { answers = k1.answers ++ (tunnel_report ∷ []) })

abbrev pub lns_status : Console → List ℕ → Handled
lns_status k [] = crashed
lns_status k (b ∷ bs) = status_of k (find_lns_by_name k (b ∷ bs))

unfoldable pub control_handle_lns_status : List ℕ → Console → Handled
unfolding command_name find_lns_by_name
control_handle_lns_status mem k = lns_status k (command_name mem).0

unfoldable pub control_handle_lac_status : List ℕ → Console → Handled
control_handle_lac_status mem k = handled k
