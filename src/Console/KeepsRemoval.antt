-- ===== src/Console/KeepsRemoval.antt =====
-- The handlers that remove an entry or list its state leave the LACs good (xl2tpd.c).
use xl2tpd.Base.{ℕ, zero, suc}
use xl2tpd.Base.{List, [], ◌∷◌, Option, none, some, All}
use xl2tpd.File.Entries.{LnsEntry}
use xl2tpd.File.Parse
use xl2tpd.Console.Line.{command_name}
use xl2tpd.Console.State.{Lac, Console, Place}
use xl2tpd.Console.State.{find_lns_by_name}
use xl2tpd.Console.Calls.{behind_space, find_line}
use xl2tpd.Console.Removal
use xl2tpd.Console.Removal.{remove_at, remove_lns, remove_lac, disconnected, status_of, lns_status}
use xl2tpd.Console.Sound.{IsGoodLine, IsGoodConsole, IsGoodHandled}
use xl2tpd.Console.Keeps.{behind-IsGoodHandled}

remove_at-All : (i : ℕ) (ls : List Lac) → All IsGoodLine ls → All IsGoodLine (remove_at i ls)
unfolding remove_at
remove_at-All i [] all = tt
remove_at-All zero (l ∷ ls) (first, all) = all
remove_at-All (suc i) (l ∷ ls) (first, all) = (first, remove_at-All i ls all)

pub lac_remove-IsGoodHandled :
    (mem : List ℕ) (k : Console)
    → IsGoodConsole k
    → IsGoodHandled (Removal.control_handle_lac_remove mem k)
unfolding Removal.control_handle_lac_remove
lac_remove-IsGoodHandled mem k good =
    behind-IsGoodHandled (behind_space mem) (λ s. remove_lac k (find_line k s))
      (λ s. by_line (find_line k s))
  where
    by_line : (o : Option (ℕ × Lac)) → IsGoodHandled (remove_lac k o)
    by_line none = good
    by_line (some (i, l)) = remove_at-All i k.laclist good

pub lns_remove-IsGoodHandled :
    (mem : List ℕ) (k : Console)
    → IsGoodConsole k
    → IsGoodHandled (Removal.control_handle_lns_remove mem k)
unfolding Removal.control_handle_lns_remove
lns_remove-IsGoodHandled mem k good =
    behind-IsGoodHandled (behind_space mem) (λ s. remove_lns k (Parse.find_lns s k.lnslist))
      (λ s. by_place (Parse.find_lns s k.lnslist))
  where
    by_place : (o : Option ℕ) → IsGoodHandled (remove_lns k o)
    by_place none = good
    by_place (some i) = good

pub lns_status-IsGoodHandled :
    (mem : List ℕ) (k : Console)
    → IsGoodConsole k
    → IsGoodHandled (Removal.control_handle_lns_status mem k)
unfolding Removal.control_handle_lns_status
lns_status-IsGoodHandled mem k good = by_name (command_name mem).0
  where
    by_found : (o : Option (Place × LnsEntry)) → IsGoodHandled (status_of k o)
    by_found none = good
    by_found (some (p, e)) = good

    by_name : (name : List ℕ) → IsGoodHandled (lns_status k name)
    by_name [] = tt
    by_name (b ∷ bs) = by_found (find_lns_by_name k (b ∷ bs))
