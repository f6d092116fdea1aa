-- ===== src/Console/Sound.antt =====
-- What every command of the control pipe (xl2tpd.c) keeps of the LACs.
use mathlib.Core.Path.{subst}
use xl2tpd.Base.{ℕ, zero, suc, refl, sym, false, if-intro}
use xl2tpd.Base.{List, [], ◌∷◌, Option, none, some, All}
use xl2tpd.Session.{c_string}
use xl2tpd.File.Text.{split_at, stored}
use xl2tpd.File.Entries.{new_lac}
use xl2tpd.File.Options.{FileEnv, Item, lns, lac, Outcome, ok, refused, overrun}
use xl2tpd.File.Keywords.{parse_one_option}
use xl2tpd.File.Parse
use xl2tpd.File.Sound.{IsGoodLac, IsGoodItem, IsGoodOutcome}
use xl2tpd.File.Sound.Words.{IsGoodAnswer, parse_one_option-IsGoodAnswer}
use xl2tpd.File.Text.{strip_end, skip_blank}
use xl2tpd.Console.Line.{
  tokens, command_name, token_option, outcome_of, option_of, line_loop, started,
}
use xl2tpd.Console.Line.{parse_one_line}
use xl2tpd.Console.State.{Lac, Console, ConsoleEnv, Handled, handled, crashed}
use xl2tpd.Console.State.{lac_entries}
use xl2tpd.Console.Handlers
use xl2tpd.Console.Handlers.{
  added, finished, add_named, add_line, modified, changed, modify, modify_line,
}
use xl2tpd.Console.Options.{looped, stepped, line_loop-stepped}

abbrev pub IsGoodLine : Lac → Type 0
IsGoodLine l = IsGoodLac l.entry

-- Each LAC of the list has a positive window and a positive time before it redials.
abbrev pub IsGoodConsole : Console → Type 0
IsGoodConsole k = All IsGoodLine k.laclist

abbrev pub IsGoodHandled : Handled → Type 0
IsGoodHandled (handled k) = IsGoodConsole k
IsGoodHandled crashed = Unit

abbrev pub IsGoodEnd : Option Handled → Type 0
IsGoodEnd none = Unit
IsGoodEnd (some h) = IsGoodHandled h

outcome-IsGoodOutcome :
    (o : Option Outcome) (i : Item) → IsGoodAnswer o → IsGoodOutcome (outcome_of o i)
outcome-IsGoodOutcome none i good = tt
outcome-IsGoodOutcome (some o) i good = good

token_option-IsGoodOutcome :
    (env : FileEnv) (s : List ℕ) (i : Item) → IsGoodItem i → IsGoodOutcome (token_option env s i)
unfolding token_option
token_option-IsGoodOutcome env s i good = by_sign (split_at b'=' s)
  where
    by_sign : (o : Option (List ℕ × List ℕ)) → IsGoodOutcome (option_of env i o)
    by_sign none = tt
    by_sign (some (word, value)) =
        outcome-IsGoodOutcome (parse_one_option env false (strip_end word) (skip_blank value) i) i
          (parse_one_option-IsGoodAnswer env false (strip_end word) (skip_blank value) i good)

-- An item that all the options accept is good.
line_loop-IsGoodAnswer :
    (fuel : ℕ) (env : FileEnv) (s : List ℕ) (ts : List (List ℕ)) (i : Item)
    → IsGoodItem i
    → IsGoodAnswer (line_loop fuel env s ts i)
unfolding line_loop
line_loop-IsGoodAnswer zero env s ts i good = tt
line_loop-IsGoodAnswer (suc fuel) env s ts i good =
    subst IsGoodAnswer (sym (line_loop-stepped fuel env s ts i)) (
      by_text (strip_end (skip_blank s))
        (λ us j better. line_loop-IsGoodAnswer fuel env us.0 us.1 j better))
  where
    by_outcome :
        (us : List (List ℕ)) (o : Outcome)
        → IsGoodOutcome o
        → ((us : List ℕ × List (List ℕ)) (j : Item)
            → IsGoodItem j
            → IsGoodAnswer (line_loop fuel env us.0 us.1 j))
        → IsGoodAnswer (looped fuel env us o)
    by_outcome us overrun fine next = tt
    by_outcome us (refused j) fine next = tt
    by_outcome [] (ok j) fine next = fine
    by_outcome (u ∷ more) (ok j) fine next = next (u, more) j fine

    by_text :
        (t : List ℕ)
        → ((us : List ℕ × List (List ℕ)) (j : Item)
            → IsGoodItem j
            → IsGoodAnswer (line_loop fuel env us.0 us.1 j))
        → IsGoodAnswer (stepped fuel env ts i t)
    by_text [] next = next ([], ts) i good
    by_text (c ∷ cs) next =
        by_outcome ts (token_option env (c ∷ cs) i) (token_option-IsGoodOutcome env (c ∷ cs) i good)
          next

pub parse_one_line-IsGoodAnswer :
    (fuel : ℕ) (env : FileEnv) (mem : List ℕ) (i : Item)
    → IsGoodItem i
    → IsGoodAnswer (parse_one_line fuel env mem i)
unfolding parse_one_line
parse_one_line-IsGoodAnswer fuel env [] i good = tt
parse_one_line-IsGoodAnswer fuel env (b ∷ bs) i good = from_start (tokens b';' (c_string (b ∷ bs)))
  where
    from_start : (ts : List (List ℕ)) → IsGoodAnswer (started fuel env i ts)
    from_start [] = good
    from_start (t ∷ ts) = line_loop-IsGoodAnswer fuel env t ts i good

added-IsGoodEnd :
    (k : Console) (o : Option Outcome) → IsGoodConsole k → IsGoodAnswer o → IsGoodEnd (finished k o)
added-IsGoodEnd k none good fine = tt
added-IsGoodEnd k (some overrun) good fine = tt
added-IsGoodEnd k (some (refused i)) good fine = good
added-IsGoodEnd k (some (ok (Item.global g))) good fine = tt
added-IsGoodEnd k (some (ok (lns e))) good fine = tt
added-IsGoodEnd k (some (ok (lac e))) good fine =
    if-intro IsGoodHandled e.autodial (fine, good) (fine, good)

new_lac-IsGoodLac : (name : List ℕ) → IsGoodLac (record new_lac { entname = name })
unfolding new_lac
new_lac-IsGoodLac name = (refl, refl)

pub control_handle_lac_add_modify-IsGoodEnd :
    (env : ConsoleEnv) (mem : List ℕ) (k : Console)
    → IsGoodConsole k
    → IsGoodEnd (Handlers.control_handle_lac_add_modify env mem k)
unfolding Handlers.control_handle_lac_add_modify
control_handle_lac_add_modify-IsGoodEnd env mem k good = by_name (command_name mem)
  where
    by_place : (name after : List ℕ) (o : Option ℕ) → IsGoodEnd (add_named env name after k o)
    by_place name after (some i) = good
    by_place name after none =
        let e = record new_lac { entname = stored name } in
        added-IsGoodEnd k (parse_one_line env.fuel env.file after (lac e)) good (
          parse_one_line-IsGoodAnswer env.fuel env.file after (lac e)
            (new_lac-IsGoodLac (stored name)))

    by_name : (p : List ℕ × List ℕ) → IsGoodEnd (add_line env p k)
    by_name ([], after) = good
    by_name (b ∷ bs, after) = by_place (b ∷ bs) after (Parse.find_lac (b ∷ bs) (lac_entries k))
