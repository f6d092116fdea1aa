-- ===== src/Console/Whole.antt =====
-- The invariant of the LACs over the messages of `do_control` (xl2tpd.c).
use xl2tpd.Base.{ℕ, Bool, true, false, if◌then◌else◌, if-intro}
use xl2tpd.Base.{List, [], ◌∷◌, Option, none, some, drop, length, ◌==◌, not}
use xl2tpd.Session.{c_string}
use xl2tpd.File.Text.{split_at}
use xl2tpd.Console.State.{Console, ConsoleEnv, Handled, handled, crashed, with_code}
use xl2tpd.Console.Messages.{find_removal, find_handler, silent, served, serve, command, to_file}
use xl2tpd.Console.Messages.{message, filled, has_nul, Read, is_empty, take_message, do_control}
use xl2tpd.Console.Sound.{IsGoodConsole, IsGoodHandled, IsGoodEnd}
use xl2tpd.Console.Sound.{control_handle_lac_add_modify-IsGoodEnd}
use xl2tpd.Console.Keeps.{IsGoodHandler, lns_add_modify-IsGoodEnd, lac_connect-IsGoodHandled}
use xl2tpd.Console.Keeps.{lac_outgoing_call-IsGoodHandled, lac_hangup-IsGoodHandled}
use xl2tpd.Console.KeepsRemoval.{lac_remove-IsGoodHandled, lns_remove-IsGoodHandled}
use xl2tpd.Console.KeepsRemoval.{lns_status-IsGoodHandled}
use xl2tpd.Console.Keeps.{lac_disconnect-IsGoodHandled, tunnel-IsGoodHandled}

abbrev IsGoodChoice : Option (List ℕ → Console → Option Handled) → Type 0
IsGoodChoice none = Unit
IsGoodChoice (some h) = IsGoodHandler h

abbrev IsGoodStep : Option (Handled × Bool) → Type 0
IsGoodStep none = Unit
IsGoodStep (some (h, seen)) = IsGoodHandled h

silent-IsGoodHandled :
    (k : Console) (wants : Bool) (h : Handled)
    → IsGoodConsole k
    → IsGoodHandled h
    → IsGoodHandled (silent k wants h)
silent-IsGoodHandled k true h good fine = fine
silent-IsGoodHandled k false crashed good fine = tt
silent-IsGoodHandled k false (handled k1) good fine = fine

find_removal-IsGoodChoice : (b : ℕ) → IsGoodChoice (find_removal b)
unfolding find_removal
find_removal-IsGoodChoice b = if-intro IsGoodChoice (b == b'r') lac_remove-IsGoodHandled (
    if-intro IsGoodChoice (b == b's') (λ mem k good. good)
      (if-intro IsGoodChoice (b == b'y') lns_status-IsGoodHandled
        (if-intro IsGoodChoice (b == b'w') {y = none} lns_remove-IsGoodHandled tt)))

module _ (env : ConsoleEnv) where
  find_handler-IsGoodChoice : (b : ℕ) → IsGoodChoice (find_handler env b)
  unfolding find_handler
  find_handler-IsGoodChoice b =
      if-intro IsGoodChoice (b == b'x') (λ mem k good. good)
        (if-intro IsGoodChoice (b == b'z') (lns_add_modify-IsGoodEnd env) (
          if-intro IsGoodChoice (b == b't') (tunnel-IsGoodHandled env) (
            if-intro IsGoodChoice (b == b'c') (lac_connect-IsGoodHandled env) (
              if-intro IsGoodChoice (b == b'o') (lac_outgoing_call-IsGoodHandled env) (
                if-intro IsGoodChoice (b == b'h') lac_hangup-IsGoodHandled (
                  if-intro IsGoodChoice (b == b'd') lac_disconnect-IsGoodHandled (
                    if-intro IsGoodChoice (b == b'a') (control_handle_lac_add_modify-IsGoodEnd env)
                      (find_removal-IsGoodChoice b))))))))

  serve-IsGoodStep :
      (mem : List ℕ) (wants seen : Bool) (k : Console)
      (o : Option (List ℕ → Console → Option Handled))
      → IsGoodConsole k
      → IsGoodChoice o
      → IsGoodStep (serve mem wants seen k o)
  serve-IsGoodStep mem wants seen k none good chosen =
      silent-IsGoodHandled k wants (handled (if seen then k else with_code 1 k)) good
        (if-intro IsGoodConsole seen good good)
  serve-IsGoodStep mem wants seen k (some h) good chosen = by_end (h mem k) (chosen mem k good)
    where
      by_end : (o : Option Handled) → IsGoodEnd o → IsGoodStep (served wants k o)
      by_end none ended = tt
      by_end (some r) ended = silent-IsGoodHandled k wants r good ended

  command-IsGoodStep :
      (mem : List ℕ) (wants seen : Bool) (k : Console)
      → IsGoodConsole k
      → IsGoodStep (command env mem wants seen k)
  unfolding command
  command-IsGoodStep [] wants seen k good = tt
  command-IsGoodStep (b ∷ bs) wants seen k good =
      serve-IsGoodStep (b ∷ bs) wants seen k (find_handler env b) good (find_handler-IsGoodChoice b)

  message-IsGoodStep :
      (opens : List ℕ → Bool) (mem : List ℕ) (seen : Bool) (k : Console)
      → IsGoodConsole k
      → IsGoodStep (message env opens mem seen k)
  unfolding message
  message-IsGoodStep opens [] seen k good = tt
  message-IsGoodStep opens (b ∷ bs) seen k good =
      if-intro IsGoodStep (b == b'@') (by_file (split_at 32 (c_string bs)))
        (command-IsGoodStep (b ∷ bs) false seen k good)
    where
      by_file : (o : Option (List ℕ × List ℕ)) → IsGoodStep (to_file env opens bs seen k o)
      by_file none = good
      by_file (some ([], behind)) = good
      by_file (some (c ∷ cs, behind)) =
          if-intro IsGoodStep (opens (c ∷ cs)) {y = some (handled k, seen)}
            (command-IsGoodStep (drop 1 (drop (length (c ∷ cs)) bs)) true seen k good) good

  take_message-IsGoodStep :
      (opens : List ℕ → Bool) (buf : List ℕ) (seen : Bool) (k : Console)
      → IsGoodConsole k
      → IsGoodStep (take_message env opens buf seen k)
  unfolding take_message
  take_message-IsGoodStep opens buf seen k good =
      if-intro IsGoodStep (not (has_nul buf)) {x = some (crashed, seen)} tt
        (message-IsGoodStep opens buf seen k good)

  -- Whatever is read from the control pipe, and whatever the buffer holds before each read: where
  -- `do_control` ends without a crash, each LAC of the list has a positive window and a positive time
  -- before it redials, if each had them before.
  pub do_control-IsGoodEnd :
      (opens : List ℕ → Bool) (reads : List Read) (seen : Bool) (k : Console)
      → IsGoodConsole k
      → IsGoodEnd (do_control env opens reads seen k)
  unfolding do_control
  do_control-IsGoodEnd opens [] seen k good = good
  do_control-IsGoodEnd opens (r ∷ reads) seen k good =
      if-intro IsGoodEnd (is_empty r.chunk) {x = some (handled k)} good (
        by_step (take_message env opens (filled r.before r.chunk) seen k)
          (take_message-IsGoodStep opens (filled r.before r.chunk) seen k good)
          (λ found k1 kept. do_control-IsGoodEnd opens reads found k1 kept))
    where
      by_step :
          (o : Option (Handled × Bool))
          → IsGoodStep o
          → ((found : Bool) (k1 : Console)
              → IsGoodConsole k1
              → IsGoodEnd (do_control env opens reads found k1))
          → IsGoodEnd (elim o as (λ x. Option Handled) [
            | none ↦ none
            | some (crashed, found) ↦ some crashed
            | some (handled k1, found) ↦ do_control env opens reads found k1
          ])
      by_step none kept next = tt
      by_step (some (crashed, found)) kept next = tt
      by_step (some (handled k1, found)) kept next = next found k1 kept
