-- ===== src/Console/Messages.antt =====
-- `do_control` (xl2tpd.c): messages from the control pipe, the file for the result, and the choice of
-- a handler by the first letter.
use xl2tpd.Base.{ℕ, Bool, true, false, not, if◌then◌else◌, ◌==◌}
use xl2tpd.Base.{List, [], ◌∷◌, ◌++◌, Option, none, some, length, drop}
use xl2tpd.Session.{c_string}
use xl2tpd.File.Text.{split_at}
use xl2tpd.Console.State.{Console, ConsoleEnv, Handled, handled, crashed, with_code}
use xl2tpd.Console.Handlers.{control_handle_available, control_handle_lns_add_modify}
use xl2tpd.Console.Handlers.{control_handle_lac_add_modify}
use xl2tpd.Console.Calls.{control_handle_lac_connect, control_handle_lac_outgoing_call}
use xl2tpd.Console.Calls.{control_handle_lac_hangup, control_handle_lac_disconnect}
use xl2tpd.Console.Calls.{control_handle_tunnel}
use xl2tpd.Console.Removal.{control_handle_lns_remove, control_handle_lac_remove}
use xl2tpd.Console.Removal.{control_handle_lns_status, control_handle_lac_status}

-- The table `control_handlers`, in two parts.
unfoldable pub find_removal : ℕ → Option (List ℕ → Console → Option Handled)
unfolding control_handle_lns_status control_handle_lac_remove control_handle_lac_status
    control_handle_lns_remove
find_removal b =
    if b == b'r'
    then some (λ mem k. some (control_handle_lac_remove mem k))
    else (if b == b's'
        then some (λ mem k. some (control_handle_lac_status mem k))
        else (if b == b'y'
            then some (λ mem k. some (control_handle_lns_status mem k))
            else (if b == b'w'
                then some (λ mem k. some (control_handle_lns_remove mem k))
                else none)))

-- `none` is a letter that is not there.
unfoldable pub find_handler : ConsoleEnv → ℕ → Option (List ℕ → Console → Option Handled)
unfolding find_removal control_handle_available control_handle_lns_add_modify
    control_handle_lac_add_modify control_handle_lac_connect control_handle_lac_outgoing_call
    control_handle_lac_hangup control_handle_lac_disconnect control_handle_tunnel
find_handler env b =
    if b == b'x'
    then some (λ mem k. some (control_handle_available k))
    else (if b == b'z'
        then some (control_handle_lns_add_modify env)
        else (if b == b't'
            then some (λ mem k. some (control_handle_tunnel env mem k))
            else (if b == b'c'
                then some (λ mem k. some (control_handle_lac_connect env mem k))
                else (if b == b'o'
                    then some (λ mem k. some (control_handle_lac_outgoing_call env mem k))
                    else (if b == b'h'
                        then some (λ mem k. some (control_handle_lac_hangup mem k))
                        else (if b == b'd'
                            then some (λ mem k. some (control_handle_lac_disconnect mem k))
                            else (if b == b'a'
                                then some (control_handle_lac_add_modify env)
                                else find_removal b)))))))

-- Answers go nowhere without a file for them.
abbrev pub silent : Console → Bool → Handled → Handled
silent k true h = h
silent k false crashed = crashed
silent k false (handled k1) = handled (record k1 { answers = k.answers })

abbrev pub served : Bool → Console → Option Handled → Option (Handled × Bool)
served wants k none = none
served wants k (some h) = some (silent k wants h, true)

-- A command, and whether a handler has been found for this one or one before it.
abbrev pub serve :
    List ℕ
    → Bool
    → Bool
    → Console
    → Option (List ℕ → Console → Option Handled)
    → Option (Handled × Bool)
serve mem wants seen k none =
    some (silent k wants (handled (if seen then k else with_code 1 k)), seen)
serve mem wants seen k (some handler) = served wants k (handler mem k)

unfoldable pub command : ConsoleEnv → List ℕ → Bool → Bool → Console → Option (Handled × Bool)
unfolding find_handler
command env [] wants seen k = some (crashed, seen)
command env (b ∷ bs) wants seen k = serve (b ∷ bs) wants seen k (find_handler env b)

abbrev pub to_file :
    ConsoleEnv
    → (List ℕ → Bool)
    → List ℕ
    → Bool
    → Console
    → Option (List ℕ × List ℕ)
    → Option (Handled × Bool)
to_file env opens mem seen k none = some (handled k, seen)
to_file env opens mem seen k (some ([], behind)) = some (handled k, seen)
to_file env opens mem seen k (some (c ∷ cs, behind)) =
    if opens (c ∷ cs)
    then command env (drop 1 (drop (length (c ∷ cs)) mem)) true seen k
    else some (handled k, seen)

-- The name of the file behind the `@`, and the command behind it.
unfoldable pub message :
    ConsoleEnv → (List ℕ → Bool) → List ℕ → Bool → Console → Option (Handled × Bool)
unfolding command
message env opens [] seen k = some (crashed, seen)
message env opens (b ∷ bs) seen k =
    if b == b'@'
    then to_file env opens bs seen k (split_at 32 (c_string bs))
    else command env (b ∷ bs) false seen k

-- `buf` after a read: the bytes that it held stay behind the new ones, and a new line at the end of
-- these becomes a NUL.
unfoldable pub ended : List ℕ → List ℕ
ended [] = []
ended (b ∷ bs) = elim bs [ [] ↦ (if b == 10 then 0 else b) ∷ [] | c ∷ cs ↦ b ∷ ended bs ]

abbrev pub filled : List ℕ → List ℕ → List ℕ
filled buf chunk = ended chunk ++ drop (length chunk) buf

-- Whether a string ends in the buffer.
abbrev pub has_nul : List ℕ → Bool
has_nul buf = elim (split_at 0 buf) [ none ↦ false | some (front, behind) ↦ true ]

-- A read of the loop: its bytes, and what `buf` held before. That is zeros at first, and later an
-- older message into which `do_control` and the handlers have written NULs, behind the file's name
-- and where `strtok` ends a word; here it may be any bytes.
pub record Read : Type 0 where
  pub before : List ℕ
  pub chunk : List ℕ

abbrev pub is_empty : List ℕ → Bool
is_empty [] = true
is_empty (b ∷ bs) = false

-- The message of one read.
unfoldable pub take_message :
    ConsoleEnv → (List ℕ → Bool) → List ℕ → Bool → Console → Option (Handled × Bool)
unfolding message
take_message env opens buf seen k =
    if not (has_nul buf) then some (crashed, seen) else message env opens buf seen k

-- The loop over the reads, with `handler_found`. A read of no bytes ends it.
unfoldable pub do_control :
    ConsoleEnv → (List ℕ → Bool) → List Read → Bool → Console → Option Handled
unfolding take_message ended
do_control env opens [] seen k = some (handled k)
do_control env opens (r ∷ reads) seen k =
    if is_empty r.chunk
    then some (handled k)
    else elim (take_message env opens (filled r.before r.chunk) seen k) [
      | none ↦ none
      | some (crashed, found) ↦ some crashed
      | some (handled k1, found) ↦ do_control env opens reads found k1
    ]
