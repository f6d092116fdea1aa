-- ===== src/Console/Client.antt =====
-- The commands of xl2tpd-control.c, as they are written into the message: `command_add` and the
-- others, behind the name of the file for the result.
use xl2tpd.Base.{ℕ, Bool, true, false, List, [], ◌∷◌, ◌++◌, Option, none, some}
use xl2tpd.File.Text.{split_at}

-- The arguments of a command with options, each key being waited for or its value. A key may have
-- several arguments, and a sign at the end of one has the value in the next.
unfoldable pub option_text : Bool → List (List ℕ) → List ℕ
option_text wait_key [] = []
option_text true (o ∷ os) = elim (split_at b'=' o) [
  | none ↦ o ++ (32 ∷ option_text true os)
  | some (key, []) ↦ o ++ option_text false os
  | some (key, b ∷ bs) ↦ o ++ (b';' ∷ option_text true os)
]
option_text false (o ∷ os) = o ++ (b';' ∷ option_text true os)

-- `none` is the result -1.
unfoldable pub command_add : ℕ → List ℕ → List (List ℕ) → Option (List ℕ)
unfolding option_text
command_add reqopt tunnel [] = none
command_add reqopt tunnel (o ∷ os) =
    some (reqopt ∷ 32 ∷ (tunnel ++ (32 ∷ option_text true (o ∷ os))))

unfoldable pub command_add_lac : List ℕ → List (List ℕ) → Option (List ℕ)
unfolding command_add
command_add_lac tunnel optv = command_add b'a' tunnel optv

unfoldable pub command_add_lns : List ℕ → List (List ℕ) → Option (List ℕ)
unfolding command_add
command_add_lns tunnel optv = command_add b'z' tunnel optv

unfoldable pub command_connect_lac : List ℕ → List (List ℕ) → List ℕ
command_connect_lac tunnel [] = b'c' ∷ 32 ∷ tunnel
command_connect_lac tunnel (authname ∷ []) = b'c' ∷ 32 ∷ (tunnel ++ (32 ∷ authname))
command_connect_lac tunnel (authname ∷ password ∷ more) =
    b'c' ∷ 32 ∷ (tunnel ++ (32 ∷ (authname ++ (32 ∷ password))))

unfoldable pub command_disconnect_lac : List ℕ → List ℕ
command_disconnect_lac tunnel = b'd' ∷ 32 ∷ tunnel

-- `main` puts this in front of the command.
abbrev pub with_result : List ℕ → List ℕ → List ℕ
with_result result_filename text = b'@' ∷ (result_filename ++ (32 ∷ text))
