-- ===== src/Console/Line.antt =====
-- The options of a command, and its name: `strtok`, and `parse_one_line` (xl2tpd.c).
use xl2tpd.Base.{ℕ, zero, suc, false, if◌then◌else◌, ◌==◌}
use xl2tpd.Base.{List, [], ◌∷◌, Option, none, some, length, drop}
use xl2tpd.Session.{c_string}
use xl2tpd.File.Text.{skip_blank, strip_end, split_at}
use xl2tpd.File.Options.{FileEnv, Item, Outcome, ok, refused, overrun}
use xl2tpd.File.Keywords.{parse_one_option}

-- The byte in front of the first token, or a token of its own in front.
abbrev pub joined : ℕ → ℕ → List ℕ → List (List ℕ) → List (List ℕ)
joined x b [] ts = (b ∷ []) ∷ ts
joined x b (c ∷ cs) [] = (b ∷ []) ∷ []
joined x b (c ∷ cs) (t ∷ ts) = if c == x then (b ∷ []) ∷ t ∷ ts else (b ∷ t) ∷ ts

-- What `strtok` gives for a string, call by call, with one delimiter.
unfoldable pub tokens : ℕ → List ℕ → List (List ℕ)
tokens x [] = []
tokens x (b ∷ bs) = let rest = tokens x bs in if b == x then rest else joined x b bs rest

unfoldable pub skip_spaces : List ℕ → List ℕ
skip_spaces [] = []
skip_spaces (b ∷ bs) = let rest = skip_spaces bs in if b == 32 then rest else b ∷ bs

abbrev pub front_or : List ℕ → Option (List ℕ × List ℕ) → List ℕ
front_or s none = s
front_or s (some (front, behind)) = front

-- The bytes up to a space.
abbrev pub word_of : List ℕ → List ℕ
word_of s = front_or s (split_at 32 s)

-- The name behind the letter of a command, and the memory behind the byte that ends it, whatever
-- that byte was.
unfoldable pub command_name : List ℕ → List ℕ × List ℕ
unfolding skip_spaces
command_name mem =
    let s = skip_spaces (drop 1 mem) in
    let name = word_of (c_string s) in (name, drop 1 (drop (length name) s))

-- The result of an option; a word that is not known is an error too.
abbrev pub outcome_of : Option Outcome → Item → Outcome
outcome_of none i = refused i
outcome_of (some o) i = o

abbrev pub option_of : FileEnv → Item → Option (List ℕ × List ℕ) → Outcome
option_of env i none = refused i
option_of env i (some (word, value)) =
    outcome_of (parse_one_option env false (strip_end word) (skip_blank value) i) i

-- One token, trimmed, that is not empty.
unfoldable pub token_option : FileEnv → List ℕ → Item → Outcome
token_option env s i = option_of env i (split_at b'=' s)

-- The loop of `parse_one_line`, from the token `s` on. An empty token is looked at again and again.
-- `none` is a want of fuel.
unfoldable pub line_loop : ℕ → FileEnv → List ℕ → List (List ℕ) → Item → Option Outcome
unfolding token_option
line_loop zero env s ts i = none
line_loop (suc fuel) env s ts i = elim (strip_end (skip_blank s)) [
  | [] ↦ line_loop fuel env [] ts i
  | b ∷ bs ↦ elim (token_option env (b ∷ bs) i) [
    | overrun ↦ some overrun
    | refused j ↦ some (refused j)
    | ok j ↦ elim ts [ [] ↦ some (ok j) | t ∷ more ↦ line_loop fuel env t more j ]
  ]
]

abbrev pub started : ℕ → FileEnv → Item → List (List ℕ) → Option Outcome
started fuel env i [] = some (ok i)
started fuel env i (t ∷ ts) = line_loop fuel env t ts i

-- The options stand in memory up to a NUL, and have gone in part into the item if one is refused.
unfoldable pub parse_one_line : ℕ → FileEnv → List ℕ → Item → Option Outcome
unfolding tokens line_loop
parse_one_line fuel env [] i = some overrun
parse_one_line fuel env (b ∷ bs) i = started fuel env i (tokens b';' (c_string (b ∷ bs)))
