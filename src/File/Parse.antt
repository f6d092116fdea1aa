-- ===== src/File/Parse.antt =====
-- `parse_config` (file.c): the lines of the file, each as `fgets` gives it, in pieces of at most 1023
-- bytes. Memory for a new entry is taken to be there.
use xl2tpd.Base.{ℕ, suc, Bool, true, false, not, ◌&&◌, if◌then◌else◌, ◌==◌}
use xl2tpd.Base.{List, [], ◌∷◌, Option, none, some, get_elem?}
use xl2tpd.Session.{c_string}
use xl2tpd.Secret.{same_name}
use xl2tpd.File.Text.{bytes, stored, skip_blank, strip_end, split_at}
use xl2tpd.File.Entries.{Global, LnsEntry, LacEntry, new_lns, new_lac, cleared_lac, init_global}
use xl2tpd.File.Options.{FileEnv}
use xl2tpd.File.Keywords.{parse_one_option}
use xl2tpd.File.Settings.{
  Pointer, nowhere, at_global, at_lns, at_deflns, at_lac, at_deflac, Settings, Parser, Parsed,
}
use xl2tpd.File.Settings.{going, rejected, astray, put_at, item_at, settle}

-- A word and its value, in the section that is open.
unfoldable pub apply_option : FileEnv → Parser → List ℕ → List ℕ → Parsed
unfolding item_at parse_one_option settle
apply_option env p word value = elim (item_at p.settings p.place) [
  | none ↦ rejected p.settings
  | some i ↦ settle p (parse_one_option env p.def word value i)
]

-- A line that is no section's head.
unfoldable pub option_line : FileEnv → Parser → List ℕ → Parsed
unfolding split_at apply_option
option_line env p s = elim p.place [
  | nowhere ↦ rejected p.settings
  | other ↦ elim (split_at b'=' s) [
    | none ↦ rejected p.settings
    | some (word, value) ↦ apply_option env p (strip_end word) (skip_blank value)
  ]
]

-- The place of the first entry with the name.
unfoldable pub find_lns : List ℕ → List LnsEntry → Option ℕ
unfolding same_name
find_lns d [] = none
find_lns d (e ∷ es) =
    let rest : Option ℕ = elim (find_lns d es) [ none ↦ none | some i ↦ some (suc i) ] in
    if same_name d e.entname then some 0 else rest

unfoldable pub find_lac : List ℕ → List LacEntry → Option ℕ
unfolding same_name
find_lac d [] = none
find_lac d (e ∷ es) =
    let rest : Option ℕ = elim (find_lac d es) [ none ↦ none | some i ↦ some (suc i) ] in
    if same_name d e.entname then some 0 else rest

-- The entry found gets the name as it is written here.
abbrev pub rename_lns : List ℕ → List LnsEntry → ℕ → List LnsEntry
rename_lns d es i = elim (get_elem? es i) [
  | none ↦ es
  | some e ↦ put_at es i (record e { entname = stored d })
]

abbrev pub rename_lac : List ℕ → List LacEntry → ℕ → List LacEntry
rename_lac d es i = elim (get_elem? es i) [
  | none ↦ es
  | some e ↦ put_at es i (record e { entname = stored d })
]

abbrev pub at : Parser → Settings → Pointer → Parsed
at p c place = going (record p { settings = c; place = place })

-- The section of an LNS, with its name if it has one.
unfoldable pub lns_section : Parser → Option (List ℕ) → Parsed
unfolding new_lns find_lns
lns_section p none =
    at p (record (p.settings) { lnslist = new_lns ∷ p.settings.lnslist }) (at_lns 0)
lns_section p (some d) =
    let c = p.settings in
    elim (find_lns d c.lnslist) [
      | none ↦
          at p (record c { lnslist = record new_lns { entname = stored d } ∷ c.lnslist }) (at_lns 0)
      | some i ↦ at p (record c { lnslist = rename_lns d c.lnslist i }) (at_lns i)
    ]

unfoldable pub lac_section : Parser → Option (List ℕ) → Parsed
unfolding new_lac find_lac
lac_section p none =
    at p (record (p.settings) { laclist = new_lac ∷ p.settings.laclist }) (at_lac 0)
lac_section p (some d) =
    let c = p.settings in
    elim (find_lac d c.laclist) [
      | none ↦
          at p (record c { laclist = record new_lac { entname = stored d } ∷ c.laclist }) (at_lac 0)
      | some i ↦ at p (record c { laclist = rename_lac d c.laclist i }) (at_lac i)
    ]

-- The default LNS, which the first section for it makes.
unfoldable pub deflns_section : Parser → Parsed
unfolding new_lns
deflns_section p = elim p.settings.deflns [
  | none ↦
      at p (record (p.settings) { deflns = some (record new_lns { entname = bytes "default" }) })
        at_deflns
  | some e ↦ at p p.settings at_deflns
]

abbrev pub is_default : Option (List ℕ) → Bool
is_default none = false
is_default (some d) = same_name d (bytes "default")

-- A section by the kind and the parameter between its brackets. `deflac` is there from the start.
unfoldable pub open_section : Parser → List ℕ → Option (List ℕ) → Parsed
unfolding same_name lns_section lac_section deflns_section
open_section p kind d =
    let def = is_default d in
    let p1 = record p { def = def } in
    if same_name kind (bytes "global")
    then at p1 p.settings at_global
    else (if same_name kind (bytes "lns")
        then (if def then deflns_section p1 else lns_section p1 d)
        else (if same_name kind (bytes "lac")
            then (if def then at p1 p.settings at_deflac else lac_section p1 d)
            else rejected p.settings))

-- What stands between the brackets: all up to the first space, and what is behind it.
unfoldable pub section_line : Parser → List ℕ → Parsed
unfolding split_at open_section
section_line p s = elim (split_at b']' s) [
  | none ↦ rejected p.settings
  | some (inner, behind) ↦ elim (split_at 32 inner) [
    | none ↦ open_section p inner none
    | some (kind, d) ↦ open_section p kind (some d)
  ]
]

-- A line without its comment and the blanks around it.
unfoldable pub trimmed_line : FileEnv → Parser → List ℕ → Parsed
unfolding section_line option_line
trimmed_line env p [] = going p
trimmed_line env p (b ∷ bs) = if b == b'[' then section_line p bs else option_line env p (b ∷ bs)

-- Whether the last byte of a string is the end of a line.
unfoldable pub ends_line : List ℕ → Bool
ends_line [] = false
ends_line (b ∷ bs) = elim bs [ [] ↦ b == 10 | c ∷ cs ↦ ends_line bs ]

-- The text of a line, before a comment, and whether a comment goes on in the next piece.
abbrev pub front_part : Option (List ℕ × List ℕ) → List ℕ → List ℕ
front_part none buf = buf
front_part (some (front, behind)) buf = front

abbrev pub text_of : List ℕ → List ℕ
text_of buf = front_part (split_at b';' buf) buf

abbrev pub has_comment : List ℕ → Bool
has_comment buf = elim (split_at b';' buf) [ none ↦ false | some (front, behind) ↦ true ]

unfoldable pub parse_piece : FileEnv → Parser → List ℕ → Parsed
unfolding ends_line trimmed_line
parse_piece env p [] = astray
parse_piece env p (b ∷ bs) =
    let buf = b ∷ bs in
    if p.in_comment
    then going (record p { in_comment = not (ends_line buf) })
    else trimmed_line env (record p { in_comment = has_comment buf && not (ends_line buf) })
        (strip_end (skip_blank (text_of buf)))

abbrev pub and_then : Parsed → (Parser → Parsed) → Parsed
and_then (going p) k = k p
and_then (rejected c) k = rejected c
and_then astray k = astray

-- The loop; `c_string` is the text before a NUL that stands in the file.
unfoldable pub parse_pieces : FileEnv → Parser → List (List ℕ) → Parsed
unfolding parse_piece
parse_pieces env p [] = going p
parse_pieces env p (piece ∷ pieces) =
    and_then (parse_piece env p (c_string piece)) (λ p1. parse_pieces env p1 pieces)

-- What `init_config` has made when it calls `parse_config`.
unfoldable pub init_settings : Global → Settings
unfolding init_global cleared_lac
init_settings g = record {
  global = init_global g;
  lnslist = [];
  laclist = [];
  deflns = none;
  deflac = cleared_lac;
}

abbrev pub initial : Settings → Parser
initial c = record { settings = c; place = nowhere; def = false; in_comment = false }

unfoldable pub parse_config : FileEnv → Settings → List (List ℕ) → Parsed
unfolding parse_pieces
parse_config env c pieces = parse_pieces env (initial c) pieces
