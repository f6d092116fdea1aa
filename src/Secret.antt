-- ===== src/Secret.antt =====
-- aaa.c: `get_secret`, which looks for two names in the file of secrets.
--
-- `buf` is the array of 100 bytes with what earlier lines left in it, since the code may step past
-- the end of a line. `char` is signed, so a byte from 128 on counts as blank. A position is the
-- rest of the array from there on, and a read past the array is `overrun`.
mod Clean
pub mod Lines
mod Examples
use xl2tpd.Base.{ℕ, ◌+◌, Bool, true, false, not, ◌&&◌, ◌||◌, if◌then◌else◌, ltb, leb, ◌==◌}
use xl2tpd.Base.{List, [], ◌∷◌, ◌++◌, Option, none, some, length, drop}
use xl2tpd.Session.{c_string}

-- `fgets` puts a piece and its NUL over the front of the array.
unfoldable pub overwrite : List ℕ → List ℕ → List ℕ
overwrite line buf = line ++ (0 ∷ drop (length line + 1) buf)

-- Up to the NUL, each `#` and each `;` becomes a NUL.
unfoldable pub strip_comments : List ℕ → List ℕ
strip_comments [] = []
strip_comments (b ∷ bs) =
    let rest = strip_comments bs in
    if b == 0 then b ∷ bs else (if b == b'#' || b == b';' then 0 ∷ rest else b ∷ rest)

-- `*p < 33`, which a NUL is too.
abbrev pub is_low : ℕ → Bool
is_low b = ltb b 33 || leb 128 b

abbrev pub at_end : List ℕ → Bool
at_end [] = true
at_end (b ∷ bs) = b == 0

-- The blanks at the end of the string become NULs.
unfoldable pub strip_trailing : List ℕ → List ℕ
strip_trailing [] = []
strip_trailing (b ∷ bs) =
    let rest = strip_trailing bs in
    if b == 0 then b ∷ bs else (if at_end rest && is_low b then 0 ∷ rest else b ∷ rest)

-- `while (test (*p)) p++`: what is passed, and the rest.
unfoldable pub advance : (ℕ → Bool) → List ℕ → List ℕ × List ℕ
advance test [] = ([], [])
advance test (b ∷ bs) =
    let (front, rest) = advance test bs in if test b then (b ∷ front, rest) else ([], b ∷ bs)

abbrev pub is_blank : ℕ → Bool
is_blank b = not (b == 0) && is_low b

-- `*t > 32`, and `*s > 33`.
abbrev pub is_word : ℕ → Bool
is_word b = not (is_low b)

abbrev pub is_later_word : ℕ → Bool
is_later_word b = not (is_low b) && not (b == 33)

-- What becomes of a line: a read past the array, a `continue` with the array as it is then, or
-- three words.
pub data Line : Type 0 where
  overrun : Line
  skipped : List ℕ → Line
  entry : List ℕ → List ℕ → List ℕ → List ℕ → Line

-- `*(p++) = 0` at the end of a word, and the blanks behind it.
unfoldable pub end_word : List ℕ → Option (List ℕ × List ℕ)
unfolding advance
end_word [] = none
end_word (b ∷ bs) = some (advance is_blank bs)

unfoldable pub third_word : List ℕ → List ℕ → List ℕ → List ℕ → Line
unfolding advance end_word c_string
third_word before us them rest = elim (end_word rest) [
  | none ↦ overrun
  | some (gap, s) ↦
      let buf = before ++ (them ++ (0 ∷ (gap ++ s))) in
      elim s [
        | [] ↦ overrun
        | b ∷ bs ↦ if b == 0 then skipped buf else entry us them (c_string (b ∷ bs)) buf
      ]
]

unfoldable pub second_word : List ℕ → List ℕ → List ℕ → Line
unfolding advance end_word third_word
second_word before us rest = elim (end_word rest) [
  | none ↦ overrun
  | some (gap, t) ↦
      let before' = before ++ (us ++ (0 ∷ gap)) in
      elim t [
        | [] ↦ overrun
        | b ∷ bs ↦
            let (them, rest') = advance is_later_word (b ∷ bs) in
            if b == 0 then skipped (before' ++ (b ∷ bs)) else third_word before' us them rest'
      ]
]

unfoldable pub parse_line : List ℕ → Line
unfolding strip_comments strip_trailing advance second_word
parse_line buf =
    let buf' = strip_trailing (strip_comments buf) in
    let (gap, u) = advance is_blank buf' in
    let (us, rest) = advance is_word u in
    if at_end buf' || at_end u then skipped buf' else second_word gap us rest

-- `strcasecmp` of two C strings.
abbrev pub lower : ℕ → ℕ
lower b = if leb 65 b && leb b 90 then b + 32 else b

unfoldable pub same_name : List ℕ → List ℕ → Bool
same_name [] [] = true
same_name [] (b ∷ bs) = false
same_name (a ∷ as') [] = false
same_name (a ∷ as') (b ∷ bs) = (lower a == lower b) && same_name as' bs

-- One of the two tests: the word of the line, or `*`.
unfoldable pub matches : List ℕ → List ℕ → Bool
unfolding same_name
matches word name = same_name word name || same_name word (b'*' ∷ [])

-- What a search gives: `missed` is the result 0.
pub data Lookup : Type 0 where
  astray : Lookup
  missed : Lookup
  found : List ℕ → Lookup

unfoldable pub search_lines : List ℕ → List (List ℕ) → List ℕ → List ℕ → Lookup
unfolding overwrite parse_line matches
search_lines buf [] us them = missed
search_lines buf (line ∷ lines) us them = elim (parse_line (overwrite line buf)) [
  | overrun ↦ astray
  | skipped buf' ↦ search_lines buf' lines us them
  | entry u t s buf' ↦
      let rest = search_lines buf' lines us them in
      if matches u us && matches t them then found s else rest
]

-- `buf` holds anything at first.
unfoldable pub get_secret : List ℕ → Option (List (List ℕ)) → List ℕ → List ℕ → Lookup
unfolding search_lines
get_secret buf none us them = missed
get_secret buf (some lines) us them = search_lines buf lines us them
