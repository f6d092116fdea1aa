-- ===== src/File/Text.antt =====
-- C strings in file.c: the values of options, what is cut off a line, and `atoi`. A string is the
-- list of its bytes before the NUL.
use Prim.Native.Char.{code}
use xl2tpd.Base.{ℕ, ◌+◌, ◌-◌, ◌*◌, ◌%◌, ◌^◌, min, Bool, true, false, ◌&&◌, ◌||◌}
use xl2tpd.Base.{if◌then◌else◌, leb, ◌==◌, List, [], ◌∷◌, Option, none, some, ℤ, pos, to_int}
use xl2tpd.Base.{String, take}
use xl2tpd.Secret.{is_low, same_name}

-- The bytes of a constant.
abbrev pub bytes : String → List ℕ
bytes String.[] = []
bytes (String.◌∷◌ c s) = code c ∷ bytes s

-- An array of STRLEN bytes after `strncpy`. A string that fills it is left without a NUL.
abbrev pub stored : List ℕ → List ℕ
stored value = take 100 value

-- `while (*s && (*s < 33)) s++`
unfoldable pub skip_blank : List ℕ → List ℕ
skip_blank [] = []
skip_blank (b ∷ bs) = let rest = skip_blank bs in if is_low b then rest else b ∷ bs

-- `while ((t >= s) && (*t < 33)) *(t--) = 0`, from the end of the string on.
unfoldable pub strip_end : List ℕ → List ℕ
strip_end [] = []
strip_end (b ∷ bs) = elim (strip_end bs) [
  | [] ↦ if is_low b then [] else b ∷ []
  | c ∷ cs ↦ b ∷ c ∷ cs
]

-- `strchr`: what stands before the byte and behind it.
unfoldable pub split_at : ℕ → List ℕ → Option (List ℕ × List ℕ)
split_at x [] = none
split_at x (b ∷ bs) =
    let rest = split_at x bs in
    if b == x
    then some ([], bs)
    else elim rest [ none ↦ none | some (front, behind) ↦ some (b ∷ front, behind) ]

-- `isspace`
abbrev pub is_space : ℕ → Bool
is_space b = b == 32 || (leb 9 b && leb b 13)

abbrev pub is_digit : ℕ → Bool
is_digit b = leb 48 b && leb b 57

-- The number that the digits at the front make behind `n`.
unfoldable pub digits : ℕ → List ℕ → ℕ
digits n [] = n
digits n (b ∷ bs) = let rest = digits (n * 10 + (b - 48)) bs in if is_digit b then rest else n

-- The conversion of a `long`, which `strtol` keeps in its range, to an `int`.
abbrev pub from_long : Bool → ℕ → ℤ
from_long negative n =
    if negative
    then to_int ((2 ^ 32 - min n (2 ^ 63) % 2 ^ 32) % 2 ^ 32)
    else to_int (min n (2 ^ 63 - 1) % 2 ^ 32)

unfoldable pub signed : List ℕ → ℤ
unfolding digits
signed [] = pos 0
signed (b ∷ bs) =
    if b == b'-'
    then from_long true (digits 0 bs)
    else from_long false (digits 0 (if b == b'+' then bs else b ∷ bs))

unfoldable pub atoi : List ℕ → ℤ
unfolding signed
atoi [] = pos 0
atoi (b ∷ bs) = let rest = atoi bs in if is_space b then rest else signed (b ∷ bs)

-- `yesno`; `none` is -1.
unfoldable pub yesno : List ℕ → Option Bool
unfolding same_name
yesno value =
    if same_name value (bytes "yes")
      || same_name value (bytes "y")
      || same_name value (bytes "true")
    then some true
    else (if same_name value (bytes "no")
          || same_name value (bytes "n")
          || same_name value (bytes "false")
        then some false
        else none)

-- What `set_boolean` stores, if anything.
abbrev pub set_boolean : List ℕ → Option Bool
set_boolean value = yesno value

abbrev pub not_negative : ℤ → Option ℕ
not_negative (pos n) = some n
not_negative (ℤ.negsuc n) = none

-- What `set_int` stores, if anything: no negative number.
abbrev pub set_int : List ℕ → Option ℕ
set_int value = not_negative (atoi value)

-- `atoi (value) < 1`
abbrev pub below_one : List ℕ → Bool
below_one value = elim (set_int value) [ none ↦ true | some n ↦ n == 0 ]
