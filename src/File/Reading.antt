-- ===== src/File/Reading.antt =====
-- A file as a list of lines with a meaning, and `parse_config` (file.c) on its text.
use xl2tpd.Base.{ℕ, ◌≡◌, ◌≢◌, arith, false}
use xl2tpd.Base.{List, [], ◌∷◌, ◌++◌, Option, none, some, All}
use xl2tpd.File.Options.{FileEnv, Item, Outcome, ok, refused, overrun}
use xl2tpd.File.Keywords.{parse_one_option}
use xl2tpd.File.Settings.{
  Pointer, nowhere, Parser, Parsed, going, rejected, astray, item_at, settle,
}
use xl2tpd.File.Parse.{lns_section, lac_section, deflns_section}
use xl2tpd.File.Parse.{and_then, open_section, apply_option}
use xl2tpd.File.Layout.{Margin, IsMargin, IsBlank, IsPlain, IsBody, IsComment}
use xl2tpd.File.Layout.{laid_out, line_end}

-- A section with its kind and its parameter, an option with its word and its value and the blanks
-- around the sign, or a line that says nothing.
pub data Line : Type 0 where
  heading : Margin → List ℕ → Option (List ℕ) → Line
  setting : Margin → List ℕ → List ℕ → List ℕ → List ℕ → Line
  empty : List ℕ → Option (List ℕ) → Line

abbrev pub parameter : Option (List ℕ) → List ℕ
parameter none = []
parameter (some d) = 32 ∷ d

abbrev pub assignment : List ℕ → List ℕ → List ℕ → List ℕ → List ℕ
assignment word left right value = word ++ (left ++ (b'=' ∷ (right ++ value)))

abbrev pub text : Line → List ℕ
text (heading m kind d) = laid_out m (b'[' ∷ (kind ++ (parameter d ++ (b']' ∷ []))))
text (setting m word left right value) = laid_out m (assignment word left right value)
text (empty gap comment) = gap ++ line_end comment

-- An option before any section is an error.
unfoldable pub assign : FileEnv → Parser → List ℕ → List ℕ → Parsed
unfolding apply_option
assign env p word value = elim p.place [
  | nowhere ↦ rejected p.settings
  | other ↦ apply_option env p word value
]

unfoldable pub meaning : FileEnv → Parser → Line → Parsed
unfolding open_section assign
meaning env p (heading m kind d) = open_section p kind d
meaning env p (setting m word left right value) = assign env p word value
meaning env p (empty gap comment) = going p

-- The lines one after the other, up to the first error.
unfoldable pub read : FileEnv → Parser → List Line → Parsed
unfolding meaning
read env p [] = going p
read env p (l ∷ ls) = and_then (meaning env p l) (λ p1. read env p1 ls)

-- The bytes of a kind have no blank and no bracket, and those of a parameter no bracket.
abbrev pub IsKind : List ℕ → Type 0
IsKind kind = All (λ b. IsPlain b × (b ≢ 93) × (b ≢ 32)) kind

abbrev pub IsParameter : Option (List ℕ) → Type 0
IsParameter none = Unit
IsParameter (some d) = All (λ b. IsPlain b × (b ≢ 93)) d

-- A word starts and ends with a byte that can be seen, does not start with a bracket, and has no
-- equals sign.
abbrev pub IsWord : List ℕ → Type 0
IsWord [] = ⊥
IsWord (b ∷ bs) = (b ≢ 91) × IsBody (b ∷ bs) × All (λ x. x ≢ 61) (b ∷ bs)

abbrev pub IsLine : Line → Type 0
IsLine (heading m kind d) = IsMargin m × IsKind kind × IsParameter d
IsLine (setting m word left right value) =
    IsMargin m × IsWord word × All IsBlank left × All IsBlank right × IsBody value
IsLine (empty gap comment) = All IsBlank gap × IsComment comment

-- No comment is open.
abbrev pub IsCalm : Parsed → Type 0
IsCalm (going p) = p.in_comment ≡ false
IsCalm (rejected c) = Unit
IsCalm astray = Unit

settle-IsCalm : (p : Parser) (o : Option Outcome) → p.in_comment ≡ false → IsCalm (settle p o)
unfolding settle
settle-IsCalm p none calm = tt
settle-IsCalm p (some (ok i)) calm = calm
settle-IsCalm p (some (refused i)) calm = tt
settle-IsCalm p (some overrun) calm = tt

pub assign-IsCalm :
    (env : FileEnv) (p : Parser) (word value : List ℕ)
    → p.in_comment ≡ false
    → IsCalm (assign env p word value)
unfolding assign apply_option
assign-IsCalm env p word value calm = place p.place (item_at p.settings p.place)
  where
    item :
        (o : Option Item)
        → IsCalm (elim o as (λ x. Parsed) [
          | none ↦ rejected p.settings
          | some i ↦ settle p (parse_one_option env p.def word value i)
        ])
    item none = tt
    item (some i) = settle-IsCalm p (parse_one_option env p.def word value i) calm

    place :
        (q : Pointer) (o : Option Item)
        → IsCalm (elim q as (λ x. Parsed) [
          | nowhere ↦ rejected p.settings
          | other ↦ elim o as (λ x. Parsed) [
            | none ↦ rejected p.settings
            | some i ↦ settle p (parse_one_option env p.def word value i)
          ]
        ])
    place nowhere o = tt
    place Pointer.at_global o = item o
    place (Pointer.at_lns i) o = item o
    place Pointer.at_deflns o = item o
    place (Pointer.at_lac i) o = item o
    place Pointer.at_deflac o = item o

pub open_section-IsCalm :
    (p : Parser) (kind : List ℕ) (d : Option (List ℕ))
    → p.in_comment ≡ false
    → IsCalm (open_section p kind d)
unfolding open_section lns_section lac_section deflns_section
open_section-IsCalm p kind none calm = ground (arith, calm)
open_section-IsCalm p kind (some d) calm = ground (arith, calm)
