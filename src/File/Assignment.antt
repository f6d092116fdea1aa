-- ===== src/File/Assignment.antt =====
-- A word, an equals sign and a value, as `parse_config` (file.c) reads them.
use mathlib.Core.List.{append_assoc}
use xl2tpd.Base.{ℕ, ◌≡◌, ◌≢◌, refl, sym, ap, ◌∙◌, arith, Bool, if◌then◌else◌}
use xl2tpd.Base.{List, [], ◌∷◌, ◌++◌, Option, none, some, All, ne→==}
use xl2tpd.File.Options.{FileEnv}
use xl2tpd.File.Text.{skip_blank, strip_end, split_at}
use xl2tpd.File.Settings.{Pointer, nowhere, Parser, Parsed, rejected}
use xl2tpd.File.Parse.{section_line, option_line, trimmed_line}
use xl2tpd.File.Parse.{apply_option}
use xl2tpd.File.Layout.{IsBlank, IsPlain, IsBody, StartsSolid}
use xl2tpd.File.Layout.{All-blank}
use xl2tpd.File.Layout.{split_at-append, skip_blank-gap}
use xl2tpd.File.Layout.{strip_end-append, All-append, blank_low}
use xl2tpd.File.Reading.{assignment, assign}
use xl2tpd.File.Reading.{IsWord}
use xl2tpd.File.Heading.{EndsSolid-append}

abbrev assigned : FileEnv → Parser → Option (List ℕ × List ℕ) → Parsed
assigned env p none = rejected p.settings
assigned env p (some (word, value)) = apply_option env p (strip_end word) (skip_blank value)

abbrev placed : Pointer → Parsed → Parsed → Parsed
placed nowhere r s = r
placed other r s = s

option_line-placed :
    (env : FileEnv) (p : Parser) (s : List ℕ)
    → option_line env p s ≡ placed p.place (rejected p.settings) (assigned env p (split_at b'=' s))
unfolding option_line
option_line-placed env p s = by_place p.place
  where
    by_sign :
        (o : Option (List ℕ × List ℕ))
        → elim o as (λ x. Parsed) [
          | none ↦ rejected p.settings
          | some (word, value) ↦ apply_option env p (strip_end word) (skip_blank value)
        ]
          ≡ assigned env p o
    by_sign none = refl
    by_sign (some (word, value)) = refl

    by_place :
        (q : Pointer)
        → elim q as (λ x. Parsed) [
          | nowhere ↦ rejected p.settings
          | other ↦ elim (split_at b'=' s) as (λ x. Parsed) [
            | none ↦ rejected p.settings
            | some (word, value) ↦ apply_option env p (strip_end word) (skip_blank value)
          ]
        ]
          ≡ placed q (rejected p.settings) (assigned env p (split_at b'=' s))
    by_place nowhere = refl
    by_place Pointer.at_global = by_sign (split_at b'=' s)
    by_place (Pointer.at_lns i) = by_sign (split_at b'=' s)
    by_place Pointer.at_deflns = by_sign (split_at b'=' s)
    by_place (Pointer.at_lac i) = by_sign (split_at b'=' s)
    by_place Pointer.at_deflac = by_sign (split_at b'=' s)

assign-placed :
    (env : FileEnv) (p : Parser) (word value : List ℕ)
    → assign env p word value ≡ placed p.place (rejected p.settings) (apply_option env p word value)
unfolding assign
assign-placed env p word value = by_place p.place
  where
    by_place :
        (q : Pointer)
        → elim q as (λ x. Parsed) [
          | nowhere ↦ rejected p.settings
          | other ↦ apply_option env p word value
        ]
          ≡ placed q (rejected p.settings) (apply_option env p word value)
    by_place nowhere = refl
    by_place Pointer.at_global = refl
    by_place (Pointer.at_lns i) = refl
    by_place Pointer.at_deflns = refl
    by_place (Pointer.at_lac i) = refl
    by_place Pointer.at_deflac = refl

All-unsigned : (s : List ℕ) → All IsBlank s → All (λ b. b ≢ 61) s
All-unsigned [] all = tt
All-unsigned (b ∷ s) (first, all) = (λ e. ground (arith, first, e), All-unsigned s all)

-- The word and the value, without the blanks around the sign.
pub option_line-assignment :
    (env : FileEnv) (p : Parser) (word left right value : List ℕ)
    → IsBody word
    → All (λ b. b ≢ 61) word
    → All IsBlank left
    → All IsBlank right
    → IsBody value
    → option_line env p (assignment word left right value) ≡ assign env p word value
option_line-assignment env p word left right value w signs l r v =
    option_line-placed env p (assignment word left right value)
    ∙ ap (λ (o : Option (List ℕ × List ℕ)). placed p.place (rejected p.settings) (assigned env p o))
        (ap (split_at b'=') (sym (append_assoc word left (b'=' ∷ (right ++ value))))
          ∙ split_at-append b'=' (word ++ left) (right ++ value)
              (All-append (λ b. b ≢ 61) word left signs (All-unsigned left l)))
    ∙ ap
        (λ (s : List ℕ).
          placed p.place (rejected p.settings) (apply_option env p s (skip_blank (right ++ value))))
        (strip_end-append word left w.1 (blank_low left l))
    ∙ ap (λ (s : List ℕ). placed p.place (rejected p.settings) (apply_option env p word s))
        (skip_blank-gap right value r v.0)
    ∙ sym (assign-placed env p word value)

StartsSolid-append : (s t : List ℕ) → StartsSolid s → StartsSolid (s ++ t)
StartsSolid-append [] t none_such = elim none_such [ ]
StartsSolid-append (b ∷ s) t solid = solid

pub assignment-IsBody :
    (word left right value : List ℕ)
    → IsBody word
    → All IsBlank left
    → All IsBlank right
    → IsBody value
    → IsBody (assignment word left right value)
assignment-IsBody word left right value w l r v = (
  StartsSolid-append word (left ++ (b'=' ∷ (right ++ value))) w.0,
  EndsSolid-append word (left ++ (b'=' ∷ (right ++ value)))
      (EndsSolid-append left (b'=' ∷ (right ++ value)) (EndsSolid-append (b'=' ∷ right) value v.1)),
  All-append IsPlain word (left ++ (b'=' ∷ (right ++ value))) w.2 (
      All-append IsPlain left (b'=' ∷ (right ++ value)) (All-blank left l) (
        (λ e. omega (arith, e), λ e. omega (arith, e)),
        All-append IsPlain right value (All-blank right r) v.2,
      )),
)

pub trimmed_line-assignment :
    (env : FileEnv) (p : Parser) (word left right value : List ℕ)
    → IsWord word
    → trimmed_line env p (assignment word left right value)
      ≡ option_line env p (assignment word left right value)
unfolding trimmed_line
trimmed_line-assignment env p [] left right value none_such = elim none_such [ ]
trimmed_line-assignment env p (b ∷ bs) left right value (unbracketed, w, signs) =
    let rest = bs ++ (left ++ (b'=' ∷ (right ++ value))) in
    ap (λ (c : Bool). if c then section_line p rest else option_line env p (b ∷ rest))
      (ne→== b 91 unbracketed)

pub IsWord-parts : (word : List ℕ) → IsWord word → IsBody word × All (λ b. b ≢ 61) word
IsWord-parts [] none_such = elim none_such [ ]
IsWord-parts (b ∷ bs) (unbracketed, w, signs) = (w, signs)
