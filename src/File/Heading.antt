-- ===== src/File/Heading.antt =====
-- The head of a section, as `parse_config` (file.c) reads it.
use mathlib.Core.List.{append_assoc}
use xl2tpd.Base.{ℕ, ◌≡◌, ◌≢◌, refl, sym, ap, ◌∙◌, arith, Bool, false}
use xl2tpd.Base.{List, [], ◌∷◌, ◌++◌, Option, none, some, All}
use xl2tpd.File.Options.{FileEnv}
use xl2tpd.File.Text.{split_at}
use xl2tpd.File.Settings.{Parser, Parsed, rejected}
use xl2tpd.File.Parse.{section_line, trimmed_line}
use xl2tpd.File.Parse.{open_section}
use xl2tpd.File.Layout.{IsPlain, IsBody}
use xl2tpd.File.Layout.{EndsSolid}
use xl2tpd.File.Layout.{split_at-append, split_at-none}
use xl2tpd.File.Layout.{All-append}
use xl2tpd.File.Reading.{parameter}
use xl2tpd.File.Reading.{IsKind, IsParameter}

pub EndsSolid-append : (s t : List ℕ) → EndsSolid t → EndsSolid (s ++ t)
EndsSolid-append [] t ends = ends
EndsSolid-append (b ∷ []) [] none_such = elim none_such [ ]
EndsSolid-append (b ∷ []) (c ∷ t) ends = ends
EndsSolid-append (b ∷ c ∷ s) t ends = EndsSolid-append (c ∷ s) t ends

pub closed : (p : Parser) → p.in_comment ≡ false → record p { in_comment = false } ≡ p
closed p calm = ap (λ (c : Bool). record p { in_comment = c }) (sym calm)

All-kind : (s : List ℕ) → IsKind s → All IsPlain s × All (λ b. b ≢ 93) s × All (λ b. b ≢ 32) s
All-kind [] all = (tt, tt, tt)
All-kind (b ∷ s) ((a, c, d), all) =
    let rest = All-kind s all in ((a, rest.0), (c, rest.1), (d, rest.2))

All-parameter :
    (s : List ℕ) → All (λ b. IsPlain b × (b ≢ 93)) s → All IsPlain s × All (λ b. b ≢ 93) s
All-parameter [] all = (tt, tt)
All-parameter (b ∷ s) ((a, c), all) = let rest = All-parameter s all in ((a, rest.0), (c, rest.1))

-- The parameter and the space in front of it.
parameter-All :
    (d : Option (List ℕ))
    → IsParameter d
    → All IsPlain (parameter d) × All (λ b. b ≢ 93) (parameter d)
parameter-All none g = (tt, tt)
parameter-All (some d) g =
    let rest = All-parameter d g in
    (((λ e. omega (arith, e), λ e. omega (arith, e)), rest.0), (λ e. omega (arith, e), rest.1))

pub heading-IsBody :
    (kind : List ℕ) (d : Option (List ℕ))
    → IsKind kind
    → IsParameter d
    → IsBody (b'[' ∷ (kind ++ (parameter d ++ (b']' ∷ []))))
heading-IsBody kind d k g = (
  refl,
  EndsSolid-append (b'[' ∷ kind) (parameter d ++ (b']' ∷ []))
      (EndsSolid-append (parameter d) (b']' ∷ []) refl),
  (
    (λ e. omega (arith, e), λ e. omega (arith, e)),
    All-append IsPlain kind (parameter d ++ (b']' ∷ [])) (All-kind kind k).0 (
        All-append IsPlain (parameter d) (b']' ∷ []) (parameter-All d g).0
          ((λ e. omega (arith, e), λ e. omega (arith, e)), tt)),
  ),
)

abbrev between : Parser → List ℕ → Option (List ℕ × List ℕ) → Parsed
between p inner none = open_section p inner none
between p inner (some (kind, d)) = open_section p kind (some d)

abbrev bracketed : Parser → Option (List ℕ × List ℕ) → Parsed
bracketed p none = rejected p.settings
bracketed p (some (inner, behind)) = between p inner (split_at 32 inner)

section_line-bracketed :
    (p : Parser) (s : List ℕ) → section_line p s ≡ bracketed p (split_at b']' s)
unfolding section_line
section_line-bracketed p s = open_bracket (split_at b']' s)
  where
    open_space :
        (inner : List ℕ) (o : Option (List ℕ × List ℕ))
        → elim o as (λ x. Parsed) [
          | none ↦ open_section p inner none
          | some (kind, d) ↦ open_section p kind (some d)
        ]
          ≡ between p inner o
    open_space inner none = refl
    open_space inner (some (kind, d)) = refl

    open_bracket :
        (o : Option (List ℕ × List ℕ))
        → elim o as (λ x. Parsed) [
          | none ↦ rejected p.settings
          | some (inner, behind) ↦ elim (split_at 32 inner) as (λ x. Parsed) [
            | none ↦ open_section p inner none
            | some (kind, d) ↦ open_section p kind (some d)
          ]
        ]
          ≡ bracketed p o
    open_bracket none = refl
    open_bracket (some (inner, behind)) = open_space inner (split_at 32 inner)

section_line-heading :
    (p : Parser) (kind : List ℕ) (d : Option (List ℕ))
    → IsKind kind
    → IsParameter d
    → section_line p (kind ++ (parameter d ++ (b']' ∷ []))) ≡ open_section p kind d
section_line-heading p kind none k g =
    section_line-bracketed p (kind ++ (b']' ∷ []))
    ∙ ap (bracketed p) (split_at-append b']' kind [] (All-kind kind k).1)
    ∙ ap (between p kind) (split_at-none 32 kind (All-kind kind k).2)
section_line-heading p kind (some d) k g =
    let inner = kind ++ (32 ∷ d) in
    section_line-bracketed p (kind ++ ((32 ∷ d) ++ (b']' ∷ [])))
    ∙ ap (λ (l : List ℕ). bracketed p (split_at b']' l))
        (sym (append_assoc kind (32 ∷ d) (b']' ∷ [])))
    ∙ ap (bracketed p) (
        split_at-append b']' inner []
          (All-append (λ b. b ≢ 93) kind (32 ∷ d) (All-kind kind k).1 (parameter-All (some d) g).1))
    ∙ ap (between p inner) (split_at-append 32 kind d (All-kind kind k).2)

pub trimmed_line-heading :
    (env : FileEnv) (p : Parser) (kind : List ℕ) (d : Option (List ℕ))
    → IsKind kind
    → IsParameter d
    → trimmed_line env p (b'[' ∷ (kind ++ (parameter d ++ (b']' ∷ [])))) ≡ open_section p kind d
unfolding trimmed_line
trimmed_line-heading env p kind d k g = section_line-heading p kind d k g
