-- ===== src/File/Layout.antt =====
-- How a line of the configuration file may be laid out: blanks around its parts, and a comment at its
-- end, make no difference to `parse_config` (file.c).
use xl2tpd.Base.{ℕ, ◌≡◌, ◌≢◌, ◌⊎◌, refl, ap, arith, true, false}
use xl2tpd.Base.{List, [], ◌∷◌, ◌++◌, Option, none, some, All}
use xl2tpd.Session.{c_string}
use xl2tpd.Secret.{is_low}
use xl2tpd.File.Text.{skip_blank, strip_end, split_at}
use xl2tpd.File.Parse.{ends_line}

-- A space or a tab.
abbrev pub IsBlank : ℕ → Type 0
IsBlank b = (b ≡ 32) ⊎ (b ≡ 9)

-- A byte that ends neither the line nor its text.
abbrev pub IsPlain : ℕ → Type 0
IsPlain b = (b ≢ 0) × (b ≢ 59)

-- The first byte can be seen, and so can the last.
abbrev pub StartsSolid : List ℕ → Type 0
StartsSolid [] = ⊥
StartsSolid (b ∷ bs) = is_low b ≡ false

abbrev pub EndsSolid : List ℕ → Type 0
EndsSolid [] = ⊥
EndsSolid (b ∷ []) = is_low b ≡ false
EndsSolid (b ∷ c ∷ cs) = EndsSolid (c ∷ cs)

-- The end of a line, with a comment in front of it or not.
abbrev pub line_end : Option (List ℕ) → List ℕ
line_end none = 10 ∷ []
line_end (some comment) = b';' ∷ (comment ++ (10 ∷ []))

abbrev pub IsComment : Option (List ℕ) → Type 0
IsComment none = Unit
IsComment (some comment) = All (λ b. b ≢ 0) comment

pub c_string-append : (s t : List ℕ) → All (λ b. b ≢ 0) s → c_string (s ++ t) ≡ s ++ c_string t
unfolding c_string
c_string-append [] t all = refl
c_string-append (b ∷ s) t (first, all) = ground (arith, first, c_string-append s t all)

pub All-plain : (s : List ℕ) → All IsPlain s → All (λ b. b ≢ 0) s
All-plain [] all = tt
All-plain (b ∷ s) (first, all) = (first.0, All-plain s all)

pub All-blank : (s : List ℕ) → All IsBlank s → All IsPlain s
All-blank [] all = tt
All-blank (b ∷ s) (first, all) =
    ((λ e. ground (arith, first, e), λ e. ground (arith, first, e)), All-blank s all)

pub c_string-line_end : (c : Option (List ℕ)) → IsComment c → c_string (line_end c) ≡ line_end c
unfolding c_string
c_string-line_end none h = refl
c_string-line_end (some comment) h =
    ap (λ (l : List ℕ). b';' ∷ l) (c_string-append comment (10 ∷ []) h)

pub split_at-append :
    (x : ℕ) (s t : List ℕ) → All (λ b. b ≢ x) s → split_at x (s ++ (x ∷ t)) ≡ some (s, t)
unfolding split_at
split_at-append x [] t all = ground arith
split_at-append x (b ∷ s) t (first, all) = ground (arith, first, split_at-append x s t all)

pub split_at-none : (x : ℕ) (s : List ℕ) → All (λ b. b ≢ x) s → split_at x s ≡ none
unfolding split_at
split_at-none x [] all = refl
split_at-none x (b ∷ s) (first, all) = ground (arith, first, split_at-none x s all)

pub ends_line-append : (s : List ℕ) → ends_line (s ++ (10 ∷ [])) ≡ true
unfolding ends_line
ends_line-append [] = refl
ends_line-append (b ∷ []) = refl
ends_line-append (b ∷ c ∷ cs) = ends_line-append (c ∷ cs)

pub skip_blank-gap : (g s : List ℕ) → All IsBlank g → StartsSolid s → skip_blank (g ++ s) ≡ s
unfolding skip_blank
skip_blank-gap [] [] all none_such = elim none_such [ ]
skip_blank-gap [] (b ∷ s) all solid = rw solid refl
skip_blank-gap (x ∷ g) s (first, all) solid = ground (arith, first, skip_blank-gap g s all solid)

pub strip_end-low : (g : List ℕ) → All (λ b. is_low b ≡ true) g → strip_end g ≡ []
unfolding strip_end
strip_end-low [] all = refl
strip_end-low (b ∷ g) (first, all) = rw (strip_end-low g all, first) refl

pub strip_end-append :
    (s g : List ℕ) → EndsSolid s → All (λ b. is_low b ≡ true) g → strip_end (s ++ g) ≡ s
unfolding strip_end
strip_end-append [] g none_such all = elim none_such [ ]
strip_end-append (b ∷ []) g solid all = rw (strip_end-low g all, solid) refl
strip_end-append (b ∷ c ∷ cs) g solid all = rw (strip_end-append (c ∷ cs) g solid all) refl

pub All-append : (P : ℕ → Type 0) (s t : List ℕ) → All P s → All P t → All P (s ++ t)
All-append P [] t a b = b
All-append P (x ∷ s) t (first, a) b = (first, All-append P s t a b)

pub blank_low : (g : List ℕ) → All IsBlank g → All (λ b. is_low b ≡ true) g
blank_low [] all = tt
blank_low (b ∷ g) (first, all) = (ground (arith, first), blank_low g all)

-- The blanks before and behind what a line says, and its comment.
pub record Margin : Type 0 where
  pub before : List ℕ
  pub after : List ℕ
  pub comment : Option (List ℕ)

abbrev pub IsMargin : Margin → Type 0
IsMargin m = All IsBlank m.before × All IsBlank m.after × IsComment m.comment

abbrev pub laid_out : Margin → List ℕ → List ℕ
laid_out m body = m.before ++ (body ++ (m.after ++ line_end m.comment))

-- A text that a trimmed line has.
abbrev pub IsBody : List ℕ → Type 0
IsBody body = StartsSolid body × EndsSolid body × All IsPlain body

pub All-semicolon : (s : List ℕ) → All IsPlain s → All (λ b. b ≢ 59) s
All-semicolon [] all = tt
All-semicolon (b ∷ s) (first, all) = (first.1, All-semicolon s all)

pub All-unended : (s : List ℕ) → All IsPlain s → All (λ b. b ≢ 59) (s ++ (10 ∷ []))
All-unended s all =
    All-append (λ b. b ≢ 59) s (10 ∷ []) (All-semicolon s all) (λ e. omega (arith, e), tt)
