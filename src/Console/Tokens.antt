-- ===== src/Console/Tokens.antt =====
-- The arguments that `command_add` (xl2tpd-control.c) writes, and the tokens of `parse_one_line`
-- (xl2tpd.c).
use mathlib.Core.List.{append-nil}
use xl2tpd.Base.{ℕ, ◌≡◌, ◌≢◌, refl, sym, ap, ◌∙◌, arith, Bool, true, false}
use xl2tpd.Base.{if◌then◌else◌, List, [], ◌∷◌, ◌++◌, Option, none, some, All, map, ne→==, ==_refl}
use xl2tpd.Session.{c_string}
use xl2tpd.File.Text.{skip_blank, strip_end}
use xl2tpd.File.Layout.{IsBody, split_at-append, skip_blank-gap}
use xl2tpd.File.Layout.{strip_end-append, c_string-append, All-plain, All-semicolon, All-append}
use xl2tpd.File.Reading.{IsWord}
use xl2tpd.File.Assignment.{assignment-IsBody, IsWord-parts}
use xl2tpd.Console.Line.{joined, tokens}
use xl2tpd.Console.Client.{option_text}

-- A word and its value, as one argument.
abbrev pub argument : List ℕ × List ℕ → List ℕ
argument (word, value) = word ++ (b'=' ∷ value)

abbrev pub IsSetting : List ℕ × List ℕ → Type 0
IsSetting (word, value) = IsWord word × IsBody value

pub argument-IsBody : (s : List ℕ × List ℕ) → IsSetting s → IsBody (argument s)
argument-IsBody (word, value) (w, v) =
    assignment-IsBody word [] [] value (IsWord-parts word w).0 tt tt v

pub trimmed_body : (s : List ℕ) → IsBody s → strip_end (skip_blank s) ≡ s
trimmed_body s b =
    ap strip_end (skip_blank-gap [] s tt b.0)
    ∙ ap strip_end (sym (append-nil s))
    ∙ strip_end-append s [] b.1 tt

pub strip_body : (s : List ℕ) → IsBody s → strip_end s ≡ s
strip_body s b = ap strip_end (sym (append-nil s)) ∙ strip_end-append s [] b.1 tt

tokens-cons : (x b : ℕ) (bs : List ℕ) → b ≢ x → tokens x (b ∷ bs) ≡ joined x b bs (tokens x bs)
unfolding tokens
tokens-cons x b bs h =
    ap (λ (c : Bool). if c then tokens x bs else joined x b bs (tokens x bs)) (ne→== b x h)

tokens-skip : (x : ℕ) (s : List ℕ) → tokens x (x ∷ s) ≡ tokens x s
unfolding tokens
tokens-skip x s = ap (λ (c : Bool). if c then tokens x s else joined x x s (tokens x s)) (==_refl x)

joined_last : (x b : ℕ) (s : List ℕ) (ts : List (List ℕ)) → joined x b (x ∷ s) ts ≡ (b ∷ []) ∷ ts
joined_last x b s [] = refl
joined_last x b s (t ∷ ts) =
    ap (λ (c : Bool). if c then (b ∷ []) ∷ t ∷ ts else (b ∷ t) ∷ ts) (==_refl x)

-- A token that a delimiter ends.
pub tokens-append :
    (x b : ℕ) (t s : List ℕ)
    → All (λ y. y ≢ x) (b ∷ t)
    → tokens x ((b ∷ t) ++ (x ∷ s)) ≡ (b ∷ t) ∷ tokens x s
tokens-append x b [] s (first, all) =
    tokens-cons x b (x ∷ s) first
    ∙ joined_last x b s (tokens x (x ∷ s))
    ∙ ap (λ (ts : List (List ℕ)). (b ∷ []) ∷ ts) (tokens-skip x s)
tokens-append x b (c ∷ t) s (first, (second, all)) =
    let more = t ++ (x ∷ s) in
    tokens-cons x b (c ∷ more) first
    ∙ ap (joined x b (c ∷ more)) (tokens-append x c t s (second, all))
    ∙ ap (λ (d : Bool). if d then (b ∷ []) ∷ (c ∷ t) ∷ tokens x s else (b ∷ c ∷ t) ∷ tokens x s)
        (ne→== c x second)

tokens-argument : (a s : List ℕ) → IsBody a → tokens b';' (a ++ (b';' ∷ s)) ≡ a ∷ tokens b';' s
tokens-argument [] s (none_such, e, plain) = elim none_such [ ]
tokens-argument (b ∷ t) s (first, e, plain) = tokens-append b';' b t s (All-semicolon (b ∷ t) plain)

-- The text of some settings, each ended.
unfoldable pub settings_text : List (List ℕ × List ℕ) → List ℕ
settings_text [] = []
settings_text (s ∷ ss) = argument s ++ (b';' ∷ settings_text ss)

pub tokens-settings :
    (ss : List (List ℕ × List ℕ))
    → All IsSetting ss
    → tokens b';' (settings_text ss) ≡ map argument ss
unfolding tokens settings_text
tokens-settings [] all = refl
tokens-settings (s ∷ ss) (first, all) =
    tokens-argument (argument s) (settings_text ss) (argument-IsBody s first)
    ∙ ap (λ (ts : List (List ℕ)). argument s ∷ ts) (tokens-settings ss all)

pub settings-plain :
    (ss : List (List ℕ × List ℕ)) → All IsSetting ss → All (λ b. b ≢ 0) (settings_text ss)
unfolding settings_text
settings-plain [] all = tt
settings-plain (s ∷ ss) (first, all) =
    All-append (λ b. b ≢ 0) (argument s) (b';' ∷ settings_text ss)
      (All-plain (argument s) (argument-IsBody s first).2)
      (λ e. omega (arith, e), settings-plain ss all)

-- What `command_add` writes for settings that are one argument each.
option_text-argument :
    (s : List ℕ × List ℕ) (os : List (List ℕ))
    → IsSetting s
    → option_text true (argument s ∷ os) ≡ argument s ++ (b';' ∷ option_text true os)
unfolding option_text
option_text-argument (word, []) os (w, (none_such, e, plain)) = elim none_such [ ]
option_text-argument (word, b ∷ value) os (w, v) =
    let a = argument (word, b ∷ value) in
    ap
      (λ (o : Option (List ℕ × List ℕ)). elim o as (λ x. List ℕ) [
        | none ↦ a ++ (32 ∷ option_text true os)
        | some (key, []) ↦ a ++ option_text false os
        | some (key, c ∷ cs) ↦ a ++ (b';' ∷ option_text true os)
      ])
      (split_at-append b'=' word (b ∷ value) (IsWord-parts word w).1)

pub option_text-settings :
    (ss : List (List ℕ × List ℕ))
    → All IsSetting ss
    → option_text true (map argument ss) ≡ settings_text ss
unfolding option_text settings_text
option_text-settings [] all = refl
option_text-settings (s ∷ ss) (first, all) =
    option_text-argument s (map argument ss) first
    ∙ ap (λ (t : List ℕ). argument s ++ (b';' ∷ t)) (option_text-settings ss all)

pub c_string-ended : (s rest : List ℕ) → All (λ b. b ≢ 0) s → c_string (s ++ (0 ∷ rest)) ≡ s
unfolding c_string
c_string-ended s rest all = c_string-append s (0 ∷ rest) all ∙ append-nil s
