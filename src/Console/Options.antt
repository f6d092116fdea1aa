-- ===== src/Console/Options.antt =====
-- `parse_one_line` (xl2tpd.c) on the options that `command_add` (xl2tpd-control.c) writes.
use xl2tpd.Base.{ℕ, zero, suc, ◌<◌, ◌≤◌, ◌≡◌, refl, ap, ◌∙◌, arith, false}
use xl2tpd.Base.{List, [], ◌∷◌, ◌++◌, Option, some, All, map, length}
use xl2tpd.Session.{c_string}
use xl2tpd.File.Text.{skip_blank, strip_end}
use xl2tpd.File.Options.{FileEnv, Item, Outcome, ok, refused, overrun}
use xl2tpd.File.Keywords.{parse_one_option}
use xl2tpd.File.Layout.{IsBody, split_at-append, skip_blank-gap}
use xl2tpd.File.Assignment.{IsWord-parts}
use xl2tpd.Console.Line.{
  tokens, token_option, outcome_of, option_of, line_loop, started, parse_one_line,
}
use xl2tpd.Console.Tokens.{argument, IsSetting, argument-IsBody, trimmed_body, strip_body}
use xl2tpd.Console.Tokens.{tokens-settings, settings_text, settings-plain, c_string-ended}

abbrev pub then_option : Outcome → (Item → Outcome) → Outcome
then_option (ok i) k = k i
then_option (refused i) k = refused i
then_option overrun k = overrun

-- The options one after the other, up to the first that is refused.
unfoldable pub apply_settings : FileEnv → Item → List (List ℕ × List ℕ) → Outcome
apply_settings env i [] = ok i
apply_settings env i ((word, value) ∷ ss) =
    then_option (outcome_of (parse_one_option env false word value i) i)
      (λ j. apply_settings env j ss)

-- A token is its word and its value.
token_option-argument :
    (env : FileEnv) (word value : List ℕ) (i : Item)
    → IsSetting (word, value)
    → token_option env (argument (word, value)) i
      ≡ outcome_of (parse_one_option env false word value i) i
unfolding token_option
token_option-argument env word value i (w, v) =
    let parts = IsWord-parts word w in
    ap (option_of env i) (split_at-append b'=' word value parts.1)
    ∙ ap (λ (t : List ℕ). outcome_of (parse_one_option env false t (skip_blank value) i) i)
        (strip_body word parts.0)
    ∙ ap (λ (t : List ℕ). outcome_of (parse_one_option env false word t i) i)
        (skip_blank-gap [] value tt v.0)

abbrev pub looped : ℕ → FileEnv → List (List ℕ) → Outcome → Option Outcome
looped fuel env ts overrun = some overrun
looped fuel env ts (refused j) = some (refused j)
looped fuel env [] (ok j) = some (ok j)
looped fuel env (t ∷ more) (ok j) = line_loop fuel env t more j

abbrev pub stepped : ℕ → FileEnv → List (List ℕ) → Item → List ℕ → Option Outcome
stepped fuel env ts i [] = line_loop fuel env [] ts i
stepped fuel env ts i (c ∷ cs) = looped fuel env ts (token_option env (c ∷ cs) i)

-- One round of the loop.
pub line_loop-stepped :
    (fuel : ℕ) (env : FileEnv) (s : List ℕ) (ts : List (List ℕ)) (i : Item)
    → line_loop (suc fuel) env s ts i ≡ stepped fuel env ts i (strip_end (skip_blank s))
unfolding line_loop
line_loop-stepped fuel env s ts i = by_text (strip_end (skip_blank s))
  where
    by_tokens :
        (j : Item) (us : List (List ℕ))
        → elim us as (λ x. Option Outcome) [
          | [] ↦ some (ok j)
          | u ∷ more ↦ line_loop fuel env u more j
        ]
          ≡ looped fuel env us (ok j)
    by_tokens j [] = refl
    by_tokens j (u ∷ more) = refl

    by_outcome :
        (o : Outcome)
        → elim o as (λ x. Option Outcome) [
          | overrun ↦ some overrun
          | refused j ↦ some (refused j)
          | ok j ↦ elim ts as (λ x. Option Outcome) [
            | [] ↦ some (ok j)
            | u ∷ more ↦ line_loop fuel env u more j
          ]
        ]
          ≡ looped fuel env ts o
    by_outcome overrun = refl
    by_outcome (refused j) = refl
    by_outcome (ok j) = by_tokens j ts

    by_text :
        (t : List ℕ)
        → elim t as (λ x. Option Outcome) [
          | [] ↦ line_loop fuel env [] ts i
          | c ∷ cs ↦ elim (token_option env (c ∷ cs) i) as (λ x. Option Outcome) [
            | overrun ↦ some overrun
            | refused j ↦ some (refused j)
            | ok j ↦ elim ts as (λ x. Option Outcome) [
              | [] ↦ some (ok j)
              | u ∷ more ↦ line_loop fuel env u more j
            ]
          ]
        ]
          ≡ stepped fuel env ts i t
    by_text [] = refl
    by_text (c ∷ cs) = by_outcome (token_option env (c ∷ cs) i)

unfolded_loop :
    (fuel : ℕ) (env : FileEnv) (s : List ℕ) (ts : List (List ℕ)) (i : Item)
    → IsBody s
    → line_loop (suc fuel) env s ts i ≡ looped fuel env ts (token_option env s i)
unfolded_loop fuel env [] ts i (none_such, e, plain) = elim none_such [ ]
unfolded_loop fuel env (b ∷ bs) ts i body =
    line_loop-stepped fuel env (b ∷ bs) ts i
    ∙ ap (stepped fuel env ts i) (trimmed_body (b ∷ bs) body)

-- The loop ends with a round for each option, and one more.
loop_settings :
    (fuel : ℕ) (env : FileEnv) (s : List ℕ × List ℕ) (ss : List (List ℕ × List ℕ)) (i : Item)
    → length ss < fuel
    → All IsSetting (s ∷ ss)
    → line_loop fuel env (argument s) (map argument ss) i ≡ some (apply_settings env i (s ∷ ss))
unfolding apply_settings
loop_settings zero env s ss i enough all = absurd (omega (arith, enough))
loop_settings (suc fuel) env (word, value) [] i enough (first, all) =
    unfolded_loop fuel env (argument (word, value)) [] i (argument-IsBody (word, value) first)
    ∙ ap (looped fuel env []) (token_option-argument env word value i first)
    ∙ onward (outcome_of (parse_one_option env false word value i) i)
  where
    onward : (o : Outcome) → looped fuel env [] o ≡ some (then_option o (λ j. ok j))
    onward overrun = refl
    onward (refused j) = refl
    onward (ok j) = refl
loop_settings (suc fuel) env (word, value) (s ∷ ss) i enough (first, all) =
    unfolded_loop fuel env (argument (word, value)) (map argument (s ∷ ss)) i
      (argument-IsBody (word, value) first)
    ∙ ap (looped fuel env (map argument (s ∷ ss))) (token_option-argument env word value i first)
    ∙ onward (outcome_of (parse_one_option env false word value i) i)
        (λ j. loop_settings fuel env s ss j (omega (arith, enough)) all)
  where
    onward :
        (o : Outcome)
        → ((j : Item)
            → line_loop fuel env (argument s) (map argument ss) j
              ≡ some (apply_settings env j (s ∷ ss)))
        → looped fuel env (map argument (s ∷ ss)) o
          ≡ some (then_option o (λ j. apply_settings env j (s ∷ ss)))
    onward overrun next = refl
    onward (refused j) next = refl
    onward (ok j) next = next j

no_settings : (env : FileEnv) (i : Item) → some (ok i) ≡ some (apply_settings env i [])
unfolding apply_settings
no_settings env i = refl

parse_one_line-started :
    (fuel : ℕ) (env : FileEnv) (s rest : List ℕ) (i : Item)
    → parse_one_line fuel env (s ++ (0 ∷ rest)) i
      ≡ started fuel env i (tokens b';' (c_string (s ++ (0 ∷ rest))))
unfolding parse_one_line
parse_one_line-started fuel env [] rest i = refl
parse_one_line-started fuel env (b ∷ s) rest i = refl

-- The options that stand in memory up to a NUL.
pub parse_settings :
    (fuel : ℕ) (env : FileEnv) (ss : List (List ℕ × List ℕ)) (rest : List ℕ) (i : Item)
    → length ss ≤ fuel
    → All IsSetting ss
    → parse_one_line fuel env (settings_text ss ++ (0 ∷ rest)) i ≡ some (apply_settings env i ss)
parse_settings fuel env ss rest i enough all =
    parse_one_line-started fuel env (settings_text ss) rest i
    ∙ ap (λ (t : List ℕ). started fuel env i (tokens b';' t))
        (c_string-ended (settings_text ss) rest (settings-plain ss all))
    ∙ ap (started fuel env i) (tokens-settings ss all)
    ∙ from_start ss enough all
  where
    from_start :
        (rs : List (List ℕ × List ℕ))
        → length rs ≤ fuel
        → All IsSetting rs
        → started fuel env i (map argument rs) ≡ some (apply_settings env i rs)
    from_start [] small good = no_settings env i
    from_start (r ∷ rs) small good = loop_settings fuel env r rs i (omega (arith, small)) good
