-- ===== src/Console/Received.antt =====
-- What `do_control` (xl2tpd.c) makes of a message of xl2tpd-control.c.
use mathlib.Core.List.{append_assoc}
use xl2tpd.Base.{ℕ, ◌≤◌, ◌≡◌, ◌≢◌, refl, sym, ap, ◌∙◌, arith, Bool, true}
use xl2tpd.Base.{if◌then◌else◌, List, [], ◌∷◌, ◌++◌, Option, none, some, All, map, ne→==, length}
use xl2tpd.Base.{drop, drop-length-append}
use xl2tpd.Session.{c_string}
use xl2tpd.File.Text.{split_at, stored}
use xl2tpd.File.Entries.{new_lac}
use xl2tpd.File.Options.{lac}
use xl2tpd.File.Parse.{find_lac}
use xl2tpd.File.Layout.{split_at-append, All-append}
use xl2tpd.Console.Line.{skip_spaces, word_of, front_or, command_name}
use xl2tpd.Console.State.{Console, ConsoleEnv, Handled, handled, lac_entries}
use xl2tpd.Console.Handlers.{added, finished, add_named, add_line, control_handle_lac_add_modify}
use xl2tpd.Console.Messages.{to_file, command, message, served}
use xl2tpd.Console.Client.{command_add_lac, with_result}
use xl2tpd.Console.Options.{apply_settings, parse_settings}
use xl2tpd.Console.Tokens.{argument, IsSetting, settings_text}
use xl2tpd.Console.Tokens.{settings-plain, option_text-settings, c_string-ended}

-- A name that `strtok` takes whole.
abbrev pub IsName : List ℕ → Type 0
IsName [] = ⊥
IsName (b ∷ bs) = All (λ y. (y ≢ 0) × (y ≢ 32)) (b ∷ bs)

All-both : (s : List ℕ) → All (λ y. (y ≢ 0) × (y ≢ 32)) s → All (λ y. y ≢ 0) s × All (λ y. y ≢ 32) s
All-both [] all = (tt, tt)
All-both (b ∷ s) (first, all) = let rest = All-both s all in ((first.0, rest.0), (first.1, rest.1))

name-plain : (name : List ℕ) → IsName name → All (λ y. y ≢ 0) name
name-plain [] none_such = elim none_such [ ]
name-plain (b ∷ bs) n = (All-both (b ∷ bs) n).0

skip_spaces-word : (b : ℕ) (bs : List ℕ) → b ≢ 32 → skip_spaces (b ∷ bs) ≡ b ∷ bs
unfolding skip_spaces
skip_spaces-word b bs h = ap (λ (c : Bool). if c then skip_spaces bs else b ∷ bs) (ne→== b 32 h)

drop-behind : (s t : List ℕ) → drop 1 (drop (length s) (s ++ (32 ∷ t))) ≡ t
drop-behind s t = ap (drop 1) (drop-length-append s (32 ∷ t))

-- The name of a command and the memory of its options.
abbrev named : List ℕ → List ℕ × List ℕ
named s = let name = word_of (c_string s) in (name, drop 1 (drop (length name) s))

command_name-named :
    (letter : ℕ) (s : List ℕ) → command_name (letter ∷ 32 ∷ s) ≡ named (skip_spaces s)
unfolding command_name skip_spaces
command_name-named letter s = refl

-- The front of the memory up to a space.
first_word :
    (name options rest : List ℕ)
    → All (λ y. (y ≢ 0) × (y ≢ 32)) name
    → All (λ y. y ≢ 0) options
    → word_of (c_string (name ++ (32 ∷ (options ++ (0 ∷ rest))))) ≡ name
first_word name options rest n o =
    ap (λ (s : List ℕ). word_of (c_string s)) (sym (append_assoc name (32 ∷ options) (0 ∷ rest)))
    ∙ ap word_of (
        c_string-ended (name ++ (32 ∷ options)) rest (
          All-append (λ y. y ≢ 0) name (32 ∷ options) (All-both name n).0
            (λ e. omega (arith, e), o)))
    ∙ ap (front_or (name ++ (32 ∷ options))) (split_at-append 32 name options (All-both name n).1)

pub named_options :
    (name options rest : List ℕ)
    → IsName name
    → All (λ y. y ≢ 0) options
    → (letter : ℕ)
    → command_name (letter ∷ 32 ∷ (name ++ (32 ∷ (options ++ (0 ∷ rest)))))
      ≡ (name, options ++ (0 ∷ rest))
named_options [] options rest none_such o letter = elim none_such [ ]
named_options (b ∷ bs) options rest (first, n) o letter =
    let name = b ∷ bs in
    let tail = bs ++ (32 ∷ (options ++ (0 ∷ rest))) in
    command_name-named letter (b ∷ tail)
    ∙ ap named (skip_spaces-word b tail first.1)
    ∙ ap (λ (w : List ℕ). (w, drop 1 (drop (length w) (b ∷ tail))))
        (first_word name options rest (first, n) o)
    ∙ ap (λ (t : List ℕ). (name, t)) (drop-behind name (options ++ (0 ∷ rest)))

-- What becomes of a new LAC by its options, if there is none of the name yet.
unfoldable pub add_lac : ConsoleEnv → List ℕ → List (List ℕ × List ℕ) → Console → Option ℕ → Handled
unfolding new_lac apply_settings
add_lac env name ss k (some i) = handled k
add_lac env name ss k none =
    added k (apply_settings env.file (lac (record new_lac { entname = stored name })) ss)

-- The handler on the memory of such a command.
add_modify_settings :
    (env : ConsoleEnv) (name rest : List ℕ) (ss : List (List ℕ × List ℕ)) (k : Console)
    → IsName name
    → All IsSetting ss
    → length ss ≤ env.fuel
    → control_handle_lac_add_modify env
        (b'a' ∷ 32 ∷ (name ++ (32 ∷ (settings_text ss ++ (0 ∷ rest)))))
        k
      ≡ some (add_lac env name ss k (find_lac name (lac_entries k)))
unfolding control_handle_lac_add_modify add_lac
add_modify_settings env [] rest ss k none_such good enough = elim none_such [ ]
add_modify_settings env (b ∷ bs) rest ss k n good enough =
    let name = b ∷ bs in
    ap (λ (p : List ℕ × List ℕ). add_line env p k)
      (named_options name (settings_text ss) rest n (settings-plain ss good) b'a')
    ∙ by_place (find_lac name (lac_entries k))
  where
    by_place :
        (o : Option ℕ)
        → add_named env (b ∷ bs) (settings_text ss ++ (0 ∷ rest)) k o
          ≡ some (add_lac env (b ∷ bs) ss k o)
    by_place (some i) = refl
    by_place none = ap (finished k) (
        parse_settings env.fuel env.file ss rest
          (lac (record new_lac { entname = stored (b ∷ bs) })) enough good)

module _ (env : ConsoleEnv) (opens : List ℕ → Bool) where
  command_a :
      (mem : List ℕ) (seen : Bool) (k : Console) (h : Handled)
      → control_handle_lac_add_modify env (b'a' ∷ mem) k ≡ some h
      → command env (b'a' ∷ mem) true seen k ≡ some (h, true)
  unfolding command
  command_a mem seen k h e = ap (served true k) e

  message_to_file :
      (file text rest : List ℕ) (seen : Bool) (k : Console)
      → IsName file
      → opens file ≡ true
      → All (λ y. y ≢ 0) text
      → message env opens (b'@' ∷ (file ++ (32 ∷ (text ++ (0 ∷ rest))))) seen k
        ≡ command env (text ++ (0 ∷ rest)) true seen k
  unfolding message
  message_to_file [] text rest seen k none_such open_it plain = elim none_such [ ]
  message_to_file (c ∷ cs) text rest seen k n open_it plain =
      let file = c ∷ cs in
      let mem = file ++ (32 ∷ (text ++ (0 ∷ rest))) in
      ap (λ (s : List ℕ). to_file env opens mem seen k (split_at 32 s))
        (ap c_string (sym (append_assoc file (32 ∷ text) (0 ∷ rest)))
          ∙ c_string-ended (file ++ (32 ∷ text)) rest (
              All-append (λ y. y ≢ 0) file (32 ∷ text) (All-both file n).0
                (λ e. omega (arith, e), plain)))
      ∙ ap (to_file env opens mem seen k) (split_at-append 32 file text (All-both file n).1)
      ∙ ap
          (λ (b : Bool).
            if b
            then command env (drop 1 (drop (length file) mem)) true seen k
            else some (handled k, seen))
          open_it
      ∙ ap (λ (s : List ℕ). command env s true seen k) (drop-behind file (text ++ (0 ∷ rest)))

  -- A command to add a LAC, as xl2tpd-control writes it for one argument `word=value` or more, does
  -- what these options do to a new LAC, one after the other, unless there is a LAC of that name; no
  -- name has a space. There must be a file for the result, and fuel for each option.
  pub add_lac_received :
      (file name rest : List ℕ) (s : List ℕ × List ℕ) (ss : List (List ℕ × List ℕ)) (seen : Bool)
      (k : Console)
      → IsName file
      → opens file ≡ true
      → IsName name
      → All IsSetting (s ∷ ss)
      → length (s ∷ ss) ≤ env.fuel
      → (text : List ℕ) × (command_add_lac name (map argument (s ∷ ss)) ≡ some text)
        × (message env opens (with_result file (text ++ (0 ∷ rest))) seen k
            ≡ some (add_lac env name (s ∷ ss) k (find_lac name (lac_entries k)), true))
  unfolding command_add_lac
  add_lac_received file name rest s ss seen k f open_it n good enough =
      let text = b'a' ∷ 32 ∷ (name ++ (32 ∷ settings_text (s ∷ ss))) in
      (
        text,
        ap (λ (t : List ℕ). some (b'a' ∷ 32 ∷ (name ++ (32 ∷ t))))
            (option_text-settings (s ∷ ss) good),
        message_to_file file text rest seen k f open_it (
          λ e. omega (arith, e),
          (
            λ e. omega (arith, e),
            All-append (λ y. y ≢ 0) name (32 ∷ settings_text (s ∷ ss)) (name-plain name n)
                (λ e. omega (arith, e), settings-plain (s ∷ ss) good),
          ),
        )
            ∙ ap (λ (t : List ℕ). command env (b'a' ∷ 32 ∷ t) true seen k)
                (append_assoc name (32 ∷ settings_text (s ∷ ss)) (0 ∷ rest))
            ∙ command_a (32 ∷ (name ++ (32 ∷ (settings_text (s ∷ ss) ++ (0 ∷ rest))))) seen k
                (add_lac env name (s ∷ ss) k (find_lac name (lac_entries k)))
                (add_modify_settings env name rest (s ∷ ss) k n good enough),
      )
