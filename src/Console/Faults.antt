-- ===== src/Console/Faults.antt =====
-- Two commands of the control pipe (xl2tpd.c) that do harm, and what `get_lns` (aaa.c) makes of one.
use xl2tpd.Base.{
  ℕ, zero, suc, ◌≤◌, ◌≡◌, ◌≢◌, refl, ap, ◌∙◌, arith, Bool, true, false, Bool-cases, inl, inr,
  if◌then◌else◌,
}
use xl2tpd.Base.{List, [], ◌∷◌, ◌++◌, Option, none, some, All}
use xl2tpd.Address.{Lns, status, search, get_lns}
use xl2tpd.Session.{c_string}
use xl2tpd.Secret.{same_name}
use xl2tpd.File.Text.{bytes, skip_blank, strip_end}
use xl2tpd.File.Entries.{LnsEntry}
use xl2tpd.File.Options.{FileEnv, Item, lns, Outcome, refused}
use xl2tpd.File.Hosts.{Ranged, no_range, set_range, set_lac, with_range}
use xl2tpd.File.Keywords.{words, parse_one_option}
use xl2tpd.File.Layout.{IsBlank, strip_end-low, blank_low, c_string-append, All-plain, All-blank}
use xl2tpd.File.Written.{skip_blank-low}
use xl2tpd.File.Case.{find_keyword_cong, found_lac, option_by}
use xl2tpd.Console.Line.{tokens, line_loop, started, outcome_of, parse_one_line}
use xl2tpd.Console.State.{Console, ConsoleEnv, handled, with_code, Place, find_lns_by_name}
use xl2tpd.Console.State.{put_lns}
use xl2tpd.Console.Handlers.{changed, modify, modify_line, lns_place, control_handle_lns_add_modify}
use xl2tpd.Console.Options.{stepped, line_loop-stepped, then_option, apply_settings}
use xl2tpd.Console.Tokens.{IsSetting, settings_text, settings-plain}
use xl2tpd.Console.Options.{parse_settings}
use xl2tpd.Console.Tokens.{tokens-append}
use xl2tpd.Console.Received.{IsName, named_options}

-- The loop stays at an empty token.
loop_blank :
    (fuel : ℕ) (env : FileEnv) (s : List ℕ) (ts : List (List ℕ)) (i : Item)
    → strip_end (skip_blank s) ≡ []
    → line_loop fuel env s ts i ≡ none
unfolding line_loop strip_end skip_blank
loop_blank zero env s ts i blank = refl
loop_blank (suc fuel) env s ts i blank =
    line_loop-stepped fuel env s ts i
    ∙ ap (stepped fuel env ts i) blank
    ∙ loop_blank fuel env [] ts i refl

-- Options that begin with blanks and a semicolon are read forever, with any fuel.
pub blank_option_hangs :
    (fuel : ℕ) (env : FileEnv) (b : ℕ) (gap mem : List ℕ) (i : Item)
    → All IsBlank (b ∷ gap)
    → parse_one_line fuel env ((b ∷ gap) ++ (b';' ∷ mem)) i ≡ none
unfolding parse_one_line c_string
blank_option_hangs fuel env b gap mem i blank =
    let s = b ∷ gap in
    let plain = All-blank s blank in
    ap (λ (t : List ℕ). started fuel env i (tokens b';' t))
      (c_string-append s (b';' ∷ mem) (All-plain s plain))
    ∙ ap (started fuel env i) (tokens-append b';' b gap (c_string mem) (All-other s blank))
    ∙ loop_blank fuel env s (tokens b';' (c_string mem)) i
        (strip_end-low (skip_blank s) (skip_blank-low s (blank_low s blank)))
  where
    All-other : (s : List ℕ) → All IsBlank s → All (λ y. y ≢ b';') s
    All-other [] all = tt
    All-other (x ∷ s) (first, all) = (λ e. ground (arith, first, e), All-other s all)

set_lac_range :
    (env : FileEnv) (word value : List ℕ) (e : LnsEntry)
    → set_lac env false word value (lns e)
      ≡ with_range e.lacs (set_range env word value) (λ rs. record e { lacs = rs })
unfolding set_lac
set_lac_range env word value e = refl

refused_lac :
    (env : FileEnv) (word value : List ℕ) (e : LnsEntry)
    → same_name word (bytes "lac") ≡ true
    → set_range env word value ≡ no_range
    → parse_one_option env false word value (lns e) ≡ some (refused (lns (record e { lacs = [] })))
refused_lac env word value e same bad =
    option_by env false word value (lns e) (set_lac env)
      (find_keyword_cong (words env) word (bytes "lac") same ∙ found_lac env)
    ∙ ap some (
        set_lac_range env word value e
        ∙ ap (λ (r : Ranged). with_range e.lacs r (λ rs. record e { lacs = rs })) bad)

apply_one :
    (env : FileEnv) (word value : List ℕ) (i j : Item)
    → parse_one_option env false word value i ≡ some (refused j)
    → apply_settings env i ((word, value) ∷ []) ≡ refused j
unfolding apply_settings
apply_one env word value i j e =
    ap (λ (o : Option Outcome). then_option (outcome_of o i) (λ k. Outcome.ok k)) e

-- An LNS without ranges is passed over.
search_passes :
    (peer i : ℕ) (front more : List Lns) (deflns : Lns) (allow : Bool)
    → allow ≡ false
    → search allow peer (front ++ (record { name = i; lacs = [] } ∷ more)) deflns
      ≡ search allow peer (front ++ more) deflns
unfolding search status
search_passes peer i [] more deflns allow e = rw e refl
search_passes peer i (l ∷ front) more deflns allow e =
    let now = status allow peer l.lacs in
    elim (Bool-cases now) [
      | inl h ↦ rw h refl
      | inr h ↦
          ap (λ (r : Option Lns). if now then some l else r)
            (search_passes peer i front more deflns now h)
    ]

get_lns_passes :
    (accesscontrol : Bool) (peer i : ℕ) (front more : List Lns) (deflns : Lns)
    → get_lns accesscontrol peer (front ++ (record { name = i; lacs = [] } ∷ more)) deflns
      ≡ get_lns accesscontrol peer (front ++ more) deflns
unfolding get_lns
get_lns_passes accesscontrol peer i front more deflns =
    ap
      (λ (o : Option Lns). elim o [
        | some l ↦ some l
        | none ↦ if accesscontrol then none else some deflns
      ])
      (search_passes peer i front more deflns false refl)

-- A command for an LNS that is there, with a range of peers that is refused, is answered as an error,
-- and all the ranges that the LNS had are gone: where `get_lns` has it in its list, among any others,
-- it chooses for every peer as if the LNS were not there.
pub refused_range_shuts :
    (env : ConsoleEnv) (name word value rest : List ℕ) (k : Console) (p : Place) (e : LnsEntry)
    → IsName name
    → find_lns_by_name k name ≡ some (p, e)
    → IsSetting (word, value)
    → same_name word (bytes "lac") ≡ true
    → set_range env.file word value ≡ no_range
    → 1 ≤ env.fuel
    → (accesscontrol : Bool) (peer i : ℕ) (front more : List Lns) (deflns : Lns)
    → let left : LnsEntry = record e { lacs = [] } in
      (control_handle_lns_add_modify env
          (b'z' ∷ 32 ∷ (name ++ (32 ∷ (settings_text ((word, value) ∷ []) ++ (0 ∷ rest)))))
          k
        ≡ some (handled (with_code 3 (put_lns p left k))))
      × (get_lns accesscontrol peer (front ++ (record { name = i; lacs = left.lacs } ∷ more)) deflns
          ≡ get_lns accesscontrol peer (front ++ more) deflns)
unfolding control_handle_lns_add_modify
refused_range_shuts env [] word value rest k p e none_such there setting same bad enough ac peer i
      front more deflns =
    elim none_such [ ]
refused_range_shuts env (b ∷ bs) word value rest k p e n there setting same bad enough ac peer i
      front more deflns =
    let options = settings_text ((word, value) ∷ []) in
    (
      ap (λ (q : List ℕ × List ℕ). modify_line env q k)
            (named_options (b ∷ bs) options rest n
              (settings-plain ((word, value) ∷ []) (setting, tt)) b'z')
          ∙ ap
              (λ (o : Option (Place × LnsEntry)).
                modify env (options ++ (0 ∷ rest)) (lns_place k (b ∷ bs) o))
              there
          ∙ ap (changed p k) (
              parse_settings env.fuel env.file ((word, value) ∷ []) rest (lns e) enough
                (setting, tt)
              ∙ ap some (
                  apply_one env.file word value (lns e) (lns (record e { lacs = [] }))
                    (refused_lac env.file word value e same bad))),
      get_lns_passes ac peer i front more deflns,
    )
