-- ===== src/File/Start.antt =====
-- `init_config` (file.c): the first settings, the file or the old one in its place, and what holds of
-- the settings that the daemon starts with.
use xl2tpd.Base.{ℕ, List, Option, none, some}
use xl2tpd.File.Text.{stored}
use xl2tpd.File.Entries.{Global}
use xl2tpd.File.Options.{FileEnv}
use xl2tpd.File.Parse.{init_settings, parse_config}
use xl2tpd.File.Settings.{Settings, Parsed, rejected}
use xl2tpd.File.Sound.Lists.{IsGoodParsed}
use xl2tpd.File.Sound.Whole.{parse_config-IsGoodParsed}

-- A file as `fgets` gives it; `none` is a file that cannot be opened. With the old file goes the old
-- file of secrets.
pub record Files : Type 0 where
  pub configfile : Option (List (List ℕ))
  pub altconfigfile : Option (List (List ℕ))
  pub altauthfile : List ℕ

abbrev old_settings : Global → List ℕ → Settings
old_settings g altauthfile =
    let c = init_settings g in
    record c { global = record (c.global) { authfile = stored altauthfile } }

unfoldable pub init_config : FileEnv → Global → Files → Parsed
unfolding init_settings parse_config
init_config env g files = elim files.configfile [
  | some pieces ↦ parse_config env (init_settings g) pieces
  | none ↦ elim files.altconfigfile [
    | none ↦ rejected (init_settings g)
    | some pieces ↦ parse_config env (old_settings g files.altauthfile) pieces
  ]
]

-- If the daemon starts, whatever its file holds and the names stand for, each LNS of the list, and
-- the default one, has a positive window and speeds, no range that is backwards, and not both an own
-- address and a range of them; each LAC of the list has a positive window and a positive time before
-- it redials.
pub init_config-IsGoodParsed :
    (env : FileEnv) (g : Global) (files : Files) → IsGoodParsed (init_config env g files)
unfolding init_config
init_config-IsGoodParsed env g files = new files.configfile
  where
    old :
        (o : Option (List (List ℕ)))
        → IsGoodParsed (elim o as (λ x. Parsed) [
          | none ↦ rejected (init_settings g)
          | some pieces ↦ parse_config env (old_settings g files.altauthfile) pieces
        ])
    old none = tt
    old (some pieces) =
        parse_config-IsGoodParsed env (old_settings g files.altauthfile) pieces (tt, tt, tt)

    new :
        (o : Option (List (List ℕ)))
        → IsGoodParsed (elim o as (λ x. Parsed) [
          | some pieces ↦ parse_config env (init_settings g) pieces
          | none ↦ elim files.altconfigfile as (λ x. Parsed) [
            | none ↦ rejected (init_settings g)
            | some pieces ↦ parse_config env (old_settings g files.altauthfile) pieces
          ]
        ])
    new none = old files.altconfigfile
    new (some pieces) = parse_config-IsGoodParsed env (init_settings g) pieces (tt, tt, tt)
