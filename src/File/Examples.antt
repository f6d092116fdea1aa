-- ===== src/File/Examples.antt =====
-- Configuration files at concrete inputs.
use xl2tpd.Base.{◌≡◌, refl, arith, false, List, [], ◌∷◌, map, none, some, All, pos}
use xl2tpd.File.Text.{bytes}
use xl2tpd.File.Entries.{LnsEntry, new_lns, cleared_lac}
use xl2tpd.File.Options.{FileEnv, Item, lns, Outcome}
use xl2tpd.File.Keywords.{parse_one_option}
use xl2tpd.File.Parse.{initial, parse_config}
use xl2tpd.File.Settings.{Settings, Parsed, going}
use xl2tpd.File.Sound.Lists.{IsGoodParsed}
use xl2tpd.File.Start.{Files, init_config, init_config-IsGoodParsed}
use xl2tpd.File.Case.{capital_no_allows}
use xl2tpd.File.Layout.{Margin}
use xl2tpd.File.Reading.{Line, heading, setting, empty, text, read, IsLine}
use xl2tpd.File.Written.{read_written}

abbrev env : FileEnv
env = record { hosts = λ name. none; stack = [] }

abbrev start : Settings
start = record {
  global = record {
    listenaddr = 0;
    port = 1701;
    authfile = [];
    accesscontrol = false;
    forceuserspace = false;
    packet_dump = false;
    debug_avp = false;
    debug_network = false;
    debug_tunnel = false;
    debug_state = false;
    ipsecsaref = false;
    sarefnum = 30;
    max_retries = 5;
    cap_backoff = 0;
    rand_source = 1;
  };
  lnslist = [];
  laclist = [];
  deflns = none;
  deflac = cleared_lac;
}

abbrev tight : Margin
tight = record { before = []; after = []; comment = none }

abbrev wide : Margin
wide = record { before = 32 ∷ 9 ∷ []; after = 32 ∷ []; comment = some (bytes "x") }

abbrev lines : List Line
lines =
    empty (32 ∷ []) (some (bytes " one"))
    ∷ heading wide (bytes "lns") (some (bytes "home"))
    ∷ setting wide (bytes "Tx Bps") (32 ∷ []) (9 ∷ 32 ∷ []) (bytes "12")
    ∷ setting tight (bytes "exclusive") [] [] (bytes "yes")
    ∷ []

good_lines : All IsLine lines
good_lines = ground arith

-- What the file makes of the speed of the LNS.
abbrev speed_of : Parsed → List LnsEntry
speed_of (going p) = p.settings.lnslist
speed_of other = []

read_lines :
    map (λ e. e.conf.txspeed) (speed_of (parse_config env start (map text lines))) ≡ pos 12 ∷ []
unfolding parse_config xl2tpd.Session.c_string xl2tpd.File.Text.strip_end
    xl2tpd.File.Text.skip_blank xl2tpd.File.Numbers.set_speed xl2tpd.File.Text.atoi
    xl2tpd.File.Options.set_exclusive xl2tpd.File.Text.yesno
read_lines = refl

read_written_example : parse_config env start (map text lines) ≡ read env (initial start) lines
read_written_example = read_written env start lines good_lines

abbrev files : Files
files = record {
  configfile = none;
  altconfigfile = some (map text lines);
  altauthfile = bytes "/etc/l2tpd/l2tp-secrets";
}

init_config-IsGoodParsed_example : IsGoodParsed (init_config env start.global files)
init_config-IsGoodParsed_example = init_config-IsGoodParsed env start.global files

capital_no_allows_example :
    parse_one_option env false (bytes "No lac") (bytes "1.2.3.4") (lns new_lns)
    ≡ parse_one_option env false (bytes "lac") (bytes "1.2.3.4") (lns new_lns)
unfolding xl2tpd.Secret.same_name
capital_no_allows_example =
    capital_no_allows env false (bytes "No lac") (bytes "1.2.3.4") (lns new_lns) refl
      (λ e. omega (arith, e))
