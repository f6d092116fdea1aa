-- ===== src/Console/Examples.antt =====
-- Commands on the control pipe at concrete inputs.
use xl2tpd.Base.{
  ℕ, ◌≡◌, refl, arith, Bool, true, false, List, [], ◌∷◌, ◌++◌, map, Option, none, some, ℤ, pos,
}
use xl2tpd.Address.{Lns, get_lns}
use xl2tpd.File.Text.{bytes}
use xl2tpd.File.Entries.{LnsEntry, new_lns, new_lac, cleared_lac}
use xl2tpd.File.Options.{FileEnv, lac}
use xl2tpd.File.Parse.{find_lac}
use xl2tpd.Console.Line.{parse_one_line}
use xl2tpd.Console.State.{Lac, Console, ConsoleEnv, Handled, handled, with_code, at_place, put_lns}
use xl2tpd.Console.State.{lac_entries, code, Ask, magic_lac_dial, crashed}
use xl2tpd.Console.Handlers.{control_handle_lns_add_modify}
use xl2tpd.Console.Messages.{message, Read, do_control}
use xl2tpd.Console.Client.{command_add_lac, with_result}
use xl2tpd.Console.Tokens.{argument, settings_text}
use xl2tpd.Console.Received.{add_lac, add_lac_received}
use xl2tpd.Console.Faults.{blank_option_hangs, refused_range_shuts}
use xl2tpd.Console.Sound.{IsGoodEnd}
use xl2tpd.Console.Whole.{do_control-IsGoodEnd}

abbrev file_env : FileEnv
file_env = record { hosts = λ name. none; stack = [] }

abbrev env : ConsoleEnv
env = record { file = file_env; fuel = 5; calls = λ n. true; connects = λ host. true }

abbrev home : LnsEntry
home = record new_lns {
  entname = bytes "home";
  lacs = record { start = 1; end = 9; allow = true } ∷ [];
}

abbrev console : Console
console = record {
  lnslist = home ∷ [];
  deflns = none;
  laclist = [];
  deflac = cleared_lac;
  switch_io = false;
  dial_no_tmp = [];
  asked = [];
  answers = [];
}

abbrev opens : List ℕ → Bool
opens name = true

-- The buffer at first.
abbrev zeros : List ℕ
zeros = map (λ b. 0) (bytes "----------------------------------------")

abbrev options : List (List ℕ × List ℕ)
options = (bytes "tunnel rws", bytes "8") ∷ (bytes "autodial", bytes "yes") ∷ []

add_lac_received_example :
    (text : List ℕ) × (command_add_lac (bytes "isp") (map argument options) ≡ some text)
    × (message env opens (with_result (bytes "/f") (text ++ (0 ∷ 7 ∷ []))) false console
        ≡ some (
          add_lac env (bytes "isp") options console (find_lac (bytes "isp") (lac_entries console)),
          true,
        ))
add_lac_received_example =
    add_lac_received env opens (bytes "/f") (bytes "isp") (7 ∷ []) (bytes "tunnel rws", bytes "8")
      ((bytes "autodial", bytes "yes") ∷ []) false console (ground arith) refl (ground arith)
      (ground arith) (omega arith)

blank_option_hangs_example : parse_one_line 99 file_env (32 ∷ b';' ∷ 0 ∷ []) (lac new_lac) ≡ none
blank_option_hangs_example =
    blank_option_hangs 99 file_env 32 [] (0 ∷ []) (lac new_lac) (ground arith)

abbrev guest : Lns
guest = record { name = 1; lacs = record { start = 20; end = 29; allow = true } ∷ [] }

-- The LNS is the second of two, and the peer is one that it let in before.
refused_range_shuts_example :
    (control_handle_lns_add_modify env
        (b'z'
          ∷ 32
          ∷ (bytes "home" ++ (32 ∷ (settings_text ((bytes "lac", bytes "x") ∷ []) ++ (0 ∷ [])))))
        console
      ≡ some (handled (with_code 3 (put_lns (at_place 0) (record home { lacs = [] }) console))))
    × (get_lns true 5 (guest ∷ record { name = 0; lacs = [] } ∷ []) guest
        ≡ get_lns true 5 (guest ∷ []) guest)
unfolding xl2tpd.Console.State.find_lns_by_name xl2tpd.File.Hosts.set_range
    xl2tpd.File.Text.split_at
refused_range_shuts_example =
    refused_range_shuts env (bytes "home") (bytes "lac") (bytes "x") [] console (at_place 0) home
      (ground arith) refl (ground arith) refl refl (omega arith) true 5 0 (guest ∷ []) [] guest

-- Before and after.
shut_out :
    (get_lns true 5 (guest ∷ record { name = 0; lacs = home.lacs } ∷ []) guest
      ≡ some (record { name = 0; lacs = home.lacs }))
    × (get_lns true 5 (guest ∷ []) guest ≡ none)
unfolding get_lns
shut_out = (refl, refl)

-- A LAC that is there is dialed, and another is added.
abbrev reads : List Read
reads =
    record { before = zeros; chunk = bytes "c isp" }
    ∷ record { before = zeros; chunk = bytes "a other tunnel rws=8;redial timeout=5" }
    ∷ []

abbrev isp : Lac
isp = record {
  entry = record new_lac { entname = bytes "isp" };
  rtries = 2;
  password = [];
  tunnel = none;
  call = false;
}

abbrev with_isp : Console
with_isp = record console { laclist = isp ∷ [] }

-- What the two commands leave of the LACs and ask for, if there is no crash.
abbrev left : Option Handled → Option (List (List ℕ × ℤ × ℤ) × List Ask)
left none = none
left (some crashed) = none
left (some (handled k)) =
    some
      (map (λ l. (l.entry.entname, l.entry.conf.tun_rws, l.entry.conf.rtimeout)) k.laclist, k.asked)

reads_run :
    left (do_control env opens reads false with_isp)
    ≡ some
        ((bytes "other", pos 8, pos 5) ∷ (bytes "isp", pos 4, pos 30) ∷ [], magic_lac_dial 0 ∷ [])
unfolding do_control xl2tpd.File.Text.split_at xl2tpd.Session.c_string xl2tpd.File.Text.strip_end
    xl2tpd.File.Text.skip_blank xl2tpd.File.Keywords.parse_one_option xl2tpd.File.Numbers.set_rws
    xl2tpd.File.Numbers.set_rtimeout
reads_run = refl

do_control-IsGoodEnd_example : IsGoodEnd (do_control env opens reads false with_isp)
unfolding new_lac
do_control-IsGoodEnd_example = do_control-IsGoodEnd env opens reads false with_isp (ground arith)
