-- ===== src/Console/Keeps.antt =====
-- Whatever is written to the control pipe, the LACs stay good (`do_control` of xl2tpd.c).
use xl2tpd.Base.{ℕ, ◌≡◌, refl, true, false, if-intro}
use xl2tpd.Base.{List, [], ◌∷◌, Option, none, some, ℤ, get_elem?, drop, length, not, ltb}
use xl2tpd.Session.{c_string}
use xl2tpd.File.Text.{stored, atoi}
use xl2tpd.File.Entries
use xl2tpd.File.Entries.{LnsEntry, LacEntry}
use xl2tpd.File.Options.{Item, lns, lac, Outcome, ok, refused, overrun}
use xl2tpd.File.Sound.Lists.{put_at-All, get_elem-All}
use xl2tpd.File.Parse
use xl2tpd.Console.Line.{tokens, command_name, parse_one_line}
use xl2tpd.Console.State.{
  Lac, Console, ConsoleEnv, Handled, handled, crashed, with_code, Place, put_lns,
}
use xl2tpd.Console.State.{lac_entries, find_lns_by_name, at_default, at_place, activated, put_line}
use xl2tpd.Console.State
use xl2tpd.Console.Handlers
use xl2tpd.Console.Handlers.{modified, changed, modify, modify_line, lns_place, is_zero}
use xl2tpd.Console.Calls
use xl2tpd.Console.Calls.{
  tunnel_to, behind_space, named_line, find_line, with_authname, with_password, dial_line,
}
use xl2tpd.Console.Calls.{call_number, connect, outgoing_call, disconnect, disconnect_line}
use xl2tpd.Console.Sound.{IsGoodLine, IsGoodConsole, IsGoodHandled, IsGoodEnd}

modified-IsGoodHandled :
    (p : Place) (k : Console) (o : Outcome) → IsGoodConsole k → IsGoodHandled (modified p k o)
modified-IsGoodHandled at_default k (ok (lns e)) good = good
modified-IsGoodHandled (at_place i) k (ok (lns e)) good = good
modified-IsGoodHandled at_default k (refused (lns e)) good = good
modified-IsGoodHandled (at_place i) k (refused (lns e)) good = good
modified-IsGoodHandled p k (ok (Item.global g)) good = tt
modified-IsGoodHandled p k (ok (lac e)) good = tt
modified-IsGoodHandled p k (refused (Item.global g)) good = tt
modified-IsGoodHandled p k (refused (lac e)) good = tt
modified-IsGoodHandled p k overrun good = tt

pub lns_add_modify-IsGoodEnd :
    (env : ConsoleEnv) (mem : List ℕ) (k : Console)
    → IsGoodConsole k
    → IsGoodEnd (Handlers.control_handle_lns_add_modify env mem k)
unfolding Handlers.control_handle_lns_add_modify
lns_add_modify-IsGoodEnd env mem k good = by_name (command_name mem)
  where
    by_outcome :
        (p : Place) (k : Console) (o : Option Outcome) → IsGoodConsole k → IsGoodEnd (changed p k o)
    by_outcome p k none good = tt
    by_outcome p k (some o) good = modified-IsGoodHandled p k o good

    by_place :
        (name after : List ℕ) (o : Option (Place × LnsEntry))
        → IsGoodEnd (modify env after (lns_place k name o))
    by_place name after (some (p, e)) =
        by_outcome p k (parse_one_line env.fuel env.file after (lns e)) good
    by_place name after none =
        let e = record Entries.new_lns { entname = stored name } in
        by_outcome (at_place 0) (record k { lnslist = e ∷ k.lnslist })
          (parse_one_line env.fuel env.file after (lns e)) good

    by_name : (p : List ℕ × List ℕ) → IsGoodEnd (modify_line env p k)
    by_name ([], after) = tt
    by_name (b ∷ bs, after) = by_place (b ∷ bs) after (find_lns_by_name k (b ∷ bs))

-- The LAC that a command has found, if any.
abbrev IsGoodFound : Option (ℕ × Lac) → Type 0
IsGoodFound none = Unit
IsGoodFound (some (i, l)) = IsGoodLine l

find_line-IsGoodFound :
    (k : Console) (name : List ℕ) → IsGoodConsole k → IsGoodFound (find_line k name)
find_line-IsGoodFound k name good = by_index (Parse.find_lac name (lac_entries k))
  where
    by_line :
        (i : ℕ) (o : Option Lac)
        → get_elem? k.laclist i ≡ o
        → IsGoodFound (elim o as (λ x. Option (ℕ × Lac)) [ none ↦ none | some l ↦ some (i, l) ])
    by_line i none e = tt
    by_line i (some l) e = get_elem-All IsGoodLine k.laclist i l good e

    by_index : (o : Option ℕ) → IsGoodFound (named_line k.laclist o)
    by_index none = tt
    by_index (some i) = by_line i (get_elem? k.laclist i) refl

with-IsGoodLine :
    (authname password : Option (List ℕ)) (l : Lac)
    → IsGoodLine l
    → IsGoodLine (with_password password (with_authname authname l))
with-IsGoodLine none none l good = good
with-IsGoodLine none (some s) l good = good
with-IsGoodLine (some s) none l good = good
with-IsGoodLine (some s) (some t) l good = good

connect-IsGoodHandled :
    (env : ConsoleEnv) (name : List ℕ) (authname password : Option (List ℕ)) (k : Console)
    (o : Option (ℕ × Lac))
    → IsGoodConsole k
    → IsGoodFound o
    → IsGoodHandled (connect env name authname password k o)
connect-IsGoodHandled env name authname password k none good found =
    if-intro IsGoodHandled (is_zero (atoi name)) good good
connect-IsGoodHandled env name authname password k (some (i, l)) good found =
    let l1 = with_password password (with_authname authname (activated true l)) in
    let kept =
      put_at-All IsGoodLine k.laclist i l1 good
        (with-IsGoodLine authname password (activated true l) found) in
    if-intro IsGoodHandled l1.call kept kept

-- A handler that leaves the LACs good.
abbrev pub IsGoodHandler : (List ℕ → Console → Option Handled) → Type 0
IsGoodHandler h = (mem : List ℕ) (k : Console) → IsGoodConsole k → IsGoodEnd (h mem k)

pub lac_connect-IsGoodHandled :
    (env : ConsoleEnv) (mem : List ℕ) (k : Console)
    → IsGoodConsole k
    → IsGoodHandled (Calls.control_handle_lac_connect env mem k)
unfolding Calls.control_handle_lac_connect
lac_connect-IsGoodHandled env mem k good = by_tokens (tokens 32 (c_string (drop 1 mem)))
  where
    by_tokens :
        (ts : List (List ℕ))
        → IsGoodHandled (elim ts as (λ x. Handled) [
          | [] ↦ crashed
          | name ∷ more ↦
              connect env name
                (get_elem? more 0)
                (get_elem? more 1)
                (record k { switch_io = true })
                (find_line (record k { switch_io = true }) name)
        ])
    by_tokens [] = tt
    by_tokens (name ∷ more) =
        let k1 = record k { switch_io = true } in
        connect-IsGoodHandled env name (get_elem? more 0) (get_elem? more 1) k1 (find_line k1 name)
          good (find_line-IsGoodFound k1 name good)

outgoing_call-IsGoodHandled :
    (env : ConsoleEnv) (ts : List (List ℕ)) (k : Console)
    → IsGoodConsole k
    → IsGoodHandled (outgoing_call env ts k)
unfolding outgoing_call
outgoing_call-IsGoodHandled env [] k good = tt
outgoing_call-IsGoodHandled env (name ∷ []) k good = tt
outgoing_call-IsGoodHandled env (name ∷ dial_no ∷ more) k good =
    let k1 = record k { dial_no_tmp = dial_no } in
    if-intro IsGoodHandled (not (ltb (length dial_no) 128)) {x = crashed} tt (
      connect-IsGoodHandled env name none none k1 (find_line k1 name) good
        (find_line-IsGoodFound k1 name good))

-- A handler that wants what stands behind a space.
pub behind-IsGoodHandled :
    (o : Option (List ℕ)) (f : List ℕ → Handled)
    → ((s : List ℕ) → IsGoodHandled (f s))
    → IsGoodHandled (elim o as (λ x. Handled) [ none ↦ crashed | some s ↦ f s ])
behind-IsGoodHandled none f keep = tt
behind-IsGoodHandled (some s) f keep = keep s

pub lac_outgoing_call-IsGoodHandled :
    (env : ConsoleEnv) (mem : List ℕ) (k : Console)
    → IsGoodConsole k
    → IsGoodHandled (Calls.control_handle_lac_outgoing_call env mem k)
unfolding Calls.control_handle_lac_outgoing_call
lac_outgoing_call-IsGoodHandled env mem k good =
    behind-IsGoodHandled (behind_space mem)
      (λ s. outgoing_call env (tokens 32 s) (record k { switch_io = false }))
      (λ s. outgoing_call-IsGoodHandled env (tokens 32 s) (record k { switch_io = false }) good)

pub lac_hangup-IsGoodHandled :
    (mem : List ℕ) (k : Console)
    → IsGoodConsole k
    → IsGoodHandled (Calls.control_handle_lac_hangup mem k)
unfolding Calls.control_handle_lac_hangup
lac_hangup-IsGoodHandled mem k good =
    behind-IsGoodHandled (behind_space mem)
      (λ s. handled (with_code 0 (State.ask (State.lac_hangup (atoi s)) k))) (λ s. good)

pub lac_disconnect-IsGoodHandled :
    (mem : List ℕ) (k : Console)
    → IsGoodConsole k
    → IsGoodHandled (Calls.control_handle_lac_disconnect mem k)
unfolding Calls.control_handle_lac_disconnect
lac_disconnect-IsGoodHandled mem k good =
    behind-IsGoodHandled (behind_space mem) (λ s. disconnect s k (find_line k s))
      (λ s. by_line s (find_line k s) (find_line-IsGoodFound k s good))
  where
    by_tunnel : (i : ℕ) (l : Lac) → IsGoodLine l → IsGoodHandled (disconnect_line i l k)
    by_tunnel i l found = up l.tunnel
      where
        kept : IsGoodConsole (put_line i (activated false l) k)
        kept = put_at-All IsGoodLine k.laclist i (activated false l) good found

        up :
            (o : Option ℤ)
            → IsGoodHandled (elim o as (λ x. Handled) [
              | none ↦ handled (with_code 1 (put_line i (activated false l) k))
              | some tid ↦ handled (
                  with_code 0
                    (State.ask (State.lac_disconnect tid) (put_line i (activated false l) k)))
            ])
        up none = kept
        up (some tid) = kept

    by_line : (s : List ℕ) (o : Option (ℕ × Lac)) → IsGoodFound o → IsGoodHandled (disconnect s k o)
    by_line s (some (i, l)) found = by_tunnel i l found
    by_line s none found = if-intro IsGoodHandled (is_zero (atoi s)) good good

pub tunnel-IsGoodHandled :
    (env : ConsoleEnv) (mem : List ℕ) (k : Console)
    → IsGoodConsole k
    → IsGoodHandled (Calls.control_handle_tunnel env mem k)
unfolding Calls.control_handle_tunnel
tunnel-IsGoodHandled env mem k good =
    behind-IsGoodHandled (behind_space mem) (λ s. tunnel_to env s k (env.file.hosts s))
      (λ s. by_host s (env.file.hosts s))
  where
    by_host : (s : List ℕ) (o : Option ℕ) → IsGoodHandled (tunnel_to env s k o)
    by_host s none = tt
    by_host s (some a) = good
