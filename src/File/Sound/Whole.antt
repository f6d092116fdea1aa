-- ===== src/File/Sound/Whole.antt =====
-- The whole of `parse_config` (file.c): a configuration that is accepted is one that the rest of the
-- program can work with.
use xl2tpd.Base.{ℕ, ◌≡◌, inl, refl, not, ◌&&◌}
use xl2tpd.Base.{if-intro, ◌==◌, List, [], ◌∷◌, Option, none, some, All, get_elem?}
use xl2tpd.Session.{c_string}
use xl2tpd.Secret.{same_name}
use xl2tpd.File.Text.{bytes, stored, skip_blank, strip_end, split_at}
use xl2tpd.File.Entries.{LnsEntry, LacEntry, new_lns, new_lac}
use xl2tpd.File.Options.{FileEnv}
use xl2tpd.File.Parse.{at}
use xl2tpd.File.Settings.{at_global, at_lns, at_deflns, at_lac, at_deflac, Settings}
use xl2tpd.File.Parse.{find_lns}
use xl2tpd.File.Settings.{Parser, Parsed, going, rejected, astray, put_at}
use xl2tpd.File.Parse.{find_lac, rename_lns, rename_lac, lns_section, lac_section, deflns_section}
use xl2tpd.File.Parse.{open_section, section_line, trimmed_line, ends_line, has_comment, text_of}
use xl2tpd.File.Parse.{parse_piece, and_then, parse_pieces, initial, parse_config, is_default}
use xl2tpd.File.Sound.{IsGoodLns, IsGoodLac}
use xl2tpd.File.Sound.Lists.{IsGoodSettings, IsGoodParsed, put_at-All, get_elem-All}
use xl2tpd.File.Sound.Lists.{option_line-IsGoodParsed}

new_lns-IsGood : IsGoodLns new_lns
unfolding new_lns
new_lns-IsGood = (refl, refl, refl, tt, tt, tt, inl refl)

new_lac-IsGood : IsGoodLac new_lac
unfolding new_lac
new_lac-IsGood = (refl, refl)

renamed_lns-All :
    (d : List ℕ) (es : List LnsEntry) (i : ℕ) (o : Option LnsEntry)
    → All IsGoodLns es
    → get_elem? es i ≡ o
    → All IsGoodLns (elim o as (λ x. List LnsEntry) [
      | none ↦ es
      | some e ↦ put_at es i (record e { entname = stored d })
    ])
renamed_lns-All d es i none all h = all
renamed_lns-All d es i (some e) all h =
    put_at-All IsGoodLns es i (record e { entname = stored d }) all
      (get_elem-All IsGoodLns es i e all h)

renamed_lac-All :
    (d : List ℕ) (es : List LacEntry) (i : ℕ) (o : Option LacEntry)
    → All IsGoodLac es
    → get_elem? es i ≡ o
    → All IsGoodLac (elim o as (λ x. List LacEntry) [
      | none ↦ es
      | some e ↦ put_at es i (record e { entname = stored d })
    ])
renamed_lac-All d es i none all h = all
renamed_lac-All d es i (some e) all h =
    put_at-All IsGoodLac es i (record e { entname = stored d }) all
      (get_elem-All IsGoodLac es i e all h)

lns_section-IsGoodParsed :
    (p : Parser) (d : Option (List ℕ)) → IsGoodSettings p.settings → IsGoodParsed (lns_section p d)
unfolding lns_section new_lns
lns_section-IsGoodParsed p none (n, l, f) = ((new_lns-IsGood, n), l, f)
lns_section-IsGoodParsed p (some d) (n, l, f) = found (find_lns d p.settings.lnslist)
  where
    found :
        (o : Option ℕ)
        → IsGoodParsed (elim o as (λ x. Parsed) [
          | none ↦
              at p
                (record (p.settings) {
                  lnslist = record new_lns { entname = stored d } ∷ p.settings.lnslist;
                })
                (at_lns 0)
          | some i ↦
              at p (record (p.settings) { lnslist = rename_lns d p.settings.lnslist i }) (at_lns i)
        ])
    found none = ((new_lns-IsGood, n), l, f)
    found (some i) =
        (renamed_lns-All d p.settings.lnslist i (get_elem? p.settings.lnslist i) n refl, l, f)

lac_section-IsGoodParsed :
    (p : Parser) (d : Option (List ℕ)) → IsGoodSettings p.settings → IsGoodParsed (lac_section p d)
unfolding lac_section new_lac
lac_section-IsGoodParsed p none (n, l, f) = (n, (new_lac-IsGood, l), f)
lac_section-IsGoodParsed p (some d) (n, l, f) = found (find_lac d p.settings.laclist)
  where
    found :
        (o : Option ℕ)
        → IsGoodParsed (elim o as (λ x. Parsed) [
          | none ↦
              at p
                (record (p.settings) {
                  laclist = record new_lac { entname = stored d } ∷ p.settings.laclist;
                })
                (at_lac 0)
          | some i ↦
              at p (record (p.settings) { laclist = rename_lac d p.settings.laclist i }) (at_lac i)
        ])
    found none = (n, (new_lac-IsGood, l), f)
    found (some i) =
        (n, renamed_lac-All d p.settings.laclist i (get_elem? p.settings.laclist i) l refl, f)

deflns_section-IsGoodParsed :
    (p : Parser) → IsGoodSettings p.settings → IsGoodParsed (deflns_section p)
unfolding deflns_section new_lns
deflns_section-IsGoodParsed p (n, l, f) = made p.settings.deflns
  where
    made :
        (o : Option LnsEntry)
        → IsGoodParsed (elim o as (λ x. Parsed) [
          | none ↦
              at p
                (record (p.settings) {
                  deflns = some (record new_lns { entname = bytes "default" });
                })
                at_deflns
          | some e ↦ at p p.settings at_deflns
        ])
    made none = (n, l, new_lns-IsGood)
    made (some e) = (n, l, f)

open_section-IsGoodParsed :
    (p : Parser) (kind : List ℕ) (d : Option (List ℕ))
    → IsGoodSettings p.settings
    → IsGoodParsed (open_section p kind d)
unfolding open_section
open_section-IsGoodParsed p kind d good =
    let p1 = record p { def = is_default d } in
    if-intro IsGoodParsed (same_name kind (bytes "global")) {x = at p1 p.settings at_global} good (
      if-intro IsGoodParsed (same_name kind (bytes "lns"))
        (if-intro IsGoodParsed (is_default d) (deflns_section-IsGoodParsed p1 good)
          (lns_section-IsGoodParsed p1 d good))
        (if-intro IsGoodParsed (same_name kind (bytes "lac")) {y = rejected p.settings}
          (if-intro IsGoodParsed (is_default d) {x = at p1 p.settings at_deflac} good
            (lac_section-IsGoodParsed p1 d good))
          tt))

section_line-IsGoodParsed :
    (p : Parser) (s : List ℕ) → IsGoodSettings p.settings → IsGoodParsed (section_line p s)
unfolding section_line
section_line-IsGoodParsed p s good = brackets (split_at b']' s)
  where
    inside :
        (inner : List ℕ) (o : Option (List ℕ × List ℕ))
        → IsGoodParsed (elim o as (λ x. Parsed) [
          | none ↦ open_section p inner none
          | some (kind, d) ↦ open_section p kind (some d)
        ])
    inside inner none = open_section-IsGoodParsed p inner none good
    inside inner (some (kind, d)) = open_section-IsGoodParsed p kind (some d) good

    brackets :
        (o : Option (List ℕ × List ℕ))
        → IsGoodParsed (elim o as (λ x. Parsed) [
          | none ↦ rejected p.settings
          | some (inner, behind) ↦ elim (split_at 32 inner) as (λ x. Parsed) [
            | none ↦ open_section p inner none
            | some (kind, d) ↦ open_section p kind (some d)
          ]
        ])
    brackets none = tt
    brackets (some (inner, behind)) = inside inner (split_at 32 inner)

module _ (env : FileEnv) where
  trimmed_line-IsGoodParsed :
      (p : Parser) (s : List ℕ) → IsGoodSettings p.settings → IsGoodParsed (trimmed_line env p s)
  unfolding trimmed_line
  trimmed_line-IsGoodParsed p [] good = good
  trimmed_line-IsGoodParsed p (b ∷ bs) good =
      if-intro IsGoodParsed (b == b'[') (section_line-IsGoodParsed p bs good)
        (option_line-IsGoodParsed env p (b ∷ bs) good)

  parse_piece-IsGoodParsed :
      (p : Parser) (s : List ℕ) → IsGoodSettings p.settings → IsGoodParsed (parse_piece env p s)
  unfolding parse_piece
  parse_piece-IsGoodParsed p [] good = tt
  parse_piece-IsGoodParsed p (b ∷ bs) good =
      let buf = b ∷ bs in
      let p1 = record p { in_comment = has_comment buf && not (ends_line buf) } in
      if-intro IsGoodParsed p.in_comment {x = going (record p { in_comment = not (ends_line buf) })}
        good (trimmed_line-IsGoodParsed p1 (strip_end (skip_blank (text_of buf))) good)

  then-IsGoodParsed :
      (k : Parser → Parsed) (r : Parsed)
      → IsGoodParsed r
      → ((p : Parser) → IsGoodSettings p.settings → IsGoodParsed (k p))
      → IsGoodParsed (and_then r k)
  then-IsGoodParsed k (going p) good next = next p good
  then-IsGoodParsed k (rejected c) good next = tt
  then-IsGoodParsed k astray good next = tt

  parse_pieces-IsGoodParsed :
      (p : Parser) (pieces : List (List ℕ))
      → IsGoodSettings p.settings
      → IsGoodParsed (parse_pieces env p pieces)
  unfolding parse_pieces
  parse_pieces-IsGoodParsed p [] good = good
  parse_pieces-IsGoodParsed p (piece ∷ pieces) good =
      then-IsGoodParsed (λ p1. parse_pieces env p1 pieces) (parse_piece env p (c_string piece))
        (parse_piece-IsGoodParsed p (c_string piece) good)
        (λ p1 good1. parse_pieces-IsGoodParsed p1 pieces good1)

  -- A configuration that `parse_config` accepts, whatever the file holds, is good if what was there
  -- before was: each LNS of the list, and the default one, has a positive window and speeds, no
  -- range that is backwards, and not both an own address and a range of them; each LAC of the list
  -- has a positive window and a positive time before it redials.
  pub parse_config-IsGoodParsed :
      (c : Settings) (pieces : List (List ℕ))
      → IsGoodSettings c
      → IsGoodParsed (parse_config env c pieces)
  unfolding parse_config
  parse_config-IsGoodParsed c pieces good = parse_pieces-IsGoodParsed (initial c) pieces good
