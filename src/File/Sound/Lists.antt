-- ===== src/File/Sound/Lists.antt =====
-- What `parse_config` (file.c) has read so far stays good when an option is put into an entry.
use mathlib.Core.Path.{subst}
use mathlib.Core.Option.{some-injective}
use xl2tpd.Base.{ℕ, zero, suc, ◌≡◌, ◌⊎◌, inl, inr, refl, sym, arith}
use xl2tpd.Base.{List, [], ◌∷◌, Option, none, some, All, get_elem?}
use xl2tpd.File.Text.{skip_blank, strip_end, split_at}
use xl2tpd.File.Entries.{LnsEntry, LacEntry}
use xl2tpd.File.Options.{Item, lns, lac, Outcome, ok, refused, overrun, FileEnv}
use xl2tpd.File.Keywords.{parse_one_option}
use xl2tpd.File.Settings.{
  Pointer, nowhere, at_global, at_lns, at_deflns, at_lac, at_deflac, Settings,
}
use xl2tpd.File.Settings.{
  Parser, Parsed, going, rejected, astray, put_at, lns_item, lac_item, item_at,
}
use xl2tpd.File.Parse.{apply_option, option_line}
use xl2tpd.File.Settings.{put_item, settle}
use xl2tpd.File.Sound.{IsGoodLns, IsGoodLac, IsGoodItem}
use xl2tpd.File.Sound.Words.{IsGoodAnswer, parse_one_option-IsGoodAnswer}

abbrev pub IsGoodDefault : Option LnsEntry → Type 0
IsGoodDefault none = Unit
IsGoodDefault (some e) = IsGoodLns e

-- Every entry of the two lists, and the default LNS.
abbrev pub IsGoodSettings : Settings → Type 0
IsGoodSettings c = All IsGoodLns c.lnslist × All IsGoodLac c.laclist × IsGoodDefault c.deflns

abbrev pub IsGoodParsed : Parsed → Type 0
IsGoodParsed (going p) = IsGoodSettings p.settings
IsGoodParsed (rejected c) = Unit
IsGoodParsed astray = Unit

module _ {A : Type 0} (P : A → Type 0) where
  pub put_at-All : (xs : List A) (i : ℕ) (x : A) → All P xs → P x → All P (put_at xs i x)
  put_at-All [] i x all h = tt
  put_at-All (y ∷ ys) zero x (first, all) h = (h, all)
  put_at-All (y ∷ ys) (suc i) x (first, all) h = (first, put_at-All ys i x all h)

  pub get_elem-All : (xs : List A) (i : ℕ) (x : A) → All P xs → get_elem? xs i ≡ some x → P x
  get_elem-All [] i x all e = ground (arith, e)
  get_elem-All (y ∷ ys) zero x (first, all) e = subst P (some-injective y x e) first
  get_elem-All (y ∷ ys) (suc i) x (first, all) e = get_elem-All ys i x all e

abbrev IsGoodFound : Option Item → Type 0
IsGoodFound none = Unit
IsGoodFound (some i) = IsGoodItem i

lns_item-IsGoodFound :
    (o : Option LnsEntry) → ((e : LnsEntry) → o ≡ some e → IsGoodLns e) → IsGoodFound (lns_item o)
lns_item-IsGoodFound none good = tt
lns_item-IsGoodFound (some e) good = good e refl

lac_item-IsGoodFound :
    (o : Option LacEntry) → ((e : LacEntry) → o ≡ some e → IsGoodLac e) → IsGoodFound (lac_item o)
lac_item-IsGoodFound none good = tt
lac_item-IsGoodFound (some e) good = good e refl

put_item-IsGoodSettings :
    (c : Settings) (place : Pointer) (i : Item)
    → IsGoodSettings c
    → IsGoodItem i
    → IsGoodSettings (put_item c place i)
unfolding put_item
put_item-IsGoodSettings c nowhere i good h = good
put_item-IsGoodSettings c at_global (Item.global g) good h = good
put_item-IsGoodSettings c at_global (lns e) good h = good
put_item-IsGoodSettings c at_global (lac e) good h = good
put_item-IsGoodSettings c (at_lns k) (Item.global g) good h = good
put_item-IsGoodSettings c (at_lns k) (lns e) (n, l, d) h =
    (put_at-All IsGoodLns c.lnslist k e n h, l, d)
put_item-IsGoodSettings c (at_lns k) (lac e) good h = good
put_item-IsGoodSettings c at_deflns (Item.global g) good h = good
put_item-IsGoodSettings c at_deflns (lns e) (n, l, d) h = (n, l, h)
put_item-IsGoodSettings c at_deflns (lac e) good h = good
put_item-IsGoodSettings c (at_lac k) (Item.global g) good h = good
put_item-IsGoodSettings c (at_lac k) (lns e) good h = good
put_item-IsGoodSettings c (at_lac k) (lac e) (n, l, d) h =
    (n, put_at-All IsGoodLac c.laclist k e l h, d)
put_item-IsGoodSettings c at_deflac (Item.global g) good h = good
put_item-IsGoodSettings c at_deflac (lns e) good h = good
put_item-IsGoodSettings c at_deflac (lac e) good h = good

-- The default LAC has no part in what is good.
put_deflac-IsGoodSettings :
    (c : Settings) (i : Item) → IsGoodSettings c → IsGoodSettings (put_item c at_deflac i)
unfolding put_item
put_deflac-IsGoodSettings c (Item.global g) good = good
put_deflac-IsGoodSettings c (lns e) good = good
put_deflac-IsGoodSettings c (lac e) good = good

settle-IsGoodParsed :
    (p : Parser) (o : Option Outcome)
    → IsGoodSettings p.settings
    → IsGoodAnswer o
    → IsGoodParsed (settle p o)
unfolding settle
settle-IsGoodParsed p none good h = tt
settle-IsGoodParsed p (some overrun) good h = tt
settle-IsGoodParsed p (some (refused i)) good h = tt
settle-IsGoodParsed p (some (ok i)) good h = put_item-IsGoodSettings p.settings p.place i good h

settle_deflac-IsGoodParsed :
    (p : Parser) (o : Option Outcome)
    → p.place ≡ at_deflac
    → IsGoodSettings p.settings
    → IsGoodParsed (settle p o)
unfolding settle
settle_deflac-IsGoodParsed p none e good = tt
settle_deflac-IsGoodParsed p (some overrun) e good = tt
settle_deflac-IsGoodParsed p (some (refused i)) e good = tt
settle_deflac-IsGoodParsed p (some (ok i)) e good =
    subst (λ (place : Pointer). IsGoodSettings (put_item p.settings place i)) (sym e)
      (put_deflac-IsGoodSettings p.settings i good)

item_at-IsGoodFound :
    (c : Settings) (place : Pointer)
    → IsGoodSettings c
    → (place ≡ at_deflac) ⊎ IsGoodFound (item_at c place)
unfolding item_at
item_at-IsGoodFound c nowhere good = inr tt
item_at-IsGoodFound c at_global good = inr tt
item_at-IsGoodFound c (at_lns i) (n, l, d) =
    inr (
      lns_item-IsGoodFound (get_elem? c.lnslist i)
        (λ e h. get_elem-All IsGoodLns c.lnslist i e n h))
item_at-IsGoodFound c at_deflns (n, l, d) =
    inr (lns_item-IsGoodFound c.deflns (λ e h. subst IsGoodDefault h d))
item_at-IsGoodFound c (at_lac i) (n, l, d) =
    inr (
      lac_item-IsGoodFound (get_elem? c.laclist i)
        (λ e h. get_elem-All IsGoodLac c.laclist i e l h))
item_at-IsGoodFound c at_deflac good = inl refl

module _ (env : FileEnv) where
  applied-IsGoodParsed :
      (p : Parser) (word value : List ℕ) (o : Option Item)
      → IsGoodSettings p.settings
      → (p.place ≡ at_deflac) ⊎ IsGoodFound o
      → IsGoodParsed (elim o as (λ x. Parsed) [
        | none ↦ rejected p.settings
        | some i ↦ settle p (parse_one_option env p.def word value i)
      ])
  applied-IsGoodParsed p word value none good found = tt
  applied-IsGoodParsed p word value (some i) good (inl default) =
      settle_deflac-IsGoodParsed p (parse_one_option env p.def word value i) default good
  applied-IsGoodParsed p word value (some i) good (inr h) =
      settle-IsGoodParsed p (parse_one_option env p.def word value i) good
        (parse_one_option-IsGoodAnswer env p.def word value i h)

  apply_option-IsGoodParsed :
      (p : Parser) (word value : List ℕ)
      → IsGoodSettings p.settings
      → IsGoodParsed (apply_option env p word value)
  unfolding apply_option
  apply_option-IsGoodParsed p word value good =
      applied-IsGoodParsed p word value (item_at p.settings p.place) good
        (item_at-IsGoodFound p.settings p.place good)

  pub option_line-IsGoodParsed :
      (p : Parser) (s : List ℕ) → IsGoodSettings p.settings → IsGoodParsed (option_line env p s)
  unfolding option_line
  option_line-IsGoodParsed p s good = line p.place (split_at b'=' s)
    where
      split :
          (o : Option (List ℕ × List ℕ))
          → IsGoodParsed (elim o as (λ x. Parsed) [
            | none ↦ rejected p.settings
            | some (word, value) ↦ apply_option env p (strip_end word) (skip_blank value)
          ])
      split none = tt
      split (some (word, value)) =
          apply_option-IsGoodParsed p (strip_end word) (skip_blank value) good

      line :
          (place : Pointer) (o : Option (List ℕ × List ℕ))
          → IsGoodParsed (elim place as (λ x. Parsed) [
            | nowhere ↦ rejected p.settings
            | other ↦ elim o as (λ x. Parsed) [
              | none ↦ rejected p.settings
              | some (word, value) ↦ apply_option env p (strip_end word) (skip_blank value)
            ]
          ])
      line nowhere o = tt
      line at_global o = split o
      line (at_lns i) o = split o
      line at_deflns o = split o
      line (at_lac i) o = split o
      line at_deflac o = split o
