-- ===== src/File/Settings.antt =====
-- What `parse_config` (file.c) changes: the lists of entries, the variables of its loop, and the
-- entry that `data` points to.
use xl2tpd.Base.{ℕ, zero, suc, Bool}
use xl2tpd.Base.{List, [], ◌∷◌, Option, none, some, get_elem?}
use xl2tpd.File.Entries.{Global, LnsEntry, LacEntry}
use xl2tpd.File.Options.{Item, lns, lac, Outcome, ok, refused, overrun}

-- What `data` points to: nothing, `gconfig`, an entry of a list by its place there, or a default
-- entry. The context goes with it.
pub data Pointer : Type 0 where
  nowhere : Pointer
  at_global : Pointer
  at_lns : ℕ → Pointer
  at_deflns : Pointer
  at_lac : ℕ → Pointer
  at_deflac : Pointer

-- `gconfig`, `lnslist`, `laclist`, `deflns` and `deflac`.
pub record Settings : Type 0 where
  pub global : Global
  pub lnslist : List LnsEntry
  pub laclist : List LacEntry
  pub deflns : Option LnsEntry
  pub deflac : LacEntry

-- The variables of the loop; `def` is whether the section is for defaults.
pub record Parser : Type 0 where
  pub settings : Settings
  pub place : Pointer
  pub def : Bool
  pub in_comment : Bool

-- The result 0, the result -1, or an access past an array.
pub data Parsed : Type 0 where
  going : Parser → Parsed
  rejected : Settings → Parsed
  astray : Parsed

abbrev pub put_at {ℓ} : {A : Type ℓ} → List A → ℕ → A → List A
put_at [] i x = []
put_at (y ∷ ys) zero x = x ∷ ys
put_at (y ∷ ys) (suc i) x = y ∷ put_at ys i x

abbrev pub lns_item : Option LnsEntry → Option Item
lns_item none = none
lns_item (some e) = some (lns e)

abbrev pub lac_item : Option LacEntry → Option Item
lac_item none = none
lac_item (some e) = some (lac e)

-- `*data`
unfoldable pub item_at : Settings → Pointer → Option Item
item_at c nowhere = none
item_at c at_global = some (Item.global c.global)
item_at c (at_lns i) = lns_item (get_elem? c.lnslist i)
item_at c at_deflns = lns_item c.deflns
item_at c (at_lac i) = lac_item (get_elem? c.laclist i)
item_at c at_deflac = some (lac c.deflac)

-- The object is changed where it is.
unfoldable pub put_item : Settings → Pointer → Item → Settings
put_item c at_global (Item.global g) = record c { global = g }
put_item c (at_lns i) (lns e) = record c { lnslist = put_at c.lnslist i e }
put_item c at_deflns (lns e) = record c { deflns = some e }
put_item c (at_lac i) (lac e) = record c { laclist = put_at c.laclist i e }
put_item c at_deflac (lac e) = record c { deflac = e }
put_item c p i = c

-- What a handler's result does to the loop.
unfoldable pub settle : Parser → Option Outcome → Parsed
unfolding put_item
settle p none = rejected p.settings
settle p (some overrun) = astray
settle p (some (refused i)) = rejected (put_item p.settings p.place i)
settle p (some (ok i)) = going (record p { settings = put_item p.settings p.place i })
