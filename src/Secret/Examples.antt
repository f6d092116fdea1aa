-- ===== src/Secret/Examples.antt =====
-- A file of secrets at concrete inputs.
use xl2tpd.Base.{◌≡◌, refl, arith, List, [], ◌∷◌, map, some}
use xl2tpd.Secret.{get_secret, found}
use xl2tpd.Secret.Lines.{Entry, line_of, first_secret, AllEntries, get_secret_lem}

-- Two lines: for "a" and "b" the secret "c", for "d" and anyone "e".
abbrev entries : List Entry
entries =
    record { us = b'a' ∷ []; them = b'b' ∷ []; secret = b'c' ∷ [] }
    ∷ record { us = b'd' ∷ []; them = b'*' ∷ []; secret = b'e' ∷ [] }
    ∷ []

for_anyone : get_secret [] (some (map line_of entries)) (b'D' ∷ []) (b'x' ∷ []) ≡ found (b'e' ∷ [])
unfolding get_secret
for_anyone = refl

good_entries : AllEntries entries
good_entries = ground arith

get_secret_lem_example :
    get_secret [] (some (map line_of entries)) (b'D' ∷ []) (b'x' ∷ [])
    ≡ first_secret (b'D' ∷ []) (b'x' ∷ []) entries
get_secret_lem_example = get_secret_lem [] entries (b'D' ∷ []) (b'x' ∷ []) good_entries
