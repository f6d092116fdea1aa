-- ===== src/Frame/Read.antt =====
-- Reading in pieces: what `read_packet` makes of bytes does not depend on how `read` splits them.
use xl2tpd.Base.{ℕ, ◌≡◌, refl, sym, ap, ◌∙◌, Bool, arith, List, [], ◌∷◌, ◌++◌, Option, some}
use xl2tpd.Frame.{Got, bytes, Outcome, finished, invalid, dead, Turn, stop, more}
use xl2tpd.Frame.{turn, chunk, read_loop}

-- The same outcome with more bytes left in `rbuf`.
abbrev pub with_left : Outcome → List ℕ → Outcome
with_left (finished n content left) ys = finished n content (left ++ ys)
with_left (invalid content) ys = invalid content
with_left (dead content) ys = dead content

abbrev pub resumed : ℕ → List ℕ → Turn → Turn
resumed maxlen ys (stop o) = stop (with_left o ys)
resumed maxlen ys (more escape content) = chunk maxlen escape content ys

abbrev with_rest : Turn → List ℕ → Turn
with_rest (stop o) ys = stop (with_left o ys)
with_rest (more escape content) ys = more escape content

turn-append :
    (maxlen : ℕ) (escape : Bool) (content : List ℕ) (ch : ℕ) (xs ys : List ℕ)
    → turn maxlen escape content ch (xs ++ ys) ≡ with_rest (turn maxlen escape content ch xs) ys
unfolding turn
turn-append maxlen escape content ch xs ys = ground arith

-- The rest of the bytes, after one.
abbrev pub go_on : ℕ → List ℕ → Turn → Turn
go_on maxlen rest (stop o) = stop o
go_on maxlen rest (more escape content) = chunk maxlen escape content rest

pub chunk-cons :
    (maxlen : ℕ) (escape : Bool) (content : List ℕ) (ch : ℕ) (rest : List ℕ)
    → chunk maxlen escape content (ch ∷ rest)
      ≡ go_on maxlen rest (turn maxlen escape content ch rest)
unfolding chunk
chunk-cons maxlen escape content ch rest = refl

go_on-append :
    (maxlen : ℕ) (xs ys : List ℕ) (t : Turn)
    → ((escape : Bool) (content : List ℕ)
        → chunk maxlen escape content (xs ++ ys)
          ≡ resumed maxlen ys (chunk maxlen escape content xs))
    → go_on maxlen (xs ++ ys) (with_rest t ys) ≡ resumed maxlen ys (go_on maxlen xs t)
go_on-append maxlen xs ys (stop o) ih = refl
go_on-append maxlen xs ys (more escape content) ih = ih escape content

pub chunk-append :
    (maxlen : ℕ) (escape : Bool) (content xs ys : List ℕ)
    → chunk maxlen escape content (xs ++ ys) ≡ resumed maxlen ys (chunk maxlen escape content xs)
unfolding chunk
chunk-append maxlen escape content [] ys = refl
chunk-append maxlen escape content (ch ∷ xs) ys =
    chunk-cons maxlen escape content ch (xs ++ ys)
    ∙ ap (go_on maxlen (xs ++ ys)) (turn-append maxlen escape content ch xs ys)
    ∙ go_on-append maxlen xs ys (turn maxlen escape content ch xs)
        (λ escape' content'. chunk-append maxlen escape' content' xs ys)
    ∙ ap (resumed maxlen ys) (sym (chunk-cons maxlen escape content ch xs))

-- What comes from some reads that give bytes.
abbrev pub pieces : List (ℕ × List ℕ) → List Got
pieces [] = []
pieces ((b, bs) ∷ ps) = bytes b bs ∷ pieces ps

abbrev pub joined : List (ℕ × List ℕ) → List ℕ
joined [] = []
joined ((b, bs) ∷ ps) = b ∷ (bs ++ joined ps)

abbrev loop_on : ℕ → ℕ → List Got → Turn → Option Outcome
loop_on errors maxlen reads (stop o) = some o
loop_on errors maxlen reads (more escape content) = read_loop errors maxlen escape content reads

-- Nothing is left where the end has come.
stop_left :
    (o : Outcome) (ys : List ℕ) (n : ℕ) (result : List ℕ)
    → stop (with_left o ys) ≡ stop (finished n result [])
    → o ≡ finished n result []
stop_left (finished m content []) ys n result e = ground (arith, e)
stop_left (finished m content (l ∷ left)) ys n result e = absurd (ground (arith, e))
stop_left (invalid content) ys n result e = absurd (ground (arith, e))
stop_left (dead content) ys n result e = absurd (ground (arith, e))

pub read_loop-pieces :
    (maxlen errors n : ℕ) (escape : Bool) (content result : List ℕ) (ps : List (ℕ × List ℕ))
    → chunk maxlen escape content (joined ps) ≡ stop (finished n result [])
    → read_loop errors maxlen escape content (pieces ps) ≡ some (finished n result [])
unfolding read_loop chunk
read_loop-pieces maxlen errors n escape content result [] e = absurd (ground (arith, e))
read_loop-pieces maxlen errors n escape content result ((b, bs) ∷ ps) e =
    go (chunk maxlen escape content (b ∷ bs))
      (sym (chunk-append maxlen escape content (b ∷ bs) (joined ps)) ∙ e)
      (λ escape' content' e'. read_loop-pieces maxlen errors n escape' content' result ps e')
  where
    go :
        (t : Turn)
        → resumed maxlen (joined ps) t ≡ stop (finished n result [])
        → ((escape' : Bool) (content' : List ℕ)
            → chunk maxlen escape' content' (joined ps) ≡ stop (finished n result [])
            → read_loop errors maxlen escape' content' (pieces ps) ≡ some (finished n result []))
        → loop_on errors maxlen (pieces ps) t ≡ some (finished n result [])
    go (stop o) eq ih = ap some (stop_left o (joined ps) n result eq)
    go (more escape' content') eq ih = ih escape' content' eq
