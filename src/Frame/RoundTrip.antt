-- ===== src/Frame/RoundTrip.antt =====
-- What `write_packet` writes is what `read_packet` reads.
use mathlib.Core.List.{append_assoc, append-nil}
use xl2tpd.Base.{
  ℕ, ◌+◌, ◌-◌, ◌≤◌, ◌<◌, ◌≡◌, ◌≢◌, refl, sym, ap, ◌∙◌, Bool, true, false, arith, List, [], ◌∷◌,
  ◌++◌, some,
}
use xl2tpd.Base.{
  Bool-cases, inl, inr, ◌||◌, ltb, ◌==◌, length, length-append, take, take-length-append,
}
use xl2tpd.Fcs.{add_fcs, fcs_bytes}
use xl2tpd.Frame.{bytes, nothing, finished, Turn, stop, more, turn, chunk, read_loop, read_packet}
use xl2tpd.Frame.{escaped, xor_trans, frame, prefixed, ppp_flag, ppp_escape}
use xl2tpd.Frame.Write.{unchecked, stuffed_fits, length-add_fcs}
use xl2tpd.Frame.Read.{go_on, chunk-cons, pieces, joined, read_loop-pieces}

-- The bytes that are escaped.
abbrev pub is_special : ℕ → Bool
is_special e = ltb e 0x20 || e == ppp_escape || e == ppp_flag

turn-plain :
    (maxlen b : ℕ) (content rest : List ℕ)
    → is_special b ≡ false
    → length content < maxlen
    → turn maxlen false content b rest ≡ more false (content ++ (b ∷ []))
unfolding turn
turn-plain maxlen b content rest h room = ground arith

turn-xor_trans :
    (maxlen b : ℕ) (content rest : List ℕ)
    → is_special b ≡ true
    → length content < maxlen
    → turn maxlen true content (xor_trans b) rest ≡ more false (content ++ (b ∷ []))
unfolding turn
turn-xor_trans maxlen b content rest h room = ground arith

turn-ppp_escape :
    (maxlen : ℕ) (content rest : List ℕ)
    → turn maxlen false content ppp_escape rest ≡ more true content
unfolding turn
turn-ppp_escape maxlen content rest = refl

-- One byte that was put in is taken out.
chunk-escaped :
    (maxlen b : ℕ) (content rest : List ℕ)
    → length content < maxlen
    → chunk maxlen false content (escaped b ++ rest) ≡ chunk maxlen false (content ++ (b ∷ [])) rest
unfolding escaped
chunk-escaped maxlen b content rest room = elim (Bool-cases (is_special b)) [
  | inl h ↦
      rw (escaped, h)
        (chunk-cons maxlen false content ppp_escape (xor_trans b ∷ rest)
          ∙ ap (go_on maxlen (xor_trans b ∷ rest))
              (turn-ppp_escape maxlen content (xor_trans b ∷ rest))
          ∙ chunk-cons maxlen true content (xor_trans b) rest
          ∙ ap (go_on maxlen rest) (turn-xor_trans maxlen b content rest h room))
  | inr h ↦
      rw (escaped, h)
        (chunk-cons maxlen false content b rest
          ∙ ap (go_on maxlen rest) (turn-plain maxlen b content rest h room))
]

-- The content without the two bytes at its end.
abbrev without_fcs : List ℕ → Turn
without_fcs content = let n = length content - 2 in stop (finished n (take n content) [])

turn-ppp_flag :
    (maxlen : ℕ) (content : List ℕ)
    → 2 ≤ length content
    → turn maxlen false content ppp_flag [] ≡ without_fcs content
unfolding turn
turn-ppp_flag maxlen content two = ground arith

chunk-unchecked :
    (maxlen : ℕ) (es content : List ℕ)
    → length content + length es ≤ maxlen
    → 2 ≤ length content + length es
    → chunk maxlen false content (unchecked es) ≡ without_fcs (content ++ es)
unfolding chunk turn
chunk-unchecked maxlen [] content room two =
    chunk-cons maxlen false content ppp_flag []
    ∙ ap (go_on maxlen []) (turn-ppp_flag maxlen content (omega arith))
    ∙ ap without_fcs (sym (append-nil content))
chunk-unchecked maxlen (b ∷ es) content room two =
    chunk-escaped maxlen b content (unchecked es) (omega arith)
    ∙ chunk-unchecked maxlen es (content ++ (b ∷ []))
        (omega (arith, length-append content (b ∷ [])))
        (omega (arith, length-append content (b ∷ [])))
    ∙ ap without_fcs (append_assoc content (b ∷ []) es)

take-add_fcs : (bs : List ℕ) → take (length bs) (add_fcs bs) ≡ bs
unfolding add_fcs
take-add_fcs bs = take-length-append bs (fcs_bytes bs)

-- The opening flag is passed over.
chunk-frame :
    (maxlen : ℕ) (bs : List ℕ)
    → length bs + 2 ≤ maxlen
    → chunk maxlen false [] (ppp_flag ∷ unchecked (add_fcs bs)) ≡ stop (finished (length bs) bs [])
unfolding turn
chunk-frame maxlen bs room =
    chunk-cons maxlen false [] ppp_flag (unchecked (add_fcs bs))
    ∙ chunk-unchecked maxlen (add_fcs bs) [] (omega (arith, length-add_fcs bs))
        (omega (arith, length-add_fcs bs))
    ∙ ap (λ (n : ℕ). stop (finished n (take n (add_fcs bs)) [])) n
    ∙ ap (λ (l : List ℕ). stop (finished (length bs) l [])) (take-add_fcs bs)
  where
    n : length (add_fcs bs) - 2 ≡ length bs
    n = omega (arith, length-add_fcs bs)

-- The data of a packet, of at most 2044 bytes, is made into a frame: the data and its check
-- sequence with the special bytes escaped, between two flags. If just those bytes come to the pty
-- of a call that has read nothing yet, in pieces of at least one byte, however they are split,
-- `read_packet` gives back the data, without the check sequence, as long as its buffer has the
-- room for that too.
pub frame_round_trip :
    (bs : List ℕ) (maxlen : ℕ) (ps : List (ℕ × List ℕ))
    → length bs ≤ 2044
    → length bs + 2 ≤ maxlen
    → joined ps ≡ ppp_flag ∷ unchecked (add_fcs bs)
    → (frame bs ≡ some (joined ps))
      × (read_packet maxlen [] [] (pieces ps) ≡ some (finished (length bs) bs []))
unfolding frame read_packet
frame_round_trip bs maxlen ps small room e = (
  ap (prefixed (ppp_flag ∷ [])) (stuffed_fits 1 (add_fcs bs) (omega (arith, length-add_fcs bs)))
      ∙ ap some (sym e),
  read_loop-pieces maxlen 0 (length bs) false [] bs ps
      (ap (chunk maxlen false []) e ∙ chunk-frame maxlen bs room),
)

-- A frame split behind an escape at a moment when nothing more can be read: `read_packet` returns
-- 0 and forgets the escape, so the next call takes the byte behind it as it came, where one call
-- that reads both takes the byte that was sent, which is another.
escape_forgotten :
    (maxlen b : ℕ) (content : List ℕ)
    → length content < maxlen
    → is_special b ≡ true
    → (read_packet maxlen content [] (bytes ppp_escape (xor_trans b ∷ []) ∷ nothing ∷ [])
        ≡ some (finished 0 (content ++ (b ∷ [])) []))
      × (read_packet maxlen content [] (bytes ppp_escape [] ∷ nothing ∷ [])
          ≡ some (finished 0 content []))
      × (read_packet maxlen content [] (bytes (xor_trans b) [] ∷ nothing ∷ [])
          ≡ some (finished 0 (content ++ (xor_trans b ∷ [])) []))
      × (b ≢ xor_trans b)
unfolding read_packet read_loop chunk turn
escape_forgotten maxlen b content room special =
    (ground arith, refl, ground arith, λ e. ground (arith, e))
