-- ===== src/Frame/Examples.antt =====
-- A small frame written and read, and the theorems at concrete inputs.
use xl2tpd.Base.{ℕ, ◌≡◌, refl, arith, true, List, [], ◌∷◌, ◌++◌, some}
use xl2tpd.Fcs.{add_fcs}
use xl2tpd.Frame.{Status, sent, wrote, again, escaped, frame, write_all, write_packet}
use xl2tpd.Frame.{finished, read_packet}
use xl2tpd.Frame.Write.{write_all_lem}
use xl2tpd.Frame.Read.{pieces}
use xl2tpd.Frame.RoundTrip.{frame_round_trip}

-- The start of an LCP packet; 3 is escaped.
abbrev lcp : List ℕ
lcp = 0xff ∷ 3 ∷ 0xc0 ∷ []

abbrev framed : List ℕ
framed = 0x7e ∷ 0xff ∷ 0x7d ∷ 0x23 ∷ 0xc0 ∷ 0x5b ∷ 0xec ∷ 0x7e ∷ []

frame_bytes : frame lcp ≡ some framed
unfolding frame add_fcs
frame_bytes = refl

written_in_two : write_packet true lcp (wrote 3 ∷ again ∷ wrote 5 ∷ []) ≡ some (framed, sent)
unfolding write_packet frame add_fcs
written_in_two = refl

write_all_lem_example :
    (rest : List ℕ) × (framed ≡ framed ++ rest) × (◌≡◌ {A = Status} sent sent → rest ≡ [])
unfolding write_all
write_all_lem_example = write_all_lem framed (wrote 3 ∷ again ∷ wrote 5 ∷ []) framed sent refl

-- Two reads that split the frame behind the escape.
abbrev halves : List (ℕ × List ℕ)
halves = (0x7e, 0xff ∷ 0x7d ∷ []) ∷ (0x23, 0xc0 ∷ 0x5b ∷ 0xec ∷ 0x7e ∷ []) ∷ []

frame_round_trip_example :
    (frame lcp ≡ some framed) × (read_packet 4096 [] [] (pieces halves) ≡ some (finished 3 lcp []))
unfolding add_fcs escaped
frame_round_trip_example = frame_round_trip lcp 4096 halves (omega arith) (omega arith) refl
