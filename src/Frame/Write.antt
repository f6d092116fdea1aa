-- ===== src/Frame/Write.antt =====
-- The frame that `write_packet` makes, and what reaches the pty.
use mathlib.Core.List.{append_assoc}
use mathlib.Core.Option.{none-ne-some, some_inj}
use xl2tpd.Base.{ℕ, ◌+◌, ◌*◌, ◌≤◌, ◌<◌, ◌≡◌, refl, sym, ap, ◌∙◌, arith, if◌then◌else◌}
use xl2tpd.Base.{
  leb, List, [], ◌∷◌, ◌++◌, Option, none, some, length, length-append, take, drop, take-append-drop,
}
use xl2tpd.Fcs.{add_fcs, fcs_bytes}
use xl2tpd.Frame.{
  behind, escaped, stuffed, frame, prefixed, ppp_flag, Wrote, wrote, again, failed, Status, sent,
}
use xl2tpd.Frame.{write_all}

pub length-escaped : (e : ℕ) → (1 ≤ length (escaped e)) × (length (escaped e) ≤ 2)
unfolding escaped
length-escaped e = (ground arith, ground arith)

-- The bytes without the check of the room.
abbrev pub unchecked : List ℕ → List ℕ
unchecked [] = ppp_flag ∷ []
unchecked (e ∷ es) = escaped e ++ unchecked es

-- Where there is room for two bytes each and the flag, nothing is refused.
pub stuffed_fits :
    (pos : ℕ) (es : List ℕ) → pos + 2 * length es ≤ 4093 → stuffed pos es ≡ some (unchecked es)
unfolding stuffed
stuffed_fits pos [] h = refl
stuffed_fits pos (e ∷ es) h =
    rw (stuffed_fits (pos + length (escaped e)) es (omega (arith, length-escaped e))) (ground arith)

-- One more byte in front of what is put behind it.
cons_bound :
    (pos : ℕ) (bytes w : List ℕ) (rest : Option (List ℕ))
    → (pos < 4092 → (v : List ℕ) → rest ≡ some v → pos + length bytes + length v ≤ 4096)
    → (if leb 4092 pos then none else prefixed bytes rest) ≡ some w
    → pos + length w ≤ 4096
cons_bound pos bytes w none ok e = absurd (none-ne-some w (ground (arith, e)))
cons_bound pos bytes w (some v) ok e =
    let small : pos < 4092 = ground (arith, e) in
    let same : length w ≡ length (bytes ++ v) = ap (λ (l : List ℕ). length l) (ground (arith, e)) in
    omega (arith, length-append bytes v, ok small v refl, same)

stuffed_bound :
    (pos : ℕ) (es w : List ℕ) → stuffed pos es ≡ some w → pos ≤ 4093 → pos + length w ≤ 4096
unfolding stuffed
stuffed_bound pos [] w e h = omega (arith, ap (λ (l : List ℕ). length l) (some_inj.0 e))
stuffed_bound pos (x ∷ es) w e h =
    cons_bound pos (escaped x) w (stuffed (pos + length (escaped x)) es)
      (λ small v eq.
        stuffed_bound (pos + length (escaped x)) es v eq (omega (arith, length-escaped x)))
      e

-- `wbuf` has 4096 bytes, and no frame is longer.
frame_bound : (bs w : List ℕ) → frame bs ≡ some w → length w ≤ 4096
unfolding frame
frame_bound bs w e =
    go (stuffed 1 (add_fcs bs)) (λ v eq. stuffed_bound 1 (add_fcs bs) v eq (omega arith)) e
  where
    go :
        (o : Option (List ℕ))
        → ((v : List ℕ) → o ≡ some v → 1 + length v ≤ 4096)
        → prefixed (ppp_flag ∷ []) o ≡ some w
        → length w ≤ 4096
    go none ok eq = absurd (none-ne-some w eq)
    go (some v) ok eq = omega (arith, ok v refl, ap (λ (l : List ℕ). length l) (some_inj.0 eq))

pub length-add_fcs : (bytes : List ℕ) → length (add_fcs bytes) ≡ length bytes + 2
unfolding add_fcs fcs_bytes
length-add_fcs bytes = omega (arith, length-append bytes (fcs_bytes bytes))

-- What the pty gets is always the front of the frame, and the whole of it if the result is
-- success, in whatever pieces the system takes it.
pub write_all_lem :
    (bs : List ℕ) (results : List Wrote) (out : List ℕ) (status : Status)
    → write_all bs results ≡ some (out, status)
    → (rest : List ℕ) × (bs ≡ out ++ rest) × (status ≡ sent → rest ≡ [])
unfolding write_all
write_all_lem [] results out status e = ([], ground (arith, e), λ h. refl)
write_all_lem (b ∷ bs) [] out status e = absurd (none-ne-some (out, status) e)
write_all_lem (b ∷ bs) (wrote n ∷ results) out status e =
    go (write_all (drop n (b ∷ bs)) results)
      (λ out' eq. write_all_lem (drop n (b ∷ bs)) results out' status eq) e
  where
    go :
        (o : Option (List ℕ × Status))
        → ((out' : List ℕ)
            → o ≡ some (out', status)
            → (rest : List ℕ) × (drop n (b ∷ bs) ≡ out' ++ rest) × (status ≡ sent → rest ≡ []))
        → behind (take n (b ∷ bs)) o ≡ some (out, status)
        → (rest : List ℕ) × (b ∷ bs ≡ out ++ rest) × (status ≡ sent → rest ≡ [])
    go none ok eq = absurd (none-ne-some (out, status) eq)
    go (some (out', status')) ok eq =
        let (rest, whole, done) = ok out' (ground (arith, eq)) in
        (
          rest,
          sym (take-append-drop n (b ∷ bs))
              ∙ ap (λ (l : List ℕ). take n (b ∷ bs) ++ l) whole
              ∙ sym (append_assoc (take n (b ∷ bs)) out' rest)
              ∙ ap (λ (l : List ℕ). l ++ rest) (ap (λ p. p.0) (some_inj.0 eq)),
          done,
        )
write_all_lem (b ∷ bs) (again ∷ results) out status e = write_all_lem (b ∷ bs) results out status e
write_all_lem (b ∷ bs) (failed ∷ results) out status e =
    let empty : [] ≡ out = ground (arith, e) in
    (b ∷ bs, ap (λ (l : List ℕ). l ++ (b ∷ bs)) empty, λ h. absurd (ground (arith, e, h)))
