-- ===== src/Secret/Lines.antt =====
-- A file of secrets whose lines are as they should be: three words with a space between, and the
-- end of the line. `get_secret` (aaa.c) gives the secret of the first one for the two names.
use mathlib.Core.List.{append_assoc}
use xl2tpd.Secret.Clean.{AllClean, IsWord, strip_comments-AllClean, strip_trailing-AllClean}
use xl2tpd.Secret.Clean.{strip_trailing-space, advance_word, advance_later_word}
use xl2tpd.Secret.Clean.{c_string-AllClean}
use xl2tpd.Base.{ℕ, ◌+◌, ◌≡◌, refl, ap, ◌∙◌, arith, ◌&&◌}
use xl2tpd.Base.{List, [], ◌∷◌, ◌++◌, map, some, length, drop, if◌then◌else◌}
use xl2tpd.Secret.{strip_comments, strip_trailing}
use xl2tpd.Secret.{entry, overwrite, second_word, third_word, parse_line, matches, Lookup}
use xl2tpd.Secret.{missed, found, search_lines, get_secret}

-- The line behind its comment and its end: the NULs come at `junk`.
abbrev pub stripped : List ℕ → List ℕ → List ℕ → List ℕ → List ℕ
stripped us them secret junk = us ++ (32 ∷ (them ++ (32 ∷ (secret ++ (0 ∷ junk)))))

third_word-entry :
    (before us them secret junk : List ℕ)
    → IsWord secret
    → third_word before us them (32 ∷ (secret ++ (0 ∷ junk)))
      ≡ entry us them secret (before ++ (them ++ (0 ∷ (secret ++ (0 ∷ junk)))))
unfolding third_word
third_word-entry before us them [] junk none_such = elim none_such [ ]
third_word-entry before us them (b ∷ w) junk (c, cs) =
    ground (arith, c, c_string-AllClean (b ∷ w) junk (c, cs))

second_word-entry :
    (before us them secret junk : List ℕ)
    → IsWord them
    → IsWord secret
    → (buf : List ℕ) × (second_word before us (32 ∷ (them ++ (32 ∷ (secret ++ (0 ∷ junk)))))
        ≡ entry us them secret buf)
unfolding second_word
second_word-entry before us [] secret junk none_such word = elim none_such [ ]
second_word-entry before us (b ∷ w) secret junk (c, cs) word =
    let rest = 32 ∷ (secret ++ (0 ∷ junk)) in
    let before' = before ++ (us ++ (0 ∷ [])) in
    (
      before' ++ ((b ∷ w) ++ (0 ∷ (secret ++ (0 ∷ junk)))),
      ground (
        arith,
        c,
        advance_later_word w (secret ++ (0 ∷ junk)) cs,
        third_word-entry before' us (b ∷ w) secret junk word,
      ),
    )

word_AllClean : (w : List ℕ) → IsWord w → AllClean w
word_AllClean [] none_such = tt
word_AllClean (b ∷ w) c = c

module _ (us them secret : List ℕ) (u : IsWord us) (t : IsWord them) (x : IsWord secret) where
  uncommented :
      (end : List ℕ)
      → strip_comments (us ++ (32 ∷ (them ++ (32 ∷ (secret ++ end)))))
        ≡ us ++ (32 ∷ (them ++ (32 ∷ (secret ++ strip_comments end))))
  unfolding strip_comments
  uncommented end =
      strip_comments-AllClean us (32 ∷ (them ++ (32 ∷ (secret ++ end)))) (word_AllClean us u)
      ∙ ap (λ (l : List ℕ). us ++ (32 ∷ l))
          (strip_comments-AllClean them (32 ∷ (secret ++ end)) (word_AllClean them t)
            ∙ ap (λ (l : List ℕ). them ++ (32 ∷ l))
                (strip_comments-AllClean secret end (word_AllClean secret x)))

  untrailed :
      (end : List ℕ)
      → strip_trailing (us ++ (32 ∷ (them ++ (32 ∷ (secret ++ end)))))
        ≡ us ++ (32 ∷ (them ++ (32 ∷ (secret ++ strip_trailing end))))
  untrailed end =
      strip_trailing-AllClean us (32 ∷ (them ++ (32 ∷ (secret ++ end)))) (word_AllClean us u)
      ∙ ap (λ (l : List ℕ). us ++ l)
          (strip_trailing-space them (32 ∷ (secret ++ end)) t
            ∙ ap (λ (l : List ℕ). 32 ∷ (them ++ l)) (strip_trailing-space secret end x))

  strip-line :
      (junk : List ℕ)
      → strip_trailing
          (strip_comments (us ++ (32 ∷ (them ++ (32 ∷ (secret ++ (10 ∷ (0 ∷ junk))))))))
        ≡ stripped us them secret (0 ∷ junk)
  unfolding strip_comments strip_trailing
  strip-line junk = ap strip_trailing (uncommented (10 ∷ (0 ∷ junk))) ∙ untrailed (10 ∷ (0 ∷ junk))

parse_stripped :
    (us them secret buf junk : List ℕ)
    → IsWord us
    → IsWord them
    → IsWord secret
    → strip_trailing (strip_comments buf) ≡ stripped us them secret junk
    → (buf' : List ℕ) × (parse_line buf ≡ entry us them secret buf')
unfolding parse_line
parse_stripped [] them secret buf junk none_such t x e = elim none_such [ ]
parse_stripped (b ∷ w) them secret buf junk (c, cs) t x e =
    let (buf', line) = second_word-entry [] (b ∷ w) them secret junk t x in
    (buf', ground (arith, e, c, advance_word w (them ++ (32 ∷ (secret ++ (0 ∷ junk)))) cs, line))

-- A line of the file, as `fgets` gives it.
pub record Entry : Type 0 where
  pub us : List ℕ
  pub them : List ℕ
  pub secret : List ℕ

abbrev pub line_of : Entry → List ℕ
line_of e = e.us ++ (32 ∷ (e.them ++ (32 ∷ (e.secret ++ (10 ∷ [])))))

abbrev pub AllEntries : List Entry → Type 0
AllEntries [] = Unit
AllEntries (e ∷ es) = (IsWord e.us × IsWord e.them × IsWord e.secret) × AllEntries es

-- The secret of the first line for the two names.
unfoldable pub first_secret : List ℕ → List ℕ → List Entry → Lookup
first_secret us them [] = missed
first_secret us them (e ∷ es) =
    let rest = first_secret us them es in
    if matches e.us us && matches e.them them then found e.secret else rest

line_append :
    (e : Entry) (end : List ℕ)
    → line_of e ++ end ≡ e.us ++ (32 ∷ (e.them ++ (32 ∷ (e.secret ++ (10 ∷ end)))))
line_append e end =
    append_assoc e.us (32 ∷ (e.them ++ (32 ∷ (e.secret ++ (10 ∷ []))))) end
    ∙ ap (λ (l : List ℕ). e.us ++ (32 ∷ l))
        (append_assoc e.them (32 ∷ (e.secret ++ (10 ∷ []))) end
          ∙ ap (λ (l : List ℕ). e.them ++ (32 ∷ l)) (append_assoc e.secret (10 ∷ []) end))

parse_overwritten :
    (e : Entry) (buf : List ℕ)
    → IsWord e.us
    → IsWord e.them
    → IsWord e.secret
    → (buf' : List ℕ) × (parse_line (overwrite (line_of e) buf) ≡ entry e.us e.them e.secret buf')
unfolding overwrite
parse_overwritten e buf u t x =
    let junk = drop (length (line_of e) + 1) buf in
    parse_stripped e.us e.them e.secret (line_of e ++ (0 ∷ junk)) (0 ∷ junk) u t x (
      ap (λ (l : List ℕ). strip_trailing (strip_comments l)) (line_append e (0 ∷ junk))
      ∙ strip-line e.us e.them e.secret u t x junk)

search_entry :
    (buf buf' line u t x : List ℕ) (lines : List (List ℕ)) (us them : List ℕ)
    → parse_line (overwrite line buf) ≡ entry u t x buf'
    → search_lines buf (line ∷ lines) us them
      ≡ (if matches u us && matches t them then found x else search_lines buf' lines us them)
unfolding search_lines
search_entry buf buf' line u t x lines us them e = ground (arith, e)

search_lines_lem :
    (buf : List ℕ) (es : List Entry) (us them : List ℕ)
    → AllEntries es
    → search_lines buf (map line_of es) us them ≡ first_secret us them es
unfolding search_lines first_secret
search_lines_lem buf [] us them good = refl
search_lines_lem buf (e ∷ es) us them ((u, t, x), good) =
    let (buf', line) = parse_overwritten e buf u t x in
    search_entry buf buf' (line_of e) e.us e.them e.secret (map line_of es) us them line
    ∙ ap (λ (l : Lookup). if matches e.us us && matches e.them them then found e.secret else l)
        (search_lines_lem buf' es us them good)

-- In a file whose lines are three words with a space between, each line read as a whole,
-- `get_secret` gives the secret of the first line that has the two names, the case of letters
-- aside, or a `*` for one, and 0 where there is none, whatever was in its array before.
pub get_secret_lem :
    (buf : List ℕ) (es : List Entry) (us them : List ℕ)
    → AllEntries es
    → get_secret buf (some (map line_of es)) us them ≡ first_secret us them es
unfolding get_secret
get_secret_lem buf es us them good = search_lines_lem buf es us them good
