-- ===== src/Secret/Clean.antt =====
-- The words of a line as they should be, and what the steps of `get_secret` (aaa.c) make of them.
use xl2tpd.Base.{ℕ, ◌≤◌, ◌<◌, ◌≡◌, ◌≢◌, refl, arith}
use xl2tpd.Base.{List, [], ◌∷◌, ◌++◌}
use xl2tpd.Session.{c_string}
use xl2tpd.Secret.{strip_comments, strip_trailing, advance, is_blank, is_word, is_later_word}

-- A byte that a word may have: printable, not an exclamation mark, and not a comment's beginning.
pub record IsClean (b : ℕ) : Type 0 where
  pub least : 34 ≤ b
  pub most : b < 128
  pub no_hash : b ≢ 35
  pub no_semicolon : b ≢ 59

abbrev pub AllClean : List ℕ → Type 0
AllClean [] = Unit
AllClean (b ∷ bs) = IsClean b × AllClean bs

-- A word has a byte.
abbrev pub IsWord : List ℕ → Type 0
IsWord [] = ⊥
IsWord (b ∷ bs) = AllClean (b ∷ bs)

pub strip_comments-AllClean :
    (w bs : List ℕ) → AllClean w → strip_comments (w ++ bs) ≡ w ++ strip_comments bs
unfolding strip_comments
strip_comments-AllClean [] bs c = refl
strip_comments-AllClean (b ∷ w) bs (c, cs) = ground (arith, c, strip_comments-AllClean w bs cs)

pub strip_trailing-AllClean :
    (w bs : List ℕ) → AllClean w → strip_trailing (w ++ bs) ≡ w ++ strip_trailing bs
unfolding strip_trailing
strip_trailing-AllClean [] bs c = refl
strip_trailing-AllClean (b ∷ w) bs (c, cs) = ground (arith, c, strip_trailing-AllClean w bs cs)

-- A space before a word stays.
pub strip_trailing-space :
    (w bs : List ℕ) → IsWord w → strip_trailing (32 ∷ (w ++ bs)) ≡ 32 ∷ (w ++ strip_trailing bs)
unfolding strip_trailing
strip_trailing-space [] bs none_such = elim none_such [ ]
strip_trailing-space (b ∷ w) bs (c, cs) =
    ground (arith, c, strip_trailing-AllClean (b ∷ w) bs (c, cs))

pub advance_blank : (w bs : List ℕ) → IsWord w → advance is_blank (w ++ bs) ≡ ([], w ++ bs)
unfolding advance
advance_blank [] bs none_such = elim none_such [ ]
advance_blank (b ∷ w) bs (c, cs) = ground (arith, c)

pub advance_word : (w bs : List ℕ) → AllClean w → advance is_word (w ++ (32 ∷ bs)) ≡ (w, 32 ∷ bs)
unfolding advance
advance_word [] bs c = refl
advance_word (b ∷ w) bs (c, cs) = ground (arith, c, advance_word w bs cs)

pub advance_later_word :
    (w bs : List ℕ) → AllClean w → advance is_later_word (w ++ (32 ∷ bs)) ≡ (w, 32 ∷ bs)
unfolding advance
advance_later_word [] bs c = refl
advance_later_word (b ∷ w) bs (c, cs) = ground (arith, c, advance_later_word w bs cs)

pub c_string-AllClean : (w bs : List ℕ) → AllClean w → c_string (w ++ (0 ∷ bs)) ≡ w
unfolding c_string
c_string-AllClean [] bs c = refl
c_string-AllClean (b ∷ w) bs (c, cs) = ground (arith, c, c_string-AllClean w bs cs)
