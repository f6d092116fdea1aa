-- ===== src/File/Case.antt =====
-- Words are compared without regard to the case of their letters, but some handlers of file.c look
-- at letters of the word as it was written.
use xl2tpd.Base.{ℕ, ◌≡◌, ◌≢◌, ne→==, refl, sym, ap, ◌∙◌, arith, Bool, true, false}
use xl2tpd.Base.{List, [], ◌∷◌, Option, some}
use xl2tpd.Secret.{same_name}
use xl2tpd.File.Text.{bytes}
use xl2tpd.File.Options.{Item, lns, lac, FileEnv, Handler}
use xl2tpd.File.Numbers.{letter}
use xl2tpd.File.Hosts.{set_range}
use xl2tpd.File.Hosts.{set_lac, denies}
use xl2tpd.File.Keywords.{Keyword, words, find_keyword, call_handler, parse_one_option}

-- Two spellings of a word are the same as a third word, or both are not.
same_name_cong : (a b c : List ℕ) → same_name a b ≡ true → same_name a c ≡ same_name b c
unfolding same_name
same_name_cong [] [] c h = refl
same_name_cong [] (y ∷ b) c h = ground (arith, h)
same_name_cong (x ∷ a) [] c h = ground (arith, h)
same_name_cong (x ∷ a) (y ∷ b) [] h = refl
same_name_cong (x ∷ a) (y ∷ b) (z ∷ c) h = ground (arith, h, same_name_cong a b c)

-- The spelling of a word has no part in the choice of its handler.
pub find_keyword_cong :
    (ks : List Keyword) (a b : List ℕ)
    → same_name a b ≡ true
    → find_keyword ks a ≡ find_keyword ks b
unfolding find_keyword
find_keyword_cong [] a b h = refl
find_keyword_cong (k ∷ ks) a b h =
    rw (same_name_cong a b k.keyword h, find_keyword_cong ks a b h) refl

-- The rule that a word with a capital N makes, which is to deny, is the rule that allows.
capital_lac :
    (env : FileEnv) (def : Bool) (word value : List ℕ) (i : Item)
    → denies word ≡ false
    → set_lac env def word value i ≡ set_lac env def (bytes "lac") value i
unfolding set_lac set_range
capital_lac env def word value (Item.global g) h = refl
capital_lac env def word value (lns e) h = rw h refl
capital_lac env def word value (lac e) h = refl

pub found_lac : (env : FileEnv) → find_keyword (words env) (bytes "lac") ≡ some (set_lac env)
unfolding find_keyword words
found_lac env = refl

found_no_lac : (env : FileEnv) → find_keyword (words env) (bytes "no lac") ≡ some (set_lac env)
unfolding find_keyword words
found_no_lac env = refl

pub option_by :
    (env : FileEnv) (def : Bool) (word value : List ℕ) (i : Item) (h : Handler)
    → find_keyword (words env) word ≡ some h
    → parse_one_option env def word value i ≡ some (h def word value i)
unfolding parse_one_option
option_by env def word value i h found =
    ap (λ (o : Option Handler). call_handler o def word value i) found

-- An option `no lac`, in any spelling whose first letter is not a small `n`, does what the option
-- `lac` does: the hosts that are to be kept out are let in.
pub capital_no_allows :
    (env : FileEnv) (def : Bool) (word value : List ℕ) (i : Item)
    → same_name word (bytes "no lac") ≡ true
    → letter word 0 ≢ b'n'
    → parse_one_option env def word value i ≡ parse_one_option env def (bytes "lac") value i
capital_no_allows env def word value i same capital =
    option_by env def word value i (set_lac env)
      (find_keyword_cong (words env) word (bytes "no lac") same ∙ found_no_lac env)
    ∙ ap some (capital_lac env def word value i (ne→== (letter word 0) b'n' capital))
    ∙ sym (option_by env def (bytes "lac") value i (set_lac env) (found_lac env))
