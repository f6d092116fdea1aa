-- ===== src/File/Written.antt =====
-- `parse_config` (file.c) on the text of a list of lines.
use xl2tpd.Base.{ℕ, ◌≡◌, refl, ap, ◌∙◌, true, false}
use xl2tpd.Base.{List, [], ◌∷◌, ◌++◌, Option, none, some, All, map, if-intro}
use xl2tpd.Session.{c_string}
use xl2tpd.Secret.{is_low}
use xl2tpd.File.Options.{FileEnv}
use xl2tpd.File.Text.{skip_blank, strip_end}
use xl2tpd.File.Parse.{text_of}
use xl2tpd.File.Settings.{Parser, Parsed, going, rejected, astray}
use xl2tpd.File.Parse.{front_part, parse_piece, trimmed_line, and_then}
use xl2tpd.File.Parse.{parse_pieces, initial, parse_config}
use xl2tpd.File.Settings.{Settings}
use xl2tpd.File.Layout.{IsBlank, IsComment}
use xl2tpd.File.Layout.{All-unended, line_end, c_string-append, All-plain, All-blank}
use xl2tpd.File.Layout.{c_string-line_end, split_at-append, split_at-none}
use xl2tpd.File.Layout.{strip_end-low, All-append, blank_low, All-semicolon}
use xl2tpd.File.Lines.{parse_laid_out, parse_ended, line_end-ends_line}
use xl2tpd.File.Reading.{Line, heading, setting, empty, parameter, assignment, text, meaning}
use xl2tpd.File.Reading.{read, IsLine, IsCalm, assign-IsCalm}
use xl2tpd.File.Reading.{open_section-IsCalm}
use xl2tpd.File.Heading.{closed, heading-IsBody, trimmed_line-heading}
use xl2tpd.File.Assignment.{option_line-assignment, assignment-IsBody, trimmed_line-assignment}
use xl2tpd.File.Assignment.{IsWord-parts}

pub skip_blank-low :
    (s : List ℕ) → All (λ b. is_low b ≡ true) s → All (λ b. is_low b ≡ true) (skip_blank s)
unfolding skip_blank
skip_blank-low [] all = tt
skip_blank-low (b ∷ s) (first, all) =
    if-intro (λ (t : List ℕ). All (λ x. is_low x ≡ true) t) (is_low b) {x = skip_blank s}
      {y = b ∷ s} (skip_blank-low s all) (first, all)

text_of-empty :
    (gap : List ℕ) (comment : Option (List ℕ))
    → All IsBlank gap
    → strip_end (skip_blank (text_of (gap ++ line_end comment))) ≡ []
text_of-empty gap none g =
    let whole = gap ++ (10 ∷ []) in
    let low = All-append (λ x. is_low x ≡ true) gap (10 ∷ []) (blank_low gap g) (refl, tt) in
    ap (λ (o : Option (List ℕ × List ℕ)). strip_end (skip_blank (front_part o whole)))
      (split_at-none b';' whole (All-unended gap (All-blank gap g)))
    ∙ strip_end-low (skip_blank whole) (skip_blank-low whole low)
text_of-empty gap (some comment) g =
    let whole = gap ++ (b';' ∷ (comment ++ (10 ∷ []))) in
    ap (λ (o : Option (List ℕ × List ℕ)). strip_end (skip_blank (front_part o whole)))
      (split_at-append b';' gap (comment ++ (10 ∷ [])) (All-semicolon gap (All-blank gap g)))
    ∙ strip_end-low (skip_blank gap) (skip_blank-low gap (blank_low gap g))

trimmed_line-empty : (env : FileEnv) (p : Parser) → trimmed_line env p [] ≡ going p
unfolding trimmed_line
trimmed_line-empty env p = refl

parse_empty :
    (env : FileEnv) (p : Parser) (gap : List ℕ) (comment : Option (List ℕ))
    → p.in_comment ≡ false
    → All IsBlank gap
    → IsComment comment
    → parse_piece env p (c_string (gap ++ line_end comment)) ≡ going p
parse_empty env p gap comment calm g c =
    let whole = gap ++ line_end comment in
    ap (parse_piece env p) (
      c_string-append gap (line_end comment) (All-plain gap (All-blank gap g))
      ∙ ap (λ (l : List ℕ). gap ++ l) (c_string-line_end comment c))
    ∙ parse_ended env p whole calm (line_end-ends_line gap comment)
    ∙ ap (trimmed_line env (record p { in_comment = false })) (text_of-empty gap comment g)
    ∙ ap (λ (q : Parser). trimmed_line env q []) (closed p calm)
    ∙ trimmed_line-empty env p

-- One line.
parse_line :
    (env : FileEnv) (p : Parser) (l : Line)
    → IsLine l
    → p.in_comment ≡ false
    → parse_piece env p (c_string (text l)) ≡ meaning env p l
unfolding meaning
parse_line env p (heading m kind d) (g, k, q) calm =
    let body = b'[' ∷ (kind ++ (parameter d ++ (b']' ∷ []))) in
    parse_laid_out env p m body calm g (heading-IsBody kind d k q)
    ∙ ap (λ (r : Parser). trimmed_line env r body) (closed p calm)
    ∙ trimmed_line-heading env p kind d k q
parse_line env p (setting m word left right value) (g, w, l, r, v) calm =
    let body = assignment word left right value in
    let parts = IsWord-parts word w in
    parse_laid_out env p m body calm g (assignment-IsBody word left right value parts.0 l r v)
    ∙ ap (λ (q : Parser). trimmed_line env q body) (closed p calm)
    ∙ trimmed_line-assignment env p word left right value w
    ∙ option_line-assignment env p word left right value parts.0 parts.1 l r v
parse_line env p (empty gap comment) (g, c) calm = parse_empty env p gap comment calm g c

meaning-IsCalm :
    (env : FileEnv) (p : Parser) (l : Line) → p.in_comment ≡ false → IsCalm (meaning env p l)
unfolding meaning
meaning-IsCalm env p (heading m kind d) calm = open_section-IsCalm p kind d calm
meaning-IsCalm env p (setting m word left right value) calm = assign-IsCalm env p word value calm
meaning-IsCalm env p (empty gap comment) calm = calm

-- The loop on the texts of some lines.
parse_lines :
    (env : FileEnv) (p : Parser) (ls : List Line)
    → All IsLine ls
    → p.in_comment ≡ false
    → parse_pieces env p (map text ls) ≡ read env p ls
unfolding parse_pieces read
parse_lines env p [] all calm = refl
parse_lines env p (l ∷ ls) (first, all) calm =
    ap (λ (r : Parsed). and_then r (λ q. parse_pieces env q (map text ls)))
      (parse_line env p l first calm)
    ∙ onward (meaning env p l) (meaning-IsCalm env p l calm)
        (λ q quiet. parse_lines env q ls all quiet)
  where
    onward :
        (r : Parsed)
        → IsCalm r
        → ((q : Parser) → q.in_comment ≡ false → parse_pieces env q (map text ls) ≡ read env q ls)
        → and_then r (λ q. parse_pieces env q (map text ls)) ≡ and_then r (λ q. read env q ls)
    onward (going q) quiet next = next q quiet
    onward (rejected c) quiet next = refl
    onward astray quiet next = refl

-- The lines of a file, each with any blanks and comments, mean what they say: the heads of sections
-- open them, and an option goes to the section that is open. Each line is taken to come from `fgets`
-- in one piece.
pub read_written :
    (env : FileEnv) (c : Settings) (ls : List Line)
    → All IsLine ls
    → parse_config env c (map text ls) ≡ read env (initial c) ls
unfolding parse_config
read_written env c ls all = parse_lines env (initial c) ls all refl
