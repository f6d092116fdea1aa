-- ===== src/File/Lines.antt =====
-- What `parse_config` (file.c) makes of a line, whatever its layout.
use mathlib.Core.List.{append_assoc}
use xl2tpd.Base.{ℕ, ◌≡◌, refl, sym, ap, ◌∙◌, arith, Bool, true, false}
use xl2tpd.Base.{List, [], ◌∷◌, ◌++◌, Option, none, some, All}
use xl2tpd.Session.{c_string}
use xl2tpd.Secret.{is_low}
use xl2tpd.File.Options.{FileEnv}
use xl2tpd.File.Text.{skip_blank, strip_end}
use xl2tpd.File.Parse.{front_part, text_of, ends_line, parse_piece, trimmed_line}
use xl2tpd.File.Settings.{Parser}
use xl2tpd.File.Layout.{IsBlank, IsPlain, line_end, c_string-append, All-plain, All-blank}
use xl2tpd.File.Layout.{c_string-line_end, split_at-append, split_at-none, ends_line-append}
use xl2tpd.File.Layout.{skip_blank-gap, strip_end-append, All-append, blank_low, Margin, IsMargin}
use xl2tpd.File.Layout.{laid_out, IsBody, All-unended, All-semicolon}

-- All of the line before its end.
abbrev front : Margin → List ℕ → List ℕ
front m body = m.before ++ (body ++ m.after)

laid_out-front : (m : Margin) (body : List ℕ) → laid_out m body ≡ front m body ++ line_end m.comment
laid_out-front m body =
    ap (λ (l : List ℕ). m.before ++ l) (sym (append_assoc body m.after (line_end m.comment)))
    ∙ sym (append_assoc m.before (body ++ m.after) (line_end m.comment))

front-All : (m : Margin) (body : List ℕ) → IsMargin m → IsBody body → All IsPlain (front m body)
front-All m body (g, h, c) (s, e, plain) =
    All-append IsPlain m.before (body ++ m.after) (All-blank m.before g)
      (All-append IsPlain body m.after plain (All-blank m.after h))

c_string-laid_out :
    (m : Margin) (body : List ℕ)
    → IsMargin m
    → IsBody body
    → c_string (laid_out m body) ≡ front m body ++ line_end m.comment
c_string-laid_out m body g b =
    ap c_string (laid_out-front m body)
    ∙ c_string-append (front m body) (line_end m.comment)
        (All-plain (front m body) (front-All m body g b))
    ∙ ap (λ (l : List ℕ). front m body ++ l) (c_string-line_end m.comment g.2)

pub line_end-ends_line : (s : List ℕ) (c : Option (List ℕ)) → ends_line (s ++ line_end c) ≡ true
line_end-ends_line s none = ends_line-append s
line_end-ends_line s (some comment) =
    ap ends_line (sym (append_assoc s (b';' ∷ comment) (10 ∷ [])))
    ∙ ends_line-append (s ++ (b';' ∷ comment))

-- The text of a line, with the blanks around it taken off.
trimmed :
    (m : Margin) (body g : List ℕ)
    → IsBody body
    → All IsBlank m.before
    → All (λ b. is_low b ≡ true) g
    → strip_end (skip_blank (m.before ++ (body ++ g))) ≡ body
trimmed m [] g (none_such, e, plain) before low = elim none_such [ ]
trimmed m (b ∷ body) g (solid, ends, plain) before low =
    ap strip_end (skip_blank-gap m.before (b ∷ (body ++ g)) before solid)
    ∙ strip_end-append (b ∷ body) g ends low

front-append :
    (m : Margin) (body t : List ℕ) → front m body ++ t ≡ m.before ++ (body ++ (m.after ++ t))
front-append m body t =
    append_assoc m.before (body ++ m.after) t
    ∙ ap (λ (l : List ℕ). m.before ++ l) (append_assoc body m.after t)

text_of-front :
    (m : Margin) (body : List ℕ) (c : Option (List ℕ))
    → IsMargin m
    → IsBody body
    → strip_end (skip_blank (text_of (front m body ++ line_end c))) ≡ body
text_of-front m body none (g, h, c) b =
    let whole = front m body ++ (10 ∷ []) in
    let low =
      All-append (λ x. is_low x ≡ true) m.after (10 ∷ []) (blank_low m.after h) (refl, tt) in
    ap (λ (o : Option (List ℕ × List ℕ)). strip_end (skip_blank (front_part o whole)))
      (split_at-none b';' whole (All-unended (front m body) (front-All m body (g, h, c) b)))
    ∙ ap (λ (l : List ℕ). strip_end (skip_blank l)) (front-append m body (10 ∷ []))
    ∙ trimmed m body (m.after ++ (10 ∷ [])) b g low
text_of-front m body (some comment) (g, h, c) b =
    let whole = front m body ++ (b';' ∷ (comment ++ (10 ∷ []))) in
    ap (λ (o : Option (List ℕ × List ℕ)). strip_end (skip_blank (front_part o whole)))
      (split_at-append b';' (front m body) (comment ++ (10 ∷ []))
        (All-semicolon (front m body) (front-All m body (g, h, c) b)))
    ∙ trimmed m body m.after b g (blank_low m.after h)

pub parse_ended :
    (env : FileEnv) (p : Parser) (buf : List ℕ)
    → p.in_comment ≡ false
    → ends_line buf ≡ true
    → parse_piece env p buf
      ≡ trimmed_line env (record p { in_comment = false }) (strip_end (skip_blank (text_of buf)))
unfolding parse_piece
parse_ended env p [] calm ends = ground (arith, ends)
parse_ended env p (b ∷ bs) calm ends = rw calm (
    ap
      (λ (c : Bool).
        trimmed_line env (record p { in_comment = c }) (strip_end (skip_blank (text_of (b ∷ bs)))))
      (ground (arith, ends)))

-- A line, with any blanks around what it says and any comment behind it, is what it says.
pub parse_laid_out :
    (env : FileEnv) (p : Parser) (m : Margin) (body : List ℕ)
    → p.in_comment ≡ false
    → IsMargin m
    → IsBody body
    → parse_piece env p (c_string (laid_out m body))
      ≡ trimmed_line env (record p { in_comment = false }) body
parse_laid_out env p m body calm g b =
    let whole = front m body ++ line_end m.comment in
    ap (parse_piece env p) (c_string-laid_out m body g b)
    ∙ parse_ended env p whole calm (line_end-ends_line (front m body) m.comment)
    ∙ ap (trimmed_line env (record p { in_comment = false })) (text_of-front m body m.comment g b)
