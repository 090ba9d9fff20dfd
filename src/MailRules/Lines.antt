-- ===== src/MailRules/Lines.antt =====
-- The body of an autoresponder, as `_multiline` of agent/mail_sieve.py writes it, is one token.
use Prim.Native.Char.{Char, code}
use Prim.Native.String.{[], ◌∷◌}
use mathlib.Core.Path.{subst}
use mathlib.Core.List.{List, map}
use text.Mathlib.TextEquality.{Char-path}
use nexvary_panel.Base.{
  ℕ, String, ◌≡◌, refl, ap, sym, ◌∙◌, inl, inr, ◌||◌, some, eqb, ltb, Bool-cases, eqb_iff,
}
use nexvary_panel.Base.Text.{◌⧺◌, append_assoc, append-nil, chars, any_char}
use nexvary_panel.Base.Names.{split, push}
use nexvary_panel.MailRules.Quote.{stuff, join_lines, unix_lines, multiline}
use nexvary_panel.MailRules.Lexer.{Lexeme, Mode, start, end_word, step, lex}

-- the lines after the first one, each with the newline before it
after_first : List String → String
after_first List.[] = []
after_first (List.◌∷◌ l ls) = "\n" ⧺ stuff l ⧺ after_first ls

-- the first line as it is, and the others as `_multiline` writes them
open_lines : List String → String
open_lines List.[] = []
open_lines (List.◌∷◌ l ls) = l ⧺ after_first ls

joined_lines :
    (l : String) (ls : List String)
    → join_lines (map stuff (List.◌∷◌ l ls)) ≡ stuff l ⧺ after_first ls
unfolding join_lines after_first
joined_lines l List.[] = sym (append-nil (stuff l))
joined_lines l (List.◌∷◌ m ls) = rw (joined_lines m ls) refl

open_lines-push : (c : Char) (ls : List String) → open_lines (push c ls) ≡ c ∷ open_lines ls
unfolding open_lines push after_first
open_lines-push c List.[] = refl
open_lines-push c (List.◌∷◌ l ls) = refl

split_cases :
    (sep : ℕ) (s : String) → (l : String) × (ls : List String) × (split sep s ≡ List.◌∷◌ l ls)
unfolding split push
split_cases sep [] = ([], List.[], refl)
split_cases sep (c ∷ s) = elim (Bool-cases (eqb (code c) sep)) [
  | inl hit ↦ ([], split sep s, rw hit refl)
  | inr miss ↦ let (l, ls, e) = split_cases sep s in (c ∷ l, ls, rw (miss, e) refl)
]

-- A line that is written with its dot is read as the line.
read-stuff :
    (acc l u : String)
    → lex (Mode.line_start acc) (stuff l ⧺ "\n" ⧺ u) ≡ lex (Mode.line acc) (l ⧺ "\n" ⧺ u)
unfolding lex step stuff
read-stuff acc [] u = refl
read-stuff acc (c ∷ s) u = elim (Bool-cases (eqb (code c) b'.')) [
  | inl dot ↦
      subst
        (λ (d : Char).
          lex (Mode.line_start acc) (stuff (d ∷ s) ⧺ "\n" ⧺ u)
          ≡ lex (Mode.line acc) ((d ∷ s) ⧺ "\n" ⧺ u))
        (sym (Char-path c (Char.char b'.' tt) ((eqb_iff (code c) b'.').0 dot))) refl
  | inr other ↦ rw other (rw (lex, step, other) refl)
]

after-newline :
    (ls : List String) (rest : String) → (u : String) × (after_first ls ⧺ "\n.\n" ⧺ rest ≡ "\n" ⧺ u)
unfolding after_first
after-newline List.[] rest = (".\n" ⧺ rest, refl)
after-newline (List.◌∷◌ l ls) rest = ((stuff l ⧺ after_first ls) ⧺ "\n.\n" ⧺ rest, refl)

read-first :
    (acc l : String) (ls : List String) (rest : String)
    → lex (Mode.line_start acc) ((stuff l ⧺ after_first ls) ⧺ "\n.\n" ⧺ rest)
      ≡ lex (Mode.line acc) ((l ⧺ after_first ls) ⧺ "\n.\n" ⧺ rest)
read-first acc l ls rest =
    let (u, e) = after-newline ls rest in
    ap (lex (Mode.line_start acc))
      (append_assoc (stuff l) (after_first ls) ("\n.\n" ⧺ rest) ∙ ap (λ t. stuff l ⧺ t) e)
    ∙ read-stuff acc l u
    ∙ ap (lex (Mode.line acc))
        (sym (append_assoc l (after_first ls) ("\n.\n" ⧺ rest) ∙ ap (λ t. l ⧺ t) e))

read-newline :
    (acc s rest : String) (tokens : List Lexeme)
    → lex (Mode.line (acc ⧺ "\n")) (open_lines (split 10 s) ⧺ "\n.\n" ⧺ rest) ≡ tokens
    → lex (Mode.line acc) (after_first (split 10 s) ⧺ "\n.\n" ⧺ rest) ≡ tokens
unfolding lex step open_lines after_first
read-newline acc s rest tokens h =
    let (l, ls, e) = split_cases 10 s in
    let k : lex (Mode.line (acc ⧺ "\n")) ((l ⧺ after_first ls) ⧺ "\n.\n" ⧺ rest) ≡ tokens =
      rw e at h in
    rw e (read-first (acc ⧺ "\n") l ls rest ∙ k)

-- The lines of a text, its first one without a dot, are read as the text.
read-open :
    (acc s rest : String)
    → lex (Mode.line acc) (open_lines (split 10 s) ⧺ "\n.\n" ⧺ rest)
      ≡ List.◌∷◌ (Lexeme.text (acc ⧺ s ⧺ "\n")) (lex Mode.between rest)
unfolding lex step open_lines after_first split
read-open acc [] rest = refl
read-open acc (c ∷ s) rest =
    let ih : lex (Mode.line (acc ⧺ (c ∷ []))) (open_lines (split 10 s) ⧺ "\n.\n" ⧺ rest)
        ≡ List.◌∷◌ (Lexeme.text (acc ⧺ (c ∷ s) ⧺ "\n")) (lex Mode.between rest) =
      rw (append_assoc acc (c ∷ []) (s ⧺ "\n")) at (read-open (acc ⧺ (c ∷ [])) s rest) in
    elim (Bool-cases (eqb (code c) 10)) [
      | inl newline ↦
          let same = Char-path c (Char.char 10 tt) ((eqb_iff (code c) 10).0 newline) in
          let k : lex (Mode.line (acc ⧺ "\n")) (open_lines (split 10 s) ⧺ "\n.\n" ⧺ rest)
              ≡ List.◌∷◌ (Lexeme.text (acc ⧺ (c ∷ s) ⧺ "\n")) (lex Mode.between rest) =
            subst
              (λ (d : Char).
                lex (Mode.line (acc ⧺ (d ∷ []))) (open_lines (split 10 s) ⧺ "\n.\n" ⧺ rest)
                ≡ List.◌∷◌ (Lexeme.text (acc ⧺ (c ∷ s) ⧺ "\n")) (lex Mode.between rest))
              same ih in
          rw newline (read-newline acc s rest _ k)
      | inr other ↦ rw (other, open_lines-push c (split 10 s)) (rw (lex, step, other) ih)
    ]

-- What `_multiline` writes is read as the text, with a newline at its end.
pub read-multiline :
    (value rest : String) {m : String}
    → multiline value ≡ some m
    → lex Mode.between (m ⧺ rest)
      ≡ List.◌∷◌ (Lexeme.text (unix_lines value ⧺ "\n")) (lex Mode.between rest)
unfolding multiline lex step start end_word open_lines
read-multiline value rest {m} h =
    let text = unix_lines value in
    elim (Bool-cases (ltb 5000 (chars text) || any_char (λ c. eqb c 0) text)) [
      | inl bad ↦ absurd (cc (rw (multiline, bad) at h))
      | inr good ↦
          let k : some ("text:\n" ⧺ join_lines (map stuff (split 10 text)) ⧺ "\n.\n") ≡ some m =
            rw (multiline, good) at h in
          let same : "text:\n" ⧺ join_lines (map stuff (split 10 text)) ⧺ "\n.\n" ≡ m = cc k in
          let (l, ls, e) = split_cases 10 text in
          let q : lex (Mode.line []) ((l ⧺ after_first ls) ⧺ "\n.\n" ⧺ rest)
              ≡ List.◌∷◌ (Lexeme.text (text ⧺ "\n")) (lex Mode.between rest) =
            rw e at (read-open [] text rest) in
          rw
            (
              ← same,
              append_assoc (join_lines (map stuff (split 10 text))) "\n.\n" rest,
              e,
              joined_lines l ls,
            )
            (read-first [] l ls rest ∙ q)
    ]
