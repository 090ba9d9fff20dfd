-- ===== src/MailRules/Reading.antt =====
-- The texts that agent/mail_sieve.py quotes are one token each, whatever they hold.
use Prim.Native.Char.{Char, code}
use Prim.Native.String.{[], ◌∷◌}
use mathlib.Core.Path.{subst}
use mathlib.Core.List.{List}
use text.Mathlib.TextEquality.{Char-path}
use nexvary_panel.Base.{
  ℕ, String, ◌≡◌, refl, sym, inl, inr, true, false, ◌||◌, some, eqb, ltb, Bool-cases, and-true,
  eqb_iff,
}
use nexvary_panel.Base.Text.{◌⧺◌, append_assoc, append-nil, chars, any_char, all_chars}
use nexvary_panel.MailRules.Quote.{replace_char, escaped, quoted}
use nexvary_panel.MailRules.Lexer.{Lexeme, Mode, is_word_char, step, lex}

escaped_slash :
    (text : String) (c : Char) → code c ≡ b'\\' → escaped (c ∷ text) ≡ "\\" ⧺ (c ∷ escaped text)
unfolding escaped replace_char
escaped_slash text c e =
    subst (λ (d : Char). escaped (d ∷ text) ≡ "\\" ⧺ (d ∷ escaped text))
      (sym (Char-path c (Char.char b'\\' tt) e)) refl

escaped_quote :
    (text : String) (c : Char) → code c ≡ b'"' → escaped (c ∷ text) ≡ "\\" ⧺ (c ∷ escaped text)
unfolding escaped replace_char
escaped_quote text c e =
    subst (λ (d : Char). escaped (d ∷ text) ≡ "\\" ⧺ (d ∷ escaped text))
      (sym (Char-path c (Char.char b'"' tt) e)) refl

escaped_plain :
    (text : String) (c : Char)
    → eqb (code c) b'\\' ≡ false
    → eqb (code c) b'"' ≡ false
    → escaped (c ∷ text) ≡ c ∷ escaped text
unfolding escaped replace_char
escaped_plain text c e f = rw (e, f) refl

-- The closing quote is found, and the text before it is read back.
read-escaped :
    (acc text rest : String)
    → lex (Mode.in_text acc) (escaped text ⧺ "\"" ⧺ rest)
      ≡ List.◌∷◌ (Lexeme.text (acc ⧺ text)) (lex Mode.between rest)
unfolding lex step escaped replace_char
read-escaped acc [] rest = rw (append-nil acc) refl
read-escaped acc (c ∷ text) rest =
    let ih : lex (Mode.in_text (acc ⧺ (c ∷ []))) (escaped text ⧺ "\"" ⧺ rest)
        ≡ List.◌∷◌ (Lexeme.text (acc ⧺ (c ∷ text))) (lex Mode.between rest) =
      rw (append_assoc acc (c ∷ []) text) at (read-escaped (acc ⧺ (c ∷ [])) text rest) in
    elim (Bool-cases (eqb (code c) b'\\')) [
      | inl slash ↦ rw (escaped_slash text c ((eqb_iff (code c) b'\\').0 slash)) ih
      | inr plain ↦ elim (Bool-cases (eqb (code c) b'"')) [
        | inl quote ↦ rw (escaped_quote text c ((eqb_iff (code c) b'"').0 quote)) ih
        | inr other ↦ rw (escaped_plain text c plain other) (rw (lex, step, other, plain) ih)
      ]
    ]

pub read-quoted :
    (text : String) (limit : ℕ) (rest : String) {q : String}
    → quoted text limit ≡ some q
    → lex Mode.between (q ⧺ rest) ≡ List.◌∷◌ (Lexeme.text text) (lex Mode.between rest)
unfolding quoted lex step
read-quoted text limit rest {q} h =
    elim (Bool-cases
      (ltb limit (chars text) || any_char (λ c. eqb c 0 || eqb c 13 || eqb c 10) text)) [
        | inl bad ↦ absurd (cc (rw (quoted, bad) at h))
        | inr good ↦
            let e : some ("\"" ⧺ escaped text ⧺ "\"") ≡ some q = rw (quoted, good) at h in
            let same : "\"" ⧺ escaped text ⧺ "\"" ≡ q = cc e in
            rw (← same, append_assoc (escaped text) "\"" rest) (read-escaped [] text rest)
      ]

-- The characters of a word go on with it.
pub read-word :
    (acc w rest : String)
    → all_chars is_word_char w ≡ true
    → lex (Mode.in_word acc) (w ⧺ rest) ≡ lex (Mode.in_word (acc ⧺ w)) rest
unfolding lex step all_chars
read-word acc [] rest h = rw (append-nil acc) refl
read-word acc (c ∷ w) rest h =
    let (here, there) = and-true (is_word_char (code c)) (all_chars is_word_char w) h in
    let ih : lex (Mode.in_word (acc ⧺ (c ∷ []))) (w ⧺ rest)
        ≡ lex (Mode.in_word (acc ⧺ (c ∷ w))) rest =
      rw (append_assoc acc (c ∷ []) w) at (read-word (acc ⧺ (c ∷ [])) w rest there) in
    rw (lex, step, here) ih
