-- ===== src/MailRules/Sections.antt =====
-- The sections of the scripts of agent/mail_sieve.py, as a lexer reads them.
use Prim.Native.Char.{Char, code}
use mathlib.Core.Path.{subst}
use mathlib.Core.List.{append_assoc as list_assoc}
use nexvary_panel.Base.{
  ℕ, String, ◌==◌, ◌≡◌, refl, ap, sym, ◌∙◌, inl, inr, Bool, true, false, some, List, [], ◌∷◌, ◌++◌,
  bind_some, arith, Bool-cases, and-true, Option-cases, eq_iff, eqb,
}
use nexvary_panel.Base.Json.{show_ℕ, all_chars-show_ℕ, truthy-show_ℕ}
use nexvary_panel.Base.Text.{◌⧺◌, append_assoc, all_chars, is_digit, all_chars-weaken, truthy}
use nexvary_panel.MailRules.Quote.{quoted, multiline, unix_lines}
use nexvary_panel.MailRules.Rules.{Autoresponder, Filter, Spam}
use nexvary_panel.MailRules.Script.{
  filter_lines, filters_lines, quoted_names, require_lines, global_lines, spam_lines, vacation_line,
  vacation_lines,
}
use nexvary_panel.MailRules.Lexer.{Lexeme, Mode, is_blank, is_word_char, start, end_word, step, lex}
use nexvary_panel.MailRules.Meaning.{
  filter_tokens, filters_tokens, name_tokens, require_tokens, spam_tokens, vacation_tokens,
}
use nexvary_panel.MailRules.Reading.{read-quoted, read-word}
use nexvary_panel.MailRules.Lines.{read-multiline}
use nexvary_panel.MailRules.Blocks.{lines_text, lines_text-append, read-filter}

-- The lines of a part, whatever follows them, are its tokens.
abbrev pub Reads : List String → List Lexeme → Type 0
Reads lines tokens =
    (rest : String) → lex Mode.between (lines_text lines ⧺ rest) ≡ tokens ++ lex Mode.between rest

pub Reads-append :
    (ls ms : List String) (s t : List Lexeme) → Reads ls s → Reads ms t → Reads (ls ++ ms) (s ++ t)
Reads-append ls ms s t h k rest =
    ap (lex Mode.between) (lines_text-append ls ms rest)
    ∙ h (lines_text ms ⧺ rest)
    ∙ ap (λ (l : List Lexeme). s ++ l) (k rest)
    ∙ sym (list_assoc s t (lex Mode.between rest))

pub filters-Reads :
    (global_scope : Bool) (fs : List Filter) {lines : List String}
    → filters_lines global_scope fs ≡ some lines
    → Reads lines (filters_tokens global_scope fs)
unfolding filters_lines lines_text
filters-Reads global_scope [] {lines} h =
    let same : ◌≡◌ {A = List String} [] lines = cc h in
    λ rest.
      subst (λ (ls : List String). lex Mode.between (lines_text ls ⧺ rest) ≡ lex Mode.between rest)
        same refl
filters-Reads global_scope (f ∷ fs) {lines} h =
    let (here, e, h1) = bind_some (filter_lines global_scope f) _ h in
    let (further, e1, h2) = bind_some (filters_lines global_scope fs) _ h1 in
    let same : here ++ further ≡ lines = cc h2 in
    subst (λ (ls : List String). Reads ls (filters_tokens global_scope (f ∷ fs))) same
      (Reads-append here further (filter_tokens global_scope f) (filters_tokens global_scope fs)
        (λ rest. read-filter global_scope f rest e) (filters-Reads global_scope fs e1))

read-names :
    (l : List String) (rest : String) {q : String}
    → quoted_names l ≡ some q
    → lex Mode.between (q ⧺ rest) ≡ name_tokens l ++ lex Mode.between rest
unfolding quoted_names lex step start
read-names [] rest {q} h =
    let same : "" ≡ q = cc h in
    subst (λ (t : String). lex Mode.between (t ⧺ rest) ≡ lex Mode.between rest) same refl
read-names (n ∷ []) rest {q} h = read-quoted n 40 rest h
read-names (n ∷ m ∷ l) rest {q} h =
    let (a, e, h1) = bind_some (quoted n 40) _ h in
    let (b, e1, h2) = bind_some (quoted_names (m ∷ l)) _ h1 in
    let same : a ⧺ ", " ⧺ b ≡ q = cc h2 in
    subst
      (λ (t : String).
        lex Mode.between (t ⧺ rest) ≡ name_tokens (n ∷ m ∷ l) ++ lex Mode.between rest)
      same
      (ap (lex Mode.between) (append_assoc a (", " ⧺ b) rest)
        ∙ read-quoted n 40 (", " ⧺ b ⧺ rest) e
        ∙ ap (λ (r : List Lexeme). Lexeme.text n ∷ Lexeme.mark b',' ∷ r)
            (read-names (m ∷ l) rest e1))

pub require-Reads :
    (l : List String) {lines : List String}
    → require_lines l ≡ some lines
    → Reads lines (require_tokens l)
unfolding require_lines lines_text lex step start end_word
require-Reads [] {lines} h rest =
    let same : ◌≡◌ {A = List String} [] lines = cc h in
    subst (λ (ls : List String). lex Mode.between (lines_text ls ⧺ rest) ≡ lex Mode.between rest)
      same refl
require-Reads (n ∷ l) {lines} h rest =
    let (names, e, h1) = bind_some (quoted_names (n ∷ l)) _ h in
    let same : ("require [" ⧺ names ⧺ "];") ∷ [] ≡ lines = cc h1 in
    let open_tokens : List Lexeme → List Lexeme =
      λ (t : List Lexeme). Lexeme.word "require" ∷ Lexeme.mark b'[' ∷ t in
    subst
      (λ (ls : List String).
        lex Mode.between (lines_text ls ⧺ rest) ≡ require_tokens (n ∷ l) ++ lex Mode.between rest)
      same
      (ap (λ (t : String). open_tokens (lex Mode.between t))
          (append_assoc (names ⧺ "];") "\n" rest ∙ append_assoc names "];" ("\n" ⧺ rest))
        ∙ ap open_tokens (read-names (n ∷ l) ("];\n" ⧺ rest) e)
        ∙ ap open_tokens (
            sym (
              list_assoc (name_tokens (n ∷ l)) (Lexeme.mark b']' ∷ Lexeme.mark b';' ∷ [])
                (lex Mode.between rest))))

pub global-Reads :
    (fs : List Filter) {lines : List String}
    → global_lines fs ≡ some lines
    → Reads lines (filters_tokens true fs)
unfolding global_lines lines_text lex step start
global-Reads [] {lines} h rest =
    let same : ◌≡◌ {A = List String} [] lines = cc h in
    subst (λ (ls : List String). lex Mode.between (lines_text ls ⧺ rest) ≡ lex Mode.between rest)
      same refl
global-Reads (f ∷ fs) {lines} h rest =
    let (found, e, h1) = bind_some (filters_lines true (f ∷ fs)) _ h in
    let same : "# Account-wide global filters" ∷ found ≡ lines = cc h1 in
    subst
      (λ (ls : List String).
        lex Mode.between (lines_text ls ⧺ rest)
        ≡ filters_tokens true (f ∷ fs) ++ lex Mode.between rest)
      same (filters-Reads true (f ∷ fs) e rest)

pub spam-Reads : (spam : Spam) → Reads (spam_lines spam) (spam_tokens spam)
unfolding spam_lines lines_text lex step start end_word
spam-Reads spam rest = elim (Bool-cases spam.enabled) [
  | inr off ↦ rw off refl
  | inl on ↦ elim (Bool-cases (spam.action == "junk")) [
    | inl junk ↦ rw (on, junk) refl
    | inr discard ↦ rw (on, discard) refl
  ]
]

digit-IsWord : (c : ℕ) → is_digit c ≡ true → is_word_char c ≡ true
digit-IsWord c h = ground (arith, h)

start-digit :
    (c : Char) → is_digit (code c) ≡ true → start c ≡ ([], Mode.in_word (String.◌∷◌ c String.[]))
unfolding start
start-digit c h =
    let blank : is_blank (code c) ≡ false = ground (arith, h) in
    let hash : eqb (code c) b'#' ≡ false = ground (arith, h) in
    let quote : eqb (code c) b'"' ≡ false = ground (arith, h) in
    let word_char : is_word_char (code c) ≡ true = digit-IsWord (code c) h in
    rw (blank, hash, quote, word_char) refl

number-IsWord : (w : String) → all_chars is_digit w ≡ true → (w == "text:") ≡ false
unfolding all_chars
number-IsWord w h = elim (Bool-cases (w == "text:")) [
  | inr other ↦ other
  | inl same ↦
      let e : w ≡ "text:" = (eq_iff w "text:").0 same in
      let k : all_chars is_digit "text:" ≡ true = rw e at h in absurd (cc k)
]

-- A number is a word.
read-number :
    (w rest : String)
    → all_chars is_digit w ≡ true
    → truthy w ≡ true
    → lex Mode.between (w ⧺ " " ⧺ rest) ≡ Lexeme.word w ∷ lex Mode.between rest
unfolding lex step end_word start all_chars
read-number String.[] rest h k = absurd (cc k)
read-number (String.◌∷◌ c w) rest h k =
    let (here, there) = and-true (is_digit (code c)) (all_chars is_digit w) h in
    let go =
      read-word (String.◌∷◌ c String.[]) w (" " ⧺ rest)
        (all_chars-weaken is_digit is_word_char digit-IsWord w there) in
    rw (lex, step, start-digit c here) (go ∙ rw (end_word, number-IsWord (String.◌∷◌ c w) h) refl)

read-vacation :
    (auto : Autoresponder) (subject body rest : String)
    → quoted auto.subject 180 ≡ some subject
    → multiline auto.body ≡ some body
    → lex Mode.between (
        lines_text (
          ("vacation :days "
            ⧺ show_ℕ auto.interval_days
            ⧺ " :subject "
            ⧺ subject
            ⧺ " "
            ⧺ body
            ⧺ ";")
          ∷ [])
        ⧺ rest)
      ≡ Lexeme.word "vacation"
        ∷ Lexeme.word ":days"
        ∷ Lexeme.word (show_ℕ auto.interval_days)
        ∷ Lexeme.word ":subject"
        ∷ Lexeme.text auto.subject
        ∷ Lexeme.text (unix_lines auto.body ⧺ "\n")
        ∷ Lexeme.mark b';'
        ∷ lex Mode.between rest
unfolding lines_text lex step start end_word
read-vacation auto subject body rest h k =
    let days = show_ℕ auto.interval_days in
    let shown : List Lexeme → List Lexeme =
      λ (l : List Lexeme). Lexeme.word "vacation" ∷ Lexeme.word ":days" ∷ l in
    let counted : List Lexeme → List Lexeme =
      λ (l : List Lexeme). shown (Lexeme.word days ∷ Lexeme.word ":subject" ∷ l) in
    ap (λ (t : String). shown (lex Mode.between t))
      (append_assoc (days ⧺ " :subject " ⧺ subject ⧺ " " ⧺ body ⧺ ";") "\n" rest
        ∙ append_assoc days (" :subject " ⧺ subject ⧺ " " ⧺ body ⧺ ";") ("\n" ⧺ rest))
    ∙ ap shown (
        read-number days (":subject " ⧺ (subject ⧺ " " ⧺ body ⧺ ";") ⧺ "\n" ⧺ rest)
          (all_chars-show_ℕ auto.interval_days) (truthy-show_ℕ auto.interval_days))
    ∙ ap (λ (t : String). counted (lex Mode.between t))
        (append_assoc subject (" " ⧺ body ⧺ ";") ("\n" ⧺ rest))
    ∙ ap counted (read-quoted auto.subject 180 (" " ⧺ (body ⧺ ";") ⧺ "\n" ⧺ rest) h)
    ∙ ap (λ (t : String). counted (Lexeme.text auto.subject ∷ lex Mode.between t))
        (append_assoc body ";" ("\n" ⧺ rest))
    ∙ ap (λ (l : List Lexeme). counted (Lexeme.text auto.subject ∷ l))
        (read-multiline auto.body (";\n" ⧺ rest) k)

pub vacation-Reads :
    (auto : Autoresponder) {lines : List String}
    → vacation_lines auto ≡ some lines
    → Reads lines (vacation_tokens auto)
unfolding vacation_lines vacation_line
vacation-Reads auto {lines} h rest = elim (Bool-cases auto.enabled) [
  | inr off ↦
      let k : some [] ≡ some lines = rw (vacation_lines, off) at h in
      let same : ◌≡◌ {A = List String} [] lines = cc k in
      rw (← same, off) (unfold lines_text in refl)
  | inl on ↦ elim (Option-cases (vacation_line auto)) [
    | inl bad ↦ absurd (cc (rw (vacation_lines, on, bad) at h))
    | inr (line, e) ↦
        let k : some (line ∷ []) ≡ some lines = rw (vacation_lines, on, e) at h in
        let same : line ∷ [] ≡ lines = cc k in
        let (subject, e1, e') = bind_some (quoted auto.subject 180) _ e in
        let (body, e2, e3) = bind_some (multiline auto.body) _ e' in
        let line_lem : "vacation :days "
              ⧺ show_ℕ auto.interval_days
              ⧺ " :subject "
              ⧺ subject
              ⧺ " "
              ⧺ body
              ⧺ ";"
            ≡ line =
          cc e3 in
        rw (← same, ← line_lem, on) (read-vacation auto subject body rest e1 e2)
  ]
]
