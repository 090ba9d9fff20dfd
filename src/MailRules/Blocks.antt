-- ===== src/MailRules/Blocks.antt =====
-- The lines that `_append_filter` of agent/mail_sieve.py writes, read by an interpreter.
use mathlib.Core.Path.{subst}
use mathlib.Core.List.{append_assoc as list_assoc}
use nexvary_panel.Base.{
  String, ◌==◌, ◌≡◌, refl, ap, sym, ◌∙◌, ◌⊎◌, inl, inr, Bool, true, false, some, List, [], ◌∷◌,
  ◌++◌, bind_some, arith, Bool-cases, Option-cases, eq_iff,
}
use nexvary_panel.Base.Sets.{lookup}
use nexvary_panel.Base.Text.{◌⧺◌, append_assoc}
use nexvary_panel.MailRules.Quote.{quoted, join_lines}
use nexvary_panel.MailRules.Rules.{Filter, match_types}
use nexvary_panel.MailRules.Script.{filter_header, action_line, filter_lines}
use nexvary_panel.MailRules.Lexer.{Lexeme, Mode, start, end_word, step, lex}
use nexvary_panel.MailRules.Meaning.{
  header_text, comparator_text, stop_tokens, action_tokens, filter_tokens,
}
use nexvary_panel.MailRules.Reading.{read-quoted}

-- the lines, each with its newline
unfoldable pub lines_text : List String → String
lines_text [] = ""
lines_text (l ∷ ls) = l ⧺ "\n" ⧺ lines_text ls

pub join_lines_text :
    (l : String) (ls : List String) → join_lines (l ∷ ls) ⧺ "\n" ≡ lines_text (l ∷ ls)
unfolding join_lines lines_text
join_lines_text l [] = refl
join_lines_text l (m ∷ ls) =
    append_assoc l ("\n" ⧺ join_lines (m ∷ ls)) "\n" ∙ ap (λ t. l ⧺ "\n" ⧺ t) (join_lines_text m ls)

pub lines_text-append :
    (ls ms : List String) (rest : String)
    → lines_text (ls ++ ms) ⧺ rest ≡ lines_text ls ⧺ lines_text ms ⧺ rest
unfolding lines_text
lines_text-append [] ms rest = refl
lines_text-append (l ∷ ls) ms rest =
    append_assoc l ("\n" ⧺ lines_text (ls ++ ms)) rest
    ∙ ap (λ t. l ⧺ "\n" ⧺ t) (lines_text-append ls ms rest)
    ∙ sym (append_assoc l ("\n" ⧺ lines_text ls) (lines_text ms ⧺ rest))

read-pair :
    (hq pq header pattern rest : String)
    → quoted header 64 ≡ some hq
    → quoted pattern 200 ≡ some pq
    → lex Mode.between ((hq ⧺ " " ⧺ pq ⧺ " {") ⧺ rest)
      ≡ Lexeme.text header ∷ Lexeme.text pattern ∷ Lexeme.mark b'{' ∷ lex Mode.between rest
unfolding lex step start
read-pair hq pq header pattern rest h p =
    ap (lex Mode.between) (append_assoc hq (" " ⧺ pq ⧺ " {") rest)
    ∙ read-quoted header 64 (" " ⧺ (pq ⧺ " {") ⧺ rest) h
    ∙ ap (λ (t : String). Lexeme.text header ∷ lex Mode.between t) (append_assoc pq " {" rest)
    ∙ ap (λ (l : List Lexeme). Lexeme.text header ∷ l) (read-quoted pattern 200 (" {" ⧺ rest) p)

-- A line of a filter's test, up to what follows it.
read-test :
    (comparator hq pq header pattern rest : String)
    → (comparator ≡ ":contains") ⊎ (comparator ≡ ":is")
    → quoted header 64 ≡ some hq
    → quoted pattern 200 ≡ some pq
    → lex Mode.between (("if header " ⧺ comparator ⧺ " " ⧺ hq ⧺ " " ⧺ pq ⧺ " {") ⧺ rest)
      ≡ Lexeme.word "if"
        ∷ Lexeme.word "header"
        ∷ Lexeme.word comparator
        ∷ Lexeme.text header
        ∷ Lexeme.text pattern
        ∷ Lexeme.mark b'{'
        ∷ lex Mode.between rest
unfolding lex step start end_word
read-test comparator hq pq header pattern rest (inl e) h p =
    subst
      (λ (k : String).
        lex Mode.between (("if header " ⧺ k ⧺ " " ⧺ hq ⧺ " " ⧺ pq ⧺ " {") ⧺ rest)
        ≡ Lexeme.word "if"
          ∷ Lexeme.word "header"
          ∷ Lexeme.word k
          ∷ Lexeme.text header
          ∷ Lexeme.text pattern
          ∷ Lexeme.mark b'{'
          ∷ lex Mode.between rest)
      (sym e)
      (ap
        (λ (l : List Lexeme). Lexeme.word "if" ∷ Lexeme.word "header" ∷ Lexeme.word ":contains" ∷ l)
        (read-pair hq pq header pattern rest h p))
read-test comparator hq pq header pattern rest (inr e) h p =
    subst
      (λ (k : String).
        lex Mode.between (("if header " ⧺ k ⧺ " " ⧺ hq ⧺ " " ⧺ pq ⧺ " {") ⧺ rest)
        ≡ Lexeme.word "if"
          ∷ Lexeme.word "header"
          ∷ Lexeme.word k
          ∷ Lexeme.text header
          ∷ Lexeme.text pattern
          ∷ Lexeme.mark b'{'
          ∷ lex Mode.between rest)
      (sym e)
      (ap (λ (l : List Lexeme). Lexeme.word "if" ∷ Lexeme.word "header" ∷ Lexeme.word ":is" ∷ l)
        (read-pair hq pq header pattern rest h p))

read-action :
    (f : Filter) (line rest : String)
    → action_line f ≡ some line
    → lex Mode.between (line ⧺ "\n" ⧺ rest) ≡ action_tokens f ++ lex Mode.between rest
unfolding action_line lex step start end_word
read-action f line rest h = elim (Bool-cases (f.action == "fileinto")) [
  | inl into ↦ elim (Option-cases (quoted f.destination 64)) [
    | inl bad ↦ absurd (cc (rw (action_line, into, bad) at h))
    | inr (q, e) ↦
        let k : some ("  fileinto :create " ⧺ q ⧺ ";") ≡ some line =
          rw (action_line, into, e) at h in
        let same : "  fileinto :create " ⧺ q ⧺ ";" ≡ line = cc k in
        rw (← same, into)
          (ap (λ (t : String). Lexeme.word "fileinto" ∷ Lexeme.word ":create" ∷ lex Mode.between t)
              (append_assoc q ";" ("\n" ⧺ rest))
            ∙ ap (λ (l : List Lexeme). Lexeme.word "fileinto" ∷ Lexeme.word ":create" ∷ l)
                (read-quoted f.destination 64 (";\n" ⧺ rest) e))
  ]
  | inr not_into ↦ elim (Bool-cases (f.action == "redirect")) [
    | inl redirect ↦ elim (Option-cases (quoted f.destination 320)) [
      | inl bad ↦ absurd (cc (rw (action_line, not_into, redirect, bad) at h))
      | inr (q, e) ↦
          let k : some ("  redirect " ⧺ q ⧺ ";") ≡ some line =
            rw (action_line, not_into, redirect, e) at h in
          let same : "  redirect " ⧺ q ⧺ ";" ≡ line = cc k in
          rw (← same, not_into, redirect)
            (ap (λ (t : String). Lexeme.word "redirect" ∷ lex Mode.between t)
                (append_assoc q ";" ("\n" ⧺ rest))
              ∙ ap (λ (l : List Lexeme). Lexeme.word "redirect" ∷ l)
                  (read-quoted f.destination 320 (";\n" ⧺ rest) e))
    ]
    | inr other ↦
        let k : some "  discard;" ≡ some line = rw (action_line, not_into, other) at h in
        let same : "  discard;" ≡ line = cc k in rw (← same, not_into, other) refl
  ]
]

-- Equality of texts is symmetric, as a test.
flip : (a b : String) → (a == b) ≡ (b == a)
flip a b = ground (arith, eq_iff a b, eq_iff b a)

comparator_cases :
    (f : Filter) {k : String}
    → lookup f.match_type match_types ≡ some k
    → (comparator_text f ≡ k) × ((k ≡ ":contains") ⊎ (k ≡ ":is"))
unfolding lookup
comparator_cases f {k} h = elim (Bool-cases ("contains" == f.match_type)) [
  | inl first ↦
      let e : some ":contains" ≡ some k = rw (lookup, first) at h in
      let same : ":contains" ≡ k = cc e in
      (rw (flip f.match_type "contains", first) same, inl (sym same))
  | inr other ↦ elim (Bool-cases ("is" == f.match_type)) [
    | inl second ↦
        let e : some ":is" ≡ some k = rw (lookup, other, second) at h in
        let same : ":is" ≡ k = cc e in
        (rw (flip f.match_type "contains", other) same, inr (sym same))
    | inr neither ↦ absurd (cc (rw (lookup, other, neither) at h))
  ]
]

header_lem :
    (global_scope : Bool) (f : Filter) {k : String}
    → filter_header global_scope f ≡ some k
    → header_text global_scope f ≡ k
unfolding filter_header lookup
header_lem true f {k} h = ground (
  arith,
  h,
  flip f.field "header",
  flip f.field "from",
  flip f.field "to",
  flip f.field "subject",
)
header_lem false f {k} h =
    ground (arith, h, flip f.field "from", flip f.field "to", flip f.field "subject")

read-block :
    (f : Filter) (comparator hq pq header action rest : String)
    → (comparator ≡ ":contains") ⊎ (comparator ≡ ":is")
    → quoted header 64 ≡ some hq
    → quoted f.pattern_text 200 ≡ some pq
    → action_line f ≡ some action
    → lex Mode.between (
        lines_text
          (("if header " ⧺ comparator ⧺ " " ⧺ hq ⧺ " " ⧺ pq ⧺ " {") ∷ action ∷ "  stop;" ∷ "}" ∷ [])
        ⧺ rest)
      ≡ Lexeme.word "if"
        ∷ Lexeme.word "header"
        ∷ Lexeme.word comparator
        ∷ Lexeme.text header
        ∷ Lexeme.text f.pattern_text
        ∷ Lexeme.mark b'{'
        ∷ ((action_tokens f ++ stop_tokens) ++ lex Mode.between rest)
unfolding lines_text lex step start end_word
read-block f comparator hq pq header action rest cases h p a =
    let open_tokens : List Lexeme → List Lexeme = λ (l : List Lexeme).
      Lexeme.word "if"
      ∷ Lexeme.word "header"
      ∷ Lexeme.word comparator
      ∷ Lexeme.text header
      ∷ Lexeme.text f.pattern_text
      ∷ Lexeme.mark b'{'
      ∷ l in
    ap (lex Mode.between) (
      append_assoc ("if header " ⧺ comparator ⧺ " " ⧺ hq ⧺ " " ⧺ pq ⧺ " {")
        ("\n" ⧺ action ⧺ "\n  stop;\n}\n") rest)
    ∙ read-test comparator hq pq header f.pattern_text ("\n" ⧺ (action ⧺ "\n  stop;\n}\n") ⧺ rest)
        cases h p
    ∙ ap (λ (t : String). open_tokens (lex Mode.between t))
        (append_assoc action "\n  stop;\n}\n" rest)
    ∙ ap open_tokens (read-action f action ("  stop;\n}\n" ⧺ rest) a)
    ∙ ap open_tokens (sym (list_assoc (action_tokens f) stop_tokens (lex Mode.between rest)))

-- The lines of a filter are its tokens.
pub read-filter :
    (global_scope : Bool) (f : Filter) (rest : String) {lines : List String}
    → filter_lines global_scope f ≡ some lines
    → lex Mode.between (lines_text lines ⧺ rest)
      ≡ filter_tokens global_scope f ++ lex Mode.between rest
unfolding filter_lines
read-filter global_scope f rest {lines} h =
    let (header, e, h1) = bind_some (filter_header global_scope f) _ h in
    let (comparator, e1, h2) = bind_some (lookup f.match_type match_types) _ h1 in
    let (hq, e2, h3) = bind_some (quoted header 64) _ h2 in
    let (pq, e3, h4) = bind_some (quoted f.pattern_text 200) _ h3 in
    let (action, e4, h5) = bind_some (action_line f) _ h4 in
    let test = "if header " ⧺ comparator ⧺ " " ⧺ hq ⧺ " " ⧺ pq ⧺ " {" in
    let same : test ∷ action ∷ "  stop;" ∷ "}" ∷ [] ≡ lines = cc h5 in
    let (named, cases) = comparator_cases f e1 in
    subst
      (λ (ls : List String).
        lex Mode.between (lines_text ls ⧺ rest)
        ≡ filter_tokens global_scope f ++ lex Mode.between rest)
      same
      (rw (named, header_lem global_scope f e)
        (read-block f comparator hq pq header action rest cases e2 e3 e4))
