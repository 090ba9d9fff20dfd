-- ===== src/MailRules/Lexer.antt =====
-- The tokens of a Sieve script (RFC 5228, 2), as an interpreter finds them one character at a time.
-- It does not follow the code that writes the scripts.
use Prim.Native.Char.{Char, code}
use Prim.Native.String.{[], ◌∷◌}
use mathlib.Core.List.{List, ◌++◌}
use nexvary_panel.Base.{ℕ, String, ◌==◌, Bool, ◌||◌, eqb, if◌then◌else◌}
use nexvary_panel.Base.Text.{◌⧺◌, is_alnum}

-- A word is an identifier, a tag or a number. `unclosed` is a text that does not end.
pub data Lexeme : Type 0 where
  word : String → Lexeme
  text : String → Lexeme
  mark : ℕ → Lexeme
  unclosed : Lexeme

-- Where the reader is, with what it has of the token that it reads. `line` is the inside of a
-- multi-line text, `line_start` the start of a line of it, and `dot` stands after a dot there.
pub data Mode : Type 0 where
  between : Mode
  comment : Mode
  in_word : String → Mode
  in_text : String → Mode
  escape : String → Mode
  body_head : Mode
  line_start : String → Mode
  line : String → Mode
  dot : String → Mode

abbrev pub Step : Type 0
Step = List Lexeme × Mode

abbrev pub is_blank : ℕ → Bool
is_blank c = eqb c b' ' || eqb c 9 || eqb c 10 || eqb c 13

abbrev pub is_word_char : ℕ → Bool
is_word_char c = is_alnum c || eqb c b'_' || eqb c b':'

-- a character that starts a token
unfoldable pub start : Char → Step
start c =
    if is_blank (code c)
    then (List.[], Mode.between)
    else if eqb (code c) b'#'
    then (List.[], Mode.comment)
    else if eqb (code c) b'"'
    then (List.[], Mode.in_text [])
    else if is_word_char (code c)
    then (List.[], Mode.in_word (c ∷ []))
    else (List.◌∷◌ (Lexeme.mark (code c)) List.[], Mode.between)

-- the end of a word at a character
unfoldable pub end_word : String → Char → Step
unfolding start
end_word w c =
    if w == "text:"
    then (if eqb (code c) 10 then (List.[], Mode.line_start []) else (List.[], Mode.body_head))
    else (List.◌∷◌ (Lexeme.word w) (start c).0, (start c).1)

unfoldable pub step : Mode → Char → Step
unfolding start end_word
step Mode.between c = start c
step Mode.comment c = (List.[], if eqb (code c) 10 then Mode.between else Mode.comment)
step (Mode.in_word w) c =
    if is_word_char (code c) then (List.[], Mode.in_word (w ⧺ (c ∷ []))) else end_word w c
step (Mode.in_text t) c =
    if eqb (code c) b'"'
    then (List.◌∷◌ (Lexeme.text t) List.[], Mode.between)
    else if eqb (code c) b'\\'
    then (List.[], Mode.escape t)
    else (List.[], Mode.in_text (t ⧺ (c ∷ [])))
step (Mode.escape t) c = (List.[], Mode.in_text (t ⧺ (c ∷ [])))
step Mode.body_head c = (List.[], if eqb (code c) 10 then Mode.line_start [] else Mode.body_head)
step (Mode.line_start t) c = if eqb (code c) b'.' then (List.[], Mode.dot t) else (
  List.[],
  (if eqb (code c) 10 then Mode.line_start (t ⧺ (c ∷ [])) else Mode.line (t ⧺ (c ∷ []))),
)
step (Mode.line t) c =
    (List.[], if eqb (code c) 10 then Mode.line_start (t ⧺ (c ∷ [])) else Mode.line (t ⧺ (c ∷ [])))
step (Mode.dot t) c =
    if eqb (code c) 10
    then (List.◌∷◌ (Lexeme.text t) List.[], Mode.between)
    else (List.[], Mode.line (t ⧺ (c ∷ [])))

unfoldable pub finish : Mode → List Lexeme
finish Mode.between = List.[]
finish Mode.comment = List.[]
finish (Mode.in_word w) = List.◌∷◌ (Lexeme.word w) List.[]
finish m = List.◌∷◌ Lexeme.unclosed List.[]

unfoldable pub lex : Mode → String → List Lexeme
unfolding step finish
lex m [] = finish m
lex m (c ∷ s) = (step m c).0 ++ lex (step m c).1 s
