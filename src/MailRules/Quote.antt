-- ===== src/MailRules/Quote.antt =====
-- Texts of a Sieve script: `_quoted` and `_multiline` of agent/mail_sieve.py.
use Prim.Native.Char.{code}
use Prim.Native.String.{[], ◌∷◌}
use nexvary_panel.Base.{ℕ, String, ◌||◌, ◌&&◌, Option, none, some, eqb, ltb, if◌then◌else◌}
use mathlib.Core.List.{List, map}
use nexvary_panel.Base.Text.{◌⧺◌, chars, any_char}
use nexvary_panel.Base.Names.{split}

-- `s.replace(c, w)` of a single character
unfoldable pub replace_char : ℕ → String → String → String
replace_char k w [] = []
replace_char k w (c ∷ s) = if eqb (code c) k then w ⧺ replace_char k w s else c ∷ replace_char k w s

-- what `_quoted` does to a text before it quotes it
unfoldable pub escaped : String → String
escaped text = replace_char b'"' "\\\"" (replace_char b'\\' "\\\\" text)

-- `_quoted(value, limit)`; `none` is a ValueError
unfoldable pub quoted : String → ℕ → Option String
quoted text limit =
    if ltb limit (chars text) || any_char (λ c. eqb c 0 || eqb c 13 || eqb c 10) text
    then none
    else some ("\"" ⧺ escaped text ⧺ "\"")

-- `s.replace("\r\n", "\n")`
unfoldable pub join_crlf : String → String
join_crlf [] = []
join_crlf (c ∷ []) = c ∷ []
join_crlf (c ∷ d ∷ s) =
    let short = join_crlf s in
    let long = join_crlf (d ∷ s) in
    if eqb (code c) 13 && eqb (code d) 10 then d ∷ short else c ∷ long

-- the text with one newline at the end of each line
unfoldable pub unix_lines : String → String
unix_lines text = replace_char 13 "\n" (join_crlf text)

-- `"." + line if line.startswith(".") else line`
unfoldable pub stuff : String → String
stuff [] = []
stuff (c ∷ s) = if eqb (code c) b'.' then "." ⧺ (c ∷ s) else c ∷ s

-- `"\n".join(lines)`
unfoldable pub join_lines : List String → String
join_lines List.[] = []
join_lines (List.◌∷◌ l List.[]) = l
join_lines (List.◌∷◌ l (List.◌∷◌ m ls)) = l ⧺ "\n" ⧺ join_lines (List.◌∷◌ m ls)

-- `_multiline(value)`; `none` is a ValueError
unfoldable pub multiline : String → Option String
multiline value =
    let text = unix_lines value in
    if ltb 5000 (chars text) || any_char (λ c. eqb c 0) text
    then none
    else some ("text:\n" ⧺ join_lines (map stuff (split 10 text)) ⧺ "\n.\n")
