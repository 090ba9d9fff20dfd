-- ===== src/MailRules/Script.antt =====
-- The script: `_filter_header`, `_append_filter` and `_build_script` of agent/mail_sieve.py. `none`
-- is an exception.
use nexvary_panel.Base.{
  String, ◌==◌, Bool, true, false, ◌&&◌, Option, none, some, List, [], ◌∷◌, ◌++◌, ◌>>=◌,
  if◌then◌else◌,
}
use nexvary_panel.Base.Json.{show_ℕ}
use nexvary_panel.Base.Text.{◌⧺◌}
use nexvary_panel.Base.Sets.{lookup, insert_text}
use nexvary_panel.MailRules.Quote.{quoted, multiline, join_lines}
use nexvary_panel.MailRules.Rules.{Autoresponder, Filter, Spam, fields_of, match_types}

-- `_filter_header`; `none` is a KeyError
unfoldable pub filter_header : Bool → Filter → Option String
filter_header global_scope f =
    if global_scope && f.field == "header"
    then some f.header_name
    else lookup f.field (fields_of global_scope)

-- the line of a filter's action
unfoldable pub action_line : Filter → Option String
action_line f =
    if f.action == "fileinto"
    then (elim (quoted f.destination 64) [
      | none ↦ none
      | some q ↦ some ("  fileinto :create " ⧺ q ⧺ ";")
    ])
    else if f.action == "redirect"
    then (elim (quoted f.destination 320) [ none ↦ none | some q ↦ some ("  redirect " ⧺ q ⧺ ";") ])
    else some "  discard;"

-- the lines that `_append_filter` adds
unfoldable pub filter_lines : Bool → Filter → Option (List String)
filter_lines global_scope f = do
  header ← filter_header global_scope f
  comparator ← lookup f.match_type match_types
  h ← quoted header 64
  p ← quoted f.pattern_text 200
  action ← action_line f
  some (("if header " ⧺ comparator ⧺ " " ⧺ h ⧺ " " ⧺ p ⧺ " {") ∷ action ∷ "  stop;" ∷ "}" ∷ [])

unfoldable pub filters_lines : Bool → List Filter → Option (List String)
filters_lines global_scope [] = some []
filters_lines global_scope (f ∷ fs) = do
  here ← filter_lines global_scope f
  rest ← filters_lines global_scope fs
  some (here ++ rest)

-- the extensions that filters need
unfoldable pub filter_requires : List Filter → List String → List String
filter_requires [] names = names
filter_requires (f ∷ fs) names =
    filter_requires fs (
      if f.action == "fileinto"
      then insert_text "fileinto" (insert_text "mailbox" names)
      else names)

-- `sorted(requires)`
unfoldable pub requires : Autoresponder → List Filter → Spam → List Filter → List String
requires auto filters spam global_filters =
    let vacation = if auto.enabled then insert_text "vacation" [] else [] in
    filter_requires (global_filters ++ filters) (
      if spam.enabled && spam.action == "junk"
      then insert_text "fileinto" (insert_text "mailbox" vacation)
      else vacation)

-- `", ".join(_quoted(name, 40) for name in names)`
unfoldable pub quoted_names : List String → Option String
quoted_names [] = some ""
quoted_names (n ∷ []) = quoted n 40
quoted_names (n ∷ m ∷ l) = do q ← quoted n 40; rest ← quoted_names (m ∷ l); some (q ⧺ ", " ⧺ rest)

unfoldable pub require_lines : List String → Option (List String)
require_lines [] = some []
require_lines (n ∷ l) = do names ← quoted_names (n ∷ l); some (("require [" ⧺ names ⧺ "];") ∷ [])

unfoldable pub global_lines : List Filter → Option (List String)
global_lines [] = some []
global_lines (f ∷ fs) = do
  lines ← filters_lines true (f ∷ fs)
  some ("# Account-wide global filters" ∷ lines)

unfoldable pub spam_lines : Spam → List String
spam_lines spam =
    if spam.enabled
    then "if header :is \"X-Spam-Flag\" \"YES\" {"
      ∷ (if spam.action == "junk" then "  fileinto :create \"Junk\";" else "  discard;")
      ∷ "  stop;"
      ∷ "}"
      ∷ []
    else []

unfoldable pub vacation_line : Autoresponder → Option String
vacation_line auto = do
  subject ← quoted auto.subject 180
  body ← multiline auto.body
  some ("vacation :days " ⧺ show_ℕ auto.interval_days ⧺ " :subject " ⧺ subject ⧺ " " ⧺ body ⧺ ";")

unfoldable pub vacation_lines : Autoresponder → Option (List String)
vacation_lines auto =
    if auto.enabled
    then (elim (vacation_line auto) [ none ↦ none | some line ↦ some (line ∷ []) ])
    else some []

-- `_build_script`
unfoldable pub build_script : Autoresponder → List Filter → Spam → List Filter → Option String
build_script auto filters spam global_filters = do
  required ← require_lines (requires auto filters spam global_filters)
  global ← global_lines global_filters
  own ← filters_lines false filters
  vacation ← vacation_lines auto
  some (
      join_lines (
        "# Managed by Nexvary Panel. Do not edit manually."
        ∷ (required ++ (global ++ (spam_lines spam ++ (own ++ vacation)))))
      ⧺ "\n")
