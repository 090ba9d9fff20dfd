-- ===== src/MailRules/Meaning.antt =====
-- The tokens that the script of a mailbox should consist of, from its rules alone. They are a
-- description of what `_build_script` of agent/mail_sieve.py is for.
use nexvary_panel.Base.{String, ◌==◌, Bool, true, false, ◌&&◌, List, [], ◌∷◌, ◌++◌, if◌then◌else◌}
use nexvary_panel.Base.Text.{◌⧺◌}
use nexvary_panel.Base.Json.{show_ℕ}
use nexvary_panel.MailRules.Quote.{unix_lines}
use nexvary_panel.MailRules.Rules.{Autoresponder, Filter, Spam}
use nexvary_panel.MailRules.Script.{requires}
use nexvary_panel.MailRules.Lexer.{Lexeme}

-- the header that a filter reads
abbrev pub header_text : Bool → Filter → String
header_text global_scope f =
    if global_scope && f.field == "header"
    then f.header_name
    else if f.field == "from"
    then "From"
    else if f.field == "to"
    then "To"
    else if f.field == "subject"
    then "Subject"
    else "X-Spam-Flag"

abbrev pub comparator_text : Filter → String
comparator_text f = if f.match_type == "contains" then ":contains" else ":is"

abbrev pub stop_tokens : List Lexeme
stop_tokens = Lexeme.word "stop" ∷ Lexeme.mark b';' ∷ Lexeme.mark b'}' ∷ []

abbrev pub action_tokens : Filter → List Lexeme
action_tokens f =
    if f.action == "fileinto"
    then Lexeme.word "fileinto"
      ∷ Lexeme.word ":create"
      ∷ Lexeme.text f.destination
      ∷ Lexeme.mark b';'
      ∷ []
    else if f.action == "redirect"
    then Lexeme.word "redirect" ∷ Lexeme.text f.destination ∷ Lexeme.mark b';' ∷ []
    else Lexeme.word "discard" ∷ Lexeme.mark b';' ∷ []

abbrev pub filter_tokens : Bool → Filter → List Lexeme
filter_tokens global_scope f =
    Lexeme.word "if"
    ∷ Lexeme.word "header"
    ∷ Lexeme.word (comparator_text f)
    ∷ Lexeme.text (header_text global_scope f)
    ∷ Lexeme.text f.pattern_text
    ∷ Lexeme.mark b'{'
    ∷ (action_tokens f ++ stop_tokens)

abbrev pub filters_tokens : Bool → List Filter → List Lexeme
filters_tokens global_scope [] = []
filters_tokens global_scope (f ∷ fs) =
    filter_tokens global_scope f ++ filters_tokens global_scope fs

abbrev pub name_tokens : List String → List Lexeme
name_tokens [] = []
name_tokens (n ∷ []) = Lexeme.text n ∷ []
name_tokens (n ∷ m ∷ l) = Lexeme.text n ∷ Lexeme.mark b',' ∷ name_tokens (m ∷ l)

abbrev pub require_tokens : List String → List Lexeme
require_tokens [] = []
require_tokens (n ∷ l) =
    Lexeme.word "require"
    ∷ Lexeme.mark b'['
    ∷ (name_tokens (n ∷ l) ++ Lexeme.mark b']' ∷ Lexeme.mark b';' ∷ [])

abbrev pub spam_tokens : Spam → List Lexeme
spam_tokens spam =
    if spam.enabled
    then Lexeme.word "if"
      ∷ Lexeme.word "header"
      ∷ Lexeme.word ":is"
      ∷ Lexeme.text "X-Spam-Flag"
      ∷ Lexeme.text "YES"
      ∷ Lexeme.mark b'{'
      ∷ ((if spam.action == "junk"
            then Lexeme.word "fileinto"
              ∷ Lexeme.word ":create"
              ∷ Lexeme.text "Junk"
              ∷ Lexeme.mark b';'
              ∷ []
            else Lexeme.word "discard" ∷ Lexeme.mark b';' ∷ [])
          ++ stop_tokens)
    else []

abbrev pub vacation_tokens : Autoresponder → List Lexeme
vacation_tokens auto =
    if auto.enabled
    then Lexeme.word "vacation"
      ∷ Lexeme.word ":days"
      ∷ Lexeme.word (show_ℕ auto.interval_days)
      ∷ Lexeme.word ":subject"
      ∷ Lexeme.text auto.subject
      ∷ Lexeme.text (unix_lines auto.body ⧺ "\n")
      ∷ Lexeme.mark b';'
      ∷ []
    else []

-- the required extensions, then the rules in the order in which they take effect
abbrev pub script_tokens : Autoresponder → List Filter → Spam → List Filter → List Lexeme
script_tokens auto filters spam global_filters =
    require_tokens (requires auto filters spam global_filters)
    ++ (filters_tokens true global_filters
        ++ (spam_tokens spam ++ (filters_tokens false filters ++ vacation_tokens auto)))
