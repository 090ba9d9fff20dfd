-- ===== src/MailRules/Scripts.antt =====
-- The script that `_build_script` of agent/mail_sieve.py writes, read by an interpreter.
use mathlib.Core.List.{append-nil as list_nil}
use nexvary_panel.Base.{String, ◌≡◌, ap, sym, ◌∙◌, false, some, List, ◌∷◌, ◌++◌, bind_some}
use nexvary_panel.Base.Text.{◌⧺◌, append-nil as text_nil}
use nexvary_panel.MailRules.Rules.{Autoresponder, Filter, Spam}
use nexvary_panel.MailRules.Script.{
  filters_lines, requires, require_lines, global_lines, spam_lines, vacation_lines, build_script,
}
use nexvary_panel.MailRules.Lexer.{Mode, finish, start, step, lex}
use nexvary_panel.MailRules.Meaning.{script_tokens}
use nexvary_panel.MailRules.Quote.{join_lines}
use nexvary_panel.MailRules.Blocks.{lines_text, join_lines_text}
use nexvary_panel.MailRules.Sections.{
  Reads, Reads-append, filters-Reads, require-Reads, global-Reads, spam-Reads, vacation-Reads,
}

-- A script that is built is, to an interpreter, the tokens of its rules and no others: the
-- extensions that they need, the account's filters, the spam rule, the mailbox's filters and the
-- autoresponder, with each name, pattern, destination, subject and body inside one token, as it was
-- given.
pub script_lexed :
    (auto : Autoresponder) (filters : List Filter) (spam : Spam) (global_filters : List Filter)
    (script : String)
    → build_script auto filters spam global_filters ≡ some script
    → lex Mode.between script ≡ script_tokens auto filters spam global_filters
unfolding build_script lines_text lex step start finish
script_lexed auto filters spam global_filters script h =
    let (required, e, h1) =
      bind_some (require_lines (requires auto filters spam global_filters)) _ h in
    let (global, e1, h2) = bind_some (global_lines global_filters) _ h1 in
    let (own, e2, h3) = bind_some (filters_lines false filters) _ h2 in
    let (vacation, e3, h4) = bind_some (vacation_lines auto) _ h3 in
    let lines : List String = required ++ (global ++ (spam_lines spam ++ (own ++ vacation))) in
    let first : String = "# Managed by Nexvary Panel. Do not edit manually." in
    let same : join_lines (first ∷ lines) ⧺ "\n" ≡ script = cc h4 in
    let reads : Reads lines (script_tokens auto filters spam global_filters) =
      Reads-append required _ _ _ (require-Reads (requires auto filters spam global_filters) e) (
        Reads-append global _ _ _ (global-Reads global_filters e1) (
          Reads-append (spam_lines spam) _ _ _ (spam-Reads spam) (
            Reads-append own vacation _ _ (filters-Reads false filters e2)
              (vacation-Reads auto e3)))) in
    ap (lex Mode.between) (sym same ∙ join_lines_text first lines)
    ∙ ap (lex Mode.between) (sym (text_nil (lines_text lines)))
    ∙ reads ""
    ∙ list_nil (script_tokens auto filters spam global_filters)
