-- ===== src/MailRules/Tests.antt =====
-- Runs of agent/mail_sieve.py, and its theorems at inputs where they apply.
use nexvary_panel.Base.{String, ◌≡◌, refl, NoBody, true, false, Option, none, some, [], ◌∷◌}
use nexvary_panel.Base.Text.{
  chars, prefix, suffix, strip, lstrip, rstrip, is_space, lower, any_char, all_chars, rstrip_dots,
  split_at_char,
}
use nexvary_panel.Base.Names.{split, push, matches, starts_with_char, ends_with_char}
use nexvary_panel.Base.Sets.{contains, lookup, insert_text, add}
use nexvary_panel.Base.Json.{
  Json, Fields, Items, get, get_or, flag, text_of, int_of, truth, dict_or_empty, str_of, show_ℕ,
}
use nexvary_panel.MailRules.Quote.{
  replace_char, escaped, quoted, join_crlf, unix_lines, stuff, join_lines, multiline,
}
use nexvary_panel.MailRules.Rules.{
  Autoresponder, Filter, Spam, is_folder, is_header, is_local_char, is_email, has_double_dot,
  number_between, autoresponder_of, normalize_autoresponder, header_of, destination_of, has_field,
  filter_of, asked, filters_of, insert_filter, sort_filters, item_length, normalize_filters,
  normalize_spam,
}
use nexvary_panel.MailRules.Script.{
  filter_header, action_line, filter_lines, filters_lines, filter_requires, requires, quoted_names,
  require_lines, global_lines, spam_lines, vacation_line, vacation_lines, build_script,
}
use nexvary_panel.MailRules.Lexer.{Mode, lex}
use nexvary_panel.MailRules.Meaning.{script_tokens}
use nexvary_panel.MailRules.Scripts.{script_lexed}
use nexvary_panel.MailRules.Sync.{
  Files, Call, System, SyncOutcome, after_at, domain_text, add_domains, protected_domains, loops,
  restore, install_compiled, install, compile, try_install, install_script_of, clear, install_rules,
  sync_rules, check_asked, sieve_sync,
}

unfold_all : NoBody
unfolding chars prefix suffix strip lstrip rstrip is_space lower any_char all_chars rstrip_dots
    split_at_char split push matches starts_with_char ends_with_char contains lookup insert_text add
    get get_or flag text_of int_of truth dict_or_empty str_of show_ℕ replace_char escaped quoted
    join_crlf unix_lines stuff join_lines multiline is_folder is_header is_local_char is_email
    has_double_dot number_between autoresponder_of normalize_autoresponder header_of destination_of
    has_field filter_of asked filters_of insert_filter sort_filters item_length normalize_filters
    normalize_spam filter_header action_line filter_lines filters_lines filter_requires requires
    quoted_names require_lines global_lines spam_lines vacation_line vacation_lines build_script
    after_at domain_text add_domains protected_domains loops restore install_compiled install
    compile try_install install_script_of clear install_rules sync_rules check_asked sieve_sync
unfold_all = tt

abbrev away : Autoresponder
away = record { enabled = true; subject = "Say \"hi\""; body = "gone\n.\nback"; interval_days = 7 }

abbrev no_spam : Spam
no_spam = record { enabled = false; action = "junk" }

abbrev offers : Filter
offers = record {
  field = "subject";
  header_name = "";
  match_type = "contains";
  pattern_text = "\";\ndiscard";
  action = "fileinto";
  destination = "Offers";
  priority = 5;
}

abbrev sales : Filter
sales = record offers { pattern_text = "\"; discard; \\" }

abbrev script : String
script =
    "# Managed by Nexvary Panel. Do not edit manually.\nrequire [\"fileinto\", \"mailbox\", \"vacation\"];\nif header :contains \"Subject\" \"\\\"; discard; \\\\\" {\n  fileinto :create \"Offers\";\n  stop;\n}\nvacation :days 7 :subject \"Say \\\"hi\\\"\" text:\ngone\n..\nback\n.\n;\n"

-- A line break in a pattern is refused.
refused_test : build_script away (offers ∷ []) no_spam [] ≡ none
unfolding unfold_all
refused_test = refl

script_lexed_example : lex Mode.between script ≡ script_tokens away (sales ∷ []) no_spam []
unfolding unfold_all
script_lexed_example = script_lexed away (sales ∷ []) no_spam [] script refl

abbrev before : Files
before = record { active = some "old"; compiled = none; tmp_script = none; tmp_bin = none }

-- the compiler is there, and the last call fails
abbrev failing : System
failing = record {
  installed = true;
  sievec = λ s. some "binary";
  fails = λ c. elim c [ Call.own_compiled ↦ true | _ ↦ false ];
}

abbrev no_rules : Json
no_rules = Json.list "[]" Items.stop

abbrev junk_rule : Json
junk_rule = Json.dict "" (Fields.field "enabled" (Json.bool true) Fields.end)

abbrev home : String → Option String
home a = some a

failed_test :
    sieve_sync failing home false "ann@example.org" Json.null no_rules junk_rule Json.null Json.null
      before
    ≡ (SyncOutcome.raised, before)
unfolding unfold_all
failed_test = refl
