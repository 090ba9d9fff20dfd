-- ===== src/AutoSsl/Tests.antt =====
-- Runs of agent/autossl_scheduler.py, and its theorems at inputs where they apply.
use nexvary_panel.Base.{
  ℕ, ◌≤◌, String, ◌≡◌, refl, NoBody, true, ◌&&◌, none, some, List, [], ◌∷◌, arith,
}
use nexvary_panel.Base.Int.{pos, clamp_zero}
use nexvary_panel.Base.Lists.{All, find, select, update, all, count}
use nexvary_panel.Base.Names.{push}
use nexvary_panel.Base.Sets.{contains, add, discard, insert}
use nexvary_panel.Base.Text.{
  chars, prefix, suffix, strip, lstrip, rstrip, is_space, lower, rstrip_dots,
}
use nexvary_panel.Base.Json.{
  Json, Fields, get, get_or, flag, truth, text_of, str_of, list_of, take_items, show_ℕ,
}
use nexvary_panel.Policy
use nexvary_panel.Policy.{
  Caller, LimitColumn, assigned_package, package_for_user, explicit_features, enabled_features,
  base_features, effective_feature_ids, feature_allowed, caller_name, caller_role,
}
use nexvary_panel.Policy.Features.{features, default_account_features}
use nexvary_panel.AutoSsl.Store.{
  SslPolicy, Db, package_of, package_allows, ssl_allowed, insert_alias, sort_aliases, add_names,
  desired_names, is_before, insert_policy, sort_policies, policies_to_check,
}
use nexvary_panel.AutoSsl.Preflight.{
  is_line_break, split_lines, expiry_line, expiry_epoch, name_list, eligible_of, eligible,
  same_names, checks_of, failed_checks, join_checks, preflight_detail,
}
use nexvary_panel.AutoSsl.Check.{
  SslCall, Provider, issued_detail, issued, first_issue, reissue, renew, keep, remaining_of,
  check_expiry, check_names, check_current, check_installed, check_status, check_policy,
}
use nexvary_panel.AutoSsl.Pass.{record_verdict, check_rows, run_once}
use nexvary_panel.AutoSsl.Permitted.{IsPermitted, calls-IsPermitted}
use nexvary_panel.AutoSsl.Agreement.{names_feature, has_package, ssl_allowed_agrees}

unfold_all : NoBody
unfolding clamp_zero find select update all count push contains add discard insert chars prefix
    suffix strip lstrip rstrip is_space lower rstrip_dots get get_or flag truth text_of str_of
    list_of take_items show_ℕ assigned_package package_for_user explicit_features enabled_features
    base_features effective_feature_ids feature_allowed caller_name caller_role features
    default_account_features package_of package_allows ssl_allowed insert_alias sort_aliases
    add_names desired_names is_before insert_policy sort_policies policies_to_check is_line_break
    split_lines expiry_line expiry_epoch name_list eligible_of eligible same_names checks_of
    failed_checks join_checks preflight_detail issued_detail issued first_issue reissue renew keep
    remaining_of check_expiry check_names check_current check_installed check_status check_policy
    record_verdict check_rows run_once
unfold_all = tt

abbrev site_policy : SslPolicy
site_policy = record {
  domain = "a.org";
  owner = "ann";
  contact_email = "ann@a.org";
  auto_renew = true;
  renew_before_days = 30;
  last_check = 0;
  last_renewal = 0;
  last_status = "unknown";
  last_detail = "";
  updated_at = 0;
}

abbrev small : Policy.Db
small = record {
  packages = record { id = 7; name = "Small"; limit = λ c. pos 3; enabled = true } ∷ [];
  features = record { package_id = 7; feature_id = "security.ssl_tls"; enabled = true } ∷ [];
  assignments = record { username = "ann"; package_id = 7 } ∷ [];
}

abbrev db : Db
db = record {
  policies = site_policy ∷ [];
  sites = "a.org" ∷ [];
  users = record { username = "ann"; role = "operator"; enabled = true } ∷ [];
  aliases = record { domain = "a.org"; alias = "WWW.a.org." } ∷ [];
  hosting = small;
  audit = [];
}

abbrev ok : Fields → Fields
ok d = Fields.field "ok" (Json.bool true) d

-- no certificate, and names that are ready
abbrev answers : Provider
answers = record {
  ops = λ c. elim c [
    | SslCall.ssl_status d ↦ ok Fields.end
    | SslCall.ssl_preflight d names ↦ ok (Fields.field "ready" (Json.bool true) Fields.end)
    | SslCall.ssl_issue d names contact ↦ ok Fields.end
    | SslCall.ssl_renew d names contact ↦ ok Fields.end
  ];
  parse_date = λ s. none;
}

abbrev names : List String
names = "a.org" ∷ "www.a.org" ∷ []

issue_test :
    (run_once answers 5000 (λ d. 5001) db).calls
    ≡ SslCall.ssl_status "a.org"
      ∷ SslCall.ssl_preflight "a.org" names
      ∷ SslCall.ssl_issue "a.org" names "ann@a.org"
      ∷ []
unfolding unfold_all
issue_test = refl

again_test :
    let after = (run_once answers 5000 (λ d. 5001) db).db in
    (run_once answers 8600 (λ d. 8600) after).calls ≡ []
unfolding unfold_all
again_test = refl

calls-IsPermitted_example :
    All
      (IsPermitted (λ row. row.owner ≡ "ann") answers 5000 db)
      (run_once answers 5000 (λ d. 5001) db).calls
calls-IsPermitted_example =
    calls-IsPermitted (λ row. row.owner ≡ "ann") answers 5000 (λ d. 5001) db (refl, tt)

abbrev nobody : Caller
nobody = record { user = none; role = none }

one_row : (pid : ℕ) → count (names_feature pid "security.ssl_tls") small.features ≤ 1
unfolding count
one_row pid = ground arith

ssl_allowed_agrees_example : ssl_allowed db "ann" ≡ (
    has_package (package_for_user small "ann" "operator")
    && feature_allowed nobody "security.ssl_tls" (some "ann") (some "operator") small)
unfolding unfold_all
ssl_allowed_agrees_example =
    ssl_allowed_agrees nobody db "ann" "operator"
      (record { username = "ann"; role = "operator"; enabled = true }) refl refl (omega arith) refl
      refl one_row
