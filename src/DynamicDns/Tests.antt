-- ===== src/DynamicDns/Tests.antt =====
-- Runs of dynamic DNS, and its theorems at inputs where they apply. The digest of a text here is
-- the text, and every text is a global IPv4 address.
use nexvary_panel.Base.{ℕ, String, ◌≡◌, refl, true, false, some, [], ◌∷◌, Reply, NoBody, ◌&&◌}
use nexvary_panel.Base.Lists.{find, update, any, select, count, All}
use nexvary_panel.Base.Text.{
  chars, all_chars, any_char, prefix, suffix, strip, lstrip, rstrip, rstrip_dots, lower, upper,
  is_space, compare_digest,
}
use nexvary_panel.Base.Names.{
  is_domain, is_label, is_top_label, split, starts_with_char, ends_with_char,
}
use nexvary_panel.Base.Json.{
  Json, Fields, Body, get, get_or, text_of, flag, int_of, str_of, truth, show_ℕ,
}
use nexvary_panel.Base.Sets.{contains, add, discard, insert, lookup}
use nexvary_panel.Web.{Context, audit_row}
use nexvary_panel.Policy.{
  package_for_user, enabled_features, effective_feature_ids, feature_allowed, caller_name,
  caller_role, explicit_features, base_features,
}
use nexvary_panel.Policy.Features.{features, default_account_features}
use nexvary_panel.DynamicDns.Store.{Row, Target, Db, Call, World}
use nexvary_panel.DynamicDns.Rules.{
  or_empty, ends_with, in_zone, hostname_of, address_of, ttl_of, owner_role, site_scope, target_of,
  provider_payload, is_token, token_from,
}
use nexvary_panel.DynamicDns.Records.{
  rollback, wanted_fields, wanted_of, create_scope, insert_row, create_row, dynamic_dns_create,
  row_in_scope, dynamic_dns_rotate, delete_row, dynamic_dns_delete, row_has_id,
}
use nexvary_panel.DynamicDns.Update.{
  token_audit, check_address, check_row, check_update, update_row, dynamic_dns_update,
}
use nexvary_panel.DynamicDns.Token.{IsOpen, calls_own_record, rotation_revokes}
use nexvary_panel.DynamicDns.Zone.{IsManaged}
use nexvary_panel.DynamicDns.Managed.{Change, Changes, Changes-IsManaged}

unfold_all : NoBody
unfolding find update any select count chars all_chars any_char prefix suffix strip lstrip rstrip
    rstrip_dots lower upper is_space compare_digest is_domain is_label is_top_label split
    starts_with_char ends_with_char get get_or text_of flag int_of str_of truth show_ℕ contains add
    discard insert lookup audit_row package_for_user enabled_features effective_feature_ids
    feature_allowed caller_name caller_role explicit_features base_features features
    default_account_features or_empty ends_with in_zone hostname_of address_of ttl_of owner_role
    site_scope target_of provider_payload is_token token_from rollback wanted_fields wanted_of
    create_scope insert_row create_row dynamic_dns_create row_in_scope dynamic_dns_rotate delete_row
    dynamic_dns_delete token_audit check_address check_row check_update update_row
    dynamic_dns_update
unfold_all = tt

abbrev world : String → World
world token = record {
  ip_address = λ s. some (record {
    version = 4;
    is_global = true;
    is_multicast = false;
    is_unspecified = false;
    text = s;
  });
  sha256 = λ s. s;
  ops = λ c.
      Fields.field "ok" (Json.bool true)
        (Fields.field "provider_record_id" (Json.str "p1") Fields.end);
  token = token;
}

abbrev first_token : String
first_token = "nvp_ddns_00000000000000000000000000000000"

abbrev second_token : String
second_token = "nvp_ddns_11111111111111111111111111111111"

abbrev empty : Db
empty = record {
  records = [];
  next_id = 1;
  sites = record { domain = "a.org"; owner = "admin"; enabled = true } ∷ [];
  bindings = record { domain = "a.org"; target_id = 5 } ∷ [];
  targets =
      record {
        id = 5;
        provider = "powerdns";
        endpoint = "https://d";
        secret_id = "s";
        enabled = true;
      }
      ∷ [];
  users = [];
  policy = record { packages = []; features = []; assignments = [] };
  audit = [];
}

abbrev root : ℕ → Context
root now = record {
  caller = record { user = some "admin"; role = some "admin" };
  now = now;
  audited = now;
  ip = "::1";
}

abbrev body : String → Body
body address = Body.object (
    Fields.field "domain" (Json.str "a.org") (
      Fields.field "hostname" (Json.str "home")
        (Fields.field "address" (Json.str address) Fields.end)))

abbrev created : Db
created = (dynamic_dns_create (world first_token) (root 100) (λ d. d) (body "192.0.2.1") empty).1

abbrev home : Row
home = record {
  id = 1;
  domain = "a.org";
  hostname = "home.a.org";
  record_type = "A";
  target_id = 5;
  provider_record_id = "p1";
  token_hash = first_token;
  ttl = 300;
  last_address = "192.0.2.1";
  last_update = 100;
  enabled = true;
  owner = "admin";
  created_at = 100;
  updated_at = 100;
}

create_test : created.records ≡ home ∷ []
unfolding unfold_all
create_test = refl

abbrev header : String
header = "Bearer nvp_ddns_00000000000000000000000000000000"

abbrev call : Call
call = Call.dns_apply (record {
  provider = "powerdns";
  endpoint = "https://d";
  secret_id = "s";
  domain = "a.org";
  operation = "update";
  record_type = "A";
  record_name = "home.a.org";
  record_value = "192.0.2.9";
  ttl = 300;
  provider_record_id = "p1";
})

early_test :
    (dynamic_dns_update
      (world first_token)
      109
      109
      (λ d. d)
      false
      header
      (body "192.0.2.9")
      1
      created).0
    ≡ Reply.fail 429 "dynamic DNS update rate limited"
unfolding unfold_all
early_test = refl

calls_own_record_example :
    (token : String) × (row : Row) × (target : Target) × (address : String) × (token_from header
      ≡ some token)
    × (find (λ r. row_has_id 1 r && r.enabled) created.records ≡ some row)
    × IsOpen (world first_token) 110 110 token created row target
    × (call ≡ Call.dns_apply (provider_payload row target "update" address))
unfolding unfold_all
calls_own_record_example =
    calls_own_record (world first_token) 110 110 (λ d. d) false header (body "192.0.2.9") 1 created
      call [] refl

rotation_revokes_example :
    let after = (dynamic_dns_rotate (world second_token) (root 105) 1 created).1 in
    let o =
      dynamic_dns_update
        (world second_token)
        120
        120
        (λ d. d)
        false
        header
        (body "192.0.2.9")
        1
        after in
    (o.1 ≡ after) × (o.2 ≡ [])
unfolding unfold_all
rotation_revokes_example =
    rotation_revokes (world second_token) 120 120 (root 105) 1 200 second_token first_token header
      (λ d. d) false (body "192.0.2.9") created refl refl refl

Changes-IsManaged_example : All IsManaged created.records
unfolding unfold_all
Changes-IsManaged_example =
    let steps : Changes empty created =
      Changes.next Changes.here
        (Change.create (world first_token) (root 100) (λ d. d) (body "192.0.2.1") tt) in
    Changes-IsManaged {db = empty} {db' = created} tt steps
