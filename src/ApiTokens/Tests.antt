-- ===== src/ApiTokens/Tests.antt =====
-- Runs of panel/api_tokens.py and panel/routes_api_tokens.py.
use nexvary_panel.Base.{NoBody, eqb, ◌==◌, ◌≡◌, refl, String, true, false, none, some, [], ◌∷◌}
use nexvary_panel.Base.Json.{Json, Items}
use nexvary_panel.ApiTokens.Store.{TokenRow, Db, is_api_token}
use nexvary_panel.ApiTokens.Routes.{api_token_revoke}
use nexvary_panel.Web.{Context}
use nexvary_panel.Base.Lists.{all, any, find, update}
use nexvary_panel.Base.Text.{all_chars, chars, lstrip, prefix, rstrip, strip, suffix}
use nexvary_panel.Base.Sets.{contains}
use nexvary_panel.ApiTokens.Bearer.{
  Access, any_unknown, bearer_scope, check_scopes, check_stored, check_token, has_scope,
  header_token, scope_allowed,
}
use nexvary_panel.ApiTokens.Access.{IsActive, granted_bearer, revoked_denied}

unfold_all : NoBody
unfolding any_unknown bearer_scope check_scopes check_stored check_token has_scope header_token
    scope_allowed is_api_token api_token_revoke all any find update all_chars chars lstrip prefix
    rstrip strip suffix contains
unfold_all = tt

abbrev admin : Context
admin = record {
  caller = record { user = some "root"; role = some "admin" };
  now = 8;
  audited = 8;
  ip = "::1";
}

abbrev plain_hash : String → String
plain_hash s = s

abbrev reader : TokenRow
reader = record {
  id = 7;
  name = "reader";
  token_hash = "nvp_0123456789012345678901234567890123456789";
  scopes = some (Json.list "['sites:read']" (Items.item (Json.str "sites:read") Items.stop));
  created_by = "admin";
  created_at = 5;
  last_used_at = none;
  revoked_at = none;
}

abbrev store : Db
store = record { tokens = reader ∷ []; next_id = 8; audit = [] }

abbrev used : Db
used = record store { tokens = record reader { last_used_at = some 9 } ∷ [] }

abbrev header : String
header = "Bearer nvp_0123456789012345678901234567890123456789"

abbrev two : Db
two = record store { tokens = record reader { id = 6; token_hash = "other" } ∷ reader ∷ [] }

other_scope_test :
    bearer_scope plain_hash "hosting:read" 9 header store ≡ Access.denied 403 "token scope denied"
unfolding unfold_all
other_scope_test = refl

granted_bearer_example :
    (token : String) × (row : TokenRow) × (header_token header ≡ some token)
    × (is_api_token token ≡ true)
    × (find (λ (r : TokenRow). r.token_hash == plain_hash token) store.tokens ≡ some row)
    × (IsActive "sites:read" row × (row.id ≡ 7))
unfolding unfold_all
granted_bearer_example = granted_bearer plain_hash "sites:read" header 9 7 store used refl

abbrev after_revoke : Db
after_revoke = record {
  tokens =
      record reader { id = 6; token_hash = "other"; revoked_at = some 8 }
      ∷ (record reader { last_used_at = some 9 })
      ∷ [];
  next_id = 8;
  audit = (api_token_revoke admin 6 two).1.audit;
}

revoked_denied_example : eqb 7 6 ≡ false
unfolding unfold_all
revoked_denied_example =
    revoked_denied plain_hash admin 6 7 9 "sites:read" header
      (record reader { id = 6; token_hash = "other" }) two after_revoke refl refl refl
