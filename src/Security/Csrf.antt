-- ===== src/Security/Csrf.antt =====
-- `csrf_token` and `csrf_guard` of panel/security.py, which runs before every request.
use nexvary_panel.Base.{
  String, ◌==◌, Bool, true, false, ◌&&◌, ◌||◌, Option, none, some, List, [], ◌∷◌, Reply, NoBody,
  starts_with, if◌then◌else◌,
}
use nexvary_panel.Base.Text.{truthy, compare_digest}
use nexvary_panel.Base.Sets.{contains}
use nexvary_panel.Security.Store.{Session, or_empty}
use nexvary_panel.Security.Guards.{Request}

-- `token` is what `secrets.token_urlsafe(32)` gives.
unfoldable pub csrf_token : String → Session → String × Session
csrf_token token s = elim s.csrf [
  | some t ↦ (t, s)
  | none ↦ (token, record s { csrf = some token })
]

abbrev pub mutating_methods : List String
mutating_methods = "POST" ∷ "PUT" ∷ "PATCH" ∷ "DELETE" ∷ []

-- `request.headers.get("X-CSRF-Token") or request.form.get("csrf_token")`
unfoldable pub sent_token : Request → Option String
sent_token r = elim r.csrf_header [
  | none ↦ r.csrf_form
  | some t ↦ if truthy t then some t else r.csrf_form
]

-- the two endpoints that authenticate by a bearer token of their own
unfoldable pub machine_endpoint : Request → Bool
machine_endpoint r =
    (starts_with r.path "/api/dynamic-dns/update/"
      && starts_with r.authorization "Bearer nvp_ddns_")
    || (r.path == "/api/fleet/v1/apply" && starts_with r.authorization "Bearer nvp_fleet_")

compare_tokens : Option String → String → Option (Reply NoBody)
compare_tokens none expected = some (Reply.fail 403 "CSRF validation failed")
compare_tokens (some token) expected =
    if truthy token
    then (elim (compare_digest token expected) [
      | none ↦ some (Reply.raised "TypeError")
      | some true ↦ none
      | some false ↦ some (Reply.fail 403 "CSRF validation failed")
    ])
    else some (Reply.fail 403 "CSRF validation failed")

-- `none` lets the request through.
unfoldable pub csrf_guard : Request → Session → Option (Reply NoBody)
unfolding compare_tokens
csrf_guard r s =
    if contains mutating_methods r.method
    then (if machine_endpoint r then none else compare_tokens (sent_token r) (or_empty s.csrf))
    else none
