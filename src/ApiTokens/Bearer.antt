-- ===== src/ApiTokens/Bearer.antt =====
-- `bearer_scope` of panel/api_tokens.py: which requests reach a view of the read-only API.
use nexvary_panel.Base.{
  ℕ, String, ◌==◌, Bool, true, false, not, ◌||◌, Option, none, some, eqb, if◌then◌else◌,
  starts_with,
}
use nexvary_panel.Base.Lists.{find, update}
use nexvary_panel.Base.Text.{suffix, strip}
use nexvary_panel.Base.Sets.{contains}
use nexvary_panel.Base.Json.{Json, Items}
use nexvary_panel.ApiTokens.Store.{TokenRow, Db, allowed_scopes, is_api_token}

-- What the decorator does: the view runs with the token's id, or an answer, or an exception.
pub data Access : Type 0 where
  granted : ℕ → Db → Access
  denied : ℕ → String → Access
  raised : String → Access

-- the token of the header, or the error
unfoldable pub header_token : String → Option String
header_token header = if starts_with header "Bearer " then some (strip (suffix 7 header)) else none

-- `scope in ALLOWED_SCOPES`; `none` is the TypeError of a value with no hash
unfoldable pub scope_allowed : Json → Option Bool
scope_allowed (Json.str s) = some (contains allowed_scopes s)
scope_allowed (Json.list s l) = none
scope_allowed (Json.dict s d) = none
scope_allowed v = some false

-- `any(scope not in ALLOWED_SCOPES for scope in scopes)`
unfoldable pub any_unknown : Items → Option Bool
any_unknown Items.stop = some false
any_unknown (Items.item v l) =
    let rest = any_unknown l in
    elim (scope_allowed v) [ none ↦ none | some true ↦ rest | some false ↦ some true ]

abbrev pub is_text : String → Json → Bool
is_text x (Json.str s) = s == x
is_text x v = false

-- `required_scope in scopes`
unfoldable pub has_scope : String → Items → Bool
has_scope x Items.stop = false
has_scope x (Items.item v l) = is_text x v || has_scope x l

-- the row of a token that is not revoked, and its scopes
unfoldable pub check_scopes : String → ℕ → TokenRow → Items → Db → Access
check_scopes required now row scopes db = elim (any_unknown scopes) [
  | none ↦ Access.raised "TypeError"
  | some true ↦ Access.denied 401 "invalid bearer token"
  | some false ↦
      if not (has_scope required scopes)
      then Access.denied 403 "token scope denied"
      else Access.granted row.id (record db {
        tokens =
            update (λ (r : TokenRow). eqb r.id row.id) (λ r. record r { last_used_at = some now })
              db.tokens;
      })
]

-- the stored scopes of a row, if they are a list
unfoldable pub check_stored : String → ℕ → TokenRow → Option Json → Db → Access
check_stored required now row (some (Json.list s scopes)) db =
    check_scopes required now row scopes db
check_stored required now row v db = Access.denied 401 "invalid bearer token"

unfoldable pub check_token : (String → String) → String → ℕ → String → Db → Access
check_token sha256 required now token db =
    elim (find (λ (r : TokenRow). r.token_hash == sha256 token) db.tokens) [
      | none ↦ Access.denied 401 "invalid bearer token"
      | some row ↦ elim row.revoked_at [
        | some _ ↦ Access.denied 401 "invalid bearer token"
        | none ↦ check_stored required now row row.scopes db
      ]
    ]

-- `bearer_scope(required)`, of a scope that is allowed; with `sha256` for `hash_token`.
unfoldable pub bearer_scope : (String → String) → String → ℕ → String → Db → Access
bearer_scope sha256 required now header db = elim (header_token header) [
  | none ↦ Access.denied 401 "bearer token required"
  | some token ↦
      if not (is_api_token token)
      then Access.denied 401 "invalid bearer token"
      else check_token sha256 required now token db
]
