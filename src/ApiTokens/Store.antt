-- ===== src/ApiTokens/Store.antt =====
-- The table `api_tokens` (panel/api_token_schema.py) and the scopes of panel/api_tokens.py.
use nexvary_panel.Base.{ℕ, String, ◌==◌, Bool, ◌&&◌, ◌||◌, Option, List, [], ◌∷◌, leb, eqb}
use nexvary_panel.Base.Json.{Json}
use nexvary_panel.Base.Text.{chars, prefix, suffix, all_chars, is_alnum}
use nexvary_panel.Base.Names.{matches}
use nexvary_panel.Web.{Audit}

-- A row; `scopes` is `none` where `scopes_json` is not JSON.
pub record TokenRow : Type 0 where
  pub id : ℕ
  pub name : String
  pub token_hash : String
  pub scopes : Option Json
  pub created_by : String
  pub created_at : ℕ
  pub last_used_at : Option ℕ
  pub revoked_at : Option ℕ

-- No route deletes a row, so that the next id is a counter.
pub record Db : Type 0 where
  pub tokens : List TokenRow
  pub next_id : ℕ
  pub audit : List Audit

-- `ALLOWED_SCOPES`
abbrev pub allowed_scopes : List String
allowed_scopes = "status:read" ∷ "sites:read" ∷ "hosting:read" ∷ []

-- `TOKEN_RE` and `TOKEN_NAME_RE`, as `fullmatch`
unfoldable pub is_api_token : String → Bool
is_api_token t =
    let rest = suffix 4 t in
    prefix 4 t == "nvp_"
    && leb 40 (chars rest)
    && leb (chars rest) 96
    && all_chars (λ c. is_alnum c || eqb c b'_' || eqb c b'-') rest

unfoldable pub is_token_name : String → Bool
is_token_name s =
    matches is_alnum (λ c. is_alnum c || eqb c b' ' || eqb c b'.' || eqb c b'_' || eqb c b'-') 0 63
      s
