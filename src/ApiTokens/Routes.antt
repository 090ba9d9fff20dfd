-- ===== src/ApiTokens/Routes.antt =====
-- The routes of panel/routes_api_tokens.py that make and revoke tokens, behind their decorators.
use Prim.Native.String.{◌++◌ as ◌+++◌}
use nexvary_panel.Base.{
  ℕ, ◌+◌, String, ◌==◌, Bool, not, ◌||◌, Option, none, some, List, [], ◌∷◌, ◌++◌, eqb, ltb,
  if◌then◌else◌, Reply,
}
use nexvary_panel.Base.Lists.{find, update, any, all, length}
use nexvary_panel.Base.Text.{prefix, strip}
use nexvary_panel.Base.Sets.{contains, insert_text}
use nexvary_panel.Base.Json.{Json, Fields, Items, Body, get_or, text_of, str_of, show_ℕ}
use nexvary_panel.Web.{Context, audit_row, user_or, object_of}
use nexvary_panel.ApiTokens.Store.{TokenRow, Db, allowed_scopes, is_token_name}

-- `sorted({str(scope) for scope in scopes})`
unfoldable pub sorted_scopes : Items → List String
sorted_scopes Items.stop = []
sorted_scopes (Items.item v l) = insert_text (str_of v) (sorted_scopes l)

unfoldable pub item_count : Items → ℕ
item_count Items.stop = 0
item_count (Items.item v l) = item_count l + 1

-- `json.loads(json.dumps(normalized))`
unfoldable pub text_items : List String → Items
text_items [] = Items.stop
text_items (s ∷ l) = Items.item (Json.str s) (text_items l)

-- the scopes that are asked for, sorted, if they are valid
unfoldable pub wanted_scopes : Json → Option (List String)
wanted_scopes (Json.list s l) =
    let normalized = sorted_scopes l in
    if eqb (item_count l) 0
      || ltb 3 (item_count l)
      || not (eqb (length normalized) (item_count l))
      || not (all (contains allowed_scopes) normalized)
    then none
    else some normalized
wanted_scopes v = none

-- `",".join(l)`
unfoldable pub joined : List String → String
joined [] = ""
joined (s ∷ []) = s
joined (s ∷ t ∷ l) = s +++ "," +++ joined (t ∷ l)

abbrev pub token_row : (String → String) → String → Context → String → List String → ℕ → TokenRow
token_row sha256 raw c name scopes id = record {
  id = id;
  name = name;
  token_hash = sha256 raw;
  scopes = some (Json.list "" (text_items scopes));
  created_by = prefix 64 (user_or "admin" c);
  created_at = c.now;
  last_used_at = none;
  revoked_at = none;
}

unfoldable pub create_of : (String → String) → String → Context → Fields → Db → Reply String × Db
create_of sha256 raw c data' db =
    let name = strip (text_of "name" "" data') in
    if not (is_token_name name)
    then (Reply.fail 400 "invalid token name", db)
    else elim (wanted_scopes (get_or "scopes" Json.null data')) [
      | none ↦ (Reply.fail 400 "invalid token scopes", db)
      | some scopes ↦
          if any (λ (r : TokenRow). r.token_hash == sha256 raw) db.tokens
          then (Reply.raised "IntegrityError", db)
          else (
            Reply.done 201 raw,
            record {
              tokens = db.tokens ++ token_row sha256 raw c name scopes db.next_id ∷ [];
              next_id = db.next_id + 1;
              audit =
                  audit_row c "api-token-create" (
                    "id="
                    +++ show_ℕ db.next_id
                    +++ " name="
                    +++ name
                    +++ " scopes="
                    +++ joined scopes)
                  ∷ db.audit;
            },
          )
    ]

-- `raw` is what `generate_token` gives.
unfoldable pub api_token_create :
    (String → String) → String → Context → Body → Db → Reply String × Db
api_token_create sha256 raw c body db = elim (object_of body) [
  | none ↦ (Reply.raised "AttributeError", db)
  | some data' ↦ create_of sha256 raw c data' db
]

abbrev pub token_has_id : ℕ → TokenRow → Bool
token_has_id id r = eqb r.id id

abbrev pub revoke_at : ℕ → TokenRow → TokenRow
revoke_at now r = record r { revoked_at = some now }

unfoldable pub api_token_revoke : Context → ℕ → Db → Reply ℕ × Db
api_token_revoke c id db = elim (find (token_has_id id) db.tokens) [
  | none ↦ (Reply.fail 404 "token not found", db)
  | some row ↦
      let audited =
        audit_row c "api-token-revoke" ("id=" +++ show_ℕ id +++ " name=" +++ row.name) ∷ db.audit in
      elim row.revoked_at [
        | some _ ↦ (Reply.done 200 c.now, record db { audit = audited })
        | none ↦ (
          Reply.done 200 c.now,
          record db {
            tokens = update (token_has_id id) (revoke_at c.now) db.tokens;
            audit = audited;
          },
        )
      ]
]
