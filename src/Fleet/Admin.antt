-- ===== src/Fleet/Admin.antt =====
-- The administrator's routes of panel/routes_fleet.py on nodes and inbound tokens, behind their
-- decorators: credential, delete, new token and revoke.
use Prim.Native.String.{◌++◌ as ◌+++◌}
use nexvary_panel.Base.{
  ℕ, String, ◌==◌, Bool, true, false, not, ◌&&◌, ◌||◌, Option, none, some, List, [], ◌∷◌, ◌++◌,
  Reply, NoBody, eqb, if◌then◌else◌,
}
use nexvary_panel.Base.Lists.{find, select, update, any}
use nexvary_panel.Base.Text.{is_alnum, is_lower, is_digit, prefix, strip, lower}
use nexvary_panel.Base.Names.{matches}
use nexvary_panel.Base.Json.{Fields, Body, text_of, show_ℕ}
use nexvary_panel.Web.{Context, object_of}
use nexvary_panel.Fleet.Store.{Node, Token, Probe, Job, Db}
use nexvary_panel.Fleet.Nodes.{admin_owner}

-- `SECRET_REF_RE` and `TOKEN_LABEL_RE`, as `fullmatch`
unfoldable pub is_secret_ref : String → Bool
is_secret_ref s =
    matches is_lower (λ c. is_lower c || is_digit c || eqb c b'_' || eqb c b'-') 2 47 s

unfoldable pub is_token_label : String → Bool
is_token_label s =
    matches is_alnum (λ c. is_alnum c || eqb c b'_' || eqb c b'.' || eqb c b' ' || eqb c b'-') 2 63
      s

abbrev pub node_of : String → ℕ → Node → Bool
node_of owner id n = eqb n.id id && n.owner == owner

abbrev pub token_of : String → ℕ → Token → Bool
token_of owner id t = eqb t.id id && t.owner == owner

abbrev pub with_audit : String → String → Db → Db
with_audit action detail db = record db { audit = (prefix 80 action, prefix 700 detail) ∷ db.audit }

set_credential_of : Context → ℕ → Fields → Db → Reply ℕ × Db
set_credential_of c id data' db =
    let ref = lower (strip (text_of "credential_ref" "" data')) in
    let owner = admin_owner c in
    if not (is_secret_ref ref)
    then (Reply.fail 400 "invalid fleet credential reference", db)
    else elim (find (node_of owner id) db.nodes) [
      | none ↦ (Reply.fail 404 "fleet node not found", db)
      | some row ↦ (
        Reply.done 200 id,
        with_audit "fleet-node-credential"
            ("id=" +++ show_ℕ id +++ " name=" +++ row.name +++ " ref=" +++ ref)
            (record db {
              nodes =
                  update (node_of owner id)
                    (λ n. record n { credential_ref = ref; updated_at = c.now }) db.nodes;
            }),
      )
    ]

-- A body that is no object has no `get`.
unfoldable pub fleet_set_credential : Context → ℕ → Body → Db → Reply ℕ × Db
unfolding set_credential_of
fleet_set_credential c id body db = elim (object_of body) [
  | none ↦ (Reply.raised "AttributeError", db)
  | some data' ↦ set_credential_of c id data' db
]

-- The constraints of `fleet_inbound_tokens`.
token_clash : String → String → String → List Token → Bool
token_clash owner label digest tokens =
    any (λ (t : Token). t.token_hash == digest || (t.owner == owner && t.label == label)) tokens

create_token_of : (String → String) → String → ℕ → Context → Fields → Db → Reply String × Db
unfolding token_clash
create_token_of sha256 random id c data' db =
    let label = strip (text_of "label" "" data') in
    let token = "nvp_fleet_" +++ random in
    let owner = admin_owner c in
    let row : Token = record {
      id = id;
      label = label;
      token_hash = sha256 token;
      owner = owner;
      enabled = true;
      last_used = 0;
    } in
    if not (is_token_label label)
    then (Reply.fail 400 "invalid fleet token label", db)
    else if token_clash owner label (sha256 token) db.tokens
    then (Reply.fail 409 "fleet token label already exists", db)
    else (
      Reply.done 201 token,
      with_audit "fleet-token-create" ("id=" +++ show_ℕ id +++ " label=" +++ label)
          (record db { tokens = db.tokens ++ row ∷ [] }),
    )

-- `random` is `secrets.token_urlsafe(48)`, and `id` the next of the AUTOINCREMENT counter.
unfoldable pub fleet_create_inbound_token :
    (String → String) → String → ℕ → Context → Body → Db → Reply String × Db
unfolding create_token_of
fleet_create_inbound_token sha256 random id c body db = elim (object_of body) [
  | none ↦ (Reply.raised "AttributeError", db)
  | some data' ↦ create_token_of sha256 random id c data' db
]

unfoldable pub fleet_revoke_inbound_token : Context → ℕ → Db → Reply ℕ × Db
fleet_revoke_inbound_token c id db =
    let owner = admin_owner c in
    elim (find (token_of owner id) db.tokens) [
      | none ↦ (Reply.fail 404 "fleet token not found", db)
      | some row ↦ (
        Reply.done 200 id,
        with_audit "fleet-token-revoke" ("id=" +++ show_ℕ id +++ " label=" +++ row.label)
            (record db {
              tokens = update (token_of owner id) (λ t. record t { enabled = false }) db.tokens;
            }),
      )
    ]

abbrev is_of : ℕ → Option ℕ → Bool
is_of id none = false
is_of id (some n) = eqb n id

-- A job of a deleted node loses its node, and its probes go with it.
unfoldable pub fleet_delete : Context → ℕ → Db → Reply NoBody × Db
fleet_delete c id db =
    let owner = admin_owner c in
    elim (find (node_of owner id) db.nodes) [
      | none ↦ (Reply.fail 404 "fleet node not found", db)
      | some row ↦ (
        Reply.done 200 tt,
        with_audit "fleet-node-delete" ("id=" +++ show_ℕ id +++ " name=" +++ row.name) (record db {
          nodes = select (λ n. not (node_of owner id n)) db.nodes;
          probes = select (λ (p : Probe). not (eqb p.node_id id)) db.probes;
          jobs =
              update (λ (j : Job). is_of id j.node_id) (λ j. record j { node_id = none }) db.jobs;
        }),
      )
    ]
