-- ===== src/Fleet/Nodes.antt =====
-- The nodes of an administrator: `_select_nodes`, `_safe_capabilities`, `_store_probe`,
-- `_latest_probe` and `fleet_plan` of panel/routes_fleet.py.
use Prim.Native.String.{◌++◌ as ◌+++◌, compare}
use Prim.Native.Nat.{Ordering, zero, suc}
use nexvary_panel.Base.{
  ℕ, ◌+◌, String, ◌==◌, Bool, true, false, not, ◌&&◌, ◌||◌, Option, none, some, List, [], ◌∷◌,
  Reply, eqb, leb, ltb, if◌then◌else◌,
}
use nexvary_panel.Base.Int.{ℤ, pos, negsuc, clamp_zero}
use nexvary_panel.Base.Lists.{find, update, select, length, any, all}
use nexvary_panel.Base.Text.{chars, all_chars, is_alnum, prefix, strip, lower, truthy}
use nexvary_panel.Base.Json.{
  Json, Fields, Items, Body, get_or, text_of, flag, int_of, str_of, put, dict_or_empty, show_ℕ,
  take_items,
}
use nexvary_panel.Web.{Context, user_or, object_of}
use nexvary_panel.Fleet.Store.{Node, Probe, Db, plan_operation}

-- `MAX_PROBE_BATCH`
abbrev pub max_probe_batch : ℕ
max_probe_batch = 25

-- `_admin_owner`
unfoldable pub admin_owner : Context → String
admin_owner c = prefix 64 (user_or "admin" c)

unfoldable pub insert_node : Node → List Node → List Node
insert_node x [] = x ∷ []
insert_node x (y ∷ l) =
    let rest = insert_node x l in
    elim (compare y.name x.name) [ Ordering.gt ↦ x ∷ y ∷ l | _ ↦ y ∷ rest ]

-- `ORDER BY name`
unfoldable pub by_name : List Node → List Node
by_name [] = []
by_name (x ∷ l) = insert_node x (by_name l)

pub data Selection : Type 0 where
  chosen : List Node → Selection
  refused : String → Selection

abbrev pub owned : String → Node → Bool
owned owner n = n.owner == owner && n.enabled

-- `value < 1` is false
abbrev pub positive : ℤ → Bool
positive (pos n) = leb 1 n
positive (negsuc n) = false

-- `[int(value) for value in raw_ids]`; `none` where one is no number
unfoldable pub int_items : Items → Option (List ℤ)
int_items Items.stop = some []
int_items (Items.item v l) =
    let rest = int_items l in
    elim (int_of v) [ none ↦ none | some n ↦ (elim rest [ none ↦ none | some ns ↦ some (n ∷ ns) ]) ]

unfoldable pub item_count : Items → ℕ
item_count Items.stop = 0
item_count (Items.item v l) = item_count l + 1

-- `len(ids) == len(set(ids))`
unfoldable pub unique_ids : List ℕ → Bool
unique_ids [] = true
unique_ids (n ∷ l) = not (any (eqb n) l) && unique_ids l

unfoldable pub nat_ids : List ℤ → List ℕ
nat_ids [] = []
nat_ids (n ∷ l) = clamp_zero n ∷ nat_ids l

-- the rows of the checked ids
unfoldable pub select_ids : String → List ℕ → Db → Selection
select_ids owner ids db =
    let rows = by_name (select (λ n. owned owner n && any (eqb n.id) ids) db.nodes) in
    if not (eqb (length rows) (length ids))
    then Selection.refused "one or more fleet nodes are missing, disabled or outside your scope"
    else Selection.chosen rows

unfoldable pub select_listed : String → Items → Db → Selection
select_listed owner l db =
    if not (leb 1 (item_count l) && leb (item_count l) max_probe_batch)
    then Selection.refused "node_ids must contain 1-25 nodes"
    else elim (int_items l) [
      | none ↦ Selection.refused "node_ids must be integers"
      | some ids ↦
          if not (all positive ids) || not (unique_ids (nat_ids ids))
          then Selection.refused "node_ids must be unique positive integers"
          else select_ids owner (nat_ids ids) db
    ]

unfoldable pub select_all : String → Db → Selection
select_all owner db =
    let rows = by_name (select (owned owner) db.nodes) in
    if ltb max_probe_batch (length rows)
    then Selection.refused (
        "fleet has "
        +++ show_ℕ (length rows)
        +++ " enabled nodes; select at most 25 node_ids per batch")
    else Selection.chosen rows

-- `_select_nodes`; no ids are `None`.
unfoldable pub select_nodes : String → Json → Db → Selection
select_nodes owner Json.null db = select_all owner db
select_nodes owner (Json.list s l) db = select_listed owner l db
select_nodes owner v db = Selection.refused "node_ids must contain 1-25 nodes"

-- `CAPABILITY_KEY_RE.fullmatch`
unfoldable pub is_capability_key : String → Bool
is_capability_key s =
    leb 1 (chars s)
    && leb (chars s) 64
    && all_chars (λ c. is_alnum c || eqb c b'_' || eqb c b'.' || eqb c b':' || eqb c b'-') s

-- `max(-1_000_000, min(1_000_000, raw))`
unfoldable pub clamp_million : ℤ → ℤ
clamp_million (pos n) = if leb n 1000000 then pos n else pos 1000000
clamp_million (negsuc n) = if ltb n 1000000 then negsuc n else negsuc 999999

short_items : Items → Items
short_items Items.stop = Items.stop
short_items (Items.item Json.null l) = short_items l
short_items (Items.item (Json.list s m) l) = short_items l
short_items (Items.item (Json.dict s d) l) = short_items l
short_items (Items.item v l) = Items.item (Json.str (prefix 80 (str_of v))) (short_items l)

-- A value as it is kept, if it is. `rounded` is what is kept of a float.
unfoldable pub safe_value : (Json → Json) → Json → Option Json
unfolding short_items
safe_value rounded (Json.bool b) = some (Json.bool b)
safe_value rounded (Json.int n) = some (Json.int (clamp_million n))
safe_value rounded (Json.number s t n) = some (rounded (Json.number s t n))
safe_value rounded (Json.str s) = some (Json.str (prefix 120 s))
safe_value rounded (Json.list s l) = some (Json.list "" (short_items (take_items 40 l)))
safe_value rounded v = none

safe_fields : (Json → Json) → ℕ → Fields → Fields → Fields
safe_fields rounded zero d out = out
safe_fields rounded (suc n) Fields.end out = out
safe_fields rounded (suc n) (Fields.field k v d) out = safe_fields rounded n d (
    if is_capability_key (prefix 64 k)
    then (elim (safe_value rounded v) [ none ↦ out | some kept ↦ put (prefix 64 k) kept out ])
    else out)

-- `_safe_capabilities`
unfoldable pub safe_capabilities : (Json → Json) → Json → Fields
unfolding safe_fields
safe_capabilities rounded value = safe_fields rounded 64 (dict_or_empty value) Fields.end

-- the result of `_probe_endpoint`
pub record Probed : Type 0 where
  pub status : String
  pub remote_version : String
  pub capabilities : Fields
  pub latency_ms : ℕ

-- `_store_probe`
unfoldable pub store_probe : (Json → Json) → Node → Probed → ℕ → Db → Db
store_probe rounded node result checked_at db =
    let p : Probe = record {
      node_id = node.id;
      status = result.status;
      remote_version = prefix 40 result.remote_version;
      capabilities =
          some (Json.dict "" (safe_capabilities rounded (Json.dict "" result.capabilities)));
      latency_ms = if leb result.latency_ms 60000 then result.latency_ms else 60000;
      checked_at = checked_at;
    } in
    record db {
      probes = p ∷ db.probes;
      nodes =
          update (λ (n : Node). eqb n.id node.id)
            (λ n. record n {
              status = result.status;
              last_seen =
                  if result.status == "online" || result.status == "degraded"
                  then checked_at
                  else node.last_seen;
              updated_at = checked_at;
            })
            db.nodes;
    }

-- `_latest_probe`
unfoldable pub latest_probe : (Json → Json) → ℕ → Db → Option Probed
latest_probe rounded node_id db = elim (find (λ (p : Probe). eqb p.node_id node_id) db.probes) [
  | none ↦ none
  | some p ↦
      let stored : Json = elim p.capabilities [ none ↦ Json.dict "" Fields.end | some v ↦ v ] in
      some (record {
        status = p.status;
        remote_version = p.remote_version;
        capabilities = safe_capabilities rounded stored;
        latency_ms = p.latency_ms;
      })
]

-- one entry of a plan
pub record Plan : Type 0 where
  pub id : ℕ
  pub name : String
  pub status : String
  pub remote_version : String
  pub credential_configured : Bool
  pub ready : Bool
  pub reason : String

-- `bool(latest and latest.get("status") == "online")`, and `bool(caps.get(required))`
abbrev pub is_online : Option Probed → Bool
is_online none = false
is_online (some p) = p.status == "online"

abbrev pub is_capable : String → Option Probed → Bool
is_capable required none = false
is_capable required (some p) = flag required p.capabilities

unfoldable pub plan_node : (Json → Json) → String → Db → Node → Plan
plan_node rounded required db node =
    let latest = latest_probe rounded node.id db in
    let online = is_online latest in
    let capable = is_capable required latest in
    let credential = truthy node.credential_ref in
    record {
      id = node.id;
      name = node.name;
      status = elim latest [ none ↦ "unknown" | some p ↦ p.status ];
      remote_version = elim latest [ none ↦ "" | some p ↦ p.remote_version ];
      credential_configured = credential;
      ready = online && capable && credential;
      reason =
          if not online
          then "node is not online"
          else if not capable
          then "missing capability: " +++ required
          else if not credential
          then "fleet credential reference is not configured"
          else "ready";
    }

unfoldable pub plan_nodes : (Json → Json) → String → Db → List Node → List Plan
plan_nodes rounded required db [] = []
plan_nodes rounded required db (n ∷ l) =
    plan_node rounded required db n ∷ plan_nodes rounded required db l

abbrev pub is_null : Json → Bool
is_null Json.null = true
is_null v = false

-- A body that is no object has no operation.
unfoldable pub fleet_plan : (Json → Json) → Context → Body → Db → Reply (List Plan)
fleet_plan rounded c body db =
    let data' : Fields = elim (object_of body) [ none ↦ Fields.end | some d ↦ d ] in
    let raw_ids = get_or "node_ids" Json.null data' in
    elim (plan_operation (lower (strip (text_of "operation" "" data')))) [
      | none ↦ Reply.fail 400 "unsupported fleet operation"
      | some required ↦ elim (select_nodes (admin_owner c) raw_ids db) [
        | Selection.refused error ↦ Reply.fail (if is_null raw_ids then 409 else 400) error
        | Selection.chosen nodes ↦ Reply.done 200 (plan_nodes rounded required db nodes)
      ]
    ]
