-- ===== src/Fleet/Outbound.antt =====
-- `fleet_apply` of panel/routes_fleet.py, behind its decorators: one operation on the selected
-- nodes through the provider agent.
use Prim.Native.String.{◌++◌ as ◌+++◌}
use nexvary_panel.Base.{
  ℕ, String, ◌==◌, Bool, not, ◌&&◌, Option, none, some, List, [], ◌∷◌, ◌++◌, Reply, ltb,
  if◌then◌else◌,
}
use nexvary_panel.Base.Lists.{find, all}
use nexvary_panel.Base.Text.{prefix, strip, lower, truthy}
use nexvary_panel.Base.Json.{
  Json, Fields, Body, get_or, text_of, flag, dict_or_empty, safe_result, show_ℕ,
}
use nexvary_panel.Web.{Context, object_of}
use nexvary_panel.Fleet.Store.{Direction, JobStatus, Job, Node, Db, plan_operation, is_fingerprint}
use nexvary_panel.Fleet.Nodes.{
  Selection, select_nodes, admin_owner, latest_probe, is_online, is_capable,
}

-- the payload of `provider_call`
pub record Order : Type 0 where
  pub endpoint : String
  pub secret_id : String
  pub operation : String
  pub request_id : String
  pub issued_at : ℕ
  pub payload : Fields

-- What is read for each node: a new random id and the clock before and after the call.
pub record Ticket : Type 0 where
  pub request_id : String
  pub issued_at : ℕ
  pub closed_at : ℕ

-- What comes from elsewhere: what is kept of a float, the length of `json.dumps` in bytes, the
-- answers of the provider agent, and the ticket for a node's id.
pub record World : Type 0 where
  pub rounded : Json → Json
  pub json_bytes : Fields → ℕ
  pub provider : Order → Fields
  pub ticket : ℕ → Ticket

-- the node may be asked for the operation
unfoldable pub is_ready : World → String → Db → Node → Bool
is_ready w required db node =
    let latest = latest_probe w.rounded node.id db in
    is_online latest && is_capable required latest && truthy node.credential_ref

-- The first node that is not ready.
unfoldable pub first_blocked : World → String → Db → List Node → Option Node
first_blocked w required db [] = none
first_blocked w required db (n ∷ l) =
    let rest = first_blocked w required db l in if is_ready w required db n then rest else some n

-- an entry of the answer
pub record Sent : Type 0 where
  pub request_id : String
  pub node_id : ℕ
  pub name : String
  pub applied : Bool
  pub error : String

abbrev pub order_for : World → String → Fields → Node → Order
order_for w operation payload node = record {
  endpoint = node.endpoint;
  secret_id = node.credential_ref;
  operation = operation;
  request_id = (w.ticket node.id).request_id;
  issued_at = (w.ticket node.id).issued_at;
  payload = payload;
}

-- `str(result.get("error", "remote fleet apply failed"))[:180]`
abbrev pub failure_of : Fields → String
failure_of result = prefix 180 (text_of "error" "remote fleet apply failed" result)

-- the job of a node, as it is inserted and as it is updated after the call
abbrev pub outbound_job : World → Context → String → Node → Job
outbound_job w c operation node = record {
  request_id = (w.ticket node.id).request_id;
  node_id = some node.id;
  direction = Direction.outbound;
  operation = operation;
  status = JobStatus.running;
  result = Fields.end;
  error = none;
  owner = admin_owner c;
  created_at = (w.ticket node.id).issued_at;
  updated_at = (w.ticket node.id).issued_at;
}

unfoldable pub closed_job : World → Fields → Node → Job → Job
closed_job w result node j = record j {
  status = if flag "ok" result then JobStatus.applied else JobStatus.failed;
  result = safe_result (get_or "result" (Json.dict "" Fields.end) result);
  error = if flag "ok" result then none else some (failure_of result);
  updated_at = (w.ticket node.id).closed_at;
}

abbrev pub has_request : String → Job → Bool
has_request id j = j.request_id == id

-- One node: its job, the call, the job's end, and the audit. `none` is an IntegrityError, for an
-- id that has a job.
unfoldable pub send : World → Context → String → Fields → Node → Db → Option (Sent × Db)
send w c operation payload node db =
    let order = order_for w operation payload node in
    let result = w.provider order in
    let ok = flag "ok" result in
    elim (find (has_request order.request_id) db.jobs) [
      | some _ ↦ none
      | none ↦ some (
        record {
          request_id = order.request_id;
          node_id = node.id;
          name = node.name;
          applied = ok;
          error = if ok then "" else failure_of result;
        },
        record db {
          jobs = db.jobs ++ closed_job w result node (outbound_job w c operation node) ∷ [];
          audit =
              (
                if ok then "fleet-outbound-apply" else "fleet-outbound-failed",
                prefix 700 (
                    "request="
                    +++ order.request_id
                    +++ " node="
                    +++ show_ℕ node.id
                    +++ " operation="
                    +++ operation),
              )
              ∷ db.audit;
        },
      )
    ]

-- The answer of the loop, the tables, and the orders that were given.
pub record Run : Type 0 where
  pub sent : Option (List Sent)
  pub db : Db
  pub orders : List Order

unfoldable pub send_all : World → Context → String → Fields → List Node → Db → Run
send_all w c operation payload [] db = record { sent = some []; db = db; orders = [] }
send_all w c operation payload (n ∷ l) db = elim (send w c operation payload n db) [
  | none ↦ record { sent = none; db = db; orders = [] }
  | some (s, db') ↦
      let rest = send_all w c operation payload l db' in
      record {
        sent = elim rest.sent [ none ↦ none | some ss ↦ some (s ∷ ss) ];
        db = rest.db;
        orders = order_for w operation payload n ∷ rest.orders;
      }
]

abbrev pub was_applied : Sent → Bool
was_applied s = s.applied

abbrev pub Outcome : Type 0
Outcome = Reply (List Sent) × Db × List Order

unfoldable pub answer_run : Run → Outcome
answer_run r = elim r.sent [
  | none ↦ (Reply.raised "IntegrityError", r.db, r.orders)
  | some sent ↦ (Reply.done (if all was_applied sent then 200 else 207) sent, r.db, r.orders)
]

-- `fleet_apply` of an object
unfoldable pub apply_to : World → Context → Fields → Db → Outcome
apply_to w c data' db =
    let operation = lower (strip (text_of "operation" "" data')) in
    let payload = dict_or_empty (get_or "payload" Json.null data') in
    elim (plan_operation operation) [
      | none ↦ (Reply.fail 400 "unsupported fleet operation", db, [])
      | some required ↦
          if ltb 4096 (w.json_bytes payload)
          then (Reply.fail 400 "fleet operation payload too large", db, [])
          else if operation == "system-updates"
              && not (is_fingerprint (lower (strip (text_of "fingerprint" "" payload))))
          then (Reply.fail 400 "system-updates requires the reviewed remote fingerprint", db, [])
          else elim (select_nodes (admin_owner c) (get_or "node_ids" Json.null data') db) [
            | Selection.refused error ↦ (Reply.fail 400 error, db, [])
            | Selection.chosen nodes ↦ elim (first_blocked w required db nodes) [
              | some n ↦ (Reply.fail 409 ("fleet node is not ready for apply: " +++ n.name), db, [])
              | none ↦ answer_run (send_all w c operation payload nodes db)
            ]
          ]
    ]

unfoldable pub fleet_apply : World → Context → Body → Db → Outcome
fleet_apply w c body db = elim (object_of body) [
  | none ↦ (Reply.fail 400 "invalid fleet apply request", db, [])
  | some data' ↦ apply_to w c data' db
]
