-- ===== src/Fleet/Inbound.antt =====
-- `fleet_machine_apply` of panel/routes_fleet.py in the steps that the code makes: the checks on
-- the request, the two statements of the first transaction, the call of the local agent, and the
-- second transaction.
use Prim.Native.String.{◌++◌ as ◌+++◌}
use nexvary_panel.Base.{
  ℕ, String, ◌==◌, Bool, true, false, not, ◌&&◌, ◌||◌, Option, none, some, List, [], ◌∷◌, ◌++◌,
  Reply, starts_with, eqb, ltb, leb, if◌then◌else◌,
}
use nexvary_panel.Base.Int.{ℤ, pos, distance}
use nexvary_panel.Base.Lists.{find, update, take, select}
use nexvary_panel.Base.Text.{
  chars, all_chars, is_alnum, prefix, suffix, strip, lower, compare_digest,
}
use nexvary_panel.Base.Json.{
  Json, Fields, Body, get_or, text_of, flag, int_of, dict_or_empty, safe_result, truth,
}
use nexvary_panel.Fleet.Store.{
  Direction, is_inbound, JobStatus, Job, Token, Db, plan_operation, request_ttl_seconds,
  is_request_id, is_fingerprint,
}

-- what the endpoint reads of the Flask request
pub record Request : Type 0 where
  pub authorization : String
  pub idempotency_key : String
  pub body : Body

-- `nvp_fleet_[A-Za-z0-9_-]{40,180}`
unfoldable pub is_machine_token : String → Bool
is_machine_token t =
    let rest = suffix 10 t in
    prefix 10 t == "nvp_fleet_"
    && leb 40 (chars rest)
    && leb (chars rest) 180
    && all_chars (λ c. is_alnum c || eqb c b'_' || eqb c b'-') rest

unfoldable pub first_match : String → List Token → Option Token
first_match digest [] = none
first_match digest (t ∷ rest) =
    let more = first_match digest rest in
    elim (compare_digest t.token_hash digest) [ some true ↦ some t | _ ↦ more ]

-- `_authenticate_machine_token`, with `sha256` for `_token_hash`. The rows come in the order of
-- their ids, as the table keeps them.
unfoldable pub authenticate_machine_token : (String → String) → Db → String → Option Token
unfolding first_match
authenticate_machine_token sha256 db token =
    if is_machine_token token
    then first_match (sha256 token) (take 200 (select (λ (t : Token). t.enabled) db.tokens))
    else none

-- A request that has passed every check before the database.
pub record Parsed : Type 0 where
  pub operation : String
  pub request_id : String
  pub payload : Fields
  pub owner : String
  pub token_id : ℕ
  pub label : String

pub data Checked : Type 0 where
  accepted : Parsed → Checked
  refused : ℕ → String → Checked

-- `try: int(data.get("issued_at", 0) or 0) except …: 0`
unfoldable pub issued_at_of : Fields → ℤ
issued_at_of data' =
    let v = get_or "issued_at" (Json.int (pos 0)) data' in
    if truth v then (elim (int_of v) [ none ↦ pos 0 | some n ↦ n ]) else pos 0

check_fields : Request → Token → ℕ → Fields → Checked
check_fields r identity now data' =
    let operation = lower (strip (text_of "operation" "" data')) in
    let request_id = lower (strip (text_of "request_id" "" data')) in
    let known : Bool = elim (plan_operation operation) [ none ↦ false | some _ ↦ true ] in
    if not known || not (is_request_id request_id)
    then Checked.refused 400 "invalid fleet operation or request id"
    else if not (r.idempotency_key == request_id)
    then Checked.refused 400 "fleet idempotency key mismatch"
    else if ltb request_ttl_seconds (distance (pos now) (issued_at_of data'))
    then Checked.refused 409 "fleet request timestamp outside allowed window"
    else Checked.accepted (record {
      operation = operation;
      request_id = request_id;
      payload = dict_or_empty (get_or "payload" Json.null data');
      owner = prefix 64 identity.owner;
      token_id = identity.id;
      label = identity.label;
    })

-- everything before `with db() as conn:`
unfoldable pub check_request : (String → String) → Db → ℕ → Request → Checked
unfolding check_fields
check_request sha256 db now r =
    let token = if starts_with r.authorization "Bearer " then suffix 7 r.authorization else "" in
    elim (authenticate_machine_token sha256 db token) [
      | none ↦ Checked.refused 401 "fleet authentication failed"
      | some identity ↦ elim r.body [
        | Body.other ↦ Checked.refused 400 "invalid fleet request"
        | Body.empty ↦ check_fields r identity now Fields.end
        | Body.object data' ↦ check_fields r identity now data'
      ]
    ]

-- the payload of an answer with `status`
pub record Answer : Type 0 where
  pub ok : Bool
  pub request_id : String
  pub operation : String
  pub status : JobStatus
  pub result : Fields

abbrev pub is_applied : JobStatus → Bool
is_applied JobStatus.applied = true
is_applied _ = false

-- `SELECT … FROM fleet_jobs WHERE request_id=? AND direction='inbound' AND owner=?`
unfoldable pub existing_job : Db → Parsed → Option Job
existing_job db p =
    find (λ (j : Job). j.request_id == p.request_id && is_inbound j.direction && j.owner == p.owner)
      db.jobs

-- The answer to a request whose id has a job.
unfoldable pub replay : Job → Parsed → Reply Answer
replay job p =
    if not (job.operation == p.operation)
    then Reply.fail 409 "request id already used for a different operation"
    else Reply.done 200 (record {
      ok = is_applied job.status;
      request_id = p.request_id;
      operation = p.operation;
      status = job.status;
      result = safe_result (Json.dict "" job.result);
    })

abbrev pub new_job : Parsed → ℕ → Job
new_job p now = record {
  request_id = p.request_id;
  node_id = none;
  direction = Direction.inbound;
  operation = p.operation;
  status = JobStatus.running;
  result = Fields.end;
  error = none;
  owner = p.owner;
  created_at = now;
  updated_at = now;
}

abbrev pub has_id : String → Job → Bool
has_id id j = j.request_id == id

-- `INSERT INTO fleet_jobs`. The column `request_id` is UNIQUE: `none` is the IntegrityError.
unfoldable pub insert_job : Db → Parsed → ℕ → Option Db
insert_job db p now = elim (find (has_id p.request_id) db.jobs) [
  | some _ ↦ none
  | none ↦ some (record db { jobs = db.jobs ++ new_job p now ∷ [] })
]

-- a request to the privileged agents, as `agent_call` and `server_call` send it
pub data Call : Type 0 where
  restart_service : String → Call
  enable_ntp : Call
  apply_updates : String → Call

pub data Execution : Type 0 where
  success : Fields → Execution
  failure : String → Execution

-- the call that `_execute_inbound` makes for an operation, or the error that it gives without one
unfoldable pub call_for : String → Fields → Option Call
call_for operation payload =
    if operation == "restart-nginx"
    then some (Call.restart_service "nginx")
    else if operation == "restart-mariadb"
    then some (Call.restart_service "mariadb")
    else if operation == "enable-ntp"
    then some Call.enable_ntp
    else if operation == "system-updates"
    then (let fingerprint = lower (strip (text_of "fingerprint" "" payload)) in
        if is_fingerprint fingerprint then some (Call.apply_updates fingerprint) else none)
    else none

-- `_execute_inbound`; `agents` are the two clients.
unfoldable pub execute_inbound : (Call → Json) → String → Fields → Execution
execute_inbound agents operation payload = elim (call_for operation payload) [
  | none ↦
      if operation == "system-updates"
      then Execution.failure "system-updates requires the reviewed 64-character fingerprint"
      else Execution.failure "fleet operation not allowed"
  | some call ↦ elim (agents call) [
    | Json.dict s d ↦
        if flag "ok" d
        then Execution.success (safe_result (Json.dict s d))
        else Execution.failure (prefix 180 (text_of "error" "fleet local provider failed" d))
    | _ ↦ Execution.failure "fleet local provider failed"
  ]
]

abbrev pub status_of : Execution → JobStatus
status_of (Execution.success r) = JobStatus.applied
status_of (Execution.failure e) = JobStatus.failed

-- `_safe_result(execution.get("result", {}))`
abbrev pub result_of : Execution → Fields
result_of (Execution.success r) = safe_result (Json.dict "" r)
result_of (Execution.failure e) = Fields.end

abbrev pub error_of : Execution → Option String
error_of (Execution.success r) = none
error_of (Execution.failure e) = some (prefix 180 e)

abbrev pub close_job : Execution → ℕ → Job → Job
close_job e now j = record j {
  status = status_of e;
  result = result_of e;
  error = error_of e;
  updated_at = now;
}

-- `f"request={request_id} operation={operation} peer={identity['label']}"`
audit_detail : Parsed → String
audit_detail p =
    prefix 700
      ("request=" +++ p.request_id +++ " operation=" +++ p.operation +++ " peer=" +++ p.label)

-- The second transaction and the audit; the clock is read twice.
unfoldable pub finish_job : Db → Parsed → Execution → ℕ → ℕ → Db
unfolding audit_detail
finish_job db p e now used = record db {
  jobs = update (has_id p.request_id) (close_job e now) db.jobs;
  tokens =
      update (λ (t : Token). eqb t.id p.token_id) (λ t. record t { last_used = used }) db.tokens;
  audit =
      (elim e [
        | Execution.success r ↦ ("fleet-inbound-apply", audit_detail p)
        | Execution.failure m ↦ ("fleet-inbound-failed", audit_detail p)
      ])
      ∷ db.audit;
}

unfoldable pub final_answer : Parsed → Execution → Reply Answer
final_answer p (Execution.failure e) = Reply.fail 503 (prefix 180 e)
final_answer p (Execution.success r) = Reply.done 200 (record {
  ok = true;
  request_id = p.request_id;
  operation = p.operation;
  status = JobStatus.applied;
  result = safe_result (Json.dict "" r);
})

-- The whole view, with no other request between its steps.
unfoldable pub machine_apply :
    (String → String) → (Call → Json) → Request → ℕ → ℕ → ℕ → Db → Reply Answer × Db
machine_apply sha256 agents r now later used db = elim (check_request sha256 db now r) [
  | Checked.refused code error ↦ (Reply.fail code error, db)
  | Checked.accepted p ↦ elim (existing_job db p) [
    | some job ↦ (replay job p, db)
    | none ↦ elim (insert_job db p now) [
      | none ↦ (Reply.raised "IntegrityError", db)
      | some db' ↦
          let e = execute_inbound agents p.operation p.payload in
          (final_answer p e, finish_job db' p e later used)
    ]
  ]
]
