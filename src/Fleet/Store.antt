-- ===== src/Fleet/Store.antt =====
-- The tables `fleet_jobs` and `fleet_inbound_tokens` (panel/ops_schema.py), and the constants of
-- panel/routes_fleet.py.
use nexvary_panel.Base.{
  ℕ, String, Bool, true, false, ◌==◌, ◌&&◌, ◌||◌, Option, none, some, List, leb, eqb, if◌then◌else◌,
}
use nexvary_panel.Base.Json.{Json, Fields}
use nexvary_panel.Base.Text.{chars, all_chars, is_digit}

pub data Direction : Type 0 where
  inbound outbound : Direction

abbrev pub is_inbound : Direction → Bool
is_inbound Direction.inbound = true
is_inbound Direction.outbound = false

-- the values of the column `status`
pub data JobStatus : Type 0 where
  running applied failed : JobStatus

-- A row of `fleet_jobs`. `result` and `error` are the two entries of `detail_json`.
pub record Job : Type 0 where
  pub request_id : String
  pub node_id : Option ℕ
  pub direction : Direction
  pub operation : String
  pub status : JobStatus
  pub result : Fields
  pub error : Option String
  pub owner : String
  pub created_at : ℕ
  pub updated_at : ℕ

-- a row of `fleet_inbound_tokens`
pub record Token : Type 0 where
  pub id : ℕ
  pub label : String
  pub token_hash : String
  pub owner : String
  pub enabled : Bool
  pub last_used : ℕ

-- a row of `fleet_nodes`
pub record Node : Type 0 where
  pub id : ℕ
  pub name : String
  pub endpoint : String
  pub credential_ref : String
  pub enabled : Bool
  pub owner : String
  pub status : String
  pub last_seen : ℕ
  pub updated_at : ℕ

-- A row of `fleet_probes`; `capabilities` is `none` where `capabilities_json` is not JSON.
pub record Probe : Type 0 where
  pub node_id : ℕ
  pub status : String
  pub remote_version : String
  pub capabilities : Option Json
  pub latency_ms : ℕ
  pub checked_at : ℕ

-- The newest probes stand first.
pub record Db : Type 0 where
  pub jobs : List Job
  pub tokens : List Token
  pub nodes : List Node
  pub probes : List Probe
  pub audit : List (String × String)

-- `PLAN_OPERATIONS`
unfoldable pub plan_operation : String → Option String
plan_operation op =
    if op == "restart-nginx"
    then some "service.nginx.restart"
    else if op == "restart-mariadb"
    then some "service.mariadb.restart"
    else if op == "enable-ntp"
    then some "server.time.ntp"
    else if op == "system-updates"
    then some "server.updates.apply"
    else none

-- `REQUEST_TTL_SECONDS`
abbrev pub request_ttl_seconds : ℕ
request_ttl_seconds = 300

abbrev pub is_hex : ℕ → Bool
is_hex c = is_digit c || (leb b'a' c && leb c b'f')

-- `REQUEST_ID_RE` and `FINGERPRINT_RE`, as `fullmatch`
unfoldable pub is_request_id : String → Bool
is_request_id s = eqb (chars s) 32 && all_chars is_hex s

unfoldable pub is_fingerprint : String → Bool
is_fingerprint s = eqb (chars s) 64 && all_chars is_hex s
