-- ===== src/DynamicDns/Store.antt =====
-- The table `dynamic_dns_records` (panel/dynamic_dns_schema.py), the tables beside it, and the
-- calls of the operations agent that panel/routes_dynamic_dns.py makes.
use nexvary_panel.Base.{ℕ, String, Bool, Option, List}
use nexvary_panel.Base.Json.{Fields}
use nexvary_panel.Policy.{Db as PolicyDb}
use nexvary_panel.Security.Store.{User}
use nexvary_panel.Web.{Audit}

-- a row of `dynamic_dns_records`
pub record Row : Type 0 where
  pub id : ℕ
  pub domain : String
  pub hostname : String
  pub record_type : String
  pub target_id : ℕ
  pub provider_record_id : String
  pub token_hash : String
  pub ttl : ℕ
  pub last_address : String
  pub last_update : ℕ
  pub enabled : Bool
  pub owner : String
  pub created_at : ℕ
  pub updated_at : ℕ

-- the columns of `sites` that are read here
pub record Site : Type 0 where
  pub domain : String
  pub owner : String
  pub enabled : Bool

-- a row of `integration_targets`, as `_target` reads it
pub record Target : Type 0 where
  pub id : ℕ
  pub provider : String
  pub endpoint : String
  pub secret_id : String
  pub enabled : Bool

-- a row of `dns_zone_bindings`
pub record Binding : Type 0 where
  pub domain : String
  pub target_id : ℕ

-- `next_id` is the AUTOINCREMENT counter.
pub record Db : Type 0 where
  pub records : List Row
  pub next_id : ℕ
  pub sites : List Site
  pub bindings : List Binding
  pub targets : List Target
  pub users : List User
  pub policy : PolicyDb
  pub audit : List Audit

-- what `_provider_payload` gives, less the constant fields
pub record Payload : Type 0 where
  pub provider : String
  pub endpoint : String
  pub secret_id : String
  pub domain : String
  pub operation : String
  pub record_type : String
  pub record_name : String
  pub record_value : String
  pub ttl : ℕ
  pub provider_record_id : String

-- the payloads of `ops_call`
pub data Call : Type 0 where
  dns_apply : Payload → Call
  dns_rollback : String → String → String → Fields → Call

-- what `ipaddress.ip_address` gives of a text
pub record Address : Type 0 where
  pub version : ℕ
  pub is_global : Bool
  pub is_multicast : Bool
  pub is_unspecified : Bool
  pub text : String

-- What the routes take from elsewhere: `ipaddress.ip_address`, where `none` is a ValueError,
-- `hashlib.sha256` in hexadecimal, the answers of the operations agent, and a new random token.
pub record World : Type 0 where
  pub ip_address : String → Option Address
  pub sha256 : String → String
  pub ops : Call → Fields
  pub token : String
