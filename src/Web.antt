-- ===== src/Web.antt =====
-- What the routes share: the body of a request, the session and clock that a handler reads, and
-- `audit` of panel/db_layer.py.
use nexvary_panel.Base.{ℕ, String, Option, none, some}
use nexvary_panel.Base.Text.{prefix}
use nexvary_panel.Base.Json.{Fields, Body}
use nexvary_panel.Policy.{Caller}

-- a row of `audit`
pub record Audit : Type 0 where
  pub ts : ℕ
  pub actor : String
  pub action : String
  pub detail : String
  pub ip : String

-- What a route reads beside its body and the tables: the session, the two readings of the clock,
-- and the address.
pub record Context : Type 0 where
  pub caller : Caller
  pub now : ℕ
  pub audited : ℕ
  pub ip : String

-- `session.get("user", default)`
abbrev pub user_or : String → Context → String
user_or default c = elim c.caller.user [ none ↦ default | some user ↦ user ]

-- the row that `audit` adds
unfoldable pub audit_row : Context → String → String → Audit
audit_row c action detail = record {
  ts = c.audited;
  actor = user_or "system" c;
  action = prefix 80 action;
  detail = prefix 700 detail;
  ip = prefix 80 c.ip;
}

-- `request.get_json(silent=True) or {}`, where it is an object
abbrev pub object_of : Body → Option Fields
object_of (Body.object d) = some d
object_of Body.empty = some Fields.end
object_of Body.other = none
