-- ===== src/Fleet/Replay.antt =====
-- What `fleet_machine_apply` of panel/routes_fleet.py answers to a request that it has applied, and
-- what it asks of the privileged agents.
use nexvary_panel.Base.{ℕ, String, ◌≡◌, ◌⊎◌, true, some, [], ◌∷◌, ◌++◌, arith}
use nexvary_panel.Base.Json.{Json, Fields}
use nexvary_panel.Fleet.Store.{Db, is_fingerprint}
use nexvary_panel.Fleet.Inbound.{Parsed, new_job, Call, execute_inbound, finish_job, call_for}

-- Of whatever payload, the operations of the machine endpoint make only four calls: two restarts,
-- one setting of the clock, and the updates of a plan named by 64 hexadecimal digits.
pub call_allowed :
    (op : String) (payload : Fields) (c : Call)
    → call_for op payload ≡ some c
    → (c ≡ Call.restart_service "nginx")
      ⊎ (c ≡ Call.restart_service "mariadb")
      ⊎ (c ≡ Call.enable_ntp)
      ⊎ ((f : String) × (c ≡ Call.apply_updates f) × (is_fingerprint f ≡ true))
unfolding call_for
call_allowed op payload c h = ground arith

-- The database after a first apply of a request with a fresh id.
abbrev applied_once : (Call → Json) → Db → Parsed → ℕ → ℕ → ℕ → Db
applied_once agents db p now later used =
    finish_job (record db { jobs = db.jobs ++ new_job p now ∷ [] }) p
      (execute_inbound agents p.operation p.payload) later used
