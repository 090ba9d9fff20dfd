-- ===== src/Scheduler/Store.antt =====
-- The table `scheduled_tasks` and the tables beside it (panel/db_layer.py), as the scheduler agent
-- and the schedule routes read them.
use nexvary_panel.Base.{ℕ, String, Bool, List, [], ◌∷◌, ◌+◌, ltb, if◌then◌else◌}
use nexvary_panel.Base.Int.{ℤ}
use nexvary_panel.Policy.{Db as PolicyDb}
use nexvary_panel.Web.{Audit, Context, audit_row}
use nexvary_panel.Security.Store.{User}

-- a row of `scheduled_tasks`; `last_run` is 0 where the task has never run
pub record Task : Type 0 where
  pub id : ℕ
  pub owner : String
  pub domain : String
  pub task_type : String
  pub cadence : String
  pub hour_utc : ℕ
  pub minute_utc : ℕ
  pub weekday_utc : ℕ
  pub enabled : Bool
  pub run_requested : Bool
  pub last_run : ℕ
  pub last_status : String
  pub last_detail : String
  pub created_at : ℕ
  pub updated_at : ℕ

-- the columns of `databases` and `sites` that are read here
pub record Database : Type 0 where
  pub owner : String
  pub site_domain : String
  pub db_name : String

pub record Site : Type 0 where
  pub domain : String
  pub owner : String

-- a row of `deployments`
pub record Deployment : Type 0 where
  pub id : ℕ
  pub owner : String
  pub domain : String
  pub repo_url : String
  pub branch : String
  pub target : String
  pub status : String
  pub detail : String
  pub updated_at : ℕ

-- a row of `backups`
pub record Backup : Type 0 where
  pub domain : String
  pub archive : String
  pub size_bytes : ℤ
  pub owner : String
  pub created_at : ℕ

-- a row of `notifications`
pub record Notice : Type 0 where
  pub level : String
  pub title : String
  pub detail : String
  pub source : String
  pub owner : String
  pub created_at : ℕ

-- `databases` is in the order of its ids, `deployments` in the reverse. New notices and audit rows
-- stand first.
pub record Db : Type 0 where
  pub tasks : List Task
  pub sites : List Site
  pub databases : List Database
  pub deployments : List Deployment
  pub backups : List Backup
  pub notifications : List Notice
  pub audit : List Audit
  pub users : List User
  pub policy : PolicyDb

-- The id that SQLite gives to a new row: one more than the largest.
unfoldable pub next_id : List Task → ℕ
next_id [] = 1
next_id (t ∷ l) = let n = next_id l in if ltb t.id n then n else t.id + 1

-- `audit`
unfoldable pub audit : Context → String → String → Db → Db
audit c action detail db = record db { audit = audit_row c action detail ∷ db.audit }
