-- ===== src/Scheduler/Run.antt =====
-- Running the tasks that are due: `_run_task`, `_notify_failure`, `_audit` and `tick` of
-- agent/scheduler_agent.py.
use Prim.Native.String.{◌++◌ as ◌+++◌}
use nexvary_panel.Base.{
  ℕ, ◌+◌, String, ◌==◌, Bool, true, false, not, ◌&&◌, ◌||◌, Option, none, some, List, [], ◌∷◌, eqb,
  ltb, if◌then◌else◌,
}
use nexvary_panel.Base.Int.{ℤ, pos, negsuc}
use nexvary_panel.Base.Lists.{find, select, update, any, take}
use nexvary_panel.Base.Text.{prefix, truthy}
use nexvary_panel.Base.Sets.{contains}
use nexvary_panel.Base.Json.{Json, Fields, get_or, text_of, flag, int_of, truth, show_ℕ}
use nexvary_panel.Web.{Audit}
use nexvary_panel.Scheduler.Store.{Task, Database, Deployment, Backup, Notice, Db}
use nexvary_panel.Scheduler.Calendar.{due}

-- the payloads that are sent to the root agent
pub data Call : Type 0 where
  backup_site : String → Option String → Call
  git_deploy : String → String → String → String → Call

-- `TASK_TYPES`
abbrev pub task_types : List String
task_types = "backup_site" ∷ "git_deploy" ∷ []

-- the three readings of the clock after a task
pub record Clock : Type 0 where
  pub finished : ℕ
  pub audited : ℕ
  pub notified : ℕ

-- `int(meta.get("size_bytes", 0) or 0)`
size_of : Fields → Option ℤ
size_of meta =
    let v = get_or "size_bytes" (Json.int (pos 0)) meta in
    if truth v then int_of v else some (pos 0)

-- an integer that sqlite3 takes: for another it raises an OverflowError
abbrev pub fits_sqlite : ℤ → Bool
fits_sqlite (pos n) = ltb n 9223372036854775808
fits_sqlite (negsuc n) = ltb n 9223372036854775808

-- `archive` and `size` of an answer. `none` is an exception: `meta` is not an object, its size is no
-- number, or the size of an archive does not go into the table.
unfoldable pub backup_meta : Fields → Option (String × ℤ)
unfolding size_of
backup_meta result =
    let meta = get_or "meta" Json.null result in
    if not (truth meta) then some ("", pos 0) else elim meta [
      | Json.dict s d ↦ elim (size_of d) [
        | none ↦ none
        | some size ↦
            let archive = text_of "archive" "" d in
            if truthy archive && not (fits_sqlite size) then none else some (archive, size)
      ]
      | _ ↦ none
    ]

-- what a task did: its status and detail, and the tables
pub record Outcome : Type 0 where
  pub status : String
  pub detail : String
  pub db : Db

-- `SELECT db_name FROM databases WHERE owner=? AND site_domain=? ORDER BY id LIMIT 1`
unfoldable pub site_database : Task → Db → Option String
site_database row db =
    elim (find (λ (d : Database). d.owner == row.owner && d.site_domain == row.domain)
      db.databases) [ none ↦ none | some d ↦ some d.db_name ]

unfoldable pub backup_task : (Call → Fields) → Task → ℕ → Db → Option Outcome
backup_task agent row now db =
    let result = agent (Call.backup_site row.domain (site_database row db)) in
    if flag "ok" result
    then (elim (backup_meta result) [
      | none ↦ none
      | some (archive, size) ↦
          let b : Backup = record {
            domain = row.domain;
            archive = archive;
            size_bytes = size;
            owner = row.owner;
            created_at = now;
          } in
          some (record {
            status = "ok";
            detail = "backup completed";
            db = if truthy archive then record db { backups = b ∷ db.backups } else db;
          })
    ])
    else some (record { status = "error"; detail = "backup failed"; db = db })

-- `SELECT id,repo_url,branch,target FROM deployments WHERE owner=? AND domain=? ORDER BY id DESC
-- LIMIT 1`
unfoldable pub site_deployment : Task → Db → Option Deployment
site_deployment row db =
    find (λ (d : Deployment). d.owner == row.owner && d.domain == row.domain) db.deployments

unfoldable pub deploy_task : (Call → Fields) → Task → ℕ → Db → Outcome
deploy_task agent row now db = elim (site_deployment row db) [
  | none ↦ record { status = "error"; detail = "no registered deployment"; db = db }
  | some dep ↦
      let result = agent (Call.git_deploy row.domain dep.repo_url dep.branch dep.target) in
      let status = if flag "ok" result then "ok" else "error" in
      let detail = if status == "ok" then "deployment completed" else "deployment failed" in
      record {
        status = status;
        detail = detail;
        db = record db {
          deployments =
              update (λ (d : Deployment). eqb d.id dep.id)
                (λ d. record d {
                  status = if status == "ok" then "deployed" else "failed";
                  detail = "scheduled: " +++ detail;
                  updated_at = now;
                })
                db.deployments;
        };
      }
]

-- the branch of a task's type; `none` is an exception
unfoldable pub perform : (Call → Fields) → Task → ℕ → Db → Option Outcome
perform agent row now db =
    if row.task_type == "backup_site"
    then backup_task agent row now db
    else if row.task_type == "git_deploy"
    then some (deploy_task agent row now db)
    else some (record { status = "error"; detail = "task type is not allowed"; db = db })

unfoldable pub audit_run : String → ℕ → String → String → ℕ → Db → Db
audit_run owner task_id status detail now db =
    let row : Audit = record {
      ts = now;
      actor = "scheduler";
      action = "scheduled-task-run";
      detail = prefix 700 (
          "owner="
          +++ owner
          +++ " task_id="
          +++ show_ℕ task_id
          +++ " status="
          +++ status
          +++ " "
          +++ detail);
      ip = "local";
    } in
    record db { audit = row ∷ db.audit }

-- `created_at > now - 600` is `now < created_at + 600`.
unfoldable pub notify_failure : String → String → String → ℕ → Db → Db
notify_failure owner domain task_type now db =
    let title = "Scheduled task failed: " +++ task_type in
    let recent =
      any
        (λ (n : Notice).
          n.owner == owner
          && n.source == "scheduler"
          && n.title == title
          && ltb now (n.created_at + 600))
        db.notifications in
    let n : Notice = record {
      level = "warning";
      title = title;
      detail = "Task for " +++ domain +++ " did not complete. Review Scheduled Tasks.";
      source = "scheduler";
      owner = owner;
      created_at = now;
    } in
    if recent then db else record db { notifications = n ∷ db.notifications }

unfoldable pub start_task : ℕ → ℕ → Db → Db
start_task task_id now db = record db {
  tasks =
      update (λ (t : Task). eqb t.id task_id)
        (λ t. record t {
          run_requested = false;
          last_run = now;
          last_status = "running";
          last_detail = "";
          updated_at = now;
        })
        db.tasks;
}

unfoldable pub close_task : ℕ → String → String → ℕ → Db → Db
close_task task_id status detail now db = record db {
  tasks =
      update (λ (t : Task). eqb t.id task_id)
        (λ t. record t { last_status = status; last_detail = detail; updated_at = now }) db.tasks;
}

-- The tables after the run, and whether it ended in an exception: then only what was committed
-- before the call of the agent stays.
unfoldable pub run_task : (Call → Fields) → Task → ℕ → Clock → Db → Bool × Db
run_task agent row now clock db =
    let started = start_task row.id now db in
    elim (perform agent row now started) [
      | none ↦ (true, started)
      | some o ↦
          let closed = close_task row.id o.status o.detail clock.finished o.db in
          let audited = audit_run row.owner row.id o.status o.detail clock.audited closed in
          (
            false,
            if o.status == "ok"
                then audited
                else notify_failure row.owner row.domain row.task_type clock.notified audited,
          )
    ]

-- The loop of `tick`; an exception leaves it.
unfoldable pub run_rows : (Call → Fields) → (ℕ → Clock) → ℕ → List Task → Db → Db
run_rows agent clock now [] db = db
run_rows agent clock now (row ∷ rows) db =
    let skipped = run_rows agent clock now rows db in
    let ran = run_task agent row now (clock row.id) db in
    let continued = run_rows agent clock now rows ran.1 in
    if contains task_types row.task_type && due row now
    then (if ran.0 then ran.1 else continued)
    else skipped

-- `tick`, where the database file is there; `clock` gives the readings after each task.
unfoldable pub tick : (Call → Fields) → (ℕ → Clock) → ℕ → Db → Db
tick agent clock now db =
    run_rows agent clock now
      (take 500 (select (λ (t : Task). t.enabled || t.run_requested) db.tasks)) db
