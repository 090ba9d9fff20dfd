-- ===== src/Scheduler/Routes.antt =====
-- The routes of panel/routes_schedules.py, behind their decorators.
use Prim.Native.String.{◌++◌ as ◌+++◌}
use nexvary_panel.Base.{
  ℕ, String, ◌==◌, Bool, true, false, not, ◌&&◌, ◌||◌, Option, none, some, [], ◌∷◌, ◌++◌, eqb, leb,
  if◌then◌else◌, Reply, NoBody,
}
use nexvary_panel.Base.Int.{ℤ, pos, negsuc, clamp_zero}
use nexvary_panel.Base.Lists.{find, select, update, any, count}
use nexvary_panel.Base.Text.{truthy, strip, lower}
use nexvary_panel.Base.Sets.{contains}
use nexvary_panel.Base.Names.{is_domain}
use nexvary_panel.Base.Json.{Json, Fields, Body, get_or, text_of, int_of, str_of, show_ℕ}
use nexvary_panel.Policy.{Caller, LimitColumn, package_for_user, feature_allowed}
use nexvary_panel.Security.Store.{User}
use nexvary_panel.Web.{Context, object_of}
use nexvary_panel.Scheduler.Store.{Task, Site, Deployment, audit, next_id, Db}
use nexvary_panel.Scheduler.Calendar.{cadences}
use nexvary_panel.Scheduler.Run.{task_types}

-- the values that `_schedule_fields` gives, or the error of its ValueError
pub record Fields5 : Type 0 where
  pub cadence : String
  pub hour : ℕ
  pub minute : ℕ
  pub weekday : ℕ
  pub enabled : Bool

pub data Parsed : Type 0 where
  valid : Fields5 → Parsed
  invalid : String → Parsed

-- `_task_json(row)`, as far as `_schedule_fields` reads it; no row, no defaults
unfoldable pub current_field : (Task → Json) → Json → Option Task → Json
current_field field default none = default
current_field field default (some t) = field t

-- `0 <= n <= high`
abbrev pub in_range : ℤ → ℕ → Bool
in_range (pos n) high = leb n high
in_range (negsuc n) high = false

unfoldable pub checked_fields : String → ℤ → ℤ → ℤ → Json → Parsed
checked_fields cadence minute hour weekday enabled_raw =
    if not (in_range minute 59 && in_range hour 23 && in_range weekday 6)
    then Parsed.invalid "schedule fields out of range"
    else elim enabled_raw [
      | Json.bool b ↦ Parsed.valid (record {
        cadence = cadence;
        hour = if cadence == "hourly" then 0 else clamp_zero hour;
        minute = clamp_zero minute;
        weekday = if cadence == "hourly" || cadence == "daily" then 0 else clamp_zero weekday;
        enabled = b;
      })
      | _ ↦ Parsed.invalid "enabled must be boolean"
    ]

-- `none` is a number that `int` refuses.
unfoldable pub number_fields : String → Option ℤ → Option ℤ → Option ℤ → Json → Parsed
number_fields cadence (some minute) (some hour) (some weekday) enabled =
    checked_fields cadence minute hour weekday enabled
number_fields cadence minute hour weekday enabled = Parsed.invalid "invalid schedule fields"

unfoldable pub slot_fields : String → Option ℤ → Option ℤ → Option ℤ → Json → Parsed
slot_fields cadence minute hour weekday enabled =
    if not (contains cadences cadence)
    then Parsed.invalid "invalid cadence"
    else number_fields cadence minute hour weekday enabled

unfoldable pub schedule_fields : Fields → Option Task → Parsed
unfolding current_field
schedule_fields data' current =
    let number = λ (key : String) (field : Task → ℕ). int_of (
      get_or key (current_field (λ t. Json.int (pos (field t))) (Json.int (pos 0)) current)
        data') in
    let cadence = lower (
      strip (
        str_of (
          get_or "cadence" (current_field (λ t. Json.str t.cadence) (Json.str "") current)
            data'))) in
    let enabled =
      get_or "enabled" (current_field (λ t. Json.bool t.enabled) (Json.bool true) current) data' in
    slot_fields cadence (number "minute_utc" (λ t. t.minute_utc))
      (number "hour_utc" (λ t. t.hour_utc)) (number "weekday_utc" (λ t. t.weekday_utc)) enabled

unfoldable pub site_owner : Db → String → Option String
site_owner db domain = elim (find (λ (s : Site). s.domain == domain) db.sites) [
  | none ↦ none
  | some s ↦ some s.owner
]

unfoldable pub role_for_owner : Db → String → String
role_for_owner db owner =
    if owner == "admin"
    then "admin"
    else elim (find (λ (u : User). u.username == owner && u.enabled) db.users) [
      | none ↦ "viewer"
      | some u ↦ u.role
    ]

abbrev pub same_as : Option String → String → Bool
same_as none x = false
same_as (some y) x = y == x

unfoldable pub can_touch : Caller → String → Bool
can_touch s owner = same_as s.role "admin" || same_as s.user owner

-- `int(package["max_cron_jobs"]) if package else 0`; `used >= max_jobs` is the same for every
-- number below 0 as for 0.
unfoldable pub max_jobs : Db → String → ℕ
max_jobs db owner = elim (package_for_user db.policy owner (role_for_owner db owner)) [
  | none ↦ 0
  | some p ↦ clamp_zero (p.limit LimitColumn.max_cron_jobs)
]

abbrev pub owned_by : String → Task → Bool
owned_by owner t = t.owner == owner

abbrev pub task_has_id : ℕ → Task → Bool
task_has_id id t = eqb t.id id

abbrev pub disabled_error : String
disabled_error = "Scheduled Tasks is disabled by hosting policy"

unfoldable pub insert_task : String → String → String → Fields5 → ℕ → Db → Db
insert_task owner domain task_type f now db =
    let t : Task = record {
      id = next_id db.tasks;
      owner = owner;
      domain = domain;
      task_type = task_type;
      cadence = f.cadence;
      hour_utc = f.hour;
      minute_utc = f.minute;
      weekday_utc = f.weekday;
      enabled = f.enabled;
      run_requested = false;
      last_run = 0;
      last_status = "never";
      last_detail = "";
      created_at = now;
      updated_at = now;
    } in
    record db { tasks = db.tasks ++ t ∷ [] }

-- the transaction of `schedules_create`
unfoldable pub create_in : Context → String → String → Fields5 → Db → Reply ℕ × Db
unfolding max_jobs insert_task
create_in c domain task_type f db = elim (site_owner db domain) [
  | none ↦ (Reply.fail 404 "site is not registered", db)
  | some owner ↦
      if not (truthy owner)
      then (Reply.fail 404 "site is not registered", db)
      else if not (can_touch c.caller owner)
      then (Reply.fail 403 "site is outside your account", db)
      else if task_type == "git_deploy"
          && not (any (λ (d : Deployment). d.owner == owner && d.domain == domain) db.deployments)
      then (Reply.fail 409 "register a Git deployment for this site first", db)
      else if leb (max_jobs db owner) (count (owned_by owner) db.tasks)
      then (Reply.fail 409 "hosting package scheduled-task quota reached", db)
      else (
        Reply.done 201 (next_id db.tasks),
        audit c "scheduled-task-create"
            ("task_id="
              +++ show_ℕ (next_id db.tasks)
              +++ " owner="
              +++ owner
              +++ " domain="
              +++ domain
              +++ " type="
              +++ task_type
              +++ " cadence="
              +++ f.cadence)
            (insert_task owner domain task_type f c.now db),
      )
]

unfoldable pub schedules_create : Context → Body → Db → Reply ℕ × Db
schedules_create c body db =
    if not (feature_allowed c.caller "advanced.cron" none none db.policy)
    then (Reply.fail 403 disabled_error, db)
    else elim (object_of body) [
      | none ↦ (Reply.fail 400 "invalid request", db)
      | some data' ↦
          let domain = lower (strip (text_of "domain" "" data')) in
          let task_type = lower (strip (text_of "task_type" "" data')) in
          if not (is_domain domain) || not (contains task_types task_type)
          then (Reply.fail 400 "invalid domain or task type", db)
          else elim (schedule_fields data' none) [
            | Parsed.invalid error ↦ (Reply.fail 400 error, db)
            | Parsed.valid f ↦ create_in c domain task_type f db
          ]
    ]

-- The row of `task_id`, where the caller may touch it, or the answer.
unfoldable pub with_task : Context → ℕ → Db → (Task → Reply NoBody × Db) → Reply NoBody × Db
with_task c task_id db go = elim (find (task_has_id task_id) db.tasks) [
  | none ↦ (Reply.fail 404 "scheduled task not found", db)
  | some row ↦
      if not (can_touch c.caller row.owner)
      then (Reply.fail 403 "scheduled task is outside your account", db)
      else go row
]

unfoldable pub schedules_update : Context → Body → ℕ → Db → Reply NoBody × Db
unfolding with_task
schedules_update c body task_id db =
    if not (feature_allowed c.caller "advanced.cron" none none db.policy)
    then (Reply.fail 403 disabled_error, db)
    else elim (object_of body) [
      | none ↦ (Reply.fail 400 "invalid request", db)
      | some data' ↦ with_task c task_id db (λ row. elim (schedule_fields data' (some row)) [
        | Parsed.invalid error ↦ (Reply.fail 400 error, db)
        | Parsed.valid f ↦ (
          Reply.done 200 tt,
          audit c "scheduled-task-update"
              ("task_id="
                +++ show_ℕ task_id
                +++ " cadence="
                +++ f.cadence
                +++ " enabled="
                +++ (if f.enabled then "1" else "0"))
              (record db {
                tasks =
                    update (task_has_id task_id)
                      (λ t. record t {
                        cadence = f.cadence;
                        hour_utc = f.hour;
                        minute_utc = f.minute;
                        weekday_utc = f.weekday;
                        enabled = f.enabled;
                        updated_at = c.now;
                      })
                      db.tasks;
              }),
        )
      ])
    ]

unfoldable pub schedules_run_now : Context → ℕ → Db → Reply NoBody × Db
unfolding with_task
schedules_run_now c task_id db =
    if not (feature_allowed c.caller "advanced.cron" none none db.policy)
    then (Reply.fail 403 disabled_error, db)
    else with_task c task_id db (λ row. (
      Reply.done 200 tt,
      audit c "scheduled-task-run-request" ("task_id=" +++ show_ℕ task_id) (record db {
        tasks =
            update (task_has_id task_id)
              (λ t. record t {
                run_requested = true;
                last_status = "queued";
                last_detail = "";
                updated_at = c.now;
              })
              db.tasks;
      }),
    ))

unfoldable pub schedules_delete : Context → ℕ → Db → Reply NoBody × Db
unfolding with_task
schedules_delete c task_id db =
    if not (feature_allowed c.caller "advanced.cron" none none db.policy)
    then (Reply.fail 403 disabled_error, db)
    else with_task c task_id db (λ row. (
      Reply.done 200 tt,
      audit c "scheduled-task-delete"
          ("task_id="
            +++ show_ℕ task_id
            +++ " domain="
            +++ row.domain
            +++ " type="
            +++ row.task_type)
          (record db { tasks = select (λ t. not (task_has_id task_id t)) db.tasks }),
    ))
