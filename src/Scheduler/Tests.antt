-- ===== src/Scheduler/Tests.antt =====
-- Runs of the scheduler and of its routes, and their theorems at inputs where they apply.
use nexvary_panel.Base.{
  ℕ, ◌+◌, ◌≤◌, ◌<◌, ◌≡◌, refl, ◌↔◌, ◌⊎◌, true, false, some, [], ◌∷◌, Reply, NoBody, arith,
}
use nexvary_panel.Base.Int.{pos, clamp_zero}
use nexvary_panel.Base.Lists.{find, any, select, update, count, length}
use nexvary_panel.Base.Text.{
  chars, all_chars, prefix, suffix, strip, lstrip, rstrip, lower, is_space,
}
use nexvary_panel.Base.Names.{
  is_domain, is_label, is_top_label, split, starts_with_char, ends_with_char,
}
use nexvary_panel.Base.Sets.{contains, add, discard, insert, lookup}
use nexvary_panel.Base.Json.{
  Json, Fields, Body, get, get_or, text_of, flag, int_of, str_of, truth, show_ℕ, parse_int,
}
use nexvary_panel.Policy.{
  Db as PolicyDb, package_for_user, enabled_features, effective_feature_ids, feature_allowed,
  caller_name, caller_role, explicit_features, base_features,
}
use nexvary_panel.Policy.Features.{features, default_account_features}
use nexvary_panel.Web.{Context, audit_row}
use nexvary_panel.Scheduler.Store.{Task, Db, audit, next_id}
use nexvary_panel.Scheduler.Calendar.{due, same_hour, same_day, same_iso_week, time_reached}
use nexvary_panel.Scheduler.Run.{
  Call, Clock, backup_meta, site_database, backup_task, site_deployment, deploy_task, perform,
  audit_run, notify_failure, start_task, close_task, run_task, run_rows, tick,
}
use nexvary_panel.Scheduler.Routes.{
  checked_fields, number_fields, slot_fields, schedule_fields, current_field, site_owner,
  role_for_owner, can_touch, max_jobs, insert_task, create_in, schedules_create, with_task,
  schedules_update, schedules_run_now, schedules_delete,
}
use nexvary_panel.Scheduler.Timing.{opens, closes, begins, from_monday, due_exact}
use nexvary_panel.Scheduler.Effects.{due_once}
use nexvary_panel.Scheduler.Validity.{IsSound, Changes, Change, Changes-IsSound}

unfold_all : NoBody
unfolding clamp_zero find any select update count chars all_chars prefix suffix strip lstrip rstrip
    lower is_space is_domain is_label is_top_label split starts_with_char ends_with_char contains
    add discard insert lookup get get_or text_of flag int_of str_of truth show_ℕ parse_int
    package_for_user enabled_features effective_feature_ids feature_allowed caller_name caller_role
    audit audit_row next_id due same_hour same_day same_iso_week time_reached backup_meta
    site_database backup_task site_deployment deploy_task perform audit_run notify_failure
    start_task close_task run_task run_rows tick checked_fields number_fields slot_fields
    schedule_fields current_field site_owner role_for_owner can_touch max_jobs insert_task create_in
    schedules_create with_task schedules_update schedules_run_now schedules_delete
unfold_all = tt

-- every Tuesday at 3:30
abbrev weekly : Task
weekly = record {
  id = 7;
  owner = "ann";
  domain = "a.org";
  task_type = "backup_site";
  cadence = "weekly";
  hour_utc = 3;
  minute_utc = 30;
  weekday_utc = 1;
  enabled = true;
  run_requested = false;
  last_run = 0;
  last_status = "never";
  last_detail = "";
  created_at = 0;
  updated_at = 0;
}

-- 1970-01-13, a Tuesday, at 3:31
abbrev tuesday : ℕ
tuesday = 1049460

-- every account has every feature and no package
abbrev policy : PolicyDb
policy = record { packages = []; features = []; assignments = [] }

abbrev db : Db
db = record {
  tasks = weekly ∷ [];
  sites = record { domain = "a.org"; owner = "ann" } ∷ [];
  databases = record { owner = "ann"; site_domain = "a.org"; db_name = "a" } ∷ [];
  deployments = [];
  backups = [];
  notifications = [];
  audit = [];
  users = [];
  policy = policy;
}

abbrev agent : Call → Fields
agent c = Fields.field "ok" (Json.bool true) (
    Fields.field "meta"
      (Json.dict "" (
        Fields.field "archive" (Json.str "a.tar")
          (Fields.field "size_bytes" (Json.int (pos 9)) Fields.end)))
      Fields.end)

abbrev clock : ℕ → Clock
clock id = record { finished = tuesday + 5; audited = tuesday + 5; notified = tuesday + 6 }

backup_test :
    let after = tick agent clock tuesday db in
    (length after.backups ≡ 1) × (length after.audit ≡ 1) × (length after.notifications ≡ 0)
unfolding unfold_all
backup_test = (refl, refl, refl)

failure_test :
    let after = tick (λ c. Fields.end) clock tuesday db in
    let again = tick (λ c. Fields.end) clock (tuesday + 20) after in
    (length after.backups ≡ 0) × (length after.notifications ≡ 1) × (length again.audit ≡ 1)
unfolding unfold_all
failure_test = (refl, refl, refl)

due_exact_example : (due weekly tuesday ≡ true) ↔ (
    (opens weekly tuesday ≤ from_monday tuesday)
    × (from_monday tuesday < closes weekly tuesday)
    × ((weekly.last_run ≡ 0) ⊎ (from_monday weekly.last_run < begins weekly tuesday)))
unfolding unfold_all
due_exact_example =
    due_exact weekly tuesday refl refl refl (omega arith) (omega arith) (omega arith)

abbrev ran : Task
ran = record weekly {
  last_run = tuesday;
  last_status = "ok";
  last_detail = "backup completed";
  updated_at = tuesday + 5;
}

due_once_example : due ran (tuesday + 3600) ≡ false
unfolding unfold_all
due_once_example = due_once agent weekly ran tuesday (tuesday + 3600) (clock 7) db refl refl

-- a package with room for two tasks, for the account of `ann`
abbrev with_package : Db
with_package = record db {
  policy = record {
    packages = record { id = 1; name = "basic"; limit = λ c. pos 2; enabled = true } ∷ [];
    features = record { package_id = 1; feature_id = "advanced.cron"; enabled = true } ∷ [];
    assignments = record { username = "ann"; package_id = 1 } ∷ [];
  };
}

abbrev ann : Context
ann = record {
  caller = record { user = some "ann"; role = some "operator" };
  now = 100;
  audited = 101;
  ip = "::1";
}

abbrev body : Body
body = Body.object (
    Fields.field "domain" (Json.str " A.org") (
      Fields.field "task_type" (Json.str "backup_site") (
        Fields.field "cadence" (Json.str "daily")
          (Fields.field "hour_utc" (Json.int (pos 4)) Fields.end))))

create_test :
    let (answer, after) = schedules_create ann body with_package in
    (answer ≡ Reply.done 201 8)
    × (length after.tasks ≡ 2)
    × ((schedules_create ann body after).0
        ≡ Reply.fail 409 "hosting package scheduled-task quota reached")
    × ((schedules_update ann body 9 after).0 ≡ Reply.fail 404 "scheduled task not found")
unfolding unfold_all features explicit_features base_features default_account_features
create_test = (refl, refl, refl, refl)

sound : IsSound with_package
unfolding unfold_all
sound = ((((refl, omega arith, omega arith, omega arith), refl), tt), λ id. ground arith)

abbrev and_back : Db
and_back = (schedules_delete ann 7 (schedules_create ann body with_package).1).1

Changes-IsSound_example : IsSound and_back
Changes-IsSound_example =
    Changes-IsSound sound
      (Changes.next (Changes.next Changes.here (Change.create ann body)) (Change.delete ann 7))
