-- ===== src/Scheduler/Outcomes.antt =====
-- What each route of panel/routes_schedules.py leaves of the table of tasks.
use nexvary_panel.Base.{
  ℕ, ◌<◌, ◌≡◌, ◌⊎◌, inl, inr, refl, String, true, not, ◌&&◌, Option, none, some, arith, Bool-cases,
  Option-cases,
}
use nexvary_panel.Base.Int.{ℤ, clamp_zero}
use nexvary_panel.Base.Lists.{find, update, select, count}
use nexvary_panel.Base.Json.{Json, Fields, Body, text_of}
use nexvary_panel.Base.Text.{strip, lower}
use nexvary_panel.Base.Names.{is_domain}
use nexvary_panel.Base.Sets.{contains}
use nexvary_panel.Policy.{feature_allowed}
use nexvary_panel.Web.{Context, object_of}
use nexvary_panel.Scheduler.Store.{Task, Db, audit}
use nexvary_panel.Scheduler.Calendar.{cadences}
use nexvary_panel.Scheduler.Run.{task_types}
use nexvary_panel.Scheduler.Routes.{
  can_touch, max_jobs, owned_by, site_owner, slot_fields, number_fields, checked_fields,
  insert_task, with_task, Fields5, Parsed, schedule_fields, create_in, schedules_create,
  schedules_update, schedules_run_now, schedules_delete, task_has_id,
}

-- a cadence and a time that the scheduler knows
abbrev pub IsSlot : String → ℕ → ℕ → ℕ → Type 0
IsSlot cadence minute hour weekday =
    (contains cadences cadence ≡ true) × (minute < 60) × (hour < 24) × (weekday < 7)

checked-IsSlot :
    (cadence : String) (minute hour weekday : ℤ) (enabled : Json) (f : Fields5)
    → contains cadences cadence ≡ true
    → checked_fields cadence minute hour weekday enabled ≡ Parsed.valid f
    → IsSlot f.cadence f.minute f.hour f.weekday
unfolding checked_fields clamp_zero
checked-IsSlot cadence minute hour weekday enabled f known h = ground arith

numbers-IsSlot :
    (cadence : String) (minute hour weekday : Option ℤ) (enabled : Json) (f : Fields5)
    → contains cadences cadence ≡ true
    → number_fields cadence minute hour weekday enabled ≡ Parsed.valid f
    → IsSlot f.cadence f.minute f.hour f.weekday
unfolding number_fields
numbers-IsSlot cadence (some m) (some h) (some w) enabled f known e =
    checked-IsSlot cadence m h w enabled f known e
numbers-IsSlot cadence (some m) (some h) none enabled f known e = absurd (cc)
numbers-IsSlot cadence (some m) none w enabled f known e = absurd (cc)
numbers-IsSlot cadence none h w enabled f known e = absurd (cc)

slot_fields-IsSlot :
    (cadence : String) (minute hour weekday : Option ℤ) (enabled : Json) (f : Fields5)
    → slot_fields cadence minute hour weekday enabled ≡ Parsed.valid f
    → IsSlot f.cadence f.minute f.hour f.weekday
unfolding slot_fields
slot_fields-IsSlot cadence minute hour weekday enabled f e =
    elim (Bool-cases (contains cadences cadence)) [
      | inl known ↦ numbers-IsSlot cadence minute hour weekday enabled f known (rw known at e)
      | inr other ↦ absurd (cc (rw other at e))
    ]

fields-IsSlot :
    (data' : Fields) (current : Option Task) (f : Fields5)
    → schedule_fields data' current ≡ Parsed.valid f
    → IsSlot f.cadence f.minute f.hour f.weekday
unfolding schedule_fields
fields-IsSlot data' current f h = slot_fields-IsSlot _ _ _ _ _ f h

Parsed-cases :
    (x : Parsed) → ((f : Fields5) × (x ≡ Parsed.valid f)) ⊎ ((e : String) × (x ≡ Parsed.invalid e))
Parsed-cases (Parsed.valid f) = inl (f, refl)
Parsed-cases (Parsed.invalid e) = inr (e, refl)

-- What a create leaves of the tasks: nothing new, or one row within the quota of its owner.
module _ (c : Context) (domain task_type : String) (f : Fields5) (db : Db) where
  created_for :
      (owner : String)
      → site_owner db domain ≡ some owner
      → ((create_in c domain task_type f db).1.tasks ≡ db.tasks)
        ⊎ ((count (owned_by owner) db.tasks < max_jobs db owner)
            × ((create_in c domain task_type f db).1.tasks
                ≡ (insert_task owner domain task_type f c.now db).tasks))
  unfolding create_in audit
  created_for owner found = ground arith

  abbrev pub IsCreated : Db → Type 0
  IsCreated after =
      (after.tasks ≡ db.tasks)
      ⊎ ((owner : String) × (count (owned_by owner) db.tasks < max_jobs db owner)
          × (after.tasks ≡ (insert_task owner domain task_type f c.now db).tasks))

  create_in-IsCreated : IsCreated (create_in c domain task_type f db).1
  unfolding create_in
  create_in-IsCreated = elim (Option-cases (site_owner db domain)) [
    | inl missing ↦ inl (ground arith)
    | inr (owner, found) ↦ elim (created_for owner found) [
      | inl same ↦ inl same
      | inr made ↦ inr (owner, made.0, made.1)
    ]
  ]

pub create_tasks :
    (c : Context) (body : Body) (db : Db)
    → ((schedules_create c body db).1.tasks ≡ db.tasks)
      ⊎ ((domain : String) × (task_type : String) × (f : Fields5) × (contains task_types task_type
            ≡ true)
          × IsSlot f.cadence f.minute f.hour f.weekday
          × IsCreated c domain task_type f db (schedules_create c body db).1)
unfolding schedules_create
create_tasks c body db =
    elim (Bool-cases (feature_allowed c.caller "advanced.cron" none none db.policy)) [
      | inr off ↦ inl (rw off refl)
      | inl on ↦ elim (Option-cases (object_of body)) [
        | inl bad ↦ inl (rw (on, bad) refl)
        | inr (d, read) ↦
            let domain = lower (strip (text_of "domain" "" d)) in
            let task_type = lower (strip (text_of "task_type" "" d)) in
            elim (Bool-cases (is_domain domain)) [
              | inr bad ↦ inl (rw (on, read, bad) refl)
              | inl good ↦ elim (Bool-cases (contains task_types task_type)) [
                | inr bad ↦ inl (rw (on, read, good, bad) refl)
                | inl known ↦ elim (Parsed-cases (schedule_fields d none)) [
                  | inr (e, bad) ↦ inl (rw (on, read, good, known, bad) refl)
                  | inl (f, parsed) ↦ inr (
                    domain,
                    task_type,
                    f,
                    known,
                    fields-IsSlot d none f parsed,
                    rw (on, read, good, known, parsed)
                        (create_in-IsCreated c domain task_type f db),
                  )
                ]
              ]
            ]
      ]
    ]

module _ (c : Context) (id : ℕ) (db : Db) where
  pub edit_tasks :
      (body : Body)
      → ((schedules_update c body id db).1.tasks ≡ db.tasks)
        ⊎ ((f : Fields5) × IsSlot f.cadence f.minute f.hour f.weekday
            × ((schedules_update c body id db).1.tasks
                ≡ update
                    (task_has_id id)
                    (λ t. record t {
                      cadence = f.cadence;
                      hour_utc = f.hour;
                      minute_utc = f.minute;
                      weekday_utc = f.weekday;
                      enabled = f.enabled;
                      updated_at = c.now;
                    })
                    db.tasks))
  unfolding schedules_update with_task audit
  edit_tasks body = elim (Option-cases (object_of body)) [
    | inl bad ↦ inl (ground arith)
    | inr (d, read) ↦ elim (Option-cases (find (task_has_id id) db.tasks)) [
      | inl missing ↦ inl (ground arith)
      | inr (row, found) ↦ elim (Parsed-cases (schedule_fields d (some row))) [
        | inr (e, bad) ↦ inl (ground arith)
        | inl (f, parsed) ↦
            elim (Bool-cases (
              feature_allowed c.caller "advanced.cron" none none db.policy
              && can_touch c.caller row.owner)) [
                | inr off ↦ inl (ground arith)
                | inl on ↦ inr (f, fields-IsSlot d (some row) f parsed, ground arith)
              ]
      ]
    ]
  ]

  pub ask_tasks :
      ((schedules_run_now c id db).1.tasks ≡ db.tasks)
      ⊎ ((schedules_run_now c id db).1.tasks
          ≡ update
              (task_has_id id)
              (λ t. record t {
                run_requested = true;
                last_status = "queued";
                last_detail = "";
                updated_at = c.now;
              })
              db.tasks)
  unfolding schedules_run_now with_task audit
  ask_tasks = ground arith

  pub delete_tasks :
      ((schedules_delete c id db).1.tasks ≡ db.tasks)
      ⊎ ((schedules_delete c id db).1.tasks ≡ select (λ t. not (task_has_id id t)) db.tasks)
  unfolding schedules_delete with_task audit
  delete_tasks = ground arith
