-- ===== src/Scheduler/Validity.antt =====
-- The table of tasks under every operation on it: the routes of panel/routes_schedules.py and the
-- passes of agent/scheduler_agent.py.
use nexvary_panel.Base.{
  ℕ, ◌≤◌, ◌≡◌, inl, inr, refl, true, not, List, [], ◌∷◌, ◌++◌, arith, Bool-cases,
}
use nexvary_panel.Base.Lists.{
  All, All-update, All-append, All-select, count-select, update, count, count-append, count-update,
}
use nexvary_panel.Base.Json.{Fields, Body}
use nexvary_panel.Base.Sets.{contains}
use nexvary_panel.Web.{Context}
use nexvary_panel.Scheduler.Store.{Task, Db, next_id}
use nexvary_panel.Scheduler.Run.{Call, Clock, start_task, run_task, tick, task_types}
use nexvary_panel.Scheduler.Routes.{
  insert_task, schedules_create, schedules_update, schedules_run_now, schedules_delete, task_has_id,
}
use nexvary_panel.Scheduler.Outcomes.{IsSlot, create_tasks, edit_tasks, ask_tasks, delete_tasks}
use nexvary_panel.Scheduler.Effects.{run_counts, rows_keep, run_keeps, with_id}

-- what the scheduler relies on in a row
abbrev pub IsValid : Task → Type 0
IsValid t =
    IsSlot t.cadence t.minute_utc t.hour_utc t.weekday_utc
    × (contains task_types t.task_type ≡ true)

-- the identifiers of the rows: no two rows share one
abbrev pub IsKeyed : List Task → Type 0
IsKeyed l = (id : ℕ) → count (with_id id) l ≤ 1

fresh_id : (l : List Task) (id : ℕ) → next_id l ≤ id → count (with_id id) l ≡ 0
unfolding next_id count
fresh_id [] id h = refl
fresh_id (t ∷ l) id h = ground (arith, fresh_id l id)

-- One operation on the table: a route, from whatever session with whatever input, or a pass.
pub data Change (db : Db) : Db → Type 0 where
  create : (c : Context) (body : Body) → Change db (schedules_create c body db).1
  edit : (c : Context) (body : Body) (id : ℕ) → Change db (schedules_update c body id db).1
  ask : (c : Context) (id : ℕ) → Change db (schedules_run_now c id db).1
  delete : (c : Context) (id : ℕ) → Change db (schedules_delete c id db).1
  pass : (agent : Call → Fields) (clock : ℕ → Clock) (now : ℕ) → Change db (tick agent clock now db)

pub data Changes (db : Db) : Db → Type 0 where
  here : Changes db db
  next : {db' db'' : Db} → Changes db db' → Change db' db'' → Changes db db''

-- The rows are valid and no two share an identifier.
abbrev pub IsSound : Db → Type 0
IsSound db = All IsValid db.tasks × IsKeyed db.tasks

update-IsSound :
    (id : ℕ) (f : Task → Task) (db db' : Db)
    → ((t : Task) → (f t).id ≡ t.id)
    → ((t : Task) → IsValid t → IsValid (f t))
    → db'.tasks ≡ update (with_id id) f db.tasks
    → IsSound db
    → IsSound db'
update-IsSound id f db db' same keep e h = rw e (
  All-update IsValid (with_id id) f (λ t v q. keep t v) db.tasks h.0,
  λ i. rw (count-update (with_id id) (with_id i) f (λ t. rw (same t) refl) db.tasks) (h.1 i),
)

append-IsKeyed : (l : List Task) (t : Task) → t.id ≡ next_id l → IsKeyed l → IsKeyed (l ++ t ∷ [])
unfolding count
append-IsKeyed l t e h id = elim (Bool-cases (with_id id t)) [
  | inl new ↦
      let none_yet : count (with_id id) l ≡ 0 = fresh_id l id (ground arith) in
      ground (arith, count-append (with_id id) l (t ∷ []), none_yet)
  | inr old ↦ ground (arith, count-append (with_id id) l (t ∷ []), h id)
]

create-IsSound :
    (c : Context) (body : Body) (db : Db) → IsSound db → IsSound (schedules_create c body db).1
unfolding insert_task
create-IsSound c body db h = elim (create_tasks c body db) [
  | inl same ↦ rw same h
  | inr (domain, task_type, f, known, slot, made) ↦ elim made [
    | inl same ↦ rw same h
    | inr (owner, room, e) ↦
        rw e (
          All-append IsValid db.tasks _ h.0 ((slot, known), tt),
          append-IsKeyed db.tasks _ refl h.1,
        )
  ]
]

delete-IsSound :
    (c : Context) (id : ℕ) (db : Db) → IsSound db → IsSound (schedules_delete c id db).1
delete-IsSound c id db h = elim (delete_tasks c id db) [
  | inl same ↦ rw same h
  | inr e ↦ rw e (
    All-select IsValid _ db.tasks h.0,
    λ i. omega (arith, h.1 i, count-select (λ t. not (task_has_id id t)) (with_id i) db.tasks),
  )
]

run-IsSound :
    (agent : Call → Fields) (row : Task) (now : ℕ) (clock : Clock) (db : Db)
    → IsSound db
    → IsSound (run_task agent row now clock db).1
unfolding start_task
run-IsSound agent row now clock db h = (
  run_keeps IsValid agent row now clock (λ status detail at t v. v) db
      (All-update IsValid (with_id row.id) _ (λ t v q. v) db.tasks h.0),
  λ i. omega (arith, h.1 i, run_counts i agent row now clock db),
)

Change-IsSound : {db db' : Db} → Change db db' → IsSound db → IsSound db'
unfolding tick
Change-IsSound {db} (create c body) h = create-IsSound c body db h
Change-IsSound {db} (edit c body id) h = elim (edit_tasks c id db body) [
  | inl same ↦ rw same h
  | inr (f, slot, e) ↦
      update-IsSound id _ db (schedules_update c body id db).1 (λ t. refl) (λ t v. (slot, v.1)) e h
]
Change-IsSound {db} (ask c id) h = elim (ask_tasks c id db) [
  | inl same ↦ rw same h
  | inr e ↦ update-IsSound id _ db (schedules_run_now c id db).1 (λ t. refl) (λ t v. v) e h
]
Change-IsSound {db} (delete c id) h = delete-IsSound c id db h
Change-IsSound {db} (pass agent clock now) h =
    rows_keep agent clock now IsSound (λ row c d s. run-IsSound agent row now c d s) _ db h

-- Whatever the routes are asked, in whatever order, and whenever passes run between them: the rows
-- keep a known cadence and type and a time of the day and week, and no two share an identifier.
pub Changes-IsSound : {db db' : Db} → IsSound db → Changes db db' → IsSound db'
Changes-IsSound h here = h
Changes-IsSound h (next r c) = Change-IsSound c (Changes-IsSound h r)
