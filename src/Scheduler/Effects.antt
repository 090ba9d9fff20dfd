-- ===== src/Scheduler/Effects.antt =====
-- What a run and a pass of agent/scheduler_agent.py leave in the table of tasks.
use nexvary_panel.Base.{
  ℕ, ◌≡◌, ◌∙◌, inl, inr, refl, String, ◌==◌, Bool, true, false, ◌&&◌, none, some, List, [], ◌∷◌,
  eqb, if◌then◌else◌, arith, Bool-cases, Option-cases,
}
use nexvary_panel.Base.Lists.{
  All, All-find, All-update, find-true, find, update, count, count-update,
}
use nexvary_panel.Base.Json.{Fields}
use nexvary_panel.Base.Sets.{contains}
use nexvary_panel.Scheduler.Store.{Task, Db}
use nexvary_panel.Scheduler.Calendar.{due, same_hour, same_day, same_iso_week}
use nexvary_panel.Scheduler.Run.{
  Call, Clock, Outcome, perform, backup_task, deploy_task, audit_run, notify_failure, start_task,
  close_task, run_task, run_rows, task_types,
}

abbrev pub with_id : ℕ → Task → Bool
with_id id t = eqb t.id id

perform_keeps :
    (agent : Call → Fields) (row : Task) (now : ℕ) (db : Db) (o : Outcome)
    → perform agent row now db ≡ some o
    → o.db.tasks ≡ db.tasks
unfolding perform backup_task deploy_task
perform_keeps agent row now db o h = ground arith

module _ (agent : Call → Fields) (row : Task) (now : ℕ) (clock : Clock) (db : Db) where
  raised_tasks :
      perform agent row now (start_task row.id now db) ≡ none
      → (run_task agent row now clock db).1.tasks ≡ (start_task row.id now db).tasks
  unfolding run_task
  raised_tasks h = ground arith

  done_tasks :
      (o : Outcome)
      → perform agent row now (start_task row.id now db) ≡ some o
      → (run_task agent row now clock db).1.tasks
        ≡ update
            (with_id row.id)
            (λ t. record t {
              last_status = o.status;
              last_detail = o.detail;
              updated_at = clock.finished;
            })
            (start_task row.id now db).tasks
  unfolding run_task close_task audit_run notify_failure
  done_tasks o h = ground (arith, perform_keeps agent row now (start_task row.id now db) o h)

-- A property of tasks that the two updates of a run keep holds of all tasks after it.
pub run_keeps :
    (P : Task → Type 0) (agent : Call → Fields) (row : Task) (now : ℕ) (clock : Clock)
    → ((status detail : String) (at : ℕ) (t : Task)
        → P t
        → P (record t { last_status = status; last_detail = detail; updated_at = at }))
    → (db : Db) → All P (start_task row.id now db).tasks
    → All P (run_task agent row now clock db).1.tasks
run_keeps P agent row now clock closed db h =
    elim (Option-cases (perform agent row now (start_task row.id now db))) [
      | inl raised ↦ rw (raised_tasks agent row now clock db raised) h
      | inr (o, done) ↦ rw (done_tasks agent row now clock db o done) (
          All-update P (with_id row.id) _ (λ t p q. closed o.status o.detail clock.finished t p) _
            h)
    ]

pub run_counts :
    (id : ℕ) (agent : Call → Fields) (row : Task) (now : ℕ) (clock : Clock) (db : Db)
    → count (with_id id) (run_task agent row now clock db).1.tasks ≡ count (with_id id) db.tasks
unfolding start_task
run_counts id agent row now clock db =
    let started : count (with_id id) (start_task row.id now db).tasks
        ≡ count (with_id id) db.tasks =
      count-update (with_id row.id) (with_id id) _ (λ t. refl) db.tasks in
    elim (Option-cases (perform agent row now (start_task row.id now db))) [
      | inl raised ↦ rw (raised_tasks agent row now clock db raised) started
      | inr (o, done) ↦ rw (done_tasks agent row now clock db o done) (
          count-update (with_id row.id) (with_id id) _ (λ t. refl) (start_task row.id now db).tasks
          ∙ started)
    ]

-- what a run has written of a task of the id
abbrev pub Started : ℕ → ℕ → Task → Type 0
Started id now t = with_id id t ≡ true → (t.last_run ≡ now) × (t.run_requested ≡ false)

update-Started :
    (id now : ℕ) (f : Task → Task)
    → ((t : Task) → (f t).last_run ≡ now)
    → ((t : Task) → (f t).run_requested ≡ false)
    → (l : List Task) → All (Started id now) (update (with_id id) f l)
unfolding update
update-Started id now f p q [] = tt
update-Started id now f p q (t ∷ l) = elim (Bool-cases (with_id id t)) [
  | inl hit ↦ rw hit ((λ e. (p t, q t)), update-Started id now f p q l)
  | inr miss ↦ rw miss ((λ e. absurd (cc (miss, e))), update-Started id now f p q l)
]

run-Started :
    (agent : Call → Fields) (row : Task) (now : ℕ) (clock : Clock) (db : Db)
    → All (Started row.id now) (run_task agent row now clock db).1.tasks
unfolding start_task
run-Started agent row now clock db =
    run_keeps (Started row.id now) agent row now clock (λ status detail at t p. p) db
      (update-Started row.id now _ (λ t. refl) (λ t. refl) db.tasks)

-- the two moments lie in one hour, day or week, as the cadence has it
abbrev pub same_period : String → ℕ → ℕ → Bool
same_period cadence a b =
    if cadence == "hourly"
    then same_hour a b
    else if cadence == "daily"
    then same_day a b
    else same_iso_week a b

not_due :
    (t : Task) (now now' : ℕ)
    → t.last_run ≡ now
    → t.run_requested ≡ false
    → same_period t.cadence now now' ≡ true
    → due t now' ≡ false
unfolding due
not_due t now now' ran asked same = ground arith

-- However a run ends, in an exception too, its task is not due again in the same hour, day or week.
pub due_once :
    (agent : Call → Fields) (row t : Task) (now now' : ℕ) (clock : Clock) (db : Db)
    → find (with_id row.id) (run_task agent row now clock db).1.tasks ≡ some t
    → same_period t.cadence now now' ≡ true
    → due t now' ≡ false
due_once agent row t now now' clock db at same =
    let tasks = (run_task agent row now clock db).1.tasks in
    let s : Started row.id now t =
      All-find (Started row.id now) (with_id row.id) tasks (run-Started agent row now clock db)
        at in
    let w = s (find-true (with_id row.id) tasks at) in not_due t now now' w.0 w.1 same

module _ (agent : Call → Fields) (clock : ℕ → Clock) (now : ℕ) where
  -- What every run keeps, the loop keeps.
  pub rows_keep :
      (P : Db → Type 0)
      → ((row : Task) (c : Clock) (db : Db) → P db → P (run_task agent row now c db).1)
      → (rows : List Task) (db : Db) → P db
      → P (run_rows agent clock now rows db)
  unfolding run_rows
  rows_keep P keep [] db h = h
  rows_keep P keep (row ∷ rows) db h =
      let ran : P (run_task agent row now (clock row.id) db).1 = keep row (clock row.id) db h in
      elim (Bool-cases (contains task_types row.task_type && due row now)) [
        | inl go ↦ elim (Bool-cases (run_task agent row now (clock row.id) db).0) [
          | inl raised ↦ rw (go, raised) ran
          | inr fine ↦ rw (go, fine) (rows_keep P keep rows _ ran)
        ]
        | inr stay ↦ rw stay (rows_keep P keep rows db h)
      ]
