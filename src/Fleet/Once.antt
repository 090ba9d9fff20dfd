-- ===== src/Fleet/Once.antt =====
-- A request id runs at most once: requests to `fleet_machine_apply` of panel/routes_fleet.py that
-- overlap as the statements of the database let them.
use nexvary_panel.Base.{
  ℕ, ◌+◌, ◌≤◌, String, ◌==◌, ◌≡◌, refl, ap, ◌∙◌, inl, inr, Bool, false, none, some, List, [], ◌∷◌,
  ◌++◌, arith, eq_iff, if◌then◌else◌, Option-cases,
}
use mathlib.Core.Path.{subst}
use nexvary_panel.Base.Lists.{find, count, count-append, count-find-none, count-update}
use nexvary_panel.Base.Json.{Json}
use nexvary_panel.Fleet.Store.{Db}
use nexvary_panel.Fleet.Inbound.{
  Parsed, existing_job, new_job, has_id, insert_job, Call, Execution, execute_inbound, finish_job,
  close_job,
}

-- How far a request is: its `SELECT` has found no job, its `INSERT` is committed, or the local
-- agent has answered.
pub data Thread : Type 0 where
  selected : Parsed → Thread
  running : Parsed → Thread
  ran : Parsed → Execution → Thread

-- `executed` lists the ids for which an agent was called, latest first.
pub record State : Type 0 where
  pub db : Db
  pub threads : List Thread
  pub executed : List String

-- One statement of one request. `elsewhere` is any transaction of the other routes on the jobs:
-- they delete none, and the table keeps its ids distinct.
pub data Step (agents : Call → Json) (s t : State) : Type 0 where
  select :
      (p : Parsed)
      → existing_job s.db p ≡ none
      → t ≡ record s { threads = Thread.selected p ∷ s.threads }
      → Step agents s t
  insert :
      (p : Parsed) (now : ℕ) (db' : Db) (before after : List Thread)
      → s.threads ≡ before ++ (Thread.selected p ∷ after)
      → insert_job s.db p now ≡ some db'
      → t ≡ record s { db = db'; threads = before ++ (Thread.running p ∷ after) }
      → Step agents s t
  clash :
      (p : Parsed) (now : ℕ) (before after : List Thread)
      → s.threads ≡ before ++ (Thread.selected p ∷ after)
      → insert_job s.db p now ≡ none
      → t ≡ record s { threads = before ++ after }
      → Step agents s t
  execute :
      (p : Parsed) (before after : List Thread)
      → s.threads ≡ before ++ (Thread.running p ∷ after)
      → t ≡ record s {
        threads = before ++ (Thread.ran p (execute_inbound agents p.operation p.payload) ∷ after);
        executed = p.request_id ∷ s.executed;
      }
      → Step agents s t
  finish :
      (p : Parsed) (e : Execution) (now used : ℕ) (before after : List Thread)
      → s.threads ≡ before ++ (Thread.ran p e ∷ after)
      → t ≡ record s { db = finish_job s.db p e now used; threads = before ++ after }
      → Step agents s t
  elsewhere :
      (db' : Db)
      → ((id : String) → count (has_id id) s.db.jobs ≤ count (has_id id) db'.jobs)
      → ((id : String) → count (has_id id) db'.jobs ≤ 1)
      → t ≡ record s { db = db' }
      → Step agents s t

pub data Reach (agents : Call → Json) (s : State) : State → Type 0 where
  here : Reach agents s s
  next : {t u : State} → Reach agents s t → Step agents t u → Reach agents s u

-- the requests with an id whose `INSERT` is committed and whose agent is yet to be called
abbrev pub is_running : String → Thread → Bool
is_running id (Thread.running p) = p.request_id == id
is_running id _ = false

abbrev pub is_id : String → String → Bool
is_id id x = x == id

pub record IsOnce (s : State) : Type 0 where
  pub covered :
      (id : String)
      → count (is_id id) s.executed + count (is_running id) s.threads ≤ count (has_id id) s.db.jobs
  pub distinct : (id : String) → count (has_id id) s.db.jobs ≤ 1

insert_count :
    (db db' : Db) (p : Parsed) (now : ℕ) (id : String)
    → insert_job db p now ≡ some db'
    → (count (has_id id) db'.jobs
        ≡ count (has_id id) db.jobs + (if p.request_id == id then 1 else 0))
      × (p.request_id ≡ id → count (has_id id) db.jobs ≡ 0)
unfolding insert_job
insert_count db db' p now id h = elim (Option-cases (find (has_id p.request_id) db.jobs)) [
  | inl fresh ↦
      let e : db'.jobs ≡ db.jobs ++ (new_job p now ∷ []) = ground arith in
      (
        rw e
            (count-append (has_id id) db.jobs (new_job p now ∷ []) ∙ (unfold count in omega arith)),
        λ same. subst (λ x. count (has_id x) db.jobs ≡ 0) same (count-find-none _ db.jobs fresh),
      )
  | inr (j, old) ↦ absurd (ground arith)
]

finish_count :
    (db : Db) (p : Parsed) (e : Execution) (now used : ℕ) (id : String)
    → count (has_id id) (finish_job db p e now used).jobs ≡ count (has_id id) db.jobs
unfolding finish_job
finish_count db p e now used id =
    count-update (has_id p.request_id) (has_id id) (close_job e now) (λ j. refl) db.jobs

-- What a list counts with one element named.
count_middle {ℓ} :
    {A : Type ℓ} (q : A → Bool) (l before after : List A) (x : A)
    → l ≡ before ++ (x ∷ after)
    → count q l ≡ count q before + ((if q x then 1 else 0) + count q after)
count_middle q l before after x e =
    rw e (count-append q before (x ∷ after) ∙ (unfold count in refl))

Step-IsOnce : {agents : Call → Json} {s t : State} → Step agents s t → IsOnce s → IsOnce t
Step-IsOnce {s} {t} (select p free e) h = record {
  covered = λ id. rw e (unfold count in omega (arith, h.covered id));
  distinct = λ id. rw e (h.distinct id);
}
Step-IsOnce {s} {t} (insert p now db' before after at ins e) h = record {
  covered = λ id. rw e (
      omega (
        arith,
        h.covered id,
        (insert_count s.db db' p now id ins).0,
        count_middle (is_running id) s.threads before after (Thread.selected p) at,
        count_middle (is_running id) (before ++ (Thread.running p ∷ after)) before after
            (Thread.running p) refl,
      ));
  distinct = λ id.
      rw e
        (ground (arith, h.distinct id, insert_count s.db db' p now id ins, eq_iff p.request_id id));
}
Step-IsOnce {s} {t} (clash p now before after at ins e) h = record {
  covered = λ id. rw e (
      omega (
        arith,
        h.covered id,
        count_middle (is_running id) s.threads before after (Thread.selected p) at,
        count-append (is_running id) before after,
      ));
  distinct = λ id. rw e (h.distinct id);
}
Step-IsOnce {agents} {s} {t} (execute p before after at e) h = record {
  covered = λ id. rw e (
      unfold count in
      omega (
        arith,
        h.covered id,
        count_middle (is_running id) s.threads before after (Thread.running p) at,
        count_middle (is_running id) t.threads before after
            (Thread.ran p (execute_inbound agents p.operation p.payload))
            (ap (λ (x : State). x.threads) e),
        ap (λ (x : State). count (is_running id) x.threads) e,
      ));
  distinct = λ id. rw e (h.distinct id);
}
Step-IsOnce {s} {t} (finish p ex now used before after at e) h = record {
  covered = λ id. rw e (
      omega (
        arith,
        h.covered id,
        finish_count s.db p ex now used id,
        count_middle (is_running id) s.threads before after (Thread.ran p ex) at,
        count-append (is_running id) before after,
      ));
  distinct = λ id. rw e (omega (arith, h.distinct id, finish_count s.db p ex now used id));
}
Step-IsOnce {s} {t} (elsewhere db' more unique e) h = record {
  covered = λ id. rw e (omega (arith, h.covered id, more id));
  distinct = λ id. rw e (unique id);
}

Reach-IsOnce : {agents : Call → Json} {s t : State} → IsOnce s → Reach agents s t → IsOnce t
Reach-IsOnce h here = h
Reach-IsOnce h (next r st) = Step-IsOnce st (Reach-IsOnce h r)

abbrev pub start : Db → State
start db = record { db = db; threads = []; executed = [] }

start-IsOnce : (db : Db) → ((i : String) → count (has_id i) db.jobs ≤ 1) → IsOnce (start db)
start-IsOnce db unique = record { covered = λ i. unfold count in omega arith; distinct = unique }

-- Whatever requests overlap, in whatever order their statements run, a privileged agent is called
-- at most once for a request id; and each id for which it is called has one job in the table.
pub at_most_once :
    (agents : Call → Json) (db : Db) (t : State) (id : String)
    → ((i : String) → count (has_id i) db.jobs ≤ 1)
    → Reach agents (start db) t
    → (count (is_id id) t.executed ≤ 1)
      × (count (is_id id) t.executed ≤ count (has_id id) t.db.jobs)
at_most_once agents db t id unique r =
    let h : IsOnce t = Reach-IsOnce (start-IsOnce db unique) r in
    omega (arith, h.covered id, h.distinct id)
