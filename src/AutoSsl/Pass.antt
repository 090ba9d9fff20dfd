-- ===== src/AutoSsl/Pass.antt =====
-- `_record` and `run_once` of agent/autossl_scheduler.py.
use nexvary_panel.Base.{
  ℕ, String, ◌==◌, Bool, true, false, ◌&&◌, none, some, List, [], ◌∷◌, ◌++◌, if◌then◌else◌,
}
use nexvary_panel.Base.Lists.{update}
use nexvary_panel.Base.Text.{◌⧺◌, prefix}
use nexvary_panel.AutoSsl.Store.{SslPolicy, Db, policies_to_check}
use nexvary_panel.AutoSsl.Check.{SslCall, Provider, Verdict, check_policy}

abbrev pub has_key : String → String → SslPolicy → Bool
has_key domain owner p = (p.domain == domain) && (p.owner == owner)

-- the row that `_record` writes
abbrev pub recorded : ℕ → Verdict → SslPolicy → SslPolicy
recorded now v p = record p {
  last_check = now;
  last_renewal = if v.renewed then now else p.last_renewal;
  last_status = prefix 32 v.status;
  last_detail = prefix 700 v.detail;
  updated_at = now;
}

-- `_record`
unfoldable pub record_verdict : ℕ → String → String → Verdict → Db → Db
record_verdict now domain owner v db = record db {
  policies = update (has_key domain owner) (recorded now v) db.policies;
  audit =
      record {
        ts = now;
        actor = "autossl";
        action = "autossl-check";
        detail = prefix 700 ("domain=" ⧺ domain ⧺ " status=" ⧺ v.status);
        ip = "";
      }
      ∷ db.audit;
}

-- What a pass has done: the tables, the calls in their order, and whether it came to its end.
pub record Passed : Type 0 where
  pub db : Db
  pub calls : List SslCall
  pub ended : Bool

abbrev pub add_calls : List SslCall → Passed → Passed
add_calls calls r = record r { calls = calls ++ r.calls }

-- `clock` is the time at which the verdict on a domain is recorded. An exception ends the pass.
unfoldable pub check_rows : Provider → ℕ → (String → ℕ) → List SslPolicy → Db → Passed
check_rows p now clock [] db = record { db = db; calls = []; ended = true }
check_rows p now clock (row ∷ rows) db = elim (check_policy p now db row) [
  | none ↦ check_rows p now clock rows db
  | some outcome ↦ elim outcome.verdict [
    | none ↦ record { db = db; calls = outcome.calls; ended = false }
    | some v ↦
        add_calls outcome.calls (
          check_rows p now clock rows (record_verdict (clock row.domain) row.domain row.owner v db))
  ]
]

-- `run_once`, where the database is there
unfoldable pub run_once : Provider → ℕ → (String → ℕ) → Db → Passed
run_once p now clock db = check_rows p now clock (policies_to_check db) db
