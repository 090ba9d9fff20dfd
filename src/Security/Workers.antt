-- ===== src/Security/Workers.antt =====
-- The brake of the panel's worker processes (systemd/nexvary-panel.service runs two). `FAILED` of
-- panel/security.py is a dictionary of each process.
use nexvary_panel.Base.{ℕ, String, List, [], ◌∷◌, eqb, if◌then◌else◌}
use nexvary_panel.Security.Store.{Crypto, Db, Session}
use nexvary_panel.Security.Login.{Failed, State}
use nexvary_panel.Security.Brake.{Attempt, attempt}

-- the processes' tables by the number of the process, and the audit
pub record Panel : Type 0 where
  pub tables : ℕ → Failed
  pub audit : List (String × String × String)

-- an attempt, the session cookie it is made with, and the process that takes it
pub record Arrival : Type 0 where
  pub worker : ℕ
  pub session : Session
  pub try : Attempt

-- what one process sees
abbrev pub seen_by : ℕ → Session → Panel → State
seen_by w s p = record { failed = p.tables w; session = s; audit = p.audit }

-- the attempts that a process takes
unfoldable pub taken_by : ℕ → List Arrival → List Attempt
taken_by w [] = []
taken_by w (x ∷ l) = let rest = taken_by w l in if eqb x.worker w then x.try ∷ rest else rest

module _ (c : Crypto) (db : Db) (addr : String) where
  unfoldable pub arrive : Arrival → Panel → Panel
  arrive x p =
      let after = attempt c db addr x.try (seen_by x.worker x.session p) in
      record {
        tables = λ w. if eqb x.worker w then after.failed else p.tables w;
        audit = after.audit;
      }

  unfoldable pub arrivals : List Arrival → Panel → Panel
  arrivals [] p = p
  arrivals (x ∷ l) p = arrivals l (arrive x p)
