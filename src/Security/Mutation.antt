-- ===== src/Security/Mutation.antt =====
-- Who passes the guards of a sensitive mutation, and what the guards do to everybody else.
use nexvary_panel.Base.{
  ℕ, ◌≤◌, String, ◌==◌, ◌≡◌, ◌↔◌, inl, inr, true, false, Option, none, some, List, Reply, NoBody,
  arith, eq_iff, if◌then◌else◌, Bool-cases, Option-cases,
}
use nexvary_panel.Base.Text.{prefix, truthy}
use nexvary_panel.Security.Store.{Session, Db, User, or_empty, same_text, cleared}
use nexvary_panel.Security.Credentials.{user_row}
use nexvary_panel.Security.StepUp.{until_or_zero, step_up_active}
use nexvary_panel.Security.Guards.{
  Request, api_request, session_identity_active, login_required, has_role, role_required,
  step_up_required, mutation_guard,
}

-- The name that the session identity is looked up by.
abbrev pub identity : Session → String
identity s = prefix 64 (or_empty s.user)

-- The account behind the session, as the tables have it now: the built-in administrator with its
-- own role, or a user that is enabled and still has the role of the session.
pub data IsCurrent (s : Session) (db : Db) : Type 0 where
  administrator : identity s ≡ "admin" → or_empty s.role ≡ "admin" → IsCurrent s db
  account :
      (row : User)
      → (identity s == "admin") ≡ false
      → truthy (identity s) ≡ true
      → user_row db (identity s) ≡ some row
      → row.enabled ≡ true
      → row.role ≡ or_empty s.role
      → IsCurrent s db

active-IsCurrent : (s : Session) (db : Db) → session_identity_active s db ≡ true → IsCurrent s db
unfolding session_identity_active
active-IsCurrent s db h = elim (Bool-cases (identity s == "admin")) [
  | inl admin ↦
      administrator ((eq_iff _ _).0 admin) (ground (arith, eq_iff (or_empty s.role) "admin"))
  | inr other ↦ elim (Option-cases (user_row db (identity s))) [
    | inl missing ↦ absurd (ground arith)
    | inr (row, e) ↦
        account row other (ground arith) e (ground arith)
          (ground (arith, eq_iff row.role (or_empty s.role)))
  ]
]

pub IsCurrent-active :
    (s : Session) (db : Db) → s.auth ≡ true → IsCurrent s db → session_identity_active s db ≡ true
unfolding session_identity_active
IsCurrent-active s db signed (administrator name role) =
    ground (arith, eq_iff (identity s) "admin", eq_iff (or_empty s.role) "admin")
IsCurrent-active s db signed (account row other named e on role) =
    ground (arith, eq_iff row.role (or_empty s.role))

pub record MayMutate (roles : List String) (db : Db) (now : ℕ) (s : Session) : Type 0 where
  pub signed_in : s.auth ≡ true
  pub current : IsCurrent s db
  pub role : has_role roles s.role ≡ true
  pub same_user : same_text s.step_up_user s.user ≡ true
  pub in_time : now ≤ until_or_zero s.step_up_until

guard_none :
    (roles : List String) (r : Request) (db : Db) (now : ℕ) (s : Session)
    → (mutation_guard roles r db now s).0 ≡ none
    → (s.auth ≡ true)
      × (session_identity_active s db ≡ true)
      × (has_role roles s.role ≡ true)
      × (same_text s.step_up_user s.user ≡ true)
      × (now ≤ until_or_zero s.step_up_until)
unfolding mutation_guard role_required step_up_required step_up_active
guard_none roles r db now s = ground arith

none_guard :
    (roles : List String) (r : Request) (db : Db) (now : ℕ) (s : Session)
    → s.auth ≡ true
    → session_identity_active s db ≡ true
    → has_role roles s.role ≡ true
    → same_text s.step_up_user s.user ≡ true
    → now ≤ until_or_zero s.step_up_until
    → (mutation_guard roles r db now s).0 ≡ none
unfolding mutation_guard role_required step_up_required step_up_active
none_guard roles r db now s = ground arith

-- The view of a sensitive mutation runs exactly for a signed-in session whose account is current,
-- whose role is listed, and whose step-up is of the same user and not over.
pub mutation_exact :
    (roles : List String) (r : Request) (db : Db) (now : ℕ) (s : Session)
    → ((mutation_guard roles r db now s).0 ≡ none) ↔ MayMutate roles db now s
mutation_exact roles r db now s = (
  λ h.
      let (signed, active, role, same, time) = guard_none roles r db now s h in
      record {
        signed_in = signed;
        current = active-IsCurrent s db active;
        role = role;
        same_user = same;
        in_time = time;
      },
  λ m.
      none_guard roles r db now s m.signed_in (IsCurrent-active s db m.signed_in m.current) m.role
        m.same_user m.in_time,
)

abbrev pub sign_in_again : Request → Reply NoBody
sign_in_again r =
    if api_request r
    then Reply.fail 401 "session revoked or account disabled"
    else Reply.redirect "/login"

-- A signed-in session whose account is no longer current is cleared by every guard, and the
-- request is answered with 401 or sent to the login page.
pub revoked_everywhere :
    (roles : List String) (r : Request) (db : Db) (now : ℕ) (s : Session)
    → s.auth ≡ true
    → ¬ IsCurrent s db
    → (login_required r db s ≡ (some (sign_in_again r), cleared))
      × (role_required roles r db s ≡ (some (sign_in_again r), cleared))
      × (step_up_required r db now s ≡ (some (sign_in_again r), cleared))
unfolding login_required role_required step_up_required
revoked_everywhere roles r db now s signed stale =
    elim (Bool-cases (session_identity_active s db)) [
      | inl active ↦ absurd (stale (active-IsCurrent s db active))
      | inr inactive ↦ (ground arith, ground arith, ground arith)
    ]

-- The HTTP status that a guard answers with, or nothing where the view runs.
abbrev pub status_of : Option (Reply NoBody) → Option ℕ
status_of none = none
status_of (some (Reply.done code body)) = some code
status_of (some (Reply.fail code error)) = some code
status_of (some (Reply.redirect url)) = some 302
status_of (some (Reply.raised what)) = some 500
