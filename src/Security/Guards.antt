-- ===== src/Security/Guards.antt =====
-- The route decorators of panel/security.py: `login_required`, `role_required` and
-- `step_up_required`. A flashed message, Arabic in the source, goes by an English word. A guard gives an answer, or `none` where the view runs, and the session.
use nexvary_panel.Base.{
  ℕ, String, ◌==◌, Bool, false, not, ◌&&◌, ◌||◌, Option, none, some, List, ◌∷◌, Reply, NoBody,
  starts_with, if◌then◌else◌,
}
use nexvary_panel.Base.Text.{prefix, truthy}
use nexvary_panel.Base.Sets.{contains}
use nexvary_panel.Security.Store.{Session, Db, or_empty, same_text, cleared}
use nexvary_panel.Security.Credentials.{user_row}
use nexvary_panel.Security.StepUp.{step_up_active}

-- what the guards read of the Flask request
pub record Request : Type 0 where
  pub path : String
  pub is_json : Bool
  pub method : String
  pub authorization : String
  pub csrf_header : Option String
  pub csrf_form : Option String

-- `url_for("login")` and `url_for("home")`
abbrev pub login_url : String
login_url = "/login"

abbrev pub home_url : String
home_url = "/"

abbrev pub Guarded : Type 0
Guarded = Option (Reply NoBody) × Session

-- `_api_request`
unfoldable pub api_request : Request → Bool
api_request r = starts_with r.path "/api/" || r.is_json

-- `_session_identity_active`
unfoldable pub session_identity_active : Session → Db → Bool
session_identity_active s db =
    let username = prefix 64 (or_empty s.user) in
    let role = or_empty s.role in
    if not s.auth
    then false
    else if username == "admin"
    then role == "admin"
    else if not (truthy username)
    then false
    else (elim (user_row db username) [ none ↦ false | some row ↦ row.enabled && row.role == role ])

abbrev unauthenticated : Request → Reply NoBody
unauthenticated r =
    if api_request r then Reply.fail 401 "authentication required" else Reply.redirect login_url

-- `_revoked_response`, which clears the session
abbrev revoked : Request → Reply NoBody
revoked r =
    if api_request r
    then Reply.fail 401 "session revoked or account disabled"
    else Reply.redirect login_url

unfoldable pub login_required : Request → Db → Session → Guarded
login_required r db s =
    if not s.auth
    then (some (unauthenticated r), s)
    else if not (session_identity_active s db)
    then (some (revoked r), cleared)
    else (none, s)

-- `session.get("role") not in roles`
abbrev pub has_role : List String → Option String → Bool
has_role roles none = false
has_role roles (some role) = contains roles role

unfoldable pub role_required : List String → Request → Db → Session → Guarded
role_required roles r db s =
    if not s.auth
    then (some (unauthenticated r), s)
    else if not (session_identity_active s db)
    then (some (revoked r), cleared)
    else if not (has_role roles s.role)
    then (if api_request r
        then (some (Reply.fail 403 "permission denied"), s)
        else (some (Reply.redirect home_url), record s { flashes = "no-permission" ∷ s.flashes }))
    else (none, s)

unfoldable pub step_up_required : Request → Db → ℕ → Session → Guarded
step_up_required r db now s =
    if not s.auth
    then (some (unauthenticated r), s)
    else if not (session_identity_active s db)
    then (some (revoked r), cleared)
    else if not (same_text s.step_up_user s.user) || not (step_up_active s now)
    then (if api_request r then (some (Reply.fail 428 "step-up authentication required"), s) else (
      some (Reply.redirect "/#security"),
      record s { flashes = "step-up-needed" ∷ s.flashes },
    ))
    else (none, s)

-- The decorators of a sensitive mutation, `@role_required(…)` over `@step_up_required`.
unfoldable pub mutation_guard : List String → Request → Db → ℕ → Session → Guarded
mutation_guard roles r db now s =
    let (answer, s') = role_required roles r db s in
    elim answer [ some a ↦ (some a, s') | none ↦ step_up_required r db now s' ]
