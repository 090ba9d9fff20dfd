-- ===== src/Security/Login.antt =====
-- The login view of panel/routes_auth.py and its brake on failed attempts (`FAILED`).
-- `time.time()` is a float there; here it counts microseconds, so `until` is exact.
-- A flashed message is shown in the answer to the same request.
use nexvary_panel.Base.{
  ℕ, ◌+◌, ◌*◌, ◌/◌, String, Bool, true, false, not, ◌&&◌, Option, none, some, List, [], ◌∷◌, Reply,
  NoBody, ltb, leb, if◌then◌else◌,
}
use nexvary_panel.Base.Text.{prefix, strip}
use nexvary_panel.Base.Sets.{lookup, insert, remove}
use nexvary_panel.Security.Store.{Crypto, Db, Session, cleared}
use nexvary_panel.Security.Totp.{totp_enabled_for, verify_totp}
use nexvary_panel.Security.Credentials.{authenticate}
use nexvary_panel.Security.Csrf.{csrf_token}

-- an entry of `FAILED`
pub record Record : Type 0 where
  pub n : ℕ
  pub until : ℕ

abbrev pub Failed : Type 0
Failed = List (String × Record)

abbrev pub second : ℕ
second = 1_000_000

-- `FAILED.get(ip, {"n": 0, "until": 0})`
unfoldable pub record_of : Failed → String → Record
record_of failed ip = elim (lookup ip failed) [ none ↦ record { n = 0; until = 0 } | some r ↦ r ]

pub record Form : Type 0 where
  pub username : String
  pub password : String
  pub otp : String

-- `FAILED` is a dictionary of the process: each of the panel's worker processes has its own. The
-- state is what one of them has, with the session of the client and the audit.
pub record State : Type 0 where
  pub failed : Failed
  pub session : Session
  pub audit : List (String × String × String)

-- The password, and the one-time code where the account has one; `none` is an exception.
unfoldable pub credentials_ok : Crypto → Db → Form → ℕ → Option (Bool × String)
credentials_ok c db form now =
    let username = strip form.username in
    elim (authenticate c db username form.password) [
      | none ↦ none
      | some (ok, role) ↦ some (
        (ok
            && not (
                totp_enabled_for db username
                && not (verify_totp c db username (strip form.otp) (now / second)))),
        role,
      )
    ]

-- the count and the lock after one more failure
unfoldable pub next_record : Record → ℕ → Record
next_record r now =
    let n = r.n + 1 in
    if leb 5 n then record { n = 0; until = now + 300 * second } else record r { n = n }

-- The session after `login.html` is rendered: the flashed messages are shown and the form has the
-- session's token.
abbrev pub rendered : String → Session → Session
rendered token s = record s { flashes = []; csrf = some (csrf_token token s).0 }

-- A POST. `ip` is `(request.remote_addr or "unknown")[:80]`, and `token` is a new random token.
unfoldable pub login_post : Crypto → Db → String → Form → String → ℕ → State → Reply NoBody × State
login_post c db addr form token now st =
    let ip = prefix 80 addr in
    let r = record_of st.failed ip in
    let s = st.session in
    if ltb now r.until
    then (Reply.fail 429 "login.html", record st { session = rendered token s })
    else (elim (credentials_ok c db form now) [
      | none ↦ (Reply.raised "authenticate", st)
      | some (true, role) ↦
          let s' = record cleared {
            auth = true;
            user = some (strip form.username);
            role = some role;
            permanent = true;
          } in
          (
            Reply.redirect "/",
            record {
              failed = remove ip st.failed;
              session = (csrf_token token s').1;
              audit = (strip form.username, "login", "successful") ∷ st.audit;
            },
          )
      | some (false, role) ↦ (
        Reply.fail 200 "login.html",
        record st { failed = insert ip (next_record r now) st.failed; session = rendered token s },
      )
    ])
