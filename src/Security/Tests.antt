-- ===== src/Security/Tests.antt =====
-- Runs of sign-in and the guards, and their theorems at inputs where they apply. The cryptography
-- here hashes a password to itself and gives digests of zeros.
use nexvary_panel.Base.{
  ℕ, ◌+◌, ◌/◌, ◌*◌, ◌≤◌, String, ◌≡◌, refl, ◌↔◌, ◌⊎◌, true, false, none, some, List, [], ◌∷◌, Reply,
  NoBody, arith,
}
use nexvary_panel.Base.Lists.{find}
use nexvary_panel.Base.Text.{
  chars, all_chars, prefix, lstrip, is_space, split_at_char, strip, upper, compare_digest, nth_char,
}
use nexvary_panel.Base.Sets.{contains, lookup, insert, remove}
use nexvary_panel.Security.Store.{Session, Db, Crypto, cleared, or_empty}
use nexvary_panel.Security.Totp.{
  code_at, totp, verify_totp_secret, totp_enabled_for, verify_totp, security_row,
}
use nexvary_panel.Security.Totp.Window.{accepted_in_window, window_accepted}
use nexvary_panel.Security.Credentials.{
  authenticate, user_row, password_matches, load_admin, read_admin_lines, admin_value,
  verify_step_up_credentials,
}
use nexvary_panel.Security.StepUp.{step_up_active, grant_step_up, clear_step_up}
use nexvary_panel.Security.Granted.{grant_window}
use nexvary_panel.Security.Guards.{
  Request, api_request, session_identity_active, login_required, role_required, step_up_required,
  mutation_guard,
}
use nexvary_panel.Security.Mutation.{
  IsCurrent, IsCurrent-active, MayMutate, mutation_exact, revoked_everywhere, sign_in_again,
}
use nexvary_panel.Security.Csrf.{csrf_token, sent_token, machine_endpoint, csrf_guard}
use nexvary_panel.Security.Forgery.{Writes, IsMachine, HasToken, csrf_exact}
use nexvary_panel.Security.Login.{State, credentials_ok, record_of, next_record, login_post, second}
use nexvary_panel.Security.Brake.{
  Attempt, attempt, attempts, Proven, SameAccount, signed_in_only_by_credentials,
}
use nexvary_panel.Security.Workers.{Panel, Arrival, seen_by, taken_by, arrive, arrivals}

-- Opens at once what a run computes with.
unfold_all : NoBody
unfolding find chars all_chars prefix strip lstrip is_space split_at_char upper compare_digest
    nth_char contains lookup insert remove code_at totp verify_totp_secret totp_enabled_for
    verify_totp security_row authenticate user_row password_matches load_admin read_admin_lines
    admin_value verify_step_up_credentials step_up_active grant_step_up clear_step_up api_request
    session_identity_active login_required role_required step_up_required mutation_guard sent_token
    machine_endpoint csrf_guard credentials_ok record_of next_record login_post csrf_token attempts
    taken_by arrive arrivals
unfold_all = tt

abbrev crypto : Crypto
crypto = record {
  pbkdf2 = λ password salt. some password;
  b32decode = λ s. some [];
  hmac_sha1 =
      λ key msg. 0 ∷ 0 ∷ 0 ∷ 0 ∷ 0 ∷ 0 ∷ 0 ∷ 0 ∷ 0 ∷ 0 ∷ 0 ∷ 0 ∷ 0 ∷ 0 ∷ 0 ∷ 0 ∷ 0 ∷ 0 ∷ 0 ∷ 0 ∷ [];
}

abbrev db : Db
db = record {
  users =
      record {
        username = "ann";
        role = "operator";
        salt = "00";
        password_hash = "pw";
        enabled = true;
      }
      ∷ record {
        username = "bob";
        role = "operator";
        salt = "00";
        password_hash = "pw";
        enabled = false;
      }
      ∷ [];
  security = [];
  env_salt = "";
  env_hash = "";
  admin_file = some ("# NVP_ADMIN_SALT=no" ∷ " NVP_ADMIN_SALT = aa" ∷ "NVP_ADMIN_HASH=root" ∷ []);
}

abbrev ann : Session
ann = record cleared {
  auth = true;
  user = some "ann";
  role = some "operator";
  step_up_until = some 500;
  step_up_user = some "ann";
  csrf = some "t";
}

abbrev bob : Session
bob = record ann { user = some "bob" }

abbrev post : Request
post = record {
  path = "/api/fleet";
  is_json = true;
  method = "POST";
  authorization = "";
  csrf_header = some "t";
  csrf_form = none;
}

admin_signs_in : authenticate crypto db "admin" "root" ≡ some (true, "admin")
unfolding unfold_all
admin_signs_in = refl

disabled_account : authenticate crypto db "bob" "pw" ≡ some (false, "viewer")
unfolding unfold_all
disabled_account = refl

step_up_works : verify_step_up_credentials crypto db ann "pw" "" 100 ≡ some true
unfolding unfold_all
step_up_works = refl

all_zero : verify_totp_secret crypto "AB" "000000" 100 ≡ true
unfolding unfold_all
all_zero = refl

accepted_in_window_example :
    (k : ℕ) × (100 / 30 ≤ k + 1) × (k ≤ 100 / 30 + 1) × (code_at crypto "AB" k ≡ some "000000")
accepted_in_window_example = accepted_in_window crypto "AB" "000000" 100 all_zero

code_at_four : code_at crypto "AB" 4 ≡ some "000000"
unfolding unfold_all
code_at_four = refl

window_accepted_example : verify_totp_secret crypto "AB" "000000" 100 ≡ true
window_accepted_example =
    window_accepted crypto "AB" "000000" 100 4 (λ key msg. refl) refl (omega arith) (omega arith)
      (omega arith) (omega arith) code_at_four

ann_granted_active :
    session_identity_active (record (grant_step_up ann 100).1 { user = some "ann" }) db ≡ true
unfolding unfold_all
ann_granted_active = refl

grant_window_example :
    (((step_up_required post db 400 (record (grant_step_up ann 100).1 { user = some "ann" })).0
        ≡ none)
      ↔ ((400 ≤ 100 + 300) × (some "ann" ≡ some (or_empty ann.user))))
    × (clear_step_up (grant_step_up ann 100).1 ≡ clear_step_up ann)
grant_window_example = grant_window post db ann 100 400 (some "ann") ann_granted_active

mutation_exact_example :
    ((mutation_guard ("operator" ∷ []) post db 400 ann).0 ≡ none)
    ↔ MayMutate ("operator" ∷ []) db 400 ann
mutation_exact_example = mutation_exact ("operator" ∷ []) post db 400 ann

bob_inactive : session_identity_active bob db ≡ false
unfolding unfold_all
bob_inactive = refl

bob_is_stale : ¬ IsCurrent bob db
bob_is_stale current = cc (bob_inactive, IsCurrent-active bob db refl current)

revoked_everywhere_example :
    (login_required post db bob ≡ (some (sign_in_again post), cleared))
    × (role_required ("admin" ∷ []) post db bob ≡ (some (sign_in_again post), cleared))
    × (step_up_required post db 9 bob ≡ (some (sign_in_again post), cleared))
revoked_everywhere_example = revoked_everywhere ("admin" ∷ []) post db 9 bob refl bob_is_stale

csrf_exact_example :
    (csrf_guard post ann ≡ none) ↔ ((¬ Writes post.method) ⊎ (IsMachine post ⊎ HasToken post ann))
csrf_exact_example = csrf_exact post ann

-- an attempt of ann, with a password, at a second
abbrev try : String → ℕ → Attempt
try password at = record {
  form = record { username = "ann"; password = password; otp = "" };
  token = "new";
  now = at * second;
}

abbrev fresh : State
fresh = record { failed = []; session = cleared; audit = [] }

abbrev four : List Attempt
four = try "a" 1 ∷ try "b" 2 ∷ try "c" 3 ∷ try "d" 4 ∷ []

abbrev to_worker : ℕ → Attempt → Arrival
to_worker w a = record { worker = w; session = cleared; try = a }

wrong :
    (at : ℕ) → credentials_ok crypto db (try "x" at).form (at * second) ≡ some (false, "operator")
unfolding unfold_all
wrong at = refl

-- Process 0 takes four of them, and process 1 one in between.
abbrev five : List Arrival
five =
    to_worker 0 (try "a" 1)
    ∷ to_worker 0 (try "b" 2)
    ∷ to_worker 1 (try "b" 3)
    ∷ to_worker 0 (try "c" 3)
    ∷ to_worker 0 (try "d" 4)
    ∷ []

abbrev meanwhile : List Arrival
meanwhile = to_worker 1 (try "y" 8) ∷ to_worker 0 (try "pw" 9) ∷ []

abbrev panel : Panel
panel = record { tables = λ w. []; audit = [] }

-- The other process signs the same password in.
other_process :
    let mid =
      arrive crypto db "10.0.0.1"
        (to_worker 0 (try "e" 5))
        (arrivals crypto db "10.0.0.1" five panel) in
    let later = try "pw" 6 in
    (login_post crypto db "10.0.0.1" later.form later.token later.now (seen_by 1 cleared mid)).0
    ≡ Reply.redirect "/"
unfolding unfold_all
other_process = refl

right_password :
    let a = try "pw" 7 in
    (login_post crypto db "10.0.0.1" a.form a.token a.now fresh).0 ≡ Reply.redirect "/"
unfolding unfold_all
right_password = refl

signed_in_only_by_credentials_example :
    Proven crypto db "10.0.0.1" (try "pw" 7) fresh
    ⊎ ((¬ (
          (login_post crypto db "10.0.0.1" (try "pw" 7).form "new" (7 * second) fresh).0
          ≡ Reply.redirect "/"))
        × SameAccount crypto db "10.0.0.1" fresh.session
            (attempt crypto db "10.0.0.1" (try "pw" 7) fresh).session)
signed_in_only_by_credentials_example =
    signed_in_only_by_credentials crypto db "10.0.0.1" (try "pw" 7) fresh
