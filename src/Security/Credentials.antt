-- ===== src/Security/Credentials.antt =====
-- Passwords: `load_admin`, `password_hash`, `authenticate` and `verify_step_up_credentials` of
-- panel/security.py. `none` is an exception that leaves the function.
use nexvary_panel.Base.{
  ℕ, String, ◌==◌, Bool, true, false, not, ◌&&◌, ◌||◌, Option, none, some, List, [], ◌∷◌,
  if◌then◌else◌,
}
use nexvary_panel.Base.Lists.{find}
use nexvary_panel.Base.Text.{truthy, strip, lstrip, is_space, split_at_char, prefix, compare_digest}
use nexvary_panel.Base.Sets.{lookup, insert}
use nexvary_panel.Security.Store.{Crypto, Db, User, Session, or_empty, same_text}
use nexvary_panel.Security.Totp.{totp_enabled_for, verify_totp}

-- The lines of `ADMIN_FILE` that hold `key=value` and are no comment, each written over the dict.
unfoldable pub read_admin_lines : List String → List (String × String) → List (String × String)
read_admin_lines [] vals = vals
read_admin_lines (line ∷ lines) vals = read_admin_lines lines (elim (split_at_char b'=' line) [
  | none ↦ vals
  | some (key, value) ↦
      if prefix 1 (lstrip is_space line) == "#" then vals else insert (strip key) (strip value) vals
])

unfoldable pub load_admin : Db → List (String × String)
load_admin db =
    let vals = ("NVP_ADMIN_SALT", db.env_salt) ∷ ("NVP_ADMIN_HASH", db.env_hash) ∷ [] in
    if truthy db.env_salt && truthy db.env_hash
    then vals
    else (elim db.admin_file [ none ↦ vals | some lines ↦ read_admin_lines lines vals ])

-- `vals.get(key, "")`
unfoldable pub admin_value : String → List (String × String) → String
admin_value key vals = or_empty (lookup key vals)

-- `hmac.compare_digest(password_hash(password, salt), expected)`
unfoldable pub password_matches : Crypto → String → String → String → Option Bool
password_matches c password salt expected = elim (c.pbkdf2 password salt) [
  | none ↦ none
  | some hash ↦ compare_digest hash expected
]

abbrev with_role : Option Bool → String → Option (Bool × String)
with_role none role = none
with_role (some ok) role = some (ok, role)

-- `SELECT … FROM users WHERE username=?`
unfoldable pub user_row : Db → String → Option User
user_row db username = find (λ (r : User). r.username == username) db.users

unfoldable pub authenticate : Crypto → Db → String → String → Option (Bool × String)
authenticate c db username password =
    if username == "admin"
    then (let vals = load_admin db in
        let salt = admin_value "NVP_ADMIN_SALT" vals in
        let expected = admin_value "NVP_ADMIN_HASH" vals in
        if truthy salt && truthy expected
        then with_role (password_matches c password salt expected) "admin"
        else some (false, "admin"))
    else (elim (user_row db username) [
      | none ↦ some (false, "viewer")
      | some row ↦
          if row.enabled
          then with_role (password_matches c password row.salt row.password_hash) row.role
          else some (false, "viewer")
    ])

-- The password and the one-time code of a step-up. The source takes the password only as a text.
unfoldable pub verify_step_up_credentials :
    Crypto → Db → Session → String → String → ℕ → Option Bool
verify_step_up_credentials c db s password otp now =
    let username = or_empty s.user in
    if not (truthy username) || not (truthy password)
    then some false
    else (elim (authenticate c db username password) [
      | none ↦ none
      | some (ok, role) ↦
          if not ok || not (same_text (some role) s.role)
          then some false
          else if totp_enabled_for db username && not (verify_totp c db username (strip otp) now)
          then some false
          else some true
    ])
