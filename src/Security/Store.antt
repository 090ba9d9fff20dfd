-- ===== src/Security/Store.antt =====
-- The Flask session, the tables `users` and `user_security` (panel/db_layer.py), and what
-- panel/security.py takes from hashlib, hmac and base64.
use nexvary_panel.Base.{ℕ, String, ◌==◌, Bool, true, false, Option, none, some, List, []}

-- A key that is absent is `none`. `auth` and `permanent` are absent where they are false. Only
-- `grant_step_up` writes `step_up_until`, so it is a number whenever it is there.
pub record Session : Type 0 where
  pub auth : Bool
  pub user : Option String
  pub role : Option String
  pub step_up_until : Option ℕ
  pub step_up_user : Option String
  pub csrf : Option String
  pub permanent : Bool
  pub flashes : List String

-- `session.clear()`
abbrev pub cleared : Session
cleared = record {
  auth = false;
  user = none;
  role = none;
  step_up_until = none;
  step_up_user = none;
  csrf = none;
  permanent = false;
  flashes = [];
}

-- a row of `users`
pub record User : Type 0 where
  pub username : String
  pub role : String
  pub salt : String
  pub password_hash : String
  pub enabled : Bool

-- a row of `user_security`
pub record UserSecurity : Type 0 where
  pub username : String
  pub totp_secret : String
  pub totp_enabled : Bool

-- `admin_file` holds the lines of `ADMIN_FILE`, or nothing where it is absent or unreadable.
pub record Db : Type 0 where
  pub users : List User
  pub security : List UserSecurity
  pub env_salt : String
  pub env_hash : String
  pub admin_file : Option (List String)

-- `none` is an exception. `pbkdf2 password salt_hex` is `hashlib.pbkdf2_hmac("sha256", …,
-- bytes.fromhex(salt_hex), 310_000).hex()`; `b32decode` is `base64.b32decode(…, casefold=True)`;
-- `hmac_sha1 key msg` is `hmac.new(key, msg, hashlib.sha1).digest()`.
pub record Crypto : Type 0 where
  pub pbkdf2 : String → String → Option String
  pub b32decode : String → Option (List ℕ)
  pub hmac_sha1 : List ℕ → List ℕ → List ℕ

-- `session.get(key, "")`
abbrev pub or_empty : Option String → String
or_empty none = ""
or_empty (some s) = s

-- `session.get(a) == session.get(b)`
abbrev pub same_text : Option String → Option String → Bool
same_text none none = true
same_text (some a) (some b) = a == b
same_text none (some b) = false
same_text (some a) none = false
