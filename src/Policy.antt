-- ===== src/Policy.antt =====
-- Hosting packages, features and quotas: panel/hosting_policy.py over the tables
-- `hosting_packages`, `hosting_package_features` and `user_hosting_package` of panel/db_layer.py.
pub mod Features
pub mod Decide
pub mod Limits
mod Tests
use nexvary_panel.Base.{
  ℕ, ◌-◌, ◌+◌, ◌≤◌, ◌<◌, String, ◌==◌, ◌≡◌, Bool, true, false, ◌&&◌, Option, none, some, List, [],
  ◌∷◌, eqb, ltb, if◌then◌else◌,
}
use nexvary_panel.Base.Int.{ℤ, clamp_zero}
use nexvary_panel.Base.Lists.{find, select}
use nexvary_panel.Base.Text.{prefix}
use nexvary_panel.Base.Sets.{contains, add, discard, insert}
use Features.{features, default_account_features}

-- the columns in `LIMIT_COLUMNS`
pub data LimitColumn : Type 0 where
  disk_mb bandwidth_mb max_sites max_databases max_mailboxes : LimitColumn
  max_ftp_accounts max_cron_jobs max_subdomains max_backups : LimitColumn

-- a row of `hosting_packages`
pub record Package : Type 0 where
  pub id : ℕ
  pub name : String
  pub limit : LimitColumn → ℤ
  pub enabled : Bool

-- a row of `hosting_package_features`
pub record FeatureRow : Type 0 where
  pub package_id : ℕ
  pub feature_id : String
  pub enabled : Bool

-- a row of `user_hosting_package`
pub record Assignment : Type 0 where
  pub username : String
  pub package_id : ℕ

pub record Db : Type 0 where
  pub packages : List Package
  pub features : List FeatureRow
  pub assignments : List Assignment

-- the keys of the session that the policy reads
pub record Caller : Type 0 where
  pub user : Option String
  pub role : Option String

-- `SELECT p.* FROM user_hosting_package u JOIN hosting_packages p … WHERE u.username=? AND
-- p.enabled=1`, and `fetchone`
unfoldable pub assigned_package : List Package → String → List Assignment → Option Package
assigned_package ps username [] = none
assigned_package ps username (u ∷ us) =
    let rest = assigned_package ps username us in
    if u.username == username
    then (elim (find (λ (p : Package). eqb p.id u.package_id && p.enabled) ps) [
      | some p ↦ some p
      | none ↦ rest
    ])
    else rest

unfoldable pub package_for_user : Db → String → String → Option Package
unfolding assigned_package
package_for_user conn username role =
    elim (assigned_package conn.packages username conn.assignments) [
      | some row ↦ some row
      | none ↦
          let fallback = if role == "admin" then "NEXVARY Unlimited" else "NEXVARY Core" in
          find (λ (p : Package). p.name == fallback && p.enabled) conn.packages
    ]

-- `explicit = {… for row in rows if row["feature_id"] in FEATURES}`
explicit_from : List FeatureRow → List (String × Bool) → List (String × Bool)
explicit_from [] d = d
explicit_from (r ∷ rows) d =
    explicit_from rows
      (if contains features r.feature_id then insert r.feature_id r.enabled d else d)

unfoldable pub explicit_features : Db → Option ℕ → List (String × Bool)
unfolding explicit_from
explicit_features conn none = []
explicit_features conn (some package_id) =
    explicit_from (select (λ (r : FeatureRow). eqb r.package_id package_id) conn.features) []

-- `for feature_id, enabled in explicit.items(): …`
apply_explicit : List (String × Bool) → List String → List String
apply_explicit [] base = base
apply_explicit ((feature_id, enabled) ∷ rest) base =
    apply_explicit rest (if enabled then add feature_id base else discard feature_id base)

unfoldable pub base_features : String → List String
base_features role = if role == "admin" then features else default_account_features

unfoldable pub enabled_features : Db → Option ℕ → String → List String
unfolding apply_explicit
enabled_features conn package_id role =
    apply_explicit (explicit_features conn package_id) (base_features role)

abbrev or_session : Option String → Option String → String → String
or_session (some v) s d = v
or_session none (some v) d = v
or_session none none d = d

-- the defaults `session.get("user", "")` and `session.get("role", "viewer")`
unfoldable pub caller_name : Caller → Option String → String
caller_name session username = prefix 64 (or_session username session.user "")

unfoldable pub caller_role : Caller → Option String → String
caller_role session role = or_session role session.role "viewer"

abbrev pub package_id_of : Option Package → Option ℕ
package_id_of none = none
package_id_of (some p) = some p.id

unfoldable pub effective_feature_ids : Caller → Option String → Option String → Db → List String
effective_feature_ids session username role conn =
    let u = caller_name session username in
    let r = caller_role session role in
    enabled_features conn (package_id_of (package_for_user conn u r)) r

unfoldable pub feature_allowed : Caller → String → Option String → Option String → Db → Bool
feature_allowed session feature_id username role conn =
    if contains features feature_id
    then contains (effective_feature_ids session username role conn) feature_id
    else false

-- The names outside `LIMIT_COLUMNS`, for which the source raises, are no `LimitColumn`.
unfoldable pub package_limit : Caller → LimitColumn → Option String → Option String → Db → ℕ
package_limit session limit_name username role conn =
    elim (package_for_user conn (caller_name session username) (caller_role session role)) [
      | some p ↦ clamp_zero (p.limit limit_name)
      | none ↦ 0
    ]

pub record Quota : Type 0 where
  pub allowed : Bool
  pub used : ℕ
  pub limit : ℕ
  pub remaining : ℕ

unfoldable pub quota_state : Caller → LimitColumn → ℤ → Option String → Option String → Db → Quota
quota_state session limit_name used username role conn =
    let limit = package_limit session limit_name username role conn in
    let used' = clamp_zero used in
    record {
      allowed = ltb 0 limit && ltb used' limit;
      used = used';
      limit = limit;
      remaining = limit - used';
    }

pub record Entitlement : Type 0 where
  pub feature : String
  pub feature_allowed : Bool
  pub allowed : Bool
  pub quota : Option Quota

unfoldable pub entitlement_state :
    Caller → String → Option LimitColumn → ℤ → Option String → Option String → Db → Entitlement
entitlement_state session feature_id none used username role conn =
    let ok = feature_allowed session feature_id username role conn in
    record { feature = feature_id; feature_allowed = ok; allowed = ok; quota = none }
entitlement_state session feature_id (some limit_name) used username role conn =
    let ok = feature_allowed session feature_id username role conn in
    let q = quota_state session limit_name used username role conn in
    record { feature = feature_id; feature_allowed = ok; allowed = ok && q.allowed; quota = some q }
