-- ===== src/AutoSsl/Store.antt =====
-- The tables that agent/autossl_scheduler.py reads and writes, and what it reads of them:
-- `_ssl_allowed` and `_desired_names`.
use nexvary_panel.Base.{
  ℕ, String, ◌==◌, Bool, true, false, not, ◌&&◌, ◌||◌, Option, none, some, List, [], ◌∷◌, ◌++◌, eqb,
  ltb, if◌then◌else◌,
}
use nexvary_panel.Base.Lists.{find, select, take}
use nexvary_panel.Base.Text.{truthy, strip, lower, rstrip_dots}
use nexvary_panel.Base.Sets.{contains, text_leb}
use nexvary_panel.Policy
use nexvary_panel.Policy.{Package, FeatureRow, assigned_package}
use nexvary_panel.Web.{Audit}

-- a row of `ssl_policies`
pub record SslPolicy : Type 0 where
  pub domain : String
  pub owner : String
  pub contact_email : String
  pub auto_renew : Bool
  pub renew_before_days : ℕ
  pub last_check : ℕ
  pub last_renewal : ℕ
  pub last_status : String
  pub last_detail : String
  pub updated_at : ℕ

-- the columns of `users` and of `domain_aliases` that are read
pub record AccountRow : Type 0 where
  pub username : String
  pub role : String
  pub enabled : Bool

pub record Alias : Type 0 where
  pub domain : String
  pub alias : String

-- `sites` is the domains of the enabled sites.
pub record Db : Type 0 where
  pub policies : List SslPolicy
  pub sites : List String
  pub users : List AccountRow
  pub aliases : List Alias
  pub hosting : Policy.Db
  pub audit : List Audit

-- the package of the owner, or the default one
unfoldable pub package_of : Policy.Db → String → Option Package
package_of conn owner = elim (assigned_package conn.packages owner conn.assignments) [
  | some p ↦ some p
  | none ↦ find (λ (p : Package). p.name == "NEXVARY Core" && p.enabled) conn.packages
]

-- `_ssl_allowed` of an owner whose account is enabled
unfoldable pub package_allows : Policy.Db → String → Bool
package_allows conn owner = elim (package_of conn owner) [
  | none ↦ false
  | some p ↦
      elim (find (λ (r : FeatureRow). eqb r.package_id p.id && r.feature_id == "security.ssl_tls")
        conn.features) [ none ↦ true | some explicit ↦ explicit.enabled ]
]

-- `_ssl_allowed`
unfoldable pub ssl_allowed : Db → String → Bool
ssl_allowed db owner =
    if owner == "admin"
    then true
    else elim (find (λ (u : AccountRow). u.username == owner) db.users) [
      | none ↦ false
      | some user ↦ if user.enabled then package_allows db.hosting owner else false
    ]

unfoldable pub insert_alias : Alias → List Alias → List Alias
insert_alias a [] = a ∷ []
insert_alias a (b ∷ l) =
    let rest = insert_alias a l in if text_leb a.alias b.alias then a ∷ b ∷ l else b ∷ rest

-- `ORDER BY alias`
unfoldable pub sort_aliases : List Alias → List Alias
sort_aliases [] = []
sort_aliases (a ∷ l) = insert_alias a (sort_aliases l)

unfoldable pub add_names : List Alias → List String → List String
add_names [] names = names
add_names (a ∷ l) names =
    let name = rstrip_dots (lower (strip a.alias)) in
    add_names l (if truthy name && not (contains names name) then names ++ name ∷ [] else names)

-- `_desired_names`
unfoldable pub desired_names : Db → String → List String
desired_names db domain = take 25 (
    add_names (take 24 (sort_aliases (select (λ (a : Alias). a.domain == domain) db.aliases)))
      (domain ∷ []))

-- `p.last_check, p.domain`
unfoldable pub is_before : SslPolicy → SslPolicy → Bool
is_before a b =
    ltb a.last_check b.last_check || (eqb a.last_check b.last_check && text_leb a.domain b.domain)

unfoldable pub insert_policy : SslPolicy → List SslPolicy → List SslPolicy
insert_policy a [] = a ∷ []
insert_policy a (b ∷ l) =
    let rest = insert_policy a l in if is_before a b then a ∷ b ∷ l else b ∷ rest

unfoldable pub sort_policies : List SslPolicy → List SslPolicy
sort_policies [] = []
sort_policies (a ∷ l) = insert_policy a (sort_policies l)

-- the policies of enabled sites that renew by themselves, those that were checked longest ago first
unfoldable pub policies_to_check : Db → List SslPolicy
policies_to_check db = take 200 (
    sort_policies
      (select (λ (p : SslPolicy). p.auto_renew && contains db.sites p.domain) db.policies))
