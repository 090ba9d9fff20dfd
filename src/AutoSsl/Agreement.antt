-- ===== src/AutoSsl/Agreement.antt =====
-- `_ssl_allowed` of agent/autossl_scheduler.py beside `feature_allowed` of panel/hosting_policy.py.
use nexvary_panel.Base.{
  ℕ, ◌≤◌, String, ◌==◌, ◌≡◌, refl, ap, ◌∙◌, inl, inr, Bool, true, false, ◌&&◌, Option, none, some,
  List, [], ◌∷◌, eqb, arith, Bool-cases, Option-cases,
}
use nexvary_panel.Base.Lists.{find, count}
use nexvary_panel.Base.Text.{chars, prefix_short}
use nexvary_panel.Base.Sets.{contains}
use nexvary_panel.Policy
use nexvary_panel.Policy.{
  Package, FeatureRow, Caller, assigned_package, package_for_user, base_features, caller_name,
  caller_role, feature_allowed, package_id_of,
}
use nexvary_panel.Policy.Features.{features, default_account_features}
use nexvary_panel.Policy.Decide.{or_else, override, override_for, resolved_package, feature_decided}
use nexvary_panel.AutoSsl.Store.{AccountRow, Db, package_of, package_allows, ssl_allowed}

abbrev pub names_feature : ℕ → String → FeatureRow → Bool
names_feature pid f r = eqb r.package_id pid && r.feature_id == f

abbrev enabled_of : Option FeatureRow → Option Bool
enabled_of none = none
enabled_of (some r) = some r.enabled

override-none :
    (pid : ℕ) (f : String) (rows : List FeatureRow)
    → count (names_feature pid f) rows ≡ 0
    → override pid f rows ≡ none
unfolding count
override-none pid f [] h = refl
override-none pid f (r ∷ rows) h = ground (arith, h, override-none pid f rows)

-- Where one row at most names the feature, the first one says what the last one says.
override_first :
    (pid : ℕ) (f : String) (rows : List FeatureRow)
    → count (names_feature pid f) rows ≤ 1
    → override pid f rows ≡ enabled_of (find (names_feature pid f) rows)
unfolding count find
override_first pid f [] h = refl
override_first pid f (r ∷ rows) h = elim (Bool-cases (names_feature pid f r)) [
  | inl hit ↦
      let none_after : override pid f rows ≡ none =
        override-none pid f rows (ground (arith, h, hit)) in
      ground (arith, hit, none_after)
  | inr miss ↦
      let ih = override_first pid f rows (ground (arith, h, miss)) in
      elim (Option-cases (override pid f rows)) [
        | inl nothing ↦ rw miss (ground (arith, miss, nothing, ih))
        | inr (b, said) ↦ rw miss (ground (arith, miss, said, ih))
      ]
]

abbrev pub has_package : Option Package → Bool
has_package none = false
has_package (some p) = true

-- the package of an account that is not an administrator's
package_agrees :
    (conn : Policy.Db) (owner role : String)
    → (role == "admin") ≡ false
    → package_for_user conn owner role ≡ package_of conn owner
unfolding package_for_user package_of
package_agrees conn owner role member =
    elim (Option-cases (assigned_package conn.packages owner conn.assignments)) [
      | inl nothing ↦ rw (package_for_user, package_of, nothing, member) refl
      | inr (p, assigned) ↦ rw (package_for_user, package_of, assigned) refl
    ]

-- what the package says of the feature
feature_of :
    (s : Caller) (conn : Policy.Db) (owner role : String) (p : Package)
    → (role == "admin") ≡ false
    → chars owner ≤ 64
    → package_of conn owner ≡ some p
    → feature_allowed s "security.ssl_tls" (some owner) (some role) conn
      ≡ or_else (override p.id "security.ssl_tls" conn.features) true
unfolding caller_name caller_role base_features contains features default_account_features
feature_of s conn owner role p member short found =
    let name : caller_name s (some owner) ≡ owner = prefix_short 64 owner short in
    let resolved : resolved_package s (some owner) (some role) conn ≡ some p.id =
      ap (λ n. package_id_of (package_for_user conn n role)) name
      ∙ ap package_id_of (package_agrees conn owner role member ∙ found) in
    let base : contains (base_features (caller_role s (some role))) "security.ssl_tls" ≡ true =
      rw member refl in
    let decided = feature_decided s "security.ssl_tls" (some owner) (some role) conn in
    decided
    ∙ ap
        (λ o.
          or_else (override_for o "security.ssl_tls" conn.features)
            (contains (base_features (caller_role s (some role))) "security.ssl_tls"))
        resolved
    ∙ ap (or_else (override p.id "security.ssl_tls" conn.features)) base

row_says :
    (o : Option FeatureRow)
    → elim o as (λ x. Bool) [ none ↦ true | some explicit ↦ explicit.enabled ]
      ≡ or_else (enabled_of o) true
row_says none = refl
row_says (some r) = refl

-- The scheduler's test agrees with the panel's for an enabled account that is not the
-- administrator's: it is the panel's answer for the feature, and that there is a package in force.
pub ssl_allowed_agrees :
    (s : Caller) (db : Db) (owner role : String) (user : AccountRow)
    → (owner == "admin") ≡ false
    → (role == "admin") ≡ false
    → chars owner ≤ 64
    → find (λ (u : AccountRow). u.username == owner) db.users ≡ some user
    → user.enabled ≡ true
    → ((pid : ℕ) → count (names_feature pid "security.ssl_tls") db.hosting.features ≤ 1)
    → ssl_allowed db owner ≡ (
        has_package (package_for_user db.hosting owner role)
        && feature_allowed s "security.ssl_tls" (some owner) (some role) db.hosting)
unfolding ssl_allowed package_allows package_of
ssl_allowed_agrees s db owner role user named member short found active unique =
    elim (Option-cases (package_of db.hosting owner)) [
      | inl nothing ↦
          let none_here : package_for_user db.hosting owner role ≡ none =
            package_agrees db.hosting owner role member ∙ nothing in
          rw (ssl_allowed, named, found, active, package_allows, nothing, none_here) refl
      | inr (p, here) ↦
          let package_here : package_for_user db.hosting owner role ≡ some p =
            package_agrees db.hosting owner role member ∙ here in
          let says = feature_of s db.hosting owner role p member short here in
          let first = override_first p.id "security.ssl_tls" db.hosting.features (unique p.id) in
          rw (ssl_allowed, named, found, active, package_allows, here, package_here, says, first)
            (row_says (find (names_feature p.id "security.ssl_tls") db.hosting.features))
    ]
