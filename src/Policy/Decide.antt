-- ===== src/Policy/Decide.antt =====
-- Which features an account has: `enabled_features` and `feature_allowed` of
-- panel/hosting_policy.py against the rows of the package.
use nexvary_panel.Base.{
  ℕ, String, ◌==◌, eq_iff, ◌≡◌, refl, ◌∙◌, ap, inl, inr, Bool, true, ◌&&◌, Option, none, some, List,
  [], ◌∷◌, arith, eqb, if◌then◌else◌, Bool-cases,
}
use nexvary_panel.Base.Lists.{select}
use nexvary_panel.Base.Sets.{
  contains, lookup, insert, lookup-insert, contains-add, contains-discard, add, discard,
}
use nexvary_panel.Policy.Features.{features}
use nexvary_panel.Policy.{
  FeatureRow, Db, Caller, explicit_from, explicit_features, apply_explicit, base_features,
  enabled_features, effective_feature_ids, feature_allowed, package_for_user, package_id_of,
  caller_name, caller_role,
}

abbrev pub or_else {ℓ} : {A : Type ℓ} → Option A → A → A
or_else none d = d
or_else (some a) d = a

-- What the rows of a package say of a feature: the last row that names both.
abbrev pub override : ℕ → String → List FeatureRow → Option Bool
override pid f [] = none
override pid f (r ∷ rows) = elim (override pid f rows) [
  | some b ↦ some b
  | none ↦ if eqb r.package_id pid && r.feature_id == f then some r.enabled else none
]

abbrev pub override_for : Option ℕ → String → List FeatureRow → Option Bool
override_for none f rows = none
override_for (some pid) f rows = override pid f rows

abbrev first_of_two : Option Bool → Option Bool → Option Bool
first_of_two (some b) o = some b
first_of_two none o = o

-- No key of the dict is listed twice.
abbrev Keyed : List (String × Bool) → Type 0
Keyed [] = Unit
Keyed ((k, v) ∷ d) = (lookup k d ≡ none) × Keyed d

insert-Keyed : (k : String) (v : Bool) (d : List (String × Bool)) → Keyed d → Keyed (insert k v d)
unfolding insert
insert-Keyed k v [] h = (unfold lookup in refl, tt)
insert-Keyed k v ((j, w) ∷ d) h =
    ground (arith, insert-Keyed k v d h.1, lookup-insert k j v d, eq_iff j k, eq_iff k j)

explicit_from-Keyed :
    (rows : List FeatureRow) (d : List (String × Bool)) → Keyed d → Keyed (explicit_from rows d)
unfolding explicit_from
explicit_from-Keyed [] d h = h
explicit_from-Keyed (r ∷ rows) d h = elim (Bool-cases (contains features r.feature_id)) [
  | inl known ↦ rw known (
      explicit_from-Keyed rows (insert r.feature_id r.enabled d)
        (insert-Keyed r.feature_id r.enabled d h))
  | inr other ↦ rw other (explicit_from-Keyed rows d h)
]

-- The dict agrees with the rows, for a feature of the catalogue.
lookup-explicit_from :
    (pid : ℕ) (f : String) (rows : List FeatureRow) (d : List (String × Bool))
    → contains features f ≡ true
    → lookup f (explicit_from (select (λ (r : FeatureRow). eqb r.package_id pid) rows) d)
      ≡ first_of_two (override pid f rows) (lookup f d)
unfolding explicit_from select
lookup-explicit_from pid f [] d h = refl
lookup-explicit_from pid f (r ∷ rows) d h = ground (
  arith,
  lookup-explicit_from pid f rows d h,
  lookup-explicit_from pid f rows (insert r.feature_id r.enabled d) h,
  lookup-insert r.feature_id f r.enabled d,
  eq_iff r.feature_id f,
)

contains-apply_explicit :
    (f : String) (d : List (String × Bool)) (base : List String)
    → Keyed d
    → contains (apply_explicit d base) f ≡ or_else (lookup f d) (contains base f)
unfolding apply_explicit lookup
contains-apply_explicit f [] base h = refl
contains-apply_explicit f ((k, v) ∷ d) base h = ground (
  arith,
  contains-apply_explicit f d (add k base) h.1,
  contains-apply_explicit f d (discard k base) h.1,
  contains-add k f base,
  contains-discard k f base,
  eq_iff k f,
)

first_of_two-nil : (f : String) (o : Option Bool) → first_of_two o (lookup f []) ≡ o
unfolding lookup
first_of_two-nil f none = refl
first_of_two-nil f (some b) = refl

contains-enabled_features :
    (f : String) (pid : Option ℕ) (role : String) (conn : Db)
    → contains features f ≡ true
    → contains (enabled_features conn pid role) f
      ≡ or_else (override_for pid f conn.features) (contains (base_features role) f)
unfolding enabled_features explicit_features
contains-enabled_features f none role conn h =
    contains-apply_explicit f [] (base_features role) tt ∙ (unfold lookup in refl)
contains-enabled_features f (some pid) role conn h =
    let rows = select (λ (r : FeatureRow). eqb r.package_id pid) conn.features in
    contains-apply_explicit f (explicit_from rows []) (base_features role)
      (explicit_from-Keyed rows [] tt)
    ∙ ap (λ o. or_else o (contains (base_features role) f))
        (lookup-explicit_from pid f conn.features [] h
          ∙ first_of_two-nil f (override pid f conn.features))

-- What the session and the arguments resolve to.
abbrev pub resolved_package : Caller → Option String → Option String → Db → Option ℕ
resolved_package s username role conn =
    package_id_of (package_for_user conn (caller_name s username) (caller_role s role))

-- A feature is allowed exactly when the catalogue has it and the last row of the caller's package
-- that names the feature enables it, or, where no row names it, the default set of the role has it.
pub feature_decided :
    (s : Caller) (f : String) (username role : Option String) (conn : Db)
    → feature_allowed s f username role conn ≡ (
        contains features f
        && or_else
            (override_for (resolved_package s username role conn) f conn.features)
            (contains (base_features (caller_role s role)) f))
unfolding feature_allowed effective_feature_ids
feature_decided s f username role conn = elim (Bool-cases (contains features f)) [
  | inl known ↦ rw known (
      contains-enabled_features f (resolved_package s username role conn) (caller_role s role) conn
        known)
  | inr other ↦ rw other
]
