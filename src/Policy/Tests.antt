-- ===== src/Policy/Tests.antt =====
-- Runs of the policy on a small database, and its theorems at inputs where they apply.
use nexvary_panel.Base.{◌-◌, ◌≡◌, refl, ◌↔◌, [], ◌∷◌, none, some, true, false, ◌&&◌}
use nexvary_panel.Base.Int.{ℤ, pos, negsuc, clamp_zero}
use nexvary_panel.Base.Lists.{find, select}
use nexvary_panel.Base.Text.{prefix}
use nexvary_panel.Base.Sets.{contains, add, discard, insert}
use nexvary_panel.Policy.Features.{features, default_account_features}
use nexvary_panel.Policy.{
  Package, Db, Caller, LimitColumn, package_for_user, explicit_features, enabled_features,
  base_features, effective_feature_ids, feature_allowed, package_limit, quota_state,
  entitlement_state, caller_name, caller_role,
}
use nexvary_panel.Policy.Decide.{or_else, override_for, resolved_package, feature_decided}
use nexvary_panel.Policy.Limits.{IsWithin, quota_exact, no_package_blocks, entitlement_exact}

-- three of everything, but no mailbox
abbrev limits : LimitColumn → ℤ
limits LimitColumn.max_mailboxes = negsuc 0
limits _ = pos 3

abbrev small_package : Package
small_package = record { id = 7; name = "Small"; limit = limits; enabled = true }

abbrev small : Db
small = record {
  packages = small_package ∷ [];
  features =
      record { package_id = 7; feature_id = "email.accounts"; enabled = false }
      ∷ record { package_id = 7; feature_id = "whm.fleet"; enabled = true }
      ∷ [];
  assignments = record { username = "ann"; package_id = 7 } ∷ [];
}

abbrev ann : Caller
ann = record { user = some "ann"; role = some "operator" }

abbrev nobody : Caller
nobody = record { user = none; role = none }

ann_features :
    (feature_allowed ann "email.accounts" none none small ≡ false)
    × (feature_allowed ann "whm.fleet" none none small ≡ true)
    × (feature_allowed ann "files.git" none none small ≡ true)
    × (feature_allowed ann "files.unknown" none none small ≡ false)
unfolding feature_allowed effective_feature_ids enabled_features explicit_features base_features
    features default_account_features package_for_user find select contains add discard insert
    caller_name caller_role prefix
ann_features = (refl, refl, refl, refl)

ann_quota :
    quota_state ann LimitColumn.max_sites (pos 2) none none small
    ≡ record { allowed = true; used = 2; limit = 3; remaining = 1 }
unfolding quota_state package_limit package_for_user find caller_name caller_role prefix clamp_zero
ann_quota = refl

feature_decided_example : feature_allowed ann "whm.fleet" none none small ≡ (
    contains features "whm.fleet"
    && or_else
        (override_for (resolved_package ann none none small) "whm.fleet" small.features)
        (contains (base_features (caller_role ann none)) "whm.fleet"))
feature_decided_example = feature_decided ann "whm.fleet" none none small

ann_has_small :
    package_for_user small (caller_name ann none) (caller_role ann none) ≡ some small_package
unfolding package_for_user find caller_name caller_role prefix
ann_has_small = refl

quota_exact_example :
    let q = quota_state ann LimitColumn.max_sites (pos 2) none none small in
    ((q.allowed ≡ true) ↔ IsWithin small_package (pos 2) (some LimitColumn.max_sites))
    × (q.used ≡ 2)
    × (q.limit ≡ 3)
    × (q.remaining ≡ 3 - 2)
quota_exact_example =
    quota_exact ann (pos 2) none none small LimitColumn.max_sites small_package ann_has_small

nobody_has_none : package_for_user small (caller_name nobody none) (caller_role nobody none) ≡ none
unfolding package_for_user find caller_name caller_role prefix
nobody_has_none = refl

no_package_blocks_example :
    (entitlement_state nobody "files.git"
      (some LimitColumn.max_sites)
      (pos 0)
      none
      none
      small).allowed
    ≡ false
no_package_blocks_example =
    no_package_blocks nobody (pos 0) none none small LimitColumn.max_sites "files.git"
      nobody_has_none

ann_may :
    (entitlement_state ann "files.git" (some LimitColumn.max_sites) (pos 2) none none small).allowed
    ≡ true
unfolding entitlement_state quota_state package_limit clamp_zero feature_allowed
    effective_feature_ids enabled_features explicit_features base_features features
    default_account_features package_for_user find select contains add discard insert caller_name
    caller_role prefix
ann_may = refl

entitlement_exact_example :
    ((entitlement_state ann "files.git"
        (some LimitColumn.max_sites)
        (pos 2)
        none
        none
        small).allowed
      ≡ true)
    ↔ ((feature_allowed ann "files.git" none none small ≡ true)
        × IsWithin small_package (pos 2) (some LimitColumn.max_sites))
entitlement_exact_example =
    entitlement_exact ann (pos 2) none none small "files.git" (some LimitColumn.max_sites)
      small_package ann_has_small
