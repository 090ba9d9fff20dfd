-- ===== src/Policy/Limits.antt =====
-- Limits: `package_limit`, `quota_state` and `entitlement_state` of panel/hosting_policy.py.
use nexvary_panel.Base.{
  ◌-◌, String, ◌≡◌, ◌↔◌, true, false, Option, none, some, arith, refl, ◌∙◌, ◌&&◌, ltb, and-true,
}
use nexvary_panel.Base.Int.{ℤ, pos, negsuc, clamp_zero, ltb_ℤ, pos_part}
use nexvary_panel.Policy.{
  Db, Caller, Package, feature_allowed, LimitColumn, package_for_user, package_limit, quota_state,
  caller_name, caller_role, entitlement_state,
}

-- The use stays below a limit of the package.
abbrev pub IsWithin : Package → ℤ → Option LimitColumn → Type 0
IsWithin p used none = Unit
IsWithin p used (some c) = (ltb_ℤ used (p.limit c) ≡ true) × (ltb_ℤ (pos 0) (p.limit c) ≡ true)

within_lem :
    (used limit : ℤ)
    → ((ltb 0 (clamp_zero limit) && ltb (clamp_zero used) (clamp_zero limit)) ≡ true)
      ↔ ((ltb_ℤ used limit ≡ true) × (ltb_ℤ (pos 0) limit ≡ true))
unfolding clamp_zero
within_lem (pos n) (pos l) = ground arith
within_lem (pos n) (negsuc l) = ground arith
within_lem (negsuc n) (pos l) = ground arith
within_lem (negsuc n) (negsuc l) = ground arith

clamp-pos_part : (n : ℤ) → clamp_zero n ≡ pos_part n
unfolding clamp_zero
clamp-pos_part (pos n) = refl
clamp-pos_part (negsuc n) = refl

module _ (s : Caller) (used : ℤ) (username role : Option String) (conn : Db) where
  limit_of :
      (c : LimitColumn) (p : Package)
      → package_for_user conn (caller_name s username) (caller_role s role) ≡ some p
      → package_limit s c username role conn ≡ clamp_zero (p.limit c)
  unfolding package_limit
  limit_of c p h = rw (package_limit, h) refl

  quota-IsWithin :
      (c : LimitColumn) (p : Package)
      → package_for_user conn (caller_name s username) (caller_role s role) ≡ some p
      → ((quota_state s c used username role conn).allowed ≡ true) ↔ IsWithin p used (some c)
  unfolding quota_state
  quota-IsWithin c p h = rw (limit_of c p h) (within_lem used (p.limit c))

  -- With a package in force, one more item is allowed exactly when what is used, negative or not,
  -- is below the package's limit and that limit is positive. Then what is used, 0 if negative, and
  -- what remains make up the limit.
  pub quota_exact :
      (c : LimitColumn) (p : Package)
      → package_for_user conn (caller_name s username) (caller_role s role) ≡ some p
      → let q = quota_state s c used username role conn in
        ((q.allowed ≡ true) ↔ IsWithin p used (some c))
        × (q.used ≡ pos_part used)
        × (q.limit ≡ pos_part (p.limit c))
        × (q.remaining ≡ pos_part (p.limit c) - pos_part used)
  quota_exact c p h = (
    quota-IsWithin c p h,
    unfold quota_state in clamp-pos_part used,
    unfold quota_state in limit_of c p h ∙ clamp-pos_part (p.limit c),
    unfold quota_state in rw (limit_of c p h, clamp-pos_part used, clamp-pos_part (p.limit c)) refl,
  )

  no_package_limit :
      (c : LimitColumn)
      → package_for_user conn (caller_name s username) (caller_role s role) ≡ none
      → package_limit s c username role conn ≡ 0
  unfolding package_limit
  no_package_limit c h = ground arith

  -- With no package in force nothing that has a limit is allowed.
  pub no_package_blocks :
      (c : LimitColumn) (f : String)
      → package_for_user conn (caller_name s username) (caller_role s role) ≡ none
      → (entitlement_state s f (some c) used username role conn).allowed ≡ false
  unfolding entitlement_state quota_state
  no_package_blocks c f h = ground (arith, no_package_limit c h)

  -- With a package in force, an entitlement holds exactly where the feature is allowed and, where it
  -- has a limit, the use stays below it.
  pub entitlement_exact :
      (f : String) (c : Option LimitColumn) (p : Package)
      → package_for_user conn (caller_name s username) (caller_role s role) ≡ some p
      → ((entitlement_state s f c used username role conn).allowed ≡ true)
        ↔ ((feature_allowed s f username role conn ≡ true) × IsWithin p used c)
  unfolding entitlement_state
  entitlement_exact f none p h = (λ e. (e, tt), λ e. e.0)
  entitlement_exact f (some c) p h =
      let (to, from) = quota-IsWithin c p h in
      (
        λ e.
            let (allowed, within) = and-true (feature_allowed s f username role conn) _ e in
            (allowed, to within),
        λ e. rw (e.0, from e.1) refl,
      )
