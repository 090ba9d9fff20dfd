-- ===== src/DynamicDns/Token.antt =====
-- What a device may do with a token: `dynamic_dns_update` of panel/routes_dynamic_dns.py.
use nexvary_panel.Base.{
  ℕ, ◌+◌, ◌≤◌, ◌≡◌, ◌∙◌, ap, inl, inr, refl, String, ◌==◌, Bool, true, false, not, ◌&&◌, ◌||◌, some,
  List, [], ◌∷◌, eqb, ltb, arith, Bool-cases, Option-cases, Reply,
}
use mathlib.Core.Path.{subst}
use nexvary_panel.Base.Lists.{All, All-find, any, find, find-true, update}
use nexvary_panel.Base.Text.{compare_digest}
use nexvary_panel.Base.Json.{Fields, Body}
use nexvary_panel.Policy.{feature_allowed}
use nexvary_panel.Web.{Context, object_of}
use nexvary_panel.DynamicDns.Store.{Row, Target, Db, Call, World}
use nexvary_panel.DynamicDns.Rules.{owner_role, target_of, provider_payload, token_from}
use nexvary_panel.DynamicDns.Records.{row_has_id, dynamic_dns_rotate, row_in_scope}
use nexvary_panel.DynamicDns.Update.{
  Updated, Checked, Checked-cases, check_address, check_row, check_update, update_row,
  dynamic_dns_update, nobody,
}

module _ (w : World) (now at : ℕ) where
  -- The row is open to the token now, and the target is the one of the row's domain.
  abbrev pub IsOpen : String → Db → Row → Target → Type 0
  IsOpen token db row target =
      (compare_digest row.token_hash (w.sha256 token) ≡ some true)
      × (row.enabled ≡ true)
      × (feature_allowed nobody "domains.dynamic_dns" (some row.owner)
            (some (owner_role db row.owner)) db.policy
          ≡ true)
      × (row.last_update + 10 ≤ now)
      × (target_of db row.domain ≡ some target)
      × (target.id ≡ row.target_id)
      × (target.enabled ≡ true)

  address_go :
      (row row' : Row) (target target' : Target) (data' : Fields) (db : Db) (address : String)
      → check_address w now at row target data' db ≡ Checked.go row' target' address
      → (row ≡ row') × (target ≡ target')
  unfolding check_address
  address_go row row' target target' data' db address h = ground arith

  row_go :
      (row row' : Row) (target : Target) (data' : Fields) (db : Db) (address : String)
      → check_row w now at row data' db ≡ Checked.go row' target address
      → (row ≡ row')
        × (feature_allowed nobody "domains.dynamic_dns"
              (some row.owner)
              (some (owner_role db row.owner))
              db.policy
            ≡ true)
        × (row.last_update + 10 ≤ now)
        × (target_of db row.domain ≡ some target)
        × (target.id ≡ row.target_id)
        × (target.enabled ≡ true)
  unfolding check_row
  row_go row row' target data' db address h =
      let role = owner_role db row.owner in
      elim (Bool-cases (role == "viewer" && not (row.owner == "admin"))) [
        | inl inactive ↦ absurd (cc (rw inactive at h))
        | inr active ↦
            elim (Bool-cases (
              feature_allowed nobody "domains.dynamic_dns" (some row.owner) (some role)
                db.policy)) [
                  | inr off ↦ absurd (cc (rw (active, off) at h))
                  | inl on ↦ elim (Bool-cases (ltb now (row.last_update + 10))) [
                    | inl early ↦ absurd (cc (rw (active, on, early) at h))
                    | inr late ↦ elim (Option-cases (target_of db row.domain)) [
                      | inl missing ↦ absurd (cc (rw (active, on, late, missing) at h))
                      | inr (t, found) ↦
                          elim (Bool-cases (not (eqb t.id row.target_id) || not t.enabled)) [
                            | inl unbound ↦ absurd (cc (rw (active, on, late, found, unbound) at h))
                            | inr bound ↦
                                let k =
                                  address_go row row' t target data' db address
                                    (rw (active, on, late, found, bound) at h) in
                                (
                                  k.0,
                                  on,
                                  ground arith,
                                  found ∙ ap some k.1,
                                  subst (λ (x : Target). x.id ≡ row.target_id) k.1 (ground arith),
                                  subst (λ (x : Target). x.enabled ≡ true) k.1 (ground arith),
                                )
                          ]
                    ]
                  ]
                ]
      ]

  update_go :
      (token : String) (id : ℕ) (data' : Fields) (db : Db) (row : Row) (target : Target)
      (address : String)
      → check_update w now at token id data' db ≡ Checked.go row target address
      → (find (λ r. row_has_id id r && r.enabled) db.records ≡ some row)
        × IsOpen token db row target
  unfolding check_update
  update_go token id data' db row target address h =
      elim (Option-cases (find (λ r. row_has_id id r && r.enabled) db.records)) [
        | inl missing ↦ absurd (cc (rw (check_update, missing) at h))
        | inr (r, found) ↦ elim (Option-cases (compare_digest r.token_hash (w.sha256 token))) [
          | inl odd ↦ absurd (cc (rw (check_update, found, odd) at h))
          | inr (b, compared) ↦ elim (Bool-cases b) [
            | inr wrong ↦ absurd (cc (rw (check_update, found, compared, wrong) at h))
            | inl right ↦
                let k =
                  row_go r row target data' db address
                    (rw (check_update, found, compared, right) at h) in
                let on : r.enabled ≡ true =
                  ground (arith, find-true (λ r. row_has_id id r && r.enabled) db.records found) in
                let all : IsOpen token db r target =
                  (compared ∙ ap some right, on, k.1, k.2, k.3, k.4, k.5) in
                (found ∙ ap some k.0, subst (λ x. IsOpen token db x target) k.0 all)
          ]
        ]
      ]

  update_calls :
      (meanwhile : Db → Db) (fails : Bool) (row : Row) (target : Target) (address : String)
      (db : Db) (call : Call) (rest : List Call)
      → (update_row w now at meanwhile fails row target address db).2 ≡ call ∷ rest
      → call ≡ Call.dns_apply (provider_payload row target "update" address)
  unfolding update_row
  update_calls meanwhile fails row target address db call rest h = ground arith

  -- The provider is called first only for a request with the token of an enabled record whose owner
  -- has the feature, ten seconds after the last update at the earliest, and for that record: the
  -- call sets its own host name, at the target to which its domain is bound.
  pub calls_own_record :
      (meanwhile : Db → Db) (fails : Bool) (header : String) (body : Body) (id : ℕ) (db : Db)
      (call : Call) (rest : List Call)
      → (dynamic_dns_update w now at meanwhile fails header body id db).2 ≡ call ∷ rest
      → (token : String) × (row : Row) × (target : Target) × (address : String) × (token_from header
          ≡ some token)
        × (find (λ r. row_has_id id r && r.enabled) db.records ≡ some row)
        × IsOpen token db row target
        × (call ≡ Call.dns_apply (provider_payload row target "update" address))
  unfolding dynamic_dns_update
  calls_own_record meanwhile fails header body id db call rest h =
      elim (Option-cases (token_from header)) [
        | inl absent ↦ absurd (cc (rw (dynamic_dns_update, absent) at h))
        | inr (token, given) ↦ elim (Option-cases (object_of body)) [
          | inl bad ↦ absurd (cc (rw (dynamic_dns_update, given, bad) at h))
          | inr (data', read) ↦ elim (Checked-cases (check_update w now at token id data' db)) [
            | inr (answer, after, stopped) ↦
                absurd (cc (rw (dynamic_dns_update, given, read, stopped) at h))
            | inl (row, target, address, through) ↦
                let k = update_go token id data' db row target address through in
                (
                  token,
                  row,
                  target,
                  address,
                  given,
                  k.0,
                  k.1,
                  update_calls meanwhile fails row target address db call rest
                      (rw (dynamic_dns_update, given, read, through) at h),
                )
          ]
        ]
      ]

  -- the hash that every row of the id has after a rotation
  abbrev HasHash : ℕ → String → Row → Type 0
  HasHash id hash r = row_has_id id r ≡ true → r.token_hash ≡ hash

  update-HasHash :
      (id : ℕ) (hash : String) (f : Row → Row)
      → ((r : Row) → (f r).token_hash ≡ hash)
      → (l : List Row) → All (HasHash id hash) (update (row_has_id id) f l)
  unfolding update
  update-HasHash id hash f same [] = tt
  update-HasHash id hash f same (r ∷ l) = elim (Bool-cases (row_has_id id r)) [
    | inl hit ↦ rw hit ((λ e. same r), update-HasHash id hash f same l)
    | inr miss ↦ rw miss ((λ e. absurd (cc (miss, e))), update-HasHash id hash f same l)
  ]

  rotate-HasHash :
      (c : Context) (id code : ℕ) (shown : String) (db : Db)
      → (dynamic_dns_rotate w c id db).0 ≡ Reply.done code shown
      → All (HasHash id (w.sha256 w.token)) (dynamic_dns_rotate w c id db).1.records
  unfolding dynamic_dns_rotate
  rotate-HasHash c id code shown db h = elim (Option-cases (row_in_scope c.caller id db)) [
    | inl missing ↦ absurd (cc (rw (dynamic_dns_rotate, missing) at h))
    | inr (row, found) ↦
        elim (Bool-cases (
          any (λ (r : Row). r.token_hash == w.sha256 w.token && not (row_has_id id r))
            db.records)) [
              | inl clash ↦ absurd (cc (rw (dynamic_dns_rotate, found, clash) at h))
              | inr fresh ↦
                  rw (dynamic_dns_rotate, found, fresh)
                    (update-HasHash id (w.sha256 w.token) _ (λ r. refl) db.records)
            ]
  ]

  wrong_token :
      (hash token : String) (id : ℕ) (data' : Fields) (db : Db)
      → All (HasHash id hash) db.records
      → hash == w.sha256 token ≡ false
      → (answer : Reply Updated) × (check_update w now at token id data' db
          ≡ Checked.stop answer db)
  unfolding check_update compare_digest
  wrong_token hash token id data' db all other =
      elim (Option-cases (find (λ r. row_has_id id r && r.enabled) db.records)) [
        | inl missing ↦
            (Reply.fail 401 "invalid dynamic DNS token", rw (check_update, missing) refl)
        | inr (row, found) ↦
            let hit = find-true (λ r. row_has_id id r && r.enabled) db.records found in
            let same : row.token_hash ≡ hash =
              All-find (HasHash id hash) (λ r. row_has_id id r && r.enabled) db.records all found
                (ground arith) in
            let apart : row.token_hash == w.sha256 token ≡ false = rw same other in
            elim (Option-cases (compare_digest row.token_hash (w.sha256 token))) [
              | inl odd ↦ (Reply.raised "TypeError", rw (check_update, found, odd) refl)
              | inr (b, compared) ↦
                  let wrong : b ≡ false = ground arith in
                  (
                    Reply.fail 401 "invalid dynamic DNS token",
                    rw (check_update, found, compared, wrong) refl,
                  )
            ]
      ]

  -- A rotation ends the old token: a request with any token whose digest is not the new one's calls
  -- no provider and leaves the tables as they are.
  pub rotation_revokes :
      (c : Context) (id code : ℕ) (shown old header : String) (meanwhile : Db → Db) (fails : Bool)
      (body : Body) (db : Db)
      → (dynamic_dns_rotate w c id db).0 ≡ Reply.done code shown
      → token_from header ≡ some old
      → w.sha256 w.token == w.sha256 old ≡ false
      → let after = (dynamic_dns_rotate w c id db).1 in
        let o = dynamic_dns_update w now at meanwhile fails header body id after in
        (o.1 ≡ after) × (o.2 ≡ [])
  unfolding dynamic_dns_update
  rotation_revokes c id code shown old header meanwhile fails body db done given other =
      let after = (dynamic_dns_rotate w c id db).1 in
      let all : All (HasHash id (w.sha256 w.token)) after.records =
        rotate-HasHash c id code shown db done in
      elim (Option-cases (object_of body)) [
        | inl bad ↦ rw (dynamic_dns_update, given, bad) (refl, refl)
        | inr (data', read) ↦
            let stop = wrong_token (w.sha256 w.token) old id data' after all other in
            rw (dynamic_dns_update, given, read, stop.1) (refl, refl)
      ]
