-- ===== src/DynamicDns/Zone.antt =====
-- What every row of `dynamic_dns_records` keeps under the routes of panel/routes_dynamic_dns.py.
use nexvary_panel.Base.{
  ℕ, ◌≤◌, ◌≡◌, ◌⊎◌, inl, inr, refl, String, ◌==◌, Bool, true, not, ◌&&◌, ◌||◌, List, [], ◌∷◌, ◌++◌,
  eqb, arith, Bool-cases, Option-cases, eq_iff,
}
use mathlib.Core.Path.{subst}
use nexvary_panel.Base.Int.{pos}
use nexvary_panel.Base.Lists.{All, All-update, All-append, All-select, update, select, any}
use nexvary_panel.Base.Names.{is_domain}
use nexvary_panel.Base.Text.{rstrip_dots, lower, strip, upper, prefix}
use nexvary_panel.Base.Json.{Json, Fields, Body, text_of, get_or}
use nexvary_panel.Web.{Context, object_of}
use nexvary_panel.DynamicDns.Store.{Row, Target, Db, Call, World}
use nexvary_panel.DynamicDns.Rules.{
  Valid, Valid-cases, or_empty, hostname_of, address_of, ttl_of, in_zone, provider_payload,
  target_of,
}
use nexvary_panel.DynamicDns.Records.{
  Wanted, wanted_of, wanted_fields, create_scope, Scope, create_row, insert_row, new_row,
  dynamic_dns_create, dynamic_dns_rotate, row_in_scope, delete_row, dynamic_dns_delete, row_has_id,
}
use nexvary_panel.DynamicDns.Update.{update_row, token_audit}

-- a host name of its own zone, an address record, a time to live within its bounds
abbrev pub IsWithin : String → String → String → ℕ → Type 0
IsWithin domain hostname record_type ttl =
    (is_domain hostname ≡ true)
    × (in_zone domain hostname ≡ true)
    × (record_type == "A" || record_type == "AAAA" ≡ true)
    × (60 ≤ ttl)
    × (ttl ≤ 86400)

abbrev pub IsManaged : Row → Type 0
IsManaged r = IsWithin r.domain r.hostname r.record_type r.ttl

hostname-in_zone :
    (domain hostname : String) (value : Json)
    → is_domain domain ≡ true
    → hostname_of domain value ≡ Valid.valid hostname
    → (is_domain hostname ≡ true) × (in_zone domain hostname ≡ true)
unfolding hostname_of in_zone
hostname-in_zone domain hostname value known h =
    elim (Bool-cases (rstrip_dots (lower (strip (or_empty value))) == "@")) [
      | inl at ↦
          let same : domain ≡ hostname = ground arith in
          let own : domain == domain ≡ true = (eq_iff domain domain).1 refl in
          subst (λ n. (is_domain n ≡ true) × (in_zone domain n ≡ true)) same (known, ground arith)
      | inr named ↦ ground arith
    ]

ttl-bounds : (value : Json) (ttl : ℕ) → ttl_of value ≡ Valid.valid ttl → (60 ≤ ttl) × (ttl ≤ 86400)
unfolding ttl_of
ttl-bounds value ttl h = ground arith

fields-IsWithin :
    (w : World) (domain record_type : String) (data' : Fields) (x : Wanted)
    → is_domain domain ≡ true
    → record_type == "A" || record_type == "AAAA" ≡ true
    → wanted_fields w domain record_type data' ≡ Valid.valid x
    → IsWithin x.domain x.hostname x.record_type x.ttl
unfolding wanted_fields
fields-IsWithin w domain record_type data' x known kind h =
    elim (Valid-cases (hostname_of domain (get_or "hostname" (Json.str "@") data'))) [
      | inr (e, bad) ↦ absurd (cc (rw (wanted_fields, bad) at h))
      | inl (hostname, named) ↦
          elim (Valid-cases
            (address_of w.ip_address (get_or "address" Json.null data') record_type)) [
              | inr (e, bad) ↦ absurd (cc (rw (wanted_fields, named, bad) at h))
              | inl (address, given) ↦
                  elim (Valid-cases (ttl_of (get_or "ttl" (Json.int (pos 300)) data'))) [
                    | inr (e, bad) ↦ absurd (cc (rw (wanted_fields, named, given, bad) at h))
                    | inl (ttl, lasts) ↦
                        let n = hostname-in_zone domain hostname _ known named in
                        let t = ttl-bounds _ ttl lasts in
                        let y : Wanted = record {
                          domain = domain;
                          record_type = record_type;
                          hostname = hostname;
                          address = address;
                          ttl = ttl;
                        } in
                        let e : Valid.valid y ≡ Valid.valid x =
                          rw (wanted_fields, named, given, lasts) at h in
                        let same : y ≡ x = cc e in
                        subst (λ (z : Wanted). IsWithin z.domain z.hostname z.record_type z.ttl)
                          same (n.0, n.1, kind, t.0, t.1)
                  ]
            ]
    ]

wanted-IsWithin :
    (w : World) (data' : Fields) (x : Wanted)
    → wanted_of w data' ≡ Valid.valid x
    → IsWithin x.domain x.hostname x.record_type x.ttl
unfolding wanted_of
wanted-IsWithin w data' x h =
    let domain = rstrip_dots (lower (strip (text_of "domain" "" data'))) in
    let record_type = upper (text_of "record_type" "A" data') in
    elim (Bool-cases (record_type == "A" || record_type == "AAAA")) [
      | inr bad ↦ absurd (cc (rw bad at h))
      | inl kind ↦ elim (Bool-cases (is_domain domain)) [
        | inr bad ↦ absurd (cc (rw (kind, bad) at h))
        | inl known ↦
            fields-IsWithin w domain record_type data' x known kind (rw (kind, known) at h)
      ]
    ]

Scope-cases :
    (x : Scope)
    → ((owner : String) × (target : Target) × (x ≡ Scope.granted owner target))
      ⊎ ((code : ℕ) × (e : String) × (x ≡ Scope.denied code e))
Scope-cases (Scope.granted owner target) = inl (owner, target, refl)
Scope-cases (Scope.denied code e) = inr (code, e, refl)

-- A property of all rows, from the three tables that an operation may leave.
pub one_of :
    (a b c d : List Row)
    → (a ≡ b) ⊎ (a ≡ c) ⊎ (a ≡ d)
    → All IsManaged b
    → All IsManaged c
    → All IsManaged d
    → All IsManaged a
one_of a b c d (inl e) p q r = rw e p
one_of a b c d (inr (inl e)) p q r = rw e q
one_of a b c d (inr (inr e)) p q r = rw e r

create_rows :
    (w : World) (c : Context) (meanwhile : Db → Db) (x : Wanted) (owner : String) (target : Target)
    (db : Db)
    → let call =
        Call.dns_apply
          (provider_payload (new_row w c x owner target "" 0) target "create" x.address) in
      let row =
        new_row w c x owner target
          (prefix 160 (text_of "provider_record_id" "" (w.ops call)))
          (meanwhile db).next_id in
      let l = (create_row w c meanwhile x owner target db).1.records in
      (l ≡ db.records) ⊎ (l ≡ (meanwhile db).records) ⊎ (l ≡ (meanwhile db).records ++ (row ∷ []))
unfolding create_row insert_row
create_rows w c meanwhile x owner target db = ground arith

delete_rows :
    (w : World) (c : Context) (meanwhile : Db → Db) (fails : Bool) (id : ℕ) (row : Row)
    (target : Target) (db : Db)
    → let l = (delete_row w c meanwhile fails id row target db).1.records in
      (l ≡ db.records)
      ⊎ (l ≡ (meanwhile db).records)
      ⊎ (l ≡ select (λ r. not (row_has_id id r)) (meanwhile db).records)
unfolding delete_row
delete_rows w c meanwhile fails id row target db = ground arith

row-IsManaged :
    (w : World) (c : Context) (meanwhile : Db → Db) (x : Wanted) (owner : String) (target : Target)
    (db : Db)
    → IsWithin x.domain x.hostname x.record_type x.ttl
    → All IsManaged db.records
    → All IsManaged (meanwhile db).records
    → All IsManaged (create_row w c meanwhile x owner target db).1.records
row-IsManaged w c meanwhile x owner target db fits h later =
    one_of (create_row w c meanwhile x owner target db).1.records db.records _ _
      (create_rows w c meanwhile x owner target db) h later
      (All-append IsManaged (meanwhile db).records _ later (fits, tt))

pub create-IsManaged :
    (w : World) (c : Context) (meanwhile : Db → Db) (body : Body) (db : Db)
    → All IsManaged db.records
    → All IsManaged (meanwhile db).records
    → All IsManaged (dynamic_dns_create w c meanwhile body db).1.records
unfolding dynamic_dns_create
create-IsManaged w c meanwhile body db h later = elim (Option-cases (object_of body)) [
  | inl bad ↦ rw (dynamic_dns_create, bad) h
  | inr (data', read) ↦ elim (Valid-cases (wanted_of w data')) [
    | inr (e, bad) ↦ rw (dynamic_dns_create, read, bad) h
    | inl (x, wanted) ↦ elim (Scope-cases (create_scope c x db)) [
      | inr (code, e, closed) ↦ rw (dynamic_dns_create, read, wanted, closed) h
      | inl (owner, target, open_) ↦
          rw (dynamic_dns_create, read, wanted, open_)
            (row-IsManaged w c meanwhile x owner target db (wanted-IsWithin w data' x wanted) h
              later)
    ]
  ]
]

pub rotate-IsManaged :
    (w : World) (c : Context) (id : ℕ) (db : Db)
    → All IsManaged db.records
    → All IsManaged (dynamic_dns_rotate w c id db).1.records
unfolding dynamic_dns_rotate
rotate-IsManaged w c id db h =
    let kept =
      All-update IsManaged (row_has_id id)
        (λ r. record r { token_hash = w.sha256 w.token; updated_at = c.now }) (λ r m q. m)
        db.records h in
    elim (Option-cases (row_in_scope c.caller id db)) [
      | inl missing ↦ rw (dynamic_dns_rotate, missing) h
      | inr (row, found) ↦
          elim (Bool-cases (
            any (λ (r : Row). r.token_hash == w.sha256 w.token && not (row_has_id id r))
              db.records)) [
                | inl clash ↦ rw (dynamic_dns_rotate, found, clash) h
                | inr fresh ↦ rw (dynamic_dns_rotate, found, fresh) kept
              ]
    ]

pub delete-IsManaged :
    (w : World) (c : Context) (meanwhile : Db → Db) (fails : Bool) (id : ℕ) (db : Db)
    → All IsManaged db.records
    → All IsManaged (meanwhile db).records
    → All IsManaged (dynamic_dns_delete w c meanwhile fails id db).1.records
unfolding dynamic_dns_delete
delete-IsManaged w c meanwhile fails id db h later =
    elim (Option-cases (row_in_scope c.caller id db)) [
      | inl missing ↦ rw (dynamic_dns_delete, missing) h
      | inr (row, found) ↦ elim (Option-cases (target_of db row.domain)) [
        | inl unbound ↦ rw (dynamic_dns_delete, found, unbound) h
        | inr (target, bound) ↦ elim (Bool-cases (eqb target.id row.target_id)) [
          | inr moved ↦ rw (dynamic_dns_delete, found, bound, moved) h
          | inl same ↦
              rw (dynamic_dns_delete, found, bound, same)
                (one_of (delete_row w c meanwhile fails id row target db).1.records db.records
                  (meanwhile db).records _ (delete_rows w c meanwhile fails id row target db) h
                  later (All-select IsManaged _ (meanwhile db).records later))
        ]
      ]
    ]

-- An update changes no field that a row is managed by.
pub update_rows :
    (w : World) (now at : ℕ) (meanwhile : Db → Db) (fails : Bool) (row : Row) (target : Target)
    (address : String) (db : Db)
    → let call = Call.dns_apply (provider_payload row target "update" address) in
      let given = prefix 160 (text_of "provider_record_id" row.provider_record_id (w.ops call)) in
      let l = (update_row w now at meanwhile fails row target address db).1.records in
      (l ≡ db.records)
      ⊎ (l ≡ (meanwhile db).records)
      ⊎ (l
          ≡ update
              (row_has_id row.id)
              (λ r. record r {
                provider_record_id = given;
                last_address = address;
                last_update = now;
                updated_at = now;
              })
              (meanwhile db).records)
unfolding update_row token_audit
update_rows w now at meanwhile fails row target address db = ground arith
