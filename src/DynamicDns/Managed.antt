-- ===== src/DynamicDns/Managed.antt =====
-- The rows of `dynamic_dns_records` under every sequence of the operations of
-- panel/routes_dynamic_dns.py.
use nexvary_panel.Base.{
  ℕ, ◌+◌, inl, inr, String, ◌==◌, Bool, not, ◌&&◌, ◌||◌, some, eqb, ltb, Bool-cases, Option-cases,
}
use nexvary_panel.Base.Lists.{All, All-update, find, update}
use nexvary_panel.Base.Json.{Json, Fields, Body, get_or}
use nexvary_panel.Web.{Context, object_of}
use nexvary_panel.DynamicDns.Store.{Row, Target, Db, World}
use nexvary_panel.DynamicDns.Rules.{Valid-cases, address_of, target_of}
use nexvary_panel.DynamicDns.Records.{
  dynamic_dns_create, dynamic_dns_rotate, dynamic_dns_delete, row_has_id,
}
use nexvary_panel.DynamicDns.Update.{
  Checked, Checked-cases, check_address, check_row, check_update, update_row, dynamic_dns_update,
  token_audit,
}
use nexvary_panel.Base.Text.{compare_digest}
use nexvary_panel.Policy.{feature_allowed}
use nexvary_panel.DynamicDns.Rules.{owner_role, token_from}
use nexvary_panel.DynamicDns.Update.{nobody}
use nexvary_panel.DynamicDns.Zone.{
  IsManaged, update_rows, one_of, create-IsManaged, rotate-IsManaged, delete-IsManaged,
}

-- One operation on the table, whatever the session, the token, the provider's answer, and whatever
-- other requests do between its two transactions that keeps the rows managed.
pub data Change (db : Db) : Db → Type 0 where
  create :
      (w : World) (c : Context) (meanwhile : Db → Db) (body : Body)
      → All IsManaged (meanwhile db).records
      → Change db (dynamic_dns_create w c meanwhile body db).1
  rotate : (w : World) (c : Context) (id : ℕ) → Change db (dynamic_dns_rotate w c id db).1
  delete :
      (w : World) (c : Context) (meanwhile : Db → Db) (fails : Bool) (id : ℕ)
      → All IsManaged (meanwhile db).records
      → Change db (dynamic_dns_delete w c meanwhile fails id db).1
  device :
      (w : World) (now at : ℕ) (meanwhile : Db → Db) (fails : Bool) (header : String) (body : Body)
      (id : ℕ)
      → All IsManaged (meanwhile db).records
      → Change db (dynamic_dns_update w now at meanwhile fails header body id db).1

-- what the first transaction of an update leaves
abbrev Keeps : Checked → Type 0
Keeps (Checked.go row target address) = Unit
Keeps (Checked.stop answer after) = All IsManaged after.records

module _ (w : World) (now at : ℕ) where
  touched :
      (id : ℕ) (row : Row) (db : Db)
      → All IsManaged db.records
      → All IsManaged (
          update (row_has_id id) (λ r. record r { last_update = now; updated_at = now }) db.records)
  touched id row db h = All-update IsManaged (row_has_id id) _ (λ r m q. m) db.records h

  address-Keeps :
      (row : Row) (target : Target) (data' : Fields) (db : Db)
      → All IsManaged db.records
      → Keeps (check_address w now at row target data' db)
  unfolding check_address token_audit
  address-Keeps row target data' db h =
      elim (Valid-cases
        (address_of w.ip_address (get_or "address" Json.null data') row.record_type)) [
          | inr (e, bad) ↦ rw (check_address, bad) h
          | inl (address, given) ↦ elim (Option-cases (compare_digest address row.last_address)) [
            | inl odd ↦ rw (check_address, given, odd) h
            | inr (b, compared) ↦ elim (Bool-cases b) [
              | inl same ↦ rw (check_address, given, compared, same) (touched row.id row db h)
              | inr new ↦ rw (check_address, given, compared, new) tt
            ]
          ]
        ]

  row-Keeps :
      (row : Row) (data' : Fields) (db : Db)
      → All IsManaged db.records
      → Keeps (check_row w now at row data' db)
  unfolding check_row
  row-Keeps row data' db h =
      let role = owner_role db row.owner in
      elim (Bool-cases (role == "viewer" && not (row.owner == "admin"))) [
        | inl inactive ↦ rw (check_row, inactive) h
        | inr active ↦
            elim (Bool-cases (
              feature_allowed nobody "domains.dynamic_dns" (some row.owner) (some role)
                db.policy)) [
                  | inr off ↦ rw (check_row, active, off) h
                  | inl on ↦ elim (Bool-cases (ltb now (row.last_update + 10))) [
                    | inl early ↦ rw (check_row, active, on, early) h
                    | inr late ↦ elim (Option-cases (target_of db row.domain)) [
                      | inl missing ↦ rw (check_row, active, on, late, missing) h
                      | inr (t, found) ↦
                          elim (Bool-cases (not (eqb t.id row.target_id) || not t.enabled)) [
                            | inl unbound ↦ rw (check_row, active, on, late, found, unbound) h
                            | inr bound ↦
                                rw (check_row, active, on, late, found, bound)
                                  (address-Keeps row t data' db h)
                          ]
                    ]
                  ]
                ]
      ]

  update-Keeps :
      (token : String) (id : ℕ) (data' : Fields) (db : Db)
      → All IsManaged db.records
      → Keeps (check_update w now at token id data' db)
  unfolding check_update
  update-Keeps token id data' db h =
      elim (Option-cases (find (λ r. row_has_id id r && r.enabled) db.records)) [
        | inl missing ↦ rw (check_update, missing) h
        | inr (r, found) ↦ elim (Option-cases (compare_digest r.token_hash (w.sha256 token))) [
          | inl odd ↦ rw (check_update, found, odd) h
          | inr (b, compared) ↦ elim (Bool-cases b) [
            | inr wrong ↦ rw (check_update, found, compared, wrong) h
            | inl right ↦ rw (check_update, found, compared, right) (row-Keeps r data' db h)
          ]
        ]
      ]

  device-IsManaged :
      (meanwhile : Db → Db) (fails : Bool) (header : String) (body : Body) (id : ℕ) (db : Db)
      → All IsManaged db.records
      → All IsManaged (meanwhile db).records
      → All IsManaged (dynamic_dns_update w now at meanwhile fails header body id db).1.records
  unfolding dynamic_dns_update
  device-IsManaged meanwhile fails header body id db h later =
      elim (Option-cases (token_from header)) [
        | inl absent ↦ rw (dynamic_dns_update, absent) h
        | inr (token, given) ↦ elim (Option-cases (object_of body)) [
          | inl bad ↦ rw (dynamic_dns_update, given, bad) h
          | inr (data', read) ↦ elim (Checked-cases (check_update w now at token id data' db)) [
            | inr (answer, after, stopped) ↦
                rw (dynamic_dns_update, given, read, stopped)
                  (rw stopped at (update-Keeps token id data' db h))
            | inl (row, target, address, through) ↦
                rw (dynamic_dns_update, given, read, through)
                  (one_of (update_row w now at meanwhile fails row target address db).1.records
                    db.records (meanwhile db).records _
                    (update_rows w now at meanwhile fails row target address db) h later
                    (All-update IsManaged (row_has_id row.id) _ (λ r m q. m) (meanwhile db).records
                      later))
          ]
        ]
      ]

pub data Changes (db : Db) : Db → Type 0 where
  here : Changes db db
  next : {db' db'' : Db} → Changes db db' → Change db' db'' → Changes db db''

Change-IsManaged :
    {db db' : Db} → Change db db' → All IsManaged db.records → All IsManaged db'.records
Change-IsManaged {db} (create w c meanwhile body later) h =
    create-IsManaged w c meanwhile body db h later
Change-IsManaged {db} (rotate w c id) h = rotate-IsManaged w c id db h
Change-IsManaged {db} (delete w c meanwhile fails id later) h =
    delete-IsManaged w c meanwhile fails id db h later
Change-IsManaged {db} (device w now at meanwhile fails header body id later) h =
    device-IsManaged w now at meanwhile fails header body id db h later

-- Whatever the routes and the devices ask, in whatever order, every record keeps a valid host name
-- of its own zone, the type A or AAAA, and a time to live from one minute to one day.
pub Changes-IsManaged :
    {db db' : Db} → All IsManaged db.records → Changes db db' → All IsManaged db'.records
Changes-IsManaged h here = h
Changes-IsManaged h (next earlier last) = Change-IsManaged last (Changes-IsManaged h earlier)
