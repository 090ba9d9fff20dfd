-- ===== src/DynamicDns/Update.antt =====
-- `dynamic_dns_update` and `_token_audit` of panel/routes_dynamic_dns.py: the route that a device
-- calls with the token of its record, without a session. Answer, tables and calls are as in
-- `Records`, and so are `meanwhile` and `fails`.
use Prim.Native.String.{◌++◌ as ◌+++◌}
use nexvary_panel.Base.{
  ◌≡◌, refl, ◌⊎◌, inl, inr, ℕ, ◌+◌, String, ◌==◌, Bool, true, false, not, ◌&&◌, ◌||◌, none, some,
  List, [], ◌∷◌, eqb, ltb, if◌then◌else◌, Reply,
}
use nexvary_panel.Base.Lists.{find, update}
use nexvary_panel.Base.Text.{prefix, compare_digest}
use nexvary_panel.Base.Json.{Json, Fields, Body, get_or, text_of, flag, show_ℕ}
use nexvary_panel.Policy.{Caller, feature_allowed}
use nexvary_panel.Web.{Audit, object_of}
use nexvary_panel.DynamicDns.Store.{Row, Target, Db, Call, World}
use nexvary_panel.DynamicDns.Rules.{
  Valid, address_of, owner_role, target_of, provider_payload, token_from, update_min_seconds,
}
use nexvary_panel.DynamicDns.Records.{rollback, row_has_id}

-- the payload of the answer
pub record Updated : Type 0 where
  pub hostname : String
  pub address : String
  pub changed : Bool

abbrev pub Outcome : Type 0
Outcome = Reply Updated × Db × List Call

-- `_token_audit`, at a reading of the clock
unfoldable pub token_audit : ℕ → Row → Db → Db
token_audit at row db =
    let a : Audit = record {
      ts = at;
      actor = prefix 64 row.owner;
      action = "dynamic-dns-update";
      detail = prefix 700 ("record_id=" +++ show_ℕ row.id +++ " hostname=" +++ row.hostname);
      ip = "";
    } in
    record db { audit = a ∷ db.audit }

-- no session
abbrev pub nobody : Caller
nobody = record { user = none; role = none }

-- what the first transaction lets through, or its answer and what it wrote
pub data Checked : Type 0 where
  go : Row → Target → String → Checked
  stop : Reply Updated → Db → Checked

pub Checked-cases :
    (x : Checked)
    → ((row : Row) × (target : Target) × (address : String) × (x ≡ Checked.go row target address))
      ⊎ ((answer : Reply Updated) × (after : Db) × (x ≡ Checked.stop answer after))
Checked-cases (Checked.go row target address) = inl (row, target, address, refl)
Checked-cases (Checked.stop answer after) = inr (answer, after, refl)

-- the address that is asked for, against the last one
unfoldable pub check_address : World → ℕ → ℕ → Row → Target → Fields → Db → Checked
check_address w now at row target data' db =
    elim (address_of w.ip_address (get_or "address" Json.null data') row.record_type) [
      | Valid.invalid e ↦ Checked.stop (Reply.fail 400 e) db
      | Valid.valid address ↦ elim (compare_digest address row.last_address) [
        | none ↦ Checked.stop (Reply.raised "TypeError") db
        | some false ↦ Checked.go row target address
        | some true ↦
            Checked.stop
              (Reply.done 200
                (record { hostname = row.hostname; address = address; changed = false }))
              (token_audit at row (record db {
                records =
                    update (row_has_id row.id)
                      (λ r. record r { last_update = now; updated_at = now }) db.records;
              }))
      ]
    ]

-- `now - last_update < 10` is `now < last_update + 10`.
unfoldable pub check_row : World → ℕ → ℕ → Row → Fields → Db → Checked
check_row w now at row data' db =
    let role = owner_role db row.owner in
    if role == "viewer" && not (row.owner == "admin")
    then Checked.stop (Reply.fail 403 "dynamic DNS owner is inactive") db
    else if not
        (feature_allowed nobody "domains.dynamic_dns" (some row.owner) (some role) db.policy)
    then Checked.stop (Reply.fail 403 "domains.dynamic_dns disabled by hosting policy") db
    else if ltb now (row.last_update + update_min_seconds)
    then Checked.stop (Reply.fail 429 "dynamic DNS update rate limited") db
    else elim (target_of db row.domain) [
      | none ↦ Checked.stop (Reply.fail 409 "dynamic DNS provider binding is unavailable") db
      | some target ↦
          if not (eqb target.id row.target_id) || not target.enabled
          then Checked.stop (Reply.fail 409 "dynamic DNS provider binding is unavailable") db
          else check_address w now at row target data' db
    ]

unfoldable pub check_update : World → ℕ → ℕ → String → ℕ → Fields → Db → Checked
check_update w now at token id data' db =
    elim (find (λ r. row_has_id id r && r.enabled) db.records) [
      | none ↦ Checked.stop (Reply.fail 401 "invalid dynamic DNS token") db
      | some row ↦ elim (compare_digest row.token_hash (w.sha256 token)) [
        | none ↦ Checked.stop (Reply.raised "TypeError") db
        | some false ↦ Checked.stop (Reply.fail 401 "invalid dynamic DNS token") db
        | some true ↦ check_row w now at row data' db
      ]
    ]

unfoldable pub update_row : World → ℕ → ℕ → (Db → Db) → Bool → Row → Target → String → Db → Outcome
update_row w now at meanwhile fails row target address db =
    let call = Call.dns_apply (provider_payload row target "update" address) in
    let result = w.ops call in
    let later = meanwhile db in
    if not (flag "ok" result)
    then (
      Reply.fail 503 (prefix 180 (text_of "error" "DNS provider rejected dynamic update" result)),
      db,
      call ∷ [],
    )
    else if fails
    then (
      Reply.fail 500 "dynamic DNS metadata update failed; provider state restored",
      later,
      call ∷ rollback target result,
    )
    else (
      Reply.done 200 (record { hostname = row.hostname; address = address; changed = true }),
      token_audit at row (record later {
        records =
            update (row_has_id row.id)
              (λ r. record r {
                provider_record_id =
                    prefix 160 (text_of "provider_record_id" row.provider_record_id result);
                last_address = address;
                last_update = now;
                updated_at = now;
              })
              later.records;
      }),
      call ∷ [],
    )

unfoldable pub dynamic_dns_update :
    World → ℕ → ℕ → (Db → Db) → Bool → String → Body → ℕ → Db → Outcome
dynamic_dns_update w now at meanwhile fails header body id db = elim (token_from header) [
  | none ↦ (Reply.fail 401 "dynamic DNS bearer token required", db, [])
  | some token ↦ elim (object_of body) [
    | none ↦ (Reply.fail 400 "invalid request", db, [])
    | some data' ↦ elim (check_update w now at token id data' db) [
      | Checked.stop answer after ↦ (answer, after, [])
      | Checked.go row target address ↦ update_row w now at meanwhile fails row target address db
    ]
  ]
]
