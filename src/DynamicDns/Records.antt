-- ===== src/DynamicDns/Records.antt =====
-- The routes of panel/routes_dynamic_dns.py for the owner of a record: create, rotate and delete,
-- behind their decorators. A route gives its answer, the tables and the calls that it made of the
-- operations agent, in their order. `meanwhile` is what other requests do to the tables between
-- its two transactions.
use Prim.Native.String.{◌++◌ as ◌+++◌}
use nexvary_panel.Base.{
  ℕ, ◌+◌, String, ◌==◌, Bool, true, not, ◌&&◌, ◌||◌, Option, none, some, List, [], ◌∷◌, ◌++◌, eqb,
  leb, if◌then◌else◌, Reply,
}
use nexvary_panel.Base.Int.{pos}
use nexvary_panel.Base.Lists.{find, select, update, any, count}
use nexvary_panel.Base.Text.{prefix, upper, strip, lower, rstrip_dots}
use nexvary_panel.Base.Names.{is_domain}
use nexvary_panel.Base.Json.{Json, Fields, Body, get_or, text_of, flag, show_ℕ}
use nexvary_panel.Policy.{Caller, feature_allowed}
use nexvary_panel.Web.{Context, audit_row, object_of}
use nexvary_panel.DynamicDns.Store.{Row, Site, Target, Db, Call, World}
use nexvary_panel.DynamicDns.Rules.{
  Valid, hostname_of, address_of, ttl_of, owner_role, site_scope, target_of, provider_payload,
  max_records_per_owner,
}

-- `_rollback`, as the calls that it makes
unfoldable pub rollback : Target → Fields → List Call
rollback target result = elim (get_or "snapshot" Json.null result) [
  | Json.dict s snapshot ↦
      Call.dns_rollback target.provider target.endpoint target.secret_id snapshot ∷ []
  | _ ↦ []
]

abbrev pub Outcome : Type 0
Outcome = Reply String × Db × List Call

-- the fields of a create that have passed the checks of their form
pub record Wanted : Type 0 where
  pub domain : String
  pub record_type : String
  pub hostname : String
  pub address : String
  pub ttl : ℕ

unfoldable pub wanted_fields : World → String → String → Fields → Valid Wanted
wanted_fields w domain record_type data' =
    elim (hostname_of domain (get_or "hostname" (Json.str "@") data')) [
      | Valid.invalid e ↦ Valid.invalid e
      | Valid.valid hostname ↦
          elim (address_of w.ip_address (get_or "address" Json.null data') record_type) [
            | Valid.invalid e ↦ Valid.invalid e
            | Valid.valid address ↦ elim (ttl_of (get_or "ttl" (Json.int (pos 300)) data')) [
              | Valid.invalid e ↦ Valid.invalid e
              | Valid.valid ttl ↦ Valid.valid (record {
                domain = domain;
                record_type = record_type;
                hostname = hostname;
                address = address;
                ttl = ttl;
              })
            ]
          ]
    ]

unfoldable pub wanted_of : World → Fields → Valid Wanted
wanted_of w data' =
    let domain = rstrip_dots (lower (strip (text_of "domain" "" data'))) in
    let record_type = upper (text_of "record_type" "A" data') in
    if not (record_type == "A" || record_type == "AAAA") || not (is_domain domain)
    then Valid.invalid "dynamic DNS supports managed A/AAAA records only"
    else wanted_fields w domain record_type data'

abbrev pub owned_by : String → Row → Bool
owned_by owner r = r.owner == owner

abbrev pub same_record : String → String → String → Row → Bool
same_record domain hostname record_type r =
    r.domain == domain && r.hostname == hostname && r.record_type == record_type

-- the first transaction of a create: the owner and the target, or the answer
pub data Scope : Type 0 where
  granted : String → Target → Scope
  denied : ℕ → String → Scope

unfoldable pub create_scope : Context → Wanted → Db → Scope
create_scope c x db = elim (site_scope c.caller db x.domain) [
  | none ↦ Scope.denied 403 "domain outside your scope"
  | some site ↦
      if not (
        feature_allowed c.caller "domains.dynamic_dns" (some site.owner)
          (some (owner_role db site.owner)) db.policy)
      then Scope.denied 403 "domains.dynamic_dns disabled by hosting policy"
      else if leb max_records_per_owner (count (owned_by site.owner) db.records)
      then Scope.denied 409 "dynamic DNS record limit reached"
      else elim (target_of db x.domain) [
        | none ↦ Scope.denied 409 "DNS zone has no active Cloudflare/PowerDNS binding"
        | some target ↦
            if not target.enabled
            then Scope.denied 409 "DNS zone has no active Cloudflare/PowerDNS binding"
            else if any (same_record x.domain x.hostname x.record_type) db.records
            then Scope.denied 409 "dynamic DNS record already exists"
            else Scope.granted site.owner target
      ]
]

-- `transient`, and the row that is inserted
abbrev pub new_row : World → Context → Wanted → String → Target → String → ℕ → Row
new_row w c x owner target provider_record_id id = record {
  id = id;
  domain = x.domain;
  hostname = x.hostname;
  record_type = x.record_type;
  target_id = target.id;
  provider_record_id = provider_record_id;
  token_hash = w.sha256 w.token;
  ttl = x.ttl;
  last_address = x.address;
  last_update = c.now;
  enabled = true;
  owner = owner;
  created_at = c.now;
  updated_at = c.now;
}

-- The constraints of the table: two UNIQUE ones and the two references. `none` is the
-- IntegrityError.
unfoldable pub insert_row : Row → Db → Option Db
insert_row row db =
    if any (same_record row.domain row.hostname row.record_type) db.records
      || any (λ (r : Row). r.token_hash == row.token_hash) db.records
      || not (any (λ (s : Site). s.domain == row.domain) db.sites)
      || not (any (λ (t : Target). eqb t.id row.target_id) db.targets)
    then none
    else some (record db { records = db.records ++ row ∷ []; next_id = db.next_id + 1 })

unfoldable pub create_row : World → Context → (Db → Db) → Wanted → String → Target → Db → Outcome
create_row w c meanwhile x owner target db =
    let call =
      Call.dns_apply
        (provider_payload (new_row w c x owner target "" 0) target "create" x.address) in
    let result = w.ops call in
    let later = meanwhile db in
    if not (flag "ok" result)
    then (
      Reply.fail 503 (prefix 180 (text_of "error" "DNS provider rejected dynamic record" result)),
      db,
      call ∷ [],
    )
    else elim (insert_row
        (new_row w c x owner target (prefix 160 (text_of "provider_record_id" "" result))
          later.next_id)
        later) [
          | none ↦ (
            Reply.fail 409 "dynamic DNS record already exists",
            later,
            call ∷ rollback target result,
          )
          | some after ↦ (
            Reply.done 201 w.token,
            record after {
              audit =
                  audit_row c "dynamic-dns-create" (
                    "record_id="
                    +++ show_ℕ later.next_id
                    +++ " hostname="
                    +++ x.hostname
                    +++ " type="
                    +++ x.record_type
                    +++ " owner="
                    +++ owner)
                  ∷ after.audit;
            },
            call ∷ [],
          )
        ]

unfoldable pub dynamic_dns_create : World → Context → (Db → Db) → Body → Db → Outcome
dynamic_dns_create w c meanwhile body db = elim (object_of body) [
  | none ↦ (Reply.fail 400 "invalid request", db, [])
  | some data' ↦ elim (wanted_of w data') [
    | Valid.invalid e ↦ (Reply.fail 400 e, db, [])
    | Valid.valid x ↦ elim (create_scope c x db) [
      | Scope.denied code e ↦ (Reply.fail code e, db, [])
      | Scope.granted owner target ↦ create_row w c meanwhile x owner target db
    ]
  ]
]

abbrev pub row_has_id : ℕ → Row → Bool
row_has_id id r = eqb r.id id

-- the row of `record_id`, where its site is in the caller's scope
unfoldable pub row_in_scope : Caller → ℕ → Db → Option Row
row_in_scope s id db = elim (find (row_has_id id) db.records) [
  | none ↦ none
  | some row ↦ elim (site_scope s db row.domain) [ none ↦ none | some site ↦ some row ]
]

unfoldable pub dynamic_dns_rotate : World → Context → ℕ → Db → Reply String × Db
dynamic_dns_rotate w c id db = elim (row_in_scope c.caller id db) [
  | none ↦ (Reply.fail 404 "dynamic DNS record not found", db)
  | some row ↦
      if any (λ (r : Row). r.token_hash == w.sha256 w.token && not (row_has_id id r)) db.records
      then (Reply.raised "IntegrityError", db)
      else (
        Reply.done 200 w.token,
        record db {
          records =
              update (row_has_id id)
                (λ r. record r { token_hash = w.sha256 w.token; updated_at = c.now }) db.records;
          audit =
              audit_row c "dynamic-dns-token-rotate" (
                "record_id="
                +++ show_ℕ id
                +++ " hostname="
                +++ row.hostname
                +++ " owner="
                +++ row.owner)
              ∷ db.audit;
        },
      )
]

-- `fails` is an error of the database in the second transaction.
unfoldable pub delete_row : World → Context → (Db → Db) → Bool → ℕ → Row → Target → Db → Outcome
delete_row w c meanwhile fails id row target db =
    let call = Call.dns_apply (provider_payload row target "delete" row.last_address) in
    let result = w.ops call in
    let later = meanwhile db in
    if not (flag "ok" result)
    then (
      Reply.fail 503 (prefix 180 (text_of "error" "DNS provider rejected delete" result)),
      db,
      call ∷ [],
    )
    else if fails
    then (
      Reply.fail 500 "dynamic DNS metadata delete failed; provider state restored",
      later,
      call ∷ rollback target result,
    )
    else (
      Reply.done 200 "",
      record later {
        records = select (λ r. not (row_has_id id r)) later.records;
        audit =
            audit_row c "dynamic-dns-delete" (
              "record_id="
              +++ show_ℕ id
              +++ " hostname="
              +++ row.hostname
              +++ " owner="
              +++ row.owner)
            ∷ later.audit;
      },
      call ∷ [],
    )

unfoldable pub dynamic_dns_delete : World → Context → (Db → Db) → Bool → ℕ → Db → Outcome
dynamic_dns_delete w c meanwhile fails id db = elim (row_in_scope c.caller id db) [
  | none ↦ (Reply.fail 404 "dynamic DNS record not found", db, [])
  | some row ↦ elim (target_of db row.domain) [
    | none ↦
        (Reply.fail 409 "DNS provider binding changed; rebind before deleting this record", db, [])
    | some target ↦
        if not (eqb target.id row.target_id)
        then (
          Reply.fail 409 "DNS provider binding changed; rebind before deleting this record",
          db,
          [],
        )
        else delete_row w c meanwhile fails id row target db
  ]
]
