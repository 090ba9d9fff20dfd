-- ===== src/Lifecycle/Preview.antt =====
-- Making and listing previews: `_snapshot_for`, `_hostname_fingerprint` and the preview and list
-- routes of panel/routes_server_lifecycle.py, behind their decorators.
use Prim.Native.String.{◌++◌ as ◌+++◌}
use nexvary_panel.Base.{
  ◌≡◌, refl, ◌⊎◌, inl, inr, ℕ, ◌+◌, String, ◌==◌, not, ◌&&◌, Option, none, some, [], ◌∷◌, ◌++◌, ltb,
  if◌then◌else◌, Reply,
}
use nexvary_panel.Base.Int.{pos}
use nexvary_panel.Base.Lists.{update}
use nexvary_panel.Base.Text.{prefix, truthy, strip, lower}
use nexvary_panel.Base.Sets.{contains}
use nexvary_panel.Base.Json.{
  Json, Fields, Body, get_or, text_of, flag, int_of, dict_or_empty, list_of, take_items, show_ℕ,
}
use nexvary_panel.Web.{Context, audit_row, user_or, object_of}
use nexvary_panel.Lifecycle.Store.{
  Status, is_preview, Preview, Db, Call, preview_ttl_seconds, maintenance_kinds, is_hostname,
  normal_host, error_of,
}

-- What `_snapshot_for` gives: a snapshot and its fingerprint, an error, or an exception.
pub data Snapshot : Type 0 where
  taken : Fields → String → Snapshot
  refused : String → Snapshot
  raised : Snapshot

pub Snapshot-cases :
    (x : Snapshot)
    → ((f : Fields) × (p : String) × (x ≡ Snapshot.taken f p))
      ⊎ ((e : String) × (x ≡ Snapshot.refused e))
      ⊎ (x ≡ Snapshot.raised)
Snapshot-cases (Snapshot.taken f p) = inl (f, p, refl)
Snapshot-cases (Snapshot.refused e) = inr (inl (e, refl))
Snapshot-cases Snapshot.raised = inr (inr refl)

-- `hashlib.sha256`, of a text and of the JSON of a snapshot
pub record Digest : Type 0 where
  pub text : String → String
  pub json : Fields → String

updates_snapshot : ℕ → Fields → Option Fields
updates_snapshot now result = elim (int_of (get_or "count" (Json.int (pos 0)) result)) [
  | none ↦ none
  | some count ↦ elim (list_of (get_or "packages" Json.null result)) [
    | none ↦ none
    | some packages ↦ elim (int_of (get_or "generated_at" (Json.int (pos now)) result)) [
      | none ↦ none
      | some at ↦ some (
          Fields.field "count" (Json.int count) (
            Fields.field "packages" (Json.list "" (take_items 200 packages)) (
              Fields.field "reboot_required" (Json.bool (flag "reboot_required" result))
                (Fields.field "generated_at" (Json.int at) Fields.end))))
    ]
  ]
]

overview_snapshot : Fields → Option Fields
overview_snapshot result = elim (int_of (get_or "uptime_seconds" (Json.int (pos 0)) result)) [
  | none ↦ none
  | some uptime ↦ some (
      Fields.field "hostname" (Json.str (prefix 253 (text_of "hostname" "" result))) (
        Fields.field "os" (Json.str (prefix 160 (text_of "os" "" result))) (
          Fields.field "kernel" (Json.str (prefix 160 (text_of "kernel" "" result))) (
            Fields.field "uptime_seconds" (Json.int uptime) (
              Fields.field "reboot_required" (Json.bool (flag "reboot_required" result)) (
                Fields.field "time" (Json.dict "" (dict_or_empty (get_or "time" Json.null result)))
                  Fields.end))))))
]

-- `now` is the clock that stands in for a missing `generated_at`.
unfoldable pub snapshot_for : (Call → Fields) → Digest → ℕ → String → Snapshot
unfolding updates_snapshot overview_snapshot
snapshot_for server sha256 now kind =
    if kind == "system-updates"
    then (let result = server Call.updates_preview in
        if not (flag "ok" result)
        then Snapshot.refused (error_of "update preview unavailable" result)
        else elim (updates_snapshot now result) [
          | none ↦ Snapshot.raised
          | some snapshot ↦
              let fingerprint = prefix 128 (text_of "fingerprint" "" result) in
              Snapshot.taken snapshot
                (if truthy fingerprint then fingerprint else sha256.json snapshot)
        ])
    else (let result = server Call.overview in
        if not (flag "ok" result)
        then Snapshot.refused (error_of "server overview unavailable" result)
        else elim (overview_snapshot result) [
          | none ↦ Snapshot.raised
          | some snapshot ↦ Snapshot.taken snapshot (sha256.json snapshot)
        ])

-- `_hostname_fingerprint`, of a text
unfoldable pub hostname_fingerprint : Digest → String → String
hostname_fingerprint sha256 hostname = sha256.text (normal_host hostname)

-- `_provider`, which the four read-only routes answer with
unfoldable pub provider : (Call → Fields) → Call → Reply Fields
provider server action =
    let result = server action in
    if not (flag "ok" result)
    then Reply.fail 503 (error_of "server lifecycle provider unavailable" result)
    else Reply.done 200 result

-- The `INSERT` of a preview and its audit.
unfoldable pub insert_preview : Context → String → String → Fields → String → String → Db → Db
insert_preview c kind fingerprint snapshot action detail db =
    let row : Preview = record {
      id = db.next_id;
      kind = kind;
      fingerprint = fingerprint;
      snapshot = some (Json.dict "" snapshot);
      status = Status.preview;
      requested_by = prefix 64 (user_or "admin" c);
      created_at = c.now;
      expires_at = c.now + preview_ttl_seconds;
      cancelled_at = 0;
      applied_at = 0;
    } in
    record {
      previews = db.previews ++ row ∷ [];
      next_id = db.next_id + 1;
      audit = audit_row c action detail ∷ db.audit;
    }

unfoldable pub hostname_preview_of : (Call → Fields) → Digest → Context → Fields → Db → Reply ℕ × Db
hostname_preview_of server sha256 c data' db =
    let hostname = normal_host (text_of "hostname" "" data') in
    let result = server Call.overview in
    let current = normal_host (text_of "hostname" "" result) in
    if not (is_hostname hostname)
    then (Reply.fail 400 "hostname must be a valid FQDN", db)
    else if not (flag "ok" result)
    then (Reply.fail 503 (error_of "server overview unavailable" result), db)
    else if current == hostname
    then (Reply.fail 409 "requested hostname is already active", db)
    else (
      Reply.done 201 db.next_id,
      insert_preview c "hostname" (hostname_fingerprint sha256 current)
          (Fields.field "current_hostname" (Json.str current)
            (Fields.field "desired_hostname" (Json.str hostname) Fields.end))
          "server-hostname-preview"
          ("id=" +++ show_ℕ db.next_id +++ " from=" +++ current +++ " to=" +++ hostname) db,
    )

-- A body that is no object has no `get`.
unfoldable pub hostname_preview : (Call → Fields) → Digest → Context → Body → Db → Reply ℕ × Db
unfolding hostname_preview_of
hostname_preview server sha256 c body db = elim (object_of body) [
  | none ↦ (Reply.raised "AttributeError", db)
  | some data' ↦ hostname_preview_of server sha256 c data' db
]

unfoldable pub maintenance_preview_of :
    (Call → Fields) → Digest → Context → ℕ → Fields → Db → Reply ℕ × Db
maintenance_preview_of server sha256 c clock data' db =
    let kind = lower (strip (text_of "kind" "" data')) in
    if not (contains maintenance_kinds kind)
    then (Reply.fail 400 "maintenance kind must be system-updates or reboot", db)
    else elim (snapshot_for server sha256 clock kind) [
      | Snapshot.raised ↦ (Reply.raised "ValueError", db)
      | Snapshot.refused error ↦ (Reply.fail 503 error, db)
      | Snapshot.taken snapshot fingerprint ↦ (
        Reply.done 201 db.next_id,
        insert_preview c kind fingerprint snapshot "server-maintenance-preview"
            ("id="
              +++ show_ℕ db.next_id
              +++ " kind="
              +++ kind
              +++ " fingerprint="
              +++ prefix 16 fingerprint)
            db,
      )
    ]

unfoldable pub maintenance_preview :
    (Call → Fields) → Digest → Context → ℕ → Body → Db → Reply ℕ × Db
unfolding maintenance_preview_of
maintenance_preview server sha256 c clock body db = elim (object_of body) [
  | none ↦ (Reply.raised "AttributeError", db)
  | some data' ↦ maintenance_preview_of server sha256 c clock data' db
]

-- What `server_lifecycle_maintenance_list` does to the table before it reads it.
unfoldable pub expire_previews : ℕ → Db → Db
expire_previews now db = record db {
  previews =
      update (λ (r : Preview). is_preview r.status && ltb r.expires_at now)
        (λ r. record r { status = Status.expired }) db.previews;
}
