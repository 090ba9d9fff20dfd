-- ===== src/Lifecycle/Apply.antt =====
-- Applying and cancelling previews, and the clock: the routes of panel/routes_server_lifecycle.py
-- behind their decorators. An apply also gives the calls that it made and that change the server,
-- in their order.
use Prim.Native.String.{◌++◌ as ◌+++◌}
use nexvary_panel.Base.{
  ℕ, String, ◌==◌, Bool, not, ◌&&◌, ◌||◌, Option, none, some, List, [], ◌∷◌, ltb, eqb,
  if◌then◌else◌, Reply, NoBody,
}
use nexvary_panel.Base.Int.{ℤ, pos}
use nexvary_panel.Base.Lists.{find, update}
use nexvary_panel.Base.Text.{prefix, truthy}
use nexvary_panel.Base.Json.{Json, Fields, get_or, text_of, flag, int_of, truth, show_ℕ, show_ℤ}
use nexvary_panel.Web.{Context, audit_row}
use nexvary_panel.Lifecycle.Store.{
  Status, is_preview, Preview, Db, Call, is_hostname, normal_host, error_of,
}
use nexvary_panel.Lifecycle.Preview.{Snapshot, snapshot_for, Digest, hostname_fingerprint}

-- what a successful apply answers with
pub data Applied : Type 0 where
  updates : Bool → ℤ → ℤ → Bool → String → Applied
  hostname : String → String → Applied

abbrev pub Outcome : Type 0
Outcome = Reply Applied × Db × List Call

abbrev pub row_has_id : ℕ → Preview → Bool
row_has_id id r = eqb r.id id

-- `UPDATE … SET status='applied',applied_at=? WHERE id=?`
unfoldable pub mark_applied : ℕ → ℕ → Db → Db
mark_applied id now db = record db {
  previews =
      update (row_has_id id) (λ r. record r { status = Status.applied; applied_at = now })
        db.previews;
}

-- `int(result.get(key, 0) or 0)`
unfoldable pub number_of : String → Fields → Option ℤ
number_of key result =
    let v = get_or key (Json.int (pos 0)) result in if truth v then int_of v else some (pos 0)

-- What follows a successful call of the update agent. A count that is no number raises, the first
-- one before the audit.
unfoldable pub updates_done : Context → Preview → Fields → Db → Reply Applied × Db
updates_done c row result db =
    let applied = mark_applied row.id c.now db in
    elim (number_of "applied_count" result) [
      | none ↦ (Reply.raised "ValueError", applied)
      | some count ↦
          let audited : Db = record applied {
            audit =
                audit_row c "server-updates-apply" (
                  "id="
                  +++ show_ℕ row.id
                  +++ " fingerprint="
                  +++ prefix 16 row.fingerprint
                  +++ " applied="
                  +++ show_ℤ count)
                ∷ applied.audit;
          } in
          elim (number_of "remaining_count" result) [
            | none ↦ (Reply.raised "ValueError", audited)
            | some remaining ↦ (
              Reply.done 200 (
                  Applied.updates (flag "changed" result) count remaining
                    (flag "reboot_required" result) (prefix 128 (text_of "fingerprint" "" result))),
              audited,
            )
          ]
    ]

unfoldable pub apply_updates : (Call → Fields) → Digest → Context → ℕ → Preview → Db → Outcome
apply_updates server sha256 c clock row db =
    elim (snapshot_for server sha256 clock "system-updates") [
      | Snapshot.raised ↦ (Reply.raised "ValueError", db, [])
      | Snapshot.refused error ↦ (Reply.fail 503 error, db, [])
      | Snapshot.taken snapshot fingerprint ↦
          let call = Call.updates_apply row.fingerprint in
          let result = server call in
          let error = error_of "system update failed" result in
          let (answer, after) = updates_done c row result db in
          if not (fingerprint == row.fingerprint)
          then (
            Reply.fail 409 "system update plan changed since preview; create a new preview",
            db,
            [],
          )
          else if not (flag "ok" result)
          then (
            Reply.fail (if error == "system-update-preview-stale" then 409 else 503) error,
            db,
            call ∷ [],
          )
          else (answer, after, call ∷ [])
    ]

-- the two host names of a snapshot
abbrev pub desired_host : Fields → String
desired_host snapshot = normal_host (text_of "desired_hostname" "" snapshot)

abbrev pub previewed_host : Fields → String
previewed_host snapshot = normal_host (text_of "current_hostname" "" snapshot)

abbrev pub current_host : (Call → Fields) → String
current_host server = normal_host (text_of "hostname" "" (server Call.overview))

-- the server's host name is the one of the preview
unfoldable pub host_unchanged : (Call → Fields) → Digest → Preview → Fields → Bool
host_unchanged server sha256 row snapshot =
    hostname_fingerprint sha256 (current_host server) == row.fingerprint
    && current_host server == previewed_host snapshot

unfoldable pub apply_hostname : (Call → Fields) → Digest → Context → Preview → Fields → Db → Outcome
apply_hostname server sha256 c row snapshot db =
    let desired = desired_host snapshot in
    let previewed = previewed_host snapshot in
    let overview = server Call.overview in
    let call = Call.hostname_set desired in
    let result = server call in
    let applied = mark_applied row.id c.now db in
    if not (is_hostname desired) || not (truthy previewed)
    then (Reply.fail 409 "maintenance preview snapshot is invalid", db, [])
    else if not (flag "ok" overview)
    then (Reply.fail 503 (error_of "server overview unavailable" overview), db, [])
    else if not (host_unchanged server sha256 row snapshot)
    then (Reply.fail 409 "server hostname changed since preview; create a new preview", db, [])
    else if not (flag "ok" result)
    then (Reply.fail 503 (error_of "hostname change failed" result), db, call ∷ [])
    else (
      Reply.done 200 (
          Applied.hostname (prefix 253 (text_of "hostname" desired result))
            (prefix 253 (text_of "previous_hostname" previewed result))),
      record applied {
        audit =
            audit_row c "server-hostname-apply"
              ("id=" +++ show_ℕ row.id +++ " from=" +++ previewed +++ " to=" +++ desired)
            ∷ applied.audit;
      },
      call ∷ [],
    )

-- Only a host name's snapshot is asked with `get`, which a value that is no object does not have.
unfoldable pub apply_snapshot : (Call → Fields) → Digest → Context → Preview → Json → Db → Outcome
apply_snapshot server sha256 c row (Json.dict s d) db = apply_hostname server sha256 c row d db
apply_snapshot server sha256 c row v db = (Reply.raised "AttributeError", db, [])

-- The branch of the kind, after the checks on the row.
unfoldable pub apply_kind : (Call → Fields) → Digest → Context → ℕ → Preview → Json → Db → Outcome
apply_kind server sha256 c clock row snapshot db =
    if row.kind == "system-updates"
    then apply_updates server sha256 c clock row db
    else if row.kind == "reboot"
    then (
      Reply.fail 409 "reboot execution is intentionally not exposed through the web control plane",
      db,
      [],
    )
    else if not (row.kind == "hostname")
    then (Reply.fail 409 "unsupported maintenance preview kind", db, [])
    else apply_snapshot server sha256 c row snapshot db

-- `UPDATE … SET status='expired' WHERE id=?`
unfoldable pub mark_expired : ℕ → Db → Db
mark_expired id db = record db {
  previews = update (row_has_id id) (λ r. record r { status = Status.expired }) db.previews;
}

unfoldable pub maintenance_apply : (Call → Fields) → Digest → Context → ℕ → ℕ → Db → Outcome
maintenance_apply server sha256 c clock id db = elim (find (row_has_id id) db.previews) [
  | none ↦ (Reply.fail 404 "maintenance preview not found", db, [])
  | some row ↦
      if not (is_preview row.status)
      then (Reply.fail 409 "maintenance preview is not active", db, [])
      else if ltb row.expires_at c.now
      then (Reply.fail 409 "maintenance preview expired", mark_expired id db, [])
      else elim row.snapshot [
        | none ↦ (Reply.fail 409 "maintenance preview snapshot is invalid", db, [])
        | some snapshot ↦ apply_kind server sha256 c clock row snapshot db
      ]
]

unfoldable pub maintenance_cancel : Context → ℕ → Db → Reply NoBody × Db
maintenance_cancel c id db = elim (find (row_has_id id) db.previews) [
  | none ↦ (Reply.fail 404 "maintenance preview not found", db)
  | some row ↦
      if not (is_preview row.status)
      then (Reply.fail 409 "maintenance preview is not active", db)
      else (
        Reply.done 200 tt,
        record db {
          previews =
              update (row_has_id id)
                (λ r. record r { status = Status.cancelled; cancelled_at = c.now }) db.previews;
          audit = audit_row c "server-maintenance-cancel" ("id=" +++ show_ℕ id) ∷ db.audit;
        },
      )
]

-- `server_lifecycle_enable_ntp`
unfoldable pub enable_ntp : (Call → Fields) → Context → Db → Reply Json × Db
enable_ntp server c db =
    let result = server Call.enable_ntp in
    let time = get_or "time" Json.null result in
    if not (flag "ok" result) then (Reply.fail 503 (error_of "NTP enable failed" result), db) else (
      Reply.done 200 (if truth time then time else Json.dict "" Fields.end),
      record db {
        audit = audit_row c "server-time-enable-ntp" "scope=server-lifecycle" ∷ db.audit;
      },
    )
