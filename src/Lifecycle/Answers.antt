-- ===== src/Lifecycle/Answers.antt =====
-- What the answer to an apply says of the server and of the preview: `maintenance_apply` of
-- panel/routes_server_lifecycle.py.
use mathlib.Core.Path.{subst}
use nexvary_panel.Lifecycle.Marked.{found_marked, others_kept}
use nexvary_panel.Base.{
  ℕ, sym, ◌≤◌, ◌<◌, false, some, eqb, ◌≡◌, ◌∙◌, ap, ◌⊎◌, inl, inr, refl, String, ◌==◌, true, [],
  ◌∷◌, ltb, arith, Bool-cases, Option-cases, Reply,
}
use nexvary_panel.Base.Lists.{find, find-true}
use nexvary_panel.Base.Json.{Json, Fields, flag}
use nexvary_panel.Web.{Context}
use nexvary_panel.Lifecycle.Store.{Status, is_preview, Preview, Db, Call}
use nexvary_panel.Lifecycle.Preview.{Digest}
use nexvary_panel.Lifecycle.Apply.{
  row_has_id, mark_applied, mark_expired, updates_done, apply_updates, apply_hostname,
  apply_snapshot, apply_kind, maintenance_apply, Applied, Outcome, desired_host,
}

module _ (server : Call → Fields) (d : Digest) (c : Context) (clock : ℕ) where
  done_kind :
      (row : Preview) (snapshot : Json) (db : Db) (code : ℕ) (a : Applied)
      → (apply_kind server d c clock row snapshot db).0 ≡ Reply.done code a
      → ((apply_kind server d c clock row snapshot db).1.previews
          ≡ (mark_applied row.id c.now db).previews)
  unfolding apply_kind apply_updates updates_done apply_snapshot apply_hostname
  done_kind row snapshot db code a h = ground arith

  fail_kind :
      (row : Preview) (snapshot : Json) (db : Db) (code : ℕ) (error : String)
      → (apply_kind server d c clock row snapshot db).0 ≡ Reply.fail code error
      → (apply_kind server d c clock row snapshot db).1 ≡ db
  unfolding apply_kind apply_updates updates_done apply_snapshot apply_hostname
  fail_kind row snapshot db code error h = ground arith

  -- The one call of an outcome succeeded.
  abbrev pub Succeeded : Outcome → Type 0
  Succeeded o = (call : Call) × (o.2 ≡ call ∷ []) × (flag "ok" (server call) ≡ true)

  ok_updates :
      (row : Preview) (db : Db) (code : ℕ) (a : Applied)
      → (apply_updates server d c clock row db).0 ≡ Reply.done code a
      → Succeeded (apply_updates server d c clock row db)
  unfolding apply_updates
  ok_updates row db code a h = (Call.updates_apply row.fingerprint, ground arith, ground arith)

  ok_snapshot :
      (row : Preview) (snapshot : Json) (db : Db) (code : ℕ) (a : Applied)
      → (apply_snapshot server d c row snapshot db).0 ≡ Reply.done code a
      → Succeeded (apply_snapshot server d c row snapshot db)
  unfolding apply_snapshot apply_hostname
  ok_snapshot row (Json.dict s x) db code a h =
      (Call.hostname_set (desired_host x), ground arith, ground arith)
  ok_snapshot row Json.null db code a h = absurd (cc)
  ok_snapshot row (Json.bool b) db code a h = absurd (cc)
  ok_snapshot row (Json.int n) db code a h = absurd (cc)
  ok_snapshot row (Json.number s t n) db code a h = absurd (cc)
  ok_snapshot row (Json.str s) db code a h = absurd (cc)
  ok_snapshot row (Json.list s l) db code a h = absurd (cc)

  ok_kind :
      (row : Preview) (snapshot : Json) (db : Db) (code : ℕ) (a : Applied)
      → (apply_kind server d c clock row snapshot db).0 ≡ Reply.done code a
      → Succeeded (apply_kind server d c clock row snapshot db)
  unfolding apply_kind
  ok_kind row snapshot db code a h = elim (Bool-cases (row.kind == "system-updates")) [
    | inl updates ↦ rw updates (ok_updates row db code a (rw updates at h))
    | inr other ↦ elim (Bool-cases (row.kind == "reboot")) [
      | inl reboot ↦ absurd (cc (rw (other, reboot) at h))
      | inr not_reboot ↦ elim (Bool-cases (row.kind == "hostname")) [
        | inr unknown ↦ absurd (cc (rw (other, not_reboot, unknown) at h))
        | inl host ↦
            rw (other, not_reboot, host)
              (ok_snapshot row snapshot db code a (rw (other, not_reboot, host) at h))
      ]
    ]
  ]

  -- After the operation the row of the id is `changed`, and every other id has the row that it had.
  abbrev pub RowIs : ℕ → Preview → Db → Db → Type 0
  RowIs id changed db after =
      (find (row_has_id id) after.previews ≡ some changed)
      × ((other : ℕ)
          → eqb other id ≡ false
          → find (row_has_id other) after.previews ≡ find (row_has_id other) db.previews)

  applied-RowIs :
      (id now : ℕ) (db after : Db) (row : Preview)
      → find (row_has_id id) db.previews ≡ some row
      → after.previews ≡ (mark_applied id now db).previews
      → RowIs id (record row { status = Status.applied; applied_at = now }) db after
  unfolding mark_applied
  applied-RowIs id now db after row found same = (
    ap (find (row_has_id id)) same ∙ found_marked id _ (λ r. refl) db.previews found,
    λ other apart.
        ap (find (row_has_id other)) same ∙ others_kept id _ (λ r. refl) other apart db.previews,
  )

  expired-RowIs :
      (id : ℕ) (db : Db) (row : Preview)
      → find (row_has_id id) db.previews ≡ some row
      → RowIs id (record row { status = Status.expired }) db (mark_expired id db)
  unfolding mark_expired
  expired-RowIs id db row found = (
    found_marked id _ (λ r. refl) db.previews found,
    λ other apart. others_kept id _ (λ r. refl) other apart db.previews,
  )

  preview_lem : (s : Status) → is_preview s ≡ true → s ≡ Status.preview
  preview_lem Status.preview h = refl
  preview_lem Status.expired h = absurd (cc h)
  preview_lem Status.applied h = absurd (cc h)
  preview_lem Status.cancelled h = absurd (cc h)

  -- the one call succeeded, and the preview, active until then, is applied
  abbrev pub IsMarked : ℕ → Db → Outcome → Type 0
  IsMarked id db o =
      Succeeded o
      × ((row : Preview) × (find (row_has_id id) db.previews ≡ some row)
          × (row.status ≡ Status.preview)
          × (c.now ≤ row.expires_at)
          × RowIs id (record row { status = Status.applied; applied_at = c.now }) db o.1)

  -- An apply that runs undisturbed and is answered as done found a preview that was active and not
  -- past its time, made one call, which the server answered as done, and left the preview with the
  -- status applied and the time of the request, and the rows of all other ids as they were.
  pub done_marks :
      (id : ℕ) (db : Db) (code : ℕ) (a : Applied)
      → (maintenance_apply server d c clock id db).0 ≡ Reply.done code a
      → IsMarked id db (maintenance_apply server d c clock id db)
  unfolding maintenance_apply
  done_marks id db code a h = elim (Option-cases (find (row_has_id id) db.previews)) [
    | inl missing ↦ absurd (cc (rw (maintenance_apply, missing) at h))
    | inr (row, found) ↦ elim (Bool-cases (is_preview row.status)) [
      | inr closed ↦ absurd (cc (rw (maintenance_apply, found, closed) at h))
      | inl active ↦ elim (Bool-cases (ltb row.expires_at c.now)) [
        | inl late ↦ absurd (cc (rw (maintenance_apply, found, active, late) at h))
        | inr in_time ↦ elim (Option-cases row.snapshot) [
          | inl broken ↦ absurd (cc (rw (maintenance_apply, found, active, in_time, broken) at h))
          | inr (snapshot, read) ↦
              let k = rw (maintenance_apply, found, active, in_time, read) at h in
              let same : row.id ≡ id =
                ground (arith, find-true (row_has_id id) db.previews found) in
              let e : maintenance_apply server d c clock id db
                  ≡ apply_kind server d c clock row snapshot db =
                simp (maintenance_apply, found, active, in_time, read) refl in
              let facts : IsMarked id db (apply_kind server d c clock row snapshot db) = (
                ok_kind row snapshot db code a k,
                (
                  row,
                  found,
                  preview_lem row.status active,
                  ground (arith, in_time),
                  applied-RowIs id c.now db (apply_kind server d c clock row snapshot db).1 row
                      found
                      (done_kind row snapshot db code a k
                        ∙ ap (λ i. (mark_applied i c.now db).previews) same),
                ),
              ) in
              subst (IsMarked id db) (sym e) facts
        ]
      ]
    ]
  ]

  -- An apply that runs undisturbed and is refused leaves the tables as they were; or it found a
  -- preview that was active and past its time, and left it with the status expired, and the rows of
  -- all other ids as they were.
  pub refusal_keeps :
      (id : ℕ) (db : Db) (code : ℕ) (error : String)
      → (maintenance_apply server d c clock id db).0 ≡ Reply.fail code error
      → ((maintenance_apply server d c clock id db).1 ≡ db)
        ⊎ ((row : Preview) × (find (row_has_id id) db.previews ≡ some row)
            × (row.status ≡ Status.preview)
            × (row.expires_at < c.now)
            × RowIs id
                (record row { status = Status.expired })
                db
                (maintenance_apply server d c clock id db).1)
  unfolding maintenance_apply
  refusal_keeps id db code error h = elim (Option-cases (find (row_has_id id) db.previews)) [
    | inl missing ↦ inl (rw (maintenance_apply, missing) refl)
    | inr (row, found) ↦ elim (Bool-cases (is_preview row.status)) [
      | inr closed ↦ inl (rw (maintenance_apply, found, closed) refl)
      | inl active ↦ elim (Bool-cases (ltb row.expires_at c.now)) [
        | inl late ↦ inr (
          row,
          found,
          preview_lem row.status active,
          ground (arith, late),
          rw (maintenance_apply, found, active, late) (expired-RowIs id db row found),
        )
        | inr in_time ↦ elim (Option-cases row.snapshot) [
          | inl broken ↦ inl (rw (maintenance_apply, found, active, in_time, broken) refl)
          | inr (snapshot, read) ↦ inl (
              rw (maintenance_apply, found, active, in_time, read)
                (fail_kind row snapshot db code error
                  (rw (maintenance_apply, found, active, in_time, read) at h)))
        ]
      ]
    ]
  ]
