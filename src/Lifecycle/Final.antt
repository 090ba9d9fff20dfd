-- ===== src/Lifecycle/Final.antt =====
-- A preview leaves the status `preview` once: every operation of panel/routes_server_lifecycle.py
-- on the table.
use nexvary_panel.Base.{ℕ, ◌≡◌, ◌⊎◌, false, some}
use nexvary_panel.Base.Lists.{find}
use nexvary_panel.Base.Json.{Json, Fields, Body}
use nexvary_panel.Web.{Context}
use nexvary_panel.Lifecycle.Store.{Status, is_preview, Preview, Db, Call}
use nexvary_panel.Lifecycle.Preview.{Digest, hostname_preview, maintenance_preview, expire_previews}
use nexvary_panel.Lifecycle.Apply.{
  row_has_id, apply_kind, maintenance_apply, maintenance_cancel, enable_ntp,
}

-- One operation on the table, from whatever session, with whatever the server answers. An apply is
-- one step where nothing comes between its two transactions; `finish` is the second transaction of
-- an apply of which the first one read a row at some earlier time, whatever has happened since.
pub data Change (db : Db) : Db → Type 0 where
  host :
      (server : Call → Fields) (d : Digest) (c : Context) (body : Body)
      → Change db (hostname_preview server d c body db).1
  plan :
      (server : Call → Fields) (d : Digest) (c : Context) (clock : ℕ) (body : Body)
      → Change db (maintenance_preview server d c clock body db).1
  list : (now : ℕ) → Change db (expire_previews now db)
  apply :
      (server : Call → Fields) (d : Digest) (c : Context) (clock id : ℕ)
      → Change db (maintenance_apply server d c clock id db).1
  cancel : (c : Context) (id : ℕ) → Change db (maintenance_cancel c id db).1
  ntp : (server : Call → Fields) (c : Context) → Change db (enable_ntp server c db).1
  finish :
      (server : Call → Fields) (d : Digest) (c : Context) (clock : ℕ) (row : Preview)
      (snapshot : Json)
      → Change db (apply_kind server d c clock row snapshot db).1

pub data Changes (db : Db) : Db → Type 0 where
  here : Changes db db
  next : {db' db'' : Db} → Changes db db' → Change db' db'' → Changes db db''

module _ (id : ℕ) (r : Preview) (past : is_preview r.status ≡ false) where
  -- A row of the id that is no preview stays what is found.
  abbrev Stays : Db → Type 0
  Stays db = find (row_has_id id) db.previews ≡ some r

  -- The row is as it was, or an apply has marked it as applied at some time.
  abbrev Kept : Db → Type 0
  Kept db =
      Stays db
      ⊎ ((at : ℕ) × (find (row_has_id id) db.previews
            ≡ some (record r { status = Status.applied; applied_at = at })))
