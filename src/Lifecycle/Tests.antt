-- ===== src/Lifecycle/Tests.antt =====
-- Runs of the maintenance routes, and their theorems at inputs where they apply. The digest of a
-- text here is the text.
use nexvary_panel.Base.{◌<◌, ℕ, ◌≡◌, refl, ◌⊎◌, true, some, [], NoBody}
use nexvary_panel.Base.Lists.{find, update}
use nexvary_panel.Base.Text.{
  chars, all_chars, prefix, strip, lstrip, rstrip, rstrip_dots, lower, is_space,
}
use nexvary_panel.Base.Names.{is_label, split, starts_with_char, ends_with_char}
use nexvary_panel.Base.Json.{
  Json, Fields, Body, get, get_or, text_of, flag, int_of, str_of, truth, show_ℕ, list_of,
  take_items, dict_or_empty,
}
use nexvary_panel.Base.Sets.{contains}
use nexvary_panel.Web.{Context, audit_row}
use nexvary_panel.Lifecycle.Store.{Status, Preview, Db, Call, is_hostname, normal_host, error_of}
use nexvary_panel.Lifecycle.Preview.{
  Digest, snapshot_for, hostname_fingerprint, hostname_preview, hostname_preview_of, insert_preview,
  maintenance_preview, maintenance_preview_of, expire_previews,
}
use nexvary_panel.Lifecycle.Apply.{
  row_has_id, mark_applied, mark_expired, number_of, updates_done, apply_updates, host_unchanged,
  apply_hostname, apply_snapshot, apply_kind, maintenance_apply, maintenance_cancel, enable_ntp,
  Applied,
}
use nexvary_panel.Lifecycle.Answers.{IsMarked, RowIs, done_marks, refusal_keeps}

unfold_all : NoBody
unfolding contains find update chars all_chars prefix strip lstrip rstrip rstrip_dots lower is_space
    is_label split starts_with_char ends_with_char get get_or text_of flag int_of str_of truth
    show_ℕ list_of take_items dict_or_empty audit_row is_hostname normal_host error_of snapshot_for
    hostname_fingerprint hostname_preview hostname_preview_of insert_preview maintenance_preview
    maintenance_preview_of expire_previews mark_applied mark_expired number_of updates_done
    apply_updates host_unchanged apply_hostname apply_snapshot apply_kind maintenance_apply
    maintenance_cancel enable_ntp
unfold_all = tt

abbrev digest : Digest
digest = record { text = λ s. s; json = λ d. "plan" }

abbrev at : ℕ → Context
at now = record {
  caller = record { user = some "root"; role = some "admin" };
  now = now;
  audited = now;
  ip = "::1";
}

abbrev empty : Db
empty = record { previews = []; next_id = 1; audit = [] }

abbrev server : Call → Fields
server Call.overview =
    Fields.field "ok" (Json.bool true) (Fields.field "hostname" (Json.str "old.example") Fields.end)
server (Call.updates_apply f) =
    Fields.field "error" (Json.str "system-update-preview-stale") Fields.end
server c = Fields.field "ok" (Json.bool true) Fields.end

abbrev host_body : Body
host_body = Body.object (Fields.field "hostname" (Json.str "New.example.") Fields.end)

abbrev updates_body : Body
updates_body = Body.object (Fields.field "kind" (Json.str "system-updates") Fields.end)

-- preview 1 is of a host name and preview 2 of updates
abbrev previewed : Db
previewed =
    (maintenance_preview server digest (at 1010) 1010 updates_body
      (hostname_preview server digest (at 1000) host_body empty).1).1

abbrev snapshot : Json
snapshot = Json.dict "" (
    Fields.field "current_hostname" (Json.str "old.example")
      (Fields.field "desired_hostname" (Json.str "new.example") Fields.end))

abbrev host_row : Preview
host_row = record {
  id = 1;
  kind = "hostname";
  fingerprint = "old.example";
  snapshot = some snapshot;
  status = Status.preview;
  requested_by = "root";
  created_at = 1000;
  expires_at = 1900;
  cancelled_at = 0;
  applied_at = 0;
}

found_test : find (row_has_id 1) previewed.previews ≡ some host_row
unfolding unfold_all
found_test = refl

done_marks_example :
    IsMarked server digest
      (at 1500)
      1500
      1
      previewed
      (maintenance_apply server digest (at 1500) 1500 1 previewed)
done_marks_example =
    done_marks server digest (at 1500) 1500 1 previewed 200
      (Applied.hostname "new.example" "old.example") (unfold unfold_all in refl)

refusal_keeps_example :
    let after = (maintenance_apply server digest (at 1911) 1911 2 previewed).1 in
    (after ≡ previewed)
    ⊎ ((row : Preview) × (find (row_has_id 2) previewed.previews ≡ some row)
        × (row.status ≡ Status.preview)
        × (row.expires_at < 1911)
        × RowIs server digest
            (at 1911)
            1911
            2
            (record row { status = Status.expired })
            previewed
            after)
refusal_keeps_example =
    refusal_keeps server digest (at 1911) 1911 2 previewed 409 "maintenance preview expired"
      (unfold unfold_all in refl)

-- the first preview cancelled while its apply is in flight, and then a listing
abbrev cancelled : Db
cancelled = (maintenance_cancel (at 1200) 1 previewed).1

abbrev cancelled_row : Preview
cancelled_row = record host_row { status = Status.cancelled; cancelled_at = 1200 }

abbrev later : Db
later = expire_previews 5000 (apply_kind server digest (at 1300) 1300 host_row snapshot cancelled).1

-- The cancelled preview is applied all the same.
overtaken_test :
    find (row_has_id 1) later.previews
    ≡ some (record cancelled_row { status = Status.applied; applied_at = 1300 })
unfolding unfold_all
overtaken_test = refl
