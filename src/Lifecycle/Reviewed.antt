-- ===== src/Lifecycle/Reviewed.antt =====
-- What an apply asks of the server, and when it marks its preview: `maintenance_apply` of
-- panel/routes_server_lifecycle.py.
use nexvary_panel.Base.{ℕ, ◌≡◌, ◌⊎◌, String, true, some}
use nexvary_panel.Base.Json.{Json, Fields}
use nexvary_panel.Web.{Context}
use nexvary_panel.Lifecycle.Store.{Preview, Call, is_hostname}
use nexvary_panel.Lifecycle.Preview.{Digest, Snapshot, snapshot_for, hostname_fingerprint}
use nexvary_panel.Lifecycle.Apply.{desired_host, previewed_host, current_host}

module _ (server : Call → Fields) (d : Digest) (c : Context) (clock : ℕ) where
  -- The server still is as the preview showed it, and the call is the one that was previewed.
  abbrev pub IsReviewed : Preview → Call → Type 0
  IsReviewed row call =
      ((row.kind ≡ "system-updates")
        × (call ≡ Call.updates_apply row.fingerprint)
        × ((snapshot : Fields) × (snapshot_for server d clock "system-updates"
              ≡ Snapshot.taken snapshot row.fingerprint)))
      ⊎ ((row.kind ≡ "hostname")
          × ((text : String) × (snapshot : Fields) × (row.snapshot ≡ some (Json.dict text snapshot))
              × (call ≡ Call.hostname_set (desired_host snapshot))
              × (is_hostname (desired_host snapshot) ≡ true)
              × (current_host server ≡ previewed_host snapshot)
              × (hostname_fingerprint d (current_host server) ≡ row.fingerprint)))
