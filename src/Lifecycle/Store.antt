-- ===== src/Lifecycle/Store.antt =====
-- The table `server_maintenance_previews` (panel/server_lifecycle_schema.py), and the calls of the
-- server agent that panel/routes_server_lifecycle.py makes.
use nexvary_panel.Base.{ℕ, String, ◌≡◌, refl, Bool, true, false, ◌&&◌, Option, List, [], ◌∷◌, leb}
use nexvary_panel.Base.Json.{Json, Fields, text_of}
use nexvary_panel.Base.Text.{chars, strip, lower, rstrip_dots, prefix}
use nexvary_panel.Base.Names.{split, is_label}
use nexvary_panel.Web.{Audit}

pub data Status : Type 0 where
  preview expired applied cancelled : Status

abbrev pub is_preview : Status → Bool
is_preview Status.preview = true
is_preview s = false

-- A row; `snapshot` is `none` where `snapshot_json` is not JSON.
pub record Preview : Type 0 where
  pub id : ℕ
  pub kind : String
  pub fingerprint : String
  pub snapshot : Option Json
  pub status : Status
  pub requested_by : String
  pub created_at : ℕ
  pub expires_at : ℕ
  pub cancelled_at : ℕ
  pub applied_at : ℕ

-- `next_id` is the AUTOINCREMENT counter.
pub record Db : Type 0 where
  pub previews : List Preview
  pub next_id : ℕ
  pub audit : List Audit

-- the payloads of `server_call`
pub data Call : Type 0 where
  overview network processes updates_preview enable_ntp : Call
  updates_apply : String → Call
  hostname_set : String → Call

-- `PREVIEW_TTL_SECONDS`
abbrev pub preview_ttl_seconds : ℕ
preview_ttl_seconds = 900

-- `MAINTENANCE_KINDS`
abbrev pub maintenance_kinds : List String
maintenance_kinds = "system-updates" ∷ "reboot" ∷ []

all_labels : List String → Bool
all_labels [] = true
all_labels (l ∷ ls) = is_label l && all_labels ls

two_labels : List String → Bool
two_labels (l ∷ m ∷ ls) = all_labels (l ∷ m ∷ ls)
two_labels ls = false

-- `HOSTNAME_RE.fullmatch`
unfoldable pub is_hostname : String → Bool
unfolding all_labels two_labels
is_hostname s = leb (chars s) 253 && two_labels (split b'.' s)

-- `.strip().lower().rstrip(".")`
unfoldable pub normal_host : String → String
normal_host s = rstrip_dots (lower (strip s))

-- `str(result.get("error", default))[:180]`
unfoldable pub error_of : String → Fields → String
error_of default result = prefix 180 (text_of "error" default result)

hostname_test :
    (is_hostname "a.b-2" ≡ true) × (is_hostname "a" ≡ false) × (normal_host " A.b. " ≡ "a.b")
unfolding is_hostname is_label split normal_host lower strip rstrip_dots chars
hostname_test = (refl, refl, refl)
