-- ===== src/Bandwidth/Account.antt =====
-- `account_domain` and `account_all` of agent/bandwidth_accounting.py, over the files that they
-- read and the state that they keep.
use nexvary_panel.Base.{
  ℕ, ◌+◌, String, ◌==◌, Bool, true, false, ◌&&◌, Option, none, some, List, [], ◌∷◌, eqb,
  if◌then◌else◌,
}
use nexvary_panel.Base.Names.{is_domain}
use nexvary_panel.Base.Text.{chars}
use nexvary_panel.Base.Sets.{lookup, insert, remove}
use nexvary_panel.Bandwidth.Log.{scan}

-- a regular file: a log that is missing, or is a link, is `none`
pub record LogFile : Type 0 where
  pub inode : ℕ
  pub content : String

-- the state that is kept for a domain
pub record Usage : Type 0 where
  pub period : String
  pub bytes : ℕ
  pub complete : Bool
  pub continuous : Bool
  pub inode : Option ℕ
  pub offset : ℕ
  pub updated_at : ℕ
  pub reason : String

abbrev pub is_inode : Option ℕ → ℕ → Bool
is_inode none i = false
is_inode (some j) i = eqb j i

-- What a scan of the files gives: what is added to the total, and where the next scan starts.
unfoldable pub sum_scans : Option (ℕ × ℕ) → Option (ℕ × ℕ) → Option (ℕ × ℕ)
sum_scans none b = none
sum_scans (some a) none = none
sum_scans (some a) (some b) = some (a.0 + b.0, b.1)

unfoldable pub unavailable : String → ℕ → Usage
unavailable period now = record {
  period = period;
  bytes = 0;
  complete = false;
  continuous = false;
  inode = none;
  offset = 0;
  updated_at = now;
  reason = "current-log-unavailable";
}

-- the state after a scan that has raised or not
unfoldable pub scanned : String → ℕ → LogFile → ℕ → Bool → Bool → String → Option (ℕ × ℕ) → Usage
scanned period now current total complete continuous reason none = record {
  period = period;
  bytes = total;
  complete = false;
  continuous = false;
  inode = some current.inode;
  offset = chars current.content;
  updated_at = now;
  reason = "scan-gap-detected";
}
scanned period now current total complete continuous reason (some (added, end')) = record {
  period = period;
  bytes = total + added;
  complete = complete;
  continuous = continuous;
  inode = some current.inode;
  offset = end';
  updated_at = now;
  reason = reason;
}

-- no state, or one that cannot be read
unfoldable pub first_account : String → ℕ → LogFile → Option Usage
first_account period now current = elim (scan current.content 0 period) [
  | none ↦ none
  | some (added, end') ↦ some (record {
    period = period;
    bytes = added;
    complete = false;
    continuous = true;
    inode = some current.inode;
    offset = end';
    updated_at = now;
    reason = "tracking-started-mid-period";
  })
]

-- whether the file that was read last is now the rotated one
unfoldable pub is_rotated : Option ℕ → Option LogFile → Bool
is_rotated old_inode none = false
is_rotated old_inode (some f) = is_inode old_inode f.inode

abbrev pub content_of : Option LogFile → String
content_of none = ""
content_of (some f) = f.content

-- the total and the claim of a whole month, before the files are read
unfoldable pub kept_bytes : String → Usage → ℕ
kept_bytes period state = if state.period == period then state.bytes else 0

unfoldable pub kept_complete : String → Usage → Bool
kept_complete period state =
    if state.period == period
    then state.complete
    else state.continuous && elim state.inode [ none ↦ false | some _ ↦ true ]

unfoldable pub next_account : String → ℕ → LogFile → Option LogFile → Usage → Usage
next_account period now current rotated state =
    let total = kept_bytes period state in
    let complete = kept_complete period state in
    if is_inode state.inode current.inode
    then scanned period now current total complete state.continuous "continuous"
        (scan current.content state.offset period)
    else if is_rotated state.inode rotated
    then scanned period now current total complete state.continuous "continuous"
        (sum_scans (scan (content_of rotated) state.offset period) (scan current.content 0 period))
    else scanned period now current total false false "rotation-gap-detected"
        (scan current.content 0 period)

-- `account_domain`, of a valid domain, in the month that the clock shows
unfoldable pub account_domain :
    String → ℕ → Option LogFile → Option LogFile → Option Usage → Option Usage
account_domain period now none rotated state = some (unavailable period now)
account_domain period now (some current) rotated none = first_account period now current
account_domain period now (some current) rotated (some state) =
    some (next_account period now current rotated state)

-- The directory of logs: the names before `.access.log`, with the two files of each.
abbrev pub Logs : Type 0
Logs = List (String × Option LogFile × Option LogFile)

-- `account_all`. A domain whose account raises is passed over.
unfoldable pub account_all : String → ℕ → Logs → List (String × Usage) → List (String × Usage)
account_all period now [] store = store
account_all period now ((name, current, rotated) ∷ logs) store = account_all period now logs (
    if is_domain name
    then (elim (account_domain period now current rotated (lookup name store)) [
      | none ↦ store
      | some usage ↦ insert name usage (remove name store)
    ])
    else store)
