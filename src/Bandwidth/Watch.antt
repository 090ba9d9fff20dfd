-- ===== src/Bandwidth/Watch.antt =====
-- A site's log over time, as agent/bandwidth_accounting.py finds it: the web server writes lines,
-- the log is rotated, and the account is taken now and then.
use nexvary_panel.Base.{ℕ, String, ◌≡◌, ◌⊎◌, true, false, Option, none, some}
use nexvary_panel.Base.Text.{◌⧺◌, chars}
use nexvary_panel.Bandwidth.Log.{ends_line, log_total}
use nexvary_panel.Bandwidth.Account.{LogFile, Usage, content_of, is_rotated, account_domain}
use nexvary_panel.Bandwidth.Scanned.{IsWhole}

-- `log` is all that was written since the account began, and `seen` what of it the account has
-- read. The code has neither.
pub record World : Type 0 where
  pub current : Option LogFile
  pub rotated : Option LogFile
  pub usage : Option Usage
  pub log : String
  pub seen : String

-- what an account reads up to
unfoldable pub log_of : World → String
log_of w = elim w.usage [ none ↦ content_of w.current | some _ ↦ w.log ]

-- The state does not remember the inode.
abbrev pub IsFresh : ℕ → Option Usage → Type 0
IsFresh i none = Unit
IsFresh i (some st) = is_rotated st.inode (some (record { inode = i; content = "" })) ≡ false

-- No line of the month was read while the account was in another month.
abbrev pub IsTimely : String → String → Option Usage → Type 0
IsTimely period seen none = Unit
IsTimely period seen (some st) = (st.period ≡ period) ⊎ (log_total period seen ≡ 0)

-- The server writes whole lines between two accounts. `lose` is a state that cannot be read.
pub data Step (s t : World) : Type 0 where
  write :
      (f : LogFile) (more : String)
      → s.current ≡ some f
      → ends_line more ≡ true
      → t
        ≡ record s { current = some (record f { content = f.content ⧺ more }); log = s.log ⧺ more }
      → Step s t
  rotate :
      (f : LogFile)
      → s.current ≡ some f
      → t ≡ record s { current = none; rotated = some f }
      → Step s t
  create :
      (i : ℕ)
      → s.current ≡ none
      → IsFresh i s.usage
      → t ≡ record s { current = some (record { inode = i; content = "" }) }
      → Step s t
  account :
      (period : String) (now : ℕ) (usage : Usage)
      → IsTimely period s.seen s.usage
      → account_domain period now s.current s.rotated s.usage ≡ some usage
      → t ≡ record s { usage = some usage; log = log_of s; seen = log_of s }
      → Step s t
  lose : t ≡ record s { usage = none } → Step s t

pub data Reach (s : World) : World → Type 0 where
  here : Reach s s
  next : {t u : World} → Reach s t → Step t u → Reach s u

-- no file yet, and no state
unfoldable pub nothing_yet : World
nothing_yet = record { current = none; rotated = none; usage = none; log = ""; seen = "" }

-- Where the part that the account has not read is.
pub data Where (current rotated : Option LogFile) (st : Usage) (unseen : String) : Type 0 where
  same :
      (f : LogFile) (a : String)
      → current ≡ some f
      → st.inode ≡ some f.inode
      → f.content ≡ a ⧺ unseen
      → st.offset ≡ chars a
      → Where current rotated st unseen
  moved :
      (f : LogFile) (a b : String)
      → rotated ≡ some f
      → st.inode ≡ some f.inode
      → f.content ≡ a ⧺ b
      → st.offset ≡ chars a
      → IsWhole b
      → unseen ≡ b ⧺ content_of current
      → is_rotated st.inode current ≡ false
      → Where current rotated st unseen
  lost :
      is_rotated st.inode current ≡ false
      → is_rotated st.inode rotated ≡ false
      → Where current rotated st unseen

-- What a state that claims to be continuous has read, and where the rest is.
pub record IsTracked (w : World) (st : Usage) : Type 0 where
  pub unseen : String
  pub log_parts : w.log ≡ w.seen ⧺ unseen
  pub counted : st.bytes ≡ log_total st.period w.seen
  pub unseen_whole : IsWhole unseen
  pub place : Where w.current w.rotated st unseen

pub record IsSound (w : World) : Type 0 where
  pub current_whole : IsWhole (content_of w.current)
  pub log_whole : IsWhole w.log
  pub seen_whole : IsWhole w.seen
  pub tracked : (st : Usage) → w.usage ≡ some st → st.continuous ≡ true → IsTracked w st
