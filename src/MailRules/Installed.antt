-- ===== src/MailRules/Installed.antt =====
-- `sieve_sync` of agent/mail_sieve.py changes the files of a mailbox as a whole or not at all.
use nexvary_panel.Base.{String, ◌≡◌, ◌⊎◌, Bool, true, false, not, ◌&&◌, Option, none, some, eqb}
use nexvary_panel.Base.Lists.{length}
use nexvary_panel.Base.Json.{Json}
use nexvary_panel.MailRules.Script.{build_script}
use nexvary_panel.MailRules.Sync.{Files, Call, System, SyncOutcome, Asked}

-- the files with a script, its binary and no temporary file
abbrev pub with_script : String → String → Files
with_script script binary = record {
  active = some script;
  compiled = some binary;
  tmp_script = none;
  tmp_bin = none;
}

abbrev Installs : System → String → Files → Type 0
Installs sys script after =
    (binary : String) × (sys.sievec script ≡ some binary) × (after ≡ with_script script binary)

-- no rule is asked for
abbrev pub asked_nothing : Option Asked → Bool
asked_nothing none = false
asked_nothing (some a) =
    not a.auto.enabled
    && eqb (length a.filters) 0
    && eqb (length a.global_filters) 0
    && not a.spam.enabled

-- How the files may be after a call, by how it ends: rules that are in force are those that were
-- asked for, built, compiled and installed together. An exception leaves the files as they were, but
-- where no rule is asked for and the binary cannot be removed: then the script is gone already.
abbrev pub IsWhole : System → Option Asked → Files → SyncOutcome → Files → Type 0
IsWhole sys asked before SyncOutcome.raised after =
    (after ≡ before)
    ⊎ ((sys.fails Call.clear_bin ≡ true)
        × (asked_nothing asked ≡ true)
        × (after ≡ record before { active = none }))
IsWhole sys asked before SyncOutcome.no_provider after = after ≡ before
IsWhole sys asked before SyncOutcome.cleared after =
    after ≡ record before { active = none; compiled = none }
IsWhole sys asked before (SyncOutcome.rules own global) after =
    (a : Asked) × (script : String) × (asked ≡ some a)
    × (build_script a.auto a.filters a.spam a.global_filters ≡ some script)
    × Installs sys script after

-- the calls that put things back do not fail
abbrev pub Restores : System → Type 0
Restores sys = (sys.fails Call.restore_script ≡ false) × (sys.fails Call.restore_bin ≡ false)

-- no temporary file of an earlier call is there
abbrev pub IsClean : Files → Type 0
IsClean files = (files.tmp_script ≡ none) × (files.tmp_bin ≡ none)
