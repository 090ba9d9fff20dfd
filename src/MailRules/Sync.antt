-- ===== src/MailRules/Sync.antt =====
-- `sieve_sync` of agent/mail_sieve.py: the rules of a mailbox, checked, written as a script, compiled
-- and installed, or all put back.
use Prim.Native.Char.{code}
use nexvary_panel.Base.{
  ℕ, String, ◌==◌, Bool, true, false, not, ◌&&◌, ◌||◌, Option, none, some, List, [], ◌∷◌, ◌>>=◌,
  leb, eqb, if◌then◌else◌,
}
use nexvary_panel.Base.Lists.{length}
use nexvary_panel.Base.Text.{chars, any_char, truthy, strip, lower, rstrip_dots}
use nexvary_panel.Base.Sets.{contains, add}
use nexvary_panel.Base.Json.{Json, Items, str_of, truth}
use nexvary_panel.MailRules.Rules.{
  Autoresponder, Filter, Spam, normalize_autoresponder, normalize_filters, normalize_spam,
}
use nexvary_panel.MailRules.Script.{build_script}

-- The files of a mailbox that the function touches; `none` is a file that is not there.
pub record Files : Type 0 where
  pub active : Option String
  pub compiled : Option String
  pub tmp_script : Option String
  pub tmp_bin : Option String

-- The calls of the operating system that may raise, in the order in which they are made; `own` is
-- `chown` with `chmod`. One that raises has done nothing.
pub data Call : Type 0 where
  clear_script : Call
  clear_bin : Call
  find_owner : Call
  make_temp : Call
  write_temp : Call
  own_temp : Call
  run_sievec : Call
  own_bin : Call
  install_script : Call
  install_bin : Call
  own_active : Call
  own_compiled : Call
  restore_script : Call
  restore_bin : Call

-- `sievec` gives the binary of a script, or no binary where it does not accept it; `fails` says
-- which calls raise.
pub record System : Type 0 where
  pub installed : Bool
  pub sievec : String → Option String
  pub fails : Call → Bool

-- How the function ends; `rules` is the answer for rules that are in force, with their numbers.
pub data SyncOutcome : Type 0 where
  cleared : SyncOutcome
  no_provider : SyncOutcome
  rules : ℕ → ℕ → SyncOutcome
  raised : SyncOutcome

-- `s.rsplit("@", 1)[1]`; `none` is an IndexError
unfoldable pub after_at : String → Option String
after_at String.[] = none
after_at (String.◌∷◌ c s) =
    let rest = after_at s in
    elim rest [ none ↦ if eqb (code c) b'@' then some s else none | some d ↦ some d ]

-- `str(value or "").strip().lower().rstrip(".")`
unfoldable pub domain_text : Json → String
domain_text v = rstrip_dots (lower (strip (if truth v then str_of v else "")))

unfoldable pub add_domains : Items → List String → List String
add_domains Items.stop out = out
add_domains (Items.item v l) out =
    let domain = domain_text v in
    add_domains l (
      if truthy domain
        && leb (chars domain) 253
        && not (any_char (λ c. eqb c 0 || eqb c 13 || eqb c 10) domain)
      then add domain out
      else out)

-- the domains to which no global filter may redirect
unfoldable pub protected_domains : String → Json → Option (List String)
protected_domains address (Json.list s l) = do
  own ← after_at address
  some (add_domains l (rstrip_dots (lower own) ∷ []))
protected_domains address v = do own ← after_at address; some (rstrip_dots (lower own) ∷ [])

-- whether a filter sends mail back to one of the domains; `none` is an IndexError
unfoldable pub loops : List String → List Filter → Option Bool
loops domains [] = some false
loops domains (f ∷ fs) =
    let rest = loops domains fs in
    if f.action == "redirect"
    then (elim (after_at f.destination) [
      | none ↦ none
      | some domain ↦ if contains domains (rstrip_dots (lower domain)) then some true else rest
    ])
    else rest

-- The exception handler: the old files are put back, then the temporary ones are removed.
unfoldable pub restore : System → Option String → Option String → Files → Files
restore sys old_script old_bin files =
    if sys.fails Call.restore_script
    then record files { tmp_script = none; tmp_bin = none }
    else if sys.fails Call.restore_bin
    then record files { active = old_script; tmp_script = none; tmp_bin = none }
    else record { active = old_script; compiled = old_bin; tmp_script = none; tmp_bin = none }

-- from `os.replace(tmp_bin, compiled)` on
unfoldable pub install_compiled : System → String → Files → Bool × Files
install_compiled sys binary files = if sys.fails Call.install_bin then (false, files) else (
  not (sys.fails Call.own_active) && not (sys.fails Call.own_compiled),
  record files { compiled = some binary; tmp_bin = none },
)

-- from the `chown` of the binary on
unfoldable pub install : System → String → String → Files → Bool × Files
install sys script binary files =
    if sys.fails Call.own_bin
    then (false, files)
    else if sys.fails Call.install_script
    then (false, files)
    else install_compiled sys binary (record files { active = some script; tmp_script = none })

-- from the run of the compiler on
unfoldable pub compile : System → String → Files → Bool × Files
compile sys script files =
    if sys.fails Call.run_sievec then (false, files) else elim (sys.sievec script) [
      | none ↦ (false, files)
      | some binary ↦ install sys script binary (record files { tmp_bin = some binary })
    ]

-- the `try` block: whether it ends, and the files then
unfoldable pub try_install : System → String → Files → Bool × Files
try_install sys script files =
    if sys.fails Call.make_temp
    then (false, files)
    else if sys.fails Call.write_temp
    then (false, record files { tmp_script = some "" })
    else if sys.fails Call.own_temp
    then (false, record files { tmp_script = some script })
    else compile sys script (record files { tmp_script = some script })

unfoldable pub install_script_of : System → String → Files → Bool × Files
install_script_of sys script files =
    let tried = try_install sys script files in
    if tried.0 then tried else (false, restore sys files.active files.compiled tried.1)

-- No rules: the two files are removed.
unfoldable pub clear : System → Files → SyncOutcome × Files
clear sys files =
    if sys.fails Call.clear_script
    then (SyncOutcome.raised, files)
    else if sys.fails Call.clear_bin
    then (SyncOutcome.raised, record files { active = none })
    else (SyncOutcome.cleared, record files { active = none; compiled = none })

-- from the lookup of the owner of the mailboxes on
unfoldable pub install_rules : System → String → ℕ → ℕ → Files → SyncOutcome × Files
install_rules sys script own global files =
    if sys.fails Call.find_owner
    then (SyncOutcome.raised, files)
    else let installed = install_script_of sys script files in
      (if installed.0 then SyncOutcome.rules own global else SyncOutcome.raised, installed.1)

-- The rules, checked. The provider is asked for before the script is built.
unfoldable pub sync_rules :
    System → Autoresponder → List Filter → Spam → List Filter → Files → SyncOutcome × Files
sync_rules sys auto filters spam global_filters files =
    if not auto.enabled
      && eqb (length filters) 0
      && eqb (length global_filters) 0
      && not spam.enabled
    then clear sys files
    else if not sys.installed
    then (SyncOutcome.no_provider, files)
    else elim (build_script auto filters spam global_filters) [
      | none ↦ (SyncOutcome.raised, files)
      | some script ↦ install_rules sys script (length filters) (length global_filters) files
    ]

-- What is asked for, checked: the four parts, or an exception.
pub record Asked : Type 0 where
  pub auto : Autoresponder
  pub filters : List Filter
  pub spam : Spam
  pub global_filters : List Filter

abbrev pub unless : Bool → Asked → Option Asked
unless bad asked = if bad then none else some asked

-- `v if v is not None else []`
abbrev pub or_empty : Json → Json
or_empty Json.null = Json.list "[]" Items.stop
or_empty v = v

unfoldable pub check_asked : String → Json → Json → Json → Json → Json → Option Asked
check_asked address autoresponder filters spam global_filters global_domains = do
  auto ← normalize_autoresponder autoresponder
  own ← normalize_filters filters false
  global ← normalize_filters (or_empty global_filters) true
  policy ← normalize_spam spam
  domains ← protected_domains address global_domains
  looping ← loops domains global
  unless looping (record { auto = auto; filters = own; spam = policy; global_filters = global })

-- `sieve_sync`. `home` is `_mailbox_home`: the address of a mailbox whose directory is as it should
-- be. `links` says that one of the two files is a symbolic link.
unfoldable pub sieve_sync :
    System
    → (String → Option String)
    → Bool
    → String
    → Json
    → Json
    → Json
    → Json
    → Json
    → Files
    → SyncOutcome × Files
sieve_sync sys home links address autoresponder filters spam global_filters global_domains files =
    elim (home address) [
      | none ↦ (SyncOutcome.raised, files)
      | some mailbox ↦
          elim (check_asked mailbox autoresponder filters spam global_filters global_domains) [
            | none ↦ (SyncOutcome.raised, files)
            | some asked ↦
                if links
                then (SyncOutcome.raised, files)
                else sync_rules sys asked.auto asked.filters asked.spam asked.global_filters files
          ]
    ]
