-- ===== src/Migration/Normalize.antt =====
-- `_choose_sql` and `normalize_import` of agent/migration_adapters.py: what is written below the work
-- directory for a bundle, and the bundle's manifest. `none` is an exception.
use nexvary_panel.Base.{
  ℕ, ◌+◌, ◌-◌, String, ◌==◌, Bool, true, false, not, ◌&&◌, ◌||◌, Option, none, some, List, [], ◌∷◌,
  ◌++◌, ◌>>=◌, eqb, ltb, if◌then◌else◌,
}
use nexvary_panel.Base.Lists.{find, select, length}
use nexvary_panel.Base.Text.{◌⧺◌, truthy, chars, prefix}
use nexvary_panel.Migration.Names.{domain_name, db_name, parts_of}
use nexvary_panel.Migration.Archive.{Member, Format, members_of, max_member}
use nexvary_panel.Migration.Detect.{
  PanelKind, has_ending, before_char, after_start, sql_candidates, site_prefix,
}
use nexvary_panel.Migration.Inspect.{
  Report, given_domain, inspect_import, has, needs_domain, is_unknown,
}

-- What is written: a path below the work directory, the member that it comes from with the size that
-- the archive declares of it, and the bytes that are written.
pub record Write : Type 0 where
  pub path : List String
  pub source : String
  pub is_dir : Bool
  pub size : ℕ
  pub bytes : ℕ

pub record Bundle : Type 0 where
  pub domain : String
  pub database : String
  pub kind : PanelKind
  pub source_domain : Option String
  pub website_files : ℕ
  pub website_bytes : ℕ
  pub database_source : Option String
  pub writes : List Write

-- the last part of a path
unfoldable pub last_part : List String → String
last_part [] = ""
last_part (p ∷ []) = p
last_part (p ∷ q ∷ l) = last_part (q ∷ l)

-- `Path(name).name[:-4]`
unfoldable pub stem_of : String → String
stem_of name = let file = last_part (parts_of name) in prefix (chars file - 4) file

-- whether a dump is of the database
unfoldable pub is_dump_of : String → String → Bool
is_dump_of db name =
    let stem = stem_of name in
    db == stem
    || db == before_char b'.' stem
    || db == before_char b'-' stem
    || has_ending ("_" ⧺ db) stem
    || has_ending ("-" ⧺ db) stem

abbrev pub only : List String → Option String
only (x ∷ []) = some x
only l = none

abbrev pub lifted : Option String → Option (Option String)
lifted none = none
lifted (some x) = some (some x)

-- the dump of the database that is asked for
unfoldable pub named_sql : List String → String → Option (Option String)
named_sql candidates source_db = elim (db_name source_db) [
  | none ↦ none
  | some db ↦ lifted (only (select (is_dump_of db) candidates))
]

-- `_choose_sql`
unfoldable pub choose_sql : List String → Option String → Option (Option String)
choose_sql [] source_db = some none
choose_sql (c ∷ cs) (some db) = if truthy db then named_sql (c ∷ cs) db else some (only (c ∷ cs))
choose_sql (c ∷ cs) none = some (only (c ∷ cs))

-- `_copy_member`: the archive must give as many bytes as it says. `stream` is how many it gives,
-- and they are written before they are counted.
unfoldable pub copy_member : (Member → ℕ) → Member → List String → Option Write
copy_member stream m path =
    if m.is_dir
    then some (record { path = path; source = m.name; is_dir = true; size = m.size; bytes = 0 })
    else if eqb (stream m) m.size
    then some
        (record { path = path; source = m.name; is_dir = false; size = m.size; bytes = stream m })
    else none

-- what follows the root in the path of a member; `none` is a member that is not below it
unfoldable pub below : List String → Member → Option (List String)
below root m = elim (after_start root (parts_of m.name)) [
  | none ↦ none
  | some relative ↦ if eqb (length relative) 0 then none else some relative
]

-- The common path of `site` and of the destination is `site`.
abbrev pub is_site : List String → Bool
is_site [] = false
is_site (p ∷ l) = p == "site"

-- a member below the root, copied
unfoldable pub copy_below : (Member → ℕ) → Member → List String → Option Write
copy_below stream m path = if is_site path then copy_member stream m path else none

-- the members below the root, copied
unfoldable pub copy_site : (Member → ℕ) → List String → List Member → Option (List Write)
copy_site stream root [] = some []
copy_site stream root (m ∷ ms) =
    let rest = copy_site stream root ms in
    elim (below root m) [
      | none ↦ rest
      | some relative ↦ elim (copy_below stream m ("site" ∷ relative)) [
        | none ↦ none
        | some w ↦ elim rest [ none ↦ none | some ws ↦ some (w ∷ ws) ]
      ]
    ]

unfoldable pub count_files : List Write → ℕ
count_files [] = 0
count_files (w ∷ ws) = (if w.is_dir then 0 else 1) + count_files ws

-- `copied_bytes`, of what the archive declares of the files
unfoldable pub sum_bytes : List Write → ℕ
sum_bytes [] = 0
sum_bytes (w ∷ ws) = (if w.is_dir then 0 else w.size) + sum_bytes ws

-- the dump, copied, where a database is asked for
unfoldable pub copy_sql : (Member → ℕ) → String → Option String → List Member → Option (List Write)
copy_sql stream database none members = if truthy database then none else some []
copy_sql stream database (some sql) members =
    if truthy database
    then (elim (find (λ (m : Member). m.name == sql && not m.is_dir) members) [
      | none ↦ none
      | some m ↦
          if ltb max_member m.size
          then none
          else elim (copy_member stream m ("database.sql" ∷ [])) [
            | none ↦ none
            | some w ↦ some (w ∷ [])
          ]
    ])
    else some []

-- `_db(target_db) if target_db else ""`
unfoldable pub given_db : Option String → Option String
given_db none = some ""
given_db (some s) = if truthy s then db_name s else some ""

-- a root that is not empty
unfoldable pub found_root : Option (List String) → Option (List String)
found_root none = none
found_root (some []) = none
found_root (some (p ∷ l)) = some (p ∷ l)

abbrev pub unless : Bool → Option (Unit {0})
unless bad = if bad then none else some tt

-- The manifest comes from no member: its bytes are not counted.
abbrev pub manifest_write : Write
manifest_write = record {
  path = "manifest.json" ∷ [];
  source = "";
  is_dir = false;
  size = 0;
  bytes = 0;
}

-- the bundle of the members of an archive
unfoldable pub bundle_of :
    (Member → ℕ)
    → String
    → String
    → Option String
    → Option String
    → Report
    → List Member
    → Option Bundle
bundle_of stream domain database source_domain source_db report members = do
  root ← found_root (site_prefix report.kind source_domain members)
  site ← copy_site stream root members
  filled ← unless (eqb (count_files site) 0)
  sql ← choose_sql (sql_candidates members) source_db
  dump ← copy_sql stream database sql members
  some (record {
    domain = domain;
    database = database;
    kind = report.kind;
    source_domain = source_domain;
    website_files = count_files site;
    website_bytes = sum_bytes site;
    database_source = sql;
    writes = site ++ (dump ++ manifest_write ∷ []);
  })

-- `normalize_import`
unfoldable pub normalize_import :
    (Member → ℕ)
    → String
    → Format
    → String
    → Option String
    → Option String
    → Option String
    → Option Bundle
normalize_import stream filename archive target_domain source_domain source_db target_db = do
  domain ← domain_name target_domain
  asked ← given_domain source_domain
  database ← given_db target_db
  report ← inspect_import filename archive asked
  known ← unless (is_unknown report.kind)
  chosen ← unless (needs_domain report.kind && not (has report.selected_domain))
  members ← members_of archive
  bundle_of stream domain database report.selected_domain source_db report members
