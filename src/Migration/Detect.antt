-- ===== src/Migration/Detect.antt =====
-- What an archive holds: `_after`, `_discover_domains`, `_sql_candidates`, `_detect_panel` and
-- `_site_prefix` of agent/migration_adapters.py.
use Prim.Native.Char.{code}
use nexvary_panel.Base.{
  ℕ, ◌+◌, ◌-◌, String, ◌==◌, Bool, not, ◌&&◌, ◌||◌, Option, none, some, List, [], ◌∷◌, ◌++◌, map,
  eqb, leb, ltb, if◌then◌else◌, starts_with,
}
use nexvary_panel.Base.Lists.{any, take, length}
use nexvary_panel.Base.Names.{split, is_domain}
use nexvary_panel.Base.Sets.{contains, insert_text}
use nexvary_panel.Base.Text.{◌⧺◌, lower, rstrip_dots}
use nexvary_panel.Migration.Names.{parts_of}
use nexvary_panel.Migration.Archive.{Member}

-- `t in s`, `s.endswith(t)` and `s.split(c, 1)[0]`
unfoldable pub has_text : String → String → Bool
has_text t String.[] = t == ""
has_text t (String.◌∷◌ c s) = starts_with (String.◌∷◌ c s) t || has_text t s

unfoldable pub has_ending : String → String → Bool
has_ending t String.[] = t == ""
has_ending t (String.◌∷◌ c s) = String.◌∷◌ c s == t || has_ending t s

unfoldable pub before_char : ℕ → String → String
before_char k String.[] = String.[]
before_char k (String.◌∷◌ c s) =
    let rest = before_char k s in if eqb (code c) k then String.[] else String.◌∷◌ c rest

-- what follows a start that is equal but for case
unfoldable pub after_start : List String → List String → Option (List String)
after_start [] parts = some parts
after_start (m ∷ marker) [] = none
after_start (m ∷ marker) (p ∷ parts) =
    let rest = after_start marker parts in if lower p == lower m then rest else none

-- `_after`
unfoldable pub after_marker : List String → List String → Option (List String)
after_marker marker [] = after_start marker []
after_marker marker (p ∷ parts) =
    let later = after_marker marker parts in
    elim (after_start marker (p ∷ parts)) [ some tail ↦ some tail | none ↦ later ]

unfoldable pub add_domain : String → List String → List String
add_domain candidate found = if is_domain candidate then insert_text candidate found else found

unfoldable pub domains_in : List String → List String → List String
domains_in [] found = found
domains_in (p ∷ []) found = found
domains_in (p ∷ q ∷ l) found = domains_in (q ∷ l) (
    if lower p == "domains"
    then add_domain (before_char b' ' (rstrip_dots (lower q))) found
    else found)

unfoldable pub userdata_in : List String → List String → List String
userdata_in [] found = found
userdata_in (p ∷ []) found = found
userdata_in (p ∷ q ∷ []) found = found
userdata_in (p ∷ q ∷ r ∷ l) found =
    userdata_in (q ∷ r ∷ l)
      (if lower p == "userdata" then add_domain (rstrip_dots (lower r)) found else found)

unfoldable pub domains_of : List Member → List String → List String
domains_of [] found = found
domains_of (m ∷ ms) found =
    domains_of ms (userdata_in (parts_of m.name) (domains_in (parts_of m.name) found))

-- `_discover_domains`
unfoldable pub discover_domains : List Member → List String
discover_domains members = take 100 (domains_of members [])

abbrev pub sql_folders : List String
sql_folders = "mysql" ∷ "database" ∷ "databases" ∷ "backup" ∷ []

unfoldable pub is_sql : Member → ℕ → Bool
is_sql m rows =
    not m.is_dir
    && has_ending ".sql" (lower m.name)
    && (any (contains sql_folders) (split b'/' (lower m.name)) || ltb rows 5)

unfoldable pub sql_rows : List Member → List String → List String
sql_rows [] rows = rows
sql_rows (m ∷ ms) rows =
    let rest = sql_rows ms (if is_sql m (length rows) then rows ++ m.name ∷ [] else rows) in
    let next = if is_sql m (length rows) then rows ++ m.name ∷ [] else rows in
    if not m.is_dir && leb 100 (length next) then next else rest

-- `_sql_candidates`
unfoldable pub sql_candidates : List Member → List String
sql_candidates members = sql_rows members []

pub data PanelKind : Type 0 where
  cpanel directadmin plesk unknown : PanelKind

abbrev pub within : String → String → Bool
within t name = has_text t ("/" ⧺ name ⧺ "/")

abbrev pub points : ℕ → Bool → ℕ
points n b = if b then n else 0

unfoldable pub best_of : ℕ → ℕ → ℕ → PanelKind × ℕ
best_of a b c =
    if eqb a 0 && eqb b 0 && eqb c 0
    then (PanelKind.unknown, 0)
    else if leb b a && leb c a
    then (PanelKind.cpanel, a)
    else if leb c b
    then (PanelKind.directadmin, b)
    else (PanelKind.plesk, c)

-- `_detect_panel`
unfoldable pub detect_panel : String → List Member → PanelKind × ℕ
detect_panel filename members =
    let names = map (λ (m : Member). lower m.name) members in
    let file = lower filename in
    best_of
      (points 3 (starts_with file "cpmove-" || starts_with file "backup-")
        + points 4 (any (λ n. within "/homedir/public_html/" n || within "/userdata/" n) names))
      (points 4 (any (λ n. within "/domains/" n && within "/public_html/" n) names)
        + points 2 (any (λ n. within "/backup/" n && has_ending ".conf" n) names))
      (points 2 (any (λ n. has_ending ".xml" n && (has_text "backup" n || has_text "info" n)) names)
        + points 5 (any (λ n. within "/domains/" n && within "/httpdocs/" n) names))

-- `parts[:len(parts) - len(tail)]`
abbrev pub up_to : List String → List String → List String
up_to parts tail = take (length parts - length tail) parts

unfoldable pub prefix_after : List String → List String → Option (List String)
prefix_after marker parts = elim (after_marker marker parts) [
  | none ↦ none
  | some tail ↦ some (up_to parts tail)
]

unfoldable pub either_prefix : Option (List String) → Option (List String) → Option (List String)
either_prefix (some p) q = some p
either_prefix none q = q

-- the root of the website in the path of one member
unfoldable pub prefix_in : PanelKind → Option String → List String → Option (List String)
prefix_in PanelKind.cpanel domain parts = prefix_after ("homedir" ∷ "public_html" ∷ []) parts
prefix_in PanelKind.directadmin (some d) parts =
    prefix_after ("domains" ∷ d ∷ "public_html" ∷ []) parts
prefix_in PanelKind.plesk (some d) parts =
    either_prefix (prefix_after ("domains" ∷ d ∷ "httpdocs" ∷ []) parts)
      (prefix_after (d ∷ "httpdocs" ∷ []) parts)
prefix_in kind domain parts = none

-- `_site_prefix`, of a domain in lower case
unfoldable pub site_prefix : PanelKind → Option String → List Member → Option (List String)
site_prefix kind domain [] = none
site_prefix kind domain (m ∷ ms) =
    let rest = site_prefix kind domain ms in
    if m.is_dir then rest else either_prefix (prefix_in kind domain (parts_of m.name)) rest
