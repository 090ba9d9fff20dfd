-- ===== src/Migration/Inspect.antt =====
-- `inspect_import` of agent/migration_adapters.py: what an archive is, and what of it can be moved.
use nexvary_panel.Base.{
  ℕ, ◌+◌, ◌*◌, String, Bool, true, false, not, ◌&&◌, ◌||◌, Option, none, some, List, [], ◌∷◌, ◌++◌,
  ◌>>=◌, map, eqb, ltb, if◌then◌else◌,
}
use nexvary_panel.Base.Lists.{any, length}
use nexvary_panel.Base.Text.{truthy, lower}
use nexvary_panel.Migration.Names.{domain_name}
use nexvary_panel.Migration.Archive.{Member, Format, members_of}
use nexvary_panel.Migration.Detect.{
  PanelKind, within, has_ending, discover_domains, sql_candidates, detect_panel, site_prefix,
}

pub record Report : Type 0 where
  pub kind : PanelKind
  pub confidence : ℕ
  pub archive_kind : String
  pub members : ℕ
  pub expanded_bytes : ℕ
  pub domains : List String
  pub selected_domain : Option String
  pub prefix_path : Option (List String)
  pub candidates : List String
  pub website : Bool
  pub mariadb_sql : Bool
  pub mail_discovery : Bool
  pub dns_discovery : Bool
  pub warnings : List String

-- `if source_domain: source_domain = _domain(source_domain)`
unfoldable pub given_domain : Option String → Option (Option String)
given_domain none = some none
given_domain (some s) =
    if truthy s then (elim (domain_name s) [ none ↦ none | some d ↦ some (some d) ]) else some none

-- the domain that is asked for, or the only one
unfoldable pub selected : Option String → List String → Option String
selected (some d) domains = some d
selected none (d ∷ []) = some d
selected none domains = none

unfoldable pub sum_sizes : List Member → ℕ
sum_sizes [] = 0
sum_sizes (m ∷ ms) = m.size + sum_sizes ms

abbrev pub has {ℓ} : {A : Type ℓ} → Option A → Bool
has none = false
has (some a) = true

abbrev pub needs_domain : PanelKind → Bool
needs_domain PanelKind.directadmin = true
needs_domain PanelKind.plesk = true
needs_domain _ = false

abbrev pub is_plesk : PanelKind → Bool
is_plesk PanelKind.plesk = true
is_plesk _ = false

abbrev pub is_unknown : PanelKind → Bool
is_unknown PanelKind.unknown = true
is_unknown _ = false

abbrev warn : Bool → String → List String
warn b text = if b then text ∷ [] else []

unfoldable pub mail_found : List String → Bool
mail_found names = any (λ n. within "/mail/" n || within "/imap/" n) names

unfoldable pub dns_found : List String → Bool
dns_found names = any (λ n. within "/dns/" n || within "/zones/" n || has_ending ".db" n) names

-- `Archive.kind`
abbrev pub format_name : Format → String
format_name (Format.tar es) = "tar"
format_name (Format.zip es) = "zip"
format_name Format.unsupported = ""

-- the warnings, of the names in lower case
unfoldable pub warnings_of : PanelKind → Bool → Bool → List String → List String
warnings_of kind domain_known root_known names =
    let nested =
      any (λ n. has_ending ".tgz" n || has_ending ".tar.gz" n || has_ending ".zip" n) names in
    warn (is_unknown kind) "backup layout was not recognized as cPanel, DirectAdmin or Plesk"
    ++ (warn (needs_domain kind && not domain_known)
          "select source_domain because the archive contains zero or multiple discoverable domains"
        ++ (warn (not root_known)
              "website document root was not found in the top-level archive layout"
            ++ (warn (is_plesk kind && nested && not root_known)
                  "Plesk content appears nested; compatibility report is available but this archive needs flattening/export before web-root normalization"
                ++ (warn (mail_found names)
                      "mail data detected; 0.8 imports website/database only and does not silently rewrite mailbox state"
                    ++ warn (dns_found names)
                        "DNS data detected; DNS is reported but not auto-applied during migration"))))

-- the report on the members of an archive
unfoldable pub report_of : String → String → Option String → List Member → Report
report_of filename archive_kind domain members =
    let names = map (λ (m : Member). lower m.name) members in
    let found = detect_panel filename members in
    let domains = discover_domains members in
    let chosen = selected domain domains in
    let root = site_prefix found.0 chosen members in
    record {
      kind = found.0;
      confidence = if ltb 100 (found.1 * 20) then 100 else found.1 * 20;
      archive_kind = archive_kind;
      members = length members;
      expanded_bytes = sum_sizes members;
      domains = domains;
      selected_domain = chosen;
      prefix_path = root;
      candidates = sql_candidates members;
      website = has root;
      mariadb_sql = not (eqb (length (sql_candidates members)) 0);
      mail_discovery = mail_found names;
      dns_discovery = dns_found names;
      warnings = warnings_of found.0 (has chosen) (has root) names;
    }

-- `inspect_import`
unfoldable pub inspect_import : String → Format → Option String → Option Report
inspect_import filename archive source_domain = do
  domain ← given_domain source_domain
  members ← members_of archive
  some (report_of filename (format_name archive) domain members)
