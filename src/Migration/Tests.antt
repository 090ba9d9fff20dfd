-- ===== src/Migration/Tests.antt =====
-- Runs of agent/migration_adapters.py, and its theorems at an import where they apply.
use nexvary_panel.Base.{
  ℕ, ◌+◌, ◌≤◌, String, ◌==◌, ◌≡◌, refl, NoBody, false, none, some, [], ◌∷◌, if◌then◌else◌,
}
use nexvary_panel.Base.Int.{pos}
use nexvary_panel.Base.Lists.{All, any, find, select}
use nexvary_panel.Base.Names.{split, push, is_domain, is_label, is_top_label, matches}
use nexvary_panel.Base.Sets.{contains}
use nexvary_panel.Base.Text.{
  chars, prefix, suffix, strip, lstrip, rstrip, is_space, lower, rstrip_dots, any_char,
}
use nexvary_panel.Migration.Names.{
  domain_name, db_name, slashes, drop_here, has_drive, parts_of, join_path, safe_parts, safe_name,
}
use nexvary_panel.Migration.Archive.{
  EntryKind, Entry, Member, Format, kind_is_dir, size_in, member_of, collect, entries_of,
  members_of, max_member, max_members, max_expanded,
}
use nexvary_panel.Migration.Detect.{
  PanelKind, has_text, has_ending, before_char, after_start, after_marker, add_domain, domains_in,
  userdata_in, domains_of, discover_domains, is_sql, sql_rows, sql_candidates, best_of,
  detect_panel, prefix_after, either_prefix, prefix_in, site_prefix,
}
use nexvary_panel.Migration.Inspect.{
  given_domain, selected, sum_sizes, mail_found, dns_found, warnings_of, report_of, inspect_import,
}
use nexvary_panel.Migration.Normalize.{
  Bundle, last_part, stem_of, is_dump_of, named_sql, choose_sql, copy_member, below, copy_below,
  copy_site, count_files, sum_bytes, copy_sql, given_db, found_root, bundle_of, normalize_import,
  manifest_write,
}
use nexvary_panel.Migration.Inside.{IsInside, writes-IsInside}
use nexvary_panel.Migration.Sizes.{written, website_bounded}

unfold_all : NoBody
unfolding any is_label is_top_label matches contains find select split push is_domain chars prefix
    suffix strip lstrip rstrip is_space lower rstrip_dots any_char domain_name db_name slashes
    drop_here has_drive parts_of join_path safe_parts safe_name kind_is_dir size_in member_of
    collect entries_of members_of has_text has_ending before_char after_start after_marker
    add_domain domains_in userdata_in domains_of discover_domains is_sql sql_rows sql_candidates
    best_of detect_panel prefix_after either_prefix prefix_in site_prefix given_domain selected
    sum_sizes mail_found dns_found warnings_of report_of inspect_import last_part stem_of is_dump_of
    named_sql choose_sql copy_member below copy_below copy_site count_files sum_bytes copy_sql
    given_db found_root bundle_of normalize_import
unfold_all = tt

abbrev file : String → ℕ → Entry
file name size = record { name = name; size = pos size; kind = EntryKind.file }

abbrev backup : Format
backup = Format.tar (file "./c/homedir/public_html/a.php" 7 ∷ file "c/mysql/shop.sql" 5 ∷ [])

abbrev stream : Member → ℕ
stream m = if m.name == "c/mysql/shop.sql" then 5 else 7

abbrev imported : Bundle
imported = record {
  domain = "a.org";
  database = "shop";
  kind = PanelKind.cpanel;
  source_domain = none;
  website_files = 1;
  website_bytes = 7;
  database_source = some "c/mysql/shop.sql";
  writes =
      record {
        path = "site" ∷ "a.php" ∷ [];
        source = "c/homedir/public_html/a.php";
        is_dir = false;
        size = 7;
        bytes = 7;
      }
      ∷ record {
        path = "database.sql" ∷ [];
        source = "c/mysql/shop.sql";
        is_dir = false;
        size = 5;
        bytes = 5;
      }
      ∷ manifest_write
      ∷ [];
}

safe_test : safe_name ".\\a//b/./c" ≡ some "a/b/c"
unfolding unfold_all
safe_test = refl

up_test : safe_name "a\\..\\b" ≡ none
unfolding unfold_all
up_test = refl

drive_test : safe_name "C:\\b" ≡ none
unfolding unfold_all
drive_test = refl

link_test :
    members_of (Format.tar (record { name = "a"; size = pos 0; kind = EntryKind.link } ∷ [])) ≡ none
unfolding unfold_all
link_test = refl

import_test :
    normalize_import stream "cpmove-c.tar.gz" backup "A.org." none (some "shop") (some "shop")
    ≡ some imported
unfolding unfold_all
import_test = refl

short_test :
    normalize_import (λ m. 5) "cpmove-c.tar.gz" backup "a.org" none none (some "shop") ≡ none
unfolding unfold_all
short_test = refl

writes-IsInside_example : All IsInside imported.writes
writes-IsInside_example =
    writes-IsInside stream "cpmove-c.tar.gz" backup "A.org." none (some "shop") (some "shop")
      {b = imported} import_test

website_bounded_example :
    (imported.website_bytes ≤ max_expanded)
    × (imported.website_files ≤ max_members)
    × (¬ (imported.website_files ≡ 0))
    × (written imported.writes ≤ imported.website_bytes + max_member)
website_bounded_example =
    website_bounded stream "cpmove-c.tar.gz" backup "A.org." none (some "shop") (some "shop")
      {b = imported} import_test
