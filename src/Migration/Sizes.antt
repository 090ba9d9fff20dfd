-- ===== src/Migration/Sizes.antt =====
-- How large a bundle is, by agent/migration_adapters.py.
use Prim.Native.Nat.{suc}
use mathlib.Core.Path.{subst}
use nexvary_panel.Base.{
  ◌==◌, ◌++◌, ℕ, ◌+◌, ◌≤◌, String, ◌≡◌, refl, ap, inl, inr, Bool, true, false, not, ◌&&◌, Option,
  none, some, List, [], ◌∷◌, bind_some, eqb, ltb, if◌then◌else◌, arith, Bool-cases, Option-cases,
}
use nexvary_panel.Base.Lists.{length, find}
use nexvary_panel.Base.Text.{truthy}
use nexvary_panel.Migration.Names.{domain_name}
use nexvary_panel.Migration.Archive.{
  Entry, Member, Format, member_of, collect, entries_of, members_of, max_member, max_members,
  max_expanded,
}
use nexvary_panel.Migration.Detect.{sql_candidates, site_prefix}
use nexvary_panel.Migration.Inspect.{
  Report, given_domain, inspect_import, needs_domain, is_unknown, has, sum_sizes,
}
use nexvary_panel.Migration.Normalize.{
  Write, Bundle, copy_member, below, copy_below, copy_site, count_files, sum_bytes, copy_sql,
  given_db, found_root, choose_sql, unless, manifest_write, bundle_of, normalize_import,
}

collect_sizes :
    (expanded : ℕ) (es : List Entry) {ms : List Member}
    → expanded ≤ max_expanded
    → collect expanded es ≡ some ms
    → (expanded + sum_sizes ms ≤ max_expanded) × (length ms ≡ length es)
unfolding collect sum_sizes
collect_sizes expanded [] {ms} fits h =
    let same : ◌≡◌ {A = List Member} [] ms = cc h in
    subst (λ ms. (expanded + sum_sizes ms ≤ max_expanded) × (length ms ≡ 0)) same
      (omega arith, refl)
collect_sizes expanded (e ∷ es) {ms} fits h = elim (Option-cases (member_of e)) [
  | inl bad ↦ absurd (cc (rw (collect, bad) at h))
  | inr (m, made) ↦ elim (Bool-cases (ltb max_expanded (expanded + m.size))) [
    | inl large ↦ absurd (cc (rw (collect, made, large) at h))
    | inr small ↦ elim (Option-cases (collect (expanded + m.size) es)) [
      | inl bad ↦ absurd (cc (rw (collect, made, small, bad) at h))
      | inr (rest, more) ↦
          let k : some (m ∷ rest) ≡ some ms = rw (collect, made, small, more) at h in
          let same : m ∷ rest ≡ ms = cc k in
          let (total, many) = collect_sizes (expanded + m.size) es (grind (arith, small)) more in
          subst (λ ms. (expanded + sum_sizes ms ≤ max_expanded) × (length ms ≡ length (e ∷ es)))
            same (omega (arith, total), ap suc many)
    ]
  ]
]

members_of_sizes :
    (f : Format) {ms : List Member}
    → members_of f ≡ some ms
    → (sum_sizes ms ≤ max_expanded) × (length ms ≤ max_members)
unfolding members_of
members_of_sizes f {ms} h = elim (Option-cases (entries_of f)) [
  | inl bad ↦ absurd (cc (rw (members_of, bad) at h))
  | inr (es, read) ↦ elim (Bool-cases (ltb max_members (length es))) [
    | inl many ↦ absurd (cc (rw (members_of, read, many) at h))
    | inr few ↦
        let (total, same) = collect_sizes 0 es (omega arith) (rw (members_of, read, few) at h) in
        (omega (arith, total), grind (arith, few, same))
  ]
]

-- the bytes that are written for members, in all
unfoldable pub written : List Write → ℕ
written [] = 0
written (w ∷ ws) = w.bytes + written ws

abbrev IsCounted : ℕ → Write → Type 0
IsCounted size w = (w.bytes ≡ (if w.is_dir then 0 else w.size)) × (w.size ≡ size)

copied-IsCounted :
    (is_dir : Bool) (name : String) (given size : ℕ) (path : List String) {w : Write}
    → (if is_dir
        then some (record { path = path; source = name; is_dir = true; size = size; bytes = 0 })
        else if eqb given size
        then some
            (record { path = path; source = name; is_dir = false; size = size; bytes = given })
        else none)
      ≡ some w
    → IsCounted size w
copied-IsCounted true name given size path {w} h =
    let v : Write = record { path = path; source = name; is_dir = true; size = size; bytes = 0 } in
    let same : v ≡ w = cc h in subst (IsCounted size) same (refl, refl)
copied-IsCounted false name given size path {w} h = elim (Bool-cases (eqb given size)) [
  | inr short ↦ absurd (cc (rw short at h))
  | inl whole ↦
      let v : Write = record {
        path = path;
        source = name;
        is_dir = false;
        size = size;
        bytes = given;
      } in
      let k : some v ≡ some w = rw whole at h in
      let same : v ≡ w = cc k in
      let equal : given ≡ size = ground (arith, whole) in subst (IsCounted size) same (equal, refl)
]

copy_member_bytes :
    (stream : Member → ℕ) (m : Member) (path : List String) {w : Write}
    → copy_member stream m path ≡ some w
    → IsCounted m.size w
unfolding copy_member
copy_member_bytes stream m path {w} h = copied-IsCounted m.is_dir m.name (stream m) m.size path h

dir_lower : (is_dir : Bool) (n : ℕ) → (if is_dir then 0 else n) ≤ n
dir_lower true n = omega arith
dir_lower false n = omega arith

written-append : (xs ys : List Write) → written (xs ++ ys) ≡ written xs + written ys
unfolding written
written-append [] ys = omega arith
written-append (x ∷ xs) ys = omega (arith, written-append xs ys)

file_counted : (is_dir : Bool) {n k : ℕ} → n ≤ k → (if is_dir then 0 else 1) + n ≤ suc k
file_counted true le = omega (arith, le)
file_counted false le = omega (arith, le)

copy_site_sizes :
    (stream : Member → ℕ) (root : List String) (ms : List Member) {ws : List Write}
    → copy_site stream root ms ≡ some ws
    → (sum_bytes ws ≤ sum_sizes ms) × (count_files ws ≤ length ms) × (written ws ≡ sum_bytes ws)
unfolding copy_site copy_below sum_bytes sum_sizes count_files written
copy_site_sizes stream root [] {ws} h =
    let same : ◌≡◌ {A = List Write} [] ws = cc h in
    subst (λ ws. (sum_bytes ws ≤ 0) × (count_files ws ≤ 0) × (written ws ≡ sum_bytes ws)) same
      (omega arith, omega arith, refl)
copy_site_sizes stream root (m ∷ ms) {ws} h = elim (Option-cases (below root m)) [
  | inl outside ↦
      let (total, many, equal) = copy_site_sizes stream root ms (rw (copy_site, outside) at h) in
      (omega (arith, total), omega (arith, many), equal)
  | inr (relative, inner) ↦ elim (Option-cases (copy_member stream m ("site" ∷ relative))) [
    | inl bad ↦ absurd (cc (rw (copy_site, inner, copy_below, bad) at h))
    | inr (w, copied) ↦ elim (Option-cases (copy_site stream root ms)) [
      | inl bad ↦ absurd (cc (rw (copy_site, inner, copy_below, copied, bad) at h))
      | inr (rest, more) ↦
          let k : some (w ∷ rest) ≡ some ws =
            rw (copy_site, inner, copy_below, copied, more) at h in
          let same : w ∷ rest ≡ ws = cc k in
          let (total, many, equal) = copy_site_sizes stream root ms more in
          let (here, size) = copy_member_bytes stream m ("site" ∷ relative) copied in
          subst
            (λ ws.
              (sum_bytes ws ≤ m.size + sum_sizes ms)
              × (count_files ws ≤ suc (length ms))
              × (written ws ≡ sum_bytes ws))
            same
            (
              omega (arith, total, size, dir_lower w.is_dir w.size),
              file_counted w.is_dir many,
              omega (arith, here, equal),
            )
    ]
  ]
]

-- the size of the website in a bundle
unfoldable website_of : Option Bundle → ℕ × ℕ × List Write
website_of none = (0, 0, [])
website_of (some b) = (b.website_bytes, b.website_files, b.writes)

unless_filled : (n : ℕ) {u : Unit {0}} → unless (eqb n 0) ≡ some u → ¬ (n ≡ 0)
unless_filled n h zero = absurd (cc (rw (zero) at h))

copy_sql_sizes :
    (stream : Member → ℕ) (database : String) (sql : Option String) (ms : List Member)
    {ws : List Write}
    → copy_sql stream database sql ms ≡ some ws
    → written ws ≤ max_member
unfolding copy_sql written
copy_sql_sizes stream database none ms {ws} h = elim (Bool-cases (truthy database)) [
  | inl asked ↦ absurd (cc (rw (copy_sql, asked) at h))
  | inr plain ↦
      let k : ◌≡◌ {A = Option (List Write)} (some []) (some ws) = rw (copy_sql, plain) at h in
      let same : ◌≡◌ {A = List Write} [] ws = cc k in
      subst (λ ws. written ws ≤ max_member) same (omega arith)
]
copy_sql_sizes stream database (some sql) ms {ws} h = elim (Bool-cases (truthy database)) [
  | inr plain ↦
      let k : ◌≡◌ {A = Option (List Write)} (some []) (some ws) = rw (copy_sql, plain) at h in
      let same : ◌≡◌ {A = List Write} [] ws = cc k in
      subst (λ ws. written ws ≤ max_member) same (omega arith)
  | inl asked ↦ elim (Option-cases (find (λ (m : Member). m.name == sql && not m.is_dir) ms)) [
    | inl missing ↦ absurd (cc (rw (copy_sql, asked, missing) at h))
    | inr (m, found) ↦ elim (Bool-cases (ltb max_member m.size)) [
      | inl large ↦ absurd (cc (rw (copy_sql, asked, found, large) at h))
      | inr fits ↦ elim (Option-cases (copy_member stream m ("database.sql" ∷ []))) [
        | inl bad ↦ absurd (cc (rw (copy_sql, asked, found, fits, bad) at h))
        | inr (w, copied) ↦
            let k : some (w ∷ []) ≡ some ws = rw (copy_sql, asked, found, fits, copied) at h in
            let same : w ∷ [] ≡ ws = cc k in
            let (here, size) = copy_member_bytes stream m ("database.sql" ∷ []) copied in
            let small : m.size ≤ max_member = ground (arith, fits) in
            subst (λ ws. written ws ≤ max_member) same
              (omega (arith, here, size, small, dir_lower w.is_dir w.size))
      ]
    ]
  ]
]

bundle_of_sizes :
    (stream : Member → ℕ) (domain database : String) (source_domain source_db : Option String)
    (report : Report) (ms : List Member) {b : Bundle}
    → bundle_of stream domain database source_domain source_db report ms ≡ some b
    → (b.website_bytes ≤ sum_sizes ms)
      × (b.website_files ≤ length ms)
      × (¬ (b.website_files ≡ 0))
      × (written b.writes ≤ b.website_bytes + max_member)
unfolding bundle_of website_of written
bundle_of_sizes stream domain database source_domain source_db report ms {b} h =
    let (root, e, h1) = bind_some (found_root (site_prefix report.kind source_domain ms)) _ h in
    let (site, copied, h2) = bind_some (copy_site stream root ms) _ h1 in
    let (filled, e2, h3) = bind_some (unless (eqb (count_files site) 0)) _ h2 in
    let (sql, e3, h4) = bind_some (choose_sql (sql_candidates ms) source_db) _ h3 in
    let (dump, dumped, h5) = bind_some (copy_sql stream database sql ms) _ h4 in
    let all : List Write = site ++ (dump ++ manifest_write ∷ []) in
    let same : (sum_bytes site, count_files site, all)
        ≡ (b.website_bytes, b.website_files, b.writes) =
      ap website_of h5 in
    let (total, many, equal) = copy_site_sizes stream root ms copied in
    subst
      (λ (z : ℕ × ℕ × List Write).
        (z.0 ≤ sum_sizes ms) × (z.1 ≤ length ms) × (¬ (z.1 ≡ 0)) × (written z.2 ≤ z.0 + max_member))
      same
      (
        total,
        many,
        unless_filled (count_files site) e2,
        omega (
          arith,
          equal,
          written-append site (dump ++ manifest_write ∷ []),
          written-append dump (manifest_write ∷ []),
          copy_sql_sizes stream database sql ms dumped,
        ),
      )

-- The website of a bundle that is imported has a file, and by what the archive declares at most as
-- many bytes and files as an archive may hold. What is written for the members, by the bytes that
-- the archive really gives, is at most these bytes and one member of the largest size, the dump.
pub website_bounded :
    (stream : Member → ℕ) (filename : String) (archive : Format) (target : String)
    (source source_db target_db : Option String) {b : Bundle}
    → normalize_import stream filename archive target source source_db target_db ≡ some b
    → (b.website_bytes ≤ max_expanded)
      × (b.website_files ≤ max_members)
      × (¬ (b.website_files ≡ 0))
      × (written b.writes ≤ b.website_bytes + max_member)
unfolding normalize_import
website_bounded stream filename archive target source source_db target_db {b} h =
    let (domain, e, h1) = bind_some (domain_name target) _ h in
    let (asked, e1, h2) = bind_some (given_domain source) _ h1 in
    let (database, e2, h3) = bind_some (given_db target_db) _ h2 in
    let (report, e3, h4) = bind_some (inspect_import filename archive asked) _ h3 in
    let (known, e4, h5) = bind_some (unless (is_unknown report.kind)) _ h4 in
    let (chosen, e5, h6) =
      bind_some (unless (needs_domain report.kind && not (has report.selected_domain))) _ h5 in
    let (ms, read, h7) = bind_some (members_of archive) _ h6 in
    let (total, many) = members_of_sizes archive read in
    let (bytes, files, filled, all) =
      bundle_of_sizes stream domain database report.selected_domain source_db report ms h7 in
    (omega (arith, bytes, total), omega (arith, files, many), filled, all)
