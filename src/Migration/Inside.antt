-- ===== src/Migration/Inside.antt =====
-- Where the files of a bundle are written, by agent/migration_adapters.py.
use mathlib.Core.Path.{subst}
use nexvary_panel.Base.{
  ℕ, ◌+◌, String, ◌==◌, ◌≡◌, refl, ap, ◌⊎◌, inl, inr, not, ◌&&◌, Option, none, some, List, [], ◌∷◌,
  ◌++◌, bind_some, eqb, ltb, arith, Bool-cases, Option-cases,
}
use nexvary_panel.Base.Lists.{All, All-append, find, length}
use nexvary_panel.Base.Text.{truthy, lower}
use nexvary_panel.Migration.Names.{domain_name, parts_of, safe_name}
use nexvary_panel.Migration.Archive.{
  Entry, Member, Format, kind_is_dir, size_in, member_of, collect, entries_of, members_of,
  max_member, max_members, max_expanded,
}
use nexvary_panel.Migration.Detect.{after_start, sql_candidates, site_prefix}
use nexvary_panel.Migration.Inspect.{
  Report, given_domain, inspect_import, needs_domain, is_unknown, has,
}
use nexvary_panel.Migration.Normalize.{
  Write, Bundle, copy_member, below, copy_below, copy_site, count_files, copy_sql, given_db,
  found_root, choose_sql, unless, manifest_write, bundle_of, normalize_import,
}
use nexvary_panel.Migration.Paths.{IsPlain, safe_name-IsPlain}

abbrev pub HasPlainName : Member → Type 0
HasPlainName m = All IsPlain (parts_of m.name)

member_of-HasPlainName : (e : Entry) {m : Member} → member_of e ≡ some m → HasPlainName m
unfolding member_of
member_of-HasPlainName e {m} h =
    let (name, safe, h1) = bind_some (safe_name e.name) _ h in
    let (is_dir, k, h2) = bind_some (kind_is_dir e.kind) _ h1 in
    let (size, z, h3) = bind_some (size_in e.size) _ h2 in
    let built : Member = record { name = name; size = size; is_dir = is_dir } in
    let same : built ≡ m = cc h3 in subst HasPlainName same (safe_name-IsPlain e.name safe)

collect-HasPlainName :
    (expanded : ℕ) (es : List Entry) {ms : List Member}
    → collect expanded es ≡ some ms
    → All HasPlainName ms
unfolding collect
collect-HasPlainName expanded [] {ms} h =
    let same : ◌≡◌ {A = List Member} [] ms = cc h in subst (All HasPlainName) same tt
collect-HasPlainName expanded (e ∷ es) {ms} h = elim (Option-cases (member_of e)) [
  | inl bad ↦ absurd (cc (rw (collect, bad) at h))
  | inr (m, made) ↦ elim (Bool-cases (ltb max_expanded (expanded + m.size))) [
    | inl large ↦ absurd (cc (rw (collect, made, large) at h))
    | inr fits ↦ elim (Option-cases (collect (expanded + m.size) es)) [
      | inl bad ↦ absurd (cc (rw (collect, made, fits, bad) at h))
      | inr (rest, more) ↦
          let k : some (m ∷ rest) ≡ some ms = rw (collect, made, fits, more) at h in
          let same : m ∷ rest ≡ ms = cc k in
          subst (All HasPlainName) same
            (member_of-HasPlainName e made, collect-HasPlainName (expanded + m.size) es more)
    ]
  ]
]

members_of-HasPlainName :
    (f : Format) {ms : List Member} → members_of f ≡ some ms → All HasPlainName ms
unfolding members_of
members_of-HasPlainName f {ms} h = elim (Option-cases (entries_of f)) [
  | inl bad ↦ absurd (cc (rw (members_of, bad) at h))
  | inr (es, read) ↦ elim (Bool-cases (ltb max_members (length es))) [
    | inl many ↦ absurd (cc (rw (members_of, read, many) at h))
    | inr few ↦ collect-HasPlainName 0 es (rw (members_of, read, few) at h)
  ]
]

after_start-All :
    (P : String → Type 0) (marker parts : List String) {tail : List String}
    → after_start marker parts ≡ some tail
    → All P parts
    → All P tail
unfolding after_start
after_start-All P [] parts {tail} h k = let same : parts ≡ tail = cc h in subst (All P) same k
after_start-All P (m ∷ marker) [] h k = absurd (cc h)
after_start-All P (m ∷ marker) (p ∷ parts) {tail} h k = elim (Bool-cases (lower p == lower m)) [
  | inl same ↦ after_start-All P marker parts {tail = tail} (rw same at h) k.1
  | inr other ↦ absurd (cc (rw other at h))
]

-- A write below `site`, by a path that goes down in each part, or one of the two files beside it.
abbrev pub IsInside : Write → Type 0
IsInside w =
    ((relative : List String) × (w.path ≡ "site" ∷ relative) × All IsPlain relative)
    ⊎ ((w.path ≡ "database.sql" ∷ []) ⊎ (w.path ≡ "manifest.json" ∷ []))

copy_member_path :
    (stream : Member → ℕ) (m : Member) (path : List String) {w : Write}
    → copy_member stream m path ≡ some w
    → w.path ≡ path
unfolding copy_member
copy_member_path stream m path {w} h = ground (arith, h)

below-IsPlain :
    (root : List String) (m : Member) {relative : List String}
    → HasPlainName m
    → below root m ≡ some relative
    → All IsPlain relative
unfolding below
below-IsPlain root m {relative} plain h = elim (Option-cases (after_start root (parts_of m.name))) [
  | inl outside ↦ absurd (cc (rw (below, outside) at h))
  | inr (tail, e) ↦ elim (Bool-cases (eqb (length tail) 0)) [
    | inl itself ↦ absurd (cc (rw (below, e, itself) at h))
    | inr inner ↦
        let k : some tail ≡ some relative = rw (below, e, inner) at h in
        let same : tail ≡ relative = cc k in
        subst (All IsPlain) same (after_start-All IsPlain root (parts_of m.name) e plain)
  ]
]

copy_site-IsInside :
    (stream : Member → ℕ) (root : List String) (ms : List Member) {ws : List Write}
    → All HasPlainName ms
    → copy_site stream root ms ≡ some ws
    → All IsInside ws
unfolding copy_site copy_below
copy_site-IsInside stream root [] {ws} plain h =
    let same : ◌≡◌ {A = List Write} [] ws = cc h in subst (All IsInside) same tt
copy_site-IsInside stream root (m ∷ ms) {ws} plain h = elim (Option-cases (below root m)) [
  | inl outside ↦ copy_site-IsInside stream root ms plain.1 (rw (copy_site, outside) at h)
  | inr (relative, inner) ↦ elim (Option-cases (copy_member stream m ("site" ∷ relative))) [
    | inl bad ↦ absurd (cc (rw (copy_site, inner, copy_below, bad) at h))
    | inr (w, copied) ↦ elim (Option-cases (copy_site stream root ms)) [
      | inl bad ↦ absurd (cc (rw (copy_site, inner, copy_below, copied, bad) at h))
      | inr (rest, more) ↦
          let k : some (w ∷ rest) ≡ some ws =
            rw (copy_site, inner, copy_below, copied, more) at h in
          let same : w ∷ rest ≡ ws = cc k in
          subst (All IsInside) same (
            inl (
              relative,
              copy_member_path stream m ("site" ∷ relative) copied,
              below-IsPlain root m plain.0 inner,
            ),
            copy_site-IsInside stream root ms plain.1 more,
          )
    ]
  ]
]

copy_sql-IsInside :
    (stream : Member → ℕ) (database : String) (sql : Option String) (ms : List Member)
    {ws : List Write}
    → copy_sql stream database sql ms ≡ some ws
    → All IsInside ws
unfolding copy_sql
copy_sql-IsInside stream database none ms {ws} h = elim (Bool-cases (truthy database)) [
  | inl asked ↦ absurd (cc (rw (copy_sql, asked) at h))
  | inr plain ↦
      let k : ◌≡◌ {A = Option (List Write)} (some []) (some ws) = rw (copy_sql, plain) at h in
      let same : ◌≡◌ {A = List Write} [] ws = cc k in subst (All IsInside) same tt
]
copy_sql-IsInside stream database (some sql) ms {ws} h = elim (Bool-cases (truthy database)) [
  | inr plain ↦
      let k : ◌≡◌ {A = Option (List Write)} (some []) (some ws) = rw (copy_sql, plain) at h in
      let same : ◌≡◌ {A = List Write} [] ws = cc k in subst (All IsInside) same tt
  | inl asked ↦ elim (Option-cases (find (λ (m : Member). m.name == sql && not m.is_dir) ms)) [
    | inl missing ↦ absurd (cc (rw (copy_sql, asked, missing) at h))
    | inr (m, found) ↦ elim (Bool-cases (ltb max_member m.size)) [
      | inl large ↦ absurd (cc (rw (copy_sql, asked, found, large) at h))
      | inr fits ↦ elim (Option-cases (copy_member stream m ("database.sql" ∷ []))) [
        | inl bad ↦ absurd (cc (rw (copy_sql, asked, found, fits, bad) at h))
        | inr (w, copied) ↦
            let k : some (w ∷ []) ≡ some ws = rw (copy_sql, asked, found, fits, copied) at h in
            let same : w ∷ [] ≡ ws = cc k in
            subst (All IsInside) same
              (inr (inl (copy_member_path stream m ("database.sql" ∷ []) copied)), tt)
      ]
    ]
  ]
]

unfoldable writes_of : Option Bundle → List Write
writes_of none = []
writes_of (some b) = b.writes

bundle_of-IsInside :
    (stream : Member → ℕ) (domain database : String) (source_domain source_db : Option String)
    (report : Report) (ms : List Member) {b : Bundle}
    → All HasPlainName ms
    → bundle_of stream domain database source_domain source_db report ms ≡ some b
    → All IsInside b.writes
unfolding bundle_of writes_of
bundle_of-IsInside stream domain database source_domain source_db report ms {b} plain h =
    let (root, e, h1) = bind_some (found_root (site_prefix report.kind source_domain ms)) _ h in
    let (site, copied, h2) = bind_some (copy_site stream root ms) _ h1 in
    let (filled, e2, h3) = bind_some (unless (eqb (count_files site) 0)) _ h2 in
    let (sql, e3, h4) = bind_some (choose_sql (sql_candidates ms) source_db) _ h3 in
    let (dump, dumped, h5) = bind_some (copy_sql stream database sql ms) _ h4 in
    let writes : site ++ (dump ++ manifest_write ∷ []) ≡ b.writes = ap writes_of h5 in
    subst (All IsInside) writes (
      All-append IsInside site (dump ++ manifest_write ∷ [])
        (copy_site-IsInside stream root ms plain copied)
        (All-append IsInside dump (manifest_write ∷ [])
          (copy_sql-IsInside stream database sql ms dumped) (inr (inr refl), tt)))

-- A bundle that is imported writes its files below `site` by paths that only go down, and beside it
-- nothing but the dump of the database and the manifest.
pub writes-IsInside :
    (stream : Member → ℕ) (filename : String) (archive : Format) (target : String)
    (source source_db target_db : Option String) {b : Bundle}
    → normalize_import stream filename archive target source source_db target_db ≡ some b
    → All IsInside b.writes
unfolding normalize_import
writes-IsInside stream filename archive target source source_db target_db {b} h =
    let (domain, e, h1) = bind_some (domain_name target) _ h in
    let (asked, e1, h2) = bind_some (given_domain source) _ h1 in
    let (database, e2, h3) = bind_some (given_db target_db) _ h2 in
    let (report, e3, h4) = bind_some (inspect_import filename archive asked) _ h3 in
    let (known, e4, h5) = bind_some (unless (is_unknown report.kind)) _ h4 in
    let (chosen, e5, h6) =
      bind_some (unless (needs_domain report.kind && not (has report.selected_domain))) _ h5 in
    let (ms, read, h7) = bind_some (members_of archive) _ h6 in
    bundle_of-IsInside stream domain database report.selected_domain source_db report ms
      (members_of-HasPlainName archive read) h7
