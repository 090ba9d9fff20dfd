-- ===== src/Vault/Refined.antt =====
-- The listing of agent/secret_vault.py after a request of agent/vault_agent.py.
use mathlib.Core.Path.{subst}
use nexvary_panel.Base.{
  ℕ, ◌+◌, String, ◌≡◌, refl, sym, ap, ◌∙◌, inl, inr, Bool, true, false, none, some, List, ◌∷◌,
  bind_some, Bool-cases, Option-cases, if◌then◌else◌,
}
use nexvary_panel.Base.Lists.{find, select, count}
use nexvary_panel.Vault.Store.{
  FileKind, File, SecretRow, VaultRequest, VaultAnswer, is_valid, file_name, path_of, has_name,
  without, secret_file, replace, is_allowed, vault_put, unlink, delete, rows_of, list_metadata,
  handle, utf8_length, is_taken,
}
use nexvary_panel.Vault.Listed.{
  is_apart, counted, count-rows_of, count-list_metadata, count-select-listed, rows_of-without,
  row_of-secret_file,
}

-- What the secrets are after a request, of the rows before it: a map from a kind and an id to a row.
unfoldable pub rows_after : VaultRequest → VaultAnswer → List SecretRow → List SecretRow
rows_after (VaultRequest.put_secret id kind value) (VaultAnswer.entry row) rows =
    row ∷ select (is_apart id kind) rows
rows_after (VaultRequest.delete_secret id kind) (VaultAnswer.deleted true) rows =
    select (is_apart id kind) rows
rows_after request answer rows = rows

path_of_lem :
    (id kind : String) {name : String}
    → path_of id kind ≡ some name
    → (is_valid id kind ≡ true) × (file_name id kind ≡ name)
unfolding path_of
path_of_lem id kind {name} h = elim (Bool-cases (is_valid id kind)) [
  | inl valid ↦
      let k : some (file_name id kind) ≡ some name = rw (path_of, valid) at h in
      let same : file_name id kind ≡ name = cc k in (valid, same)
  | inr bad ↦ absurd (cc (rw (path_of, bad) at h))
]

without-listed :
    (id kind : String) (files : List File) (q : SecretRow → Bool)
    → is_valid id kind ≡ true
    → count q (list_metadata (without (file_name id kind) files))
      ≡ count q (select (is_apart id kind) (list_metadata files))
without-listed id kind files q valid =
    count-list_metadata q (without (file_name id kind) files)
    ∙ ap (count q) (rows_of-without id kind valid files)
    ∙ sym (count-select-listed (is_apart id kind) q files)

replaced :
    (allowed : Bool) (name value : String) (now : ℕ) (files : List File) {after : List File}
    → (if allowed then replace name value now files else none) ≡ some after
    → secret_file name value now ∷ without name files ≡ after
unfolding replace
replaced false name value now files h = absurd (cc h)
replaced true name value now files {after} h =
    elim (Bool-cases (is_taken (find (has_name name) files))) [
      | inl taken ↦ absurd (cc (rw (replace, taken) at h))
      | inr free ↦
          let k : some (secret_file name value now ∷ without name files) ≡ some after =
            rw (replace, free) at h in
          cc k
    ]

-- The row of a secret that is stored, and the rows of the others.
stored :
    (id kind value : String) (now : ℕ) (files : List File) (q : SecretRow → Bool)
    → is_valid id kind ≡ true
    → count q (
        list_metadata
          (secret_file (file_name id kind) value now ∷ without (file_name id kind) files))
      ≡ count q (
          record { id = id; kind = kind; bytes = utf8_length value; updated_at = now }
          ∷ select (is_apart id kind) (list_metadata files))
unfolding count counted
stored id kind value now files q valid =
    let path = file_name id kind in
    let f = secret_file path value now in
    count-list_metadata q (f ∷ without path files)
    ∙ count-rows_of q f (without path files)
    ∙ ap (λ r. counted q r + count q (rows_of (without path files)))
        (row_of-secret_file id kind value now valid)
    ∙ ap
        (λ n.
          (if q (record { id = id; kind = kind; bytes = utf8_length value; updated_at = now })
            then 1
            else 0)
          + n)
        (sym (count-list_metadata q (without path files)) ∙ without-listed id kind files q valid)

vault_put-listed :
    (id kind value : String) (now : ℕ) (files : List File) (q : SecretRow → Bool) {row : SecretRow}
    {kept : List File}
    → vault_put id kind value now files ≡ some (row, kept)
    → count q (list_metadata kept) ≡ count q (row ∷ select (is_apart id kind) (list_metadata files))
unfolding vault_put
vault_put-listed id kind value now files q {row} {kept} h =
    let (name, e, h1) = bind_some (path_of id kind) _ h in
    let (after, e1, h2) =
      bind_some (if is_allowed value then replace name value now files else none) _ h1 in
    let (valid, named) = path_of_lem id kind e in
    let new : SecretRow = record {
      id = id;
      kind = kind;
      bytes = utf8_length value;
      updated_at = now;
    } in
    let same : (new, after) ≡ (row, kept) = cc h2 in
    let files_same =
      subst (λ n. secret_file n value now ∷ without n files ≡ after) (sym named)
        (replaced (is_allowed value) name value now files e1) in
    subst
      (λ (z : SecretRow × List File).
        count q (list_metadata z.1)
        ≡ count q (z.0 ∷ select (is_apart id kind) (list_metadata files)))
      same
      (subst
        (λ l.
          count q (list_metadata l)
          ≡ count q (new ∷ select (is_apart id kind) (list_metadata files)))
        files_same (stored id kind value now files q valid))

-- what is left of the rows after a deletion that says whether it removed one
unfoldable rows_left : String → String → Bool → List SecretRow → List SecretRow
rows_left id kind true rows = select (is_apart id kind) rows
rows_left id kind false rows = rows

unlink-listed :
    (id kind : String) (k : FileKind) (files : List File) (q : SecretRow → Bool) {gone : Bool}
    {kept : List File}
    → is_valid id kind ≡ true
    → unlink (file_name id kind) k files ≡ some (gone, kept)
    → count q (list_metadata kept) ≡ count q (rows_left id kind gone (list_metadata files))
unfolding unlink rows_left
unlink-listed id kind FileKind.regular files q {gone} {kept} valid h =
    let same : (true, without (file_name id kind) files) ≡ (gone, kept) = cc h in
    subst
      (λ (z : Bool × List File).
        count q (list_metadata z.1) ≡ count q (rows_left id kind z.0 (list_metadata files)))
      same (without-listed id kind files q valid)
unlink-listed id kind FileKind.dir files q valid h = absurd (cc h)
unlink-listed id kind (FileKind.link true) files q valid h = absurd (cc h)
unlink-listed id kind (FileKind.link false) files q {gone} {kept} valid h =
    let same : (false, files) ≡ (gone, kept) = cc h in
    subst
      (λ (z : Bool × List File).
        count q (list_metadata z.1) ≡ count q (rows_left id kind z.0 (list_metadata files)))
      same refl

delete-listed :
    (id kind : String) (files : List File) (q : SecretRow → Bool) {gone : Bool} {kept : List File}
    → delete id kind files ≡ some (gone, kept)
    → count q (list_metadata kept) ≡ count q (rows_left id kind gone (list_metadata files))
unfolding delete rows_left
delete-listed id kind files q {gone} {kept} h =
    let (name, e, h1) = bind_some (path_of id kind) _ h in
    let (valid, named) = path_of_lem id kind e in
    elim (Option-cases (find (has_name name) files)) [
      | inl missing ↦
          let k : some (false, files) ≡ some (gone, kept) = rw missing at h1 in
          let same : (false, files) ≡ (gone, kept) = cc k in
          subst
            (λ (z : Bool × List File).
              count q (list_metadata z.1) ≡ count q (rows_left id kind z.0 (list_metadata files)))
            same refl
      | inr (f, found) ↦
          let k : unlink name f.kind files ≡ some (gone, kept) = rw found at h1 in
          unlink-listed id kind f.kind files q valid
            (subst (λ n. unlink n f.kind files ≡ some (gone, kept)) (sym named) k)
    ]

answered :
    (id kind : String) (gone : Bool) (q : SecretRow → Bool) (rows : List SecretRow)
    → count q (rows_left id kind gone rows)
      ≡ count q (rows_after (VaultRequest.delete_secret id kind) (VaultAnswer.deleted gone) rows)
unfolding rows_left rows_after
answered id kind true q rows = refl
answered id kind false q rows = refl

-- After any request the listing is, up to order, what the request makes of the listing before it,
-- read as a map from a kind and an id to a row: a secret that is stored replaces the one of its kind
-- and id and keeps all others, one that is deleted goes alone, and a request that fails or reads
-- changes nothing.
pub handle_refined :
    (request : VaultRequest) (now : ℕ) (files : List File) (q : SecretRow → Bool)
    → count q (list_metadata (handle request now files).1)
      ≡ count q (rows_after request (handle request now files).0 (list_metadata files))
unfolding handle rows_after
handle_refined VaultRequest.metadata now files q = refl
handle_refined VaultRequest.other now files q = refl
handle_refined (VaultRequest.put_secret id kind value) now files q =
    elim (Option-cases (vault_put id kind value now files)) [
      | inl bad ↦ rw (handle, bad) refl
      | inr ((row, kept), done) ↦
          rw (handle, done) (vault_put-listed id kind value now files q done)
    ]
handle_refined (VaultRequest.delete_secret id kind) now files q =
    elim (Option-cases (delete id kind files)) [
      | inl bad ↦ rw (handle, bad) refl
      | inr ((gone, kept), done) ↦
          rw (handle, done)
            (delete-listed id kind files q done ∙ answered id kind gone q (list_metadata files))
    ]
