-- ===== src/Vault/Listed.antt =====
-- The rows of the listing of agent/secret_vault.py, and the files they are of.
use mathlib.Core.Path.{subst}
use nexvary_panel.Base.{
  ℕ, ◌+◌, String, ◌==◌, ◌≡◌, refl, sym, ap, ◌∙◌, inl, inr, Bool, true, false, not, ◌&&◌, Option,
  none, some, List, [], ◌∷◌, bind_some, eq_iff, arith, Bool-cases, Option-cases, if◌then◌else◌,
}
use nexvary_panel.Base.Lists.{select, count}
use nexvary_panel.Base.Sets.{contains, text_leb}
use nexvary_panel.Vault.Store.{
  File, SecretRow, secret_kinds, is_valid, is_regular, file_name, has_name, is_other, without,
  secret_file, insert_file, sort_files, entry_of, row_at, checked_row, row_of, rows_of,
  list_metadata, utf8_length,
}
use nexvary_panel.Vault.Names.{entry_of-file_name, file_name-entry_of}

-- a row of another secret
abbrev pub is_apart : String → String → SecretRow → Bool
is_apart id kind r = not (r.id == id && r.kind == kind)

row_of-none : (f : File) (l : List File) → row_of f ≡ none → rows_of (f ∷ l) ≡ rows_of l
unfolding rows_of
row_of-none f l h = rw (rows_of, h) refl

row_of-some :
    (f : File) (l : List File) {r : SecretRow} → row_of f ≡ some r → rows_of (f ∷ l) ≡ r ∷ rows_of l
unfolding rows_of
row_of-some f l h = rw (rows_of, h) refl

-- how much one file adds to a count
unfoldable pub counted : (SecretRow → Bool) → Option SecretRow → ℕ
counted q none = 0
counted q (some r) = if q r then 1 else 0

pub count-rows_of :
    (q : SecretRow → Bool) (f : File) (l : List File)
    → count q (rows_of (f ∷ l)) ≡ counted q (row_of f) + count q (rows_of l)
unfolding counted count
count-rows_of q f l = elim (Option-cases (row_of f)) [
  | inl miss ↦ ap (count q) (row_of-none f l miss) ∙ rw miss (omega arith)
  | inr (r, hit) ↦ ap (count q) (row_of-some f l hit) ∙ rw hit refl
]

count-insert_file :
    (q : SecretRow → Bool) (f : File) (l : List File)
    → count q (rows_of (insert_file f l)) ≡ counted q (row_of f) + count q (rows_of l)
unfolding insert_file
count-insert_file q f [] = count-rows_of q f []
count-insert_file q f (g ∷ l) = elim (Bool-cases (text_leb f.name g.name)) [
  | inl low ↦ rw low (count-rows_of q f (g ∷ l))
  | inr high ↦ rw high (
      omega
        (arith, count-rows_of q g (insert_file f l), count-insert_file q f l, count-rows_of q g l))
]

-- The order of the listing adds no row and loses none.
pub count-list_metadata :
    (q : SecretRow → Bool) (files : List File)
    → count q (list_metadata files) ≡ count q (rows_of files)
unfolding list_metadata sort_files
count-list_metadata q [] = refl
count-list_metadata q (f ∷ l) =
    omega
      (arith, count-insert_file q f (sort_files l), count-list_metadata q l, count-rows_of q f l)

count-both :
    (p q : SecretRow → Bool) (rows : List SecretRow)
    → count q (select p rows) ≡ count (λ r. p r && q r) rows
unfolding count select
count-both p q [] = refl
count-both p q (r ∷ rows) = elim (Bool-cases (p r)) [
  | inl hit ↦ rw hit (ap (λ n. (if q r then 1 else 0) + n) (count-both p q rows))
  | inr miss ↦ rw miss (omega (arith, count-both p q rows))
]

pub count-select-listed :
    (p q : SecretRow → Bool) (files : List File)
    → count q (select p (list_metadata files)) ≡ count q (select p (rows_of files))
count-select-listed p q files =
    count-both p q (list_metadata files)
    ∙ count-list_metadata (λ r. p r && q r) files
    ∙ sym (count-both p q (rows_of files))

-- the secret that the name of a file is of
row_of-entry_of :
    (f : File) {r : SecretRow} → row_of f ≡ some r → entry_of f.name ≡ some (r.kind, r.id)
unfolding row_of
row_of-entry_of f {r} h = elim (Bool-cases (is_regular f.kind)) [
  | inr odd ↦ absurd (cc (rw (row_of, odd) at h))
  | inl plain ↦
      let ((kind, id), found, checked) =
        bind_some (entry_of f.name) (checked_row f) (rw (row_of, plain) at h) in
      elim (Bool-cases (is_valid id kind)) [
        | inr bad ↦ absurd (cc (rw bad at checked))
        | inl good ↦
            let k : some (row_at f (kind, id)) ≡ some r = rw good at checked in
            let same : row_at f (kind, id) ≡ r = cc k in
            subst (λ (r : SecretRow). entry_of f.name ≡ some (r.kind, r.id)) same found
      ]
]

valid_kind : (id kind : String) → is_valid id kind ≡ true → contains secret_kinds kind ≡ true
unfolding is_valid
valid_kind id kind h = ground (arith, h)

-- A row is of another secret exactly when its file has another name.
apart-other :
    (id kind : String) (f : File) {r : SecretRow}
    → is_valid id kind ≡ true
    → row_of f ≡ some r
    → is_apart id kind r ≡ is_other (file_name id kind) f
unfolding has_name
apart-other id kind f {r} valid h =
    let read = row_of-entry_of f h in
    elim (Bool-cases (f.name == file_name id kind)) [
      | inl here ↦
          let name : f.name ≡ file_name id kind = (eq_iff f.name (file_name id kind)).0 here in
          let both : some (r.kind, r.id) ≡ some (kind, id) =
            sym read ∙ ap entry_of name ∙ entry_of-file_name id kind (valid_kind id kind valid) in
          let same_kind : r.kind ≡ kind = cc both in
          let same_id : r.id ≡ id = cc both in
          rw (here, (eq_iff r.id id).1 same_id, (eq_iff r.kind kind).1 same_kind) refl
      | inr elsewhere ↦ elim (Bool-cases (r.id == id && r.kind == kind)) [
        | inr apart ↦ rw (apart, elsewhere) refl
        | inl same ↦
            let same_id : r.id ≡ id = (eq_iff r.id id).0 (ground (arith, same)) in
            let same_kind : r.kind ≡ kind = (eq_iff r.kind kind).0 (ground (arith, same)) in
            let name : f.name ≡ file_name id kind =
              file_name-entry_of f.name
                (read ∙ ap some (ap (λ k. (k, r.id)) same_kind ∙ ap (λ i. (kind, i)) same_id)) in
            absurd (cc ((eq_iff f.name (file_name id kind)).1 name, elsewhere))
      ]
    ]

select-first :
    {A : Type 0} (p : A → Bool) (x : A) (xs : List A)
    → p x ≡ true
    → select p (x ∷ xs) ≡ x ∷ select p xs
unfolding select
select-first p x xs h = rw h

select-next :
    {A : Type 0} (p : A → Bool) (x : A) (xs : List A)
    → p x ≡ false
    → select p (x ∷ xs) ≡ select p xs
unfolding select
select-next p x xs h = rw h

-- Without the file of a secret, the rows are those of the others.
pub rows_of-without :
    (id kind : String)
    → is_valid id kind ≡ true
    → (l : List File)
    → rows_of (without (file_name id kind) l) ≡ select (is_apart id kind) (rows_of l)
unfolding without select rows_of
rows_of-without id kind valid [] = refl
rows_of-without id kind valid (f ∷ l) =
    let path = file_name id kind in
    let rest = rows_of-without id kind valid l in
    let p = is_apart id kind in
    elim (Option-cases (row_of f)) [
      | inl miss ↦
          let old = ap (select p) (sym (row_of-none f l miss)) in
          elim (Bool-cases (is_other path f)) [
            | inl kept ↦
                ap rows_of (select-first (is_other path) f l kept)
                ∙ row_of-none f (without path l) miss
                ∙ rest
                ∙ old
            | inr gone ↦ ap rows_of (select-next (is_other path) f l gone) ∙ rest ∙ old
          ]
      | inr (r, hit) ↦
          let old = ap (select p) (sym (row_of-some f l hit)) in
          let apart = apart-other id kind f valid hit in
          elim (Bool-cases (is_other path f)) [
            | inl kept ↦
                ap rows_of (select-first (is_other path) f l kept)
                ∙ row_of-some f (without path l) hit
                ∙ ap (λ rows. r ∷ rows) rest
                ∙ sym (select-first p r (rows_of l) (apart ∙ kept))
                ∙ old
            | inr gone ↦
                ap rows_of (select-next (is_other path) f l gone)
                ∙ rest
                ∙ sym (select-next p r (rows_of l) (apart ∙ gone))
                ∙ old
          ]
    ]

pub row_of-secret_file :
    (id kind value : String) (now : ℕ)
    → is_valid id kind ≡ true
    → row_of (secret_file (file_name id kind) value now)
      ≡ some (record { id = id; kind = kind; bytes = utf8_length value; updated_at = now })
unfolding row_of
row_of-secret_file id kind value now valid =
    rw (entry_of-file_name id kind (valid_kind id kind valid), valid) refl
