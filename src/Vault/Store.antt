-- ===== src/Vault/Store.antt =====
-- `SecretVault` of agent/secret_vault.py and `handle` of agent/vault_agent.py. `none` is an OSError or
-- a ValueError.
use Prim.Native.Char.{code}
use nexvary_panel.Base.{
  ℕ, ◌+◌, ◌%◌, String, ◌==◌, Bool, true, false, not, ◌&&◌, ◌||◌, Option, none, some, List, [], ◌∷◌,
  eqb, leb, ltb, if◌then◌else◌, ◌>>=◌,
}
use nexvary_panel.Base.Lists.{find, select}
use nexvary_panel.Base.Names.{matches}
use nexvary_panel.Base.Sets.{contains, text_leb}
use nexvary_panel.Base.Text.{◌⧺◌, any_char}

-- What stands under a name: a file, a link to something that is or is not there, or a directory.
pub data FileKind : Type 0 where
  regular dir : FileKind
  link : Bool → FileKind

pub record File : Type 0 where
  pub name : String
  pub kind : FileKind
  pub mode : ℕ
  pub bytes : ℕ
  pub modified : ℕ

-- an entry of the listing
pub record SecretRow : Type 0 where
  pub id : String
  pub kind : String
  pub bytes : ℕ
  pub updated_at : ℕ

-- `SECRET_KINDS`
abbrev pub secret_kinds : List String
secret_kinds = "cloudflare" ∷ "powerdns" ∷ "s3" ∷ "restic" ∷ "rclone" ∷ "fleet" ∷ []

abbrev pub is_small : ℕ → Bool
is_small c = leb b'a' c && leb c b'z'

-- `SECRET_ID_RE`
unfoldable pub is_secret_id : String → Bool
is_secret_id id =
    matches is_small (λ c. is_small c || (leb b'0' c && leb c b'9') || eqb c b'_' || eqb c b'-') 2
      47 id

-- `_validate`
unfoldable pub is_valid : String → String → Bool
is_valid id kind = is_secret_id id && contains secret_kinds kind

-- the name of the file of a secret
unfoldable pub file_name : String → String → String
file_name id kind = kind ⧺ ("--" ⧺ (id ⧺ ".secret"))

-- `_path`
unfoldable pub path_of : String → String → Option String
path_of id kind = if is_valid id kind then some (file_name id kind) else none

-- the bytes of a character in UTF-8
abbrev pub utf8_width : ℕ → ℕ
utf8_width c = if ltb c 128 then 1 else if ltb c 2048 then 2 else if ltb c 65536 then 3 else 4

-- `len(value.encode("utf-8"))`
unfoldable pub utf8_length : String → ℕ
utf8_length String.[] = 0
utf8_length (String.◌∷◌ c s) = utf8_width (code c) + utf8_length s

unfoldable pub has_name : String → File → Bool
has_name name f = f.name == name

abbrev pub is_other : String → File → Bool
is_other name f = not (has_name name f)

-- a directory without a name
unfoldable pub without : String → List File → List File
without name files = select (is_other name) files

abbrev pub is_taken : Option File → Bool
is_taken none = false
is_taken (some f) = elim f.kind [
  | FileKind.dir ↦ true
  | FileKind.regular ↦ false
  | FileKind.link there ↦ false
]

abbrev pub secret_file : String → String → ℕ → File
secret_file name value now = record {
  name = name;
  kind = FileKind.regular;
  mode = 384;
  bytes = utf8_length value;
  modified = now;
}

-- `os.replace` of the temporary file
unfoldable pub replace : String → String → ℕ → List File → Option (List File)
replace name value now files =
    if is_taken (find (has_name name) files)
    then none
    else some (secret_file name value now ∷ without name files)

-- whether a secret may be stored
unfoldable pub is_allowed : String → Bool
is_allowed value =
    not (any_char (λ c. eqb c 0) value)
    && leb 8 (utf8_length value)
    && leb (utf8_length value) 16384

-- `put`
unfoldable pub vault_put : String → String → String → ℕ → List File → Option (SecretRow × List File)
vault_put id kind value now files = do
  name ← path_of id kind
  kept ← (if is_allowed value then replace name value now files else none)
  some (record { id = id; kind = kind; bytes = utf8_length value; updated_at = now }, kept)

-- what `delete` does to what stands under the name
unfoldable pub unlink : String → FileKind → List File → Option (Bool × List File)
unlink name FileKind.regular files = some (true, without name files)
unlink name FileKind.dir files = none
unlink name (FileKind.link true) files = none
unlink name (FileKind.link false) files = some (false, files)

-- `delete`
unfoldable pub delete : String → String → List File → Option (Bool × List File)
delete id kind files = do
  name ← path_of id kind
  elim (find (has_name name) files) [
    | none ↦ some (false, files)
    | some f ↦ unlink name f.kind files
  ]

-- The files of the directory, in the order of their names.
unfoldable pub insert_file : File → List File → List File
insert_file f [] = f ∷ []
insert_file f (g ∷ l) =
    let rest = insert_file f l in if text_leb f.name g.name then f ∷ g ∷ l else g ∷ rest

unfoldable pub sort_files : List File → List File
sort_files [] = []
sort_files (f ∷ l) = insert_file f (sort_files l)

-- `path.name[:-7]` of a name that `*.secret` matches
unfoldable pub secret_stem : String → Option String
secret_stem String.[] = none
secret_stem (String.◌∷◌ c s) = elim (secret_stem s) [
  | some t ↦ some (String.◌∷◌ c t)
  | none ↦ if String.◌∷◌ c s == ".secret" then some "" else none
]

-- `stem.partition("--")`
unfoldable pub partition : String → Option (String × String)
partition String.[] = none
partition (String.◌∷◌ c String.[]) = none
partition (String.◌∷◌ c (String.◌∷◌ d s)) =
    let rest = partition (String.◌∷◌ d s) in
    if eqb (code c) b'-' && eqb (code d) b'-'
    then some ("", s)
    else elim rest [ none ↦ none | some (a, b) ↦ some (String.◌∷◌ c a, b) ]

-- the kind and the id in the name of a file
unfoldable pub entry_of : String → Option (String × String)
entry_of name = do stem ← secret_stem name; partition stem

abbrev pub is_regular : FileKind → Bool
is_regular FileKind.regular = true
is_regular FileKind.dir = false
is_regular (FileKind.link there) = false

abbrev pub row_at : File → String × String → SecretRow
row_at f (kind, id) = record { id = id; kind = kind; bytes = f.bytes; updated_at = f.modified }

abbrev pub checked_row : File → String × String → Option SecretRow
checked_row f (kind, id) = if is_valid id kind then some (row_at f (kind, id)) else none

-- the entry of a file
unfoldable pub row_of : File → Option SecretRow
row_of f = if is_regular f.kind then (entry_of f.name >>= checked_row f) else none

unfoldable pub rows_of : List File → List SecretRow
rows_of [] = []
rows_of (f ∷ l) = elim (row_of f) [ none ↦ rows_of l | some r ↦ r ∷ rows_of l ]

-- `list_metadata`
unfoldable pub list_metadata : List File → List SecretRow
list_metadata files = rows_of (sort_files files)

-- `credential_path`
unfoldable pub credential_path : String → String → List File → Option String
credential_path id kind files = do
  name ← path_of id kind
  f ← find (has_name name) files
  if is_regular f.kind && eqb (f.mode % 64) 0 then some name else none

-- A request of the agent, with its texts, and the answer. `id` and the others are "" where they are
-- missing.
pub data VaultRequest : Type 0 where
  metadata : VaultRequest
  put_secret : (id kind value : String) → VaultRequest
  delete_secret : (id kind : String) → VaultRequest
  other : VaultRequest

pub data VaultAnswer : Type 0 where
  entries : List SecretRow → VaultAnswer
  entry : SecretRow → VaultAnswer
  deleted : Bool → VaultAnswer
  failed : VaultAnswer

-- `handle`
unfoldable pub handle : VaultRequest → ℕ → List File → VaultAnswer × List File
handle VaultRequest.metadata now files = (VaultAnswer.entries (list_metadata files), files)
handle (VaultRequest.put_secret id kind value) now files =
    elim (vault_put id kind value now files) [
      | none ↦ (VaultAnswer.failed, files)
      | some (row, kept) ↦ (VaultAnswer.entry row, kept)
    ]
handle (VaultRequest.delete_secret id kind) now files = elim (delete id kind files) [
  | none ↦ (VaultAnswer.failed, files)
  | some (gone, kept) ↦ (VaultAnswer.deleted gone, kept)
]
handle VaultRequest.other now files = (VaultAnswer.failed, files)
