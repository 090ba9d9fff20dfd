-- ===== src/Migration/Archive.antt =====
-- The entries of an archive: `_tar_members`, `_zip_members` and `Archive` of
-- agent/migration_adapters.py. `none` is a ValueError.
use nexvary_panel.Base.{
  ℕ, ◌+◌, String, Bool, true, false, Option, none, some, List, [], ◌∷◌, ◌>>=◌, ltb, if◌then◌else◌,
}
use nexvary_panel.Base.Int.{ℤ, pos, negsuc}
use nexvary_panel.Base.Lists.{length}
use nexvary_panel.Migration.Names.{safe_name}

-- What an entry is by tarfile or zipfile: `link` is a link, a device or a pipe of a tar file, or a
-- symbolic link of a zip file, and `other` is what a tar file has besides these, files and directories.
pub data EntryKind : Type 0 where
  file dir link other : EntryKind

pub record Entry : Type 0 where
  pub name : String
  pub size : ℤ
  pub kind : EntryKind

-- `Member`
pub record Member : Type 0 where
  pub name : String
  pub size : ℕ
  pub is_dir : Bool

pub data Format : Type 0 where
  tar : List Entry → Format
  zip : List Entry → Format
  unsupported : Format

-- `MAX_MEMBER_BYTES`, `MAX_EXPANDED_BYTES` and `MAX_MEMBERS`
abbrev pub max_member : ℕ
max_member = 21474836480

abbrev pub max_expanded : ℕ
max_expanded = 85899345920

abbrev pub max_members : ℕ
max_members = 250000

unfoldable pub kind_is_dir : EntryKind → Option Bool
kind_is_dir EntryKind.file = some false
kind_is_dir EntryKind.dir = some true
kind_is_dir EntryKind.link = none
kind_is_dir EntryKind.other = none

-- a size that is allowed
unfoldable pub size_in : ℤ → Option ℕ
size_in (pos n) = if ltb max_member n then none else some n
size_in (negsuc n) = none

unfoldable pub member_of : Entry → Option Member
member_of e = do
  name ← safe_name e.name
  is_dir ← kind_is_dir e.kind
  size ← size_in e.size
  some (record { name = name; size = size; is_dir = is_dir })

abbrev pub add_member : Member → Bool → Option (List Member) → Option (List Member)
add_member m too_large rest =
    if too_large then none else (elim rest [ none ↦ none | some ms ↦ some (m ∷ ms) ])

-- the loop over the entries, with the bytes so far
unfoldable pub collect : ℕ → List Entry → Option (List Member)
collect expanded [] = some []
collect expanded (e ∷ es) = elim (member_of e) [
  | none ↦ none
  | some m ↦ add_member m (ltb max_expanded (expanded + m.size)) (collect (expanded + m.size) es)
]

unfoldable pub entries_of : Format → Option (List Entry)
entries_of (Format.tar es) = some es
entries_of (Format.zip es) = some es
entries_of Format.unsupported = none

-- the members of an archive
unfoldable pub members_of : Format → Option (List Member)
members_of f = elim (entries_of f) [
  | none ↦ none
  | some es ↦ if ltb max_members (length es) then none else collect 0 es
]
