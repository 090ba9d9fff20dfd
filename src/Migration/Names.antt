-- ===== src/Migration/Names.antt =====
-- Names in an archive: `_safe_name`, `_parts`, `_domain` and `_db` of agent/migration_adapters.py.
-- `none` is a ValueError.
use Prim.Native.Char.{code}
use nexvary_panel.Base.{
  String, ◌==◌, Bool, false, not, ◌&&◌, ◌||◌, Option, none, some, List, [], ◌∷◌, eqb, if◌then◌else◌,
  starts_with,
}
use nexvary_panel.Base.Lists.{any, select, length}
use nexvary_panel.Base.Names.{split, is_domain, is_letter, matches}
use nexvary_panel.Base.Text.{◌⧺◌, any_char, truthy, strip, lower, rstrip_dots, is_alnum}

-- `_domain`, of a text
unfoldable pub domain_name : String → Option String
domain_name value =
    let domain = rstrip_dots (lower (strip value)) in if is_domain domain then some domain else none

-- `_db`, of a text
unfoldable pub db_name : String → Option String
db_name value =
    let name = strip value in
    if matches is_letter (λ c. is_alnum c || eqb c b'_') 0 31 name then some name else none

-- `raw.replace("\\", "/")`
unfoldable pub slashes : String → String
slashes String.[] = String.[]
slashes (String.◌∷◌ c s) = if eqb (code c) b'\\' then "/" ⧺ slashes s else String.◌∷◌ c (slashes s)

-- `while name.startswith("./"): name = name[2:]`
unfoldable pub drop_here : String → String
drop_here String.[] = String.[]
drop_here (String.◌∷◌ c String.[]) = String.◌∷◌ c String.[]
drop_here (String.◌∷◌ c (String.◌∷◌ d s)) =
    let rest = drop_here s in
    if eqb (code c) b'.' && eqb (code d) b'/' then rest else String.◌∷◌ c (String.◌∷◌ d s)

-- `re.match(r"^[A-Za-z]:/", name)`
unfoldable pub has_drive : String → Bool
has_drive (String.◌∷◌ c (String.◌∷◌ d (String.◌∷◌ e s))) =
    is_letter (code c) && eqb (code d) b':' && eqb (code e) b'/'
has_drive _ = false

abbrev pub is_part : String → Bool
is_part s = truthy s && not (s == ".")

-- `PurePosixPath(name).parts` of a relative path: what stands between slashes, without empty parts
-- and dots
unfoldable pub parts_of : String → List String
parts_of name = select is_part (split b'/' name)

-- `"/".join(parts)`
unfoldable pub join_path : List String → String
join_path [] = ""
join_path (p ∷ []) = p
join_path (p ∷ q ∷ l) = p ⧺ "/" ⧺ join_path (q ∷ l)

abbrev pub is_up : String → Bool
is_up p = p == ".."

-- the parts of a name that is safe
unfoldable pub safe_parts : String → Option (List String)
safe_parts name =
    if not (truthy name)
      || any_char (λ c. eqb c 0) name
      || has_drive name
      || starts_with name "/"
      || any is_up (parts_of name)
      || eqb (length (parts_of name)) 0
    then none
    else some (parts_of name)

-- `_safe_name`
unfoldable pub safe_name : String → Option String
safe_name raw = elim (safe_parts (drop_here (slashes raw))) [
  | none ↦ none
  | some parts ↦ some (join_path parts)
]
