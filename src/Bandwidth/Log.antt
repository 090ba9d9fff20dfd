-- ===== src/Bandwidth/Log.antt =====
-- Lines of an access log: `LOG_RE`, `_line_period` and `_scan` of agent/bandwidth_accounting.py. A
-- character of a text here is a byte of the file.
use Prim.Native.Char.{code}
use Prim.Native.String.{[], ◌∷◌}
use nexvary_panel.Base.{
  ℕ, ◌+◌, ◌-◌, suc, String, ◌==◌, Bool, false, not, ◌&&◌, ◌||◌, Option, none, some, ◌>>=◌, eqb, leb,
  ltb, if◌then◌else◌,
}
use mathlib.Core.List.{List}
use nexvary_panel.Base.Int.{ℤ, pos, negsuc}
use nexvary_panel.Base.Json.{parse_int, show_ℕ}
use nexvary_panel.Base.Names.{push}
use nexvary_panel.Base.Sets.{lookup}
use nexvary_panel.Base.Text.{◌⧺◌, chars, prefix, suffix, truthy, is_digit, is_upper, all_chars}

-- the longest start of a text whose characters satisfy the test, and the rest
unfoldable pub span : (ℕ → Bool) → String → String × String
span p [] = ([], [])
span p (c ∷ s) = let (a, b) = span p s in if p (code c) then (c ∷ a, b) else ([], c ∷ s)

-- one character or more that satisfy the test, and what follows
unfoldable pub run : (ℕ → Bool) → String → Option (String × String)
run p s = let r = span p s in if truthy r.0 then some r else none

-- the character, and what follows
unfoldable pub expect : ℕ → String → Option String
expect k [] = none
expect k (c ∷ s) = if eqb (code c) k then some s else none

-- `\S` of a pattern on bytes
unfoldable pub is_visible : ℕ → Bool
is_visible c = not (eqb c b' ' || (leb 9 c && leb c 13))

-- `\d{3}`
unfoldable pub status : String → Option String
status s =
    if eqb (chars (prefix 3 s)) 3 && all_chars is_digit (prefix 3 s)
    then some (suffix 3 s)
    else none

-- `\d+|-`, with the space that follows
unfoldable pub size_field : String → Option String
size_field s = elim (run is_digit s) [
  | some (digits, rest) ↦ elim (expect b' ' rest) [ none ↦ none | some _ ↦ some digits ]
  | none ↦ elim (expect b'-' s) [
    | none ↦ none
    | some rest ↦ elim (expect b' ' rest) [ none ↦ none | some _ ↦ some "-" ]
  ]
]

-- `LOG_RE.match(line)`: the date and the size. Each part ends at a character that it cannot hold.
unfoldable pub match_line : String → Option (String × String)
match_line line = do
  address ← run is_visible line
  s1 ← expect b' ' address.1
  identity ← run is_visible s1
  s2 ← expect b' ' identity.1
  user ← run is_visible s2
  s3 ← expect b' ' user.1
  s4 ← expect b'[' s3
  date ← run (λ c. not (eqb c b']')) s4
  s5 ← expect b']' date.1
  s6 ← expect b' ' s5
  s7 ← expect b'"' s6
  method ← run is_upper s7
  s8 ← expect b' ' method.1
  path ← run is_visible s8
  s9 ← expect b' ' path.1
  protocol ← run (λ c. not (eqb c b'"')) s9
  s10 ← expect b'"' protocol.1
  s11 ← expect b' ' s10
  s12 ← status s11
  s13 ← expect b' ' s12
  size ← size_field s13
  some (date.0, size)

-- `MONTHS`
abbrev pub months : List (String × ℕ)
months =
    List.◌∷◌ ("Jan", 1)
      (List.◌∷◌ ("Feb", 2)
        (List.◌∷◌ ("Mar", 3)
          (List.◌∷◌ ("Apr", 4)
            (List.◌∷◌ ("May", 5)
              (List.◌∷◌ ("Jun", 6)
                (List.◌∷◌ ("Jul", 7)
                  (List.◌∷◌ ("Aug", 8)
                    (List.◌∷◌ ("Sep", 9)
                      (List.◌∷◌ ("Oct", 10)
                        (List.◌∷◌ ("Nov", 11) (List.◌∷◌ ("Dec", 12) List.[])))))))))))

-- a text of that length at least, with zeros before it
unfoldable pub zeros : ℕ → String → String
zeros width s =
    if leb width (chars s)
    then s
    else if eqb (width - chars s) 1
    then "0" ⧺ s
    else if eqb (width - chars s) 2
    then "00" ⧺ s
    else if eqb (width - chars s) 3
    then "000" ⧺ s
    else s

-- `f"{year:04d}"`
unfoldable pub year_text : ℤ → String
year_text (pos n) = zeros 4 (show_ℕ n)
year_text (negsuc n) = "-" ⧺ zeros 3 (show_ℕ (suc n))

unfoldable pub is_day : ℤ → Bool
is_day (pos n) = leb 1 n && leb n 31
is_day (negsuc n) = false

unfoldable pub date_period : String → Option String
date_period date = do
  day ← parse_int (prefix 2 date)
  year ← parse_int (prefix 4 (suffix 7 date))
  month ← lookup (prefix 3 (suffix 3 date)) months
  if is_day day then some (year_text year ⧺ "-" ⧺ zeros 2 (show_ℕ month)) else none

-- `_line_period`
unfoldable pub line_period : String → Option String
line_period date =
    if ltb (chars date) 11
      || not (prefix 1 (suffix 2 date) == "/")
      || not (prefix 1 (suffix 6 date) == "/")
    then none
    else date_period date

-- `MAX_LINE + 1`
abbrev pub max_read : ℕ
max_read = 65537

-- What `handle.readline(MAX_LINE + 1)` gives until the file ends, with `room` bytes left for the
-- first one: each ends with a newline, or is as long as it may be, or is the last.
unfoldable pub read_lines : ℕ → String → List String
read_lines room [] = List.[]
read_lines room (c ∷ s) =
    let next = List.◌∷◌ (c ∷ []) (read_lines max_read s) in
    let more = push c (read_lines (room - 1) s) in
    if eqb (code c) 10 || eqb room 1 then next else more

-- `line.endswith(b"\n")`
unfoldable pub ends_line : String → Bool
ends_line [] = false
ends_line (c ∷ []) = eqb (code c) 10
ends_line (c ∷ d ∷ s) = ends_line (d ∷ s)

-- `int(size)` of digits
unfoldable pub size_number : String → ℕ
size_number s = elim (parse_int s) [ some (pos n) ↦ n | _ ↦ 0 ]

-- what a line adds to the total of a month
unfoldable pub line_bytes : String → String → ℕ
line_bytes period line =
    if ltb (max_read - 1) (chars line) || not (ends_line line) then 0 else elim (match_line line) [
      | none ↦ 0
      | some (date, size) ↦ elim (line_period date) [
        | none ↦ 0
        | some p ↦ if p == period && all_chars is_digit size then size_number size else 0
      ]
    ]

unfoldable pub sum_lines : String → List String → ℕ
sum_lines period List.[] = 0
sum_lines period (List.◌∷◌ l ls) = line_bytes period l + sum_lines period ls

-- what the lines of a text have sent in a month
unfoldable pub log_total : String → String → ℕ
log_total period content = sum_lines period (read_lines max_read content)

-- `_scan(path, offset, period)` of a file with this content: the bytes, and where the next scan
-- starts. `none` is a ValueError.
unfoldable pub scan : String → ℕ → String → Option (ℕ × ℕ)
scan content offset period =
    if ltb (chars content) offset
    then none
    else some (log_total period (suffix offset content), chars content)
