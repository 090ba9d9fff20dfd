-- ===== src/AutoSsl/Preflight.antt =====
-- What agent/autossl_scheduler.py reads of the answers of the provider: `_expiry_epoch`,
-- `_eligible` and `_preflight_detail`.
use Prim.Native.Char.{code}
use nexvary_panel.Base.{
  ℕ, String, Bool, ◌&&◌, ◌||◌, Option, none, some, List, [], ◌∷◌, eqb, leb, if◌then◌else◌,
  starts_with,
}
use nexvary_panel.Base.Int.{ℤ}
use nexvary_panel.Base.Json.{Json, Fields, Items, get_or, flag, text_of, take_items}
use nexvary_panel.Base.Names.{push}
use nexvary_panel.Base.Sets.{contains}
use nexvary_panel.Base.Lists.{all}
use nexvary_panel.Base.Text.{◌⧺◌, prefix, suffix, strip, lower, rstrip_dots, truthy}

-- the characters at which `str.splitlines` splits
unfoldable pub is_line_break : ℕ → Bool
is_line_break c =
    (leb 10 c && leb c 13) || (leb 28 c && leb c 30) || eqb c 133 || eqb c 8232 || eqb c 8233

-- `detail.splitlines()`, with an empty line within `"\r\n"`, which is none that is looked for
unfoldable pub split_lines : String → List String
split_lines String.[] = String.[] ∷ []
split_lines (String.◌∷◌ c s) =
    let rest = split_lines s in if is_line_break (code c) then String.[] ∷ rest else push c rest

unfoldable pub expiry_line : List String → Option String
expiry_line [] = none
expiry_line (l ∷ ls) =
    if starts_with l "notAfter=" then some (strip (suffix 9 l)) else expiry_line ls

-- `_expiry_epoch`; `parse_date` gives the seconds of the epoch of a date, if it is one
unfoldable pub expiry_epoch : (String → Option ℤ) → Json → Option ℤ
expiry_epoch parse_date (Json.str detail) = elim (expiry_line (split_lines detail)) [
  | none ↦ none
  | some value ↦ parse_date value
]
expiry_epoch parse_date v = none

-- `[str(v).lower().rstrip(".") for v in values if isinstance(v, str)]`
unfoldable pub name_list : Items → List String
name_list Items.stop = []
name_list (Items.item (Json.str s) l) = rstrip_dots (lower s) ∷ name_list l
name_list (Items.item v l) = name_list l

-- `_eligible`
unfoldable pub eligible_of : Json → Bool → List String → List String
eligible_of (Json.list s l) ready fallback = name_list l
eligible_of v ready fallback = if ready then fallback else []

unfoldable pub eligible : Fields → List String → List String
eligible preflight fallback =
    eligible_of (get_or "eligible_domains" Json.null preflight) (flag "ready" preflight) fallback

-- `set(a) == set(b)`
unfoldable pub same_names : List String → List String → Bool
same_names a b = all (contains b) a && all (contains a) b

unfoldable pub checks_of : Json → Items
checks_of (Json.list s l) = l
checks_of v = Items.stop

unfoldable pub failed_checks : Items → List String
failed_checks Items.stop = []
failed_checks (Items.item (Json.dict s d) l) =
    let rest = failed_checks l in
    if flag "ready" d
    then rest
    else (text_of "domain" "?" d ⧺ ":" ⧺ text_of "reason" "not-ready" d) ∷ rest
failed_checks (Items.item v l) = failed_checks l

-- `"; ".join(l)`
unfoldable pub join_checks : List String → String
join_checks [] = ""
join_checks (s ∷ []) = s
join_checks (s ∷ t ∷ l) = s ⧺ "; " ⧺ join_checks (t ∷ l)

-- `_preflight_detail`
unfoldable pub preflight_detail : Fields → String
preflight_detail result =
    let failed =
      join_checks (failed_checks (take_items 8 (checks_of (get_or "checks" Json.null result)))) in
    if flag "ready" result
    then if truthy failed
      then prefix 700 ("AutoSSL primary ready; excluded SANs: " ⧺ failed)
      else "AutoSSL HTTP-01 preflight passed for all names"
    else prefix 700
        (if truthy failed then failed else text_of "error" "AutoSSL preflight failed" result)
