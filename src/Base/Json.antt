-- ===== src/Base/Json.antt =====
-- JSON values as Python holds them after `request.get_json` or `json.loads`, and the conversions
-- that the handlers make: `str`, `int`, `bool`, `dict.get`. What a conversion of a float or of a
-- container gives is part of the value.
use Prim.Native.Nat.{ℕ, zero, suc, ◌+◌, ◌-◌, ◌*◌, ◌/◌, ◌%◌}
use Prim.Native.Char.{Char, code}
use Prim.Native.String.{String, ◌++◌}
use mathlib.Core.Path.{◌≡◌, refl}
use mathlib.Core.Logic.{inl, inr}
use mathlib.Core.Bool.{Bool, true, false, ◌&&◌}
use mathlib.Core.Option.{Option, none, some}
use native.Mathlib.Omega.{arith}
use text.Mathlib.Text.{◌==◌}
use nexvary_panel.Base.Tests.{eqb, if◌then◌else◌, Bool-cases}
use nexvary_panel.Base.Int.{ℤ, pos, negsuc}
use nexvary_panel.Base.Text.{is_digit, all_chars, all_chars-nth, nth_char, strip, prefix, truthy}

-- `number` is a float: its `str`, its truth and its `int`, which is absent where `int` raises.
-- `list` and `dict` have their `str`.
mutual
  pub data Json : Type 0 where
    null : Json
    bool : Bool → Json
    int : ℤ → Json
    number : String → Bool → Option ℤ → Json
    str : String → Json
    list : String → Items → Json
    dict : String → Fields → Json

  pub data Fields : Type 0 where
    end : Fields
    field : String → Json → Fields → Fields

  pub data Items : Type 0 where
    stop : Items
    item : Json → Items → Items

digit : ℕ → Char
unfolding nth_char
digit n = nth_char n "0123456789" (Char.char b'0' tt)

-- The digits of `n` before `rest`. As much fuel as `n` is more than its digits need.
show_digits : ℕ → ℕ → String → String
unfolding digit
show_digits zero n rest = rest
show_digits (suc fuel) n rest =
    let more = show_digits fuel (n / 10) (String.◌∷◌ (digit (n % 10)) rest) in
    if eqb n 0 then rest else more

-- `str(n)`
unfoldable pub show_ℕ : ℕ → String
unfolding show_digits
show_ℕ n = if eqb n 0 then "0" else show_digits n n ""

all_chars-show_digits :
    (fuel n : ℕ) (rest : String)
    → all_chars is_digit rest ≡ true
    → all_chars is_digit (show_digits fuel n rest) ≡ true
unfolding show_digits all_chars digit
all_chars-show_digits zero n rest h = h
all_chars-show_digits (suc fuel) n rest h = elim (Bool-cases (eqb n 0)) [
  | inl done ↦ rw done h
  | inr more ↦
      let first : is_digit (code (digit (n % 10))) ≡ true =
        all_chars-nth is_digit (n % 10) "0123456789" (Char.char b'0' tt) refl refl in
      rw more (
        all_chars-show_digits fuel (n / 10) (String.◌∷◌ (digit (n % 10)) rest) (rw (first, h) refl))
]

-- A number is written in digits.
pub all_chars-show_ℕ : (n : ℕ) → all_chars is_digit (show_ℕ n) ≡ true
unfolding show_ℕ all_chars
all_chars-show_ℕ n = elim (Bool-cases (eqb n 0)) [
  | inl zero_case ↦ rw zero_case refl
  | inr more ↦ rw more (all_chars-show_digits n n "" refl)
]

truthy-show_digits :
    (fuel n : ℕ) (rest : String) → truthy rest ≡ true → truthy (show_digits fuel n rest) ≡ true
unfolding show_digits
truthy-show_digits zero n rest h = h
truthy-show_digits (suc fuel) n rest h = elim (Bool-cases (eqb n 0)) [
  | inl done ↦ rw done h
  | inr more ↦ rw more (truthy-show_digits fuel (n / 10) (String.◌∷◌ (digit (n % 10)) rest) refl)
]

pub truthy-show_ℕ : (n : ℕ) → truthy (show_ℕ n) ≡ true
unfolding show_ℕ show_digits
truthy-show_ℕ zero = refl
truthy-show_ℕ (suc n) =
    let more : eqb (suc n) 0 ≡ false = ground arith in
    rw more (truthy-show_digits n (suc n / 10) (String.◌∷◌ (digit (suc n % 10)) "") refl)

unfoldable pub show_ℤ : ℤ → String
show_ℤ (pos n) = show_ℕ n
show_ℤ (negsuc n) = "-" ++ show_ℕ (suc n)

-- the digits of `int(s)`, with single underscores between them
digits : ℕ → Bool → String → Option ℕ
digits n after_digit String.[] = if after_digit then some n else none
digits n after_digit (String.◌∷◌ c s) =
    let more = digits (n * 10 + (code c - b'0')) true s in
    let skip = digits n false s in
    if is_digit (code c) then more else if eqb (code c) b'_' && after_digit then skip else none

negate : ℕ → ℤ
negate zero = pos 0
negate (suc n) = negsuc n

signed : String → Option ℤ
unfolding digits negate
signed String.[] = none
signed (String.◌∷◌ c s) =
    if eqb (code c) b'-'
    then (elim (digits 0 false s) [ none ↦ none | some n ↦ some (negate n) ])
    else if eqb (code c) b'+'
    then (elim (digits 0 false s) [ none ↦ none | some n ↦ some (pos n) ])
    else (elim (digits 0 false (String.◌∷◌ c s)) [ none ↦ none | some n ↦ some (pos n) ])

-- `int(s)` of a text, on ASCII
unfoldable pub parse_int : String → Option ℤ
unfolding signed
parse_int s = signed (strip s)

-- `str(v)`
unfoldable pub str_of : Json → String
str_of Json.null = "None"
str_of (Json.bool true) = "True"
str_of (Json.bool false) = "False"
str_of (Json.int n) = show_ℤ n
str_of (Json.number s t n) = s
str_of (Json.str s) = s
str_of (Json.list s t) = s
str_of (Json.dict s d) = s

-- `int(v)`; `none` is a TypeError, a ValueError or an OverflowError
unfoldable pub int_of : Json → Option ℤ
int_of Json.null = none
int_of (Json.bool true) = some (pos 1)
int_of (Json.bool false) = some (pos 0)
int_of (Json.int n) = some n
int_of (Json.number s t n) = n
int_of (Json.str s) = parse_int s
int_of (Json.list s t) = none
int_of (Json.dict s d) = none

-- `bool(v)`
unfoldable pub truth : Json → Bool
truth Json.null = false
truth (Json.bool b) = b
truth (Json.int (pos zero)) = false
truth (Json.int (pos (suc n))) = true
truth (Json.int (negsuc n)) = true
truth (Json.number s t n) = t
truth (Json.str s) = truthy s
truth (Json.list s Items.stop) = false
truth (Json.list s (Items.item v l)) = true
truth (Json.dict s Fields.end) = false
truth (Json.dict s (Fields.field k v d)) = true

-- `d.get(key)`
unfoldable pub get : String → Fields → Option Json
get key Fields.end = none
get key (Fields.field k v d) = if k == key then some v else get key d

-- `d.get(key, default)`
unfoldable pub get_or : String → Json → Fields → Json
get_or key default d = elim (get key d) [ none ↦ default | some v ↦ v ]

-- `str(d.get(key, default))`
unfoldable pub text_of : String → String → Fields → String
text_of key default d = str_of (get_or key (Json.str default) d)

-- `bool(d.get(key))`
unfoldable pub flag : String → Fields → Bool
flag key d = truth (get_or key Json.null d)

-- `v if isinstance(v, dict) else {}`
unfoldable pub dict_or_empty : Json → Fields
dict_or_empty (Json.dict s d) = d
dict_or_empty v = Fields.end

-- `d[key] = v`
unfoldable pub put : String → Json → Fields → Fields
put key v Fields.end = Fields.field key v Fields.end
put key v (Fields.field k w d) =
    if k == key then Fields.field k v d else Fields.field k w (put key v d)

unfoldable pub is_scalar : Json → Bool
is_scalar (Json.list s t) = false
is_scalar (Json.dict s d) = false
is_scalar v = true

-- `{str(key)[:64]: raw for key, raw in list(value.items())[:32] if isinstance(raw, (str, int,
-- float, bool, type(None)))}`
safe_items : ℕ → Fields → Fields → Fields
safe_items zero d out = out
safe_items (suc n) Fields.end out = out
safe_items (suc n) (Fields.field k v d) out =
    safe_items n d (if is_scalar v then put (prefix 64 k) v out else out)

-- `_safe_result`
unfoldable pub safe_result : Json → Fields
unfolding safe_items
safe_result (Json.dict s d) = safe_items 32 d Fields.end
safe_result v = Fields.end

letters : String → Items
letters String.[] = Items.stop
letters (String.◌∷◌ c s) = Items.item (Json.str (String.◌∷◌ c String.[])) (letters s)

keys : Fields → Items
keys Fields.end = Items.stop
keys (Fields.field k v d) = Items.item (Json.str k) (keys d)

iterated : Json → Option Items
iterated (Json.list s l) = some l
iterated (Json.str s) = some (letters s)
iterated (Json.dict s d) = some (keys d)
iterated v = none

-- `list(v or [])`; `none` is a TypeError
unfoldable pub list_of : Json → Option Items
unfolding letters keys iterated
list_of v = if truth v then iterated v else some Items.stop

-- `l[:n]`
unfoldable pub take_items : ℕ → Items → Items
take_items zero l = Items.stop
take_items (suc n) Items.stop = Items.stop
take_items (suc n) (Items.item v l) = Items.item v (take_items n l)

-- `request.get_json(silent=True) or {}`: an object, nothing or something false, or another value
pub data Body : Type 0 where
  object : Fields → Body
  empty : Body
  other : Body

number_test : (parse_int " -1_0 " ≡ some (negsuc 9)) × (str_of (Json.int (pos 305)) ≡ "305")
unfolding parse_int str_of show_ℤ show_ℕ strip
number_test = (refl, refl)
