-- ===== src/Base/Text.antt =====
-- Python's text methods that the source calls, on the native texts: slices, `strip`, `lower`,
-- `rstrip('.')`, and the character classes of its regular expressions. `lower` is exact on ASCII.
use Prim.Native.Nat.{ℕ, zero, suc, ◌-◌, ◌≤◌}
use Prim.Native.Char.{Char, code}
use Prim.Native.String.{String, [], ◌∷◌}
use mathlib.Core.Path.{◌≡◌, refl, ap}
use mathlib.Core.Bool.{Bool, true, false, ◌&&◌, ◌||◌}
use mathlib.Core.Option.{Option, none, some}
use native.Mathlib.Omega.{arith}
use text.Mathlib.Text.{◌==◌}
use nexvary_panel.Base.Tests.{leb, eqb, if◌then◌else◌, and-true}

-- `len(s)`: characters, not bytes
unfoldable pub chars : String → ℕ
chars [] = 0
chars (c ∷ s) = suc (chars s)

-- `s[:n]`
unfoldable pub prefix : ℕ → String → String
prefix zero s = []
prefix (suc n) [] = []
prefix (suc n) (c ∷ s) = c ∷ prefix n s

-- `s[n:]`
unfoldable pub suffix : ℕ → String → String
suffix zero s = s
suffix (suc n) [] = []
suffix (suc n) (c ∷ s) = suffix n s

-- every character satisfies the test
unfoldable pub all_chars : (ℕ → Bool) → String → Bool
all_chars p [] = true
all_chars p (c ∷ s) = p (code c) && all_chars p s

-- `any(ch in s …)`
unfoldable pub any_char : (ℕ → Bool) → String → Bool
any_char p [] = false
any_char p (c ∷ s) = p (code c) || any_char p s

-- a text is true if it is not empty
abbrev pub truthy : String → Bool
truthy [] = false
truthy (c ∷ s) = true

abbrev pub is_digit : ℕ → Bool
is_digit c = leb b'0' c && leb c b'9'

abbrev pub is_lower : ℕ → Bool
is_lower c = leb b'a' c && leb c b'z'

abbrev pub is_upper : ℕ → Bool
is_upper c = leb b'A' c && leb c b'Z'

abbrev pub is_alnum : ℕ → Bool
is_alnum c = is_digit c || is_lower c || is_upper c

-- the characters that `str.strip` drops
unfoldable pub is_space : ℕ → Bool
is_space c =
    (leb 9 c && leb c 13)
    || (leb 28 c && leb c 32)
    || eqb c 133
    || eqb c 160
    || eqb c 5760
    || (leb 8192 c && leb c 8202)
    || eqb c 8232
    || eqb c 8233
    || eqb c 8239
    || eqb c 8287
    || eqb c 12288

unfoldable pub lstrip : (ℕ → Bool) → String → String
lstrip p [] = []
lstrip p (c ∷ s) = let rest = lstrip p s in if p (code c) then rest else c ∷ s

add_left : (ℕ → Bool) → Char → String → String
add_left p c [] = if p (code c) then [] else c ∷ []
add_left p c (d ∷ s) = c ∷ d ∷ s

unfoldable pub rstrip : (ℕ → Bool) → String → String
unfolding add_left
rstrip p [] = []
rstrip p (c ∷ s) = add_left p c (rstrip p s)

unfoldable pub strip : String → String
unfolding lstrip rstrip is_space
strip s = lstrip is_space (rstrip is_space s)

-- `s.rstrip(".")`
unfoldable pub rstrip_dots : String → String
unfolding rstrip
rstrip_dots s = rstrip (λ c. eqb c b'.') s

unfoldable pub nth_char : ℕ → String → Char → Char
nth_char n [] d = d
nth_char zero (c ∷ s) d = c
nth_char (suc n) (c ∷ s) d = nth_char n s d

-- A character of a text that satisfies a test satisfies it.
pub all_chars-nth :
    (p : ℕ → Bool) (n : ℕ) (s : String) (d : Char)
    → all_chars p s ≡ true
    → p (code d) ≡ true
    → p (code (nth_char n s d)) ≡ true
unfolding all_chars nth_char
all_chars-nth p n [] d h k = k
all_chars-nth p zero (c ∷ s) d h k = (and-true (p (code c)) (all_chars p s) h).0
all_chars-nth p (suc n) (c ∷ s) d h k =
    all_chars-nth p n s d (and-true (p (code c)) (all_chars p s) h).1 k

pub all_chars-weaken :
    (p q : ℕ → Bool)
    → ((c : ℕ) → p c ≡ true → q c ≡ true)
    → (s : String) → all_chars p s ≡ true
    → all_chars q s ≡ true
unfolding all_chars
all_chars-weaken p q h [] k = refl
all_chars-weaken p q h (c ∷ s) k =
    let (here, there) = and-true (p (code c)) (all_chars p s) k in
    rw (h (code c) here, all_chars-weaken p q h s there) refl

lower_char : Char → Char
unfolding nth_char
lower_char c =
    if is_upper (code c) then nth_char (code c - b'A') "abcdefghijklmnopqrstuvwxyz" c else c

upper_char : Char → Char
unfolding nth_char
upper_char c =
    if is_lower (code c) then nth_char (code c - b'a') "ABCDEFGHIJKLMNOPQRSTUVWXYZ" c else c

-- `s.upper()` on ASCII
unfoldable pub upper : String → String
unfolding upper_char
upper [] = []
upper (c ∷ s) = upper_char c ∷ upper s

-- `s.lower()` on ASCII
unfoldable pub lower : String → String
unfolding lower_char
lower [] = []
lower (c ∷ s) = lower_char c ∷ lower s

-- `hmac.compare_digest` on two texts: it raises if one of them is not ASCII.
unfoldable pub compare_digest : String → String → Option Bool
unfolding all_chars
compare_digest a b =
    if all_chars (λ c. leb c 127) a && all_chars (λ c. leb c 127) b then some (a == b) else none

-- `sep in s`, and the two parts of `s.split(sep, 1)`
unfoldable pub split_at_char : ℕ → String → Option (String × String)
split_at_char sep [] = none
split_at_char sep (c ∷ s) =
    let rest = split_at_char sep s in
    if eqb (code c) sep
    then some ([], s)
    else elim rest [ none ↦ none | some (a, b) ↦ some (c ∷ a, b) ]

lower_test : lower (strip "  NginX ") ≡ "nginx"
unfolding lower strip
lower_test = refl

pub chars-prefix : (n : ℕ) (s : String) → chars (prefix n s) ≤ n
unfolding chars prefix
chars-prefix zero s = omega arith
chars-prefix (suc n) [] = omega arith
chars-prefix (suc n) (c ∷ s) = omega (arith, chars-prefix n s)

-- A slice that is at least as long as the text is the text.
pub prefix_short : (n : ℕ) (s : String) → chars s ≤ n → prefix n s ≡ s
unfolding chars prefix
prefix_short zero [] h = refl
prefix_short zero (c ∷ s) h = absurd (omega arith)
prefix_short (suc n) [] h = refl
prefix_short (suc n) (c ∷ s) h = rw (prefix_short n s (omega arith))

split_test : split_at_char b'=' "a=b=c" ≡ some ("a", "b=c")
unfolding split_at_char
split_test = refl

-- `s + t`. It computes where `s` is a literal and `t` is not.
infixr 25 ◌⧺◌
abbrev pub ◌⧺◌ : String → String → String
[] ⧺ t = t
(c ∷ s) ⧺ t = c ∷ (s ⧺ t)

pub append_assoc : (a b c : String) → (a ⧺ b) ⧺ c ≡ a ⧺ (b ⧺ c)
append_assoc [] b c = refl
append_assoc (x ∷ a) b c = ap (λ s. x ∷ s) (append_assoc a b c)

pub append-nil : (a : String) → a ⧺ [] ≡ a
append-nil [] = refl
append-nil (x ∷ a) = ap (λ s. x ∷ s) (append-nil a)
