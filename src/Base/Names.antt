-- ===== src/Base/Names.antt =====
-- The regular expressions of panel/config.py, as tests on texts.
use Prim.Native.Nat.{ℕ}
use Prim.Native.Char.{Char, code}
use Prim.Native.String.{String}
use mathlib.Core.Path.{◌≡◌, refl}
use mathlib.Core.Bool.{Bool, true, false, ◌&&◌, ◌||◌}
use mathlib.Core.List.{List, [], ◌∷◌}
use nexvary_panel.Base.Tests.{eqb, leb, if◌then◌else◌}
use nexvary_panel.Base.Text.{chars, all_chars, truthy, is_alnum, is_lower, is_upper, suffix}

unfoldable pub push : Char → List String → List String
push c [] = String.◌∷◌ c String.[] ∷ []
push c (w ∷ ws) = String.◌∷◌ c w ∷ ws

-- `s.split(sep)`
unfoldable pub split : ℕ → String → List String
unfolding push
split sep String.[] = String.[] ∷ []
split sep (String.◌∷◌ c s) =
    let rest = split sep s in if eqb (code c) sep then String.[] ∷ rest else push c rest

-- the first and the last character satisfy the test
unfoldable pub starts_with_char : (ℕ → Bool) → String → Bool
starts_with_char p String.[] = false
starts_with_char p (String.◌∷◌ c s) = p (code c)

unfoldable pub ends_with_char : (ℕ → Bool) → String → Bool
ends_with_char p String.[] = false
ends_with_char p (String.◌∷◌ c s) =
    let rest = ends_with_char p s in if truthy s then rest else p (code c)

abbrev pub is_letter : ℕ → Bool
is_letter c = is_lower c || is_upper c

-- `[a-zA-Z0-9](?:[a-zA-Z0-9-]{0,61}[a-zA-Z0-9])?`
unfoldable pub is_label : String → Bool
unfolding chars all_chars starts_with_char ends_with_char
is_label s =
    leb 1 (chars s)
    && leb (chars s) 63
    && all_chars (λ c. is_alnum c || eqb c b'-') s
    && starts_with_char is_alnum s
    && ends_with_char is_alnum s

-- `[A-Za-z]{2,63}`
unfoldable pub is_top_label : String → Bool
unfolding chars all_chars
is_top_label s = leb 2 (chars s) && leb (chars s) 63 && all_chars is_letter s

domain_labels : List String → Bool
domain_labels [] = false
domain_labels (t ∷ []) = is_top_label t
domain_labels (l ∷ m ∷ ls) = is_label l && domain_labels (m ∷ ls)

-- two labels at least
many_labels : List String → Bool
many_labels (l ∷ m ∷ ls) = domain_labels (l ∷ m ∷ ls)
many_labels ls = false

-- `DOMAIN_RE.fullmatch`
unfoldable pub is_domain : String → Bool
unfolding chars split domain_labels many_labels
is_domain s = leb (chars s) 253 && many_labels (split b'.' s)

-- `[head][rest]{low,high}` of a whole text
unfoldable pub matches : (ℕ → Bool) → (ℕ → Bool) → ℕ → ℕ → String → Bool
unfolding chars all_chars
matches head rest low high s =
    starts_with_char head s
    && leb low (chars (suffix 1 s))
    && leb (chars (suffix 1 s)) high
    && all_chars rest (suffix 1 s)

domain_test :
    (is_domain "a-1.example.org" ≡ true)
    × (is_domain "example" ≡ false)
    × (is_domain "-a.org" ≡ false)
    × (is_domain "a..org" ≡ false)
unfolding is_domain is_label is_top_label chars all_chars split starts_with_char ends_with_char
domain_test = (refl, refl, refl, refl)
