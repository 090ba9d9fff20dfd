-- ===== src/Bandwidth/Scanned.antt =====
-- A log that is read in two parts, the first of which ends with a line, for
-- agent/bandwidth_accounting.py.
use Prim.Native.Char.{Char, code}
use Prim.Native.String.{[], ◌∷◌}
use nexvary_panel.Base.{
  ℕ, ◌+◌, ◌-◌, String, ◌≡◌, refl, ap, ◌∙◌, ◌⊎◌, inl, inr, true, false, ◌||◌, some, eqb, ltb, arith,
  Bool-cases,
}
use mathlib.Core.List.{List, ◌++◌}
use nexvary_panel.Base.Names.{push}
use nexvary_panel.Base.Text.{◌⧺◌, append-nil, chars, suffix}
use nexvary_panel.Bandwidth.Log.{max_read, read_lines, ends_line, sum_lines, log_total, scan}

pub chars-append : (a b : String) → chars (a ⧺ b) ≡ chars a + chars b
unfolding chars
chars-append [] b = omega arith
chars-append (c ∷ a) b = omega (arith, chars-append a b)

pub suffix-append : (a b : String) → suffix (chars a) (a ⧺ b) ≡ b
unfolding chars suffix
suffix-append [] b = refl
suffix-append (c ∷ a) b = suffix-append a b

push-append :
    (c : Char) (ls ms : List String)
    → (l : String) × (rest : List String) × (ls ≡ List.◌∷◌ l rest)
    → push c (ls ++ ms) ≡ push c ls ++ ms
unfolding push
push-append c ls ms (l, rest, e) = rw e refl

push_some :
    (c : Char) (ls : List String)
    → (l : String) × (rest : List String) × (push c ls ≡ List.◌∷◌ l rest)
unfolding push
push_some c List.[] = (c ∷ [], List.[], refl)
push_some c (List.◌∷◌ l ls) = (c ∷ l, ls, refl)

read_lines_some :
    (room : ℕ) (c : Char) (s : String)
    → (l : String) × (rest : List String) × (read_lines room (c ∷ s) ≡ List.◌∷◌ l rest)
unfolding read_lines
read_lines_some room c s = elim (Bool-cases (eqb (code c) 10 || eqb room 1)) [
  | inl last ↦ (c ∷ [], read_lines max_read s, rw last refl)
  | inr inside ↦ rw inside (push_some c (read_lines (room - 1) s))
]

-- the text ends with a line, or is empty
abbrev pub IsWhole : String → Type 0
IsWhole a = (a ≡ "") ⊎ (ends_line a ≡ true)

read_lines-append :
    (room : ℕ) (a b : String)
    → ends_line a ≡ true
    → read_lines room (a ⧺ b) ≡ read_lines room a ++ read_lines max_read b
unfolding read_lines ends_line
read_lines-append room [] b h = absurd (cc h)
read_lines-append room (c ∷ []) b h = rw h refl
read_lines-append room (c ∷ d ∷ s) b h = elim (Bool-cases (eqb (code c) 10 || eqb room 1)) [
  | inl last ↦ rw last (ap (List.◌∷◌ (c ∷ [])) (read_lines-append max_read (d ∷ s) b h))
  | inr inside ↦ rw inside (
      ap (push c) (read_lines-append (room - 1) (d ∷ s) b h)
      ∙ push-append c (read_lines (room - 1) (d ∷ s)) (read_lines max_read b)
          (read_lines_some (room - 1) d s))
]

sum_lines-append :
    (period : String) (ls ms : List String)
    → sum_lines period (ls ++ ms) ≡ sum_lines period ls + sum_lines period ms
unfolding sum_lines
sum_lines-append period List.[] ms = omega arith
sum_lines-append period (List.◌∷◌ l ls) ms = omega (arith, sum_lines-append period ls ms)

-- What two parts have sent, the whole has sent.
pub log_total-append :
    (period a b : String)
    → IsWhole a
    → log_total period (a ⧺ b) ≡ log_total period a + log_total period b
unfolding log_total read_lines sum_lines
log_total-append period a b (inl none_yet) = rw none_yet (omega arith)
log_total-append period a b (inr whole) =
    ap (sum_lines period) (read_lines-append max_read a b whole)
    ∙ sum_lines-append period (read_lines max_read a) (read_lines max_read b)

-- A scan from the end of a part reads the rest.
pub scan-append :
    (period a b : String) → scan (a ⧺ b) (chars a) period ≡ some (log_total period b, chars (a ⧺ b))
unfolding scan
scan-append period a b =
    let fits : ltb (chars (a ⧺ b)) (chars a) ≡ false = ground (arith, chars-append a b) in
    rw (fits, suffix-append a b) refl

ends_line-append : (a b : String) → ends_line b ≡ true → ends_line (a ⧺ b) ≡ true
unfolding ends_line
ends_line-append [] b h = h
ends_line-append (c ∷ []) [] h = absurd (cc h)
ends_line-append (c ∷ []) (d ∷ b) h = h
ends_line-append (c ∷ d ∷ a) b h = ends_line-append (d ∷ a) b h

pub append-IsWhole : (a b : String) → ends_line b ≡ true → IsWhole (a ⧺ b)
append-IsWhole a b h = inr (ends_line-append a b h)

pub two-IsWhole : (a b : String) → IsWhole a → IsWhole b → IsWhole (a ⧺ b)
two-IsWhole a b h (inl empty) = rw (empty, append-nil a) h
two-IsWhole a b h (inr whole) = append-IsWhole a b whole
