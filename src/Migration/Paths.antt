-- ===== src/Migration/Paths.antt =====
-- The parts of the names that `_safe_name` of agent/migration_adapters.py lets through.
use Prim.Native.Char.{Char, code}
use mathlib.Core.Path.{subst}
use nexvary_panel.Base.{
  String, ◌≡◌, refl, ap, ◌∙◌, inl, inr, Bool, true, false, some, List, [], ◌∷◌, eqb, arith,
  Bool-cases, Option-cases,
}
use nexvary_panel.Base.Lists.{All, All-select, any, select, length}
use nexvary_panel.Base.Names.{split, push}
use nexvary_panel.Base.Text.{◌⧺◌, any_char}
use nexvary_panel.Migration.Names.{
  is_part, is_up, parts_of, join_path, safe_parts, safe_name, slashes, drop_here,
}

abbrev pub has_slash : String → Bool
has_slash p = any_char (λ c. eqb c b'/') p

-- A part of a path that names an entry of the directory before it: it is not empty, not this
-- directory, not the one above, and has no slash.
abbrev pub IsPlain : String → Type 0
IsPlain p = (is_part p ≡ true) × (is_up p ≡ false) × (has_slash p ≡ false)

push-Slashless :
    (c : Char) (l : List String)
    → eqb (code c) b'/' ≡ false
    → All (λ p. has_slash p ≡ false) l
    → All (λ p. has_slash p ≡ false) (push c l)
unfolding push any_char
push-Slashless c [] e h = (rw e refl, tt)
push-Slashless c (p ∷ l) e h = (rw (e, h.0) refl, h.1)

split_slashless : (s : String) → All (λ p. has_slash p ≡ false) (split b'/' s)
unfolding split any_char
split_slashless String.[] = (refl, tt)
split_slashless (String.◌∷◌ c s) = elim (Bool-cases (eqb (code c) b'/')) [
  | inl slash ↦ rw slash (refl, split_slashless s)
  | inr other ↦ rw other (push-Slashless c (split b'/' s) other (split_slashless s))
]

split_last : (p : String) → has_slash p ≡ false → split b'/' p ≡ p ∷ []
unfolding split push any_char
split_last String.[] h = refl
split_last (String.◌∷◌ c p) h = elim (Bool-cases (eqb (code c) b'/')) [
  | inl slash ↦ absurd (cc (rw slash at h))
  | inr other ↦ let k : has_slash p ≡ false = rw other at h in rw (other, split_last p k) refl
]

split_first :
    (p rest : String) → has_slash p ≡ false → split b'/' (p ⧺ "/" ⧺ rest) ≡ p ∷ split b'/' rest
unfolding split push any_char
split_first String.[] rest h = refl
split_first (String.◌∷◌ c p) rest h = elim (Bool-cases (eqb (code c) b'/')) [
  | inl slash ↦ absurd (cc (rw slash at h))
  | inr other ↦ let k : has_slash p ≡ false = rw other at h in rw (other, split_first p rest k) refl
]

split-join_path :
    (p : String) (l : List String) → All IsPlain (p ∷ l) → split b'/' (join_path (p ∷ l)) ≡ p ∷ l
unfolding join_path
split-join_path p [] (plain, h) = split_last p plain.2
split-join_path p (q ∷ l) (plain, h) =
    split_first p (join_path (q ∷ l)) plain.2 ∙ ap (λ r. p ∷ r) (split-join_path q l h)

select_plain : (l : List String) → All IsPlain l → select is_part l ≡ l
unfolding select
select_plain [] h = refl
select_plain (p ∷ l) (plain, h) = rw plain.0 (ap (λ r. p ∷ r) (select_plain l h))

-- The parts of a path that is made of parts are these parts.
pub parts_of-join_path :
    (p : String) (l : List String) → All IsPlain (p ∷ l) → parts_of (join_path (p ∷ l)) ≡ p ∷ l
unfolding parts_of
parts_of-join_path p l h = ap (select is_part) (split-join_path p l h) ∙ select_plain (p ∷ l) h

All-selected : (l : List String) → All (λ p. is_part p ≡ true) (select is_part l)
unfolding select
All-selected [] = tt
All-selected (p ∷ l) = elim (Bool-cases (is_part p)) [
  | inl hit ↦ rw hit (hit, All-selected l)
  | inr miss ↦ rw miss (All-selected l)
]

none_up : (l : List String) → any is_up l ≡ false → All (λ p. is_up p ≡ false) l
unfolding any
none_up [] h = tt
none_up (p ∷ l) h = elim (Bool-cases (is_up p)) [
  | inl up ↦ absurd (cc (rw up at h))
  | inr plain ↦ (plain, none_up l (rw plain at h))
]

All-three :
    (l : List String)
    → All (λ p. is_part p ≡ true) l
    → All (λ p. is_up p ≡ false) l
    → All (λ p. has_slash p ≡ false) l
    → All IsPlain l
All-three [] a b c = tt
All-three (p ∷ l) a b c = ((a.0, b.0, c.0), All-three l a.1 b.1 c.1)

parts-IsPlain : (name : String) → any is_up (parts_of name) ≡ false → All IsPlain (parts_of name)
unfolding parts_of
parts-IsPlain name h =
    All-three (select is_part (split b'/' name)) (All-selected (split b'/' name)) (none_up _ h)
      (All-select (λ p. has_slash p ≡ false) is_part (split b'/' name) (split_slashless name))

joined-IsPlain :
    (parts : List String) → All IsPlain parts → All IsPlain (parts_of (join_path parts))
unfolding join_path parts_of split select
joined-IsPlain [] h = tt
joined-IsPlain (p ∷ l) h = rw (parts_of-join_path p l h) h

safe_parts_lem :
    (name : String) {parts : List String}
    → safe_parts name ≡ some parts
    → (parts_of name ≡ parts)
      × (any is_up (parts_of name) ≡ false)
      × (eqb (length (parts_of name)) 0 ≡ false)
unfolding safe_parts
safe_parts_lem name {parts} h = ground (arith, h)

-- The parts of a safe name are plain.
pub safe_name-IsPlain :
    (raw : String) {name : String} → safe_name raw ≡ some name → All IsPlain (parts_of name)
unfolding safe_name
safe_name-IsPlain raw {name} h = elim (Option-cases (safe_parts (drop_here (slashes raw)))) [
  | inl unsafe ↦ absurd (cc (rw (safe_name, unsafe) at h))
  | inr (parts, e) ↦
      let k : some (join_path parts) ≡ some name = rw (safe_name, e) at h in
      let same : join_path parts ≡ name = cc k in
      let (named, no_up, some_part) = safe_parts_lem (drop_here (slashes raw)) e in
      subst (λ n. All IsPlain (parts_of n)) same
        (joined-IsPlain parts
          (subst (All IsPlain) named (parts-IsPlain (drop_here (slashes raw)) no_up)))
]
