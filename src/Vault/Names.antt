-- ===== src/Vault/Names.antt =====
-- The names of the files of agent/secret_vault.py are read as the secrets that they are written for.
use Prim.Native.Char.{Char, code}
use mathlib.Core.Path.{subst}
use text.Mathlib.TextEquality.{Char-path}
use nexvary_panel.Base.{
  String, ◌==◌, ◌≡◌, refl, sym, ap, ◌∙◌, inl, inr, true, ◌&&◌, some, List, [], ◌∷◌, eqb, bind_some,
  eq_iff, arith, Bool-cases, Option-cases,
}
use nexvary_panel.Base.Lists.{All}
use nexvary_panel.Base.Sets.{contains}
use nexvary_panel.Base.Text.{◌⧺◌, append_assoc}
use nexvary_panel.Vault.Store.{secret_kinds, file_name, secret_stem, partition, entry_of}

secret_stem-append : (t : String) → secret_stem (t ⧺ ".secret") ≡ some t
unfolding secret_stem
secret_stem-append String.[] = refl
secret_stem-append (String.◌∷◌ c t) = rw (secret_stem-append t)

append-secret_stem : (s : String) {t : String} → secret_stem s ≡ some t → s ≡ t ⧺ ".secret"
unfolding secret_stem
append-secret_stem String.[] h = absurd (cc h)
append-secret_stem (String.◌∷◌ c s) {t} h = elim (Option-cases (secret_stem s)) [
  | inr (u, found) ↦
      let k : some (String.◌∷◌ c u) ≡ some t = rw (secret_stem, found) at h in
      let same : String.◌∷◌ c u ≡ t = cc k in
      subst (λ t. String.◌∷◌ c s ≡ t ⧺ ".secret") same
        (ap (λ r. String.◌∷◌ c r) (append-secret_stem s found))
  | inl missing ↦ elim (Bool-cases (String.◌∷◌ c s == ".secret")) [
    | inl here ↦
        let k : some "" ≡ some t = rw (secret_stem, missing, here) at h in
        let same : "" ≡ t = cc k in
        subst (λ t. String.◌∷◌ c s ≡ t ⧺ ".secret") same
          ((eq_iff (String.◌∷◌ c s) ".secret").0 here)
    | inr elsewhere ↦ absurd (cc (rw (secret_stem, missing, elsewhere) at h))
  ]
]

contains-All :
    (P : String → Type 0) (l : List String) {x : String} → All P l → contains l x ≡ true → P x
unfolding contains
contains-All P [] h k = absurd (cc k)
contains-All P (y ∷ l) {x} h k = elim (Bool-cases (y == x)) [
  | inl same ↦ let e : y ≡ x = grind (arith, eq_iff y x, same) in subst P e h.0
  | inr other ↦ contains-All P l h.1 (rw (contains, other) at k)
]

partition-kind :
    {kind : String}
    → contains secret_kinds kind ≡ true
    → (id : String) → partition (kind ⧺ ("--" ⧺ id)) ≡ some (kind, id)
unfolding partition
partition-kind {kind} known =
    contains-All (λ kind. (id : String) → partition (kind ⧺ ("--" ⧺ id)) ≡ some (kind, id))
      secret_kinds {x = kind}
      (λ id. refl, (λ id. refl, (λ id. refl, (λ id. refl, (λ id. refl, (λ id. refl, tt)))))) known

-- the two parts, rejoined again
unfoldable rejoined : String × String → String
rejoined (a, b) = a ⧺ ("--" ⧺ b)

dashes :
    (c d : Char) (s : String)
    → (eqb (code c) b'-' && eqb (code d) b'-') ≡ true
    → String.◌∷◌ c (String.◌∷◌ d s) ≡ "--" ⧺ s
dashes c d s h =
    let ce : code c ≡ b'-' = ground (arith, h) in
    let de : code d ≡ b'-' = ground (arith, h) in
    ap (λ (x : Char). String.◌∷◌ x (String.◌∷◌ d s)) (Char-path c (Char.char b'-' tt) ce)
    ∙ ap (λ (x : Char). "-" ⧺ String.◌∷◌ x s) (Char-path d (Char.char b'-' tt) de)

partition-rejoined : (s : String) {z : String × String} → partition s ≡ some z → s ≡ rejoined z
unfolding partition rejoined
partition-rejoined String.[] h = absurd (cc h)
partition-rejoined (String.◌∷◌ c String.[]) h = absurd (cc h)
partition-rejoined (String.◌∷◌ c (String.◌∷◌ d s)) {z} h =
    elim (Bool-cases (eqb (code c) b'-' && eqb (code d) b'-')) [
      | inl here ↦
          let k : some ("", s) ≡ some z = rw (partition, here) at h in
          let same : ("", s) ≡ z = cc k in
          subst (λ z. String.◌∷◌ c (String.◌∷◌ d s) ≡ rejoined z) same (dashes c d s here)
      | inr elsewhere ↦ elim (Option-cases (partition (String.◌∷◌ d s))) [
        | inl missing ↦ absurd (cc (rw (partition, elsewhere, missing) at h))
        | inr ((a, b), found) ↦
            let k : some (String.◌∷◌ c a, b) ≡ some z = rw (partition, elsewhere, found) at h in
            let same : (String.◌∷◌ c a, b) ≡ z = cc k in
            subst (λ z. String.◌∷◌ c (String.◌∷◌ d s) ≡ rejoined z) same
              (ap (λ r. String.◌∷◌ c r) (partition-rejoined (String.◌∷◌ d s) found))
      ]
    ]

pub entry_of-file_name :
    (id kind : String)
    → contains secret_kinds kind ≡ true
    → entry_of (file_name id kind) ≡ some (kind, id)
unfolding entry_of file_name
entry_of-file_name id kind known =
    ap (λ name. entry_of name) (sym (append_assoc kind ("--" ⧺ id) ".secret"))
    ∙ rw (secret_stem-append (kind ⧺ ("--" ⧺ id))) (partition-kind known id)

pub file_name-entry_of :
    (name : String) {id kind : String} → entry_of name ≡ some (kind, id) → name ≡ file_name id kind
unfolding entry_of file_name rejoined
file_name-entry_of name {id} {kind} h =
    let (stem, found, parted) = bind_some (secret_stem name) _ h in
    append-secret_stem name found
    ∙ ap (λ s. s ⧺ ".secret") (partition-rejoined stem parted)
    ∙ append_assoc kind ("--" ⧺ id) ".secret"
