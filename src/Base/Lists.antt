-- ===== src/Base/Lists.antt =====
-- Lists as rows of a table: length, tests, searches and updates, with their laws.
use Prim.Native.Nat.{ℕ, zero, suc, ◌+◌, ◌≤◌}
use mathlib.Core.Path.{◌≡◌, refl, subst, ◌∙◌}
use mathlib.Core.Logic.{inl, inr}
use mathlib.Core.Bool.{Bool, true, false, ◌&&◌, ◌||◌}
use mathlib.Core.Option.{Option, none, some}
use mathlib.Core.List.{List, [], ◌∷◌, ◌++◌}
use native.Mathlib.Omega.{arith}
use nexvary_panel.Base.Tests.{if◌then◌else◌, Bool-cases}

-- Holds of every element. It computes to a tuple.
abbrev pub All {ℓ κ} : {A : Type ℓ} → (A → Type κ) → List A → Type κ
All P [] = Unit
All P (x ∷ xs) = P x × All P xs

module _ {ℓ} {A : Type ℓ} where
  abbrev pub length : List A → ℕ
  length [] = 0
  length (x ∷ xs) = suc (length xs)

  abbrev pub take : ℕ → List A → List A
  take zero xs = []
  take (suc n) [] = []
  take (suc n) (x ∷ xs) = x ∷ take n xs

  -- `any(p(x) for x in xs)`
  unfoldable pub any : (A → Bool) → List A → Bool
  any p [] = false
  any p (x ∷ xs) = p x || any p xs

  -- `all(p(x) for x in xs)`
  unfoldable pub all : (A → Bool) → List A → Bool
  all p [] = true
  all p (x ∷ xs) = p x && all p xs

  -- `SELECT … WHERE p` and `fetchone()`
  unfoldable pub find : (A → Bool) → List A → Option A
  find p [] = none
  find p (x ∷ xs) = if p x then some x else find p xs

  -- `SELECT … WHERE p` and `fetchall()`
  unfoldable pub select : (A → Bool) → List A → List A
  select p [] = []
  select p (x ∷ xs) = let rest = select p xs in if p x then x ∷ rest else rest

  -- `UPDATE … SET f WHERE p`
  unfoldable pub update : (A → Bool) → (A → A) → List A → List A
  update p f [] = []
  update p f (x ∷ xs) = (if p x then f x else x) ∷ update p f xs

  -- `SELECT COUNT(*) … WHERE p`
  unfoldable pub count : (A → Bool) → List A → ℕ
  count p [] = 0
  count p (x ∷ xs) = (if p x then 1 else 0) + count p xs

module _ {ℓ} {A : Type ℓ} where
  pub length-append : (xs ys : List A) → length (xs ++ ys) ≡ length xs + length ys
  length-append [] ys = omega arith
  length-append (x ∷ xs) ys = omega (arith, length-append xs ys)

  pub length-take : (n : ℕ) (xs : List A) → length (take n xs) ≤ n
  length-take zero xs = omega arith
  length-take (suc n) [] = omega arith
  length-take (suc n) (x ∷ xs) = omega (arith, length-take n xs)

  -- What `find` returns satisfies the test.
  pub find-true : (p : A → Bool) (xs : List A) {x : A} → find p xs ≡ some x → p x ≡ true
  unfolding find
  find-true p [] h = cc
  find-true p (y ∷ xs) {x} h = elim (Bool-cases (p y)) [
    | inl hit ↦ cc (hit, rw hit at h)
    | inr miss ↦ find-true p xs {x = x} (rw miss at h)
  ]

  pub count-append : (p : A → Bool) (xs ys : List A) → count p (xs ++ ys) ≡ count p xs + count p ys
  unfolding count
  count-append p [] ys = omega arith
  count-append p (x ∷ xs) ys = omega (arith, count-append p xs ys)

  -- No row is found exactly when none is counted.
  pub count-find-none : (p : A → Bool) (xs : List A) → find p xs ≡ none → count p xs ≡ 0
  unfolding find count
  count-find-none p [] h = refl
  count-find-none p (x ∷ xs) h = ground (arith, count-find-none p xs)

  -- An update that keeps what `q` reads keeps what `q` counts.
  pub count-update :
      (p q : A → Bool) (f : A → A)
      → ((x : A) → q (f x) ≡ q x)
      → (xs : List A) → count q (update p f xs) ≡ count q xs
  unfolding count update
  count-update p q f keep [] = refl
  count-update p q f keep (x ∷ xs) = ground (arith, keep x, count-update p q f keep xs)

  pub All-append {κ} : (P : A → Type κ) (xs ys : List A) → All P xs → All P ys → All P (xs ++ ys)
  All-append P [] ys h k = k
  All-append P (x ∷ xs) ys h k = (h.0, All-append P xs ys h.1 k)

  pub All-find {κ} :
      (P : A → Type κ) (p : A → Bool) (xs : List A) {x : A} → All P xs → find p xs ≡ some x → P x
  unfolding find
  All-find P p [] h e = absurd (cc)
  All-find P p (y ∷ xs) {x} h e = elim (Bool-cases (p y)) [
    | inl hit ↦ let q : some y ≡ some x = rw hit at e in let r : y ≡ x = cc q in subst P r h.0
    | inr miss ↦ All-find P p xs {x = x} h.1 (rw miss at e)
  ]

  pub All-update {κ} :
      (P : A → Type κ) (p : A → Bool) (f : A → A)
      → ((x : A) → P x → p x ≡ true → P (f x))
      → (xs : List A) → All P xs
      → All P (update p f xs)
  unfolding update
  All-update P p f keep [] h = tt
  All-update P p f keep (x ∷ xs) h = elim (Bool-cases (p x)) [
    | inl hit ↦ rw hit (keep x h.0 hit, All-update P p f keep xs h.1)
    | inr miss ↦ rw miss (h.0, All-update P p f keep xs h.1)
  ]

  pub All-select {κ} :
      (P : A → Type κ) (p : A → Bool) (xs : List A) → All P xs → All P (select p xs)
  unfolding select
  All-select P p [] h = tt
  All-select P p (x ∷ xs) h = elim (Bool-cases (p x)) [
    | inl hit ↦ rw hit (h.0, All-select P p xs h.1)
    | inr miss ↦ rw miss (All-select P p xs h.1)
  ]

  pub count-select : (p q : A → Bool) (xs : List A) → count q (select p xs) ≤ count q xs
  unfolding count select
  count-select p q [] = omega arith
  count-select p q (x ∷ xs) = elim (Bool-cases (p x)) [
    | inl hit ↦ rw hit (omega (arith, count-select p q xs))
    | inr miss ↦ rw miss (omega (arith, count-select p q xs))
  ]

  -- A row that an update passes by is found unchanged.
  pub find-update :
      (p q : A → Bool) (f : A → A)
      → ((x : A) → q (f x) ≡ q x)
      → (xs : List A) {r : A} → find q xs ≡ some r
      → p r ≡ false
      → find q (update p f xs) ≡ some r
  unfolding find update
  find-update p q f keep [] h past = absurd (cc)
  find-update p q f keep (x ∷ xs) {r} h past = elim (Bool-cases (q x)) [
    | inl hit ↦
        let here : some x ≡ some r = rw hit at h in
        let same : x ≡ r = cc here in
        let missed : p x ≡ false = rw same past in rw (missed, hit) here
    | inr other ↦
        let further : find q xs ≡ some r = rw other at h in
        let tail : find q (update p f xs) ≡ some r =
          find-update p q f keep xs {r = r} further past in
        elim (Bool-cases (p x)) [
          | inl changed ↦ let kept : q (f x) ≡ false = keep x ∙ other in rw (changed, kept) tail
          | inr missed ↦ rw (missed, other) tail
        ]
  ]

  pub find-append :
      (q : A → Bool) (xs ys : List A) {r : A} → find q xs ≡ some r → find q (xs ++ ys) ≡ some r
  unfolding find
  find-append q [] ys h = absurd (cc)
  find-append q (x ∷ xs) ys {r} h = elim (Bool-cases (q x)) [
    | inl hit ↦ rw hit (rw hit at h)
    | inr other ↦ rw other (find-append q xs ys {r = r} (rw other at h))
  ]

  pub All-take {κ} : (P : A → Type κ) (n : ℕ) (xs : List A) → All P xs → All P (take n xs)
  All-take P zero xs h = tt
  All-take P (suc n) [] h = tt
  All-take P (suc n) (x ∷ xs) h = (h.0, All-take P n xs h.1)

  -- What the rows that pass the test have, the selected rows have.
  pub All-where {κ} :
      (P : A → Type κ) (p : A → Bool) (xs : List A)
      → All (λ x. p x ≡ true → P x) xs
      → All P (select p xs)
  unfolding select
  All-where P p [] h = tt
  All-where P p (x ∷ xs) h = elim (Bool-cases (p x)) [
    | inl hit ↦ rw hit (h.0 hit, All-where P p xs h.1)
    | inr miss ↦ rw miss (All-where P p xs h.1)
  ]
