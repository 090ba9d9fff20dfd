-- ===== src/Lifecycle/Marked.antt =====
-- The rows of panel/routes_server_lifecycle.py after an UPDATE of one id.
use nexvary_panel.Base.{
  ℕ, ◌≡◌, refl, ap, ◌∙◌, true, false, some, List, [], ◌∷◌, eqb, arith, Bool-cases, inl, inr,
}
use nexvary_panel.Base.Lists.{find, update}
use nexvary_panel.Lifecycle.Store.{Preview}
use nexvary_panel.Lifecycle.Apply.{row_has_id}

module _ (id : ℕ) (f : Preview → Preview) (keep : (r : Preview) → (f r).id ≡ r.id) where
  -- The row of the id is the old one, changed.
  pub found_marked :
      (l : List Preview) {r : Preview}
      → find (row_has_id id) l ≡ some r
      → find (row_has_id id) (update (row_has_id id) f l) ≡ some (f r)
  unfolding find update
  found_marked [] h = absurd (cc h)
  found_marked (x ∷ l) {r} h = elim (Bool-cases (row_has_id id x)) [
    | inl hit ↦
        let k : some x ≡ some r = rw hit at h in
        let same : row_has_id id (f x) ≡ true = ap (λ n. eqb n id) (keep x) ∙ hit in
        rw (hit, same) (let e : x ≡ r = cc k in ap (λ y. some (f y)) e)
    | inr miss ↦ rw (miss, miss) (found_marked l (rw miss at h))
  ]

  -- The rows of other ids are the old ones.
  pub others_kept :
      (other : ℕ)
      → eqb other id ≡ false
      → (l : List Preview)
      → find (row_has_id other) (update (row_has_id id) f l) ≡ find (row_has_id other) l
  unfolding find update
  others_kept other apart [] = refl
  others_kept other apart (x ∷ l) = elim (Bool-cases (row_has_id id x)) [
    | inl hit ↦
        let new : row_has_id other (f x) ≡ false =
          ap (λ n. eqb n other) (keep x) ∙ ground (arith, hit, apart) in
        let old : row_has_id other x ≡ false = ground (arith, hit, apart) in
        rw (hit, new, old) (others_kept other apart l)
    | inr miss ↦ elim (Bool-cases (row_has_id other x)) [
      | inl mine ↦ rw (miss, mine) refl
      | inr theirs ↦ rw (miss, theirs) (others_kept other apart l)
    ]
  ]
