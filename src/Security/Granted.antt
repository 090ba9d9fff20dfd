-- ===== src/Security/Granted.antt =====
-- What a step-up grant opens and for whom, and what is left when it is cleared.
use nexvary_panel.Base.{
  ℕ, ◌+◌, ◌≤◌, String, ◌≡◌, ◌↔◌, refl, sym, ap, true, Option, none, some, arith, eq_iff, Bool-cases,
  inl, inr,
}
use nexvary_panel.Security.Store.{Session, Db, or_empty, same_text}
use nexvary_panel.Security.StepUp.{step_up_active, grant_step_up, clear_step_up}
use nexvary_panel.Security.Guards.{Request, session_identity_active, step_up_required}

same_text_lem : (x : String) (u : Option String) → (same_text (some x) u ≡ true) ↔ (u ≡ some x)
same_text_lem x none = (λ h. absurd (cc h), λ h. absurd (cc h))
same_text_lem x (some y) =
    (λ h. ap some (sym ((eq_iff x y).0 h)), λ h. let e : y ≡ x = cc h in (eq_iff x y).1 (sym e))

active-auth : (s : Session) (db : Db) → session_identity_active s db ≡ true → s.auth ≡ true
unfolding session_identity_active
active-auth s db h = ground (arith, h)

-- A grant opens the step-up guard of a session whose account is in force exactly until 300 seconds
-- after it, and exactly for the user that it was given to, whoever is signed in by then. Clearing a
-- session leaves nothing of the grant.
pub grant_window :
    (r : Request) (db : Db) (s : Session) (granted now : ℕ) (user : Option String)
    → session_identity_active (record (grant_step_up s granted).1 { user = user }) db ≡ true
    → (((step_up_required r db now (record (grant_step_up s granted).1 { user = user })).0 ≡ none)
        ↔ ((now ≤ granted + 300) × (user ≡ some (or_empty s.user))))
      × (clear_step_up (grant_step_up s granted).1 ≡ clear_step_up s)
unfolding grant_step_up clear_step_up step_up_active step_up_required
grant_window r db s granted now user h =
    let t : Session = record (grant_step_up s granted).1 { user = user } in
    let auth : s.auth ≡ true = active-auth t db h in
    let same = same_text_lem (or_empty s.user) user in
    (
      elim (Bool-cases (same_text (some (or_empty s.user)) user)) [
        | inr other ↦
            (λ k. absurd (ground (arith, h, auth, other, k)), λ k. absurd (cc (same.1 k.1, other)))
        | inl mine ↦ (
          λ k. (ground (arith, h, auth, mine, k), same.0 mine),
          λ k. ground (arith, h, auth, mine, k.0),
        )
      ],
      refl,
    )
