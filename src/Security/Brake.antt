-- ===== src/Security/Brake.antt =====
-- The brake on failed sign-ins, and what a successful one leaves in the session.
use nexvary_panel.Base.{
  ◌⊎◌, ltb, Bool-cases, ℕ, ◌+◌, ◌*◌, ◌≤◌, ◌<◌, String, ◌≡◌, refl, sym, ap, ◌∙◌, inl, inr, true,
  false, some, List, [], ◌∷◌, Reply, arith, eq_iff, Option-cases,
}
use mathlib.Core.Path.{subst}
use nexvary_panel.Base.Lists.{All, length}
use nexvary_panel.Base.Text.{prefix, strip}
use nexvary_panel.Base.Sets.{insert, remove, lookup-insert, lookup-remove}
use nexvary_panel.Security.Store.{Crypto, Db, Session, cleared}
use nexvary_panel.Security.Csrf.{csrf_token}
use nexvary_panel.Security.Login.{
  Record, Failed, second, record_of, Form, State, credentials_ok, next_record, login_post,
}

pub record Attempt : Type 0 where
  pub form : Form
  pub token : String
  pub now : ℕ

record_of-insert :
    (failed : Failed) (ip : String) (r : Record) → record_of (insert ip r failed) ip ≡ r
unfolding record_of
record_of-insert failed ip r = ground (arith, lookup-insert ip ip r failed, eq_iff ip ip)

record_of-remove :
    (failed : Failed) (ip : String) → record_of (remove ip failed) ip ≡ record { n = 0; until = 0 }
unfolding record_of
record_of-remove failed ip = ground (arith, lookup-remove ip ip failed, eq_iff ip ip)

module _ (c : Crypto) (db : Db) (addr : String) where
  abbrev pub attempt : Attempt → State → State
  attempt a st = (login_post c db addr a.form a.token a.now st).1

  unfoldable pub attempts : List Attempt → State → State
  attempts [] st = st
  attempts (a ∷ rest) st = attempts rest (attempt a st)

  abbrev pub braked : State → Record
  braked st = record_of st.failed (prefix 80 addr)

  -- The credentials of the attempt are wrong, and it is not made under a lock that ends at `until`.
  abbrev pub Refused : ℕ → Attempt → Type 0
  Refused until a =
      ((role : String) × (credentials_ok c db a.form a.now ≡ some (false, role))) × (until ≤ a.now)

  next_step :
      (a : Attempt) (st : State)
      → Refused (braked st).until a
      → braked (attempt a st) ≡ next_record (braked st) a.now
  unfolding login_post
  next_step a st h =
      ground
        (arith, h.0.1, record_of-insert st.failed (prefix 80 addr) (next_record (braked st) a.now))

  counted_step :
      (a : Attempt) (st : State)
      → Refused (braked st).until a
      → (braked st).n + 1 < 5
      → braked (attempt a st) ≡ record { n = (braked st).n + 1; until = (braked st).until }
  unfolding next_record
  counted_step a st h few = ground (arith, next_step a st h)

  -- Up to four refused attempts in a row are counted, and nothing is locked.
  failures_counted :
      (rest : List Attempt) (st : State)
      → All (Refused (braked st).until) rest
      → (braked st).n + length rest < 5
      → braked (attempts rest st)
        ≡ record { n = (braked st).n + length rest; until = (braked st).until }
  unfolding attempts
  failures_counted [] st h few = ground arith
  failures_counted (a ∷ rest) st h few =
      let e = counted_step a st h.0 (omega arith) in
      let same : (braked (attempt a st)).until ≡ (braked st).until =
        ap (λ (r : Record). r.until) e in
      let more : (braked (attempt a st)).n ≡ (braked st).n + 1 = ap (λ (r : Record). r.n) e in
      ground (
        arith,
        failures_counted rest (attempt a st) (subst (λ u. All (Refused u) rest) (sym same) h.1)
            (omega arith),
      )

  lock_record :
      (before : List Attempt) (fifth : Attempt) (st : State)
      → (braked st).n + length before ≡ 4
      → All (Refused (braked st).until) before
      → Refused (braked st).until fifth
      → braked (attempt fifth (attempts before st))
        ≡ record { n = 0; until = fifth.now + 300 * second }
  unfolding next_record
  lock_record before fifth st four h f =
      let e = failures_counted before st h (omega arith) in
      let same : (braked (attempts before st)).until ≡ (braked st).until =
        ap (λ (r : Record). r.until) e in
      ground
        (arith, next_step fifth (attempts before st) (subst (λ u. Refused u fifth) (sym same) f), e)

  pub locked_answer :
      (later : Attempt) (st : State)
      → later.now < (braked st).until
      → let answer = login_post c db addr later.form later.token later.now st in
        (answer.0 ≡ Reply.fail 429 "login.html")
        × (answer.1.failed ≡ st.failed)
        × (answer.1.session.auth ≡ st.session.auth)
        × (answer.1.session.user ≡ st.session.user)
  unfolding login_post
  locked_answer later st h = ground arith

  still_locked :
      (between : List Attempt) (st : State) (end : ℕ)
      → (braked st).until ≡ end
      → All (λ a. a.now < end) between
      → (attempts between st).failed ≡ st.failed
  unfolding attempts
  still_locked [] st end e h = refl
  still_locked (a ∷ between) st end e h =
      let (answer, same, auth, user) = locked_answer a st (rw e h.0) in
      still_locked between (attempt a st) end
        (ap (λ (f : Failed). (record_of f (prefix 80 addr)).until) same ∙ e) h.1
      ∙ same

  -- The fifth refused attempt in a row locks the address for 300 seconds, whatever is tried then.
  pub lock_kept :
      (before between : List Attempt) (fifth : Attempt) (st : State)
      → (braked st).n + length before ≡ 4
      → All (Refused (braked st).until) before
      → Refused (braked st).until fifth
      → All (λ a. a.now < fifth.now + 300 * second) between
      → (braked (attempts between (attempt fifth (attempts before st)))).until
        ≡ fifth.now + 300 * second
  lock_kept before between fifth st four h f b =
      let e = ap (λ (r : Record). r.until) (lock_record before fifth st four h f) in
      let same =
        still_locked between (attempt fifth (attempts before st)) (fifth.now + 300 * second) e b in
      ap (λ (r : Failed). (record_of r (prefix 80 addr)).until) same ∙ e

  -- what a POST that signs nobody in keeps of the session
  abbrev pub SameAccount : Session → Session → Type 0
  SameAccount s s' =
      (s'.auth ≡ s.auth)
      × (s'.user ≡ s.user)
      × (s'.role ≡ s.role)
      × (s'.step_up_until ≡ s.step_up_until)
      × (s'.step_up_user ≡ s.step_up_user)
      × (s'.permanent ≡ s.permanent)

  -- the POST has signed in the account and role that its credentials prove
  abbrev pub Proven : Attempt → State → Type 0
  Proven a st =
      (role : String) × (credentials_ok c db a.form a.now ≡ some (true, role))
      × ((braked st).until ≤ a.now)
      × ((login_post c db addr a.form a.token a.now st).0 ≡ Reply.redirect "/")
      × ((attempt a st).session ≡ record cleared {
        auth = true;
        user = some (strip a.form.username);
        role = some role;
        permanent = true;
        csrf = some a.token;
      })
      × (braked (attempt a st) ≡ record { n = 0; until = 0 })

  -- A POST either has credentials that are right, outside a lock, and signs in the account and role
  -- that they prove, keeping nothing of the session before, no step-up and no flashed message; or it
  -- is not answered by the redirect to the home page, and the session keeps its account, role and
  -- step-up.
  pub signed_in_only_by_credentials :
      (a : Attempt) (st : State)
      → Proven a st
        ⊎ ((¬ ((login_post c db addr a.form a.token a.now st).0 ≡ Reply.redirect "/"))
            × SameAccount st.session (attempt a st).session)
  unfolding login_post csrf_token
  signed_in_only_by_credentials a st = elim (Bool-cases (ltb a.now (braked st).until)) [
    | inl locked ↦ inr (
      λ h. absurd (ground (arith, locked, h)),
      (
        ground (arith, locked),
        ground (arith, locked),
        ground (arith, locked),
        ground (arith, locked),
        ground (arith, locked),
        ground (arith, locked),
      ),
    )
    | inr free ↦ elim (Option-cases (credentials_ok c db a.form a.now)) [
      | inl raised ↦ inr (
        λ h. absurd (ground (arith, free, raised, h)),
        (
          ground (arith, free, raised),
          ground (arith, free, raised),
          ground (arith, free, raised),
          ground (arith, free, raised),
          ground (arith, free, raised),
          ground (arith, free, raised),
        ),
      )
      | inr ((false, role), e) ↦ inr (
        λ h. absurd (ground (arith, free, e, h)),
        (
          ground (arith, free, e),
          ground (arith, free, e),
          ground (arith, free, e),
          ground (arith, free, e),
          ground (arith, free, e),
          ground (arith, free, e),
        ),
      )
      | inr ((true, role), e) ↦ inl (
        role,
        e,
        ground (arith, free),
        ground (arith, free, e),
        ground (arith, free, e),
        ground (arith, free, e, record_of-remove st.failed (prefix 80 addr)),
      )
    ]
  ]
