-- ===== src/AutoSsl/Permitted.antt =====
-- Which certificates a pass of agent/autossl_scheduler.py may change.
use nexvary_panel.Base.{
  ℕ, ◌+◌, String, ◌≡◌, refl, sym, ◌∙◌, inl, inr, true, false, ◌&&◌, some, List, [], ◌∷◌, ltb,
  Bool-cases, Option-cases, and-true,
}
use mathlib.Core.Path.{subst}
use nexvary_panel.Base.Lists.{All, All-append, All-take, All-where, select}
use nexvary_panel.Base.Sets.{contains}
use nexvary_panel.AutoSsl.Store.{
  SslPolicy, Db, ssl_allowed, desired_names, is_before, insert_policy, sort_policies,
  policies_to_check,
}
use nexvary_panel.AutoSsl.Check.{
  SslCall, Provider, Verdict, CheckOutcome, check_status, check_policy, not_allowed, after,
}
use nexvary_panel.AutoSsl.Pass.{record_verdict, check_rows, run_once}
use nexvary_panel.AutoSsl.Ready.{IsReadyCall, check_status_ready}

-- A call of a pass is for a policy of the table that renews by itself, of an enabled site, not
-- checked within the hour, whose owner may have certificates; and see `IsReadyCall`.
abbrev pub IsPermitted : (SslPolicy → Type 0) → Provider → ℕ → Db → SslCall → Type 0
IsPermitted P p now db call =
    (row : SslPolicy) × P row
    × (row.auto_renew ≡ true)
    × (contains db.sites row.domain ≡ true)
    × (ltb now (row.last_check + 3600) ≡ false)
    × (ssl_allowed db row.owner ≡ true)
    × IsReadyCall p row.domain (desired_names db row.domain) call

abbrev IsChosen : (SslPolicy → Type 0) → Db → SslPolicy → Type 0
IsChosen P db row = P row × (row.auto_renew ≡ true) × (contains db.sites row.domain ≡ true)

All-map {ℓ κ} :
    {A : Type ℓ} (P Q : A → Type κ) → ((a : A) → P a → Q a) → (l : List A) → All P l → All Q l
All-map P Q f [] h = tt
All-map P Q f (a ∷ l) h = (f a h.0, All-map P Q f l h.1)

check_policy-IsPermitted :
    (P : SslPolicy → Type 0) (p : Provider) (now : ℕ) (db : Db) (row : SslPolicy) (o : CheckOutcome)
    → IsChosen P db row
    → check_policy p now db row ≡ some o
    → All (IsPermitted P p now db) o.calls
unfolding check_policy
check_policy-IsPermitted P p now db row o (known, auto, site) h =
    elim (Bool-cases (ltb now (row.last_check + 3600))) [
      | inl recent ↦ absurd (cc (rw (check_policy, recent) at h))
      | inr old ↦ elim (Bool-cases (ssl_allowed db row.owner)) [
        | inr refused ↦
            let k : some not_allowed ≡ some o = rw (check_policy, old, refused) at h in
            let same : not_allowed ≡ o = cc k in
            subst (λ (x : CheckOutcome). All (IsPermitted P p now db) x.calls) same tt
        | inl allowed ↦
            let names = desired_names db row.domain in
            let k : some (after (SslCall.ssl_status row.domain) (check_status p now row names))
                ≡ some o =
              rw (check_policy, old, allowed) at h in
            let same : after (SslCall.ssl_status row.domain) (check_status p now row names) ≡ o =
              cc k in
            let permit : (call : SslCall)
                → IsReadyCall p row.domain names call
                → IsPermitted P p now db call =
              λ call ready. (row, known, auto, site, old, allowed, ready) in
            subst (λ (x : CheckOutcome). All (IsPermitted P p now db) x.calls) same
              (
                permit (SslCall.ssl_status row.domain) refl,
                All-map (IsReadyCall p row.domain names) (IsPermitted P p now db) permit
                    (check_status p now row names).calls (check_status_ready p now row names),
              )
      ]
    ]

-- Recording a verdict changes nothing that the checks read beside the policy.
check_policy-recorded :
    (p : Provider) (now at : ℕ) (domain owner : String) (v : Verdict) (db : Db) (row : SslPolicy)
    → check_policy p now (record_verdict at domain owner v db) row ≡ check_policy p now db row
unfolding record_verdict check_policy ssl_allowed desired_names
check_policy-recorded p now at domain owner v db row = refl

check_rows-IsPermitted :
    (P : SslPolicy → Type 0) (p : Provider) (now : ℕ) (clock : String → ℕ) (db : Db)
    (rows : List SslPolicy) (at : Db)
    → All (IsChosen P db) rows
    → ((row : SslPolicy) → check_policy p now at row ≡ check_policy p now db row)
    → All (IsPermitted P p now db) (check_rows p now clock rows at).calls
unfolding check_rows
check_rows-IsPermitted P p now clock db [] at h same = tt
check_rows-IsPermitted P p now clock db (row ∷ rows) at h same =
    elim (Option-cases (check_policy p now at row)) [
      | inl recent ↦
          rw (check_rows, recent) (check_rows-IsPermitted P p now clock db rows at h.1 same)
      | inr (o, e) ↦
          let mine : All (IsPermitted P p now db) o.calls =
            check_policy-IsPermitted P p now db row o h.0 (sym (same row) ∙ e) in
          elim (Option-cases o.verdict) [
            | inl crash ↦ rw (check_rows, e, crash) mine
            | inr (v, told) ↦
                let next = record_verdict (clock row.domain) row.domain row.owner v at in
                rw (check_rows, e, told)
                  (All-append (IsPermitted P p now db) o.calls
                    (check_rows p now clock rows next).calls mine
                    (check_rows-IsPermitted P p now clock db rows next h.1 (λ r.
                      check_policy-recorded p now (clock row.domain) row.domain row.owner v at r
                      ∙ same r)))
          ]
    ]

All-insert :
    (P : SslPolicy → Type 0) (a : SslPolicy) (l : List SslPolicy)
    → P a
    → All P l
    → All P (insert_policy a l)
unfolding insert_policy
All-insert P a [] h k = (h, tt)
All-insert P a (b ∷ l) h k = elim (Bool-cases (is_before a b)) [
  | inl first ↦ rw first (h, k)
  | inr later ↦ rw later (k.0, All-insert P a l h k.1)
]

All-sort : (P : SslPolicy → Type 0) (l : List SslPolicy) → All P l → All P (sort_policies l)
unfolding sort_policies
All-sort P [] h = tt
All-sort P (a ∷ l) h = All-insert P a (sort_policies l) h.0 (All-sort P l h.1)

chosen_lem :
    (P : SslPolicy → Type 0) (db : Db) (l : List SslPolicy)
    → All P l
    → All (IsChosen P db) (select (λ (r : SslPolicy). r.auto_renew && contains db.sites r.domain) l)
chosen_lem P db l h =
    All-where (IsChosen P db) (λ (r : SslPolicy). r.auto_renew && contains db.sites r.domain) l
      (All-map P
        (λ (r : SslPolicy). (r.auto_renew && contains db.sites r.domain) ≡ true → IsChosen P db r)
        (λ r k e.
          let (auto, site) = and-true r.auto_renew (contains db.sites r.domain) e in
          (k, auto, site))
        l h)

-- Whatever the provider answers, every call of a pass is for a policy of the table, with all that
-- holds of those, that renews by itself, of an enabled site, not checked within the hour, of an
-- owner who may have certificates: it names the domain of that policy, and where it has names they
-- are those of its site and its aliases; a call that asks for a certificate comes after the provider
-- has found these names ready, and a new certificate has a contact.
pub calls-IsPermitted :
    (P : SslPolicy → Type 0) (p : Provider) (now : ℕ) (clock : String → ℕ) (db : Db)
    → All P db.policies
    → All (IsPermitted P p now db) (run_once p now clock db).calls
unfolding run_once policies_to_check
calls-IsPermitted P p now clock db h =
    check_rows-IsPermitted P p now clock db (policies_to_check db) db
      (All-take (IsChosen P db) 200 _ (All-sort (IsChosen P db) _ (chosen_lem P db db.policies h)))
      (λ row. refl)
