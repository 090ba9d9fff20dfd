-- ===== src/ApiTokens/Access.antt =====
-- Who reaches the read-only API: `bearer_scope` of panel/api_tokens.py, and what a revocation by
-- panel/routes_api_tokens.py ends.
use nexvary_panel.Base.{
  ℕ, ◌≡◌, ◌∙◌, ap, refl, inl, inr, String, ◌==◌, true, false, Option, none, some, List, [], ◌∷◌,
  eqb, Bool-cases, Option-cases,
}
use mathlib.Core.Path.{subst}
use nexvary_panel.Base.Lists.{All, All-find, find, update}
use nexvary_panel.Base.Json.{Json, Items}
use nexvary_panel.Web.{Context}
use nexvary_panel.ApiTokens.Store.{TokenRow, Db, is_api_token}
use nexvary_panel.ApiTokens.Bearer.{
  Access, header_token, any_unknown, has_scope, check_scopes, check_stored, check_token,
  bearer_scope,
}
use nexvary_panel.ApiTokens.Routes.{token_has_id, revoke_at, api_token_revoke}

scopes_granted :
    (required : String) (now id : ℕ) (row : TokenRow) (scopes : Items) (db after : Db)
    → check_scopes required now row scopes db ≡ Access.granted id after
    → (any_unknown scopes ≡ some false) × (has_scope required scopes ≡ true) × (row.id ≡ id)
unfolding check_scopes
scopes_granted required now id row scopes db after h = elim (Option-cases (any_unknown scopes)) [
  | inl odd ↦ absurd (cc (rw (check_scopes, odd) at h))
  | inr (b, checked) ↦ elim (Bool-cases b) [
    | inl unknown ↦ absurd (cc (rw (check_scopes, checked, unknown) at h))
    | inr known ↦ elim (Bool-cases (has_scope required scopes)) [
      | inr missing ↦ absurd (cc (rw (check_scopes, checked, known, missing) at h))
      | inl has ↦
          let e : Access.granted row.id (record db {
            tokens =
                update (λ (r : TokenRow). eqb r.id row.id)
                  (λ r. record r { last_used_at = some now }) db.tokens;
          })
              ≡ Access.granted id after =
            rw (check_scopes, checked, known, has) at h in
          let same : row.id ≡ id = cc e in (checked ∙ ap some known, has, same)
    ]
  ]
]

-- an active token with the scope, whose scopes are all known
abbrev pub IsActive : String → TokenRow → Type 0
IsActive required row =
    (row.revoked_at ≡ none)
    × ((text : String) × (scopes : Items) × (row.scopes ≡ some (Json.list text scopes))
        × (any_unknown scopes ≡ some false)
        × (has_scope required scopes ≡ true))

stored_granted :
    (required : String) (now id : ℕ) (row : TokenRow) (stored : Option Json) (db after : Db)
    → check_stored required now row stored db ≡ Access.granted id after
    → ((text : String) × (scopes : Items) × (stored ≡ some (Json.list text scopes))
        × (any_unknown scopes ≡ some false)
        × (has_scope required scopes ≡ true))
      × (row.id ≡ id)
unfolding check_stored
stored_granted required now id row (some (Json.list s scopes)) db after h =
    let (known, has, same) = scopes_granted required now id row scopes db after h in
    ((s, scopes, refl, known, has), same)
stored_granted required now id row none db after h = absurd (cc h)
stored_granted required now id row (some Json.null) db after h = absurd (cc h)
stored_granted required now id row (some v) db after h = absurd (cc h)

row_granted :
    (sha256 : String → String) (required token : String) (now id : ℕ) (row : TokenRow)
    (db after : Db)
    → find (λ (r : TokenRow). r.token_hash == sha256 token) db.tokens ≡ some row
    → check_token sha256 required now token db ≡ Access.granted id after
    → IsActive required row × (row.id ≡ id)
unfolding check_token
row_granted sha256 required token now id row db after found h = elim (Option-cases row.revoked_at) [
  | inr (at, revoked) ↦ absurd (cc (rw (check_token, found, revoked) at h))
  | inl active ↦
      let (scoped, same) =
        stored_granted required now id row row.scopes db after
          (rw (check_token, found, active) at h) in
      ((active, scoped), same)
]

token_granted :
    (sha256 : String → String) (required header token : String) (now id : ℕ) (db after : Db)
    → header_token header ≡ some token
    → is_api_token token ≡ true
    → check_token sha256 required now token db ≡ Access.granted id after
    → (token' : String) × (row : TokenRow) × (header_token header ≡ some token')
      × (is_api_token token' ≡ true)
      × (find (λ (r : TokenRow). r.token_hash == sha256 token') db.tokens ≡ some row)
      × (IsActive required row × (row.id ≡ id))
unfolding check_token
token_granted sha256 required header token now id db after given form h =
    elim (Option-cases (find (λ (r : TokenRow). r.token_hash == sha256 token) db.tokens)) [
      | inl unknown ↦ absurd (cc (rw (check_token, unknown) at h))
      | inr (row, found) ↦ (
        token,
        row,
        given,
        form,
        found,
        row_granted sha256 required token now id row db after found h,
      )
    ]

-- A view of the read-only API runs only for the token of the `Bearer` header, of the form of a
-- token, whose row is found by its hash, is not revoked, and has the required scope among scopes
-- that are all known; and it runs with that row's id.
pub granted_bearer :
    (sha256 : String → String) (required header : String) (now id : ℕ) (db after : Db)
    → bearer_scope sha256 required now header db ≡ Access.granted id after
    → (token : String) × (row : TokenRow) × (header_token header ≡ some token)
      × (is_api_token token ≡ true)
      × (find (λ (r : TokenRow). r.token_hash == sha256 token) db.tokens ≡ some row)
      × (IsActive required row × (row.id ≡ id))
unfolding bearer_scope
granted_bearer sha256 required header now id db after h =
    elim (Option-cases (header_token header)) [
      | inl no_token ↦ absurd (cc (rw (bearer_scope, no_token) at h))
      | inr (token, given) ↦ elim (Bool-cases (is_api_token token)) [
        | inr odd ↦ absurd (cc (rw (bearer_scope, given, odd) at h))
        | inl form ↦
            let checked : check_token sha256 required now token db ≡ Access.granted id after =
              rw (bearer_scope, given, form) at h in
            token_granted sha256 required header token now id db after given form checked
      ]
    ]

-- what a row of the table that is not revoked is, after the revocation
abbrev Ended : ℕ → TokenRow → Type 0
Ended id t = t.revoked_at ≡ none → token_has_id id t ≡ false

update-Ended :
    (id now : ℕ) (l : List TokenRow) → All (Ended id) (update (token_has_id id) (revoke_at now) l)
unfolding update
update-Ended id now [] = tt
update-Ended id now (t ∷ l) = elim (Bool-cases (token_has_id id t)) [
  | inl hit ↦ rw hit ((λ e. absurd (cc e)), update-Ended id now l)
  | inr miss ↦ rw miss ((λ e. miss), update-Ended id now l)
]

-- After an administrator has revoked an active token, no view of the read-only API runs for it.
pub revoked_denied :
    (sha256 : String → String) (c : Context) (id granted_id now : ℕ) (required header : String)
    (row : TokenRow) (db after : Db)
    → find (token_has_id id) db.tokens ≡ some row
    → row.revoked_at ≡ none
    → bearer_scope sha256 required now header (api_token_revoke c id db).1
      ≡ Access.granted granted_id after
    → eqb granted_id id ≡ false
unfolding api_token_revoke
revoked_denied sha256 c id granted_id now required header row db after found active h =
    let (token, t, given, form, hit, ((live, scoped), same)) =
      granted_bearer sha256 required header now granted_id (api_token_revoke c id db).1 after h in
    let k : find (λ (r : TokenRow). r.token_hash == sha256 token)
          (update (token_has_id id) (revoke_at c.now) db.tokens)
        ≡ some t =
      rw (api_token_revoke, found, active) at hit in
    let ended : Ended id t =
      All-find (Ended id) (λ (r : TokenRow). r.token_hash == sha256 token) _ {x = t}
        (update-Ended id c.now db.tokens) k in
    subst (λ n. eqb n id ≡ false) same (ended live)
