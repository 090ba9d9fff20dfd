-- ===== src/Fleet/Revoked.antt =====
-- A revoked token of the machine endpoint: `fleet_revoke_inbound_token` and
-- `_authenticate_machine_token` of panel/routes_fleet.py.
use nexvary_panel.Base.{
  ℕ, ◌≡◌, inl, inr, String, true, false, some, List, [], ◌∷◌, Bool-cases, Option-cases, Reply,
}
use mathlib.Core.Path.{subst}
use nexvary_panel.Base.Lists.{All, All-where, All-take, find, select, update, take}
use nexvary_panel.Base.Text.{compare_digest}
use nexvary_panel.Web.{Context}
use nexvary_panel.Fleet.Store.{Token, Db}
use nexvary_panel.Fleet.Nodes.{admin_owner}
use nexvary_panel.Fleet.Inbound.{first_match, is_machine_token, authenticate_machine_token}
use nexvary_panel.Fleet.Admin.{token_of, fleet_revoke_inbound_token}

All-first_match :
    (P : Token → Type 0) (digest : String) (l : List Token) {t : Token}
    → All P l
    → first_match digest l ≡ some t
    → P t
unfolding first_match
All-first_match P digest [] h e = absurd (cc)
All-first_match P digest (x ∷ l) {t} h e =
    elim (Option-cases (compare_digest x.token_hash digest)) [
      | inl odd ↦ All-first_match P digest l {t = t} h.1 (rw (first_match, odd) at e)
      | inr (b, compared) ↦ elim (Bool-cases b) [
        | inr other ↦
            All-first_match P digest l {t = t} h.1 (rw (first_match, compared, other) at e)
        | inl same ↦
            let k : some x ≡ some t = rw (first_match, compared, same) at e in
            let r : x ≡ t = cc k in subst P r h.0
      ]
    ]

-- what an enabled row of a table is after the revocation
abbrev Other : String → ℕ → Token → Type 0
Other owner id t = t.enabled ≡ true → token_of owner id t ≡ false

update-Other :
    (owner : String) (id : ℕ) (l : List Token)
    → All (Other owner id) (update (token_of owner id) (λ t. record t { enabled = false }) l)
unfolding update
update-Other owner id [] = tt
update-Other owner id (t ∷ l) = elim (Bool-cases (token_of owner id t)) [
  | inl hit ↦ rw hit ((λ e. absurd (cc e)), update-Other owner id l)
  | inr miss ↦ rw miss ((λ e. miss), update-Other owner id l)
]

-- After an administrator has revoked a token, no request is taken for one of that token.
pub revoked_refused :
    (sha256 : String → String) (c : Context) (id code shown : ℕ) (db : Db) (sent : String)
    (t : Token)
    → (fleet_revoke_inbound_token c id db).0 ≡ Reply.done code shown
    → authenticate_machine_token sha256 (fleet_revoke_inbound_token c id db).1 sent ≡ some t
    → token_of (admin_owner c) id t ≡ false
unfolding fleet_revoke_inbound_token authenticate_machine_token
revoked_refused sha256 c id code shown db sent t done accepted =
    let owner = admin_owner c in
    let off = update (token_of owner id) (λ (x : Token). record x { enabled = false }) db.tokens in
    elim (Option-cases (find (token_of owner id) db.tokens)) [
      | inl missing ↦ absurd (cc (rw (fleet_revoke_inbound_token, missing) at done))
      | inr (row, found) ↦ elim (Bool-cases (is_machine_token sent)) [
        | inr odd ↦ absurd (cc (rw (authenticate_machine_token, odd) at accepted))
        | inl formed ↦
            let k : first_match (sha256 sent) (take 200 (select (λ (x : Token). x.enabled) off))
                ≡ some t =
              rw (fleet_revoke_inbound_token, authenticate_machine_token, found, formed) at
                accepted in
            All-first_match (λ x. token_of owner id x ≡ false) (sha256 sent) _ {t = t}
              (All-take _ 200 _
                (All-where _ (λ (x : Token). x.enabled) off (update-Other owner id db.tokens)))
              k
      ]
    ]
