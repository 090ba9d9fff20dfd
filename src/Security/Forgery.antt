-- ===== src/Security/Forgery.antt =====
-- Which requests the CSRF guard lets through.
use text.Mathlib.TextEquality.{starts_with_iff}
use Prim.Native.String.{◌++◌}
use nexvary_panel.Base.{
  ◌⊎◌, refl, sym, ap, ◌∙◌, Bool-cases, and-true, ◌&&◌, ◌||◌, Bool, ◌==◌, starts_with, String, ◌≡◌,
  ◌↔◌, inl, inr, true, false, none, some, arith, eq_iff, leb, Option-cases,
}
use nexvary_panel.Base.Text.{truthy, compare_digest, all_chars}
use nexvary_panel.Base.Sets.{contains}
use nexvary_panel.Security.Store.{Session, or_empty}
use nexvary_panel.Security.Guards.{Request}
use nexvary_panel.Security.Csrf.{mutating_methods, sent_token, machine_endpoint, csrf_guard}

-- a method that writes
abbrev pub Writes : String → Type 0
Writes m = (m ≡ "POST") ⊎ ((m ≡ "PUT") ⊎ ((m ≡ "PATCH") ⊎ (m ≡ "DELETE")))

abbrev pub Begins : String → String → Type 0
Begins start s = (rest : String) × (start ++ rest ≡ s)

-- A request of a machine: an update of dynamic DNS or an apply of the fleet, each with the start of
-- its own kind of bearer token.
abbrev pub IsMachine : Request → Type 0
IsMachine r =
    (Begins "/api/dynamic-dns/update/" r.path × Begins "Bearer nvp_ddns_" r.authorization)
    ⊎ ((r.path ≡ "/api/fleet/v1/apply") × Begins "Bearer nvp_fleet_" r.authorization)

-- The request carries the session's token, in the header, or in the form where the header is missing
-- or empty; the token is ASCII and not empty.
pub record HasToken (r : Request) (s : Session) : Type 0 where
  pub token : String
  pub sent :
      (r.csrf_header ≡ some token)
      ⊎ (((r.csrf_header ≡ none) ⊎ (r.csrf_header ≡ some "")) × (r.csrf_form ≡ some token))
  pub filled : truthy token ≡ true
  pub ascii : all_chars (λ c. leb c 127) token ≡ true
  pub same : token ≡ or_empty s.csrf

not_truthy : (t : String) → truthy t ≡ false → t ≡ ""
not_truthy String.[] h = refl
not_truthy (String.◌∷◌ c t) h = absurd (cc h)

sent_cases :
    (r : Request) {token : String}
    → sent_token r ≡ some token
    → (r.csrf_header ≡ some token)
      ⊎ (((r.csrf_header ≡ none) ⊎ (r.csrf_header ≡ some "")) × (r.csrf_form ≡ some token))
unfolding sent_token
sent_cases r {token} h = elim (Option-cases r.csrf_header) [
  | inl missing ↦ inr (inl missing, rw (sent_token, missing) at h)
  | inr (t, given) ↦ elim (Bool-cases (truthy t)) [
    | inl filled ↦ inl (given ∙ rw (sent_token, given, filled) at h)
    | inr empty ↦
        inr (inr (given ∙ ap some (not_truthy t empty)), rw (sent_token, given, empty) at h)
  ]
]

cases_sent :
    (r : Request) {token : String}
    → truthy token ≡ true
    → (r.csrf_header ≡ some token)
      ⊎ (((r.csrf_header ≡ none) ⊎ (r.csrf_header ≡ some "")) × (r.csrf_form ≡ some token))
    → sent_token r ≡ some token
unfolding sent_token
cases_sent r filled (inl given) = rw (given, filled) refl
cases_sent r filled (inr (inl missing, form)) = rw missing form
cases_sent r filled (inr (inr empty, form)) = rw empty form

writes_lem : (m : String) → (contains mutating_methods m ≡ true) ↔ Writes m
unfolding contains
writes_lem m = (
  λ h. elim (Bool-cases ("POST" == m)) [
    | inl e ↦ inl (sym ((eq_iff "POST" m).0 e))
    | inr m1 ↦ elim (Bool-cases ("PUT" == m)) [
      | inl e ↦ inr (inl (sym ((eq_iff "PUT" m).0 e)))
      | inr m2 ↦ elim (Bool-cases ("PATCH" == m)) [
        | inl e ↦ inr (inr (inl (sym ((eq_iff "PATCH" m).0 e))))
        | inr m3 ↦ elim (Bool-cases ("DELETE" == m)) [
          | inl e ↦ inr (inr (inr (sym ((eq_iff "DELETE" m).0 e))))
          | inr m4 ↦ absurd (ground (arith, h, m1, m2, m3, m4))
        ]
      ]
    ]
  ],
  λ w. elim w [
    | inl e ↦ rw e refl
    | inr w2 ↦ elim w2 [
      | inl e ↦ rw e refl
      | inr w3 ↦ elim w3 [ inl e ↦ rw e refl | inr e ↦ rw e refl ]
    ]
  ],
)

or_right : (a b : Bool) → b ≡ true → (a || b) ≡ true
or_right a b h = ground arith

machine_lem : (r : Request) → (machine_endpoint r ≡ true) ↔ IsMachine r
unfolding machine_endpoint
machine_lem r = (
  λ h.
      elim (Bool-cases (
        starts_with r.path "/api/dynamic-dns/update/"
        && starts_with r.authorization "Bearer nvp_ddns_")) [
          | inl dns ↦
              let (p, a) = and-true (starts_with r.path "/api/dynamic-dns/update/") _ dns in
              inl ((starts_with_iff _ _).0 p, (starts_with_iff _ _).0 a)
          | inr other ↦
              let fleet : (r.path == "/api/fleet/v1/apply"
                    && starts_with r.authorization "Bearer nvp_fleet_")
                  ≡ true =
                rw (machine_endpoint, other) at h in
              let (p, a) = and-true (r.path == "/api/fleet/v1/apply") _ fleet in
              inr ((eq_iff r.path _).0 p, (starts_with_iff _ _).0 a)
        ],
  λ m. elim m [
    | inl (p, a) ↦ rw ((starts_with_iff _ _).1 p, (starts_with_iff _ _).1 a) refl
    | inr (p, a) ↦
        or_right
          (starts_with r.path "/api/dynamic-dns/update/"
            && starts_with r.authorization "Bearer nvp_ddns_")
          (r.path == "/api/fleet/v1/apply" && starts_with r.authorization "Bearer nvp_fleet_")
          (rw ((eq_iff r.path "/api/fleet/v1/apply").1 p, (starts_with_iff _ _).1 a) refl)
  ],
)

compare_same :
    (a b : String)
    → compare_digest a b ≡ some true
    → (all_chars (λ c. leb c 127) a ≡ true) × (a ≡ b)
unfolding compare_digest
compare_same a b h = ground (arith, eq_iff a b)

same_compare :
    (a b : String) → all_chars (λ c. leb c 127) a ≡ true → a ≡ b → compare_digest a b ≡ some true
unfolding compare_digest
same_compare a b h e = ground (arith, eq_iff a b)

passed-HasToken :
    (r : Request) (s : Session)
    → contains mutating_methods r.method ≡ true
    → machine_endpoint r ≡ false
    → csrf_guard r s ≡ none
    → HasToken r s
unfolding csrf_guard
passed-HasToken r s writes ordinary h = elim (Option-cases (sent_token r)) [
  | inl missing ↦ absurd (ground arith)
  | inr (token, sent) ↦
      let (ascii, same) = compare_same token (or_empty s.csrf) (ground arith) in
      record {
        token = token;
        sent = sent_cases r sent;
        filled = ground arith;
        ascii = ascii;
        same = same;
      }
]

HasToken-passed : (r : Request) (s : Session) → HasToken r s → csrf_guard r s ≡ none
unfolding csrf_guard
HasToken-passed r s t = ground (
  arith,
  cases_sent r t.filled t.sent,
  t.filled,
  same_compare t.token (or_empty s.csrf) t.ascii t.same,
)

-- A request passes exactly if its method does not write, or it is a machine's, or it carries the
-- token of the session.
pub csrf_exact :
    (r : Request) (s : Session)
    → (csrf_guard r s ≡ none) ↔ ((¬ Writes r.method) ⊎ (IsMachine r ⊎ HasToken r s))
csrf_exact r s = elim (Bool-cases (contains mutating_methods r.method)) [
  | inr reads ↦ (
    λ h. inl (λ w. absurd (cc ((writes_lem r.method).1 w, reads))),
    λ x. unfold csrf_guard in rw reads refl,
  )
  | inl writes ↦ elim (Bool-cases (machine_endpoint r)) [
    | inl machine ↦ (
      λ h. inr (inl ((machine_lem r).0 machine)),
      λ x. unfold csrf_guard in rw (writes, machine) refl,
    )
    | inr ordinary ↦ (
      λ h. inr (inr (passed-HasToken r s writes ordinary h)),
      λ x. elim x [
        | inl reads ↦ absurd (reads ((writes_lem r.method).0 writes))
        | inr y ↦ elim y [
          | inl machine ↦ absurd (cc ((machine_lem r).1 machine, ordinary))
          | inr carried ↦ HasToken-passed r s carried
        ]
      ],
    )
  ]
]
