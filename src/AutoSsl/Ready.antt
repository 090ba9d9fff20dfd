-- ===== src/AutoSsl/Ready.antt =====
-- The calls that agent/autossl_scheduler.py makes for one policy.
use nexvary_panel.Base.{
  ℕ, ◌*◌, String, ◌≡◌, refl, sym, ap, ◌∙◌, inl, inr, true, not, ◌&&◌, Option, none, some, List, [],
  ◌∷◌, eqb, leb, if◌then◌else◌, Bool-cases, Option-cases,
}
use nexvary_panel.Base.Lists.{All, All-append, length}
use nexvary_panel.Base.Json.{Json, Fields, get_or, flag, truth, list_of}
use nexvary_panel.Base.Text.{truthy, strip, lower}
use nexvary_panel.AutoSsl.Store.{SslPolicy}
use nexvary_panel.AutoSsl.Preflight.{expiry_epoch, name_list, eligible, same_names}
use nexvary_panel.AutoSsl.Check.{
  SslCall, Provider, is_ready_reply, first_issue, reissue, renew, keep, remaining_of, check_expiry,
  check_names, check_current, check_installed, check_status,
}

-- A call is for this domain, and with these names where it has names; one that asks for a
-- certificate comes after the provider has found the names ready, and a new certificate has a
-- contact.
abbrev pub IsReadyCall : Provider → String → List String → SslCall → Type 0
IsReadyCall p domain names (SslCall.ssl_issue d ns contact) =
    (d ≡ domain)
    × (ns ≡ names)
    × (truthy contact ≡ true)
    × (is_ready_reply (p.ops (SslCall.ssl_preflight domain names)) ≡ true)
IsReadyCall p domain names (SslCall.ssl_renew d ns contact) =
    (d ≡ domain)
    × (ns ≡ names)
    × (is_ready_reply (p.ops (SslCall.ssl_preflight domain names)) ≡ true)
IsReadyCall p domain names (SslCall.ssl_status d) = d ≡ domain
IsReadyCall p domain names (SslCall.ssl_preflight d ns) = (d ≡ domain) × (ns ≡ names)

module _ (p : Provider) (domain : String) (names : List String) (contact : String) where
  first_issue_ready : All (IsReadyCall p domain names) (first_issue p domain names contact).calls
  unfolding first_issue
  first_issue_ready = elim (Bool-cases (truthy contact)) [
    | inr missing ↦ rw (first_issue, missing) tt
    | inl given ↦ elim (Bool-cases (is_ready_reply (p.ops (SslCall.ssl_preflight domain names)))) [
      | inr unready ↦ rw (first_issue, given, unready) ((refl, refl), tt)
      | inl ready ↦ rw (first_issue, given, ready) ((refl, refl), ((refl, refl, given, ready), tt))
    ]
  ]

  reissue_ready :
      (preflight : Fields)
      → is_ready_reply (p.ops (SslCall.ssl_preflight domain names)) ≡ true
      → All (IsReadyCall p domain names) (reissue p domain names contact preflight).calls
  unfolding reissue
  reissue_ready preflight ready = elim (Bool-cases (truthy contact)) [
    | inr missing ↦ rw (reissue, missing) ((refl, refl), tt)
    | inl given ↦ rw (reissue, given) ((refl, refl), ((refl, refl, given, ready), tt))
  ]

  renew_ready :
      (preflight : Fields) (done : List SslCall)
      → preflight ≡ p.ops (SslCall.ssl_preflight domain names)
      → All (IsReadyCall p domain names) done
      → All (IsReadyCall p domain names) (renew p domain names contact preflight done).calls
  unfolding renew
  renew_ready preflight done same before = elim (Bool-cases (is_ready_reply preflight)) [
    | inr unready ↦ rw (renew, unready) before
    | inl ready ↦
        rw (renew, ready)
          (All-append (IsReadyCall p domain names) done
            (SslCall.ssl_renew domain names contact ∷ []) before
            ((refl, refl, ap is_ready_reply (sym same) ∙ ready), tt))
  ]

  keep_ready :
      (remaining : ℕ) (preflight : Option Fields) (done : List SslCall)
      → All (IsReadyCall p domain names) done
      → All (IsReadyCall p domain names) (keep remaining names preflight done).calls
  unfolding keep
  keep_ready remaining none done before = before
  keep_ready remaining (some d) done before =
      elim (Bool-cases (not (truth (get_or "fully_ready" (Json.bool true) d)))) [
        | inl partial ↦ rw (keep, partial) before
        | inr whole ↦ rw (keep, whole) before
      ]

  check_expiry_ready :
      (now before : ℕ) (detail : Json) (preflight : Option Fields)
      → ((d : Fields) → preflight ≡ some d → d ≡ p.ops (SslCall.ssl_preflight domain names))
      → All
          (IsReadyCall p domain names)
          (check_expiry p now domain names contact before detail preflight).calls
  unfolding check_expiry
  check_expiry_ready now before detail none same =
      elim (Option-cases (expiry_epoch p.parse_date detail)) [
        | inl odd ↦ rw (check_expiry, odd) tt
        | inr (expiry, read) ↦
            elim (Bool-cases
              (leb (remaining_of expiry now) ((if eqb before 0 then 30 else before) * 86400))) [
                | inl near ↦
                    rw (check_expiry, read, near)
                      (renew_ready (p.ops (SslCall.ssl_preflight domain names))
                        (SslCall.ssl_preflight domain names ∷ []) refl ((refl, refl), tt))
                | inr far ↦
                    rw (check_expiry, read, far) (keep_ready (remaining_of expiry now) none [] tt)
              ]
      ]
  check_expiry_ready now before detail (some d) same =
      elim (Option-cases (expiry_epoch p.parse_date detail)) [
        | inl odd ↦ rw (check_expiry, odd) ((refl, refl), tt)
        | inr (expiry, read) ↦
            elim (Bool-cases
              (leb (remaining_of expiry now) ((if eqb before 0 then 30 else before) * 86400))) [
                | inl near ↦
                    rw (check_expiry, read, near)
                      (renew_ready d (SslCall.ssl_preflight domain names ∷ []) (same d refl)
                        ((refl, refl), tt))
                | inr far ↦
                    rw (check_expiry, read, far)
                      (keep_ready (remaining_of expiry now) (some d)
                        (SslCall.ssl_preflight domain names ∷ []) ((refl, refl), tt))
              ]
      ]

  check_names_ready :
      (now before : ℕ) (detail : Json) (current : List String)
      → All
          (IsReadyCall p domain names)
          (check_names p now domain names contact before detail current).calls
  unfolding check_names
  check_names_ready now before detail current =
      let preflight = p.ops (SslCall.ssl_preflight domain names) in
      elim (Bool-cases (is_ready_reply preflight)) [
        | inr unready ↦ rw (check_names, unready) ((refl, refl), tt)
        | inl ready ↦ elim (Bool-cases (same_names current (eligible preflight names))) [
          | inr differ ↦ rw (check_names, ready, differ) (reissue_ready preflight ready)
          | inl agree ↦
              rw (check_names, ready, agree)
                (check_expiry_ready now before detail (some preflight) (λ d e. sym (cc e)))
        ]
      ]

  check_installed_ready :
      (now before : ℕ) (status : Fields)
      → All
          (IsReadyCall p domain names)
          (check_installed p now domain names contact before status).calls
  unfolding check_installed check_current
  check_installed_ready now before status =
      elim (Option-cases (list_of (get_or "names" Json.null status))) [
        | inl odd ↦ rw (check_installed, odd) tt
        | inr (l, read) ↦
            elim (Bool-cases
              (not (eqb (length (name_list l)) 0) && not (same_names (name_list l) names))) [
                | inl differ ↦
                    rw (check_installed, read, check_current, differ)
                      (check_names_ready now before (get_or "detail" Json.null status)
                        (name_list l))
                | inr agree ↦
                    rw (check_installed, read, check_current, agree)
                      (check_expiry_ready now before (get_or "detail" Json.null status) none
                        (λ d e. absurd (cc e)))
              ]
      ]

pub check_status_ready :
    (p : Provider) (now : ℕ) (row : SslPolicy) (names : List String)
    → All (IsReadyCall p row.domain names) (check_status p now row names).calls
unfolding check_status
check_status_ready p now row names =
    let status = p.ops (SslCall.ssl_status row.domain) in
    let contact = lower (strip row.contact_email) in
    elim (Bool-cases (flag "ok" status)) [
      | inr bad ↦ rw (check_status, bad) tt
      | inl good ↦ elim (Bool-cases (flag "installed" status)) [
        | inr absent ↦
            rw (check_status, good, absent) (first_issue_ready p row.domain names contact)
        | inl present ↦
            rw (check_status, good, present)
              (check_installed_ready p row.domain names contact now row.renew_before_days status)
      ]
    ]
