-- ===== src/AutoSsl/Check.antt =====
-- One policy of the pass of agent/autossl_scheduler.py: what is asked of the provider, and what is
-- recorded.
use nexvary_panel.Base.{
  ℕ, ◌+◌, ◌-◌, ◌*◌, ◌/◌, String, Bool, true, false, not, ◌&&◌, ◌||◌, Option, none, some, List, [],
  ◌∷◌, ◌++◌, eqb, leb, ltb, if◌then◌else◌,
}
use nexvary_panel.Base.Int.{ℤ, clamp_zero}
use nexvary_panel.Base.Lists.{length}
use nexvary_panel.Base.Json.{Json, Fields, get_or, flag, text_of, str_of, truth, show_ℕ, list_of}
use nexvary_panel.Base.Text.{◌⧺◌, truthy, strip, lower}
use nexvary_panel.AutoSsl.Store.{SslPolicy, Db, ssl_allowed, desired_names}
use nexvary_panel.AutoSsl.Preflight.{
  expiry_epoch, name_list, eligible, same_names, preflight_detail,
}

-- the requests to the provider
pub data SslCall : Type 0 where
  ssl_status : String → SslCall
  ssl_preflight : String → List String → SslCall
  ssl_issue : String → List String → String → SslCall
  ssl_renew : String → List String → String → SslCall

-- What the provider answers, and how dates are read.
pub record Provider : Type 0 where
  pub ops : SslCall → Fields
  pub parse_date : String → Option ℤ

-- What is recorded: a status, a detail, and whether the certificate is new.
pub record Verdict : Type 0 where
  pub status : String
  pub detail : String
  pub renewed : Bool

-- What comes of a policy: its calls, and the verdict, or an exception that ends the pass.
pub record CheckOutcome : Type 0 where
  pub calls : List SslCall
  pub verdict : Option Verdict

abbrev pub plain : String → String → Option Verdict
plain status detail = some (record { status = status; detail = detail; renewed = false })

-- `_preflight_detail(result.get("preflight") or preflight)`; `none` is an AttributeError
unfoldable pub issued_detail : Json → Fields → Option String
issued_detail (Json.dict s d) preflight =
    some (preflight_detail (if truth (Json.dict s d) then d else preflight))
issued_detail v preflight = if truth v then none else some (preflight_detail preflight)

-- the verdict on the answer to an issue or a renewal
unfoldable pub issued : Fields → Fields → Bool → String → Option Verdict
issued result preflight partial failed =
    if flag "ok" result
    then (elim (issued_detail (get_or "preflight" Json.null result) preflight) [
      | none ↦ none
      | some detail ↦ some (record {
        status = if partial then "valid-partial" else "valid";
        detail = detail;
        renewed = true;
      })
    ])
    else plain failed (str_of (get_or "detail" (get_or "error" (Json.str "") result) result))

-- `not preflight.get("fully_ready", True)`
abbrev pub is_partial : Fields → Bool
is_partial preflight = not (truth (get_or "fully_ready" (Json.bool true) preflight))

abbrev pub is_ready_reply : Fields → Bool
is_ready_reply preflight = flag "ok" preflight && flag "ready" preflight

-- No certificate is installed.
unfoldable pub first_issue : Provider → String → List String → String → CheckOutcome
first_issue p domain names contact =
    if not (truthy contact)
    then record {
      calls = [];
      verdict =
          plain "needs-contact"
            "certificate missing; contact email required for automatic issuance";
    }
    else let preflight = p.ops (SslCall.ssl_preflight domain names) in
      if not (is_ready_reply preflight)
      then record {
        calls = SslCall.ssl_preflight domain names ∷ [];
        verdict = plain "preflight-failed" (preflight_detail preflight);
      }
      else let result = p.ops (SslCall.ssl_issue domain names contact) in
        record {
          calls = SslCall.ssl_preflight domain names ∷ SslCall.ssl_issue domain names contact ∷ [];
          verdict = issued result preflight (flag "excluded_names" result) "issue-failed";
        }

-- The names of the certificate are not those that are eligible.
unfoldable pub reissue : Provider → String → List String → String → Fields → CheckOutcome
reissue p domain names contact preflight =
    if not (truthy contact)
    then record {
      calls = SslCall.ssl_preflight domain names ∷ [];
      verdict =
          plain "needs-contact"
            "certificate names changed; contact email required for SAN reconciliation";
    }
    else let result = p.ops (SslCall.ssl_issue domain names contact) in
      record {
        calls = SslCall.ssl_preflight domain names ∷ SslCall.ssl_issue domain names contact ∷ [];
        verdict =
            issued result preflight (flag "excluded_names" result || is_partial preflight)
              "san-update-failed";
      }

-- The certificate is near its end: `done` are the calls so far.
unfoldable pub renew :
    Provider → String → List String → String → Fields → List SslCall → CheckOutcome
renew p domain names contact preflight done =
    if not (is_ready_reply preflight)
    then record { calls = done; verdict = plain "preflight-failed" (preflight_detail preflight) }
    else let result = p.ops (SslCall.ssl_renew domain names contact) in
      record {
        calls = done ++ SslCall.ssl_renew domain names contact ∷ [];
        verdict =
            issued result preflight (flag "excluded_names" result || is_partial preflight)
              "renew-failed";
      }

-- the certificate stays
unfoldable pub keep : ℕ → List String → Option Fields → List SslCall → CheckOutcome
keep remaining names preflight done =
    let days = show_ℕ (remaining / 86400) in
    let valid : CheckOutcome = record {
      calls = done;
      verdict =
          plain "valid"
            ("certificate valid; " ⧺ days ⧺ " day(s) remaining; names=" ⧺ show_ℕ (length names));
    } in
    elim preflight [
      | none ↦ valid
      | some d ↦
          if is_partial d
          then record {
            calls = done;
            verdict =
                plain "valid-partial"
                  ("certificate valid; " ⧺ days ⧺ " day(s) remaining; " ⧺ preflight_detail d);
          }
          else valid
    ]

-- `max(0, expiry - now)`
unfoldable pub remaining_of : ℤ → ℕ → ℕ
remaining_of expiry now = clamp_zero expiry - now

unfoldable pub check_expiry :
    Provider → ℕ → String → List String → String → ℕ → Json → Option Fields → CheckOutcome
check_expiry p now domain names contact renew_before detail preflight =
    let done : List SslCall = elim preflight [
      | none ↦ []
      | some _ ↦ SslCall.ssl_preflight domain names ∷ []
    ] in
    elim (expiry_epoch p.parse_date detail) [
      | none ↦ record {
        calls = done;
        verdict = plain "parse-failed" "certificate expiry could not be parsed";
      }
      | some expiry ↦
          if leb (remaining_of expiry now)
            ((if eqb renew_before 0 then 30 else renew_before) * 86400)
          then (elim preflight [
            | some d ↦ renew p domain names contact d done
            | none ↦
                renew p domain names contact (p.ops (SslCall.ssl_preflight domain names))
                  (SslCall.ssl_preflight domain names ∷ [])
          ])
          else keep (remaining_of expiry now) names preflight done
    ]

-- A certificate is installed, with other names than the policy has.
unfoldable pub check_names :
    Provider → ℕ → String → List String → String → ℕ → Json → List String → CheckOutcome
check_names p now domain names contact renew_before detail current =
    let preflight = p.ops (SslCall.ssl_preflight domain names) in
    if not (is_ready_reply preflight)
    then record {
      calls = SslCall.ssl_preflight domain names ∷ [];
      verdict = plain "preflight-failed" (preflight_detail preflight);
    }
    else if not (same_names current (eligible preflight names))
    then reissue p domain names contact preflight
    else check_expiry p now domain names contact renew_before detail (some preflight)

-- A certificate is installed, with these names.
unfoldable pub check_current :
    Provider → ℕ → String → List String → String → ℕ → Json → List String → CheckOutcome
check_current p now domain names contact renew_before detail current =
    if not (eqb (length current) 0) && not (same_names current names)
    then check_names p now domain names contact renew_before detail current
    else check_expiry p now domain names contact renew_before detail none

-- A certificate is installed. Names that are no list are a TypeError.
unfoldable pub check_installed :
    Provider → ℕ → String → List String → String → ℕ → Fields → CheckOutcome
check_installed p now domain names contact renew_before status =
    elim (list_of (get_or "names" Json.null status)) [
      | none ↦ record { calls = []; verdict = none }
      | some l ↦
          check_current p now domain names contact renew_before (get_or "detail" Json.null status)
            (name_list l)
    ]

abbrev pub after : SslCall → CheckOutcome → CheckOutcome
after call o = record { calls = call ∷ o.calls; verdict = o.verdict }

-- what follows the status
unfoldable pub check_status : Provider → ℕ → SslPolicy → List String → CheckOutcome
check_status p now row names =
    let status = p.ops (SslCall.ssl_status row.domain) in
    let contact = lower (strip row.contact_email) in
    if not (flag "ok" status)
    then record {
      calls = [];
      verdict = plain "check-failed" (text_of "error" "ssl status unavailable" status);
    }
    else if not (flag "installed" status)
    then first_issue p row.domain names contact
    else check_installed p now row.domain names contact row.renew_before_days status

abbrev pub not_allowed : CheckOutcome
not_allowed = record {
  calls = [];
  verdict =
      plain "policy-disabled"
        "security.ssl_tls disabled or account inactive; no provider action executed";
}

-- A policy of the pass; `none` is one that was checked within the hour.
unfoldable pub check_policy : Provider → ℕ → Db → SslPolicy → Option CheckOutcome
check_policy p now db row =
    if ltb now (row.last_check + 3600)
    then none
    else if not (ssl_allowed db row.owner)
    then some not_allowed
    else some (
        after (SslCall.ssl_status row.domain)
          (check_status p now row (desired_names db row.domain)))
