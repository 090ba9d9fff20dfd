-- ===== src/Security/StepUp.antt =====
-- The step-up window: `step_up_active`, `grant_step_up` and `clear_step_up` of panel/security.py.
use nexvary_panel.Base.{ℕ, ◌+◌, Bool, ◌&&◌, Option, none, some, leb}
use nexvary_panel.Security.Store.{Session, or_empty}

-- `STEP_UP_TTL_SECONDS`
abbrev pub step_up_ttl_seconds : ℕ
step_up_ttl_seconds = 300

-- `session.get("step_up_until", 0)`
abbrev pub until_or_zero : Option ℕ → ℕ
until_or_zero none = 0
until_or_zero (some t) = t

unfoldable pub step_up_active : Session → ℕ → Bool
step_up_active s now = s.auth && leb now (until_or_zero s.step_up_until)

unfoldable pub grant_step_up : Session → ℕ → ℕ × Session
grant_step_up s now =
    let until = now + step_up_ttl_seconds in
    (until, record s { step_up_until = some until; step_up_user = some (or_empty s.user) })

unfoldable pub clear_step_up : Session → Session
clear_step_up s = record s { step_up_until = none; step_up_user = none }
