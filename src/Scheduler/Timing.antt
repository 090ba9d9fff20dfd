-- ===== src/Scheduler/Timing.antt =====
-- When a task is due, in seconds of the epoch: `_due` of agent/scheduler_agent.py.
use nexvary_panel.Base.{
  ℕ, ◌+◌, ◌*◌, ◌/◌, ◌<◌, ◌≤◌, ◌≡◌, ◌↔◌, ◌⊎◌, inl, inr, ◌==◌, true, false, not, ◌&&◌, eqb, leb,
  if◌then◌else◌, arith, Bool-cases,
}
use nexvary_panel.Base.Sets.{contains}
use nexvary_panel.Scheduler.Store.{Task}
use nexvary_panel.Scheduler.Calendar.{
  due, same_hour, same_day, same_iso_week, time_reached, cadences, minute_of, day_of, week_of,
  weekday_of,
}

reached_exact :
    (now hour minute : ℕ)
    → minute < 60
    → (time_reached now hour minute ≡ true) ↔ (day_of now * 86400 + hour * 3600 + minute * 60 ≤ now)
unfolding time_reached
reached_exact now hour minute h = ground arith

hour_exact : (a b : ℕ) → a ≤ b → (same_hour a b ≡ false) ↔ ((a ≡ 0) ⊎ (a < (b / 3600) * 3600))
unfolding same_hour
hour_exact a b h = ground arith

day_exact : (a b : ℕ) → a ≤ b → (same_day a b ≡ false) ↔ ((a ≡ 0) ⊎ (a < day_of b * 86400))
unfolding same_day
day_exact a b h = ground arith

week_exact :
    (a b : ℕ) → a ≤ b → (same_iso_week a b ≡ false) ↔ ((a ≡ 0) ⊎ (a + 259200 < week_of b * 604800))
unfolding same_iso_week
week_exact a b h = ground arith

-- Moments are counted here from the Monday before the epoch, three days before it.
abbrev pub from_monday : ℕ → ℕ
from_monday t = t + 259200

-- the start of the hour, the day or the week of `now`, as the cadence has it
abbrev pub begins : Task → ℕ → ℕ
begins row now =
    if row.cadence == "hourly"
    then (now / 3600) * 3600 + 259200
    else if row.cadence == "daily"
    then day_of now * 86400 + 259200
    else week_of now * 604800

-- the moment of that period from which the task may run
abbrev pub opens : Task → ℕ → ℕ
opens row now =
    begins row now
    + (if row.cadence == "hourly"
        then row.minute_utc * 60
        else if row.cadence == "daily"
        then row.hour_utc * 3600 + row.minute_utc * 60
        else row.weekday_utc * 86400 + row.hour_utc * 3600 + row.minute_utc * 60)

-- the end of the hour or of the day in which it may run
abbrev pub closes : Task → ℕ → ℕ
closes row now =
    begins row now
    + (if row.cadence == "hourly"
        then 3600
        else if row.cadence == "daily"
        then 86400
        else row.weekday_utc * 86400 + 86400)

hourly_exact :
    (row : Task) (now : ℕ)
    → row.minute_utc < 60
    → row.last_run ≤ now
    → (leb row.minute_utc (minute_of now) && not (same_hour row.last_run now) ≡ true) ↔ (
        ((now / 3600) * 3600 + 259200 + row.minute_utc * 60 ≤ now + 259200)
        × (now + 259200 < (now / 3600) * 3600 + 259200 + 3600)
        × ((row.last_run ≡ 0) ⊎ (row.last_run + 259200 < (now / 3600) * 3600 + 259200)))
hourly_exact row now m l = ground (arith, hour_exact row.last_run now l)

daily_exact :
    (row : Task) (now : ℕ)
    → row.minute_utc < 60
    → row.last_run ≤ now
    → (time_reached now row.hour_utc row.minute_utc && not (same_day row.last_run now) ≡ true) ↔ (
        (day_of now * 86400 + 259200 + (row.hour_utc * 3600 + row.minute_utc * 60) ≤ now + 259200)
        × (now + 259200 < day_of now * 86400 + 259200 + 86400)
        × ((row.last_run ≡ 0) ⊎ (row.last_run + 259200 < day_of now * 86400 + 259200)))
daily_exact row now m l =
    ground (arith, reached_exact now row.hour_utc row.minute_utc m, day_exact row.last_run now l)

weekly_exact :
    (row : Task) (now : ℕ)
    → row.minute_utc < 60
    → row.last_run ≤ now
    → row.weekday_utc < 7
    → (eqb (weekday_of now) row.weekday_utc
          && time_reached now row.hour_utc row.minute_utc
          && not (same_iso_week row.last_run now)
        ≡ true)
      ↔ ((week_of now * 604800
              + (row.weekday_utc * 86400 + row.hour_utc * 3600 + row.minute_utc * 60)
            ≤ now + 259200)
          × (now + 259200 < week_of now * 604800 + (row.weekday_utc * 86400 + 86400))
          × ((row.last_run ≡ 0) ⊎ (row.last_run + 259200 < week_of now * 604800)))
weekly_exact row now m l w =
    ground (arith, reached_exact now row.hour_utc row.minute_utc m, week_exact row.last_run now l)

-- A task that is enabled and has no request to run at once is due from its minute on, up to the end
-- of its hour (hourly) or of its day (daily, weekly), and only if it has not run since the hour,
-- day or week began.
pub due_exact :
    (row : Task) (now : ℕ)
    → row.run_requested ≡ false
    → row.enabled ≡ true
    → contains cadences row.cadence ≡ true
    → row.minute_utc < 60
    → row.weekday_utc < 7
    → row.last_run ≤ now
    → (due row now ≡ true) ↔ (
        (opens row now ≤ from_monday now)
        × (from_monday now < closes row now)
        × ((row.last_run ≡ 0) ⊎ (from_monday row.last_run < begins row now)))
unfolding due
due_exact row now asked on known m w l = elim (Bool-cases (row.cadence == "hourly")) [
  | inl hourly ↦ rw (asked, on, known, hourly) (hourly_exact row now m l)
  | inr other ↦ elim (Bool-cases (row.cadence == "daily")) [
    | inl daily ↦ rw (asked, on, known, other, daily) (daily_exact row now m l)
    | inr weekly ↦ rw (asked, on, known, other, weekly) (weekly_exact row now m l w)
  ]
]
