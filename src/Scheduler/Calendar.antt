-- ===== src/Scheduler/Calendar.antt =====
-- When a task is due: `_same_hour`, `_same_day`, `_same_iso_week` and `_due` of
-- agent/scheduler_agent.py. Day 0 of the epoch is a Thursday, the fourth day of an ISO week, so
-- the ISO week of day `d` is named by `(d + 3) / 7`.
use nexvary_panel.Base.{
  ℕ, ◌+◌, ◌/◌, ◌%◌, String, ◌==◌, Bool, true, false, not, ◌&&◌, ◌||◌, List, [], ◌∷◌, eqb, ltb, leb,
  if◌then◌else◌,
}
use nexvary_panel.Base.Sets.{contains}
use nexvary_panel.Scheduler.Store.{Task}

-- the fields of `datetime.fromtimestamp(t, timezone.utc)`
abbrev pub minute_of : ℕ → ℕ
minute_of t = (t / 60) % 60

abbrev pub hour_of : ℕ → ℕ
hour_of t = (t / 3600) % 24

abbrev pub day_of : ℕ → ℕ
day_of t = t / 86400

-- `weekday()`: Monday is 0.
abbrev pub weekday_of : ℕ → ℕ
weekday_of t = (day_of t + 3) % 7

abbrev pub week_of : ℕ → ℕ
week_of t = (day_of t + 3) / 7

unfoldable pub same_hour : ℕ → ℕ → Bool
same_hour a b = if eqb a 0 then false else eqb (a / 3600) (b / 3600)

unfoldable pub same_day : ℕ → ℕ → Bool
same_day a b = if eqb a 0 then false else eqb (day_of a) (day_of b)

unfoldable pub same_iso_week : ℕ → ℕ → Bool
same_iso_week a b = if eqb a 0 then false else eqb (week_of a) (week_of b)

-- `CADENCES`
abbrev pub cadences : List String
cadences = "hourly" ∷ "daily" ∷ "weekly" ∷ []

-- `(current.hour, current.minute) >= (hour, minute)`
unfoldable pub time_reached : ℕ → ℕ → ℕ → Bool
time_reached now hour minute =
    ltb hour (hour_of now) || (eqb (hour_of now) hour && leb minute (minute_of now))

unfoldable pub due : Task → ℕ → Bool
due row now =
    if row.run_requested
    then true
    else if not row.enabled
    then false
    else if not (contains cadences row.cadence)
    then false
    else if row.cadence == "hourly"
    then leb row.minute_utc (minute_of now) && not (same_hour row.last_run now)
    else if row.cadence == "daily"
    then time_reached now row.hour_utc row.minute_utc && not (same_day row.last_run now)
    else eqb (weekday_of now) row.weekday_utc
      && time_reached now row.hour_utc row.minute_utc
      && not (same_iso_week row.last_run now)
