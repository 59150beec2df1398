-- ===== src/Services/Recurrence.antt =====
-- csilservices/recurrence.go: the instants that a rule produces. Go's time package is a parameter:
-- a date at midnight in a location is the number of its civil day, and a month is its number,
-- 12 · year + month - 1. Locations that skip a midnight are left out.
pub mod Loop
pub mod Days
pub mod Periods
pub mod Times
pub mod Rules
pub mod Stable
pub mod Weekly
use tinku.Prelude.{
  ℕ, zero, suc, ◌+◌, ◌-◌, ◌*◌, ◌%◌, String, Bool, false, ◌&&◌, not, Option, none, some, List, [],
  ◌∷◌, ltb, leb, ◌==◌, if◌then◌else◌, str_eq, or_else,
}
use tinku.Prelude.Int.{ℤ, pos, negsuc}
use tinku.Prelude.Result.{Result, ok, err, internal}
use tinku.Store.Series.{
  Recurrence, EventSeries, freq_weekly, freq_monthly, freq_quarterly, freq_yearly, time_weekday,
}

-- The days of a location, and the instant of a wall-clock time on one of them.
pub record Location : Type 0 where
  pub day_in : ℕ → ℕ
  pub instant : ℕ → ℕ → ℕ → ℕ

-- time.LoadLocation, time.Parse("15:04", s), and the calendar: the weekday of a day, the month that
-- it is in, and the first day of a month.
pub record TimeLib : Type 0 where
  pub load_location : String → Option Location
  pub parse_clock : String → Option (ℕ × ℕ)
  pub weekday : ℕ → ℕ
  pub month_of : ℕ → ℕ
  pub month_start : ℕ → ℕ

abbrev second : ℕ
second = 1000000000

abbrev pub default_horizon : ℕ
default_horizon = 365 * 24 * 3600 * second

abbrev pub max_horizon : ℕ
max_horizon = 3 * 365 * 24 * 3600 * second

abbrev pub max_occurrences_per_expansion : ℕ
max_occurrences_per_expansion = 500

abbrev pub max_time : ℕ → ℕ → ℕ
max_time a b = if ltb b a then a else b

unfoldable pub rule_weekday : Recurrence → Result ℕ
rule_weekday r = elim r.weekday [
  | none ↦ err (internal "recurrence rule names no weekday")
  | some w ↦ elim (time_weekday w) [ none ↦ err (internal "unknown weekday") | some d ↦ ok d ]
]

abbrev pub keep : ℕ → Option (List ℕ) → Option (List ℕ)
keep at none = none
keep at (some ats) = some (at ∷ ats)

-- The loop that both kinds of rule run: it stops past the window, keeps what `pick` finds in a
-- period, and never keeps more than the bound on rows. `n` occurrences are kept already.
module _ (next : ℕ → ℕ) (past : ℕ → Bool) (pick : ℕ → ℕ → Option ℕ) where
  unfoldable pub collect : ℕ → ℕ → ℕ → ℕ → Option (List ℕ)
  collect zero period cursor n = none
  collect (suc fuel) period cursor n =
      let rest = collect fuel (suc period) (next cursor) in
      if past cursor then some [] else elim (pick period cursor) [
        | none ↦ rest n
        | some at ↦
            if leb max_occurrences_per_expansion (suc n)
            then some (at ∷ [])
            else keep at (rest (suc n))
      ]

abbrev pub is_ordinal : ℤ → ℕ → Bool
is_ordinal (pos n) seen = n == seen
is_ordinal (negsuc n) seen = false

abbrev pub interval_of : ℤ → ℕ
interval_of (pos n) = if ltb n 1 then 1 else n
interval_of (negsuc n) = 1

-- The fuel of the loops does not run out.
abbrev pub finished : Option (List ℕ) → Result (List ℕ)
finished none = err (internal "out of fuel")
finished (some ats) = ok ats

abbrev pub window_end_of : EventSeries → ℕ → ℕ
window_end_of s through = elim s.ends_on [
  | none ↦ through
  | some e ↦ if ltb e through then e else through
]

-- A wall-clock time on a day.
abbrev pub at_clock : Location → ℕ → ℕ → ℕ → ℕ
at_clock loc hour minute day = loc.instant day hour minute

module _ (lib : TimeLib) where
  unfoldable pub next_weekday : ℕ → ℕ → ℕ
  next_weekday day weekday = day + (weekday + 7 - lib.weekday day) % 7

  -- Calendar quarters and years, whenever the series begins.
  unfoldable pub period_start : ℕ → ℕ → ℕ
  period_start day months = lib.month_of day - lib.month_of day % 12 % months

  -- The day `n` of the month that begins on `begin`, unless it runs into the next one.
  abbrev month_day : ℕ → ℕ → Option ℕ
  month_day begin day = if lib.month_of day % 12 == lib.month_of begin % 12 then some day else none

  unfoldable pub day_of_month : ℕ → ℤ → Option ℕ
  day_of_month begin (pos n) = month_day begin (begin + n - 1)
  day_of_month begin (negsuc n) = month_day begin (begin - (n + 2))

  -- The walk back from the day before `begin + left`.
  unfoldable pub last_weekday : ℕ → ℕ → ℕ → Option ℕ
  last_weekday begin weekday zero = none
  last_weekday begin weekday (suc left) =
      let rest = last_weekday begin weekday left in
      if lib.weekday (begin + left) == weekday then some (begin + left) else rest

  -- The walk by weeks from `day`; the rounds bound it, since each takes a week.
  unfoldable pub nth_weekday : ℕ → ℕ → ℕ → ℤ → ℕ → Option ℕ
  nth_weekday zero day end ordinal seen = none
  nth_weekday (suc rounds) day end ordinal seen =
      let rest = nth_weekday rounds (day + 7) end ordinal (suc seen) in
      if not (ltb day end) then none else if is_ordinal ordinal (suc seen) then some day else rest

  abbrev pub weekday_in_period : ℕ → ℕ → ℕ → ℤ → Option ℕ
  weekday_in_period begin end weekday (pos n) =
      nth_weekday (suc (end - begin)) (next_weekday begin weekday) end (pos n) 0
  weekday_in_period begin end weekday (negsuc zero) = last_weekday begin weekday (end - begin)
  weekday_in_period begin end weekday (negsuc (suc n)) =
      nth_weekday (suc (end - begin)) (next_weekday begin weekday) end (negsuc (suc n)) 0

  unfoldable pub day_in_period : ℕ → ℕ → Recurrence → Option ℕ
  day_in_period begin end r = elim r.day_of_month [
    | some d ↦ day_of_month begin d
    | none ↦ elim (rule_weekday r) [
      | err e ↦ none
      | ok weekday ↦ weekday_in_period begin end weekday (or_else r.ordinal (pos 1))
    ]
  ]

  -- A location, a wall-clock time and a window.
  module _ (loc : Location) (hour minute interval window_start window_end : ℕ) where
    abbrev clock : ℕ → ℕ
    clock day = at_clock loc hour minute day

    unfoldable pub past_week : ℕ → Bool
    past_week cursor = ltb window_end (clock cursor)

    unfoldable pub pick_week : ℕ → ℕ → Option ℕ
    pick_week period cursor =
        if period % interval == 0 && leb window_start (clock cursor)
        then some (clock cursor)
        else none

    unfoldable pub past_period : ℕ → Bool
    past_period cursor = ltb window_end (clock (lib.month_start cursor))

    abbrev pub within : Option ℕ → Option ℕ
    within none = none
    within (some day) =
        if leb window_start (clock day) && leb (clock day) window_end
        then some (clock day)
        else none

    unfoldable pub pick_period : Recurrence → ℕ → ℕ → ℕ → Option ℕ
    pick_period r months period cursor =
        if period % interval == 0
        then within (day_in_period (lib.month_start cursor) (lib.month_start (cursor + months)) r)
        else none

    -- Each round comes later, so the end of the window bounds the rounds.
    unfoldable pub weekly_times : ℕ → Option (List ℕ)
    weekly_times first = collect (λ c. c + 7) past_week pick_week (suc (suc window_end)) 0 first 0

    unfoldable pub periodic_times : Recurrence → ℕ → ℕ → Option (List ℕ)
    periodic_times r months first =
        collect (λ c. c + months) past_period (pick_period r months) (suc (suc window_end)) 0 first
          0

  abbrev pub weekly_rule : EventSeries → Location → ℕ → ℕ → ℕ → ℕ → Result (List ℕ)
  weekly_rule s loc hour minute start end = elim (rule_weekday s.recurrence) [
    | err e ↦ err e
    | ok weekday ↦ finished (
        weekly_times loc hour minute (interval_of s.recurrence.interval) start end
          (next_weekday (loc.day_in s.starts_on) weekday))
  ]

  abbrev pub periodic_rule : EventSeries → Location → ℕ → ℕ → ℕ → ℕ → ℕ → Result (List ℕ)
  periodic_rule s loc hour minute start end months = finished (
      periodic_times loc hour minute (interval_of s.recurrence.interval) start end s.recurrence
        months (period_start (loc.day_in s.starts_on) months))

  -- The `switch` on the frequency.
  unfoldable pub times_in : EventSeries → Location → ℕ → ℕ → ℕ → ℕ → Result (List ℕ)
  times_in s loc hour minute start end =
      if str_eq s.recurrence.freq freq_weekly
      then weekly_rule s loc hour minute start end
      else if str_eq s.recurrence.freq freq_monthly
      then periodic_rule s loc hour minute start end 1
      else if str_eq s.recurrence.freq freq_quarterly
      then periodic_rule s loc hour minute start end 3
      else if str_eq s.recurrence.freq freq_yearly
      then periodic_rule s loc hour minute start end 12
      else err (internal "unknown recurrence frequency")

  unfoldable pub occurrence_times : EventSeries → ℕ → ℕ → Result (List ℕ)
  occurrence_times s from through = elim (lib.load_location s.timezone) [
    | none ↦ err (internal "loading timezone")
    | some loc ↦ elim (lib.parse_clock s.start_time) [
      | none ↦ err (internal "parsing start time")
      | some clock ↦
          if ltb (window_end_of s through) (max_time from s.starts_on)
          then ok []
          else times_in s loc clock.0 clock.1 (max_time from s.starts_on) (window_end_of s through)
    ]
  ]
