-- ===== src/Services/Recurrence/Rules.antt =====
-- `occurrenceTimes` as a whole, for a series whose rule validation has accepted.
use tinku.Prelude.{
  ℕ, ◌<◌, ◌≡◌, refl, true, false, some, List, [], ltb, arith, Bool-cases, Option-cases, inl, inr,
  str_eq,
}
use tinku.Prelude.Result.{Result, ok}
use tinku.Store.Series.{
  Recurrence, EventSeries, time_weekday, freq_weekly, freq_monthly, freq_quarterly, freq_yearly,
}
use tinku.Services.Validate.{validate_recurrence}
use tinku.Services.Recurrence.{
  Location, TimeLib, occurrence_times, times_in, weekly_rule, periodic_rule, interval_of,
  rule_weekday, next_weekday, period_start, window_end_of, max_time,
}
use tinku.Services.Recurrence.Days.{IsCalendar}
use tinku.Services.Recurrence.Times.{
  Advances, IsExpansion, weekly_ends, periodic_ends, weekly_times-IsExpansion,
  periodic_times-IsExpansion,
}

-- A validated series in a known time zone that skips no day, under a calendar as Go documents it.
pub record IsReady (lib : TimeLib) (s : EventSeries) (loc : Location) (hour minute : ℕ)
    : Type 0 where
  pub zone : lib.load_location s.timezone ≡ some loc
  pub clock : lib.parse_clock s.start_time ≡ some (hour, minute)
  pub calendar : IsCalendar lib
  pub days : Advances loc hour minute
  pub rule : validate_recurrence s.recurrence ≡ ok tt

pub rule_has_weekday :
    (r : Recurrence)
    → validate_recurrence r ≡ ok tt
    → str_eq r.freq freq_weekly ≡ true
    → (w : ℕ) × (rule_weekday r ≡ ok w)
unfolding rule_weekday validate_recurrence
rule_has_weekday r v e = elim (Option-cases r.weekday) [
  | inl n ↦ absurd (ground (arith, v, n))
  | inr (name, n) ↦ elim (Option-cases (time_weekday name)) [
    | inl q ↦ absurd (ground (arith, v, n, q))
    | inr (w, q) ↦ (w, rw (n, q, rule_weekday) refl)
  ]
]

pub rule_has_freq :
    (r : Recurrence)
    → validate_recurrence r ≡ ok tt
    → str_eq r.freq freq_weekly ≡ false
    → str_eq r.freq freq_monthly ≡ false
    → str_eq r.freq freq_quarterly ≡ false
    → str_eq r.freq freq_yearly ≡ true
unfolding validate_recurrence
rule_has_freq r v e m q = ground (arith, v)

-- What a window gives.
abbrev Gives : ℕ → ℕ → Result (List ℕ) → Type 0
Gives start end r = (ts : List ℕ) × (r ≡ ok ts) × IsExpansion start end ts

module _ (lib : TimeLib) (s : EventSeries) (loc : Location) (hour minute : ℕ)
    (ready : IsReady lib s loc hour minute) where
  weekly-Gives :
      (start end w : ℕ)
      → rule_weekday s.recurrence ≡ ok w
      → Gives start end (weekly_rule lib s loc hour minute start end)
  weekly-Gives start end w h =
      let first : ℕ = next_weekday lib (loc.day_in s.starts_on) w in
      let every : ℕ = interval_of s.recurrence.interval in
      let found = weekly_ends lib loc hour minute every start end ready.days first in
      (
        found.0,
        rw (h, found.1, weekly_rule) refl,
        weekly_times-IsExpansion lib loc hour minute every start end ready.days first found.1,
      )

  periodic-Gives :
      (start end months : ℕ)
      → 0 < months
      → Gives start end (periodic_rule lib s loc hour minute start end months)
  periodic-Gives start end months more =
      let first : ℕ = period_start lib (loc.day_in s.starts_on) months in
      let every : ℕ = interval_of s.recurrence.interval in
      let found =
        periodic_ends lib loc hour minute every start end ready.days s.recurrence months first
          (λ m. omega (arith, ready.calendar.month_long m)) more in
      (
        found.0,
        rw found.1 refl,
        periodic_times-IsExpansion lib loc hour minute every start end ready.days ready.calendar
            s.recurrence months first more ready.rule found.1,
      )

  times_in-Gives : (start end : ℕ) → Gives start end (times_in lib s loc hour minute start end)
  unfolding times_in
  times_in-Gives start end = elim (Bool-cases (str_eq s.recurrence.freq freq_weekly)) [
    | inl e ↦
        let w = rule_has_weekday s.recurrence ready.rule e in rw e (weekly-Gives start end w.0 w.1)
    | inr e ↦ rw e (elim (Bool-cases (str_eq s.recurrence.freq freq_monthly)) [
      | inl m ↦ rw m (periodic-Gives start end 1 (omega arith))
      | inr m ↦ rw m (elim (Bool-cases (str_eq s.recurrence.freq freq_quarterly)) [
        | inl q ↦ rw q (periodic-Gives start end 3 (omega arith))
        | inr q ↦
            rw (q, rule_has_freq s.recurrence ready.rule e m q)
              (periodic-Gives start end 12 (omega arith))
      ])
    ])
  ]

  -- A validated series has occurrences up to any instant: the expansion ends with a result and no
  -- error, and its instants lie in order between both starts and both ends, and are at most 500.
  pub occurrence_times_lem :
      (from through : ℕ)
      → (ts : List ℕ) × (occurrence_times lib s from through ≡ ok ts)
        × IsExpansion (max_time from s.starts_on) (window_end_of s through) ts
  unfolding occurrence_times
  occurrence_times_lem from through =
      elim (Bool-cases (ltb (window_end_of s through) (max_time from s.starts_on))) [
        | inl e ↦
            ([], rw (ready.zone, ready.clock, e, occurrence_times) refl, (tt, tt, omega arith))
        | inr e ↦
            rw (ready.zone, ready.clock, e, occurrence_times)
              (times_in-Gives (max_time from s.starts_on) (window_end_of s through))
      ]
