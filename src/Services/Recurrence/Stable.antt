-- ===== src/Services/Recurrence/Stable.antt =====
-- Asking again from a later instant, as the rolling horizon does, gives the later part of the same
-- occurrences.
use tinku.Prelude.{
  ℕ, ◌≤◌, ◌<◌, ◌≡◌, refl, sym, ap, ◌∙◌, false, Option, none, some, List, [], ◌∷◌, ◌+◌, length,
  filter, leb, ltb, ◌==◌, arith, Bool-cases, inl, inr, str_eq, All, ◌%◌, suc,
}
use tinku.Prelude.Result.{ok}
use tinku.Store.Series.{Recurrence, EventSeries, freq_weekly, freq_monthly, freq_quarterly}
use tinku.Services.Recurrence.{
  Location, TimeLib, occurrence_times, times_in, weekly_rule, periodic_rule, interval_of, finished,
  weekly_times, periodic_times, rule_weekday, next_weekday, period_start, window_end_of, max_time,
  pick_week, pick_period, past_week, past_period, day_in_period, within,
  max_occurrences_per_expansion,
}
use tinku.Services.Recurrence.Loop.{collect-Run, Run-unique, Run-filter, only_if}
use tinku.Services.Recurrence.Times.{Advances, MonthsAdvance, weekly_ends, periodic_ends, InWindow}
use tinku.Services.Recurrence.Rules.{IsReady, rule_has_weekday, rule_has_freq, occurrence_times_lem}

module _ (lib : TimeLib) (loc : Location) (hour minute interval start later end : ℕ)
    (days : Advances loc hour minute) (le : start ≤ later) where
  narrower_week :
      (p c : ℕ)
      → pick_week lib loc hour minute interval later end p c
        ≡ only_if (leb later) (pick_week lib loc hour minute interval start end p c)
  unfolding pick_week
  narrower_week p c = ground arith

  narrower_within :
      (o : Option ℕ)
      → within lib loc hour minute interval later end o
        ≡ only_if (leb later) (within lib loc hour minute interval start end o)
  narrower_within none = refl
  narrower_within (some d) = ground arith

  narrower_period :
      (r : Recurrence) (months p c : ℕ)
      → pick_period lib loc hour minute interval later end r months p c
        ≡ only_if (leb later) (pick_period lib loc hour minute interval start end r months p c)
  unfolding pick_period
  narrower_period r months p c = elim (Bool-cases (p % interval == 0)) [
    | inl y ↦
        rw y
          (narrower_within (day_in_period lib (lib.month_start c) (lib.month_start (c + months)) r))
    | inr y ↦ rw y refl
  ]

  weekly_later :
      (first : ℕ) (ts : List ℕ)
      → weekly_times lib loc hour minute interval start end first ≡ some ts
      → length ts < max_occurrences_per_expansion
      → weekly_times lib loc hour minute interval later end first ≡ some (filter (leb later) ts)
  unfolding weekly_times past_week
  weekly_later first ts h l =
      let found = weekly_ends lib loc hour minute interval later end days first in
      let run = collect-Run (suc (suc end)) 0 first 0 h in
      found.1
      ∙ ap some (
          Run-unique (collect-Run (suc (suc end)) 0 first 0 found.1)
            (Run-filter (leb later) narrower_week 0 run (omega arith) (omega arith)))

  periodic_later :
      MonthsAdvance lib
      → (r : Recurrence) (months first : ℕ) (ts : List ℕ) → 0 < months
      → periodic_times lib loc hour minute interval start end r months first ≡ some ts
      → length ts < max_occurrences_per_expansion
      → periodic_times lib loc hour minute interval later end r months first
        ≡ some (filter (leb later) ts)
  unfolding periodic_times past_period
  periodic_later adv r months first ts more h l =
      let found =
        periodic_ends lib loc hour minute interval later end days r months first adv more in
      let run = collect-Run (suc (suc end)) 0 first 0 h in
      found.1
      ∙ ap some (
          Run-unique (collect-Run (suc (suc end)) 0 first 0 found.1)
            (Run-filter (leb later) (narrower_period r months) 0 run (omega arith) (omega arith)))

not_past : (start later end : ℕ) → start ≤ later → ltb end later ≡ false → ltb end start ≡ false
not_past start later end h e = ground arith

finished_inv : {o : Option (List ℕ)} {ts : List ℕ} → finished o ≡ ok ts → o ≡ some ts
finished_inv {o = none} h = cc
finished_inv {o = some us} h = cc

filter-none :
    (start later end : ℕ) (ts : List ℕ)
    → end < later
    → All (InWindow start end) ts
    → filter (leb later) ts ≡ []
unfolding filter
filter-none start later end [] l h = refl
filter-none start later end (t ∷ ts) l h = ground (arith, filter-none start later end ts l h.1)

ok_same : {A : Type 0} {a b : A} → ok a ≡ ok b → a ≡ b
ok_same h = cc

module _ (lib : TimeLib) (s : EventSeries) (loc : Location) (hour minute : ℕ)
    (ready : IsReady lib s loc hour minute) where
  weekly_rule_later :
      (start later end w : ℕ) (ts : List ℕ)
      → start ≤ later
      → rule_weekday s.recurrence ≡ ok w
      → weekly_rule lib s loc hour minute start end ≡ ok ts
      → length ts < max_occurrences_per_expansion
      → weekly_rule lib s loc hour minute later end ≡ ok (filter (leb later) ts)
  weekly_rule_later start later end w ts le h k l =
      rw (h, weekly_rule)
        (ap finished (
          weekly_later lib loc hour minute (interval_of s.recurrence.interval) start later end
            ready.days le (next_weekday lib (loc.day_in s.starts_on) w) ts
            (finished_inv (rw (h, weekly_rule) at k)) l))

  periodic_rule_later :
      (start later end months : ℕ) (ts : List ℕ)
      → start ≤ later
      → 0 < months
      → periodic_rule lib s loc hour minute start end months ≡ ok ts
      → length ts < max_occurrences_per_expansion
      → periodic_rule lib s loc hour minute later end months ≡ ok (filter (leb later) ts)
  periodic_rule_later start later end months ts le more k l = ap finished (
      periodic_later lib loc hour minute (interval_of s.recurrence.interval) start later end
        ready.days le (λ m. omega (arith, ready.calendar.month_long m)) s.recurrence months
        (period_start lib (loc.day_in s.starts_on) months) ts more (finished_inv k) l)

  times_in_later :
      (start later end : ℕ) (ts : List ℕ)
      → start ≤ later
      → times_in lib s loc hour minute start end ≡ ok ts
      → length ts < max_occurrences_per_expansion
      → times_in lib s loc hour minute later end ≡ ok (filter (leb later) ts)
  unfolding times_in
  times_in_later start later end ts le k l =
      elim (Bool-cases (str_eq s.recurrence.freq freq_weekly)) [
        | inl e ↦
            let w = rule_has_weekday s.recurrence ready.rule e in
            rw e (weekly_rule_later start later end w.0 ts le w.1 (rw e at k) l)
        | inr e ↦ rw e (elim (Bool-cases (str_eq s.recurrence.freq freq_monthly)) [
          | inl m ↦
              rw m (periodic_rule_later start later end 1 ts le (omega arith) (rw (e, m) at k) l)
          | inr m ↦ rw m (elim (Bool-cases (str_eq s.recurrence.freq freq_quarterly)) [
            | inl q ↦
                rw q
                  (periodic_rule_later start later end 3 ts le (omega arith) (rw (e, m, q) at k) l)
            | inr q ↦
                let y = rule_has_freq s.recurrence ready.rule e m q in
                rw (q, y)
                  (periodic_rule_later start later end 12 ts le (omega arith) (rw (e, m, q, y) at k)
                    l)
          ])
        ])
      ]

  -- Below the bound on rows, asking from a later instant gives those occurrences of the earlier
  -- answer that are not before it, or not before the start of the series: which periods a rule
  -- selects does not depend on how far the horizon had been rolled.
  pub occurrence_times_later :
      (from later through : ℕ) (ts : List ℕ)
      → from ≤ later
      → occurrence_times lib s from through ≡ ok ts
      → length ts < max_occurrences_per_expansion
      → occurrence_times lib s later through ≡ ok (filter (leb (max_time later s.starts_on)) ts)
  unfolding occurrence_times
  occurrence_times_later from later through ts le h l =
      let start : ℕ = max_time from s.starts_on in
      let start' : ℕ = max_time later s.starts_on in
      let end : ℕ = window_end_of s through in
      let ordered : start ≤ start' = ground arith in
      let given = occurrence_times_lem lib s loc hour minute ready from through in
      let same : given.0 ≡ ts = ok_same (sym given.1 ∙ h) in
      let inside : All (InWindow start end) ts = (rw same at given.2.0) in
      elim (Bool-cases (ltb end start')) [
        | inl e ↦
            rw (ready.zone, ready.clock, e, occurrence_times)
              (ap ok (sym (filter-none start start' end ts (ground (arith, e)) inside)))
        | inr e ↦
            rw (ready.zone, ready.clock, e, occurrence_times)
              (times_in_later start start' end ts ordered
                (rw (ready.zone, ready.clock, not_past start start' end ordered e, occurrence_times)
                  at h)
                l)
      ]
