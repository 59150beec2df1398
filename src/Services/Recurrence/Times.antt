-- ===== src/Services/Recurrence/Times.antt =====
-- What `occurrenceTimes` gives: an answer for every rule that validation accepts, instants of the
-- window in order, the same ones whenever they are asked for.
use tinku.Prelude.{
  ℕ, zero, suc, ◌+◌, ◌%◌, ◌≤◌, ◌<◌, ◌≡◌, refl, Option, none, some, List, [], ◌∷◌, length, All, ◌==◌,
  arith, Bool-cases, inl, inr,
}
use tinku.Services.Validate.{validate_recurrence}
use tinku.Services.Recurrence.Days.{IsCalendar}
use tinku.Prelude.Result.{ok}
use tinku.Services.Recurrence.Periods.{strict_mono, day_in_period_bounds}
use tinku.Store.Series.{Recurrence}
use tinku.Services.Recurrence.{
  day_in_period, Location, TimeLib, at_clock, past_week, pick_week, past_period, pick_period,
  weekly_times, within, periodic_times, max_occurrences_per_expansion,
}
use tinku.Services.Recurrence.Loop.{
  iterate, collect_ends, collect-Run, Run-All, Run-length, Run-IsAscendingFrom, IsAscendingFrom,
}

-- The same wall-clock time is later on the next day: no day of the location is skipped.
abbrev pub Advances : Location → ℕ → ℕ → Type 0
Advances loc hour minute = (d : ℕ) → loc.instant d hour minute < loc.instant (suc d) hour minute

abbrev pub MonthsAdvance : TimeLib → Type 0
MonthsAdvance lib = (m : ℕ) → lib.month_start m < lib.month_start (suc m)

iterate_grows :
    (g next : ℕ → ℕ) → ((c : ℕ) → g c < g (next c)) → (k c : ℕ) → k + g c ≤ g (iterate next k c)
iterate_grows g next h zero c = omega arith
iterate_grows g next h (suc k) c = omega (arith, iterate_grows g next h k (next c), h c)

-- In the window, in order, and no more than the bound on rows.
abbrev pub InWindow : ℕ → ℕ → ℕ → Type 0
InWindow start end t = (start ≤ t) × (t ≤ end)

abbrev pub IsExpansion : ℕ → ℕ → List ℕ → Type 0
IsExpansion start end ts =
    All (InWindow start end) ts
    × IsAscendingFrom start ts
    × (length ts ≤ max_occurrences_per_expansion)

module _ (lib : TimeLib) (loc : Location) (hour minute interval start end : ℕ)
    (days : Advances loc hour minute) where
  abbrev clock : ℕ → ℕ
  clock = at_clock loc hour minute

  pub week_later : (c : ℕ) → clock c < clock (c + 7)
  week_later c = strict_mono clock days c (c + 7) (omega arith)

  pub weekly_ends :
      (first : ℕ)
      → (ts : List ℕ) × (weekly_times lib loc hour minute interval start end first ≡ some ts)
  unfolding weekly_times past_week
  weekly_ends first =
      let h = iterate_grows clock (λ c. c + 7) week_later (suc end) first in
      collect_ends (λ c. c + 7) (past_week lib loc hour minute interval start end)
        (pick_week lib loc hour minute interval start end) (suc end) (suc (suc end)) 0 first 0
        (ground (arith, h)) (omega arith)

  month_later :
      MonthsAdvance lib
      → (months : ℕ) → 0 < months
      → (c : ℕ) → clock (lib.month_start c) < clock (lib.month_start (c + months))
  month_later adv months more c =
      strict_mono clock days (lib.month_start c) (lib.month_start (c + months))
        (strict_mono lib.month_start adv c (c + months) (omega arith))

  pub periodic_ends :
      (r : Recurrence) (months first : ℕ)
      → MonthsAdvance lib
      → 0 < months
      → (ts : List ℕ) × (periodic_times lib loc hour minute interval start end r months first
          ≡ some ts)
  unfolding periodic_times past_period
  periodic_ends r months first adv more =
      let h =
        iterate_grows (λ c. clock (lib.month_start c)) (λ c. c + months)
          (month_later adv months more) (suc end) first in
      collect_ends (λ c. c + months) (past_period lib loc hour minute interval start end)
        (pick_period lib loc hour minute interval start end r months) (suc end) (suc (suc end)) 0
        first 0 (ground (arith, h)) (omega arith)

  from_start :
      (lo : ℕ) (ts : List ℕ)
      → All (InWindow start end) ts
      → IsAscendingFrom lo ts
      → IsAscendingFrom start ts
  from_start lo [] a b = tt
  from_start lo (t ∷ ts) a b = (a.0.0, b.1)

  pub weekly_times-IsExpansion :
      (first : ℕ) {ts : List ℕ}
      → weekly_times lib loc hour minute interval start end first ≡ some ts
      → IsExpansion start end ts
  unfolding weekly_times past_week pick_week
  weekly_times-IsExpansion first {ts = ts} h =
      let run = collect-Run (suc (suc end)) 0 first 0 h in
      let inside : All (InWindow start end) ts = Run-All (λ p c t q e. ground arith) run in
      (
        inside,
        from_start (clock first) ts inside (
            Run-IsAscendingFrom clock (λ p c t q. ground (arith, week_later c))
              (λ c. omega (arith, week_later c)) run),
        omega (arith, Run-length run (omega arith)),
      )

  within_lem :
      (o : Option ℕ) (t : ℕ)
      → within lib loc hour minute interval start end o ≡ some t
      → (d : ℕ) × (o ≡ some d) × (clock d ≡ t) × InWindow start end t
  within_lem none t h = cc
  within_lem (some d) t h = (d, refl, ground arith, ground arith)

  clock_mono : (a b : ℕ) → a ≤ b → clock a ≤ clock b
  clock_mono a b h = elim (Bool-cases (a == b)) [
    | inl e ↦ ground (arith, e)
    | inr e ↦ omega (arith, strict_mono clock days a b (ground (arith, e)))
  ]

  pick_period_lem :
      IsCalendar lib
      → (r : Recurrence) (months p c t : ℕ) → 0 < months
      → validate_recurrence r ≡ ok tt
      → pick_period lib loc hour minute interval start end r months p c ≡ some t
      → InWindow start end t
        × ((clock (lib.month_start c) ≤ t) × (t < clock (lib.month_start (c + months))))
  unfolding pick_period
  pick_period_lem cal r months p c t more v h = elim (Bool-cases (p % interval == 0)) [
    | inl y ↦
        let found =
          within_lem (day_in_period lib (lib.month_start c) (lib.month_start (c + months)) r) t
            (rw y at h) in
        let day = day_in_period_bounds lib cal r c months found.0 more v found.1 in
        (
          found.3,
          (
            omega (arith, found.2, clock_mono (lib.month_start c) found.0 day.0),
            omega (
              arith,
              found.2,
              strict_mono clock days found.0 (lib.month_start (c + months)) day.1,
            ),
          ),
        )
    | inr y ↦ cc (rw y at h)
  ]

  pub periodic_times-IsExpansion :
      IsCalendar lib
      → (r : Recurrence) (months first : ℕ) {ts : List ℕ} → 0 < months
      → validate_recurrence r ≡ ok tt
      → periodic_times lib loc hour minute interval start end r months first ≡ some ts
      → IsExpansion start end ts
  unfolding periodic_times
  periodic_times-IsExpansion cal r months first {ts = ts} more v h =
      let run = collect-Run (suc (suc end)) 0 first 0 h in
      let inside : All (InWindow start end) ts =
        Run-All (λ p c t q e. (pick_period_lem cal r months p c t more v q).0) run in
      let adv = month_later (λ m. omega (arith, cal.month_long m)) months more in
      (
        inside,
        from_start (clock (lib.month_start first)) ts inside (
            Run-IsAscendingFrom (λ c. clock (lib.month_start c))
              (λ p c t q. (pick_period_lem cal r months p c t more v q).1)
              (λ c. omega (arith, adv c)) run),
        omega (arith, Run-length run (omega arith)),
      )
