-- ===== src/Examples/Recurrence.antt =====
-- Recurring events under a plain calendar: months of 31 days, weeks that begin with day 0, and a
-- zone without daylight saving, in seconds.
use tinku.Prelude.{
  if◌then◌else◌, ℕ, ◌+◌, ◌*◌, ◌%◌, ◌/◌, ◌≡◌, ◌↔◌, refl, List, [], ◌∷◌, none, some, filter, leb,
  str_eq, arith,
}
use tinku.Prelude.Int.{pos, negsuc}
use tinku.Prelude.Result.{ok}
use tinku.Store.Series.{time_weekday}
use tinku.Services.Validate.{validate_recurrence}
use tinku.Services.Recurrence.{
  Location, TimeLib, occurrence_times, weekly_times, day_in_period, times_in, rule_weekday,
  next_weekday, collect, past_week, pick_week,
}
use tinku.Services.Recurrence.Days.{IsCalendar, IsNth, IsLast, by_ordinal, day_in_period_lem}
use tinku.Services.Recurrence.Times.{IsExpansion, Advances}
use tinku.Services.Recurrence.Rules.{IsReady, occurrence_times_lem}
use tinku.Services.Recurrence.Stable.{occurrence_times_later}
use tinku.Examples.World.{weekly}

abbrev pub zone : Location
zone = record {
  day_in = λ t. t / 86400;
  instant = λ day hour minute. day * 86400 + hour * 3600 + minute * 60;
}

abbrev pub plain : TimeLib
plain = record {
  load_location = λ name. if str_eq name "UTC" then some zone else none;
  parse_clock = λ s. some (19, 0);
  weekday = λ d. d % 7;
  month_of = λ d. d / 31;
  month_start = λ m. m * 31;
}

pub plain-IsCalendar : IsCalendar plain
plain-IsCalendar = record {
  weekday_bound = λ d. omega arith;
  weekday_turn = λ d. omega arith;
  month_long = λ m. omega arith;
  month_of_day = λ m d h k. omega arith;
}

pub zone-Advances : Advances zone 19 0
zone-Advances d = omega arith

pub weekly-IsReady : IsReady plain weekly zone 19 0
unfolding validate_recurrence time_weekday
weekly-IsReady = record {
  zone = refl;
  clock = refl;
  calendar = plain-IsCalendar;
  days = zone-Advances;
  rule = refl;
}

occurrence_times_lem_example :
    (ts : List ℕ) × (occurrence_times plain weekly 100 1000000 ≡ ok ts) × IsExpansion 100 1000000 ts
occurrence_times_lem_example =
    occurrence_times_lem plain weekly zone 19 0 weekly-IsReady 100 1000000

first_thursday : occurrence_times plain weekly 100 1000000 ≡ ok (414000 ∷ [])
unfolding occurrence_times times_in rule_weekday time_weekday next_weekday weekly_times collect
    past_week pick_week
first_thursday = refl

occurrence_times_later_example :
    occurrence_times plain weekly 500000 1000000 ≡ ok (filter (leb 500000) (414000 ∷ []))
occurrence_times_later_example =
    occurrence_times_later plain weekly zone 19 0 weekly-IsReady 100 500000 1000000 (414000 ∷ [])
      (omega arith) first_thursday (omega arith)

-- The second and the last Thursday of the first month.
day_in_period_lem_example :
    (day_in_period plain 0 31 (by_ordinal weekly.recurrence (pos 2)) ≡ some 11
      ↔ IsNth plain 0 31 4 2 11)
    × (day_in_period plain 0 31 (by_ordinal weekly.recurrence (negsuc 0)) ≡ some 11
        ↔ IsLast plain 0 31 4 11)
unfolding time_weekday
day_in_period_lem_example =
    day_in_period_lem plain plain-IsCalendar 0 31 weekly.recurrence "thursday" 4 2 11 refl refl
      (omega arith) (omega arith) (omega arith)
