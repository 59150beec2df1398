-- ===== src/Examples/Series.antt =====
-- The series service and the tables behind it.
use tinku.Prelude.{
  ℕ, suc, ◌≤◌, ◌<◌, ◌≡◌, ◌⊎◌, refl, true, false, List, [], ◌∷◌, none, some, count, str_eq, arith,
  ◌||◌,
}
use tinku.Prelude.Result.{ok}
use tinku.Webhooks.Change.{action_deleted}
use tinku.Services.Events.Lock.{Refused}
use tinku.Services.Recurrence.{occurrence_times}
use tinku.Services.Recurrence.Times.{IsExpansion}
use tinku.Services.Series.{
  CreateEventSeriesRequest, UpdateEventSeriesRequest, ensure_horizon, capped, delete_event_series,
  create_event_series, update_event_series, notify_series,
}
use tinku.Services.Series.Roles.{SetEventRoleRequest, set_event_role, remove_event_role}
use tinku.Services.Series.Horizon.{ensure_horizon_lem}
use tinku.Services.Series.Authority.{
  SeriesStanding, delete_event_series_by_rule, series_only_by, Owns, OwnsScope, Directs,
}
use tinku.Store.Sqlite.Series.{
  EventRow, NewOccurrence, upsert_occurrences, delete_occurrences_from, is_valid,
}
use tinku.Store.Sqlite.Series.Occurrences.{HasUniqueInstants, instants_stay_unique}
use tinku.Store.Sqlite.Series.Held.{
  Held, RoleOp, give, take, run, last_word, holds, run-last_word, HaveScopes,
}
use tinku.Examples.World.{events, ann, bob, weekly}
use tinku.Examples.Recurrence.{plain, zone, weekly-IsReady}

ensure_horizon_lem_example :
    (capped events plain 1000000 ≤ 100)
      × (ensure_horizon events plain weekly 1000000 7 ≡ (ok tt, 7))
    ⊎ (100 < capped events plain 1000000)
      × ((ts : List ℕ) × (occurrence_times plain weekly 100 1000000 ≡ ok ts)
          × IsExpansion 100 1000000 ts
          × (ensure_horizon events plain weekly 1000000 7 ≡ (ok tt, 9)))
ensure_horizon_lem_example =
    ensure_horizon_lem events plain weekly zone 19 0 weekly-IsReady 1000000 7 (λ ts. 0) (λ ts. 8)
      (λ t. suc t) (λ ts. refl) (λ t. refl)

abbrev ann_at_weekly : SeriesStanding events ann 7 "weekly"
ann_at_weekly = record {
  series = weekly;
  access = record { is_member = true; is_owner = true };
  organizer = false;
  presenter = false;
  loaded = refl;
  accessed = refl;
  roles = refl;
}

delete_event_series_by_rule_example :
    (str_eq ann.id "" ≡ false)
      × ((true || false || ann.is_admin) ≡ true)
      × (delete_event_series events plain ann "weekly" 7
          ≡ (ok tt, notify_series events plain action_deleted weekly 9))
    ⊎ ((str_eq ann.id "" ≡ true) ⊎ ((true || false || ann.is_admin) ≡ false))
      × Refused (delete_event_series events plain ann "weekly" 7) 7
delete_event_series_by_rule_example =
    delete_event_series_by_rule events plain ann 7 "weekly" ann_at_weekly 8 9 refl refl

abbrev bob_at_weekly : SeriesStanding events bob 7 "weekly"
bob_at_weekly = record {
  series = weekly;
  access = record { is_member = true; is_owner = false };
  organizer = false;
  presenter = false;
  loaded = refl;
  accessed = refl;
  roles = refl;
}

abbrev change : UpdateEventSeriesRequest
change = record {
  id = "weekly";
  title = some "Go";
  description = none;
  is_online = none;
  is_in_person = none;
  online_url = none;
  location = none;
  recurrence = none;
  starts_on = none;
  ends_on = none;
  start_time = none;
  duration_minutes = none;
  timezone = none;
}

abbrev schedule : CreateEventSeriesRequest
schedule = record {
  gathering_id = "games";
  title = "Go";
  description = "";
  is_online = true;
  is_in_person = false;
  online_url = none;
  location = none;
  recurrence = record {
    freq = "weekly";
    interval = 1;
    weekday = some "monday";
    ordinal = none;
    day_of_month = none;
  };
  starts_on = 100;
  ends_on = none;
  start_time = "19:00";
  duration_minutes = 60;
  timezone = "UTC";
}

abbrev appoint : SetEventRoleRequest
appoint = record {
  scope = record { event_id = none; series_id = some "weekly" };
  user_id = "bob";
  role = "organizer";
}

series_only_by_example :
    (Owns events plain bob 7 schedule.gathering_id
      ⊎ Refused (create_event_series events plain bob schedule 7) 7)
    × (Directs events plain bob 7 change.id
        ⊎ Refused (update_event_series events plain bob change 7) 7)
    × (OwnsScope events plain bob 7 appoint.scope
        ⊎ Refused (set_event_role events plain bob appoint 7) 7)
    × (OwnsScope events plain bob 7 appoint.scope
        ⊎ Refused (remove_event_role events plain bob appoint 7) 7)
series_only_by_example = series_only_by events plain bob 7 schedule change appoint

abbrev rows : List EventRow
rows =
    record { id = "a"; series_id = some "weekly"; starts_at = 10; fields = "" }
    ∷ record { id = "b"; series_id = some "weekly"; starts_at = 20; fields = "" }
    ∷ []

abbrev more : List NewOccurrence
more =
    record { id = "c"; starts_at = 20; fields = "" }
    ∷ record { id = "d"; starts_at = 30; fields = "" }
    ∷ []

rows_unique : HasUniqueInstants rows
unfolding count
rows_unique sid t = ground arith

instants_stay_unique_example :
    HasUniqueInstants (upsert_occurrences "weekly" more rows)
    × HasUniqueInstants (delete_occurrences_from "weekly" 15 rows)
instants_stay_unique_example = instants_stay_unique "weekly" more 15 rows rows_unique

abbrev organizes : Held
organizes = record {
  scope = record { event_id = ""; series_id = "weekly" };
  user = "bob";
  role = "organizer";
}

abbrev ops : List RoleOp
ops = give "r" organizes ∷ take organizes ∷ give "s" organizes ∷ []

ops-HaveScopes : HaveScopes ops
unfolding is_valid
ops-HaveScopes = ground arith

scope_valid : is_valid organizes.scope ≡ true
unfolding is_valid
scope_valid = refl

run-last_word_example : holds (run ops []) organizes ≡ last_word organizes ops (holds [] organizes)
run-last_word_example = run-last_word ops organizes [] ops-HaveScopes scope_valid tt
