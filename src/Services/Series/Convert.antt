-- ===== src/Services/Series/Convert.antt =====
-- The series part of csilservices/convert.go and of notify.go: what is sent about a series, and
-- what a request says of its rule.
use tinku.Prelude.{
  ℕ, zero, suc, ◌-◌, ◌^◌, String, Bool, false, Option, none, some, str_eq, ltb, if◌then◌else◌,
  or_else,
}
use tinku.Prelude.Int.{ℤ, pos, negsuc}
use tinku.Store.Model.{Location}
use tinku.Store.Series.{Recurrence, EventSeries}
use tinku.Webhooks.Change.{Details}
use tinku.Services.Convert.{Origin, to_location, location_details}
use tinku.Services.Perms.{ViewerContext}

-- `csil.RecurrenceRule`
pub record RecurrenceRule : Type 0 where
  pub freq : String
  pub interval : ℕ
  pub weekday : Option String
  pub ordinal : Option ℤ
  pub day_of_month : Option ℕ

pub record WireSeries : Type 0 where
  pub id : String
  pub gathering_id : String
  pub title : String
  pub description : String
  pub is_online : Bool
  pub is_in_person : Bool
  pub online_url : Option String
  pub location : Option Location
  pub recurrence : RecurrenceRule
  pub starts_on : ℕ
  pub ends_on : Option ℕ
  pub start_time : String
  pub duration_minutes : ℕ
  pub timezone : String
  pub occurrence_count : ℕ
  pub next_occurrence_at : Option ℕ
  pub origin : Origin
  pub viewer : ViewerContext
  pub created_at : ℕ
  pub updated_at : ℕ

-- int64(x) of a uint64, and uint64(x) of an int64.
abbrev pub to_int64 : ℕ → ℤ
to_int64 n = if ltb n (2 ^ 63) then pos n else negsuc (2 ^ 64 - 1 - n)

abbrev pub to_uint64 : ℤ → ℕ
to_uint64 (pos n) = n
to_uint64 (negsuc n) = 2 ^ 64 - 1 - n

abbrev map_option : {A B : Type 0} → (A → B) → Option A → Option B
map_option f none = none
map_option f (some a) = some (f a)

unfoldable pub to_recurrence : Recurrence → RecurrenceRule
to_recurrence r = record {
  freq = r.freq;
  interval = to_uint64 r.interval;
  weekday = r.weekday;
  ordinal = r.ordinal;
  day_of_month = map_option to_uint64 r.day_of_month;
}

abbrev at_least_one : ℤ → ℤ
at_least_one (pos zero) = pos 1
at_least_one (pos (suc n)) = pos (suc n)
at_least_one (negsuc n) = pos 1

unfoldable pub from_recurrence : RecurrenceRule → Recurrence
from_recurrence r = record {
  freq = r.freq;
  interval = at_least_one (to_int64 r.interval);
  weekday = r.weekday;
  ordinal = r.ordinal;
  day_of_month = map_option to_int64 r.day_of_month;
}

unfoldable pub to_event_series : EventSeries → ViewerContext → String → WireSeries
unfolding to_recurrence to_location
to_event_series s viewer instance_domain = record {
  id = s.id;
  gathering_id = s.gathering_id;
  title = s.title;
  description = s.description;
  is_online = s.is_online;
  is_in_person = s.is_in_person;
  online_url = if str_eq s.online_url "" then none else some s.online_url;
  location = to_location s.location;
  recurrence = to_recurrence s.recurrence;
  starts_on = s.starts_on;
  ends_on = s.ends_on;
  start_time = s.start_time;
  duration_minutes = to_uint64 s.duration_minutes;
  timezone = s.timezone;
  occurrence_count = s.occurrence_count;
  next_occurrence_at = s.next_occurrence_at;
  origin = record { domain = instance_domain; is_external = false; peer_address = none };
  viewer = viewer;
  created_at = s.created_at;
  updated_at = s.updated_at;
}

unfoldable pub series_details : EventSeries → Details
unfolding location_details
series_details s = record {
  description = s.description;
  blurb = "";
  starts_at = none;
  ends_at = none;
  timezone = s.timezone;
  is_online = s.is_online;
  is_in_person = s.is_in_person;
  online_url = s.online_url;
  location = location_details s.location;
  recurrence = some (record {
    freq = s.recurrence.freq;
    interval = s.recurrence.interval;
    ordinal = s.recurrence.ordinal;
    weekday = or_else s.recurrence.weekday "";
    day_of_month = s.recurrence.day_of_month;
    start_time = s.start_time;
    timezone = s.timezone;
  });
}
