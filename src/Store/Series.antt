-- ===== src/Store/Series.antt =====
-- The rows of store/models.go that belong to event series and to roles on events. A time is a
-- number, as in Store.Model.
use tinku.Prelude.{ℕ, String, Bool, Option, none, some, str_eq, if◌then◌else◌}
use tinku.Prelude.Int.{ℤ}
use tinku.Store.Model.{Location, Page}

abbrev pub freq_weekly : String
freq_weekly = "weekly"

abbrev pub freq_monthly : String
freq_monthly = "monthly"

abbrev pub freq_quarterly : String
freq_quarterly = "quarterly"

abbrev pub freq_yearly : String
freq_yearly = "yearly"

-- Go's number of a weekday, Sunday being 0.
unfoldable pub time_weekday : String → Option ℕ
time_weekday w =
    if str_eq "sunday" w
    then some 0
    else if str_eq "monday" w
    then some 1
    else if str_eq "tuesday" w
    then some 2
    else if str_eq "wednesday" w
    then some 3
    else if str_eq "thursday" w
    then some 4
    else if str_eq "friday" w
    then some 5
    else if str_eq "saturday" w
    then some 6
    else none

pub record Recurrence : Type 0 where
  pub freq : String
  pub interval : ℤ
  pub weekday : Option String
  pub ordinal : Option ℤ
  pub day_of_month : Option ℤ

pub record EventSeries : Type 0 where
  pub id : String
  pub gathering_id : String
  pub title : String
  pub description : String
  pub is_online : Bool
  pub is_in_person : Bool
  pub online_url : String
  pub location : Location
  pub recurrence : Recurrence
  pub starts_on : ℕ
  pub ends_on : Option ℕ
  pub start_time : String
  pub duration_minutes : ℤ
  pub timezone : String
  pub materialized_through : ℕ
  pub occurrence_count : ℕ
  pub next_occurrence_at : Option ℕ
  pub created_at : ℕ
  pub updated_at : ℕ

pub record EventSeriesInput : Type 0 where
  pub gathering_id : String
  pub title : String
  pub description : String
  pub search_text : String
  pub is_online : Bool
  pub is_in_person : Bool
  pub online_url : String
  pub location : Location
  pub recurrence : Recurrence
  pub starts_on : ℕ
  pub ends_on : Option ℕ
  pub start_time : String
  pub duration_minutes : ℤ
  pub timezone : String
  pub materialized_through : ℕ

pub record RoleScope : Type 0 where
  pub event_id : String
  pub series_id : String

pub record EventRoleAssignment : Type 0 where
  pub event_id : Option String
  pub series_id : Option String
  pub user_id : String
  pub handle : String
  pub linkkeys_domain : String
  pub display_name : String
  pub role : String
  pub assigned_at : ℕ

-- `store.EventFilter`, the fields that expanding a series sets; the others keep their zero values.
pub record EventFilter : Type 0 where
  pub gathering_id : String
  pub series_id : String
  pub now : ℕ
  pub include_started : Bool
  pub page : Page
