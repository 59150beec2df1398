-- ===== src/Services/Series.antt =====
-- csilservices/series.go: the series half of `EventService`. Go's time package is the parameter of
-- Services.Recurrence.
pub mod Convert
pub mod Roles
pub mod Horizon
pub mod Authority
use tinku.Prelude.{
  ℕ, zero, suc, ◌+◌, ◌*◌, ◌-◌, ◌%◌, ◌^◌, String, Bool, true, false, List, [], ◌∷◌, ◌++◌, Option,
  none, some, not, ◌&&◌, str_eq, ltb, leb, length, if◌then◌else◌, or_else, is_some, map,
}
use tinku.Prelude.Int.{ℤ, pos, negsuc}
use tinku.Prelude.Result.{Error, Result, ok, err}
use tinku.Prelude.Exec.{Exec, pure, raise, query, lift, guard, ◌>>=◌, ◌>>◌}
use tinku.Store.Model.{Location, Event, EventInput, Page, location_is_zero}
use tinku.Store.Series.{EventSeries, EventSeriesInput, EventFilter}
use tinku.Webhooks.Change.{Change, action_created, action_updated, action_deleted, subject_series}
use tinku.Services.Errors.{invalid, forbidden, not_found}
use tinku.Services.Go.{GoLib}
use tinku.Services.Text.{rune_count, is_web_url}
use tinku.Services.Perms.{Caller, ViewerContext, authenticated, series_viewer}
use tinku.Services.Convert.{WireEvent, from_location, to_event}
use tinku.Services.Events.{EventService, or_not_found, organizations_owning, event_viewer_for}
use tinku.Services.Validate.{
  validate_recurrence, search_text, location_search_parts, max_title_runes, max_description_runes,
}
use tinku.Services.Recurrence.{
  TimeLib, occurrence_times, default_horizon, max_horizon, max_occurrences_per_expansion, max_time,
}
use tinku.Services.Series.Convert.{
  RecurrenceRule, WireSeries, from_recurrence, to_event_series, series_details, to_int64,
}

pub record CreateEventSeriesRequest : Type 0 where
  pub gathering_id : String
  pub title : String
  pub description : String
  pub is_online : Bool
  pub is_in_person : Bool
  pub online_url : Option String
  pub location : Option Location
  pub recurrence : RecurrenceRule
  pub starts_on : ℕ
  pub ends_on : Option ℕ
  pub start_time : String
  pub duration_minutes : ℕ
  pub timezone : String

pub record UpdateEventSeriesRequest : Type 0 where
  pub id : String
  pub title : Option String
  pub description : Option String
  pub is_online : Option Bool
  pub is_in_person : Option Bool
  pub online_url : Option String
  pub location : Option Location
  pub recurrence : Option RecurrenceRule
  pub starts_on : Option ℕ
  pub ends_on : Option ℕ
  pub start_time : Option String
  pub duration_minutes : Option ℕ
  pub timezone : Option String

pub record EventList : Type 0 where
  pub events : List WireEvent
  pub total : ℕ

abbrev is_positive : ℤ → Bool
is_positive (pos n) = ltb 0 n
is_positive (negsuc n) = false

abbrev ends_early : Option ℕ → ℕ → Bool
ends_early none starts_on = false
ends_early (some e) starts_on = ltb e starts_on

abbrev then_return : Result (Unit {0}) → EventSeriesInput → Result EventSeriesInput
then_return (ok t) in_ = ok in_
then_return (err e) in_ = err e

-- The checks in the code's order; the input comes back with its search text.
unfoldable pub validate_series : GoLib → TimeLib → EventSeriesInput → Result EventSeriesInput
validate_series go lib in_ =
    if str_eq (go.trim_space in_.title) ""
    then err (invalid "title" "a recurring event needs a title")
    else if ltb max_title_runes (rune_count in_.title)
    then err (invalid "title" "a title is at most 200 characters")
    else if ltb max_description_runes (rune_count in_.description)
    then err (invalid "description" "a description is at most 10000 characters")
    else if not in_.is_online && not in_.is_in_person
    then err (invalid "is_online" "a recurring event is online, in person, or both")
    else if in_.is_in_person && location_is_zero in_.location
    then err (invalid "location" "an in-person recurring event needs a location")
    else if not (str_eq in_.online_url "") && not (is_web_url go in_.online_url)
    then err (invalid "online_url" "an online link is an http or https URL")
    else if not (is_positive in_.duration_minutes)
    then err (invalid "duration_minutes" "an occurrence needs a duration")
    else if not (is_some (lib.load_location in_.timezone))
    then err (invalid "timezone" "unknown timezone")
    else if not (is_some (lib.parse_clock in_.start_time))
    then err (invalid "start_time" "a start time looks like 19:00")
    else if ends_early in_.ends_on in_.starts_on
    then err (invalid "ends_on" "a series cannot end before it starts")
    else then_return (validate_recurrence in_.recurrence) (record in_ {
      search_text =
          search_text go (in_.title ∷ in_.description ∷ location_search_parts go in_.location);
    })

abbrev minute : ℕ
minute = 60 * 1000000000

-- at.Add of a duration, whose int64 is given by its 64 bits.
abbrev add_duration : ℕ → ℕ → ℕ
add_duration at bits = if ltb bits (2 ^ 63) then at + bits else at - (2 ^ 64 - bits)

-- at.Add(time.Duration(minutes) * time.Minute): the product wraps around.
unfoldable pub add_minutes : ℕ → ℤ → ℕ
add_minutes at (pos n) = add_duration at (n * minute % 2 ^ 64)
add_minutes at (negsuc n) = add_duration at ((2 ^ 64 - suc n * minute % 2 ^ 64) % 2 ^ 64)

-- The row of one occurrence.
unfoldable pub occurrence_input : GoLib → EventSeries → ℕ → EventInput
unfolding add_minutes
occurrence_input go series at = record {
  gathering_id = series.gathering_id;
  series_id = none;
  title = series.title;
  description = series.description;
  search_text =
      search_text go (series.title ∷ series.description ∷ location_search_parts go series.location);
  is_online = series.is_online;
  is_in_person = series.is_in_person;
  online_url = series.online_url;
  location = series.location;
  starts_at = at;
  ends_at = add_minutes at series.duration_minutes;
  timezone = series.timezone;
}

module _ {S : Type 0} (svc : EventService S) (lib : TimeLib) where
  open svc use {store, go, origin_domain, notify, now}

  unfoldable pub load_series : String → S → Result EventSeries
  load_series id s =
      or_not_found (not_found "event_series" "no event series with that id")
        (store.event_series_by_id id s)

  unfoldable pub series_viewer_for : Caller → EventSeries → Exec S ViewerContext
  series_viewer_for c series = do
    access ← query (store.gathering_access_for series.gathering_id c.id)
    roles ← query (store.series_roles_for series.id c.id)
    pure (series_viewer c access roles.0 roles.1)

  unfoldable pub notify_series : String → EventSeries → S → S
  notify_series action series s = elim notify [
    | none ↦ s
    | some dispatch ↦
        dispatch
          (record {
            action = action;
            subject = subject_series;
            id = series.id;
            name = series.title;
            gathering_id = series.gathering_id;
            organization_ids = organizations_owning svc series.gathering_id s;
            details = some (series_details series);
            at = now;
          })
          s
  ]

  abbrev announce : String → EventSeries → Exec S (Unit {0})
  announce action series s = (ok tt, notify_series action series s)

  -- No further ahead than three years.
  abbrev pub capped : ℕ → ℕ
  capped through = if ltb (now + max_horizon) through then now + max_horizon else through

  abbrev materialize : EventSeries → ℕ → Exec S (Unit {0})
  materialize series through = do
    times ← lift (occurrence_times lib series series.materialized_through through)
    inserted ← store.upsert_occurrences series.id (map (occurrence_input go series) times)
    store.set_materialized_through series.id through

  unfoldable pub ensure_horizon : EventSeries → ℕ → Exec S (Unit {0})
  ensure_horizon series through s =
      if ltb series.materialized_through (capped through)
      then materialize series (capped through) s
      else (ok tt, s)

  unfoldable pub reread_series : Caller → String → Exec S WireSeries
  reread_series c id = do
    series ← query (load_series id)
    viewer ← series_viewer_for c series
    pure (to_event_series series viewer origin_domain)

  unfoldable pub get_event_series : Caller → String → Exec S WireSeries
  get_event_series c id = do
    series ← query (load_series id)
    ensure_horizon series (now + default_horizon)
    reread_series c series.id

  unfoldable pub create_series_input : CreateEventSeriesRequest → EventSeriesInput
  create_series_input req = record {
    gathering_id = req.gathering_id;
    title = go.trim_space req.title;
    description = go.trim_space req.description;
    search_text = "";
    is_online = req.is_online;
    is_in_person = req.is_in_person;
    online_url = elim req.online_url [ none ↦ "" | some u ↦ go.trim_space u ];
    location = from_location req.location;
    recurrence = from_recurrence req.recurrence;
    starts_on = req.starts_on;
    ends_on = req.ends_on;
    start_time = req.start_time;
    duration_minutes = to_int64 req.duration_minutes;
    timezone = req.timezone;
    materialized_through = 0;
  }

  unfoldable pub create_event_series : Caller → CreateEventSeriesRequest → Exec S WireSeries
  create_event_series caller req = do
    c ← authenticated caller "log in to schedule a recurring event"
    g ← query (λ s.
        or_not_found (not_found "gathering" "no gathering with that id")
          (store.gathering_by_id req.gathering_id s))
    access ← query (store.gathering_access_for req.gathering_id c.id)
    guard access.is_owner
        (forbidden "only an owner of this gathering can schedule a recurring event")
    input ← lift (validate_series go lib (create_series_input req))
    series ← store.create_event_series (record input { materialized_through = input.starts_on })
    ensure_horizon series (now + default_horizon)
    announce action_created series
    reread_series c series.id

  unfoldable pub update_series_input : EventSeries → UpdateEventSeriesRequest → EventSeriesInput
  update_series_input series req = record {
    gathering_id = series.gathering_id;
    title = elim req.title [ none ↦ series.title | some t ↦ go.trim_space t ];
    description = elim req.description [ none ↦ series.description | some d ↦ go.trim_space d ];
    search_text = "";
    is_online = or_else req.is_online series.is_online;
    is_in_person = or_else req.is_in_person series.is_in_person;
    online_url = elim req.online_url [ none ↦ series.online_url | some u ↦ go.trim_space u ];
    location = or_else req.location series.location;
    recurrence = elim req.recurrence [ none ↦ series.recurrence | some r ↦ from_recurrence r ];
    starts_on = or_else req.starts_on series.starts_on;
    ends_on = elim req.ends_on [ none ↦ series.ends_on | some e ↦ some e ];
    start_time = or_else req.start_time series.start_time;
    duration_minutes = elim req.duration_minutes [
      | none ↦ series.duration_minutes
      | some d ↦ to_int64 d
    ];
    timezone = or_else req.timezone series.timezone;
    materialized_through = 0;
  }

  -- The past stays: the rows are rebuilt from `now` on.
  unfoldable pub update_event_series : Caller → UpdateEventSeriesRequest → Exec S WireSeries
  update_event_series caller req = do
    c ← authenticated caller "log in to change a recurring event"
    series ← query (load_series req.id)
    viewer ← series_viewer_for c series
    guard viewer.can_edit
        (forbidden "only an owner or an organizer can change this recurring event")
    input ← lift (validate_series go lib (update_series_input series req))
    changed ←
        store.update_event_series series.id
          (record input { materialized_through = max_time input.starts_on now })
    store.delete_occurrences_from series.id now
    updated ← query (load_series series.id)
    ensure_horizon updated (now + default_horizon)
    announce action_updated updated
    reread_series c series.id

  unfoldable pub delete_event_series : Caller → String → Exec S (Unit {0})
  delete_event_series caller id = do
    c ← authenticated caller "log in to delete a recurring event"
    series ← query (load_series id)
    viewer ← series_viewer_for c series
    guard viewer.can_delete
        (forbidden "only an owner or an organizer can delete this recurring event")
    store.delete_occurrences_from series.id now
    store.delete_event_series series.id
    announce action_deleted series

  abbrev page_filter : EventSeries → ℕ → EventFilter
  page_filter series taken = record {
    gathering_id = series.gathering_id;
    series_id = series.id;
    now = now;
    include_started = true;
    page = record { limit = max_occurrences_per_expansion - taken; offset = taken };
  }

  -- The pages up to the bound on rows. Each round that goes on adds a row, so that many rounds
  -- are enough.
  unfoldable pub read_pages : ℕ → EventSeries → List Event → S → Result (List Event)
  read_pages zero series mine s = ok mine
  read_pages (suc rounds) series mine s =
      if ltb (length mine) max_occurrences_per_expansion
      then elim (store.list_events (page_filter series (length mine)) s) [
        | err e ↦ err e
        | ok page ↦ elim page.0 [
          | [] ↦ ok mine
          | e ∷ es ↦ read_pages rounds series (mine ++ e ∷ es) s
        ]
      ]
      else ok mine

  abbrev present_each : Caller → (String → Bool) → List Event → Exec S (List WireEvent)
  present_each c attending [] = pure []
  present_each c attending (e ∷ es) = do
    viewer ← event_viewer_for svc c e
    rest ← present_each c attending es
    pure (to_event (record e { viewer_attending = attending e.id }) viewer now origin_domain ∷ rest)

  unfoldable pub present_all : Caller → List Event → Exec S (List WireEvent)
  present_all c events = do
    attending ← query (store.attendance_for c.id (map (λ e. Event.id e) events))
    present_each c attending events

  unfoldable pub expand_event_series : Caller → String → Option ℕ → Exec S EventList
  expand_event_series caller id through = do
    c ← authenticated caller "log in to expand a recurring event"
    series ← query (load_series id)
    ensure_horizon series (capped (or_else through (now + default_horizon)))
    mine ← query (read_pages max_occurrences_per_expansion series [])
    out ← present_all c mine
    pure (record { events = out; total = length out })
