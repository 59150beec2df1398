-- ===== src/Services/Events.antt =====
-- csilservices/events.go: `EventService`. A request sees one clock reading, `now`.
pub mod Lock
pub mod Authority
pub mod Publishing
use tinku.Prelude.{
  ℕ, String, Bool, true, false, List, [], ◌∷◌, Option, none, some, not, ◌&&◌, ◌||◌, str_eq,
  if◌then◌else◌, or_else,
}
use tinku.Prelude.Result.{Error, Result, ok, err, app, err_not_found, err_limit_reached, internal}
use tinku.Prelude.Exec.{Exec, pure, raise, query, lift, guard, ◌>>=◌, ◌>>◌}
use tinku.Store.Model.{
  Location, Event, EventInput, Gathering, OwnerRef, owner_kind_organization, Organization,
}
use tinku.Store.Interface.{Store}
use tinku.Webhooks.Change.{
  Change, Details, action_created, action_updated, action_deleted, action_cancelled, subject_event,
}
use tinku.Services.Errors.{invalid, forbidden, not_found}
use tinku.Services.Go.{GoLib}
use tinku.Services.Perms.{Caller, ViewerContext, authenticated, event_viewer, locked_at}
use tinku.Services.Convert.{WireEvent, PublishDecision, to_event, location_details, from_location}
use tinku.Services.Publish.{publish_decision_for}
use tinku.Services.Validate.{validate_event}

-- `federation.FederatedEventInput`
pub record FederatedEventInput : Type 0 where
  pub event_id : String
  pub title : String
  pub is_online : Bool
  pub is_in_person : Bool
  pub location : Location
  pub starts_at : ℕ
  pub ends_at : ℕ
  pub timezone : String
  pub gathering_name : String
  pub organization_name : String

-- A failure to publish or to notify is logged and dropped, so both give the state alone.
pub record EventService (S : Type 0) : Type 0 where
  pub store : Store S
  pub go : GoLib
  pub origin_domain : String
  pub publisher : Option (FederatedEventInput → Bool → S → S)
  pub notify : Option (Change → S → S)
  pub now : ℕ

pub record CreateEventRequest : Type 0 where
  pub gathering_id : String
  pub title : String
  pub description : String
  pub is_online : Bool
  pub is_in_person : Bool
  pub online_url : Option String
  pub location : Option Location
  pub starts_at : ℕ
  pub ends_at : ℕ
  pub timezone : String

pub record UpdateEventRequest : Type 0 where
  pub id : String
  pub title : Option String
  pub description : Option String
  pub is_online : Option Bool
  pub is_in_person : Option Bool
  pub online_url : Option String
  pub location : Option Location
  pub starts_at : Option ℕ
  pub ends_at : Option ℕ
  pub timezone : Option String

-- `errors.Is(err, store.ErrNotFound)` turned into the caller's failure.
abbrev pub or_not_found : {A : Type 0} → Error → Result A → Result A
or_not_found e (ok a) = ok a
or_not_found e (err err_not_found) = err e
or_not_found e (err err_limit_reached) = err err_limit_reached
or_not_found e (err (app a)) = err (app a)
or_not_found e (err (internal m)) = err (internal m)

-- The first owner that is an organization gives its name.
unfoldable pub first_organization_name : List OwnerRef → String
first_organization_name [] = ""
first_organization_name (o ∷ os) =
    let rest = first_organization_name os in
    if str_eq o.kind owner_kind_organization then o.display_name else rest

unfoldable pub owner_organization_ids : List OwnerRef → List String
owner_organization_ids [] = []
owner_organization_ids (o ∷ os) =
    let rest = owner_organization_ids os in
    if str_eq o.kind owner_kind_organization then o.id ∷ rest else rest

unfoldable pub event_details : Event → Details
unfolding location_details
event_details e = record {
  description = e.description;
  blurb = "";
  starts_at = some e.starts_at;
  ends_at = some e.ends_at;
  timezone = e.timezone;
  is_online = e.is_online;
  is_in_person = e.is_in_person;
  online_url = e.online_url;
  location = location_details e.location;
  recurrence = none;
}

-- An occurrence of a series is cancelled, not deleted.
unfoldable pub event_action : String → Event → String
event_action action e =
    if str_eq action action_deleted && not (str_eq (or_else e.series_id "") "")
    then action_cancelled
    else action

module _ {S : Type 0} (svc : EventService S) where
  open svc use {store, go, origin_domain, publisher, notify, now}

  unfoldable pub organizations_owning : String → S → List String
  organizations_owning gathering_id s = elim (store.gathering_by_id gathering_id s) [
    | ok g ↦ owner_organization_ids g.owners
    | err e ↦ []
  ]

  unfoldable pub notify_event : String → Event → S → S
  notify_event action event s = elim notify [
    | none ↦ s
    | some dispatch ↦
        dispatch
          (record {
            action = event_action action event;
            subject = subject_event;
            id = event.id;
            name = event.title;
            gathering_id = event.gathering_id;
            organization_ids = organizations_owning event.gathering_id s;
            details = some (event_details event);
            at = now;
          })
          s
  ]

  abbrev send : (FederatedEventInput → Bool → S → S) → Event → Bool → Gathering → S → S
  send publish_event event deleted gathering =
      publish_event
        (record {
          event_id = event.id;
          title = event.title;
          is_online = event.is_online;
          is_in_person = event.is_in_person;
          location = event.location;
          starts_at = event.starts_at;
          ends_at = event.ends_at;
          timezone = event.timezone;
          gathering_name = gathering.name;
          organization_name = first_organization_name gathering.owners;
        })
        deleted

  -- A tombstone skips the decision.
  abbrev decide_and_send :
      (FederatedEventInput → Bool → S → S) → Event → Bool → Result Gathering → S → S
  decide_and_send publish_event event deleted (err e) s = s
  decide_and_send publish_event event true (ok gathering) s =
      send publish_event event true gathering s
  decide_and_send publish_event event false (ok gathering) s =
      elim (publish_decision_for store gathering s) [
        | err e ↦ s
        | ok decision ↦
            if decision.publishing then send publish_event event false gathering s else s
      ]

  unfoldable pub publish : Event → Bool → S → S
  publish event deleted s = elim publisher [
    | none ↦ s
    | some publish_event ↦
        if not deleted && locked_at event.starts_at now
        then s
        else decide_and_send publish_event event deleted
            (store.gathering_by_id event.gathering_id s) s
  ]

  unfoldable pub load_event : String → S → Result Event
  load_event id s =
      or_not_found (not_found "event" "no event with that id") (store.event_by_id id s)

  unfoldable pub event_viewer_for : Caller → Event → Exec S ViewerContext
  event_viewer_for c event = do
    access ← query (store.gathering_access_for event.gathering_id c.id)
    roles ← query (store.event_roles_for event.id c.id)
    pure (event_viewer c access roles.0 roles.1 (locked_at event.starts_at now))

  -- The caller's attendance, as loaded where nobody is signed in.
  unfoldable pub attending_for : Caller → Event → S → Result Bool
  attending_for c event s =
      if str_eq c.id "" then ok event.viewer_attending else store.attending c.id event.id s

  unfoldable pub present : Caller → Event → Exec S WireEvent
  present c event = do
    viewer ← event_viewer_for c event
    attending ← query (attending_for c event)
    pure (to_event (record event { viewer_attending = attending }) viewer now origin_domain)

  unfoldable pub get_event : Caller → String → Exec S WireEvent
  get_event c id = do event ← query (load_event id); present c event

  unfoldable pub create_input : CreateEventRequest → EventInput
  create_input req = record {
    gathering_id = req.gathering_id;
    series_id = none;
    title = go.trim_space req.title;
    description = go.trim_space req.description;
    search_text = "";
    is_online = req.is_online;
    is_in_person = req.is_in_person;
    online_url = elim req.online_url [ none ↦ "" | some u ↦ go.trim_space u ];
    location = from_location req.location;
    starts_at = req.starts_at;
    ends_at = req.ends_at;
    timezone = req.timezone;
  }

  abbrev announce : String → Event → Bool → Exec S (Unit {0})
  announce action event deleted s = (ok tt, notify_event action event (publish event deleted s))

  unfoldable pub create_event : Caller → CreateEventRequest → Exec S WireEvent
  create_event caller req = do
    c ← authenticated caller "log in to schedule an event"
    access ← query (store.gathering_access_for req.gathering_id c.id)
    g ← query (λ s.
        or_not_found (not_found "gathering" "no gathering with that id")
          (store.gathering_by_id req.gathering_id s))
    guard access.is_owner (forbidden "only an owner of this gathering can schedule an event")
    input ← lift (validate_event go (create_input req))
    guard (not (locked_at input.starts_at now))
        (invalid "starts_at" "an event cannot be scheduled to start in the past")
    event ← store.create_event input
    announce action_created event false
    present c event

  unfoldable pub update_input : Event → UpdateEventRequest → EventInput
  update_input event req = record {
    gathering_id = event.gathering_id;
    series_id = event.series_id;
    title = elim req.title [ none ↦ event.title | some t ↦ go.trim_space t ];
    description = elim req.description [ none ↦ event.description | some d ↦ go.trim_space d ];
    search_text = "";
    is_online = or_else req.is_online event.is_online;
    is_in_person = or_else req.is_in_person event.is_in_person;
    online_url = elim req.online_url [ none ↦ event.online_url | some u ↦ go.trim_space u ];
    location = or_else req.location event.location;
    starts_at = or_else req.starts_at event.starts_at;
    ends_at = or_else req.ends_at event.ends_at;
    timezone = or_else req.timezone event.timezone;
  }

  unfoldable pub update_event : Caller → UpdateEventRequest → Exec S WireEvent
  update_event caller req = do
    c ← authenticated caller "log in to change an event"
    event ← query (load_event req.id)
    viewer ← event_viewer_for c event
    guard (not (locked_at event.starts_at now))
        (forbidden "this event has started and can no longer be changed")
    guard viewer.can_edit (forbidden "only an owner or an organizer can change this event")
    input ← lift (validate_event go (update_input event req))
    guard (not (locked_at input.starts_at now))
        (invalid "starts_at" "an event cannot be moved to a time that has passed")
    updated ← store.update_event event.id input
    announce action_updated updated false
    present c updated

  unfoldable pub delete_event : Caller → String → Exec S (Unit {0})
  delete_event caller id = do
    c ← authenticated caller "log in to delete an event"
    event ← query (load_event id)
    viewer ← event_viewer_for c event
    guard viewer.can_delete (
        if locked_at event.starts_at now
        then forbidden "this event has started; only an administrator can delete it"
        else forbidden "only an owner or an organizer can delete this event")
    store.delete_event event.id
    announce action_deleted event true

  unfoldable pub reread : Caller → String → Exec S WireEvent
  reread c id = do event ← query (load_event id); present c event

  unfoldable pub attend_event : Caller → String → Exec S WireEvent
  attend_event caller event_id = do
    c ← authenticated caller "log in to mark attendance"
    event ← query (load_event event_id)
    guard (not (locked_at event.starts_at now))
        (forbidden "this event has started; attendance can no longer change")
    access ← query (store.gathering_access_for event.gathering_id c.id)
    guard (access.is_member || access.is_owner)
        (forbidden "join this gathering before marking attendance on its events")
    store.attend_event event.id c.id
    reread c event.id

  unfoldable pub unattend_event : Caller → String → Exec S WireEvent
  unattend_event caller event_id = do
    c ← authenticated caller "log in to withdraw attendance"
    event ← query (load_event event_id)
    guard (not (locked_at event.starts_at now))
        (forbidden "this event has started; attendance can no longer change")
    store.unattend_event event.id c.id
    reread c event.id
