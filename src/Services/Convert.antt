-- ===== src/Services/Convert.antt =====
-- csilservices/convert.go: from rows to what is sent. `toEvent` withholds what the start-time lock
-- hides.
use tinku.Webhooks.Change.{Place}
use tinku.Prelude.{
  ℕ, String, Bool, true, false, Option, none, some, not, str_eq, if◌then◌else◌, or_else,
}
use tinku.Store.Model.{
  Location, Event, Organization, Gathering, GatheringOffer, no_location, location_is_zero,
  publish_unset,
}
use tinku.Services.Go.{GoLib}
use tinku.Services.Perms.{ViewerContext, locked_at}

pub record Origin : Type 0 where
  pub domain : String
  pub is_external : Bool
  pub peer_address : Option String

pub record PublishDecision : Type 0 where
  pub publishing : Bool
  pub source : String
  pub can_override : Bool

pub record WireEvent : Type 0 where
  pub id : String
  pub gathering_id : String
  pub series_id : Option String
  pub title : String
  pub description : Option String
  pub is_online : Bool
  pub is_in_person : Bool
  pub online_url : Option String
  pub location : Option Location
  pub starts_at : ℕ
  pub ends_at : ℕ
  pub timezone : String
  pub locked : Bool
  pub attendee_count : ℕ
  pub viewer_attending : Bool
  pub origin : Origin
  pub viewer : ViewerContext
  pub created_at : ℕ
  pub updated_at : ℕ

pub record WireOffer : Type 0 where
  pub offer : GatheringOffer
  pub viewer : ViewerContext

pub record WireOrganization : Type 0 where
  pub organization : Organization
  pub publish_events : String
  pub origin : Origin
  pub viewer : ViewerContext

pub record WireGathering : Type 0 where
  pub gathering : Gathering
  pub publish_events : String
  pub publish : PublishDecision
  pub origin : Origin
  pub viewer : ViewerContext

unfoldable pub origin_of : GoLib → String → String → Origin
origin_of go record_domain instance_domain = record {
  domain = record_domain;
  is_external = not (go.equal_fold record_domain instance_domain);
  peer_address = none;
}

unfoldable pub remote_origin : String → String → Origin
remote_origin record_domain peer_address = record {
  domain = record_domain;
  is_external = true;
  peer_address = some peer_address;
}

unfoldable pub to_location : Location → Option Location
to_location l = if location_is_zero l then none else some l

-- notify.go: the coordinates are left out.
unfoldable pub location_details : Location → Option Place
location_details l =
    if location_is_zero l
    then none
    else some (record {
      name = l.name;
      address = l.address;
      locality = l.locality;
      region = l.region;
      postal_code = l.postal_code;
      country = l.country;
    })

unfoldable pub from_location : Option Location → Location
from_location l = or_else l no_location

unfoldable pub to_event : Event → ViewerContext → ℕ → String → WireEvent
unfolding to_location
to_event e viewer now instance_domain =
    let locked : Bool = locked_at e.starts_at now in
    record {
      id = e.id;
      gathering_id = e.gathering_id;
      series_id = e.series_id;
      title = e.title;
      description = if not locked then some e.description else none;
      is_online = e.is_online;
      is_in_person = e.is_in_person;
      online_url =
          if not locked then (if str_eq e.online_url "" then none else some e.online_url) else none;
      location = to_location e.location;
      starts_at = e.starts_at;
      ends_at = e.ends_at;
      timezone = e.timezone;
      locked = locked;
      attendee_count = e.attendee_count;
      viewer_attending = e.viewer_attending;
      origin = record { domain = instance_domain; is_external = false; peer_address = none };
      viewer = viewer;
      created_at = e.created_at;
      updated_at = e.updated_at;
    }

-- The row's own fields travel unchanged.
unfoldable pub to_gathering_offer : GatheringOffer → ViewerContext → WireOffer
to_gathering_offer o viewer = record { offer = o; viewer = viewer }

-- An unset column reads "unset" on the wire (csilservices/publish.go).
unfoldable pub wire_publish_setting : String → String
wire_publish_setting p = if str_eq p publish_unset then "unset" else p

-- The other fields of the row travel unchanged.
unfoldable pub to_gathering :
    GoLib → Gathering → ViewerContext → PublishDecision → String → WireGathering
unfolding origin_of wire_publish_setting
to_gathering go g viewer publish instance_domain = record {
  gathering = g;
  publish_events = wire_publish_setting g.publish_events;
  publish = publish;
  origin = origin_of go g.origin_domain instance_domain;
  viewer = viewer;
}

-- The other fields of the row travel unchanged.
unfoldable pub to_organization : GoLib → Organization → ViewerContext → String → WireOrganization
unfolding origin_of wire_publish_setting
to_organization go g viewer instance_domain = record {
  organization = g;
  publish_events = wire_publish_setting g.publish_events;
  origin = origin_of go g.origin_domain instance_domain;
  viewer = viewer;
}
