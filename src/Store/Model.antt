-- ===== src/Store/Model.antt =====
-- The rows of store/models.go. Ids, roles and kinds are texts, as in Go, since handlers test them;
-- a time is its nanoseconds since Go's zero time, and a coordinate the bits of its float64.
use tinku.Prelude.{ℕ, String, Bool, false, none, List, Option, ◌&&◌, not, str_eq, is_some}

abbrev pub organization_role_owner : String
organization_role_owner = "owner"

abbrev pub organization_role_member : String
organization_role_member = "member"

abbrev pub owner_kind_user : String
owner_kind_user = "user"

abbrev pub owner_kind_organization : String
owner_kind_organization = "organization"

abbrev pub event_role_organizer : String
event_role_organizer = "organizer"

abbrev pub event_role_presenter : String
event_role_presenter = "presenter"

abbrev pub offer_pending : String
offer_pending = "pending"

abbrev pub offer_accepted : String
offer_accepted = "accepted"

abbrev pub offer_declined : String
offer_declined = "declined"

abbrev pub offer_withdrawn : String
offer_withdrawn = "withdrawn"

abbrev pub publish_unset : String
publish_unset = ""

abbrev pub publish_in : String
publish_in = "in"

abbrev pub publish_out : String
publish_out = "out"

abbrev pub webhook_owner_organization : String
webhook_owner_organization = "organization"

abbrev pub webhook_owner_gathering : String
webhook_owner_gathering = "gathering"

pub record User : Type 0 where
  pub id : String
  pub linkkeys_domain : String
  pub linkkeys_user_id : String
  pub handle : String
  pub display_name : String
  pub kind : String
  pub created_at : ℕ
  pub is_admin : Bool
  pub admin_granted_at : Option ℕ

pub record Organization : Type 0 where
  pub id : String
  pub slug : String
  pub origin_domain : String
  pub name : String
  pub blurb : String
  pub description : String
  pub publish_events : String
  pub member_count : ℕ
  pub owner_count : ℕ
  pub created_at : ℕ
  pub updated_at : ℕ

pub record OrganizationMember : Type 0 where
  pub organization_id : String
  pub user_id : String
  pub handle : String
  pub linkkeys_domain : String
  pub display_name : String
  pub role : String
  pub joined_at : ℕ

pub record Page : Type 0 where
  pub limit : ℕ
  pub offset : ℕ

-- The zero value.
abbrev pub first_page : Page
first_page = record { limit = 0; offset = 0 }

pub record OwnerRef : Type 0 where
  pub kind : String
  pub id : String
  pub display_name : String
  pub handle : String
  pub origin_domain : String

pub record Gathering : Type 0 where
  pub id : String
  pub slug : String
  pub origin_domain : String
  pub name : String
  pub blurb : String
  pub description : String
  pub owners : List OwnerRef
  pub publish_events : String
  pub member_count : ℕ
  pub event_count : ℕ
  pub next_event_at : Option ℕ
  pub created_at : ℕ
  pub updated_at : ℕ

pub record Location : Type 0 where
  pub name : String
  pub address : String
  pub locality : String
  pub region : String
  pub postal_code : String
  pub country : String
  pub latitude : Option ℕ
  pub longitude : Option ℕ

abbrev pub no_location : Location
no_location = record {
  name = "";
  address = "";
  locality = "";
  region = "";
  postal_code = "";
  country = "";
  latitude = none;
  longitude = none;
}

unfoldable pub location_is_zero : Location → Bool
location_is_zero l =
    str_eq l.name ""
    && str_eq l.address ""
    && str_eq l.locality ""
    && str_eq l.region ""
    && str_eq l.postal_code ""
    && str_eq l.country ""
    && not (is_some l.latitude)
    && not (is_some l.longitude)

pub record Event : Type 0 where
  pub id : String
  pub gathering_id : String
  pub series_id : Option String
  pub title : String
  pub description : String
  pub is_online : Bool
  pub is_in_person : Bool
  pub online_url : String
  pub location : Location
  pub starts_at : ℕ
  pub ends_at : ℕ
  pub timezone : String
  pub attendee_count : ℕ
  pub viewer_attending : Bool
  pub created_at : ℕ
  pub updated_at : ℕ

pub record EventInput : Type 0 where
  pub gathering_id : String
  pub series_id : Option String
  pub title : String
  pub description : String
  pub search_text : String
  pub is_online : Bool
  pub is_in_person : Bool
  pub online_url : String
  pub location : Location
  pub starts_at : ℕ
  pub ends_at : ℕ
  pub timezone : String

pub record GatheringAccess : Type 0 where
  pub is_member : Bool
  pub is_owner : Bool

-- The zero value.
abbrev pub no_access : GatheringAccess
no_access = record { is_member = false; is_owner = false }

pub record OrganizationInput : Type 0 where
  pub slug : String
  pub origin_domain : String
  pub name : String
  pub blurb : String
  pub description : String
  pub search_text : String
  pub publish_events : String

pub record GatheringInput : Type 0 where
  pub slug : String
  pub origin_domain : String
  pub name : String
  pub blurb : String
  pub description : String
  pub search_text : String
  pub publish_events : String

pub record InstanceSettings : Type 0 where
  pub publish_default : String
  pub organization_override_allowed : Bool
  pub gathering_override_allowed : Bool
  pub retention_days : ℕ
  pub peer_rate_limit_per_minute : ℕ
  pub origin_rate_limit_per_minute : ℕ

pub record GatheringOffer : Type 0 where
  pub id : String
  pub gathering_id : String
  pub gathering_name : String
  pub organization_id : String
  pub organization_name : String
  pub offered_by_id : String
  pub offered_by_handle : String
  pub offered_by_name : String
  pub offered_by_domain : String
  pub note : String
  pub status : String
  pub created_at : ℕ
  pub resolved_at : Option ℕ
