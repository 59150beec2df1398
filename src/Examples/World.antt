-- ===== src/Examples/World.antt =====
-- A small instance: a store that answers by name and counts its writes, and people who call it.
use tinku.Prelude.{ℕ, Bool, true, false, [], ◌∷◌, none, some, suc, str_eq, if◌then◌else◌}
use tinku.Prelude.Result.{ok, err, err_not_found, internal}
use tinku.Store.Model.{
  User, Organization, OwnerRef, Gathering, Event, InstanceSettings, GatheringOffer, no_location,
  no_access, organization_role_owner, organization_role_member, owner_kind_organization,
  offer_pending, publish_in, publish_out, publish_unset,
}
use tinku.Prelude.Int.{pos}
use tinku.Store.Series.{EventSeries, freq_weekly}
use tinku.Store.Interface.{Store}
use tinku.Webhooks.Queue.{Webhook, webhook_scope_all}
use tinku.Services.Webhooks.{WebhookService}
use tinku.Services.Go.{GoLib}
use tinku.Services.Perms.{Caller}
use tinku.Services.Events.{EventService, FederatedEventInput}
use tinku.Services.Organizations.{OrganizationService}
use tinku.Services.Gatherings.{GatheringService}

abbrev pub ann : Caller
ann = record { id = "ann"; is_admin = false }

abbrev pub bob : Caller
bob = record { id = "bob"; is_admin = false }

abbrev pub root : Caller
root = record { id = "root"; is_admin = true }

abbrev pub person : User
person = record {
  id = "bob";
  linkkeys_domain = "here";
  linkkeys_user_id = "1";
  handle = "bob";
  display_name = "Bob";
  kind = "person";
  created_at = 1;
  is_admin = false;
  admin_granted_at = none;
}

abbrev pub club : Organization
club = record {
  id = "club";
  slug = "club";
  origin_domain = "here";
  name = "Club";
  blurb = "";
  description = "";
  publish_events = publish_out;
  member_count = 2;
  owner_count = 1;
  created_at = 1;
  updated_at = 1;
}

abbrev pub club_ref : OwnerRef
club_ref = record {
  kind = owner_kind_organization;
  id = "club";
  display_name = "Club";
  handle = "club";
  origin_domain = "here";
}

abbrev pub lost_ref : OwnerRef
lost_ref = record club_ref { id = "lost" }

abbrev pub games : Gathering
games = record {
  id = "games";
  slug = "games";
  origin_domain = "here";
  name = "Games";
  blurb = "";
  description = "";
  owners = club_ref ∷ [];
  publish_events = publish_unset;
  member_count = 1;
  event_count = 2;
  next_event_at = none;
  created_at = 1;
  updated_at = 1;
}

abbrev pub soon : Event
soon = record {
  id = "soon";
  gathering_id = "games";
  series_id = none;
  title = "Chess";
  description = "bring a board";
  is_online = true;
  is_in_person = false;
  online_url = "https://chess";
  location = no_location;
  starts_at = 900;
  ends_at = 950;
  timezone = "UTC";
  attendee_count = 0;
  viewer_attending = false;
  created_at = 1;
  updated_at = 1;
}

abbrev pub past : Event
past = record soon { id = "past"; starts_at = 100; ends_at = 150 }

abbrev pub offer : GatheringOffer
offer = record {
  id = "offer";
  gathering_id = "games";
  gathering_name = "Games";
  organization_id = "club";
  organization_name = "Club";
  offered_by_id = "ann";
  offered_by_handle = "ann";
  offered_by_name = "Ann";
  offered_by_domain = "here";
  note = "";
  status = offer_pending;
  created_at = 1;
  resolved_at = none;
}

-- Its gathering is not there any more.
abbrev pub stale_offer : GatheringOffer
stale_offer = record offer { id = "stale"; gathering_id = "gone" }

abbrev pub settings : InstanceSettings
settings = record {
  publish_default = publish_in;
  organization_override_allowed = true;
  gathering_override_allowed = true;
  retention_days = 30;
  peer_rate_limit_per_minute = 60;
  origin_rate_limit_per_minute = 60;
}

abbrev pub hook : Webhook
hook = record {
  id = "hook";
  owner_kind = "gathering";
  owner_id = "games";
  url = "https://there";
  secret = "key";
  scope = webhook_scope_all;
  note = "";
  active = true;
  include_details = false;
  failure_count = 0;
  last_status = none;
  last_attempt_at = none;
  created_at = 1;
  updated_at = 1;
}

-- Every Thursday at seven in the evening.
abbrev pub weekly : EventSeries
weekly = record {
  id = "weekly";
  gathering_id = "games";
  title = "Chess";
  description = "";
  is_online = true;
  is_in_person = false;
  online_url = "";
  location = no_location;
  recurrence = record {
    freq = freq_weekly;
    interval = pos 1;
    weekday = some "thursday";
    ordinal = none;
    day_of_month = none;
  };
  starts_on = 100;
  ends_on = none;
  start_time = "19:00";
  duration_minutes = pos 90;
  timezone = "UTC";
  materialized_through = 100;
  occurrence_count = 0;
  next_occurrence_at = none;
  created_at = 1;
  updated_at = 1;
}

abbrev pub desk : Store ℕ
desk = record {
  user_by_id = λ id s. ok person;
  instance_settings = λ s. ok settings;
  organization_by_id = λ id s.
      if str_eq id "lost"
      then err (internal "disk")
      else if str_eq id "club"
      then ok club
      else err err_not_found;
  organization_by_slug = λ domain slug s. err err_not_found;
  organization_role_for = λ id user s. ok (
      if str_eq user "ann"
      then (organization_role_owner, true)
      else if str_eq user "bob"
      then (organization_role_member, true)
      else ("", false));
  create_organization = λ in_ owner s. (ok club, suc s);
  update_organization = λ id in_ s. (ok club, suc s);
  delete_organization = λ id s. (ok tt, suc s);
  set_organization_member = λ id user role s. (ok tt, suc s);
  remove_organization_member = λ id user s. (ok tt, suc s);
  list_organization_members = λ id page s. ok ([], 0);
  gathering_by_id = λ id s. if str_eq id "games" then ok games else err err_not_found;
  gathering_by_slug = λ domain slug s. err err_not_found;
  gathering_access_for = λ id user s. ok (
      if str_eq user "ann"
      then record { is_member = true; is_owner = true }
      else if str_eq user "bob"
      then record { is_member = true; is_owner = false }
      else no_access);
  create_gathering = λ in_ owner s. (ok games, suc s);
  update_gathering = λ id in_ s. (ok games, suc s);
  delete_gathering = λ id s. (ok tt, suc s);
  add_gathering_owner = λ id owner s. (ok tt, suc s);
  remove_gathering_owner = λ id owner s. (ok tt, suc s);
  count_gathering_owners = λ id s. ok 1;
  join_gathering = λ id user s. (ok tt, suc s);
  leave_gathering = λ id user s. (ok tt, suc s);
  event_by_id = λ id s.
      if str_eq id "past" then ok past else if str_eq id "soon" then ok soon else err err_not_found;
  event_roles_for = λ id user s. ok (false, false);
  attending = λ id user s. ok false;
  create_event = λ in_ s. (ok soon, suc s);
  update_event = λ id in_ s. (ok soon, suc s);
  delete_event = λ id s. (ok tt, suc s);
  attend_event = λ id user s. (ok tt, suc s);
  unattend_event = λ id user s. (ok tt, suc s);
  create_gathering_offer = λ g o by note now s. (ok offer, suc s);
  gathering_offer_by_id = λ id s. if str_eq id "stale" then ok stale_offer else ok offer;
  resolve_gathering_offer = λ id status now s. (ok true, suc s);
  delete_webhooks_for = λ kind id s. (ok tt, suc s);
  webhook_by_id = λ id s. ok hook;
  list_webhooks = λ kind id s. ok (hook ∷ []);
  create_webhook = λ w limit s. (ok hook, suc s);
  update_webhook = λ id in_ now s. (ok hook, suc s);
  delete_webhook = λ id s. (ok tt, suc s);
  event_series_by_id = λ id s. if str_eq id "weekly" then ok weekly else err err_not_found;
  create_event_series = λ in_ s. (ok weekly, suc s);
  update_event_series = λ id in_ s. (ok weekly, suc s);
  delete_event_series = λ id s. (ok tt, suc s);
  delete_occurrences_from = λ id t s. (ok tt, suc s);
  upsert_occurrences = λ id rows s. (ok 0, suc s);
  set_materialized_through = λ id t s. (ok tt, suc s);
  series_roles_for = λ id user s. ok (false, false);
  set_event_role = λ scope user role s. (ok tt, suc s);
  remove_event_role = λ scope user role s. (ok tt, suc s);
  list_event_roles = λ scope s. ok [];
  list_events = λ f s. ok ([], 0);
  attendance_for = λ user ids s. ok (λ id. false);
}

abbrev pub go : GoLib
go = record {
  trim_space = λ s. s;
  to_lower = λ s. s;
  equal_fold = λ a b. str_eq a b;
  fields = λ s. s ∷ [];
  join = λ a b. a;
  known_timezone = λ z. str_eq z "UTC";
  parse_url = λ u. some ("https", u);
}

-- What is sent to peers counts as a write too.
abbrev pub send : FederatedEventInput → Bool → ℕ → ℕ
send e deleted s = suc s

abbrev pub events : EventService ℕ
events = record {
  store = desk;
  go = go;
  origin_domain = "here";
  publisher = some send;
  notify = none;
  now = 500;
}

abbrev pub gatherings : GatheringService ℕ
gatherings = record {
  store = desk;
  go = go;
  origin_domain = "here";
  notify = none;
  new_id = "01HV0000000000000000ABCDEF";
  now = 500;
}

abbrev pub organizations : OrganizationService ℕ
organizations = record {
  store = desk;
  go = go;
  origin_domain = "here";
  notify = none;
  new_id = "01HV0000000000000000ABCDEF";
  now = 500;
}

abbrev pub webhooks : WebhookService ℕ
webhooks = record {
  store = desk;
  go = go;
  dev_auth_allowed = false;
  new_secret = ok "secret";
  now = 500;
}
