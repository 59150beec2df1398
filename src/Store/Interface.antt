-- ===== src/Store/Interface.antt =====
-- `store.Store` (store/store.go), the methods that the modelled services call. A method that only
-- reads cannot change the state; every method may fail.
use tinku.Prelude.{ℕ, String, Bool, List}
use tinku.Prelude.Result.{Result}
use tinku.Prelude.Exec.{Exec}
use tinku.Store.Model.{
  User, Organization, OwnerRef, Gathering, GatheringAccess, Event, EventInput, OrganizationInput,
  GatheringInput, InstanceSettings, GatheringOffer, OrganizationMember, Page,
}
use tinku.Store.Series.{EventSeries, EventSeriesInput, RoleScope, EventRoleAssignment, EventFilter}
use tinku.Webhooks.Queue.{Webhook, WebhookInput}

pub record Store (S : Type 0) : Type 0 where
  pub user_by_id : String → S → Result User
  pub instance_settings : S → Result InstanceSettings
  pub organization_by_id : String → S → Result Organization
  pub organization_by_slug : String → String → S → Result Organization
  pub organization_role_for : String → String → S → Result (String × Bool)
  pub create_organization : OrganizationInput → String → Exec S Organization
  pub update_organization : String → OrganizationInput → Exec S Organization
  pub delete_organization : String → Exec S (Unit {0})
  pub set_organization_member : String → String → String → Exec S (Unit {0})
  pub remove_organization_member : String → String → Exec S (Unit {0})
  pub list_organization_members : String → Page → S → Result (List OrganizationMember × ℕ)
  pub gathering_by_id : String → S → Result Gathering
  pub gathering_by_slug : String → String → S → Result Gathering
  pub gathering_access_for : String → String → S → Result GatheringAccess
  pub create_gathering : GatheringInput → OwnerRef → Exec S Gathering
  pub update_gathering : String → GatheringInput → Exec S Gathering
  pub delete_gathering : String → Exec S (Unit {0})
  pub add_gathering_owner : String → OwnerRef → Exec S (Unit {0})
  pub remove_gathering_owner : String → OwnerRef → Exec S (Unit {0})
  pub count_gathering_owners : String → S → Result ℕ
  pub join_gathering : String → String → Exec S (Unit {0})
  pub leave_gathering : String → String → Exec S (Unit {0})
  pub event_by_id : String → S → Result Event
  pub event_roles_for : String → String → S → Result (Bool × Bool)
  pub attending : String → String → S → Result Bool
  pub create_event : EventInput → Exec S Event
  pub update_event : String → EventInput → Exec S Event
  pub delete_event : String → Exec S (Unit {0})
  pub attend_event : String → String → Exec S (Unit {0})
  pub unattend_event : String → String → Exec S (Unit {0})
  pub create_gathering_offer : String → String → String → String → ℕ → Exec S GatheringOffer
  pub gathering_offer_by_id : String → S → Result GatheringOffer
  pub resolve_gathering_offer : String → String → ℕ → Exec S Bool
  pub delete_webhooks_for : String → String → Exec S (Unit {0})
  pub webhook_by_id : String → S → Result Webhook
  pub list_webhooks : String → String → S → Result (List Webhook)
  pub create_webhook : Webhook → ℕ → Exec S Webhook
  pub update_webhook : String → WebhookInput → ℕ → Exec S Webhook
  pub delete_webhook : String → Exec S (Unit {0})
  pub event_series_by_id : String → S → Result EventSeries
  pub create_event_series : EventSeriesInput → Exec S EventSeries
  pub update_event_series : String → EventSeriesInput → Exec S EventSeries
  pub delete_event_series : String → Exec S (Unit {0})
  pub delete_occurrences_from : String → ℕ → Exec S (Unit {0})
  pub upsert_occurrences : String → List EventInput → Exec S ℕ
  pub set_materialized_through : String → ℕ → Exec S (Unit {0})
  pub series_roles_for : String → String → S → Result (Bool × Bool)
  pub set_event_role : RoleScope → String → String → Exec S (Unit {0})
  pub remove_event_role : RoleScope → String → String → Exec S (Unit {0})
  pub list_event_roles : RoleScope → S → Result (List EventRoleAssignment)
  pub list_events : EventFilter → S → Result (List Event × ℕ)
  pub attendance_for : String → List String → S → Result (String → Bool)
