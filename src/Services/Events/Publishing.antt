-- ===== src/Services/Events/Publishing.antt =====
-- What `publish` of events.go sends to peers.
use tinku.Prelude.{Bool, true, false, none, some, ◌≡◌, ◌⊎◌, arith, ◌≤◌}
use tinku.Prelude.Result.{ok, is_ok}
use tinku.Store.Model.{Event, Gathering}
use tinku.Services.Convert.{PublishDecision}
use tinku.Services.Publish.{publish_decision_for}
use tinku.Services.Events.{EventService, FederatedEventInput, publish, first_organization_name}

-- The summary that peers get of an event.
abbrev pub summary : Event → Gathering → FederatedEventInput
summary event gathering = record {
  event_id = event.id;
  title = event.title;
  is_online = event.is_online;
  is_in_person = event.is_in_person;
  location = event.location;
  starts_at = event.starts_at;
  ends_at = event.ends_at;
  timezone = event.timezone;
  gathering_name = gathering.name;
  organization_name = first_organization_name gathering.owners;
}

module _ {S : Type 0} (svc : EventService S) (s : S) (e : Event) where
  -- Nothing is queued for a started event, for one whose gathering's decision is not to publish or
  -- cannot be made, or without a publisher. A tombstone travels whatever the decision and the
  -- clock say, as soon as the gathering can be read.
  publish_lem :
      (p : FederatedEventInput → Bool → S → S) (g : Gathering) (d : PublishDecision)
      → ((svc.publisher ≡ none)
            ⊎ (e.starts_at ≤ svc.now)
            ⊎ ((svc.store.gathering_by_id e.gathering_id s ≡ ok g)
                × ((is_ok (publish_decision_for svc.store g s) ≡ false)
                    ⊎ ((publish_decision_for svc.store g s ≡ ok d) × (d.publishing ≡ false))))
          → publish svc e false s ≡ s)
        × (svc.publisher ≡ some p
            → svc.store.gathering_by_id e.gathering_id s ≡ ok g
            → publish svc e true s ≡ p (summary e g) true s)
  unfolding publish
  publish_lem p g d = (λ h. ground arith, λ a b. ground arith)
