-- ===== src/Services/Events/Authority.antt =====
-- Who may change, delete and attend an event, given what the store answers about the caller.
use tinku.Prelude.{String, Bool, true, false, ◌≡◌, ◌⊎◌, ◌||◌, str_eq, arith, ◌≤◌, if◌then◌else◌}
use tinku.Prelude.Result.{ok}
use tinku.Prelude.Exec.{◌>>=◌}
use tinku.Store.Model.{Event, EventInput, GatheringAccess}
use tinku.Webhooks.Change.{action_deleted}
use tinku.Services.Perms.{Caller, authenticated, locked_at, event_viewer}
use tinku.Services.Events.{
  EventService, UpdateEventRequest, load_event, event_viewer_for, update_event, delete_event,
  update_input, notify_event, publish,
}
use tinku.Services.Events.Lock.{Refused}
use tinku.Services.Validate.{validate_event}

-- perms.go, in words: before an event starts its owners, its organizers and administrators may
-- delete it, and afterwards administrators alone.
abbrev pub may_delete : Caller → GatheringAccess → Bool → Bool → Bool
may_delete c access organizer started =
    if started then c.is_admin else access.is_owner || organizer || c.is_admin

-- The store's answers about one event and one caller.
pub record Standing {S : Type 0} (svc : EventService S) (c : Caller) (s : S) (id : String)
    : Type 0 where
  pub event : Event
  pub access : GatheringAccess
  pub organizer : Bool
  pub presenter : Bool
  pub loaded : svc.store.event_by_id id s ≡ ok event
  pub accessed : svc.store.gathering_access_for event.gathering_id c.id s ≡ ok access
  pub roles : svc.store.event_roles_for event.id c.id s ≡ ok (organizer, presenter)

module _ {S : Type 0} (svc : EventService S) (c : Caller) (s : S) (id : String)
    (st : Standing svc c s id) where
  open st use {event, access, organizer, presenter, loaded, accessed, roles}

  -- A deletion by a signed-in caller whom the rule allows is carried out on the store, then
  -- published as a tombstone and notified; by anybody else it fails and changes nothing.
  pub delete_event_by_rule :
      (t : S)
      → svc.store.delete_event event.id s ≡ (ok tt, t)
      → (str_eq c.id "" ≡ false
          → may_delete c access organizer (locked_at event.starts_at svc.now) ≡ true
          → delete_event svc c id s
            ≡ (ok tt, notify_event svc action_deleted event (publish svc event true t)))
        × ((str_eq c.id "" ≡ true)
              ⊎ (may_delete c access organizer (locked_at event.starts_at svc.now) ≡ false)
            → Refused (delete_event svc c id s) s)
  unfolding delete_event load_event event_viewer_for authenticated event_viewer ◌>>=◌
  delete_event_by_rule t d =
      (λ a b. ground (arith, loaded, accessed, roles), λ h. ground (arith, loaded, accessed, roles))

  -- An update that succeeds was made by a signed-in owner or organizer, before the event started,
  -- with an input that is valid and still starts in the future.
  update_event_only_by :
      (req : UpdateEventRequest) (input : EventInput)
      → req.id ≡ id
      → validate_event svc.go (update_input svc event req) ≡ ok input
      → (str_eq c.id "" ≡ true)
        ⊎ ((access.is_owner || organizer) ≡ false)
        ⊎ (event.starts_at ≤ svc.now)
        ⊎ (input.starts_at ≤ svc.now)
      → Refused (update_event svc c req s) s
  unfolding update_event load_event event_viewer_for authenticated event_viewer ◌>>=◌
  update_event_only_by req input same v h = ground (arith, loaded, accessed, roles)
