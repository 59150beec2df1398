-- ===== src/Services/Events/Lock.antt =====
-- The start-time lock of events.go, whatever the store answers.
use tinku.Prelude.{ℕ, String, none, ◌≡◌, arith, ◌≤◌}
use tinku.Prelude.Result.{Result, ok, err}
use tinku.Prelude.Exec.{Exec, pure, continue, ◌>>=◌}
use tinku.Store.Model.{Event}
use tinku.Services.Perms.{Caller, ViewerContext, authenticated}
use tinku.Services.Convert.{WireEvent, to_event}
use tinku.Services.Events.{
  EventService, UpdateEventRequest, CreateEventRequest, load_event, event_viewer_for, present,
  get_event, update_event, attend_event, unattend_event, create_event, reread,
}

-- The call failed, and the store is as it was.
abbrev pub Refused : {S A : Type 0} → Result A × S → S → Type 0
Refused (ok a, s') s = ⊥
Refused (err e, s') s = s' ≡ s

module _ {S : Type 0} (svc : EventService S) (c : Caller) (s : S) where
  -- A started event cannot be changed, and no attendance on it be marked or withdrawn, by anybody:
  -- each of the three calls fails and leaves the store as it was.
  pub started_event_frozen :
      (id : String) (req : UpdateEventRequest) (e : Event)
      → req.id ≡ id
      → svc.store.event_by_id id s ≡ ok e
      → e.starts_at ≤ svc.now
      → Refused (update_event svc c req s) s
        × Refused (attend_event svc c id s) s
        × Refused (unattend_event svc c id s) s
  unfolding update_event attend_event unattend_event load_event event_viewer_for authenticated ◌>>=◌
  started_event_frozen id req e same h k = (ground arith, ground arith, ground arith)

-- An answer with an event that has started carries neither its description nor its link.
abbrev pub Withholds : {S : Type 0} → ℕ → Result WireEvent × S → Type 0
Withholds now (ok w, s) = w.starts_at ≤ now → (w.description ≡ none) × (w.online_url ≡ none)
Withholds now (err e, s) = Unit

to_event-Withholds :
    (now : ℕ) (e : Event) (v : ViewerContext) (d : String)
    → (to_event e v now d).starts_at ≤ now
    → ((to_event e v now d).description ≡ none) × ((to_event e v now d).online_url ≡ none)
unfolding to_event
to_event-Withholds now e v d h = (ground arith, ground arith)

record AlwaysWithholds {S : Type 0} (now : ℕ) (m : Exec S WireEvent) : Type 0 where
  at : (s : S) → Withholds now (m s)

module _ {S A : Type 0} (now : ℕ) where
  after_first :
      (f : A → Exec S WireEvent) (r : Result A × S)
      → ((a : A) → AlwaysWithholds now (f a))
      → Withholds now (continue r.0 f r.1)
  after_first f (ok a, t) h = (h a).at t
  after_first f (err e, t) h = tt

  AlwaysWithholds-bind :
      (m : Exec S A) (f : A → Exec S WireEvent)
      → ((a : A) → AlwaysWithholds now (f a))
      → AlwaysWithholds now (m >>= f)
  unfolding ◌>>=◌
  AlwaysWithholds-bind m f h = record { at = λ s. after_first f (m s) h }

module _ {S : Type 0} (svc : EventService S) where
  AlwaysWithholds-pure :
      (e : Event) (v : ViewerContext) (d : String)
      → AlwaysWithholds {S = S} svc.now (pure (to_event e v svc.now d))
  unfolding ◌>>=◌
  AlwaysWithholds-pure e v d = record { at = λ s. to_event-Withholds svc.now e v d }

  ruleset withhold_rules = (AlwaysWithholds-bind, AlwaysWithholds-pure)

  AlwaysWithholds-present : (c : Caller) (e : Event) → AlwaysWithholds svc.now (present svc c e)
  unfolding present
  AlwaysWithholds-present c e = search withhold_rules

  AlwaysWithholds-reread : (c : Caller) (id : String) → AlwaysWithholds svc.now (reread svc c id)
  unfolding reread
  AlwaysWithholds-reread c id = search (withhold_rules, AlwaysWithholds-present)

  ruleset answer_rules = (AlwaysWithholds-bind, AlwaysWithholds-present, AlwaysWithholds-reread)

  AlwaysWithholds-update :
      (c : Caller) (req : UpdateEventRequest) → AlwaysWithholds svc.now (update_event svc c req)
  unfolding update_event
  AlwaysWithholds-update c req = search answer_rules depth 12

  AlwaysWithholds-create :
      (c : Caller) (req : CreateEventRequest) → AlwaysWithholds svc.now (create_event svc c req)
  unfolding create_event
  AlwaysWithholds-create c req = search answer_rules depth 12

  AlwaysWithholds-get : (c : Caller) (id : String) → AlwaysWithholds svc.now (get_event svc c id)
  unfolding get_event
  AlwaysWithholds-get c id = search answer_rules

  AlwaysWithholds-attend :
      (c : Caller) (id : String) → AlwaysWithholds svc.now (attend_event svc c id)
  unfolding attend_event
  AlwaysWithholds-attend c id = search answer_rules depth 12

  AlwaysWithholds-unattend :
      (c : Caller) (id : String) → AlwaysWithholds svc.now (unattend_event svc c id)
  unfolding unattend_event
  AlwaysWithholds-unattend c id = search answer_rules depth 12

  -- No answer of the event operations carries the description or the link of an event that has
  -- started, whoever asks and whatever the store answers.
  pub answers_withhold :
      (c : Caller) (id : String) (req : UpdateEventRequest) (new : CreateEventRequest) (s : S)
      → Withholds svc.now (get_event svc c id s)
        × Withholds svc.now (update_event svc c req s)
        × Withholds svc.now (create_event svc c new s)
        × Withholds svc.now (attend_event svc c id s)
        × Withholds svc.now (unattend_event svc c id s)
  answers_withhold c id req new s = (
    (AlwaysWithholds-get c id).at s,
    (AlwaysWithholds-update c req).at s,
    (AlwaysWithholds-create c new).at s,
    (AlwaysWithholds-attend c id).at s,
    (AlwaysWithholds-unattend c id).at s,
  )
