-- ===== src/Webhooks/Routing.antt =====
-- webhooks/webhooks.go: the `Dispatcher`, which queues one body for each webhook that wants a change.
pub mod Bodies
pub mod Audience
use tinku.Prelude.{
  ℕ, String, Bool, true, false, List, [], ◌∷◌, ◌++◌, Option, none, some, not, ◌&&◌, ◌||◌, str_eq,
  if◌then◌else◌, ◌==◌, is_some, filter,
}
use tinku.Prelude.Result.{Result, Error, ok, err}
use tinku.Prelude.Exec.{Exec, query, lift, pure, ◌>>=◌, ◌>>◌}
use tinku.Store.Model.{webhook_owner_organization, webhook_owner_gathering}
use tinku.Webhooks.Change.{Change, Details, subject_event, subject_series}
use tinku.Webhooks.Queue.{Webhook, webhook_scope_structure}

-- `payload`, what `json.Marshal` turns into the body, without the link, which no service sets.
pub record Payload : Type 0 where
  pub action : String
  pub subject : String
  pub id : String
  pub name : String
  pub gathering : String
  pub at : ℕ
  pub instance_domain : String
  pub details : Option Details

pub record Dispatcher (S : Type 0) : Type 0 where
  -- The store's two methods, and json.Marshal.
  pub list_webhooks : String → String → S → Result (List Webhook)
  pub queue_webhook_delivery : String → String → ℕ → Exec S (Unit {0})
  pub marshal : Payload → Result String
  pub origin_domain : String
  pub now : ℕ

unfoldable pub wants : Change → Webhook → Bool
wants change hook =
    if not hook.active
    then false
    else if str_eq hook.scope webhook_scope_structure
        && (str_eq change.subject subject_event || str_eq change.subject subject_series)
    then false
    else true

-- The two bodies that have been made so far.
pub record MadeBodies : Type 0 where
  pub pointer_body : Option String
  pub detailed_body : Option String

abbrev pub no_bodies : MadeBodies
no_bodies = record { pointer_body = none; detailed_body = none }

-- `base` with the record itself in it.
abbrev pub with_details : Payload → Option Details → Payload
with_details base details = record base { details = details }

unfoldable pub keep_pointer : MadeBodies → Result String → Result (String × MadeBodies)
keep_pointer bodies (ok b) = ok (b, record bodies { pointer_body = some b })
keep_pointer bodies (err e) = err e

unfoldable pub keep_detailed : MadeBodies → Result String → Result (String × MadeBodies)
keep_detailed bodies (ok b) = ok (b, record bodies { detailed_body = some b })
keep_detailed bodies (err e) = err e

module _ {S : Type 0} (d : Dispatcher S) where
  open d use {list_webhooks, queue_webhook_delivery, marshal, origin_domain, now}

  unfoldable pub owners_wanting : Change → List String → Exec S (List Webhook)
  owners_wanting change [] s = (ok [], s)
  owners_wanting change (organization_id ∷ ids) s =
      (do
        hooks ← query (list_webhooks webhook_owner_organization organization_id)
        rest ← owners_wanting change ids
        pure (filter (wants change) hooks ++ rest))
        s

  unfoldable pub gathering_wanting : Change → Exec S (List Webhook)
  gathering_wanting change s =
      if str_eq change.gathering_id ""
      then (ok [], s)
      else (do
        hooks ← query (list_webhooks webhook_owner_gathering change.gathering_id)
        pure (filter (wants change) hooks))
          s

  unfoldable pub matching : Change → Exec S (List Webhook)
  matching change = do
    under_gathering ← gathering_wanting change
    under_organizations ← owners_wanting change change.organization_ids
    pure (under_gathering ++ under_organizations)

  -- One turn of the loop: each of the two bodies is made when the first webhook needs it.
  unfoldable pub body_for :
      Payload → Option Details → Webhook → MadeBodies → Result (String × MadeBodies)
  unfolding keep_pointer keep_detailed
  body_for base details hook bodies =
      if hook.include_details && is_some details
      then (elim bodies.detailed_body [
        | some b ↦ ok (b, bodies)
        | none ↦ keep_detailed bodies (marshal (with_details base details))
      ])
      else (elim bodies.pointer_body [
        | some b ↦ ok (b, bodies)
        | none ↦ keep_pointer bodies (marshal base)
      ])

  unfoldable pub queue_all :
      Payload → Option Details → ℕ → List Webhook → MadeBodies → Exec S (Unit {0})
  queue_all base details at [] bodies s = (ok tt, s)
  queue_all base details at (hook ∷ hooks) bodies s =
      (do
        made ← lift (body_for base details hook bodies)
        queue_webhook_delivery hook.id made.0 at
        queue_all base details at hooks made.1)
        s

  -- `change.At` or, where it is Go's zero time, the clock.
  abbrev pub time_of : Change → ℕ
  time_of change = if change.at == 0 then now else change.at

  abbrev pub base_of : Change → Payload
  base_of change = record {
    action = change.action;
    subject = change.subject;
    id = change.id;
    name = change.name;
    gathering = change.gathering_id;
    at = time_of change;
    instance_domain = origin_domain;
    details = none;
  }

  unfoldable pub queue_change : Change → Exec S (Unit {0})
  queue_change change = do
    hooks ← matching change
    queue_all (base_of change) change.details (time_of change) hooks no_bodies

  -- A failure is logged and dropped.
  unfoldable pub dispatch : Change → S → S
  unfolding queue_change
  dispatch change s = (queue_change change s).1
