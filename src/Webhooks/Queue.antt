-- ===== src/Webhooks/Queue.antt =====
-- store/sqlite/webhooks.go: the tables `webhooks` and `webhook_deliveries`, as lists of rows in the
-- order of insertion. A new id and the clock are arguments; the database itself does not fail.
pub mod Limit
pub mod Drain
pub mod Silence
use tinku.Prelude.{
  ℕ, String, Bool, true, false, List, [], ◌∷◌, ◌++◌, Option, none, some, suc, ◌+◌, not, ◌&&◌, ◌||◌,
  str_eq, if◌then◌else◌, ltb, leb, take, filter, find, count, update_where,
}
use tinku.Prelude.Result.{Result, Error, ok, err, err_not_found, err_limit_reached}
use tinku.Prelude.Exec.{Exec}

abbrev pub webhook_scope_all : String
webhook_scope_all = "all"

abbrev pub webhook_scope_structure : String
webhook_scope_structure = "structure_only"

pub record Webhook : Type 0 where
  pub id : String
  pub owner_kind : String
  pub owner_id : String
  pub url : String
  pub secret : String
  pub scope : String
  pub note : String
  pub active : Bool
  pub include_details : Bool
  pub failure_count : ℕ
  pub last_status : Option ℕ
  pub last_attempt_at : Option ℕ
  pub created_at : ℕ
  pub updated_at : ℕ

pub record WebhookInput : Type 0 where
  pub url : String
  pub scope : String
  pub note : String
  pub active : Bool
  pub include_details : Bool

-- A row of webhook_deliveries.
pub record QueuedDelivery : Type 0 where
  pub id : String
  pub webhook_id : String
  pub payload : String
  pub attempts : ℕ
  pub next_try_at : ℕ
  pub last_error : String

-- `store.WebhookDelivery`: the row with its webhook's address and key.
pub record WebhookDelivery : Type 0 where
  pub id : String
  pub webhook_id : String
  pub payload : String
  pub attempts : ℕ
  pub url : String
  pub secret : String

pub record Queue : Type 0 where
  pub webhooks : List Webhook
  pub deliveries : List QueuedDelivery

abbrev pub owned_by : String → String → Webhook → Bool
owned_by kind owner_id w = str_eq w.owner_kind kind && str_eq w.owner_id owner_id

abbrev pub is_webhook : String → Webhook → Bool
is_webhook id w = str_eq w.id id

abbrev pub is_delivery : String → QueuedDelivery → Bool
is_delivery id d = str_eq d.id id

abbrev new_webhook : String → ℕ → Webhook → Webhook
new_webhook id now w = record w {
  id = id;
  active = true;
  failure_count = 0;
  last_status = none;
  last_attempt_at = none;
  created_at = now;
  updated_at = now;
}

unfoldable pub webhook_by_id : String → Queue → Result Webhook
webhook_by_id id q = elim (find (is_webhook id) q.webhooks) [
  | none ↦ err err_not_found
  | some w ↦ ok w
]

-- The INSERT counts the owner's rows in the same statement.
unfoldable pub create_webhook : String → ℕ → Webhook → ℕ → Exec Queue Webhook
create_webhook id now w limit q =
    if ltb (count (owned_by w.owner_kind w.owner_id) q.webhooks) limit
    then (
      ok (new_webhook id now w),
      record q { webhooks = q.webhooks ++ new_webhook id now w ∷ [] },
    )
    else (err err_limit_reached, q)

-- ORDER BY on a number, the earlier row first among equals.
unfoldable pub insert_by {ℓ} : {A : Type ℓ} → (A → ℕ) → A → List A → List A
insert_by key a [] = a ∷ []
insert_by key a (b ∷ bs) =
    let rest = insert_by key a bs in if ltb (key b) (key a) then b ∷ rest else a ∷ b ∷ bs

unfoldable pub order_by {ℓ} : {A : Type ℓ} → (A → ℕ) → List A → List A
unfolding insert_by
order_by key [] = []
order_by key (a ∷ rows) = insert_by key a (order_by key rows)

unfoldable pub list_webhooks : String → String → Queue → List Webhook
unfolding order_by
list_webhooks kind owner_id q =
    order_by (λ w. w.created_at) (filter (owned_by kind owner_id) q.webhooks)

-- Switching a webhook on again forgets its failures.
abbrev change_webhook : WebhookInput → ℕ → Webhook → Webhook
change_webhook in_ now w = record w {
  url = in_.url;
  scope = in_.scope;
  note = in_.note;
  active = in_.active;
  include_details = in_.include_details;
  updated_at = now;
  failure_count = if in_.active && not w.active then 0 else w.failure_count;
}

unfoldable pub update_webhook : String → WebhookInput → ℕ → Exec Queue Webhook
unfolding webhook_by_id
update_webhook id in_ now q =
    let q' : Queue = record q {
      webhooks = update_where (is_webhook id) (change_webhook in_ now) q.webhooks;
    } in
    (webhook_by_id id q', q')

-- The deliveries of a deleted webhook go by ON DELETE CASCADE.
abbrev keep_webhooks : (Webhook → Bool) → Queue → Queue
keep_webhooks gone q = record {
  webhooks = filter (λ w. not (gone w)) q.webhooks;
  deliveries =
      filter
        (λ d. elim (find (is_webhook d.webhook_id) q.webhooks) [
          | none ↦ true
          | some w ↦ not (gone w)
        ])
        q.deliveries;
}

unfoldable pub delete_webhook : String → Queue → Queue
delete_webhook id q = keep_webhooks (is_webhook id) q

unfoldable pub delete_webhooks_for : String → String → Queue → Queue
delete_webhooks_for kind owner_id q = keep_webhooks (owned_by kind owner_id) q

unfoldable pub queue_webhook_delivery : String → String → String → ℕ → Queue → Queue
queue_webhook_delivery id webhook_id payload now q = record q {
  deliveries =
      q.deliveries
      ++ record {
        id = id;
        webhook_id = webhook_id;
        payload = payload;
        attempts = 0;
        next_try_at = now;
        last_error = "";
      }
        ∷ [];
}

-- JOIN webhooks … WHERE next_try_at <= now AND active.
unfoldable pub join_due : List Webhook → ℕ → List QueuedDelivery → List WebhookDelivery
join_due webhooks now [] = []
join_due webhooks now (d ∷ ds) =
    let rest = join_due webhooks now ds in
    elim (find (is_webhook d.webhook_id) webhooks) [
      | none ↦ rest
      | some w ↦
          if leb d.next_try_at now && w.active
          then record {
            id = d.id;
            webhook_id = d.webhook_id;
            payload = d.payload;
            attempts = d.attempts;
            url = w.url;
            secret = w.secret;
          }
            ∷ rest
          else rest
    ]

unfoldable pub due_webhook_deliveries : ℕ → ℕ → Queue → List WebhookDelivery
unfolding order_by join_due
due_webhook_deliveries now limit q =
    take limit (join_due q.webhooks now (order_by (λ d. d.next_try_at) q.deliveries))

abbrev succeed : ℕ → ℕ → Webhook → Webhook
succeed status now w = record w {
  failure_count = 0;
  last_status = some status;
  last_attempt_at = some now;
}

unfoldable pub webhook_delivered : String → String → ℕ → ℕ → Queue → Queue
webhook_delivered delivery_id webhook_id status now q = record {
  webhooks = update_where (is_webhook webhook_id) (succeed status now) q.webhooks;
  deliveries = filter (λ d. not (is_delivery delivery_id d)) q.deliveries;
}

abbrev try_later : ℕ → String → QueuedDelivery → QueuedDelivery
try_later next_try reason d = record d {
  attempts = suc d.attempts;
  next_try_at = next_try;
  last_error = reason;
}

abbrev fail : ℕ → ℕ → Webhook → Webhook
fail status next_try w = record w {
  failure_count = suc w.failure_count;
  last_status = some status;
  last_attempt_at = some next_try;
}

abbrev switch_off : Webhook → Webhook
switch_off w = record w { active = false }

-- One transaction: a delivery that is gone rolls it back.
unfoldable pub webhook_failed : String → String → ℕ → String → ℕ → ℕ → Exec Queue (Unit {0})
webhook_failed delivery_id webhook_id status reason next_try max_attempts q =
    let deliveries =
      update_where (is_delivery delivery_id) (try_later next_try reason) q.deliveries in
    let webhooks = update_where (is_webhook webhook_id) (fail status next_try) q.webhooks in
    elim (find (is_delivery delivery_id) deliveries) [
      | none ↦ (err err_not_found, q)
      | some d ↦ (
        ok tt,
        if leb max_attempts d.attempts
            then record {
              webhooks = update_where (is_webhook webhook_id) switch_off webhooks;
              deliveries = filter (λ e. not (is_delivery delivery_id e)) deliveries;
            }
            else record { webhooks = webhooks; deliveries = deliveries },
      )
    ]
