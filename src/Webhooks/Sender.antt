-- ===== src/Webhooks/Sender.antt =====
-- webhooks/sender.go: posts what is due and records how it went. A pass sees one clock reading.
pub mod Backoff
pub mod Progress
use tinku.Prelude.{
  ℕ, String, Bool, true, false, List, [], ◌∷◌, Option, none, some, ◌+◌, ◌*◌, ◌^◌, ◌%◌, ◌⊎◌, inl,
  inr, ◌&&◌, ◌||◌, if◌then◌else◌, ltb,
}
use tinku.Webhooks.Queue.{
  Queue, WebhookDelivery, due_webhook_deliveries, webhook_delivered, webhook_failed,
}

abbrev pub max_attempts : ℕ
max_attempts = 6

abbrev pub batch_size : ℕ
batch_size = 50

-- time.Minute, in nanoseconds.
abbrev pub minute : ℕ
minute = 60000000000

pub record PostRequest : Type 0 where
  pub url : String
  pub body : String
  pub user_agent : String
  pub delivery : String
  pub signature : String

pub record Sender : Type 0 where
  -- What is not this code: the HTTP client (no answer and why, or a status), HMAC-SHA256, and the
  -- text of the error for a status.
  pub client_do : PostRequest → String ⊎ ℕ
  pub sign : String → String → String
  pub answered : ℕ → String
  pub user_agent : String
  pub now : ℕ
  -- Whether the context has ended when the pass comes to a delivery.
  pub cancelled : WebhookDelivery → Bool

-- `time.Duration(1<<uint(d.Attempts)) * time.Minute` on 64 bits, at most 32 minutes. From 2 ^ 63 on
-- the number is negative in Go, and so not larger than the limit.
unfoldable pub backoff : ℕ → ℕ
backoff attempts =
    let d : ℕ = ((2 ^ attempts) % 2 ^ 64 * minute) % 2 ^ 64 in
    if ltb (32 * minute) d && ltb d (2 ^ 63) then 32 * minute else d

-- The status, and why it counts as a failure when it does.
unfoldable pub post : Sender → WebhookDelivery → ℕ × Option String
post s d =
    elim (s.client_do (record {
      url = d.url;
      body = d.payload;
      user_agent = s.user_agent;
      delivery = d.id;
      signature = s.sign d.secret d.payload;
    })) [
      | inl reason ↦ (0, some reason)
      | inr status ↦
          (status, if ltb status 200 || ltb 299 status then some (s.answered status) else none)
    ]

unfoldable pub deliver : Sender → WebhookDelivery → Queue → Queue
deliver s d q = elim (post s d).1 [
  | none ↦ webhook_delivered d.id d.webhook_id (post s d).0 s.now q
  | some reason ↦
      (webhook_failed d.id d.webhook_id (post s d).0 reason (s.now + backoff d.attempts)
        max_attempts q).1
]

unfoldable pub deliver_all : Sender → List WebhookDelivery → Queue → Queue
deliver_all s [] q = q
deliver_all s (d ∷ ds) q = if s.cancelled d then q else deliver_all s ds (deliver s d q)

unfoldable pub drain : Sender → Queue → Queue
drain s q = deliver_all s (due_webhook_deliveries s.now batch_size q) q
