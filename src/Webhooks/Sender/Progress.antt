-- ===== src/Webhooks/Sender/Progress.antt =====
-- What one post does to the queue.
use tinku.Prelude.{some, ◌≡◌, ◌<◌, ◌+◌, Option-cases, inl, inr, arith, find}
use tinku.Webhooks.Queue.{Queue, QueuedDelivery, WebhookDelivery, is_delivery}
use tinku.Webhooks.Queue.Drain.{
  IsWellFormed, remaining, webhook_failed-remaining, webhook_delivered-remaining,
}
use tinku.Webhooks.Sender.{Sender, post, deliver, backoff, max_attempts}

-- A post of a queued delivery, whatever comes of it, uses up an attempt: the number of attempts that
-- are left to the whole queue goes down, in a queue whose ids are distinct and whose rows are all
-- below the limit.
pub deliver_progress :
    (s : Sender) (d : WebhookDelivery) (q : Queue) (r : QueuedDelivery)
    → IsWellFormed max_attempts q
    → find (is_delivery d.id) q.deliveries ≡ some r
    → remaining max_attempts (deliver s d q).deliveries < remaining max_attempts q.deliveries
unfolding deliver
deliver_progress s d q r wf f = elim (Option-cases (post s d).1) [
  | inl e ↦ ground (
    arith,
    e,
    webhook_delivered-remaining max_attempts q d.id r wf d.webhook_id (post s d).0 s.now f,
  )
  | inr (reason, e) ↦ ground (
    arith,
    e,
    webhook_failed-remaining max_attempts q d.id r wf d.webhook_id reason (post s d).0
        (s.now + backoff d.attempts) f,
  )
]
