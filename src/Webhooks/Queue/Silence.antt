-- ===== src/Webhooks/Queue/Silence.antt =====
-- What happens to a webhook whose delivery has failed for the last time.
use tinku.Prelude.{
  ℕ, suc, zero, String, false, List, [], ◌∷◌, some, ◌≡◌, ◌≤◌, str_eq, eq_iff, arith, find,
  update_where, take, All, Option-cases, inl, inr,
}
use tinku.Webhooks.Queue.{
  Queue, Webhook, QueuedDelivery, WebhookDelivery, is_webhook, is_delivery, try_later, switch_off,
  webhook_failed, join_due, due_webhook_deliveries, fail,
}

module _ (webhook_id : String) where
  abbrev pub IsForOther : WebhookDelivery → Type 0
  IsForOther d = str_eq d.webhook_id webhook_id ≡ false

  switched_off :
      (ws : List Webhook) (w : Webhook)
      → find (is_webhook webhook_id) (update_where (is_webhook webhook_id) switch_off ws) ≡ some w
      → w.active ≡ false
  unfolding find update_where
  switched_off [] w h = ground arith
  switched_off (v ∷ ws) w h = ground (arith, switched_off ws w)

  join_due-off :
      (ws : List Webhook) (now : ℕ) (ds : List QueuedDelivery)
      → ((w : Webhook) → find (is_webhook webhook_id) ws ≡ some w → w.active ≡ false)
      → All IsForOther (join_due ws now ds)
  unfolding join_due
  join_due-off ws now [] h = tt
  join_due-off ws now (d ∷ ds) h = elim (Option-cases (find (is_webhook d.webhook_id) ws)) [
    | inl e ↦ ground (arith, e, join_due-off ws now ds h)
    | inr (w, e) ↦ ground (arith, e, eq_iff d.webhook_id webhook_id, join_due-off ws now ds h, h w)
  ]

  All-take : (n : ℕ) (ds : List WebhookDelivery) → All IsForOther ds → All IsForOther (take n ds)
  All-take zero ds h = tt
  All-take (suc n) [] h = tt
  All-take (suc n) (d ∷ ds) h = (h.0, All-take n ds h.1)

  find-tried :
      (id : String) (next_try : ℕ) (reason : String) (ds : List QueuedDelivery) (r : QueuedDelivery)
      → find (is_delivery id) ds ≡ some r
      → find (is_delivery id) (update_where (is_delivery id) (try_later next_try reason) ds)
        ≡ some (try_later next_try reason r)
  unfolding find update_where
  find-tried id n t [] r h = ground arith
  find-tried id n t (d ∷ ds) r h = ground (arith, find-tried id n t ds r)

  off_when_exhausted :
      (q : Queue) (id reason : String) (r : QueuedDelivery) (status next_try max_attempts : ℕ)
      → find (is_delivery id) q.deliveries ≡ some r
      → max_attempts ≤ suc r.attempts
      → (w : Webhook)
      → find
          (is_webhook webhook_id)
          (webhook_failed id webhook_id status reason next_try max_attempts q).1.webhooks
        ≡ some w
      → w.active ≡ false
  unfolding webhook_failed
  off_when_exhausted q id reason r status next_try max_attempts f h w k = ground (
    arith,
    find-tried id next_try reason q.deliveries r f,
    switched_off (update_where (is_webhook webhook_id) (fail status next_try) q.webhooks) w,
  )

  -- A failure that uses up the last attempt drops the delivery and switches its webhook off: none of
  -- that webhook's deliveries is due any more, at whatever time and however many are asked for.
  exhausted_is_silent :
      (q : Queue) (id reason : String) (r : QueuedDelivery) (status next_try max_attempts : ℕ)
      → find (is_delivery id) q.deliveries ≡ some r
      → max_attempts ≤ suc r.attempts
      → (now limit : ℕ)
      → All IsForOther (
          due_webhook_deliveries now limit
            (webhook_failed id webhook_id status reason next_try max_attempts q).1)
  unfolding due_webhook_deliveries
  exhausted_is_silent q id reason r status next_try max_attempts f h now limit =
      All-take limit _
        (join_due-off _ now _ (off_when_exhausted q id reason r status next_try max_attempts f h))
