-- ===== src/Webhooks/Queue/Drain.antt =====
-- The delivery queue stays in bounds, and every recorded answer brings it nearer to empty.
use tinku.Prelude.{
  ℕ, String, Bool, List, [], ◌∷◌, ◌++◌, none, some, ◌≡◌, ◌≢◌, refl, inl, inr, ◌+◌, ◌-◌, ◌≤◌, ◌<◌,
  not, eq_iff, Option-cases, arith, find, filter, count, update_where, All,
}
use tinku.Prelude.Counts.{count-append, count-filter_le, count-update_where, update_where-none}
use tinku.Webhooks.Queue.{
  Queue, Webhook, QueuedDelivery, is_delivery, try_later, queue_webhook_delivery, webhook_delivered,
  webhook_failed, delete_webhook, delete_webhooks_for,
}

abbrev WaitsBelow : ℕ → QueuedDelivery → Type 0
WaitsBelow limit d = d.attempts < limit

-- Ids are the table's primary key, and no row has used up its attempts.
pub record IsWellFormed (limit : ℕ) (q : Queue) : Type 0 where
  pub one_row : (id : String) → count (is_delivery id) q.deliveries ≤ 1
  pub tries_left : All (WaitsBelow limit) q.deliveries

module _ (limit : ℕ) where
  All-filter :
      (p : QueuedDelivery → Bool) (ds : List QueuedDelivery)
      → All (WaitsBelow limit) ds
      → All (WaitsBelow limit) (filter p ds)
  unfolding filter
  All-filter p [] h = tt
  All-filter p (d ∷ ds) h = ground (arith, All-filter p ds h.1)

  All-append :
      (xs ys : List QueuedDelivery)
      → All (WaitsBelow limit) xs
      → All (WaitsBelow limit) ys
      → All (WaitsBelow limit) (xs ++ ys)
  All-append [] ys h k = k
  All-append (x ∷ xs) ys h k = (h.0, All-append xs ys h.1 k)

  module _ (id : String) (next_try : ℕ) (reason : String) where
    -- The row that failed is dropped with its last attempt …
    All-dropped :
        (ds : List QueuedDelivery)
        → All (WaitsBelow limit) ds
        → All (WaitsBelow limit) (
            filter
              (λ e. not (is_delivery id e))
              (update_where (is_delivery id) (try_later next_try reason) ds))
    unfolding filter update_where
    All-dropped [] h = tt
    All-dropped (d ∷ ds) h = ground (arith, All-dropped ds h.1)

    -- … and stays below the limit before.
    All-tried :
        (ds : List QueuedDelivery) (r : QueuedDelivery)
        → All (WaitsBelow limit) ds
        → count (is_delivery id) ds ≤ 1
        → find (is_delivery id) (update_where (is_delivery id) (try_later next_try reason) ds)
          ≡ some r
        → r.attempts < limit
        → All (WaitsBelow limit) (update_where (is_delivery id) (try_later next_try reason) ds)
    unfolding update_where find count
    All-tried [] r h c f b = tt
    All-tried (d ∷ ds) r h c f b = ground (
      arith,
      All-tried ds r h.1,
      h.0,
      h.1,
      update_where-none (is_delivery id) (try_later next_try reason) ds,
    )

  -- How many attempts are left to all rows together.
  unfoldable pub remaining : List QueuedDelivery → ℕ
  remaining [] = 0
  remaining (d ∷ ds) = (limit - d.attempts) + remaining ds

  remaining-filter_le :
      (p : QueuedDelivery → Bool) (ds : List QueuedDelivery)
      → remaining (filter p ds) ≤ remaining ds
  unfolding filter remaining
  remaining-filter_le p [] = omega arith
  remaining-filter_le p (d ∷ ds) = ground (arith, remaining-filter_le p ds)

  module _ (id : String) where
    remaining-dropped :
        (ds : List QueuedDelivery) (r : QueuedDelivery)
        → All (WaitsBelow limit) ds
        → find (is_delivery id) ds ≡ some r
        → remaining (filter (λ e. not (is_delivery id e)) ds) < remaining ds
    unfolding filter find remaining
    remaining-dropped [] r h f = ground arith
    remaining-dropped (d ∷ ds) r h f = ground (
      arith,
      h.0,
      remaining-dropped ds r h.1,
      remaining-filter_le (λ e. not (is_delivery id e)) ds,
    )

    remaining-tried_le :
        (next_try : ℕ) (reason : String) (ds : List QueuedDelivery)
        → remaining (update_where (is_delivery id) (try_later next_try reason) ds) ≤ remaining ds
    unfolding update_where remaining
    remaining-tried_le n t [] = omega arith
    remaining-tried_le n t (d ∷ ds) = ground (arith, remaining-tried_le n t ds)

    remaining-tried :
        (next_try : ℕ) (reason : String) (ds : List QueuedDelivery) (r : QueuedDelivery)
        → All (WaitsBelow limit) ds
        → find (is_delivery id) ds ≡ some r
        → remaining (update_where (is_delivery id) (try_later next_try reason) ds) < remaining ds
    unfolding update_where find remaining
    remaining-tried n t [] r h f = ground arith
    remaining-tried n t (d ∷ ds) r h f =
        ground (arith, h.0, remaining-tried n t ds r h.1, remaining-tried_le n t ds)

    find-tried :
        (next_try : ℕ) (reason : String) (ds : List QueuedDelivery) (r : QueuedDelivery)
        → find (is_delivery id) ds ≡ some r
        → find (is_delivery id) (update_where (is_delivery id) (try_later next_try reason) ds)
          ≢ none
    unfolding update_where find
    find-tried n t [] r f k = ground arith
    find-tried n t (d ∷ ds) r f k = ground (arith, find-tried n t ds r)

  -- An answer that is recorded for a queued row leaves fewer attempts than before.
  module _ (q : Queue) (id : String) (r : QueuedDelivery) (wf : IsWellFormed limit q) where
    pub webhook_failed-remaining :
        (webhook_id reason : String) (status next_try : ℕ)
        → find (is_delivery id) q.deliveries ≡ some r
        → remaining (webhook_failed id webhook_id status reason next_try limit q).1.deliveries
          < remaining q.deliveries
    unfolding webhook_failed
    webhook_failed-remaining webhook_id reason status next_try f =
        elim (Option-cases (
          find (is_delivery id)
            (update_where (is_delivery id) (try_later next_try reason) q.deliveries))) [
              | inl e ↦ ground (arith, find-tried id next_try reason q.deliveries r f e)
              | inr (t, e) ↦ ground (
                arith,
                e,
                remaining-tried id next_try reason q.deliveries r wf.tries_left f,
                remaining-filter_le (λ e. not (is_delivery id e))
                    (update_where (is_delivery id) (try_later next_try reason) q.deliveries),
              )
            ]

    pub webhook_delivered-remaining :
        (webhook_id : String) (status now : ℕ)
        → find (is_delivery id) q.deliveries ≡ some r
        → remaining (webhook_delivered id webhook_id status now q).deliveries
          < remaining q.deliveries
    unfolding webhook_delivered
    webhook_delivered-remaining webhook_id status now f =
        remaining-dropped id q.deliveries r wf.tries_left f

  after_filter :
      {ws : List Webhook} (p : QueuedDelivery → Bool) (q : Queue)
      → IsWellFormed limit q
      → IsWellFormed limit (record { webhooks = ws; deliveries = filter p q.deliveries })
  after_filter p q wf = record {
    one_row = λ i. omega (arith, wf.one_row i, count-filter_le (is_delivery i) p q.deliveries);
    tries_left = All-filter p q.deliveries wf.tries_left;
  }

  after_queueing :
      (i : String) (ds : List QueuedDelivery) (d : QueuedDelivery)
      → count (is_delivery i) ds ≤ 1
      → count (is_delivery d.id) ds ≡ 0
      → count (is_delivery i) (ds ++ d ∷ []) ≤ 1
  unfolding count
  after_queueing i ds d h fresh =
      ground (arith, count-append (is_delivery i) ds (d ∷ []), eq_iff d.id i)

  after_failure :
      (q : Queue) (id webhook_id reason : String) (status next_try : ℕ)
      → IsWellFormed limit q
      → IsWellFormed limit (webhook_failed id webhook_id status reason next_try limit q).1
  unfolding webhook_failed
  after_failure q id webhook_id reason status next_try wf = record {
    one_row = λ i. ground (
      arith,
      wf.one_row i,
      count-update_where (is_delivery i) (is_delivery id) (try_later next_try reason) (λ d. refl)
          q.deliveries,
      count-filter_le (is_delivery i) (λ e. not (is_delivery id e))
          (update_where (is_delivery id) (try_later next_try reason) q.deliveries),
    );
    tries_left =
        elim (Option-cases (
          find (is_delivery id)
            (update_where (is_delivery id) (try_later next_try reason) q.deliveries))) [
              | inl e ↦ ground (arith, e, wf.tries_left)
              | inr (r, e) ↦ ground (
                arith,
                e,
                All-dropped id next_try reason q.deliveries wf.tries_left,
                All-tried id next_try reason q.deliveries r wf.tries_left (wf.one_row id) e,
              )
            ];
  }

  -- The queue's two promises survive a new row under a new id, a success, a failure and the
  -- deletion of webhooks, as long as a row may be tried at all.
  pub queue_keeps_promises :
      (q : Queue) (delivery_id webhook_id payload reason : String) (status now : ℕ)
      → 0 < limit
      → IsWellFormed limit q
      → (count (is_delivery delivery_id) q.deliveries ≡ 0
          → IsWellFormed limit (queue_webhook_delivery delivery_id webhook_id payload now q))
        × IsWellFormed limit (webhook_delivered delivery_id webhook_id status now q)
        × IsWellFormed limit (webhook_failed delivery_id webhook_id status reason now limit q).1
        × IsWellFormed limit (delete_webhook webhook_id q)
        × IsWellFormed limit (delete_webhooks_for payload webhook_id q)
  unfolding queue_webhook_delivery webhook_delivered delete_webhook delete_webhooks_for
  queue_keeps_promises q id webhook_id payload reason status now pos wf = (
    λ fresh. record {
      one_row = λ i. after_queueing i q.deliveries _ (wf.one_row i) fresh;
      tries_left = All-append q.deliveries _ wf.tries_left (pos, tt);
    },
    after_filter _ q wf,
    after_failure q id webhook_id reason status now wf,
    after_filter _ q wf,
    after_filter _ q wf,
  )
