-- ===== src/Webhooks/Queue/Limit.antt =====
-- How many webhooks one owner may have.
use tinku.Prelude.{
  ℕ, String, Bool, [], ◌∷◌, ◌≡◌, refl, ◌≤◌, not, arith, eq_iff, filter, count, update_where,
}
use tinku.Prelude.Counts.{count-append, count-filter_le, count-update_where}
use tinku.Webhooks.Queue.{
  Queue, Webhook, WebhookInput, owned_by, is_webhook, change_webhook, create_webhook,
  update_webhook, delete_webhook, delete_webhooks_for, webhook_delivered, succeed, new_webhook,
}

-- No owner has more webhooks than the limit.
pub record IsWithin (limit : ℕ) (q : Queue) : Type 0 where
  pub per_owner : (kind owner_id : String) → count (owned_by kind owner_id) q.webhooks ≤ limit

module _ (limit : ℕ) (q : Queue) (h : IsWithin limit q) where
  after_create :
      (id : String) (now : ℕ) (w : Webhook) (kind owner_id : String)
      → count (owned_by kind owner_id) (create_webhook id now w limit q).1.webhooks ≤ limit
  unfolding create_webhook count
  after_create id now w kind owner_id = ground (
    arith,
    h.per_owner kind owner_id,
    count-append (owned_by kind owner_id) q.webhooks (new_webhook id now w ∷ []),
    eq_iff w.owner_kind kind,
    eq_iff w.owner_id owner_id,
  )

  after_update :
      (p : Webhook → Bool) (f : Webhook → Webhook) (kind owner_id : String)
      → ((w : Webhook) → owned_by kind owner_id (f w) ≡ owned_by kind owner_id w)
      → count (owned_by kind owner_id) (update_where p f q.webhooks) ≤ limit
  after_update p f kind owner_id same = omega (
    arith,
    h.per_owner kind owner_id,
    count-update_where (owned_by kind owner_id) p f same q.webhooks,
  )

  after_delete :
      (p : Webhook → Bool) (kind owner_id : String)
      → count (owned_by kind owner_id) (filter p q.webhooks) ≤ limit
  after_delete p kind owner_id =
      omega
        (arith, h.per_owner kind owner_id, count-filter_le (owned_by kind owner_id) p q.webhooks)

  -- The limit per owner survives every operation on the table, for any owner, whichever webhook is
  -- created, changed, deleted or reported on.
  webhooks_keep_limit :
      (id delivery_id reason kind owner_id : String) (w : Webhook) (in_ : WebhookInput)
      (status now : ℕ)
      → IsWithin limit (create_webhook id now w limit q).1
        × IsWithin limit (update_webhook id in_ now q).1
        × IsWithin limit (delete_webhook id q)
        × IsWithin limit (delete_webhooks_for kind owner_id q)
        × IsWithin limit (webhook_delivered delivery_id id status now q)
  unfolding update_webhook delete_webhook delete_webhooks_for webhook_delivered
  webhooks_keep_limit id delivery_id reason kind owner_id w in_ status now = (
    record { per_owner = λ k o. after_create id now w k o },
    record {
      per_owner = λ k o. after_update (is_webhook id) (change_webhook in_ now) k o (λ x. refl);
    },
    record { per_owner = λ k o. after_delete (λ x. not (is_webhook id x)) k o },
    record { per_owner = λ k o. after_delete (λ x. not (owned_by kind owner_id x)) k o },
    record { per_owner = λ k o. after_update (is_webhook id) (succeed status now) k o (λ x. refl) },
  )
