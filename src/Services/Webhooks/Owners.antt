-- ===== src/Services/Webhooks/Owners.antt =====
-- Who may read, add, change and remove webhooks.
use tinku.Prelude.{String, true, false, ◌≡◌, ◌⊎◌, str_eq, arith, inl, inr, Bool-cases, refl}
use tinku.Prelude.Result.{Error, ok, err, Result-cases}
use tinku.Prelude.Exec.{◌>>=◌}
use tinku.Store.Model.{
  GatheringAccess, organization_role_owner, webhook_owner_organization, webhook_owner_gathering,
}
use tinku.Webhooks.Queue.{Webhook}
use tinku.Services.Perms.{Caller, authenticated}
use tinku.Services.Events.Lock.{Refused}
use tinku.Services.Webhooks.{
  WebhookService, CreateWebhookRequest, UpdateWebhookRequest, owner_kind_of, can_manage,
  list_webhooks, create_webhook, update_webhook, delete_webhook, find_webhook,
}

module _ {S : Type 0} (svc : WebhookService S) (c : Caller) (s : S) where
  -- The caller is signed in and an administrator, or by the store's answer an owner.
  abbrev pub Manages : String → String → Type 0
  Manages kind owner_id =
      (str_eq c.id "" ≡ false)
      × ((c.is_admin ≡ true)
          ⊎ ((str_eq kind webhook_owner_organization ≡ true)
              × (role : String) × (svc.store.organization_role_for owner_id c.id s
                  ≡ ok (role, true))
              × (str_eq role organization_role_owner ≡ true))
          ⊎ ((str_eq kind webhook_owner_gathering ≡ true)
              × (access : GatheringAccess) × (svc.store.gathering_access_for owner_id c.id s
                  ≡ ok access)
              × (access.is_owner ≡ true)))

  abbrev IsDenied : String → String → Type 0
  IsDenied kind owner_id =
      (can_manage svc c kind owner_id s ≡ (ok false, s))
      ⊎ ((e : Error) × (can_manage svc c kind owner_id s ≡ (err e, s)))

  -- `can_manage` says yes to those alone who manage the webhooks of the owner.
  Manages-cases :
      (kind owner_id : String)
      → str_eq c.id "" ≡ false
      → Manages kind owner_id ⊎ IsDenied kind owner_id
  unfolding can_manage ◌>>=◌
  Manages-cases kind owner_id n = elim (Bool-cases c.is_admin) [
    | inl a ↦ inl (n, inl a)
    | inr a ↦ elim (Bool-cases (str_eq kind webhook_owner_organization)) [
      | inl o ↦ elim (Result-cases (svc.store.organization_role_for owner_id c.id s)) [
        | inr (e, h) ↦ inr (inr (e, rw (a, o, h) refl))
        | inl (role, h) ↦ elim (Bool-cases role.1) [
          | inr k ↦ inr (inl (rw (a, o, h, k) refl))
          | inl y ↦ elim (Bool-cases (str_eq role.0 organization_role_owner)) [
            | inr k ↦ inr (inl (rw (a, o, h, y, k) refl))
            | inl k ↦ inl (n, inr (inl (o, role.0, rw⁻¹ y h, k)))
          ]
        ]
      ]
      | inr o ↦ elim (Bool-cases (str_eq kind webhook_owner_gathering)) [
        | inr g ↦ inr (inl (rw (a, o, g) refl))
        | inl g ↦ elim (Result-cases (svc.store.gathering_access_for owner_id c.id s)) [
          | inr (e, h) ↦ inr (inr (e, rw (a, o, g, h) refl))
          | inl (access, h) ↦ elim (Bool-cases access.is_owner) [
            | inr k ↦ inr (inl (rw (a, o, g, h, k) refl))
            | inl k ↦ inl (n, inr (inr (g, access, h, k)))
          ]
        ]
      ]
    ]
  ]

  list_denied :
      (kind owner_id : String)
      → IsDenied kind owner_id
      → Refused (list_webhooks svc c kind owner_id s) s
  unfolding list_webhooks owner_kind_of authenticated ◌>>=◌
  list_denied kind owner_id (inl h) = ground (arith, h)
  list_denied kind owner_id (inr h) = ground (arith, h.1)

  create_denied :
      (new : CreateWebhookRequest)
      → IsDenied new.owner_kind new.owner_id
      → Refused (create_webhook svc c new s) s
  unfolding create_webhook owner_kind_of authenticated ◌>>=◌
  create_denied new (inl h) = ground (arith, h)
  create_denied new (inr h) = ground (arith, h.1)

  update_denied :
      (req : UpdateWebhookRequest) (w : Webhook)
      → svc.store.webhook_by_id req.id s ≡ ok w
      → IsDenied w.owner_kind w.owner_id
      → Refused (update_webhook svc c req s) s
  unfolding update_webhook find_webhook authenticated ◌>>=◌
  update_denied req w e (inl h) = ground (arith, e, h)
  update_denied req w e (inr h) = ground (arith, e, h.1)

  delete_denied :
      (id : String) (w : Webhook)
      → svc.store.webhook_by_id id s ≡ ok w
      → IsDenied w.owner_kind w.owner_id
      → Refused (delete_webhook svc c id s) s
  unfolding delete_webhook find_webhook authenticated ◌>>=◌
  delete_denied id w e (inl h) = ground (arith, e, h)
  delete_denied id w e (inr h) = ground (arith, e, h.1)

  abbrev pub ManagesWebhook : String → Type 0
  ManagesWebhook id =
      (w : Webhook) × (svc.store.webhook_by_id id s ≡ ok w) × Manages w.owner_kind w.owner_id

  read_or_added_by :
      (kind owner_id : String) (new : CreateWebhookRequest)
      → (Manages kind owner_id ⊎ Refused (list_webhooks svc c kind owner_id s) s)
        × (Manages new.owner_kind new.owner_id ⊎ Refused (create_webhook svc c new s) s)
  unfolding list_webhooks create_webhook owner_kind_of authenticated ◌>>=◌
  read_or_added_by kind owner_id new = elim (Bool-cases (str_eq c.id "")) [
    | inl y ↦ (inr (ground (arith, y)), inr (ground (arith, y)))
    | inr n ↦ (
      elim (Manages-cases kind owner_id n) [
        | inl m ↦ inl m
        | inr d ↦ inr (list_denied kind owner_id d)
      ],
      elim (Manages-cases new.owner_kind new.owner_id n) [
        | inl m ↦ inl m
        | inr d ↦ inr (create_denied new d)
      ],
    )
  ]

  changed_or_removed_by :
      (req : UpdateWebhookRequest) (id : String)
      → (ManagesWebhook req.id ⊎ Refused (update_webhook svc c req s) s)
        × (ManagesWebhook id ⊎ Refused (delete_webhook svc c id s) s)
  unfolding update_webhook delete_webhook find_webhook authenticated ◌>>=◌
  changed_or_removed_by req id = elim (Bool-cases (str_eq c.id "")) [
    | inl y ↦ (inr (ground (arith, y)), inr (ground (arith, y)))
    | inr n ↦ (
      elim (Result-cases (svc.store.webhook_by_id req.id s)) [
        | inr (e, h) ↦ inr (ground (arith, h))
        | inl (w, h) ↦ elim (Manages-cases w.owner_kind w.owner_id n) [
          | inl m ↦ inl (w, h, m)
          | inr d ↦ inr (update_denied req w h d)
        ]
      ],
      elim (Result-cases (svc.store.webhook_by_id id s)) [
        | inr (e, h) ↦ inr (ground (arith, h))
        | inl (w, h) ↦ elim (Manages-cases w.owner_kind w.owner_id n) [
          | inl m ↦ inl (w, h, m)
          | inr d ↦ inr (delete_denied id w h d)
        ]
      ],
    )
  ]

  -- The webhooks of a gathering or an organization are read and added, the first one included, by one
  -- who is signed in and owns it or is an administrator, and a webhook is changed and removed by such
  -- a one for the owner that the store gives for it. Any other call, one for a webhook that is not
  -- there included, fails and changes nothing.
  pub webhooks_only_by :
      (kind owner_id : String) (new : CreateWebhookRequest) (req : UpdateWebhookRequest)
      (id : String)
      → (Manages kind owner_id ⊎ Refused (list_webhooks svc c kind owner_id s) s)
        × (Manages new.owner_kind new.owner_id ⊎ Refused (create_webhook svc c new s) s)
        × (ManagesWebhook req.id ⊎ Refused (update_webhook svc c req s) s)
        × (ManagesWebhook id ⊎ Refused (delete_webhook svc c id s) s)
  webhooks_only_by kind owner_id new req id =
      let first = read_or_added_by kind owner_id new in
      let later = changed_or_removed_by req id in (first.0, first.1, later.0, later.1)
