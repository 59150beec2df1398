-- ===== src/Webhooks/Routing/Audience.antt =====
-- Which webhooks hear of a change.
use tinku.Prelude.{String, true, false, List, [], ◌∷◌, ◌++◌, ◌≡◌, str_eq, arith, filter, All}
use tinku.Prelude.Result.{Result, ok, err}
use tinku.Prelude.Exec.{Exec, continue, ◌>>=◌}
use tinku.Store.Model.{webhook_owner_organization, webhook_owner_gathering}
use tinku.Webhooks.Change.{Change, subject_event, subject_series}
use tinku.Webhooks.Queue.{Webhook, webhook_scope_structure}
use tinku.Webhooks.Routing.{Dispatcher, wants, owners_wanting, gathering_wanting, matching}

-- The webhook is switched on and, where it tracks structure only, the change is not about an event
-- or a series.
pub record Hears (change : Change) (hook : Webhook) : Type 0 where
  pub is_on : hook.active ≡ true
  pub in_scope :
      str_eq hook.scope webhook_scope_structure ≡ true
      → (str_eq change.subject subject_event ≡ false)
        × (str_eq change.subject subject_series ≡ false)

abbrev pub Reaches : {S : Type 0} → Change → Result (List Webhook) × S → Type 0
Reaches change (ok hooks, s) = All (Hears change) hooks
Reaches change (err e, s) = Unit

module _ (change : Change) where
  wants-Hears : (hook : Webhook) → wants change hook ≡ true → Hears change hook
  unfolding wants
  wants-Hears hook h = record { is_on = ground arith; in_scope = λ k. (ground arith, ground arith) }

  All-wanted : (hooks : List Webhook) → All (Hears change) (filter (wants change) hooks)
  unfolding filter
  All-wanted [] = tt
  All-wanted (h ∷ hs) = ground (arith, All-wanted hs, wants-Hears h)

  All-append :
      (xs ys : List Webhook)
      → All (Hears change) xs
      → All (Hears change) ys
      → All (Hears change) (xs ++ ys)
  All-append [] ys h k = k
  All-append (x ∷ xs) ys h k = (h.0, All-append xs ys h.1 k)

  module _ {S : Type 0} (d : Dispatcher S) where
    append_reached :
        (hooks : List Webhook) (r : Result (List Webhook) × S)
        → All (Hears change) hooks
        → Reaches change r
        → Reaches change (continue r.0 (λ rest s. (ok (hooks ++ rest), s)) r.1)
    append_reached hooks (ok rest, t) h k = All-append hooks rest h k
    append_reached hooks (err e, t) h k = tt

    add_owner :
        (r : Result (List Webhook)) (rest : Exec S (List Webhook)) (s : S)
        → Reaches change (rest s)
        → Reaches change (
            continue r
              (λ hooks. rest >>= λ more s. (ok (filter (wants change) hooks ++ more), s))
              s)
    unfolding ◌>>=◌
    add_owner (ok hooks) rest s h = append_reached _ (rest s) (All-wanted hooks) h
    add_owner (err e) rest s h = tt

    owners_wanting-Reaches :
        (ids : List String) (s : S) → Reaches change (owners_wanting d change ids s)
    unfolding owners_wanting ◌>>=◌
    owners_wanting-Reaches [] s = tt
    owners_wanting-Reaches (i ∷ ids) s =
        add_owner (d.list_webhooks webhook_owner_organization i s) (owners_wanting d change ids) s
          (owners_wanting-Reaches ids s)

    keep_wanted :
        (r : Result (List Webhook)) (s : S)
        → Reaches change (continue r (λ hooks t. (ok (filter (wants change) hooks), t)) s)
    keep_wanted (ok hooks) s = All-wanted hooks
    keep_wanted (err e) s = tt

    gathering_wanting-Reaches : (s : S) → Reaches change (gathering_wanting d change s)
    unfolding gathering_wanting ◌>>=◌
    gathering_wanting-Reaches s =
        ground
          (arith, keep_wanted (d.list_webhooks webhook_owner_gathering change.gathering_id s) s)

    both :
        (r : Result (List Webhook) × S)
        → Reaches change r
        → Reaches change (
            continue r.0
              (λ hooks. owners_wanting d change change.organization_ids >>= λ more s.
                (ok (hooks ++ more), s))
              r.1)
    unfolding ◌>>=◌
    both (ok hooks, t) h =
        append_reached hooks (owners_wanting d change change.organization_ids t) h
          (owners_wanting-Reaches change.organization_ids t)
    both (err e, t) h = tt

    -- Whatever the store lists: a webhook that is switched off hears of nothing, and one that
    -- tracks structure only hears of no event and no series.
    matching-Hears : (s : S) → Reaches change (matching d change s)
    unfolding matching ◌>>=◌
    matching-Hears s = both (gathering_wanting d change s) (gathering_wanting-Reaches s)
