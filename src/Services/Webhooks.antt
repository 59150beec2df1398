-- ===== src/Services/Webhooks.antt =====
-- csilservices/webhooks.go: `WebhookService`. A request sees one clock reading, `now`.
pub mod Owners
use tinku.Prelude.{
  ℕ, String, Bool, true, false, List, map, Option, none, some, not, ◌&&◌, ◌||◌, str_eq,
  if◌then◌else◌, or_else,
}
use tinku.Prelude.Result.{Error, Result, ok, err, app, err_not_found, err_limit_reached, internal}
use tinku.Prelude.Exec.{Exec, pure, query, lift, guard, ◌>>=◌, ◌>>◌}
use tinku.Store.Model.{organization_role_owner, webhook_owner_organization, webhook_owner_gathering}
use tinku.Store.Interface.{Store}
use tinku.Webhooks.Queue.{Webhook, WebhookInput, webhook_scope_all, webhook_scope_structure}
use tinku.Services.Errors.{invalid, forbidden, not_found}
use tinku.Services.Go.{GoLib}
use tinku.Services.Perms.{Caller, authenticated}
use tinku.Services.Events.{or_not_found}

abbrev pub webhooks_per_owner : ℕ
webhooks_per_owner = 5

pub record WebhookService (S : Type 0) : Type 0 where
  pub store : Store S
  pub go : GoLib
  -- Cfg.DevAuthAllowed()
  pub dev_auth_allowed : Bool
  -- 32 random bytes in hex, where the system source gives them.
  pub new_secret : Result String
  pub now : ℕ

pub record CreateWebhookRequest : Type 0 where
  pub owner_kind : String
  pub owner_id : String
  pub url : String
  pub scope : String
  pub note : String
  pub include_details : Bool

pub record UpdateWebhookRequest : Type 0 where
  pub id : String
  pub url : Option String
  pub scope : Option String
  pub note : Option String
  pub active : Option Bool
  pub include_details : Option Bool

-- `csil.Webhook`: the row without its secret.
pub record WireWebhook : Type 0 where
  pub id : String
  pub owner_kind : String
  pub owner_id : String
  pub url : String
  pub scope : String
  pub note : String
  pub active : Bool
  pub include_details : Bool
  pub failure_count : ℕ
  pub last_status : Option ℕ
  pub last_attempt_at : Option ℕ
  pub created_at : ℕ
  pub updated_at : ℕ

pub record WebhookList : Type 0 where
  pub webhooks : List WireWebhook
  pub limit : ℕ

unfoldable pub to_webhook : Webhook → WireWebhook
to_webhook w = record {
  id = w.id;
  owner_kind = w.owner_kind;
  owner_id = w.owner_id;
  url = w.url;
  scope = w.scope;
  note = w.note;
  active = w.active;
  include_details = w.include_details;
  failure_count = w.failure_count;
  last_status = w.last_status;
  last_attempt_at = w.last_attempt_at;
  created_at = w.created_at;
  updated_at = w.updated_at;
}

unfoldable pub owner_kind_of : String → Result String
owner_kind_of kind =
    if str_eq kind webhook_owner_organization || str_eq kind webhook_owner_gathering
    then ok kind
    else err (invalid "owner_kind" "a webhook belongs to an organization or a gathering")

unfoldable pub scope_of : String → Result String
scope_of scope =
    if str_eq scope webhook_scope_all || str_eq scope webhook_scope_structure
    then ok scope
    else err (invalid "scope" "a scope is all or structure_only")

abbrev pub or_limit_reached : {A : Type 0} → Error → Result A → Result A
or_limit_reached e (ok a) = ok a
or_limit_reached e (err err_limit_reached) = err e
or_limit_reached e (err err_not_found) = err err_not_found
or_limit_reached e (err (app a)) = err (app a)
or_limit_reached e (err (internal m)) = err (internal m)

-- A store call whose failure is told to the caller in its own words.
abbrev told : {S A : Type 0} → (Result A → Result A) → Result A × S → Result A × S
told f r = (f r.0, r.1)

module _ {S : Type 0} (svc : WebhookService S) where
  open svc use {store, go, dev_auth_allowed, new_secret, now}

  unfoldable pub can_manage : Caller → String → String → Exec S Bool
  can_manage c kind owner_id s =
      if c.is_admin
      then (ok true, s)
      else if str_eq kind webhook_owner_organization
      then (do
        role ← query (store.organization_role_for owner_id c.id)
        pure (role.1 && str_eq role.0 organization_role_owner))
          s
      else if str_eq kind webhook_owner_gathering
      then (do access ← query (store.gathering_access_for owner_id c.id); pure access.is_owner) s
      else (ok false, s)

  -- HTTPS alone outside a development instance.
  unfoldable pub check_url : String → Result (Unit {0})
  check_url raw = elim (go.parse_url (go.trim_space raw)) [
    | none ↦ err (invalid "url" "that is not a URL this server can post to")
    | some parsed ↦
        if str_eq parsed.1 ""
        then err (invalid "url" "that is not a URL this server can post to")
        else if str_eq parsed.0 "https" || (str_eq parsed.0 "http" && dev_auth_allowed)
        then ok tt
        else err (invalid "url" "a webhook URL must be https")
  ]

  unfoldable pub list_webhooks : Caller → String → String → Exec S WebhookList
  list_webhooks caller owner_kind owner_id = do
    c ← authenticated caller "log in to read webhooks"
    kind ← lift (owner_kind_of owner_kind)
    allowed ← can_manage c kind owner_id
    guard allowed (forbidden "only an owner can read the webhooks here")
    hooks ← query (store.list_webhooks kind owner_id)
    pure (record { webhooks = map to_webhook hooks; limit = webhooks_per_owner })

  -- The level has to exist.
  unfoldable pub check_level : String → String → Exec S (Unit {0})
  check_level kind owner_id s =
      if str_eq kind webhook_owner_organization
      then (do
        found ← query (λ t.
            or_not_found (not_found "organization" "no organization with that id")
              (store.organization_by_id owner_id t))
        pure tt)
          s
      else (do
        found ← query (λ t.
            or_not_found (not_found "gathering" "no gathering with that id")
              (store.gathering_by_id owner_id t))
        pure tt)
          s

  -- The webhook and, this once, its secret.
  unfoldable pub create_webhook : Caller → CreateWebhookRequest → Exec S (WireWebhook × String)
  create_webhook caller req = do
    c ← authenticated caller "log in to add a webhook"
    kind ← lift (owner_kind_of req.owner_kind)
    scope ← lift (scope_of req.scope)
    allowed ← can_manage c kind req.owner_id
    guard allowed (forbidden "only an owner can add a webhook here")
    fine ← lift (check_url req.url)
    check_level kind req.owner_id
    secret ← lift new_secret
    created ← (λ s.
        told
          (or_limit_reached
            (invalid "url" "this level already has as many webhooks as it may have"))
          (store.create_webhook
            (record {
              id = "";
              owner_kind = kind;
              owner_id = req.owner_id;
              url = go.trim_space req.url;
              secret = secret;
              scope = scope;
              note = req.note;
              active = false;
              include_details = req.include_details;
              failure_count = 0;
              last_status = none;
              last_attempt_at = none;
              created_at = 0;
              updated_at = 0;
            })
            webhooks_per_owner s))
    pure (to_webhook created, secret)

  unfoldable pub find_webhook : String → S → Result Webhook
  find_webhook id s =
      or_not_found (not_found "webhook" "no webhook with that id") (store.webhook_by_id id s)

  unfoldable pub new_url : Option String → String → Result String
  unfolding check_url
  new_url none url = ok url
  new_url (some raw) url = elim (check_url raw) [ ok fine ↦ ok (go.trim_space raw) | err e ↦ err e ]

  unfoldable pub new_scope : Option String → String → Result String
  new_scope none scope = ok scope
  new_scope (some s) scope = scope_of s

  unfoldable pub update_webhook : Caller → UpdateWebhookRequest → Exec S WireWebhook
  update_webhook caller req = do
    c ← authenticated caller "log in to change a webhook"
    current ← query (find_webhook req.id)
    allowed ← can_manage c current.owner_kind current.owner_id
    guard allowed (forbidden "only an owner can change this webhook")
    url ← lift (new_url req.url current.url)
    scope ← lift (new_scope req.scope current.scope)
    updated ←
        store.update_webhook current.id
          (record {
            url = url;
            scope = scope;
            note = or_else req.note current.note;
            active = or_else req.active current.active;
            include_details = or_else req.include_details current.include_details;
          })
          now
    pure (to_webhook updated)

  unfoldable pub delete_webhook : Caller → String → Exec S (Unit {0})
  delete_webhook caller id = do
    c ← authenticated caller "log in to remove a webhook"
    current ← query (find_webhook id)
    allowed ← can_manage c current.owner_kind current.owner_id
    guard allowed (forbidden "only an owner can remove this webhook")
    store.delete_webhook current.id
