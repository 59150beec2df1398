-- ===== src/Services/Gatherings.antt =====
-- csilservices/gatherings.go: `GatheringService`. A request sees one clock reading, `now`.
pub mod Guards
use tinku.Prelude.{
  ℕ, String, Bool, true, false, List, [], ◌∷◌, Option, none, some, not, ◌&&◌, ◌||◌, str_eq,
  if◌then◌else◌, or_else, ltb, leb,
}
use tinku.Prelude.Result.{Error, Result, ok, err, app, err_not_found, err_limit_reached, internal}
use tinku.Prelude.Exec.{Exec, pure, raise, query, lift, guard, ◌>>=◌, ◌>>◌}
use tinku.Store.Model.{
  Gathering, OwnerRef, GatheringAccess, GatheringInput, owner_kind_user, owner_kind_organization,
  organization_role_owner, publish_unset, webhook_owner_gathering,
}
use tinku.Store.Interface.{Store}
use tinku.Webhooks.Change.{
  Change, action_created, action_updated, action_deleted, subject_gathering,
}
use tinku.Services.Errors.{invalid, forbidden, not_found}
use tinku.Services.Go.{GoLib}
use tinku.Services.Text.{unique_slug}
use tinku.Services.Perms.{Caller, ViewerContext, authenticated, gathering_viewer}
use tinku.Services.Convert.{WireGathering, to_gathering}
use tinku.Services.Publish.{publish_decision_for, publish_setting_of}
use tinku.Services.Validate.{search_text, OwnText, validate_organization_text}
use tinku.Services.Events.{or_not_found, owner_organization_ids}

pub record GatheringService (S : Type 0) : Type 0 where
  pub store : Store S
  pub go : GoLib
  pub origin_domain : String
  pub notify : Option (Change → S → S)
  -- store.NewID(), of which a creation asks for one
  pub new_id : String
  pub now : ℕ

pub record OwnerRefInput : Type 0 where
  pub kind : String
  pub id : String

pub record CreateGatheringRequest : Type 0 where
  pub name : String
  pub blurb : String
  pub description : String
  pub owner : Option OwnerRefInput

pub record UpdateGatheringRequest : Type 0 where
  pub id : String
  pub name : Option String
  pub blurb : Option String
  pub description : Option String
  pub publish_events : Option String

-- The display fields are joined in on read and ignored on write.
abbrev pub owner_ref : String → String → OwnerRef
owner_ref kind id = record {
  kind = kind;
  id = id;
  display_name = "";
  handle = "";
  origin_domain = "";
}

abbrev pub is_taken : {A : Type 0} → Result A → Bool
is_taken (err err_not_found) = false
is_taken (ok a) = true
is_taken (err e) = true

module _ {S : Type 0} (svc : GatheringService S) where
  open svc use {store, go, origin_domain, notify, new_id, now}

  unfoldable pub viewer_for : Caller → String → Exec S ViewerContext
  viewer_for c gathering_id = do
    access ← query (store.gathering_access_for gathering_id c.id)
    pure (gathering_viewer c access)

  unfoldable pub find_gathering : String → S → Result Gathering
  find_gathering id s =
      or_not_found (not_found "gathering" "no gathering with that id") (store.gathering_by_id id s)

  unfoldable pub read : Caller → String → Exec S WireGathering
  read c id = do
    gathering ← query (find_gathering id)
    viewer ← viewer_for c id
    publish ← query (publish_decision_for store gathering)
    pure (to_gathering go gathering viewer publish origin_domain)

  unfoldable pub load : Caller → String → Exec S (Gathering × ViewerContext)
  load c id = do
    gathering ← query (find_gathering id)
    viewer ← viewer_for c id
    pure (gathering, viewer)

  unfoldable pub notify_gathering : String → Gathering → List String → Exec S (Unit {0})
  notify_gathering action gathering organizations s = elim notify [
    | none ↦ (ok tt, s)
    | some dispatch ↦ (
      ok tt,
      dispatch
          (record {
            action = action;
            subject = subject_gathering;
            id = gathering.id;
            name = gathering.name;
            gathering_id = gathering.id;
            organization_ids = organizations;
            details = some (record {
              description = gathering.description;
              blurb = gathering.blurb;
              starts_at = none;
              ends_at = none;
              timezone = "";
              is_online = false;
              is_in_person = false;
              online_url = "";
              location = none;
              recurrence = none;
            });
            at = now;
          })
          s,
    )
  ]

  -- A reference to an organization needs an owner of it, or an administrator.
  unfoldable pub resolve_owner : Caller → OwnerRefInput → Exec S OwnerRef
  resolve_owner c in_ s =
      if str_eq in_.kind owner_kind_user
      then (do
        user ← query (λ t.
            or_not_found (not_found "user" "no user with that id") (store.user_by_id in_.id t))
        pure (owner_ref owner_kind_user in_.id))
          s
      else if str_eq in_.kind owner_kind_organization
      then (do
        role ← query (store.organization_role_for in_.id c.id)
        guard ((role.1 && str_eq role.0 organization_role_owner) || c.is_admin)
            (forbidden "only an owner of that organization can make it an owner here")
        organization ← query (λ t.
            or_not_found (not_found "organization" "no organization with that id")
              (store.organization_by_id in_.id t))
        pure (owner_ref owner_kind_organization in_.id))
          s
      else (err (invalid "owner" "an owner is a user or an organization"), s)

  -- The caller owns it, unless they name an owner.
  unfoldable pub first_owner : Caller → Option OwnerRefInput → Exec S OwnerRef
  first_owner c none s = (ok (owner_ref owner_kind_user c.id), s)
  first_owner c (some in_) s = resolve_owner c in_ s

  unfoldable pub slug_taken : String → S → Bool
  slug_taken slug s = is_taken (store.gathering_by_slug origin_domain slug s)

  unfoldable pub create_gathering : Caller → CreateGatheringRequest → Exec S WireGathering
  create_gathering caller req = do
    c ← authenticated caller "log in to start a gathering"
    text ← lift (validate_organization_text go req.name req.blurb req.description)
    owner ← first_owner c req.owner
    slug ← query (λ s. ok (unique_slug go text.name new_id (λ candidate. slug_taken candidate s)))
    gathering ←
        store.create_gathering
          (record {
            slug = slug;
            origin_domain = origin_domain;
            name = text.name;
            blurb = text.blurb;
            description = text.description;
            search_text = search_text go (text.name ∷ text.blurb ∷ text.description ∷ []);
            publish_events = publish_unset;
          })
          owner
    notify_gathering action_created gathering
        (if str_eq owner.kind owner_kind_organization then owner.id ∷ [] else [])
    read c gathering.id

  unfoldable pub organizations_owning : String → S → List String
  organizations_owning gathering_id s = elim (store.gathering_by_id gathering_id s) [
    | ok g ↦ owner_organization_ids g.owners
    | err e ↦ []
  ]

  -- The publish setting to write: the one asked for, where the instance lets a gathering override.
  unfoldable pub publish_change : Gathering → Option String → Exec S String
  publish_change gathering none s = (ok gathering.publish_events, s)
  publish_change gathering (some p) s =
      (do
        guard (publish_setting_of (some p)).1
            (invalid "publish_events" "a publish setting is unset, in or out")
        settings ← query store.instance_settings
        guard
            (settings.gathering_override_allowed
              || str_eq (publish_setting_of (some p)).0 publish_unset)
            (forbidden
              "this instance does not let a gathering change whether its events are published")
        pure (publish_setting_of (some p)).0)
        s

  unfoldable pub update_gathering : Caller → UpdateGatheringRequest → Exec S WireGathering
  update_gathering caller req = do
    c ← authenticated caller "log in to change a gathering"
    loaded ← load c req.id
    guard loaded.1.can_edit (forbidden "only an owner can change this gathering")
    text ← lift (
        validate_organization_text go (or_else req.name loaded.0.name)
          (or_else req.blurb loaded.0.blurb) (or_else req.description loaded.0.description))
    publish_events ← publish_change loaded.0 req.publish_events
    written ← store.update_gathering loaded.0.id (record {
      slug = loaded.0.slug;
      origin_domain = loaded.0.origin_domain;
      name = text.name;
      blurb = text.blurb;
      description = text.description;
      search_text = search_text go (text.name ∷ text.blurb ∷ text.description ∷ []);
      publish_events = publish_events;
    })
    updated ← query (store.gathering_by_id loaded.0.id)
    organizations ← query (λ s. ok (organizations_owning loaded.0.id s))
    notify_gathering action_updated updated organizations
    read c loaded.0.id

  unfoldable pub delete_gathering : Caller → String → Exec S (Unit {0})
  delete_gathering caller id = do
    c ← authenticated caller "log in to delete a gathering"
    loaded ← load c id
    guard loaded.1.can_delete
        (forbidden "only an owner or an administrator can delete this gathering")
    organizations ← query (λ s. ok (organizations_owning id s))
    store.delete_gathering id
    store.delete_webhooks_for webhook_owner_gathering id
    notify_gathering action_deleted loaded.0 organizations

  unfoldable pub join_gathering : Caller → String → Exec S WireGathering
  join_gathering caller id = do
    c ← authenticated caller "log in to join a gathering"
    loaded ← load c id
    store.join_gathering id c.id
    read c id

  unfoldable pub leave_gathering : Caller → String → Exec S WireGathering
  leave_gathering caller id = do
    c ← authenticated caller "log in to leave a gathering"
    loaded ← load c id
    store.leave_gathering id c.id
    read c id

  unfoldable pub add_gathering_owner : Caller → String → OwnerRefInput → Exec S WireGathering
  add_gathering_owner caller id in_ = do
    c ← authenticated caller "log in to change a gathering's owners"
    loaded ← load c id
    guard loaded.1.can_manage_members (forbidden "only an owner can add an owner")
    owner ← resolve_owner c in_
    store.add_gathering_owner id owner
    read c id

  unfoldable pub remove_gathering_owner : Caller → String → OwnerRefInput → Exec S WireGathering
  remove_gathering_owner caller id in_ = do
    c ← authenticated caller "log in to change a gathering's owners"
    loaded ← load c id
    guard loaded.1.can_manage_members (forbidden "only an owner can remove an owner")
    count ← query (store.count_gathering_owners id)
    guard (not (leb count 1)) (invalid "owner" "a gathering must keep at least one owner")
    guard (str_eq in_.kind owner_kind_user || str_eq in_.kind owner_kind_organization)
        (invalid "owner" "an owner is a user or an organization")
    store.remove_gathering_owner id (owner_ref in_.kind in_.id)
    read c id
