-- ===== src/Services/Organizations.antt =====
-- csilservices/organizations.go: `OrganizationService`. A request sees one clock reading, `now`.
pub mod Roster
use tinku.Prelude.{
  ℕ, String, Bool, true, false, List, [], ◌∷◌, Option, none, some, not, ◌&&◌, ◌||◌, str_eq,
  if◌then◌else◌, or_else, leb,
}
use tinku.Prelude.Result.{Error, Result, ok, err, app, err_not_found, err_limit_reached, internal}
use tinku.Prelude.Exec.{Exec, pure, raise, query, lift, guard, ◌>>=◌, ◌>>◌}
use tinku.Store.Model.{
  Organization, OrganizationMember, OrganizationInput, organization_role_owner,
  organization_role_member, publish_unset, webhook_owner_organization, first_page,
}
use tinku.Store.Interface.{Store}
use tinku.Webhooks.Change.{Change, action_created, action_updated, subject_organization}
use tinku.Services.Errors.{invalid, forbidden, not_found}
use tinku.Services.Go.{GoLib}
use tinku.Services.Text.{unique_slug}
use tinku.Services.Perms.{Caller, ViewerContext, authenticated, organization_viewer}
use tinku.Services.Convert.{WireOrganization, to_organization}
use tinku.Services.Publish.{publish_setting_of}
use tinku.Services.Validate.{search_text, OwnText, validate_organization_text}
use tinku.Services.Events.{or_not_found}

pub record OrganizationService (S : Type 0) : Type 0 where
  pub store : Store S
  pub go : GoLib
  pub origin_domain : String
  pub notify : Option (Change → S → S)
  -- store.NewID(), of which a creation asks for one
  pub new_id : String
  pub now : ℕ

pub record CreateOrganizationRequest : Type 0 where
  pub name : String
  pub blurb : String
  pub description : String

pub record UpdateOrganizationRequest : Type 0 where
  pub id : String
  pub name : Option String
  pub blurb : Option String
  pub description : Option String
  pub publish_events : Option String

pub record OrganizationMemberList : Type 0 where
  pub organization_id : String
  pub members : List OrganizationMember
  pub total : ℕ

abbrev pub is_taken : {A : Type 0} → Result A → Bool
is_taken (err err_not_found) = false
is_taken (ok a) = true
is_taken (err e) = true

module _ {S : Type 0} (svc : OrganizationService S) where
  open svc use {store, go, origin_domain, notify, new_id, now}

  unfoldable pub viewer_for : Caller → String → Exec S ViewerContext
  viewer_for c organization_id s =
      if str_eq c.id ""
      then (ok (organization_viewer c "" false), s)
      else (do
        role ← query (store.organization_role_for organization_id c.id)
        pure (organization_viewer c role.0 role.1))
          s

  unfoldable pub find_organization : String → S → Result Organization
  find_organization id s =
      or_not_found (not_found "organization" "no organization with that id")
        (store.organization_by_id id s)

  unfoldable pub get_organization : Caller → String → Exec S WireOrganization
  get_organization c id = do
    organization ← query (find_organization id)
    viewer ← viewer_for c organization.id
    pure (to_organization go organization viewer origin_domain)

  unfoldable pub notify_organization : String → Organization → Exec S (Unit {0})
  notify_organization action organization s = elim notify [
    | none ↦ (ok tt, s)
    | some dispatch ↦ (
      ok tt,
      dispatch
          (record {
            action = action;
            subject = subject_organization;
            id = organization.id;
            name = organization.name;
            gathering_id = "";
            organization_ids = organization.id ∷ [];
            details = some (record {
              description = organization.description;
              blurb = organization.blurb;
              starts_at = none;
              ends_at = none;
              timezone = "";
              is_online = false;
              is_in_person = false;
              online_url = "";
              location = none;
              recurrence = none;
            });
            at = now;
          })
          s,
    )
  ]

  -- A failed lookup counts as taken.
  unfoldable pub slug_taken : String → S → Bool
  slug_taken slug s = is_taken (store.organization_by_slug origin_domain slug s)

  unfoldable pub create_organization : Caller → CreateOrganizationRequest → Exec S WireOrganization
  create_organization caller req = do
    c ← authenticated caller "log in to start an organization"
    text ← lift (validate_organization_text go req.name req.blurb req.description)
    slug ← query (λ s. ok (unique_slug go text.name new_id (λ candidate. slug_taken candidate s)))
    organization ←
        store.create_organization
          (record {
            slug = slug;
            origin_domain = origin_domain;
            name = text.name;
            blurb = text.blurb;
            description = text.description;
            search_text = search_text go (text.name ∷ text.blurb ∷ text.description ∷ []);
            publish_events = publish_unset;
          })
          c.id
    notify_organization action_created organization
    pure (
        to_organization go organization (organization_viewer c organization_role_owner true)
          origin_domain)

  -- The publish setting to write: the one asked for, where the instance lets an organization
  -- override.
  unfoldable pub publish_change : Organization → Option String → Exec S String
  publish_change organization none s = (ok organization.publish_events, s)
  publish_change organization (some p) s =
      (do
        guard (publish_setting_of (some p)).1
            (invalid "publish_events" "a publish setting is unset, in or out")
        settings ← query store.instance_settings
        guard
            (settings.organization_override_allowed
              || str_eq (publish_setting_of (some p)).0 publish_unset)
            (forbidden
              "this instance does not let an organization change whether its events are published")
        pure (publish_setting_of (some p)).0)
        s

  unfoldable pub update_organization : Caller → UpdateOrganizationRequest → Exec S WireOrganization
  update_organization caller req = do
    c ← authenticated caller "log in to change an organization"
    organization ← query (find_organization req.id)
    viewer ← viewer_for c organization.id
    guard viewer.can_edit (forbidden "only an owner can change this organization")
    text ← lift (
        validate_organization_text go (or_else req.name organization.name)
          (or_else req.blurb organization.blurb) (or_else req.description organization.description))
    publish_events ← publish_change organization req.publish_events
    updated ← store.update_organization organization.id (record {
      slug = organization.slug;
      origin_domain = organization.origin_domain;
      name = text.name;
      blurb = text.blurb;
      description = text.description;
      search_text = search_text go (text.name ∷ text.blurb ∷ text.description ∷ []);
      publish_events = publish_events;
    })
    notify_organization action_updated updated
    pure (to_organization go updated viewer origin_domain)

  unfoldable pub delete_organization : Caller → String → Exec S (Unit {0})
  delete_organization caller id = do
    c ← authenticated caller "log in to delete an organization"
    guard c.is_admin (forbidden "only an administrator can delete an organization")
    organization ← query (find_organization id)
    store.delete_organization id
    store.delete_webhooks_for webhook_owner_organization organization.id

  unfoldable pub member_list : String → Exec S OrganizationMemberList
  member_list organization_id = do
    page ← query (store.list_organization_members organization_id first_page)
    pure (record { organization_id = organization_id; members = page.0; total = page.1 })

  -- Only where the change takes an owner off.
  unfoldable pub keep_an_owner : String → Bool → Exec S (Unit {0})
  keep_an_owner organization_id is_owner s =
      if not is_owner
      then (ok tt, s)
      else (do
        organization ← query (store.organization_by_id organization_id)
        guard (not (leb organization.owner_count 1))
            (invalid "user_id" "an organization must keep at least one owner"))
          s

  unfoldable pub refuse_last_owner_change : String → String → Exec S (Unit {0})
  refuse_last_owner_change organization_id user_id = do
    role ← query (store.organization_role_for organization_id user_id)
    keep_an_owner organization_id (role.1 && str_eq role.0 organization_role_owner)

  -- What `SetOrganizationMember` asks before it writes a role: a demotion may not take the last owner.
  unfoldable pub check_demotion : String → String → String → Exec S (Unit {0})
  check_demotion organization_id user_id role s =
      if str_eq role organization_role_member
      then refuse_last_owner_change organization_id user_id s
      else (ok tt, s)

  unfoldable pub set_organization_member :
      Caller → String → String → String → Exec S OrganizationMemberList
  set_organization_member caller organization_id user_id role = do
    c ← authenticated caller "log in to change an organization's roster"
    viewer ← viewer_for c organization_id
    guard viewer.can_manage_members
        (forbidden "only an owner can change this organization's roster")
    guard (str_eq role organization_role_owner || str_eq role organization_role_member)
        (invalid "role" "an organization role is owner or member")
    user ←
        query
          (λ t. or_not_found (not_found "user" "no user with that id") (store.user_by_id user_id t))
    check_demotion organization_id user_id role
    store.set_organization_member organization_id user_id role
    member_list organization_id

  unfoldable pub remove_organization_member :
      Caller → String → String → Exec S OrganizationMemberList
  remove_organization_member caller organization_id user_id = do
    c ← authenticated caller "log in to change an organization's roster"
    viewer ← viewer_for c organization_id
    guard (viewer.can_manage_members || str_eq user_id c.id)
        (forbidden "only an owner can remove somebody else")
    refuse_last_owner_change organization_id user_id
    store.remove_organization_member organization_id user_id
    member_list organization_id
