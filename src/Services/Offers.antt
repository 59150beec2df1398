-- ===== src/Services/Offers.antt =====
-- csilservices/offers.go: moving a gathering under an organization, by an offer that the other side
-- answers or by an administrator's adoption.
pub mod Answers
use tinku.Prelude.{
  ℕ, String, Bool, true, false, List, [], ◌∷◌, not, ◌&&◌, ◌||◌, str_eq, if◌then◌else◌, any,
}
use tinku.Prelude.Result.{Error, Result, ok, err}
use tinku.Prelude.Exec.{Exec, pure, query, guard, ◌>>=◌, ◌>>◌}
use tinku.Store.Model.{
  GatheringOffer, OwnerRef, owner_kind_user, owner_kind_organization, organization_role_owner,
  organization_role_member, offer_pending, offer_accepted, offer_declined, offer_withdrawn,
}
use tinku.Services.Errors.{invalid, forbidden, not_found}
use tinku.Services.Perms.{Caller, ViewerContext, authenticated}
use tinku.Services.Convert.{WireOffer, WireGathering, to_gathering_offer}
use tinku.Services.Events.{or_not_found}
use tinku.Services.Gatherings.{GatheringService, owner_ref, load, read}

unfoldable pub offer_viewer : Caller → GatheringOffer → Bool → Bool → ViewerContext
offer_viewer c o owns_organization owns_gathering =
    let pending : Bool = str_eq o.status offer_pending in
    record {
      is_admin = c.is_admin;
      is_owner = owns_gathering;
      is_organizer = false;
      is_presenter = false;
      is_member = owns_organization || owns_gathering;
      has_joined = false;
      can_edit = pending && owns_organization;
      can_delete = pending && owns_gathering;
      can_manage_members = false;
    }

-- `if onRoster { continue }`
abbrev unless_enrolled :
    {S : Type 0} → Bool → Exec S (Unit {0}) → Exec S (Unit {0}) → Exec S (Unit {0})
unless_enrolled true enrol rest = rest
unless_enrolled false enrol rest = enrol >> rest

module _ {S : Type 0} (svc : GatheringService S) where
  open svc use {store, now}

  unfoldable pub owns_organization : Caller → String → Exec S Bool
  owns_organization c organization_id = do
    role ← query (store.organization_role_for organization_id c.id)
    pure (role.1 && str_eq role.0 organization_role_owner)

  unfoldable pub offer_reply : Caller → GatheringOffer → Exec S WireOffer
  offer_reply c o = do
    owns_org ← owns_organization c o.organization_id
    access ← query (store.gathering_access_for o.gathering_id c.id)
    pure (to_gathering_offer o (offer_viewer c o owns_org access.is_owner))

  unfoldable pub find_offer : String → S → Result GatheringOffer
  find_offer id s =
      or_not_found (not_found "offer" "no offer with that id") (store.gathering_offer_by_id id s)

  unfoldable pub offer_gathering : Caller → String → String → String → Exec S WireOffer
  offer_gathering caller gathering_id organization_id note = do
    c ← authenticated caller "log in to offer a gathering"
    loaded ← load svc c gathering_id
    guard loaded.1.is_owner (forbidden "only an owner of this gathering can offer it")
    organization ← query (λ s.
        or_not_found (not_found "organization" "no organization with that id")
          (store.organization_by_id organization_id s))
    gathering ← query (store.gathering_by_id gathering_id)
    guard
        (not (
          any (λ o. str_eq o.kind owner_kind_organization && str_eq o.id organization.id)
            gathering.owners))
        (invalid "organization_id" "that organization already owns this gathering")
    offer ← store.create_gathering_offer gathering_id organization.id c.id note now
    offer_reply c offer

  -- The individual owners join the roster as members; one who is on it keeps their role.
  unfoldable pub enrol_owners : String → List OwnerRef → Exec S (Unit {0})
  enrol_owners organization_id [] s = (ok tt, s)
  enrol_owners organization_id (o ∷ os) s =
      let rest : Exec S (Unit {0}) = enrol_owners organization_id os in
      if not (str_eq o.kind owner_kind_user)
      then rest s
      else (do
        role ← query (store.organization_role_for organization_id o.id)
        unless_enrolled role.1
            (store.set_organization_member organization_id o.id organization_role_member) rest)
          s

  unfoldable pub accept_offer : GatheringOffer → Exec S (Unit {0})
  accept_offer offer = do
    gathering ← query (store.gathering_by_id offer.gathering_id)
    store.add_gathering_owner offer.gathering_id
        (owner_ref owner_kind_organization offer.organization_id)
    enrol_owners offer.organization_id gathering.owners

  unfoldable pub accept_if : Bool → GatheringOffer → Exec S (Unit {0})
  accept_if true offer = accept_offer offer
  accept_if false offer = pure tt

  unfoldable pub respond_to_gathering_offer : Caller → String → Bool → Exec S WireOffer
  respond_to_gathering_offer caller offer_id accept = do
    c ← authenticated caller "log in to answer an offer"
    offer ← query (find_offer offer_id)
    owns_org ← owns_organization c offer.organization_id
    guard owns_org (forbidden "only an owner of the receiving organization can answer this offer")
    resolved ←
        store.resolve_gathering_offer offer.id (if accept then offer_accepted else offer_declined)
          now
    guard resolved (invalid "offer_id" "this offer has already been answered")
    accept_if accept offer
    updated ← query (store.gathering_offer_by_id offer.id)
    offer_reply c updated

  unfoldable pub withdraw_gathering_offer : Caller → String → Exec S (Unit {0})
  withdraw_gathering_offer caller offer_id = do
    c ← authenticated caller "log in to withdraw an offer"
    offer ← query (find_offer offer_id)
    access ← query (store.gathering_access_for offer.gathering_id c.id)
    guard access.is_owner (forbidden "only an owner of the offered gathering can withdraw this")
    resolved ← store.resolve_gathering_offer offer.id offer_withdrawn now
    guard resolved (invalid "offer_id" "this offer has already been answered")
    pure tt

  unfoldable pub adopt_gathering : Caller → String → String → Exec S WireGathering
  adopt_gathering caller gathering_id organization_id = do
    c ← authenticated caller "log in to adopt a gathering"
    guard c.is_admin (
        forbidden
          "only an administrator can put a gathering under an organization without an offer")
    loaded ← load svc c gathering_id
    organization ← query (λ s.
        or_not_found (not_found "organization" "no organization with that id")
          (store.organization_by_id organization_id s))
    store.add_gathering_owner gathering_id (owner_ref owner_kind_organization organization_id)
    read svc c gathering_id
