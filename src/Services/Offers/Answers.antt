-- ===== src/Services/Offers/Answers.antt =====
-- Who answers an offer, and what is left when an acceptance fails half way.
use tinku.Prelude.{
  List, [], ◌∷◌, refl, inl, inr, Bool-cases, All, String, Bool, true, false, ◌≡◌, ◌⊎◌, str_eq,
  arith,
}
use tinku.Prelude.Result.{ok, Result-cases}
use tinku.Prelude.Exec.{◌>>=◌}
use tinku.Store.Model.{
  GatheringOffer, GatheringAccess, OwnerRef, owner_kind_user, organization_role_owner,
  offer_accepted, owner_kind_organization, organization_role_member,
}
use tinku.Services.Perms.{Caller, authenticated}
use tinku.Services.Events.Lock.{Refused}
use tinku.Services.Gatherings.{GatheringService, owner_ref, load, read, viewer_for}
use tinku.Services.Offers.{
  enrol_owners, owns_organization, offer_reply, respond_to_gathering_offer,
  withdraw_gathering_offer, adopt_gathering, accept_if, accept_offer, find_offer,
}

module _ {S : Type 0} (svc : GatheringService S) (c : Caller) (s : S) where
  -- An offer is answered by a signed-in owner of the receiving organization and withdrawn by a
  -- signed-in owner of the gathering; any other answer or withdrawal fails and changes nothing.
  pub offers_only_by :
      (id : String) (accept : Bool) (o : GatheringOffer) (role : String) (on_roster : Bool)
      (access : GatheringAccess)
      → svc.store.gathering_offer_by_id id s ≡ ok o
      → svc.store.organization_role_for o.organization_id c.id s ≡ ok (role, on_roster)
      → svc.store.gathering_access_for o.gathering_id c.id s ≡ ok access
      → ((str_eq c.id "" ≡ false)
            × (on_roster ≡ true)
            × (str_eq role organization_role_owner ≡ true)
          ⊎ Refused (respond_to_gathering_offer svc c id accept s) s)
        × ((str_eq c.id "" ≡ false) × (access.is_owner ≡ true)
            ⊎ Refused (withdraw_gathering_offer svc c id s) s)
  unfolding respond_to_gathering_offer withdraw_gathering_offer owns_organization find_offer
      authenticated ◌>>=◌
  offers_only_by id accept o role on_roster access ho hr ha = (ground arith, ground arith)

  -- Only a signed-in administrator puts a gathering under an organization without an offer, whoever
  -- owns the two: any other call fails and changes nothing. The administrator's call changes nothing
  -- but that the organization is added to the owners of the gathering, and nothing at all where it
  -- fails before that.
  pub adopt_gathering_only_by :
      (gathering_id organization_id : String)
      → (str_eq c.id "" ≡ false)
          × (c.is_admin ≡ true)
          × (((adopt_gathering svc c gathering_id organization_id s).1
                ≡ (svc.store.add_gathering_owner gathering_id
                    (owner_ref owner_kind_organization organization_id)
                    s).1)
              ⊎ Refused (adopt_gathering svc c gathering_id organization_id s) s)
        ⊎ Refused (adopt_gathering svc c gathering_id organization_id s) s
  unfolding adopt_gathering authenticated load read viewer_for ◌>>=◌
  adopt_gathering_only_by gathering_id organization_id = ground arith

module _ {S : Type 0} (svc : GatheringService S) (offer : GatheringOffer)
    (answered : GatheringOffer) where
  -- What the store gives for the offer.
  abbrev pub Reads : S → Type 0
  Reads t = svc.store.gathering_offer_by_id offer.id t ≡ ok answered

  -- Writing an owner of the gathering or a member of the organization, successfully or not, does not
  -- touch the offer.
  pub record KeepsOffer : Type 0 where
    pub owner :
        (owner : OwnerRef) (t : S)
        → Reads t
        → Reads (svc.store.add_gathering_owner offer.gathering_id owner t).1
    pub member :
        (user role : String) (t : S)
        → Reads t
        → Reads (svc.store.set_organization_member offer.organization_id user role t).1

  module _ (keeps : KeepsOffer) where
    enrol_owners-Reads :
        (os : List OwnerRef) (t : S)
        → Reads t
        → Reads (enrol_owners svc offer.organization_id os t).1
    unfolding enrol_owners ◌>>=◌
    enrol_owners-Reads [] t h = h
    enrol_owners-Reads (o ∷ os) t h =
        let u : S =
          (svc.store.set_organization_member offer.organization_id o.id organization_role_member
            t).1 in
        let after : Reads u = keeps.member o.id organization_role_member t h in
        ground (arith, h, after, enrol_owners-Reads os t h, enrol_owners-Reads os u after)

    accept_offer-Reads : (t : S) → Reads t → Reads (accept_offer svc offer t).1
    unfolding accept_offer ◌>>=◌
    accept_offer-Reads t h =
        let org : OwnerRef = owner_ref owner_kind_organization offer.organization_id in
        let u : S = (svc.store.add_gathering_owner offer.gathering_id org t).1 in
        let after : Reads u = keeps.owner org t h in
        elim (Result-cases (svc.store.gathering_by_id offer.gathering_id t)) [
          | inl (g, e) ↦ ground (arith, e, after, enrol_owners-Reads g.owners u after)
          | inr (f, e) ↦ ground (arith, e, h)
        ]

    -- Accepting is not one step. Once the answer is recorded it stays recorded, whatever the rest of
    -- the call comes to: reading the gathering, making the organization an owner and enrolling its
    -- people may each fail, and the store gives the answered offer all the same.
    pub respond_keeps_answer :
        (c : Caller) (id : String) (s t : S)
        → str_eq c.id "" ≡ false
        → svc.store.gathering_offer_by_id id s ≡ ok offer
        → svc.store.organization_role_for offer.organization_id c.id s
          ≡ ok (organization_role_owner, true)
        → svc.store.resolve_gathering_offer offer.id offer_accepted svc.now s ≡ (ok true, t)
        → Reads t
        → Reads (respond_to_gathering_offer svc c id true s).1
    unfolding respond_to_gathering_offer accept_if owns_organization find_offer offer_reply
        authenticated ◌>>=◌
    respond_keeps_answer c id s t hc ho hr hs h =
        let accepted = accept_offer-Reads t h in ground (arith, accepted)

module _ {S : Type 0} (svc : GatheringService S) (s : S) where
  abbrev pub IsEnrolled : String → OwnerRef → Type 0
  IsEnrolled organization_id o =
      str_eq o.kind owner_kind_user ≡ true
      → (role : String) × (svc.store.organization_role_for organization_id o.id s ≡ ok (role, true))

  -- Enrolling the owners of a gathering in an organization whose roster has all the people among
  -- them already succeeds and writes nothing, whatever their roles: nobody is demoted.
  enrol_owners_keeps :
      (organization_id : String) (os : List OwnerRef)
      → All (IsEnrolled organization_id) os
      → enrol_owners svc organization_id os s ≡ (ok tt, s)
  unfolding enrol_owners ◌>>=◌
  enrol_owners_keeps organization_id [] h = refl
  enrol_owners_keeps organization_id (o ∷ os) h =
      elim (Bool-cases (str_eq o.kind owner_kind_user)) [
        | inl e ↦
            let r : (role : String) × (svc.store.organization_role_for organization_id o.id s
                  ≡ ok (role, true)) =
              h.0 e in
            ground (arith, e, r.1, enrol_owners_keeps organization_id os h.1)
        | inr e ↦ ground (arith, e, enrol_owners_keeps organization_id os h.1)
      ]
