-- ===== src/Services/Publish.antt =====
-- csilservices/publish.go: whether a gathering's events go to peer directories.
pub mod Levels
use tinku.Prelude.{
  String, Bool, true, false, List, [], ◌∷◌, Option, none, some, not, str_eq, any, if◌then◌else◌,
}
use tinku.Prelude.Result.{Error, Result, ok, err, app, err_not_found, err_limit_reached, internal}
use tinku.Store.Model.{
  InstanceSettings, Gathering, Organization, OwnerRef, publish_in, publish_out, publish_unset,
  owner_kind_organization,
}
use tinku.Store.Interface.{Store}
use tinku.Services.Convert.{PublishDecision}

unfoldable pub organization_level :
    InstanceSettings → List Organization → PublishDecision → PublishDecision
organization_level settings organizations decision =
    if settings.organization_override_allowed
    then if any (λ o. str_eq o.publish_events publish_out) organizations
      then record decision { publishing = false; source = "organization" }
      else if any (λ o. str_eq o.publish_events publish_in) organizations
      then record decision { publishing = true; source = "organization" }
      else decision
    else decision

unfoldable pub gathering_level : InstanceSettings → Gathering → PublishDecision → PublishDecision
gathering_level settings gathering decision =
    if settings.gathering_override_allowed
    then if str_eq gathering.publish_events publish_in
      then record decision { publishing = true; source = "gathering" }
      else if str_eq gathering.publish_events publish_out
      then record decision { publishing = false; source = "gathering" }
      else decision
    else decision

-- The gathering is at hand on every call.
unfoldable pub resolve_publish : InstanceSettings → Gathering → List Organization → PublishDecision
unfolding organization_level gathering_level
resolve_publish settings gathering owning_organizations = gathering_level settings gathering (
    organization_level settings owning_organizations (record {
      publishing = str_eq settings.publish_default publish_in;
      source = "instance";
      can_override = settings.gathering_override_allowed;
    }))

module _ {S : Type 0} (st : Store S) where
  -- One turn of the loop over the owners: an organization that is not there is skipped, one that
  -- cannot be read fails the whole decision.
  unfoldable pub add_organization :
      Result Organization → Result (List Organization) → Result (List Organization)
  add_organization (ok o) (ok rest) = ok (o ∷ rest)
  add_organization (ok o) (err e) = err e
  add_organization (err err_not_found) rest = rest
  add_organization (err e) rest = err e

  unfoldable pub owning_organizations : List OwnerRef → S → Result (List Organization)
  unfolding add_organization
  owning_organizations [] s = ok []
  owning_organizations (owner ∷ owners) s =
      let rest = owning_organizations owners s in
      if not (str_eq owner.kind owner_kind_organization)
      then rest
      else add_organization (st.organization_by_id owner.id s) rest

  abbrev finish : InstanceSettings → Gathering → Result (List Organization) → Result PublishDecision
  finish settings gathering (ok organizations) =
      ok (resolve_publish settings gathering organizations)
  finish settings gathering (err e) = err e

  abbrev with_settings : Gathering → S → Result InstanceSettings → Result PublishDecision
  with_settings gathering s (err e) = err e
  with_settings gathering s (ok settings) = finish settings gathering (
      if settings.organization_override_allowed
      then owning_organizations gathering.owners s
      else ok [])

  unfoldable pub publish_decision_for : Gathering → S → Result PublishDecision
  publish_decision_for gathering s = with_settings gathering s (st.instance_settings s)

unfoldable pub publish_setting_of : Option String → String × Bool
publish_setting_of none = (publish_unset, false)
publish_setting_of (some p) =
    if str_eq p "in"
    then (publish_in, true)
    else if str_eq p "out"
    then (publish_out, true)
    else if str_eq p "unset"
    then (publish_unset, true)
    else (publish_unset, false)
