-- ===== src/Services/Organizations/Roster.antt =====
-- Who may change an organization and its roster, given what the store answers about the caller.
use tinku.Prelude.{String, Bool, true, false, ◌≡◌, ◌⊎◌, str_eq, eq_refl, arith, ◌≤◌, leb}
use tinku.Prelude.Result.{ok}
use tinku.Prelude.Exec.{◌>>=◌, ◌>>◌}
use tinku.Store.Model.{Organization, organization_role_owner, organization_role_member}
use tinku.Services.Perms.{Caller, authenticated, organization_viewer}
use tinku.Services.Events.Lock.{Refused}
use tinku.Services.Organizations.{
  OrganizationService, UpdateOrganizationRequest, viewer_for, find_organization,
  update_organization, delete_organization, set_organization_member, remove_organization_member,
  refuse_last_owner_change, keep_an_owner, check_demotion, member_list,
}

module _ {S : Type 0} (svc : OrganizationService S) (c : Caller) (s : S) (id : String) where
  -- A caller who is not signed in, is not on the roster or is not an owner neither updates an
  -- organization nor sets anybody's role in it, and takes nobody but themselves off its roster. An
  -- organization is deleted by an administrator only, also where the caller owns it. Any other of
  -- these four calls fails and changes nothing.
  pub organization_only_by :
      (g : Organization) (role : String) (on_roster : Bool) (user_id new_role : String)
      (req : UpdateOrganizationRequest)
      → req.id ≡ id
      → g.id ≡ id
      → svc.store.organization_by_id id s ≡ ok g
      → svc.store.organization_role_for id c.id s ≡ ok (role, on_roster)
      → ((str_eq c.id "" ≡ true)
            ⊎ (on_roster ≡ false)
            ⊎ (str_eq role organization_role_owner ≡ false)
          → Refused (update_organization svc c req s) s
            × Refused (set_organization_member svc c id user_id new_role s) s
            × ((str_eq c.id "" ≡ true) ⊎ (str_eq user_id c.id ≡ false)
                → Refused (remove_organization_member svc c id user_id s) s))
        × (c.is_admin ≡ false → Refused (delete_organization svc c id s) s)
  unfolding update_organization set_organization_member remove_organization_member
      delete_organization viewer_for find_organization organization_viewer authenticated ◌>>=◌
  organization_only_by g role on_roster user_id new_role req same own hg hr =
      (λ h. (ground arith, ground arith, λ k. ground arith), λ a. ground arith)

  -- The last owner stays an owner: with at most one of them, demoting an owner and removing one
  -- both fail, whoever asks, and change nothing.
  pub last_owner_keeps :
      (g : Organization) (user_id role : String)
      → svc.store.organization_by_id id s ≡ ok g
      → svc.store.organization_role_for id user_id s ≡ ok (role, true)
      → str_eq role organization_role_owner ≡ true
      → g.owner_count ≤ 1
      → Refused (set_organization_member svc c id user_id organization_role_member s) s
        × Refused (remove_organization_member svc c id user_id s) s
  unfolding set_organization_member remove_organization_member viewer_for organization_viewer
      authenticated check_demotion refuse_last_owner_change keep_an_owner ◌>>=◌
  last_owner_keeps g user_id role hg hr ho h = (ground arith, ground arith)

  -- Anybody who is signed in leaves a roster by themselves: unless they are its last owner, the row
  -- goes and the answer is what is left of the roster.
  anyone_leaves :
      (g : Organization) (role : String) (on_roster : Bool)
      → str_eq c.id "" ≡ false
      → svc.store.organization_by_id id s ≡ ok g
      → svc.store.organization_role_for id c.id s ≡ ok (role, on_roster)
      → (on_roster ≡ false)
        ⊎ (str_eq role organization_role_owner ≡ false)
        ⊎ (leb g.owner_count 1 ≡ false)
      → remove_organization_member svc c id c.id s
        ≡ (svc.store.remove_organization_member id c.id >> member_list svc id) s
  unfolding remove_organization_member viewer_for organization_viewer authenticated
      refuse_last_owner_change keep_an_owner ◌>>=◌
  anyone_leaves g role on_roster hc hg hr h = ground (arith, eq_refl c.id)
