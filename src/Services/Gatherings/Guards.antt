-- ===== src/Services/Gatherings/Guards.antt =====
-- Who may change a gathering, given what the store answers about the caller.
use tinku.Prelude.{ℕ, String, Bool, true, false, ◌≡◌, ◌⊎◌, str_eq, arith, ◌≤◌}
use tinku.Prelude.Result.{ok}
use tinku.Prelude.Exec.{◌>>=◌}
use tinku.Store.Model.{Gathering, GatheringAccess, owner_kind_organization, organization_role_owner}
use tinku.Services.Perms.{Caller, authenticated, gathering_viewer}
use tinku.Services.Events.Lock.{Refused}
use tinku.Services.Gatherings.{
  GatheringService, OwnerRefInput, UpdateGatheringRequest, load, viewer_for, find_gathering,
  resolve_owner, add_gathering_owner, remove_gathering_owner, update_gathering, delete_gathering,
}

module _ {S : Type 0} (svc : GatheringService S) (c : Caller) (s : S) (id : String) where
  -- A caller who is not signed in or does not own the gathering neither updates it nor adds or removes
  -- an owner of it, and deletes it only as a signed-in administrator: any other of these four calls
  -- fails and changes nothing. Offers and adoptions are other calls.
  pub gathering_only_by :
      (g : Gathering) (access : GatheringAccess) (in_ : OwnerRefInput)
      (req : UpdateGatheringRequest)
      → req.id ≡ id
      → svc.store.gathering_by_id id s ≡ ok g
      → svc.store.gathering_access_for id c.id s ≡ ok access
      → (str_eq c.id "" ≡ true) ⊎ (access.is_owner ≡ false)
      → Refused (update_gathering svc c req s) s
        × Refused (add_gathering_owner svc c id in_ s) s
        × Refused (remove_gathering_owner svc c id in_ s) s
        × ((str_eq c.id "" ≡ true) ⊎ (c.is_admin ≡ false) → Refused (delete_gathering svc c id s) s)
  unfolding update_gathering add_gathering_owner remove_gathering_owner delete_gathering load
      viewer_for find_gathering gathering_viewer authenticated ◌>>=◌
  gathering_only_by g access in_ req same hg ha h =
      (ground arith, ground arith, ground arith, λ k. ground arith)

  -- The last owner does not come off: with at most one owner row the call fails, whoever makes it,
  -- and changes nothing.
  last_owner_stays :
      (n : ℕ) (in_ : OwnerRefInput)
      → svc.store.count_gathering_owners id s ≡ ok n
      → n ≤ 1
      → Refused (remove_gathering_owner svc c id in_ s) s
  unfolding remove_gathering_owner load viewer_for find_gathering gathering_viewer authenticated
      ◌>>=◌
  last_owner_stays n in_ hn h = ground arith

  -- An organization is named as an owner by one of its own owners or by an administrator; naming
  -- one otherwise fails and changes nothing, also where the caller owns the gathering.
  owner_reference_entitled :
      (in_ : OwnerRefInput) (role : String) (on_roster : Bool)
      → in_.kind ≡ owner_kind_organization
      → svc.store.organization_role_for in_.id c.id s ≡ ok (role, on_roster)
      → (on_roster ≡ false) ⊎ (str_eq role organization_role_owner ≡ false)
      → c.is_admin ≡ false
      → Refused (add_gathering_owner svc c id in_ s) s
  unfolding add_gathering_owner resolve_owner load viewer_for find_gathering gathering_viewer
      authenticated ◌>>=◌
  owner_reference_entitled in_ role on_roster hk hr h a = rw hk (ground arith)
