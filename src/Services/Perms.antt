-- ===== src/Services/Perms.antt =====
-- csilservices/perms.go: who may do what, and the start-time lock. `csil.ViewerContext` is the
-- block of permissions that every answer carries.
use tinku.Prelude.{
  ℕ, String, Bool, false, ◌&&◌, ◌||◌, not, str_eq, ltb, if◌then◌else◌, Option, none, some,
}
use tinku.Prelude.Exec.{Exec}
use tinku.Prelude.Result.{ok, err}
use tinku.Store.Model.{GatheringAccess, User, organization_role_owner}
use tinku.Services.Errors.{unauthenticated}

pub record Caller : Type 0 where
  pub id : String
  pub is_admin : Bool

pub record ViewerContext : Type 0 where
  pub is_admin : Bool
  pub is_owner : Bool
  pub is_organizer : Bool
  pub is_presenter : Bool
  pub is_member : Bool
  pub has_joined : Bool
  pub can_edit : Bool
  pub can_delete : Bool
  pub can_manage_members : Bool

-- The user that the session put on the request context, or the anonymous caller.
unfoldable pub caller_of : Option User → Caller
caller_of none = record { id = ""; is_admin = false }
caller_of (some user) = record { id = user.id; is_admin = user.is_admin }

unfoldable pub authenticated : {S : Type 0} → Caller → String → Exec S Caller
authenticated c action s = (if str_eq c.id "" then err (unauthenticated action) else ok c, s)

unfoldable pub organization_viewer : Caller → String → Bool → ViewerContext
organization_viewer c role on_roster =
    let is_owner : Bool = on_roster && str_eq role organization_role_owner in
    record {
      is_admin = c.is_admin;
      is_owner = is_owner;
      is_organizer = false;
      is_presenter = false;
      is_member = on_roster;
      has_joined = on_roster;
      can_edit = is_owner;
      can_delete = c.is_admin;
      can_manage_members = is_owner;
    }

unfoldable pub gathering_viewer : Caller → GatheringAccess → ViewerContext
gathering_viewer c access = record {
  is_admin = c.is_admin;
  is_owner = access.is_owner;
  is_organizer = false;
  is_presenter = false;
  is_member = access.is_member || access.is_owner;
  has_joined = access.is_member;
  can_edit = access.is_owner;
  can_delete = access.is_owner || c.is_admin;
  can_manage_members = access.is_owner;
}

unfoldable pub event_viewer : Caller → GatheringAccess → Bool → Bool → Bool → ViewerContext
event_viewer c access is_organizer is_presenter locked = record {
  is_admin = c.is_admin;
  is_owner = access.is_owner;
  is_organizer = is_organizer;
  is_presenter = is_presenter;
  is_member = access.is_member || access.is_owner;
  has_joined = access.is_member;
  can_edit = (access.is_owner || is_organizer) && not locked;
  can_delete = if locked then c.is_admin else access.is_owner || is_organizer || c.is_admin;
  can_manage_members = access.is_owner && not locked;
}

unfoldable pub series_viewer : Caller → GatheringAccess → Bool → Bool → ViewerContext
series_viewer c access is_organizer is_presenter = record {
  is_admin = c.is_admin;
  is_owner = access.is_owner;
  is_organizer = is_organizer;
  is_presenter = is_presenter;
  is_member = access.is_member || access.is_owner;
  has_joined = access.is_member;
  can_edit = access.is_owner || is_organizer;
  can_delete = access.is_owner || is_organizer || c.is_admin;
  can_manage_members = access.is_owner;
}

-- !now.Before(startsAt)
abbrev pub locked_at : ℕ → ℕ → Bool
locked_at starts_at now = not (ltb now starts_at)
