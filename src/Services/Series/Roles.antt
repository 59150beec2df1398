-- ===== src/Services/Series/Roles.antt =====
-- Roles on events and series, in csilservices/series.go.
use tinku.Prelude.{String, List, Option, none, some, ◌||◌, str_eq}
use tinku.Prelude.Result.{err}
use tinku.Prelude.Exec.{Exec, pure, query, guard, ◌>>=◌, ◌>>◌}
use tinku.Store.Model.{event_role_organizer, event_role_presenter}
use tinku.Store.Series.{RoleScope, EventRoleAssignment}
use tinku.Services.Errors.{invalid, forbidden, not_found}
use tinku.Services.Perms.{Caller, authenticated}
use tinku.Services.Events.{EventService, or_not_found, load_event}
use tinku.Services.Recurrence.{TimeLib}
use tinku.Services.Series.{load_series}

-- The two optional ids that a request names its scope by.
pub record ScopeRequest : Type 0 where
  pub event_id : Option String
  pub series_id : Option String

pub record SetEventRoleRequest : Type 0 where
  pub scope : ScopeRequest
  pub user_id : String
  pub role : String

-- `toRoleAssignment` copies the row field by field.
pub record EventRoleList : Type 0 where
  pub roles : List EventRoleAssignment

module _ {S : Type 0} (svc : EventService S) (lib : TimeLib) where
  open svc use {store}

  abbrev resolve : Option String → Option String → Exec S (RoleScope × String)
  resolve (some event_id) (some series_id) s =
      (err (invalid "event_id" "name an event or a series, not both"), s)
  resolve (some event_id) none s =
      (do
        event ← query (load_event svc event_id)
        pure (record { event_id = event.id; series_id = "" }, event.gathering_id))
        s
  resolve none (some series_id) s =
      (do
        series ← query (load_series svc lib series_id)
        pure (record { event_id = ""; series_id = series.id }, series.gathering_id))
        s
  resolve none none s = (err (invalid "event_id" "name an event or a series"), s)

  unfoldable pub resolve_scope : ScopeRequest → Exec S (RoleScope × String)
  resolve_scope req = resolve req.event_id req.series_id

  unfoldable pub role_list : RoleScope → Exec S EventRoleList
  role_list scope = do
    assignments ← query (store.list_event_roles scope)
    pure (record { roles = assignments })

  unfoldable pub set_event_role : Caller → SetEventRoleRequest → Exec S EventRoleList
  set_event_role caller req = do
    c ← authenticated caller "log in to assign a role"
    found ← resolve_scope req.scope
    access ← query (store.gathering_access_for found.1 c.id)
    guard access.is_owner (forbidden "only an owner of this gathering can assign a role")
    guard (str_eq req.role event_role_organizer || str_eq req.role event_role_presenter)
        (invalid "role" "a role is organizer or presenter")
    user ← query (λ s.
        or_not_found (not_found "user" "no user with that id") (store.user_by_id req.user_id s))
    store.set_event_role found.0 req.user_id req.role
    role_list found.0

  unfoldable pub remove_event_role : Caller → SetEventRoleRequest → Exec S EventRoleList
  remove_event_role caller req = do
    c ← authenticated caller "log in to remove a role"
    found ← resolve_scope req.scope
    access ← query (store.gathering_access_for found.1 c.id)
    guard access.is_owner (forbidden "only an owner of this gathering can remove a role")
    store.remove_event_role found.0 req.user_id req.role
    role_list found.0

  unfoldable pub list_event_roles : ScopeRequest → Exec S EventRoleList
  list_event_roles req = do found ← resolve_scope req; role_list found.0
