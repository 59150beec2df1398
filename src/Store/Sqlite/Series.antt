-- ===== src/Store/Sqlite/Series.antt =====
-- store/sqlite/series.go: the occurrences in the table `events`, and the table `event_roles`. A time
-- is what the column holds, whole seconds. The rows of `event_series`, and foreign keys, are left
-- out.
pub mod Occurrences
pub mod Held
use tinku.Prelude.{
  ℕ, zero, suc, ◌+◌, String, Bool, true, false, List, [], ◌∷◌, ◌++◌, Option, none, some, ◌&&◌, ◌||◌,
  not, str_eq, if◌then◌else◌, find, any, filter, leb, ◌==◌,
}
use tinku.Prelude.Result.{Result, ok, err, internal}
use tinku.Prelude.Exec.{Exec}
use tinku.Store.Model.{event_role_organizer, event_role_presenter}
use tinku.Store.Series.{RoleScope}

-- A row of `events`; `fields` stands for the columns that these statements do not read.
pub record EventRow : Type 0 where
  pub id : String
  pub series_id : Option String
  pub starts_at : ℕ
  pub fields : String

-- `column = value`, which is not true of a NULL.
abbrev pub is_value : Option String → String → Bool
is_value none v = false
is_value (some x) v = str_eq x v

abbrev pub of_series : String → EventRow → Bool
of_series series_id e = is_value e.series_id series_id

unfoldable pub delete_occurrences_from : String → ℕ → List EventRow → List EventRow
delete_occurrences_from series_id not_before rows =
    filter (λ e. not (of_series series_id e && leb not_before e.starts_at)) rows

-- What events_series_occurrence_idx tells apart.
abbrev pub at_instant : String → ℕ → EventRow → Bool
at_instant series_id starts_at e = of_series series_id e && e.starts_at == starts_at

-- An occurrence to insert: its new id, its instant and its other fields.
pub record NewOccurrence : Type 0 where
  pub id : String
  pub starts_at : ℕ
  pub fields : String

abbrev pub insert_occurrence : String → NewOccurrence → List EventRow → List EventRow
insert_occurrence series_id in_ rows =
    if any (at_instant series_id in_.starts_at) rows
    then rows
    else rows
      ++ record {
        id = in_.id;
        series_id = some series_id;
        starts_at = in_.starts_at;
        fields = in_.fields;
      }
        ∷ []

-- ON CONFLICT (series_id, starts_at) DO NOTHING, in one transaction.
unfoldable pub upsert_occurrences : String → List NewOccurrence → List EventRow → List EventRow
upsert_occurrences series_id [] rows = rows
upsert_occurrences series_id (in_ ∷ more) rows =
    upsert_occurrences series_id more (insert_occurrence series_id in_ rows)

pub record RoleRow : Type 0 where
  pub id : String
  pub event_id : Option String
  pub series_id : Option String
  pub user_id : String
  pub role : String

-- Exactly one of the two ids is set.
unfoldable pub is_valid : RoleScope → Bool
is_valid scope =
    if str_eq scope.event_id "" then not (str_eq scope.series_id "") else str_eq scope.series_id ""

-- The column that a scope constrains, and the row that it makes.
abbrev pub in_scope : RoleScope → RoleRow → Bool
in_scope scope r =
    if str_eq scope.event_id ""
    then is_value r.series_id scope.series_id
    else is_value r.event_id scope.event_id

abbrev pub is_role : RoleScope → String → String → RoleRow → Bool
is_role scope user role r = in_scope scope r && str_eq r.user_id user && str_eq r.role role

abbrev pub new_role : RoleScope → String → String → String → RoleRow
new_role scope id user role = record {
  id = id;
  event_id = if str_eq scope.event_id "" then none else some scope.event_id;
  series_id = if str_eq scope.event_id "" then some scope.series_id else none;
  user_id = user;
  role = role;
}

-- The table's CHECK on roles.
abbrev pub is_known_role : String → Bool
is_known_role role = str_eq role event_role_organizer || str_eq role event_role_presenter

unfoldable pub set_event_role :
    String → RoleScope → String → String → Exec (List RoleRow) (Unit {0})
unfolding is_valid
set_event_role new_id scope user role rows =
    if not (is_valid scope)
    then (err (internal "role scope"), rows)
    else if not (is_known_role role)
    then (err (internal "setting event role"), rows)
    else if any (is_role scope user role) rows
    then (ok tt, rows)
    else (ok tt, rows ++ new_role scope new_id user role ∷ [])

unfoldable pub remove_event_role : RoleScope → String → String → Exec (List RoleRow) (Unit {0})
unfolding is_valid
remove_event_role scope user role rows =
    if not (is_valid scope)
    then (err (internal "role scope"), rows)
    else (ok tt, filter (λ r. not (is_role scope user role r)) rows)

-- (SELECT series_id FROM events WHERE id = ?)
abbrev pub series_of : String → List EventRow → Option String
series_of event_id events = elim (find (λ (e : EventRow). str_eq e.id event_id) events) [
  | none ↦ none
  | some e ↦ e.series_id
]

abbrev pub same_series : Option String → Option String → Bool
same_series none o = false
same_series (some a) none = false
same_series (some a) (some b) = str_eq a b

abbrev pub has_event_role : String → List EventRow → String → String → RoleRow → Bool
has_event_role event_id events user role r =
    str_eq r.user_id user
    && str_eq r.role role
    && (is_value r.event_id event_id || same_series r.series_id (series_of event_id events))

unfoldable pub event_roles_for : String → String → List EventRow → List RoleRow → Bool × Bool
event_roles_for event_id user events roles = if str_eq user "" then (false, false) else (
  any (has_event_role event_id events user event_role_organizer) roles,
  any (has_event_role event_id events user event_role_presenter) roles,
)

abbrev pub has_series_role : String → String → String → RoleRow → Bool
has_series_role series_id user role r =
    is_value r.series_id series_id && str_eq r.user_id user && str_eq r.role role

unfoldable pub series_roles_for : String → String → List RoleRow → Bool × Bool
series_roles_for series_id user roles = if str_eq user "" then (false, false) else (
  any (has_series_role series_id user event_role_organizer) roles,
  any (has_series_role series_id user event_role_presenter) roles,
)
