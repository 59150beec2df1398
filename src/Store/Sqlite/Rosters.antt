-- ===== src/Store/Sqlite/Rosters.antt =====
-- store/sqlite/organizations.go and gatherings.go: the tables `organization_members`,
-- `gathering_owners` and `gathering_members`. The clock (joined_at) and the ids of owner rows, which
-- no statement reads back, are left out.
pub mod Access
pub mod Roles
use tinku.Prelude.{
  ℕ, String, Bool, true, false, List, [], ◌∷◌, ◌++◌, Option, none, some, ◌&&◌, ◌||◌, not, str_eq,
  if◌then◌else◌, find, any, filter, count, update_where,
}
use tinku.Store.Model.{
  GatheringAccess, OwnerRef, no_access, owner_kind_organization, organization_role_owner,
}

pub record MemberRow : Type 0 where
  pub organization_id : String
  pub user_id : String
  pub role : String

-- Either column is null (CHECK in the schema), and a null equals nothing.
pub record OwnerRow : Type 0 where
  pub gathering_id : String
  pub user_id : Option String
  pub organization_id : Option String

pub record JoinRow : Type 0 where
  pub gathering_id : String
  pub user_id : String

pub record Rosters : Type 0 where
  pub organization_members : List MemberRow
  pub gathering_owners : List OwnerRow
  pub gathering_members : List JoinRow

abbrev pub holds : Option String → String → Bool
holds none x = false
holds (some y) x = str_eq y x

abbrev pub is_member_row : String → String → MemberRow → Bool
is_member_row organization_id user_id m =
    str_eq m.organization_id organization_id && str_eq m.user_id user_id

abbrev pub is_join_row : String → String → JoinRow → Bool
is_join_row gathering_id user_id m = str_eq m.gathering_id gathering_id && str_eq m.user_id user_id

-- INSERT … ON CONFLICT DO UPDATE SET role.
unfoldable pub set_organization_member : String → String → String → Rosters → Rosters
set_organization_member organization_id user_id role t = record t {
  organization_members =
      if any (is_member_row organization_id user_id) t.organization_members
      then update_where (is_member_row organization_id user_id) (λ m. record m { role = role })
          t.organization_members
      else t.organization_members
        ++ record { organization_id = organization_id; user_id = user_id; role = role } ∷ [];
}

unfoldable pub remove_organization_member : String → String → Rosters → Rosters
remove_organization_member organization_id user_id t = record t {
  organization_members =
      filter (λ m. not (is_member_row organization_id user_id m)) t.organization_members;
}

unfoldable pub organization_role_for : String → String → Rosters → String × Bool
organization_role_for organization_id user_id t =
    elim (find (is_member_row organization_id user_id) t.organization_members) [
      | none ↦ ("", false)
      | some m ↦ (m.role, true)
    ]

-- The two columns of an owner, of which one is null.
unfoldable pub owner_values : OwnerRef → Option String × Option String
owner_values o =
    if str_eq o.kind owner_kind_organization then (none, some o.id) else (some o.id, none)

abbrev pub owner_row : String → OwnerRef → OwnerRow
owner_row gathering_id o = record {
  gathering_id = gathering_id;
  user_id = (owner_values o).0;
  organization_id = (owner_values o).1;
}

-- The column that an owner of this kind stands in.
abbrev pub owner_column : OwnerRef → OwnerRow → Option String
owner_column o r = if str_eq o.kind owner_kind_organization then r.organization_id else r.user_id

abbrev pub is_owner_row : String → OwnerRef → OwnerRow → Bool
is_owner_row gathering_id o r = str_eq r.gathering_id gathering_id && holds (owner_column o r) o.id

-- INSERT … ON CONFLICT DO NOTHING, by the partial index of the column that is set.
unfoldable pub add_gathering_owner : String → OwnerRef → Rosters → Rosters
unfolding owner_values
add_gathering_owner gathering_id owner t = record t {
  gathering_owners =
      if any (is_owner_row gathering_id owner) t.gathering_owners
      then t.gathering_owners
      else t.gathering_owners ++ owner_row gathering_id owner ∷ [];
}

unfoldable pub remove_gathering_owner : String → OwnerRef → Rosters → Rosters
remove_gathering_owner gathering_id owner t = record t {
  gathering_owners = filter (λ r. not (is_owner_row gathering_id owner r)) t.gathering_owners;
}

unfoldable pub count_gathering_owners : String → Rosters → ℕ
count_gathering_owners gathering_id t =
    count (λ r. str_eq r.gathering_id gathering_id) t.gathering_owners

unfoldable pub join_gathering : String → String → Rosters → Rosters
join_gathering gathering_id user_id t = record t {
  gathering_members =
      if any (is_join_row gathering_id user_id) t.gathering_members
      then t.gathering_members
      else t.gathering_members ++ record { gathering_id = gathering_id; user_id = user_id } ∷ [];
}

unfoldable pub leave_gathering : String → String → Rosters → Rosters
leave_gathering gathering_id user_id t = record t {
  gathering_members = filter (λ m. not (is_join_row gathering_id user_id m)) t.gathering_members;
}

-- The three EXISTS of one statement.
unfoldable pub gathering_access_for : String → String → Rosters → GatheringAccess
gathering_access_for gathering_id user_id t = if str_eq user_id "" then no_access else record {
  is_member = any (is_join_row gathering_id user_id) t.gathering_members;
  is_owner =
      any (λ o. str_eq o.gathering_id gathering_id && holds o.user_id user_id) t.gathering_owners
      || any
          (λ o.
            any
              (λ m.
                holds o.organization_id m.organization_id
                && str_eq o.gathering_id gathering_id
                && str_eq m.user_id user_id
                && str_eq m.role organization_role_owner)
              t.organization_members)
          t.gathering_owners;
}
