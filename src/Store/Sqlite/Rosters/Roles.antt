-- ===== src/Store/Sqlite/Rosters/Roles.antt =====
-- What an organization's roster answers after a write.
use tinku.Prelude.{
  String, Bool, true, false, List, [], ◌∷◌, ◌++◌, Option, none, some, ◌≡◌, refl, ◌&&◌, not, str_eq,
  eq_iff, eq_refl, Bool-cases, inl, inr, arith, find, any, filter, update_where,
}
use tinku.Store.Sqlite.Rosters.{
  Rosters, MemberRow, is_member_row, set_organization_member, remove_organization_member,
  organization_role_for,
}
use tinku.Prelude.Counts.{find-append_none, find-filter-not}

abbrev read_role : Option MemberRow → String × Bool
read_role none = ("", false)
read_role (some m) = (m.role, true)

module _ (o u o' u' role : String) where
  role_written :
      (ms : List MemberRow)
      → any (is_member_row o u) ms ≡ true
      → read_role (
          find
            (is_member_row o u)
            (update_where (is_member_row o u) (λ x. record x { role = role }) ms))
        ≡ (role, true)
  unfolding any find update_where
  role_written [] a = ground arith
  role_written (x ∷ ms) a = ground (arith, role_written ms)

  abbrev Other : Type 0
  Other = (str_eq o' o && str_eq u' u) ≡ false

  other_row : (m : MemberRow) → Other → is_member_row o' u' m ≡ true → is_member_row o u m ≡ false
  other_row m h k = ground (arith, eq_iff m.organization_id o', eq_iff m.user_id u')

  find-written_other :
      (ms : List MemberRow)
      → Other
      → find
          (is_member_row o' u')
          (update_where (is_member_row o u) (λ x. record x { role = role }) ms)
        ≡ find (is_member_row o' u') ms
  unfolding find update_where
  find-written_other [] h = refl
  find-written_other (m ∷ ms) h = ground (arith, find-written_other ms h, other_row m h)

  find-removed_other :
      (ms : List MemberRow)
      → Other
      → find (is_member_row o' u') (filter (λ x. not (is_member_row o u x)) ms)
        ≡ find (is_member_row o' u') ms
  unfolding find filter
  find-removed_other [] h = refl
  find-removed_other (m ∷ ms) h = ground (arith, find-removed_other ms h, other_row m h)

  find-added_other :
      (ms : List MemberRow)
      → Other
      → find
          (is_member_row o' u')
          (ms ++ record { organization_id = o; user_id = u; role = role } ∷ [])
        ≡ find (is_member_row o' u') ms
  unfolding find
  find-added_other [] h = ground (arith, h, eq_iff o o', eq_iff u u', eq_refl o, eq_refl u)
  find-added_other (m ∷ ms) h = ground (arith, find-added_other ms h)

-- A role that is written is the role that is read, a removed row is read as absent, and neither
-- write touches what is read about another organization or another person.
role_for-after_write :
    (o u o' u' role : String) (t : Rosters)
    → (organization_role_for o u (set_organization_member o u role t) ≡ (role, true))
      × (organization_role_for o u (remove_organization_member o u t) ≡ ("", false))
      × ((str_eq o' o && str_eq u' u) ≡ false
          → (organization_role_for o' u' (set_organization_member o u role t)
              ≡ organization_role_for o' u' t)
            × (organization_role_for o' u' (remove_organization_member o u t)
                ≡ organization_role_for o' u' t))
unfolding organization_role_for set_organization_member remove_organization_member
role_for-after_write o u o' u' role t = (
  elim (Bool-cases (any (is_member_row o u) t.organization_members)) [
    | inl e ↦ ground (arith, e, role_written o u o' u' role t.organization_members e)
    | inr e ↦ ground (
      arith,
      e,
      eq_refl o,
      eq_refl u,
      find-append_none (is_member_row o u) t.organization_members
          (record { organization_id = o; user_id = u; role = role }) e,
    )
  ],
  ground (arith, find-filter-not (is_member_row o u) t.organization_members),
  λ h. (
    elim (Bool-cases (any (is_member_row o u) t.organization_members)) [
      | inl e ↦ ground (arith, e, find-written_other o u o' u' role t.organization_members h)
      | inr e ↦ ground (arith, e, find-added_other o u o' u' role t.organization_members h)
    ],
    ground (arith, find-removed_other o u o' u' role t.organization_members h),
  ),
)
