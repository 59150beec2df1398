-- ===== src/Store/Sqlite/Rosters/Access.antt =====
-- What the tables answer about owners, members and their access after a write.
use tinku.Prelude.{
  String, Bool, true, false, List, [], ◌∷◌, ◌≡◌, refl, ◌&&◌, str_eq, eq_iff, eq_refl, Bool-cases,
  inl, inr, arith, any, update_where,
}
use tinku.Store.Model.{OwnerRef, organization_role_owner, owner_kind_organization}
use tinku.Store.Sqlite.Rosters.{
  Rosters, MemberRow, OwnerRow, holds, is_member_row, is_owner_row, is_join_row, owner_row,
  owner_values, set_organization_member, add_gathering_owner, join_gathering, leave_gathering,
  gathering_access_for,
}
use tinku.Prelude.Counts.{any-append, any-filter-not}

own_row : (g : String) (owner : OwnerRef) → is_owner_row g owner (owner_row g owner) ≡ true
unfolding owner_values
own_row g owner = ground (arith, eq_refl g, eq_refl owner.id)

owner_there :
    (g : String) (owner : OwnerRef) (t : Rosters)
    → any (is_owner_row g owner) (add_gathering_owner g owner t).gathering_owners ≡ true
unfolding add_gathering_owner any
owner_there g owner t = ground (
  arith,
  own_row g owner,
  any-append (is_owner_row g owner) t.gathering_owners (owner_row g owner ∷ []),
)

already :
    (g : String) (owner : OwnerRef) (t : Rosters)
    → any (is_owner_row g owner) t.gathering_owners ≡ true
    → add_gathering_owner g owner t ≡ t
unfolding add_gathering_owner
already g owner t h = rw h refl

-- Adding an owner twice is adding it once.
pub add_owner_idempotent :
    (g : String) (owner : OwnerRef) (t : Rosters)
    → add_gathering_owner g owner (add_gathering_owner g owner t) ≡ add_gathering_owner g owner t
add_owner_idempotent g owner t =
    already g owner (add_gathering_owner g owner t) (owner_there g owner t)

module _ (g u : String) (owner : OwnerRef) where
  person_owns :
      (os : List OwnerRow)
      → str_eq owner.kind owner_kind_organization ≡ false
      → owner.id ≡ u
      → any (is_owner_row g owner) os ≡ true
      → any (λ o. str_eq o.gathering_id g && holds o.user_id u) os ≡ true
  unfolding any
  person_owns [] k e h = ground arith
  person_owns (r ∷ os) k e h = ground (arith, person_owns os k e)

  through :
      (r : OwnerRow) (ms : List MemberRow)
      → str_eq r.gathering_id g ≡ true
      → holds r.organization_id owner.id ≡ true
      → any (λ m. is_member_row owner.id u m && str_eq m.role organization_role_owner) ms ≡ true
      → any
          (λ m.
            holds r.organization_id m.organization_id
            && str_eq r.gathering_id g
            && str_eq m.user_id u
            && str_eq m.role organization_role_owner)
          ms
        ≡ true
  unfolding any
  through r [] a b h = ground arith
  through r (m ∷ ms) a b h = ground (arith, through r ms a b, eq_iff m.organization_id owner.id)

  organization_owns :
      (os : List OwnerRow) (ms : List MemberRow)
      → str_eq owner.kind owner_kind_organization ≡ true
      → any (is_owner_row g owner) os ≡ true
      → any (λ m. is_member_row owner.id u m && str_eq m.role organization_role_owner) ms ≡ true
      → any
          (λ o.
            any
              (λ m.
                holds o.organization_id m.organization_id
                && str_eq o.gathering_id g
                && str_eq m.user_id u
                && str_eq m.role organization_role_owner)
              ms)
          os
        ≡ true
  unfolding any
  organization_owns [] ms k h w = ground arith
  organization_owns (r ∷ os) ms k h w = ground (arith, organization_owns os ms k, through r ms)

module _ (o u : String) where
  abbrev owning : MemberRow → Bool
  owning m = is_member_row o u m && str_eq m.role organization_role_owner

  role_updated :
      (ms : List MemberRow)
      → any (is_member_row o u) ms ≡ true
      → any owning
          (update_where (is_member_row o u) (λ m. record m { role = organization_role_owner }) ms)
        ≡ true
  unfolding any update_where
  role_updated [] h = ground arith
  role_updated (m ∷ ms) h = elim (Bool-cases (is_member_row o u m)) [
    | inl a ↦ rw a (ground (arith, a))
    | inr a ↦ rw a (ground (arith, a, h, role_updated ms))
  ]

  role_stands :
      (t : Rosters)
      → any owning (set_organization_member o u organization_role_owner t).organization_members
        ≡ true
  unfolding set_organization_member any
  role_stands t = elim (Bool-cases (any (is_member_row o u) t.organization_members)) [
    | inl e ↦ ground (arith, e, role_updated t.organization_members e)
    | inr e ↦ ground (
      arith,
      e,
      eq_refl o,
      eq_refl u,
      any-append owning t.organization_members
          (record { organization_id = o; user_id = u; role = organization_role_owner } ∷ []),
    )
  ]

joined_there :
    (g u : String) (t : Rosters)
    → any (is_join_row g u) (join_gathering g u t).gathering_members ≡ true
unfolding join_gathering any
joined_there g u t = ground (
  arith,
  eq_refl g,
  eq_refl u,
  any-append (is_join_row g u) t.gathering_members (record { gathering_id = g; user_id = u } ∷ []),
)

organization_kept :
    (g : String) (owner : OwnerRef) (t : Rosters)
    → (add_gathering_owner g owner t).organization_members ≡ t.organization_members
unfolding add_gathering_owner
organization_kept g owner t = refl

-- A person who is added as an owner, or who owns an organization that is, has an owner's access; one
-- who joins has a member's, and one who leaves has not.
access-after_write :
    (g u : String) (owner : OwnerRef) (t : Rosters)
    → str_eq u "" ≡ false
    → (str_eq owner.kind owner_kind_organization ≡ false
        → owner.id ≡ u
        → (gathering_access_for g u (add_gathering_owner g owner t)).is_owner ≡ true)
      × (str_eq owner.kind owner_kind_organization ≡ true
          → (gathering_access_for g u (
              add_gathering_owner g owner
                (set_organization_member owner.id u organization_role_owner t))).is_owner
            ≡ true)
      × ((gathering_access_for g u (join_gathering g u t)).is_member ≡ true)
      × ((gathering_access_for g u (leave_gathering g u t)).is_member ≡ false)
unfolding gathering_access_for leave_gathering
access-after_write g u owner t h = (
  λ k e. ground (
    arith,
    h,
    person_owns g u owner (add_gathering_owner g owner t).gathering_owners k e
        (owner_there g owner t),
  ),
  λ k. ground (
    arith,
    h,
    organization_kept g owner (set_organization_member owner.id u organization_role_owner t),
    organization_owns g u owner
        (add_gathering_owner g owner
          (set_organization_member owner.id u organization_role_owner t)).gathering_owners
        (set_organization_member owner.id u organization_role_owner t).organization_members k
        (owner_there g owner (set_organization_member owner.id u organization_role_owner t))
        (role_stands owner.id u t),
  ),
  ground (arith, h, joined_there g u t),
  ground (arith, any-filter-not (is_join_row g u) t.gathering_members),
)
