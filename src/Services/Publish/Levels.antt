-- ===== src/Services/Publish/Levels.antt =====
-- The rule that publish.go states: the most specific level that is set and allowed decides.
use tinku.Prelude.{
  String, Bool, true, false, List, [], ◌∷◌, ◌≡◌, refl, ◌∙◌, str_eq, arith, any, All, ◌⊎◌, inl, inr,
  Bool-cases,
}
use mathlib.Core.List.{Permᴰ, Memᴰ}
use tinku.Prelude.Result.{ok, err, is_ok, internal}
use tinku.Store.Model.{
  InstanceSettings, Gathering, Organization, OwnerRef, publish_in, publish_out,
  owner_kind_organization,
}
use tinku.Store.Interface.{Store}
use tinku.Services.Convert.{PublishDecision}
use tinku.Services.Publish.{
  organization_level, gathering_level, resolve_publish, owning_organizations, publish_decision_for,
}

abbrev pub SaysNeither : Organization → Type 0
SaysNeither o =
    (str_eq o.publish_events publish_in ≡ false) × (str_eq o.publish_events publish_out ≡ false)

abbrev pub IsSilent : InstanceSettings → Gathering → Type 0
IsSilent settings g =
    (settings.gathering_override_allowed ≡ false)
    ⊎ (str_eq g.publish_events publish_in ≡ false) × (str_eq g.publish_events publish_out ≡ false)

abbrev pub AreSilent : InstanceSettings → List Organization → Type 0
AreSilent settings os = (settings.organization_override_allowed ≡ false) ⊎ All SaysNeither os

abbrev instance_level : InstanceSettings → Bool → PublishDecision
instance_level settings can_override = record {
  publishing = str_eq settings.publish_default publish_in;
  source = "instance";
  can_override = can_override;
}

abbrev pub Says : String → Organization → Type 0
Says what o = str_eq o.publish_events what ≡ true

-- Which level decides, and what. A level that may not override, or says neither in nor out, leaves
-- the decision to the next one; among the owning organizations one `out` outweighs every `in`.
pub data Decides (settings : InstanceSettings) (g : Gathering) (os : List Organization)
    : Bool → String → Type 0 where
  gathering_in :
      settings.gathering_override_allowed ≡ true
      → str_eq g.publish_events publish_in ≡ true
      → Decides settings g os true "gathering"
  gathering_out :
      settings.gathering_override_allowed ≡ true
      → str_eq g.publish_events publish_out ≡ true
      → Decides settings g os false "gathering"
  organization_out :
      IsSilent settings g
      → settings.organization_override_allowed ≡ true
      → (o : Organization) → Memᴰ o os
      → Says publish_out o
      → Decides settings g os false "organization"
  organization_in :
      IsSilent settings g
      → settings.organization_override_allowed ≡ true
      → All (λ p. str_eq p.publish_events publish_out ≡ false) os
      → (o : Organization) → Memᴰ o os
      → Says publish_in o
      → Decides settings g os true "organization"
  instance_default :
      IsSilent settings g
      → AreSilent settings os
      → Decides settings g os (str_eq settings.publish_default publish_in) "instance"

any-found :
    (p : Organization → Bool) (os : List Organization)
    → any p os ≡ true
    → (o : Organization) × Memᴰ o os × (p o ≡ true)
unfolding any
any-found p [] h = cc
any-found p (o ∷ os) h = elim (Bool-cases (p o)) [
  | inl y ↦ (o, Memᴰ.head refl, y)
  | inr n ↦ let (q, m, y) = any-found p os (rw n at h) in (q, Memᴰ.tail m, y)
]

all_not :
    (p : Organization → Bool) (os : List Organization)
    → any p os ≡ false
    → All (λ o. p o ≡ false) os
unfolding any
all_not p [] h = tt
all_not p (o ∷ os) h = (ground (arith, h), all_not p os (ground (arith, h)))

all_neither :
    (os : List Organization)
    → All (λ o. str_eq o.publish_events publish_out ≡ false) os
    → All (λ o. str_eq o.publish_events publish_in ≡ false) os
    → All SaysNeither os
all_neither [] h k = tt
all_neither (o ∷ os) h k = ((k.0, h.0), all_neither os h.1 k.1)

module _ (settings : InstanceSettings) (g : Gathering) (os : List Organization) where
  past_gathering :
      (can_override : Bool)
      → IsSilent settings g
      → Decides settings g os
          (organization_level settings os (instance_level settings can_override)).publishing
          (organization_level settings os (instance_level settings can_override)).source
  unfolding organization_level
  past_gathering can_override quiet = elim (Bool-cases settings.organization_override_allowed) [
    | inr n ↦ simp n (instance_default quiet (inl n))
    | inl a ↦ elim (Bool-cases (any (λ o. str_eq o.publish_events publish_out) os)) [
      | inl y ↦
          let (o, m, said) = any-found (λ p. str_eq p.publish_events publish_out) os y in
          simp (a, y) (organization_out quiet a o m said)
      | inr n ↦ elim (Bool-cases (any (λ o. str_eq o.publish_events publish_in) os)) [
        | inl y ↦
            let (o, m, said) = any-found (λ p. str_eq p.publish_events publish_in) os y in
            simp (a, n, y)
              (organization_in quiet a (all_not (λ p. str_eq p.publish_events publish_out) os n) o m
                said)
        | inr k ↦
            simp (a, n, k)
              (instance_default quiet (
                inr (
                  all_neither os (all_not (λ p. str_eq p.publish_events publish_out) os n)
                    (all_not (λ p. str_eq p.publish_events publish_in) os k))))
      ]
    ]
  ]

  -- The most specific level that may override and says in or out decides, whatever the settings and
  -- the texts are: the gathering, then the owning organizations, of which one that says out keeps the
  -- events back and otherwise one that says in is enough, and then the instance's default.
  pub resolve_publish_most_specific :
      Decides settings g os
        (resolve_publish settings g os).publishing
        (resolve_publish settings g os).source
  unfolding resolve_publish gathering_level
  resolve_publish_most_specific = elim (Bool-cases settings.gathering_override_allowed) [
    | inr n ↦ simp n (past_gathering false (inl n))
    | inl a ↦ elim (Bool-cases (str_eq g.publish_events publish_in)) [
      | inl y ↦ simp (a, y) (gathering_in a y)
      | inr n ↦ elim (Bool-cases (str_eq g.publish_events publish_out)) [
        | inl y ↦ simp (a, n, y) (gathering_out a y)
        | inr k ↦ simp (a, n, k) (past_gathering true (inr (n, k)))
      ]
    ]
  ]

any-perm : (p : Organization → Bool) {os ps : List Organization} → Permᴰ os ps → any p os ≡ any p ps
unfolding any
any-perm p Permᴰ.nil = refl
any-perm p (Permᴰ.cons {a = a} e d) = rw (← e, any-perm p d)
any-perm p (Permᴰ.swap {a = a} {b = b} {l = l} e₁ e₂) = rw (← e₁, ← e₂) (ground arith)
any-perm p (Permᴰ.trans d₁ d₂) = any-perm p d₁ ∙ any-perm p d₂

-- The order in which a gathering's organizations come does not change the decision.
resolve_publish-perm :
    (settings : InstanceSettings) (g : Gathering) (os ps : List Organization)
    → Permᴰ os ps
    → resolve_publish settings g os ≡ resolve_publish settings g ps
unfolding resolve_publish
resolve_publish-perm settings g os ps d = rw (any-perm _ d, any-perm _ d)

module _ {S : Type 0} (st : Store S) (s : S) where
  owning_organizations_unreadable :
      (owners : List OwnerRef) (o : OwnerRef) (m : String)
      → Memᴰ o owners
      → o.kind ≡ owner_kind_organization
      → st.organization_by_id o.id s ≡ err (internal m)
      → is_ok (owning_organizations st owners s) ≡ false
  unfolding owning_organizations
  owning_organizations_unreadable [] o m mem k h = elim mem [ ]
  owning_organizations_unreadable (x ∷ owners) o m (Memᴰ.head e) k h = rw (← e, h, k)
  owning_organizations_unreadable (x ∷ owners) o m (Memᴰ.tail mem) k h =
      ground (arith, owning_organizations_unreadable owners o m mem k h)

  -- An owning organization that cannot be read is not passed over: where organizations may
  -- override, there is then no decision at all.
  publish_decision_for_unreadable :
      (g : Gathering) (settings : InstanceSettings) (o : OwnerRef) (m : String)
      → st.instance_settings s ≡ ok settings
      → settings.organization_override_allowed ≡ true
      → Memᴰ o g.owners
      → o.kind ≡ owner_kind_organization
      → st.organization_by_id o.id s ≡ err (internal m)
      → is_ok (publish_decision_for st g s) ≡ false
  unfolding publish_decision_for
  publish_decision_for_unreadable g settings o m rs allowed mem k h =
      ground (arith, owning_organizations_unreadable g.owners o m mem k h)
