-- ===== src/Store/Sqlite/Series/Held.antt =====
-- The table `event_roles` against what it stands for: who holds which role on what.
use tinku.Prelude.{
  String, Bool, true, false, List, [], ◌∷◌, ◌++◌, Option, none, some, ◌≡◌, refl, sym, ap, ◌∙◌, ◌&&◌,
  ◌||◌, not, str_eq, if◌then◌else◌, eq_iff, Bool-cases, inl, inr, arith, any, filter, All, is_some,
}
use tinku.Prelude.Counts.{any-append, any-filter_apart}
use tinku.Store.Series.{RoleScope}
use tinku.Store.Sqlite.Series.{
  RoleRow, is_valid, is_role, is_value, new_role, is_known_role, set_event_role, remove_event_role,
}

-- Someone in a role on an event or a series.
pub record Held : Type 0 where
  pub scope : RoleScope
  pub user : String
  pub role : String

pub data RoleOp : Type 0 where
  give : String → Held → RoleOp
  take : Held → RoleOp

unfoldable pub run : List RoleOp → List RoleRow → List RoleRow
run [] rows = rows
run (give id h ∷ ops) rows = run ops (set_event_role id h.scope h.user h.role rows).1
run (take h ∷ ops) rows = run ops (remove_event_role h.scope h.user h.role rows).1

abbrev pub same : Held → Held → Bool
same h k =
    str_eq h.scope.event_id k.scope.event_id
    && str_eq h.scope.series_id k.scope.series_id
    && str_eq h.user k.user
    && str_eq h.role k.role

-- The specification: the last word on a holding is its last accepted operation.
unfoldable pub last_word : Held → List RoleOp → Bool → Bool
last_word k [] held = held
last_word k (give id h ∷ ops) held = last_word k ops ((same h k && is_known_role h.role) || held)
last_word k (take h ∷ ops) held = last_word k ops (not (same h k) && held)

-- What the table says of a holding.
abbrev pub holds : List RoleRow → Held → Bool
holds rows k = any (is_role k.scope k.user k.role) rows

-- The table's CHECK on the two ids.
abbrev pub has_one_id : RoleRow → Bool
has_one_id r = not (is_some r.event_id && is_some r.series_id)

abbrev pub HasOneIds : List RoleRow → Type 0
HasOneIds rows = All (λ r. has_one_id r ≡ true) rows

abbrev IsScope : RoleScope → Type 0
IsScope s = is_valid s ≡ true

new-is_role :
    (id : String) (h k : Held)
    → IsScope h.scope
    → IsScope k.scope
    → is_role k.scope k.user k.role (new_role h.scope id h.user h.role) ≡ same h k
unfolding is_valid
new-is_role id h k v w = ground (
  arith,
  eq_iff h.scope.event_id "",
  eq_iff k.scope.event_id "",
  eq_iff h.scope.series_id "",
  eq_iff k.scope.series_id "",
  eq_iff h.scope.event_id k.scope.event_id,
  eq_iff h.scope.series_id k.scope.series_id,
)

-- A row is in one scope only.
same_scope :
    (e s : Option String) (a b : RoleScope)
    → IsScope a
    → IsScope b
    → not (is_some e && is_some s) ≡ true
    → (if str_eq b.event_id "" then is_value s b.series_id else is_value e b.event_id) ≡ true
    → (if str_eq a.event_id "" then is_value s a.series_id else is_value e a.event_id)
      ≡ (str_eq a.event_id b.event_id && str_eq a.series_id b.series_id)
unfolding is_valid
same_scope none none a b v w one m = ground arith
same_scope (some x) (some y) a b v w one m = cc
same_scope none (some y) a b v w one m = ground (
  arith,
  eq_iff a.event_id "",
  eq_iff b.event_id "",
  eq_iff y b.series_id,
  eq_iff y a.series_id,
  eq_iff a.event_id b.event_id,
  eq_iff a.series_id b.series_id,
)
same_scope (some x) none a b v w one m = ground (
  arith,
  eq_iff a.series_id "",
  eq_iff b.series_id "",
  eq_iff x b.event_id,
  eq_iff x a.event_id,
  eq_iff a.event_id b.event_id,
  eq_iff a.series_id b.series_id,
)

one_scope :
    (h k : Held) (r : RoleRow)
    → IsScope h.scope
    → IsScope k.scope
    → has_one_id r ≡ true
    → is_role k.scope k.user k.role r ≡ true
    → is_role h.scope h.user h.role r ≡ same h k
one_scope h k r v w one m =
    let scopes = same_scope r.event_id r.series_id h.scope k.scope v w one (ground (arith, m)) in
    ground (
      arith,
      scopes,
      m,
      eq_iff r.user_id k.user,
      eq_iff r.role k.role,
      eq_iff r.user_id h.user,
      eq_iff r.role h.role,
      eq_iff h.user k.user,
      eq_iff h.role k.role,
    )

each_apart :
    (h k : Held) (rows : List RoleRow)
    → IsScope h.scope
    → IsScope k.scope
    → HasOneIds rows
    → All
        (λ r. is_role k.scope k.user k.role r ≡ true → is_role h.scope h.user h.role r ≡ same h k)
        rows
each_apart h k [] v w one = tt
each_apart h k (r ∷ rows) v w one = (one_scope h k r v w one.0, each_apart h k rows v w one.1)

-- Taking a holding away takes it away, and no other.
holds-filter :
    (h k : Held) (rows : List RoleRow)
    → IsScope h.scope
    → IsScope k.scope
    → HasOneIds rows
    → holds (filter (λ r. not (is_role h.scope h.user h.role r)) rows) k
      ≡ (not (same h k) && holds rows k)
holds-filter h k rows v w one =
    any-filter_apart (is_role k.scope k.user k.role) (is_role h.scope h.user h.role) (same h k) rows
      (each_apart h k rows v w one)

filter-HasOneIds :
    (p : RoleRow → Bool) (rows : List RoleRow) → HasOneIds rows → HasOneIds (filter p rows)
unfolding filter
filter-HasOneIds p [] one = tt
filter-HasOneIds p (r ∷ rows) one = elim (Bool-cases (p r)) [
  | inl y ↦ rw y (one.0, filter-HasOneIds p rows one.1)
  | inr y ↦ rw y (filter-HasOneIds p rows one.1)
]

snoc-HasOneIds :
    (rows : List RoleRow) (r : RoleRow)
    → HasOneIds rows
    → has_one_id r ≡ true
    → HasOneIds (rows ++ r ∷ [])
snoc-HasOneIds [] r one h = (h, tt)
snoc-HasOneIds (x ∷ rows) r one h = (one.0, snoc-HasOneIds rows r one.1 h)

new-has_one_id : (id : String) (h : Held) → has_one_id (new_role h.scope id h.user h.role) ≡ true
new-has_one_id id h = elim (Bool-cases (str_eq h.scope.event_id "")) [
  | inl y ↦ rw y refl
  | inr y ↦ rw y refl
]

and_true : (a : Bool) → (a && true) ≡ a
and_true true = refl
and_true false = refl

and_false : (a : Bool) → (a && false) ≡ false
and_false true = refl
and_false false = refl

or_last : (a b : Bool) → (a || (b || false)) ≡ (a || b)
or_last a true = refl
or_last a false = refl

same_eq : (h k : Held) → same h k ≡ true → h ≡ k
same_eq h k e = ground (
  arith,
  eq_iff h.scope.event_id k.scope.event_id,
  eq_iff h.scope.series_id k.scope.series_id,
  eq_iff h.user k.user,
  eq_iff h.role k.role,
)

-- Giving a holding gives it, and no other.
holds-snoc :
    (id : String) (h k : Held) (rows : List RoleRow)
    → IsScope h.scope
    → IsScope k.scope
    → holds (rows ++ new_role h.scope id h.user h.role ∷ []) k ≡ (holds rows k || same h k)
unfolding any
holds-snoc id h k rows v w =
    any-append (is_role k.scope k.user k.role) rows (new_role h.scope id h.user h.role ∷ [])
    ∙ (rw (new-is_role id h k v w) (or_last (holds rows k) (same h k)))

-- A holding that is there already is not given twice.
already :
    (h k : Held) (rows : List RoleRow)
    → holds rows h ≡ true
    → holds rows k ≡ (same h k || holds rows k)
already h k rows e = elim (Bool-cases (same h k)) [
  | inl y ↦ rw y ((ap (holds rows) (sym (same_eq h k y))) ∙ e)
  | inr y ↦ rw y refl
]

or_comm : (a b : Bool) → (a || b) ≡ (b || a)
or_comm true true = refl
or_comm true false = refl
or_comm false true = refl
or_comm false false = refl

after_give :
    (id : String) (h k : Held) (rows : List RoleRow)
    → IsScope h.scope
    → IsScope k.scope
    → HasOneIds rows
    → HasOneIds (set_event_role id h.scope h.user h.role rows).1
      × (holds (set_event_role id h.scope h.user h.role rows).1 k
          ≡ ((same h k && is_known_role h.role) || holds rows k))
unfolding set_event_role
after_give id h k rows v w one = rw v (elim (Bool-cases (is_known_role h.role)) [
  | inr y ↦ rw y (one, rw (and_false (same h k)) refl)
  | inl y ↦ rw y (elim (Bool-cases (holds rows h)) [
    | inl z ↦ rw z (one, rw (and_true (same h k)) (already h k rows z))
    | inr z ↦ rw z (
      snoc-HasOneIds rows (new_role h.scope id h.user h.role) one (new-has_one_id id h),
      rw (and_true (same h k)) (holds-snoc id h k rows v w ∙ or_comm (holds rows k) (same h k)),
    )
  ])
])

after_take :
    (h k : Held) (rows : List RoleRow)
    → IsScope h.scope
    → IsScope k.scope
    → HasOneIds rows
    → HasOneIds (remove_event_role h.scope h.user h.role rows).1
      × (holds (remove_event_role h.scope h.user h.role rows).1 k
          ≡ (not (same h k) && holds rows k))
unfolding remove_event_role
after_take h k rows v w one = rw v (
  filter-HasOneIds (λ r. not (is_role h.scope h.user h.role r)) rows one,
  holds-filter h k rows v w one,
)

abbrev op_held : RoleOp → Held
op_held (give id h) = h
op_held (take h) = h

-- Every scope names one thing, as the service's scopes do.
abbrev pub HaveScopes : List RoleOp → Type 0
HaveScopes ops = All (λ o. is_valid (op_held o).scope ≡ true) ops

-- The table refines its specification: after any sequence of roles given and taken away, it says of
-- each holding what the last operation that the table accepted on it said, or what it said before
-- if there was none.
pub run-last_word :
    (ops : List RoleOp) (k : Held) (rows : List RoleRow)
    → HaveScopes ops
    → is_valid k.scope ≡ true
    → HasOneIds rows
    → holds (run ops rows) k ≡ last_word k ops (holds rows k)
unfolding run last_word
run-last_word [] k rows v w one = refl
run-last_word (give id h ∷ ops) k rows v w one =
    let (ones, says) = after_give id h k rows v.0 w one in
    run-last_word ops k (set_event_role id h.scope h.user h.role rows).1 v.1 w ones
    ∙ ap (last_word k ops) says
run-last_word (take h ∷ ops) k rows v w one =
    let (ones, says) = after_take h k rows v.0 w one in
    run-last_word ops k (remove_event_role h.scope h.user h.role rows).1 v.1 w ones
    ∙ ap (last_word k ops) says
