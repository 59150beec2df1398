-- ===== src/Services/Series/Authority.antt =====
-- Who may schedule, change and delete a series, and give roles on it.
use tinku.Prelude.{
  String, Bool, Option, refl, true, false, ◌≡◌, ◌||◌, ◌⊎◌, inl, inr, none, some, str_eq, arith,
  Bool-cases,
}
use tinku.Prelude.Result.{Error, ok, err, Result-cases}
use tinku.Prelude.Exec.{◌>>=◌}
use tinku.Store.Model.{GatheringAccess}
use tinku.Store.Series.{EventSeries, RoleScope}
use tinku.Webhooks.Change.{action_deleted}
use tinku.Services.Perms.{Caller, authenticated, series_viewer}
use tinku.Services.Errors.{invalid}
use tinku.Services.Events.{EventService, load_event}
use tinku.Services.Events.Lock.{Refused}
use tinku.Services.Recurrence.{TimeLib}
use tinku.Services.Series.{
  CreateEventSeriesRequest, UpdateEventSeriesRequest, load_series, series_viewer_for,
  create_event_series, update_event_series, delete_event_series, notify_series,
}
use tinku.Services.Series.Roles.{
  SetEventRoleRequest, ScopeRequest, resolve_scope, set_event_role, remove_event_role,
}

-- The store's answers about one series and one caller.
pub record SeriesStanding {S : Type 0} (svc : EventService S) (c : Caller) (s : S) (id : String)
    : Type 0 where
  pub series : EventSeries
  pub access : GatheringAccess
  pub organizer : Bool
  pub presenter : Bool
  pub loaded : svc.store.event_series_by_id id s ≡ ok series
  pub accessed : svc.store.gathering_access_for series.gathering_id c.id s ≡ ok access
  pub roles : svc.store.series_roles_for series.id c.id s ≡ ok (organizer, presenter)

module _ {S : Type 0} (svc : EventService S) (lib : TimeLib) (c : Caller) (s : S) (id : String)
    (st : SeriesStanding svc c s id) where
  open st use {series, access, organizer, presenter, loaded, accessed, roles}

  -- A signed-in owner, organizer or administrator deletes a series: its occurrences from now on go
  -- first, then the rule, and the change is notified. Anybody else is refused and changes nothing.
  pub delete_event_series_by_rule :
      (t u : S)
      → svc.store.delete_occurrences_from series.id svc.now s ≡ (ok tt, t)
      → svc.store.delete_event_series series.id t ≡ (ok tt, u)
      → (str_eq c.id "" ≡ false)
          × ((access.is_owner || organizer || c.is_admin) ≡ true)
          × (delete_event_series svc lib c id s
              ≡ (ok tt, notify_series svc lib action_deleted series u))
        ⊎ ((str_eq c.id "" ≡ true) ⊎ ((access.is_owner || organizer || c.is_admin) ≡ false))
          × Refused (delete_event_series svc lib c id s) s
  unfolding delete_event_series load_series series_viewer_for authenticated series_viewer ◌>>=◌
  delete_event_series_by_rule t u d e = ground (arith, loaded, accessed, roles)

module _ {S : Type 0} (svc : EventService S) (lib : TimeLib) (c : Caller) (s : S) where
  -- The caller is signed in, and by the store's answer an owner of the gathering.
  abbrev pub Owns : String → Type 0
  Owns gathering_id =
      (str_eq c.id "" ≡ false)
      × (access : GatheringAccess) × (svc.store.gathering_access_for gathering_id c.id s
          ≡ ok access)
      × (access.is_owner ≡ true)

  abbrev IsStranger : String → Type 0
  IsStranger gathering_id =
      (str_eq c.id "" ≡ true)
      ⊎ ((access : GatheringAccess) × (svc.store.gathering_access_for gathering_id c.id s
            ≡ ok access)
          × (access.is_owner ≡ false))
      ⊎ ((e : Error) × (svc.store.gathering_access_for gathering_id c.id s ≡ err e))

  Owns-cases : (gathering_id : String) → Owns gathering_id ⊎ IsStranger gathering_id
  Owns-cases gathering_id = elim (Bool-cases (str_eq c.id "")) [
    | inl y ↦ inr (inl y)
    | inr n ↦ elim (Result-cases (svc.store.gathering_access_for gathering_id c.id s)) [
      | inr e ↦ inr (inr (inr e))
      | inl (access, e) ↦ elim (Bool-cases access.is_owner) [
        | inl y ↦ inl (n, access, e, y)
        | inr k ↦ inr (inr (inl (access, e, k)))
      ]
    ]
  ]

  by_ids :
      (event_id series_id : Option String)
      → let scope : ScopeRequest = record { event_id = event_id; series_id = series_id } in
        ((found : RoleScope × String) × (resolve_scope svc lib scope s ≡ (ok found, s)))
        ⊎ ((e : Error) × (resolve_scope svc lib scope s ≡ (err e, s)))
  unfolding resolve_scope ◌>>=◌
  by_ids (some event_id) (some series_id) =
      inr (invalid "event_id" "name an event or a series, not both", refl)
  by_ids (some event_id) none = elim (Result-cases (load_event svc event_id s)) [
    | inl (event, h) ↦
        inl ((record { event_id = event.id; series_id = "" }, event.gathering_id), rw h refl)
    | inr (e, h) ↦ inr (e, rw h refl)
  ]
  by_ids none (some series_id) = elim (Result-cases (load_series svc lib series_id s)) [
    | inl (series, h) ↦
        inl ((record { event_id = ""; series_id = series.id }, series.gathering_id), rw h refl)
    | inr (e, h) ↦ inr (e, rw h refl)
  ]
  by_ids none none = inr (invalid "event_id" "name an event or a series", refl)

  -- The scope of a request is found without a write, or there is none.
  Scope-cases :
      (scope : ScopeRequest)
      → ((found : RoleScope × String) × (resolve_scope svc lib scope s ≡ (ok found, s)))
        ⊎ ((e : Error) × (resolve_scope svc lib scope s ≡ (err e, s)))
  Scope-cases scope = by_ids scope.event_id scope.series_id

  -- The caller owns the gathering that the scope belongs to.
  abbrev pub OwnsScope : ScopeRequest → Type 0
  OwnsScope scope =
      (found : RoleScope × String) × (resolve_scope svc lib scope s ≡ (ok found, s)) × Owns found.1

  -- The caller owns the gathering of the series, or organizes the series.
  abbrev pub Directs : String → Type 0
  Directs id =
      (series : EventSeries) × (svc.store.event_series_by_id id s ≡ ok series)
      × (Owns series.gathering_id
          ⊎ (str_eq c.id "" ≡ false)
            × (presenter : Bool) × (svc.store.series_roles_for series.id c.id s
                ≡ ok (true, presenter)))

  create-Refused :
      (req : CreateEventSeriesRequest)
      → IsStranger req.gathering_id
      → Refused (create_event_series svc lib c req s) s
  unfolding create_event_series authenticated ◌>>=◌
  create-Refused req (inl h) = ground arith
  create-Refused req (inr (inl h)) = ground (arith, h.1)
  create-Refused req (inr (inr h)) = ground (arith, h.1)

  set-Refused :
      (req : SetEventRoleRequest) (found : RoleScope × String)
      → resolve_scope svc lib req.scope s ≡ (ok found, s)
      → IsStranger found.1
      → Refused (set_event_role svc lib c req s) s
  unfolding set_event_role authenticated ◌>>=◌
  set-Refused req found e (inl h) = ground (arith, e)
  set-Refused req found e (inr (inl h)) = ground (arith, e, h.1)
  set-Refused req found e (inr (inr h)) = ground (arith, e, h.1)

  remove-Refused :
      (req : SetEventRoleRequest) (found : RoleScope × String)
      → resolve_scope svc lib req.scope s ≡ (ok found, s)
      → IsStranger found.1
      → Refused (remove_event_role svc lib c req s) s
  unfolding remove_event_role authenticated ◌>>=◌
  remove-Refused req found e (inl h) = ground (arith, e)
  remove-Refused req found e (inr (inl h)) = ground (arith, e, h.1)
  remove-Refused req found e (inr (inr h)) = ground (arith, e, h.1)

  update-Refused :
      (req : UpdateEventSeriesRequest) (series : EventSeries)
      → svc.store.event_series_by_id req.id s ≡ ok series
      → (str_eq c.id "" ≡ true)
        ⊎ ((e : Error) × (svc.store.gathering_access_for series.gathering_id c.id s ≡ err e))
        ⊎ ((e : Error) × (svc.store.series_roles_for series.id c.id s ≡ err e))
        ⊎ ((access : GatheringAccess) × (presenter : Bool) × (svc.store.gathering_access_for
                series.gathering_id c.id s
              ≡ ok access)
            × (access.is_owner ≡ false)
            × (svc.store.series_roles_for series.id c.id s ≡ ok (false, presenter)))
      → Refused (update_event_series svc lib c req s) s
  unfolding update_event_series load_series series_viewer_for authenticated series_viewer ◌>>=◌
  update-Refused req series h (inl k) = ground (arith, h)
  update-Refused req series h (inr (inl k)) = ground (arith, h, k.1)
  update-Refused req series h (inr (inr (inl k))) = ground (arith, h, k.1)
  update-Refused req series h (inr (inr (inr (access, presenter, a, o, r)))) =
      ground (arith, h, a, o, r)

  update_only_by :
      (req : UpdateEventSeriesRequest)
      → Directs req.id ⊎ Refused (update_event_series svc lib c req s) s
  unfolding update_event_series load_series authenticated ◌>>=◌
  update_only_by req = elim (Result-cases (svc.store.event_series_by_id req.id s)) [
    | inr (e, h) ↦ inr (ground (arith, h))
    | inl (series, h) ↦ elim (Owns-cases series.gathering_id) [
      | inl o ↦ inl (series, h, inl o)
      | inr (inl n) ↦ inr (update-Refused req series h (inl n))
      | inr (inr (inr e)) ↦ inr (update-Refused req series h (inr (inl e)))
      | inr (inr (inl (access, a, o))) ↦
          elim (Result-cases (svc.store.series_roles_for series.id c.id s)) [
            | inr e ↦ inr (update-Refused req series h (inr (inr (inl e))))
            | inl (roles, r) ↦ elim (Bool-cases roles.0) [
              | inl y ↦ elim (Bool-cases (str_eq c.id "")) [
                | inl k ↦ inr (update-Refused req series h (inl k))
                | inr k ↦ inl (series, h, inr (k, roles.1, rw⁻¹ y r))
              ]
              | inr n ↦
                  inr (
                    update-Refused req series h (inr (inr (inr (access, roles.1, a, o, rw⁻¹ n r)))))
            ]
          ]
    ]
  ]

  roles_only_by :
      (req : SetEventRoleRequest)
      → (OwnsScope req.scope ⊎ Refused (set_event_role svc lib c req s) s)
        × (OwnsScope req.scope ⊎ Refused (remove_event_role svc lib c req s) s)
  unfolding set_event_role remove_event_role authenticated ◌>>=◌
  roles_only_by req = elim (Scope-cases req.scope) [
    | inr (e, h) ↦ (inr (ground (arith, h)), inr (ground (arith, h)))
    | inl (found, h) ↦ elim (Owns-cases found.1) [
      | inl o ↦ (inl (found, h, o), inl (found, h, o))
      | inr n ↦ (inr (set-Refused req found h n), inr (remove-Refused req found h n))
    ]
  ]

  -- A series is scheduled by a signed-in owner of its gathering, the first one of the gathering
  -- included, and changed by one or by a signed-in organizer of the series. Roles on an event or on a
  -- series are given and taken away by a signed-in owner of the gathering that it belongs to. Any
  -- other call, one whose scope is not found included, fails and changes nothing.
  pub series_only_by :
      (create : CreateEventSeriesRequest) (update : UpdateEventSeriesRequest)
      (role : SetEventRoleRequest)
      → (Owns create.gathering_id ⊎ Refused (create_event_series svc lib c create s) s)
        × (Directs update.id ⊎ Refused (update_event_series svc lib c update s) s)
        × (OwnsScope role.scope ⊎ Refused (set_event_role svc lib c role s) s)
        × (OwnsScope role.scope ⊎ Refused (remove_event_role svc lib c role s) s)
  series_only_by create update role =
      let roles = roles_only_by role in
      (
        elim (Owns-cases create.gathering_id) [
          | inl o ↦ inl o
          | inr n ↦ inr (create-Refused create n)
        ],
        update_only_by update,
        roles.0,
        roles.1,
      )
