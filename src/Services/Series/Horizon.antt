-- ===== src/Services/Series/Horizon.antt =====
-- `ensureHorizon`: how the materialized horizon of a series moves.
use tinku.Prelude.{
  ℕ, ◌≤◌, ◌<◌, ◌≡◌, refl, false, List, [], ◌∷◌, ◌==◌, any, All, ltb, arith, Bool-cases, inl, inr,
  ◌⊎◌, map,
}
use tinku.Prelude.Result.{ok}
use tinku.Prelude.Exec.{◌>>=◌}
use tinku.Store.Series.{EventSeries}
use tinku.Services.Events.{EventService}
use tinku.Services.Recurrence.{Location, TimeLib, occurrence_times, window_end_of, max_time}
use tinku.Services.Recurrence.Times.{IsExpansion, InWindow}
use tinku.Services.Recurrence.Rules.{IsReady, occurrence_times_lem}
use tinku.Services.Series.{ensure_horizon, occurrence_input, capped}

none_before :
    (start end t : ℕ) (ts : List ℕ)
    → t < start
    → All (InWindow start end) ts
    → any (λ x. x == t) ts ≡ false
unfolding any
none_before start end t [] h a = refl
none_before start end t (x ∷ ts) h a = ground (arith, none_before start end t ts h a.1)

ok_eq : {A : Type 0} {a b : A} → ok a ≡ ok b → a ≡ b
ok_eq h = cc

module _ {S : Type 0} (svc : EventService S) (lib : TimeLib) (series : EventSeries) (loc : Location)
    (hour minute : ℕ) (ready : IsReady lib series loc hour minute) where
  -- The horizon of a validated series moves to what is asked for, three years from now at most, and
  -- never back: the rows of exactly those instants that the expansion of the rule from the old horizon
  -- gives are inserted, none of them before it and at most 500, and the new horizon is recorded; where
  -- the horizon is there already nothing is written.
  pub ensure_horizon_lem :
      (through : ℕ) (s : S) (inserted : List ℕ → ℕ) (insert : List ℕ → S) (record_at : S → S)
      → ((ts : List ℕ)
          → (svc.store.upsert_occurrences series.id (map (occurrence_input svc.go series) ts) s)
            ≡ (ok (inserted ts), insert ts))
      → ((t : S)
          → svc.store.set_materialized_through series.id (capped svc lib through) t
            ≡ (ok tt, record_at t))
      → (capped svc lib through ≤ series.materialized_through)
          × (ensure_horizon svc lib series through s ≡ (ok tt, s))
        ⊎ (series.materialized_through < capped svc lib through)
          × ((ts : List ℕ) × (occurrence_times lib series series.materialized_through
                  (capped svc lib through)
                ≡ ok ts)
              × IsExpansion
                  (max_time series.materialized_through series.starts_on)
                  (window_end_of series (capped svc lib through))
                  ts
              × (ensure_horizon svc lib series through s ≡ (ok tt, record_at (insert ts))))
  unfolding ensure_horizon ◌>>=◌
  ensure_horizon_lem through s inserted insert record_at ins rec =
      elim (Bool-cases (ltb series.materialized_through (capped svc lib through))) [
        | inr e ↦ inl (ground (arith, e), rw e refl)
        | inl e ↦
            let found =
              occurrence_times_lem lib series loc hour minute ready series.materialized_through
                (capped svc lib through) in
            inr (
              ground (arith, e),
              (found.0, found.1, found.2, rw (e, found.1, ins found.0, rec (insert found.0)) refl),
            )
      ]

-- The series as the store gives it once the horizon is recorded.
abbrev pub recorded : EventSeries → ℕ → EventSeries
recorded series through = record series { materialized_through = through }

-- A validated series that is expanded from its recorded horizon on gives no instant before that
-- horizon: an occurrence that an earlier expansion left out, as by the bound on rows, is not made up
-- for.
horizon_forgets :
    (lib : TimeLib) (series : EventSeries) (loc : Location) (hour minute through later t : ℕ)
    → IsReady lib (recorded series through) loc hour minute
    → t < through
    → (ts : List ℕ) × (occurrence_times lib (recorded series through) through later ≡ ok ts)
      × (any (λ x. x == t) ts ≡ false)
horizon_forgets lib series loc hour minute through later t ready h =
    let found =
      occurrence_times_lem lib (recorded series through) loc hour minute ready through later in
    (
      found.0,
      found.1,
      none_before (max_time through series.starts_on)
          (window_end_of (recorded series through) later) t found.0 (ground arith) found.2.0,
    )
