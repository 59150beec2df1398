-- ===== src/Store/Sqlite/Offers.antt =====
-- store/sqlite/offers.go: the table `gathering_offers`. The names that reading joins in from other
-- tables are left out.
pub mod Once
use tinku.Prelude.{
  ℕ, String, Bool, true, false, List, [], ◌∷◌, ◌++◌, Option, none, some, ◌&&◌, ◌||◌, str_eq,
  if◌then◌else◌, find, any, update_where,
}
use tinku.Prelude.Result.{Result, ok, err, err_not_found}
use tinku.Prelude.Exec.{Exec}
use tinku.Store.Model.{offer_pending}

pub record OfferRow : Type 0 where
  pub id : String
  pub gathering_id : String
  pub organization_id : String
  pub offered_by : String
  pub note : String
  pub status : String
  pub created_at : ℕ
  pub resolved_at : Option ℕ

abbrev pub has_id : String → OfferRow → Bool
has_id id o = str_eq o.id id

abbrev pub is_pending : OfferRow → Bool
is_pending o = str_eq o.status offer_pending

abbrev pub pending_for : String → String → OfferRow → Bool
pending_for gathering_id organization_id o =
    str_eq o.gathering_id gathering_id && str_eq o.organization_id organization_id && is_pending o

unfoldable pub gathering_offer_by_id : String → List OfferRow → Result OfferRow
gathering_offer_by_id id rows = elim (find (has_id id) rows) [
  | none ↦ err err_not_found
  | some o ↦ ok o
]

abbrev pub new_offer : String → String → String → String → String → ℕ → OfferRow
new_offer id gathering_id organization_id offered_by note now = record {
  id = id;
  gathering_id = gathering_id;
  organization_id = organization_id;
  offered_by = offered_by;
  note = note;
  status = offer_pending;
  created_at = now;
  resolved_at = none;
}

-- An offer that is still open is answered with, in place of a second one.
unfoldable pub create_gathering_offer :
    String → String → String → String → String → ℕ → Exec (List OfferRow) OfferRow
unfolding gathering_offer_by_id
create_gathering_offer new_id gathering_id organization_id offered_by note now rows =
    elim (find (pending_for gathering_id organization_id) rows) [
      | some o ↦ (gathering_offer_by_id o.id rows, rows)
      | none ↦
          let rows' =
            rows ++ new_offer new_id gathering_id organization_id offered_by note now ∷ [] in
          (gathering_offer_by_id new_id rows', rows')
    ]

abbrev pub answer : String → ℕ → OfferRow → OfferRow
answer status now o = record o { status = status; resolved_at = some now }

-- UPDATE … WHERE id AND status = 'pending'; whether a row was affected.
unfoldable pub resolve_gathering_offer : String → String → ℕ → List OfferRow → Bool × List OfferRow
resolve_gathering_offer id status now rows = (
  any (λ o. has_id id o && is_pending o) rows,
  update_where (λ o. has_id id o && is_pending o) (answer status now) rows,
)
