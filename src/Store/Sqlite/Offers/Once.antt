-- ===== src/Store/Sqlite/Offers/Once.antt =====
-- An offer is made once while it is open, and answered once.
use tinku.Prelude.{
  ℕ, String, false, List, [], ◌∷◌, none, ◌≡◌, refl, ◌≤◌, ◌&&◌, str_eq, eq_iff, arith, find, any,
  update_where, count, inl, inr, Option-cases,
}
use tinku.Prelude.Counts.{count-append}
use tinku.Store.Model.{offer_pending}
use tinku.Store.Sqlite.Offers.{
  OfferRow, has_id, is_pending, pending_for, create_gathering_offer, resolve_gathering_offer,
  answer, new_offer,
}

module _ (id status : String) (now : ℕ) (final : str_eq status offer_pending ≡ false) where
  none_pending :
      (rows : List OfferRow)
      → any
          (λ o. has_id id o && is_pending o)
          (update_where (λ o. has_id id o && is_pending o) (answer status now) rows)
        ≡ false
  unfolding any update_where
  none_pending [] = refl
  none_pending (o ∷ rows) = ground (arith, none_pending rows)

  unchanged :
      (later : String) (at : ℕ) (rows : List OfferRow)
      → any (λ o. has_id id o && is_pending o) rows ≡ false
      → update_where (λ o. has_id id o && is_pending o) (answer later at) rows ≡ rows
  unfolding any update_where
  unchanged later at [] h = refl
  unchanged later at (o ∷ rows) h = ground (arith, unchanged later at rows)

  -- Once an offer has a final answer, a second one reports that it changed nothing and does change
  -- nothing, whatever it says and whenever it comes.
  answered_once :
      (later : String) (at : ℕ) (rows : List OfferRow)
      → resolve_gathering_offer id later at (resolve_gathering_offer id status now rows).1
        ≡ (false, (resolve_gathering_offer id status now rows).1)
  unfolding resolve_gathering_offer
  answered_once later at rows = ground (
    arith,
    none_pending rows,
    unchanged later at (update_where (λ o. has_id id o && is_pending o) (answer status now) rows),
  )

  pending-answer_le :
      (g o : String) (rows : List OfferRow)
      → count
          (pending_for g o)
          (update_where (λ r. has_id id r && is_pending r) (answer status now) rows)
        ≤ count (pending_for g o) rows
  unfolding count update_where
  pending-answer_le g o [] = omega arith
  pending-answer_le g o (r ∷ rows) = ground (arith, pending-answer_le g o rows)

none_found :
    (g o : String) (rows : List OfferRow)
    → find (pending_for g o) rows ≡ none
    → count (pending_for g o) rows ≡ 0
unfolding count find
none_found g o [] h = refl
none_found g o (r ∷ rows) h = ground (arith, none_found g o rows)

-- A gathering has at most one open offer to an organization, and keeps to it when an offer is made
-- or gets a final answer.
pub one_open_offer :
    (rows : List OfferRow) (id by note status g' o' : String) (now : ℕ)
    → str_eq status offer_pending ≡ false
    → ((g o : String) → count (pending_for g o) rows ≤ 1)
    → (g o : String)
    → (count (pending_for g o) (create_gathering_offer id g' o' by note now rows).1 ≤ 1)
      × (count (pending_for g o) (resolve_gathering_offer id status now rows).1 ≤ 1)
unfolding create_gathering_offer resolve_gathering_offer count
one_open_offer rows id by note status g' o' now final h g o = (
  elim (Option-cases (find (pending_for g' o') rows)) [
    | inl e ↦ ground (
      arith,
      e,
      none_found g' o' rows e,
      h g o,
      eq_iff g' g,
      eq_iff o' o,
      count-append (pending_for g o) rows (new_offer id g' o' by note now ∷ []),
    )
    | inr (r, e) ↦ ground (arith, e, h g o)
  ],
  omega (arith, h g o, pending-answer_le id status now final g o rows),
)
