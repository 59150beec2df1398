-- ===== src/Store/Sqlite/Series/Occurrences.antt =====
-- What inserting and deleting occurrences keeps.
use tinku.Prelude.{
  ℕ, ◌≤◌, ◌≡◌, refl, ◌∙◌, String, Bool, true, false, List, [], ◌∷◌, ◌++◌, some, ◌&&◌, ◌||◌, not,
  any, count, leb, ltb, ==_iff, eq_iff, eq_refl, arith, Bool-cases, inl, inr,
}
use tinku.Prelude.Counts.{count-append, any-append, count-filter_le}
use tinku.Store.Sqlite.Series.{
  EventRow, NewOccurrence, of_series, at_instant, delete_occurrences_from, upsert_occurrences,
  insert_occurrence,
}

-- events_series_occurrence_idx: a series has at most one occurrence at an instant.
abbrev pub HasUniqueInstants : List EventRow → Type 0
HasUniqueInstants rows = (series_id : String) (t : ℕ) → count (at_instant series_id t) rows ≤ 1

count-any_none {ℓ} : {A : Type ℓ} (p : A → Bool) (xs : List A) → any p xs ≡ false → count p xs ≡ 0
unfolding any count
count-any_none p [] h = refl
count-any_none p (x ∷ xs) h = ground (arith, count-any_none p xs)

module _ (series_id : String) (in_ : NewOccurrence) where
  abbrev row : EventRow
  row = record {
    id = in_.id;
    series_id = some series_id;
    starts_at = in_.starts_at;
    fields = in_.fields;
  }

  -- The new row is counted only for its own series and instant, where there was none.
  count_new :
      (rows : List EventRow) (sid : String) (t : ℕ)
      → any (at_instant series_id in_.starts_at) rows ≡ false
      → count (at_instant sid t) rows ≤ 1
      → count (at_instant sid t) (rows ++ row ∷ []) ≤ 1
  unfolding count
  count_new rows sid t free h = elim (Bool-cases (at_instant sid t row)) [
    | inl y ↦
        let same : series_id ≡ sid = (eq_iff series_id sid).0 (ground (arith, y)) in
        let when : in_.starts_at ≡ t = (==_iff in_.starts_at t).0 (ground (arith, y)) in
        let none_yet : count (at_instant sid t) rows ≡ 0 =
          count-any_none (at_instant sid t) rows (rw (same, when) at free) in
        ground (arith, count-append (at_instant sid t) rows (row ∷ []), none_yet, y)
    | inr y ↦ ground (arith, count-append (at_instant sid t) rows (row ∷ []), y)
  ]

  insert-HasUniqueInstants :
      (rows : List EventRow)
      → HasUniqueInstants rows
      → HasUniqueInstants (insert_occurrence series_id in_ rows)
  insert-HasUniqueInstants rows h sid t =
      elim (Bool-cases (any (at_instant series_id in_.starts_at) rows)) [
        | inl y ↦ rw y (h sid t)
        | inr y ↦ rw y (count_new rows sid t y (h sid t))
      ]

upsert-HasUniqueInstants :
    (series_id : String) (ins : List NewOccurrence) (rows : List EventRow)
    → HasUniqueInstants rows
    → HasUniqueInstants (upsert_occurrences series_id ins rows)
unfolding upsert_occurrences
upsert-HasUniqueInstants series_id [] rows h = h
upsert-HasUniqueInstants series_id (in_ ∷ ins) rows h =
    upsert-HasUniqueInstants series_id ins (insert_occurrence series_id in_ rows)
      (insert-HasUniqueInstants series_id in_ rows h)

-- A series keeps at most one occurrence at an instant, whatever is inserted and deleted.
pub instants_stay_unique :
    (series_id : String) (ins : List NewOccurrence) (not_before : ℕ) (rows : List EventRow)
    → HasUniqueInstants rows
    → HasUniqueInstants (upsert_occurrences series_id ins rows)
      × HasUniqueInstants (delete_occurrences_from series_id not_before rows)
unfolding delete_occurrences_from
instants_stay_unique series_id ins not_before rows h = (
  upsert-HasUniqueInstants series_id ins rows h,
  λ sid t. omega (
    arith,
    h sid t,
    count-filter_le (at_instant sid t)
        (λ e. not (of_series series_id e && leb not_before e.starts_at)) rows,
  ),
)

-- The rows of anything else, and the occurrences of the series that start before an instant.
abbrev pub is_earlier : String → ℕ → EventRow → Bool
is_earlier series_id now e = not (of_series series_id e) || ltb e.starts_at now

inserted :
    (series_id : String) (in_ : NewOccurrence) (rows : List EventRow)
    → any (at_instant series_id in_.starts_at) (insert_occurrence series_id in_ rows) ≡ true
unfolding any
inserted series_id in_ rows = elim (Bool-cases (any (at_instant series_id in_.starts_at) rows)) [
  | inl y ↦ rw (y, y) refl
  | inr y ↦ rw y (
      any-append (at_instant series_id in_.starts_at) rows (row series_id in_ ∷ [])
      ∙ (ground (arith, eq_refl series_id)))
]
