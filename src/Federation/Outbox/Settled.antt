-- ===== src/Federation/Outbox/Settled.antt =====
-- What a pass of the sender takes off the outbox.
use tinku.Prelude.{
  ◌+◌, ◌≡◌, refl, sym, ◌∙◌, String, Bool, true, false, List, [], ◌∷◌, ◌&&◌, not, str_eq, eq_iff,
  any, filter, All, Bool-cases, inl, inr, arith, update_where,
}
use tinku.Prelude.Counts.{any-filter_apart}
use tinku.Federation.Outbox.{
  OutboxRow, OutboxItem, Outbox, Sender, Delivery, accepted, rate_limited, refused, failed, crashed,
  has_id, deliver, record_outcome, is_crash, send_each, run_once, due_deliveries, next_attempt,
}

-- The answer of the peer settles the row.
abbrev pub is_settled : Delivery → Bool
is_settled accepted = true
is_settled refused = true
is_settled rate_limited = false
is_settled (failed e) = false
is_settled crashed = false

any-update :
    (id : String) (p : OutboxRow → Bool) (f : OutboxRow → OutboxRow) (rows : List OutboxRow)
    → ((r : OutboxRow) → (f r).id ≡ r.id)
    → any (has_id id) (update_where p f rows) ≡ any (has_id id) rows
unfolding any update_where
any-update id p f [] same = refl
any-update id p f (r ∷ rs) same = ground (arith, any-update id p f rs same, same r)

str_eq_comm : (a b : String) → str_eq a b ≡ str_eq b a
str_eq_comm a b = elim (Bool-cases (str_eq a b)) [
  | inl y ↦ y ∙ sym ((eq_iff b a).1 (sym ((eq_iff a b).0 y)))
  | inr n ↦ elim (Bool-cases (str_eq b a)) [
    | inl y ↦ (eq_iff a b).1 (sym ((eq_iff b a).0 y)) ∙ sym y
    | inr m ↦ n ∙ sym m
  ]
]

same_test : (x id : String) (r : OutboxRow) → has_id id r ≡ true → has_id x r ≡ str_eq x id
same_test x id r h = rw ((eq_iff r.id id).0 h) (str_eq_comm id x)

kept : (a b : Bool) → b ≡ (not (a && false) && b)
kept a b = ground arith

All-rows : (P : OutboxRow → Type 0) (rows : List OutboxRow) → ((r : OutboxRow) → P r) → All P rows
All-rows P [] h = tt
All-rows P (r ∷ rs) h = (h r, All-rows P rs h)

any-delete :
    (x id : String) (rows : List OutboxRow)
    → any (has_id id) (filter (λ r. not (has_id x r)) rows)
      ≡ (not (str_eq x id) && any (has_id id) rows)
any-delete x id rows =
    any-filter_apart (has_id id) (has_id x) (str_eq x id) rows
      (All-rows (λ r. has_id id r ≡ true → has_id x r ≡ str_eq x id) rows (same_test x id))

module _ (s : Sender) where
  -- The item is the row's, and what comes of it settles the row.
  abbrev pub settles : String → OutboxItem → Bool
  settles id item = str_eq item.row.id id && is_settled (deliver s item)

  one_item :
      (id : String) (item : OutboxItem) (d : Delivery) (o : Outbox)
      → any (has_id id) (record_outcome s item d o).rows
        ≡ (not (str_eq item.row.id id && is_settled d) && any (has_id id) o.rows)
  unfolding record_outcome
  one_item id item accepted o = rw (any-delete item.row.id id o.rows) (ground arith)
  one_item id item refused o = rw (any-delete item.row.id id o.rows) (ground arith)
  one_item id item rate_limited o =
      any-update id (has_id item.row.id)
        (λ r. record r {
          last_error = "refused for rate; will retry";
          next_attempt_at = s.now + s.rate_delay;
        })
        o.rows (λ r. refl)
      ∙ kept (str_eq item.row.id id) (any (has_id id) o.rows)
  one_item id item (failed e) o =
      any-update id (has_id item.row.id)
        (λ r. record r {
          attempts = r.attempts + 1;
          last_error = s.message_of e;
          next_attempt_at = next_attempt s item.row.attempts;
        })
        o.rows (λ r. refl)
      ∙ kept (str_eq item.row.id id) (any (has_id id) o.rows)
  one_item id item crashed o = ground arith

  each_item :
      (id : String) (items : List OutboxItem) (o : Outbox)
      → All (λ i. is_crash s (deliver s i) ≡ false) items
      → any (has_id id) (send_each s items o).rows
        ≡ (not (any (settles id) items) && any (has_id id) o.rows)
  unfolding send_each any
  each_item id [] o h = refl
  each_item id (i ∷ is) o h = rw h.0 (
      each_item id is (record_outcome s i (deliver s i) o) h.1
      ∙ (rw (one_item id i (deliver s i) o) (ground arith)))

  -- A delivery is in the outbox after a pass exactly if it was there before and no peer that it was
  -- sent to answered that it took it, or that it refuses it for another reason than the rate: no
  -- error, no limit and nothing that is not sent takes it off. The answers do not make the decoder
  -- panic.
  pub run_once_lem :
      (id : String) (o : Outbox)
      → All (λ i. is_crash s (deliver s i) ≡ false) (due_deliveries s.now s.batch_size o)
      → any (has_id id) (run_once s o).rows
        ≡ (not (any (settles id) (due_deliveries s.now s.batch_size o)) && any (has_id id) o.rows)
  unfolding run_once
  run_once_lem id o h = each_item id (due_deliveries s.now s.batch_size o) o h
