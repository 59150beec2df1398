-- ===== src/Federation/Outbox/Silence.antt =====
-- When the sender stops choosing a peer.
use tinku.Prelude.{
  ℕ, suc, zero, ◌≡◌, ◌≤◌, refl, sym, ◌∙◌, String, Bool, true, false, List, [], ◌∷◌, ◌&&◌, leb,
  str_eq, eq_iff, any, find, some, Bool-cases, Option-cases, inl, inr, arith, update_where, take,
  if◌then◌else◌,
}
use tinku.Federation.Outbox.{
  FederationPeer, OutboxRow, OutboxItem, Outbox, is_peer, is_sendable, join_peer, due_deliveries,
  record_delivery_failure, began, fail,
}
use tinku.Webhooks.Queue.{order_by}

abbrev pub is_for : String → OutboxItem → Bool
is_for peer_id i = str_eq i.row.peer_id peer_id

find-update :
    (id : String) (f : FederationPeer → FederationPeer) (ps : List FederationPeer)
    (p : FederationPeer)
    → ((q : FederationPeer) → (f q).id ≡ q.id)
    → find (is_peer id) ps ≡ some p
    → find (is_peer id) (update_where (is_peer id) f ps) ≡ some (f p)
unfolding find update_where
find-update id f [] p same h = cc
find-update id f (q ∷ ps) p same h = ground (arith, h, same q, find-update id f ps p same)

any-take :
    (p : OutboxItem → Bool) (n : ℕ) (is : List OutboxItem)
    → any p is ≡ false
    → any p (take n is) ≡ false
unfolding any
any-take p zero is h = refl
any-take p (suc n) [] h = refl
any-take p (suc n) (i ∷ is) h = ground (arith, h, any-take p n is)

some_eq : {a b : FederationPeer} → some a ≡ some b → a ≡ b
some_eq h = cc

skipped :
    (p : OutboxItem → Bool) (b : Bool) (i : OutboxItem) (is : List OutboxItem)
    → any p is ≡ false
    → any p (if b && false then i ∷ is else is) ≡ false
skipped p true i is h = h
skipped p false i is h = h

other :
    (p : OutboxItem → Bool) (b : Bool) (i : OutboxItem) (is : List OutboxItem)
    → p i ≡ false
    → any p is ≡ false
    → any p (if b then i ∷ is else is) ≡ false
unfolding any
other p true i is n h = rw (n, h) refl
other p false i is n h = h

not_joined :
    (peer_id : String) (peers : List FederationPeer) (now : ℕ) (rows : List OutboxRow)
    (p : FederationPeer)
    → find (is_peer peer_id) peers ≡ some p
    → is_sendable p ≡ false
    → any (is_for peer_id) (join_peer peers now rows) ≡ false
unfolding any
not_joined peer_id peers now [] p h u = refl
not_joined peer_id peers now (r ∷ rs) p h u =
    let rest = not_joined peer_id peers now rs p h u in
    elim (Option-cases (find (is_peer r.peer_id) peers)) [
      | inl e ↦ rw (e, any) rest
      | inr (q, e) ↦ elim (Bool-cases (str_eq r.peer_id peer_id)) [
        | inl y ↦
            let same : q ≡ p = some_eq (sym e ∙ (rw ((eq_iff r.peer_id peer_id).0 y) h)) in
            rw (e, any, same, u)
              (skipped (is_for peer_id) (leb r.next_attempt_at now)
                (record { row = r; peer_address = p.address; peer_base_url = p.base_url })
                (join_peer peers now rs) rest)
        | inr n ↦
            rw (e, any)
              (other (is_for peer_id) (leb r.next_attempt_at now && is_sendable q)
                (record { row = r; peer_address = q.address; peer_base_url = q.base_url })
                (join_peer peers now rs) n rest)
      ]
    ]

suspended :
    (reason : String) (at cutoff : ℕ) (p : FederationPeer)
    → began at p.first_failure_at ≤ cutoff
    → is_sendable (fail reason at cutoff p) ≡ false
suspended reason at cutoff p l = ground (arith, l)

-- A peer whose run of failures began at or before the cutoff is suspended by the next failure: from
-- then on nothing of it is due, at any time and for any size of a batch, until its row is changed.
pub failing_peer_silent :
    (peer_id reason : String) (at cutoff now limit : ℕ) (o : Outbox) (p : FederationPeer)
    → find (is_peer peer_id) o.peers ≡ some p
    → began at p.first_failure_at ≤ cutoff
    → any
        (is_for peer_id)
        (due_deliveries now limit (record_delivery_failure peer_id reason at cutoff o))
      ≡ false
unfolding due_deliveries record_delivery_failure
failing_peer_silent peer_id reason at cutoff now limit o p h l =
    any-take (is_for peer_id) limit
      (join_peer (record_delivery_failure peer_id reason at cutoff o).peers now
        (order_by (λ r. r.next_attempt_at) o.rows))
      (not_joined peer_id (record_delivery_failure peer_id reason at cutoff o).peers now
        (order_by (λ r. r.next_attempt_at) o.rows) (fail reason at cutoff p)
        (find-update peer_id (fail reason at cutoff) o.peers p (λ q. refl) h)
        (suspended reason at cutoff p l))
