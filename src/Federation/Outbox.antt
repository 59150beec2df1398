-- ===== src/Federation/Outbox.antt =====
-- api/internal/federation/sender.go, and the outbox and the peers of
-- api/internal/store/sqlite/federation.go. A pass sees one reading of the clock, and its context is
-- not cancelled.
pub mod Settled
pub mod Silence
use tinku.Prelude.{
  ℕ, zero, suc, ◌+◌, ◌-◌, ◌*◌, ◌^◌, String, Bool, true, false, List, [], ◌∷◌, ◌++◌, Option, none,
  some, ◌&&◌, ◌||◌, not, str_eq, if◌then◌else◌, any, filter, find, is_some, ltb, leb, ◌==◌,
  update_where, take,
}
use tinku.Webhooks.Queue.{order_by}
use tinku.Transport.Conventions.{Bytes, Wire, ok, err, panic, is_ok}
use tinku.Transport.Rpc.{RpcResponse, new_rpc_request, encode_request, decode_rpc_response}

pub record FederationPeer : Type 0 where
  pub id : String
  pub address : String
  pub base_url : String
  pub outbound_status : String
  pub suspended_at : Option ℕ
  pub first_failure_at : Option ℕ
  pub last_failure_at : Option ℕ
  pub last_failure_reason : String
  pub last_success_at : Option ℕ

pub record OutboxRow : Type 0 where
  pub id : String
  pub peer_id : String
  pub event_id : String
  pub payload : Bytes
  pub attempts : ℕ
  pub next_attempt_at : ℕ
  pub last_error : String

-- The two tables.
pub record Outbox : Type 0 where
  pub peers : List FederationPeer
  pub rows : List OutboxRow

pub record OutboxItem : Type 0 where
  pub row : OutboxRow
  pub peer_address : String
  pub peer_base_url : String

abbrev pub has_id : String → OutboxRow → Bool
has_id id r = str_eq r.id id

abbrev pub is_peer : String → FederationPeer → Bool
is_peer id p = str_eq p.id id

abbrev pub to_peer_and_event : String → String → OutboxRow → Bool
to_peer_and_event peer_id event_id r = str_eq r.peer_id peer_id && str_eq r.event_id event_id

unfoldable pub enqueue_delivery :
    String → String → String → Bytes → ℕ → List OutboxRow → List OutboxRow
enqueue_delivery new_id peer_id event_id payload due_at rows =
    if any (to_peer_and_event peer_id event_id) rows
    then update_where (to_peer_and_event peer_id event_id)
        (λ r. record r {
          payload = payload;
          next_attempt_at = due_at;
          attempts = 0;
          last_error = "";
        })
        rows
    else rows
      ++ record {
        id = new_id;
        peer_id = peer_id;
        event_id = event_id;
        payload = payload;
        attempts = 0;
        next_attempt_at = due_at;
        last_error = "";
      }
        ∷ []

-- Whom the sender chooses.
abbrev pub is_sendable : FederationPeer → Bool
is_sendable p = str_eq p.outbound_status "approved" && not (is_some p.suspended_at)

abbrev pub join_peer : List FederationPeer → ℕ → List OutboxRow → List OutboxItem
join_peer peers now [] = []
join_peer peers now (r ∷ rs) =
    let rest = join_peer peers now rs in
    elim (find (is_peer r.peer_id) peers) [
      | none ↦ rest
      | some p ↦
          if leb r.next_attempt_at now && is_sendable p
          then record { row = r; peer_address = p.address; peer_base_url = p.base_url } ∷ rest
          else rest
    ]

unfoldable pub due_deliveries : ℕ → ℕ → Outbox → List OutboxItem
unfolding order_by
due_deliveries now limit o =
    take limit (join_peer o.peers now (order_by (λ r. r.next_attempt_at) o.rows))

unfoldable pub mark_delivered : String → Outbox → Outbox
mark_delivered id o = record o { rows = filter (λ r. not (has_id id r)) o.rows }

unfoldable pub mark_delivery_failed : String → String → ℕ → Outbox → Outbox
mark_delivery_failed id reason next o = record o {
  rows =
      update_where (has_id id)
        (λ r. record r { attempts = r.attempts + 1; last_error = reason; next_attempt_at = next })
        o.rows;
}

unfoldable pub defer_delivery : String → String → ℕ → Outbox → Outbox
defer_delivery id reason next o = record o {
  rows =
      update_where (has_id id) (λ r. record r { last_error = reason; next_attempt_at = next })
        o.rows;
}

unfoldable pub record_delivery_success : String → ℕ → Outbox → Outbox
record_delivery_success peer_id at o = record o {
  peers =
      update_where (is_peer peer_id)
        (λ p. record p {
          last_success_at = some at;
          first_failure_at = none;
          last_failure_reason = "";
        })
        o.peers;
}

-- COALESCE
abbrev pub began : ℕ → Option ℕ → ℕ
began at none = at
began at (some t) = t

abbrev pub suspend : ℕ → ℕ → FederationPeer → Option ℕ
suspend at cutoff p =
    if is_some p.suspended_at
    then p.suspended_at
    else if leb (began at p.first_failure_at) cutoff
    then some at
    else none

abbrev pub fail : String → ℕ → ℕ → FederationPeer → FederationPeer
fail reason at cutoff p = record p {
  first_failure_at = some (began at p.first_failure_at);
  last_failure_at = some at;
  last_failure_reason = reason;
  suspended_at = suspend at cutoff p;
}

unfoldable pub record_delivery_failure : String → String → ℕ → ℕ → Outbox → Outbox
record_delivery_failure peer_id reason at cutoff o = record o {
  peers = update_where (is_peer peer_id) (fail reason at cutoff) o.peers;
}

unfoldable pub resume_peer : String → ℕ → Outbox → Outbox
resume_peer peer_id now o = record {
  peers =
      update_where (is_peer peer_id)
        (λ p. record p { suspended_at = none; first_failure_at = none; last_failure_reason = "" })
        o.peers;
  rows =
      update_where (λ (r : OutboxRow). str_eq r.peer_id peer_id)
        (λ r. record r { next_attempt_at = now; attempts = 0 }) o.rows;
}

pub record DeliveryReceipt : Type 0 where
  pub accepted : ℕ
  pub rate_limited : ℕ

pub data DeliveryError : Type 0 where
  no_base_url : DeliveryError
  unreachable : DeliveryError
  answered_http : ℕ → DeliveryError
  unreadable_answer : DeliveryError
  not_a_response : DeliveryError
  status_refused : DeliveryError
  service_refused : DeliveryError
  not_a_receipt : DeliveryError

-- What `deliver` returns; `crashed` is a panic of the decoder.
pub data Delivery : Type 0 where
  accepted : Delivery
  rate_limited : Delivery
  refused : Delivery
  failed : DeliveryError → Delivery
  crashed : Delivery

-- The answer to a post: its status, and its body unless reading that failed.
pub record HttpAnswer : Type 0 where
  pub status : ℕ
  pub body : Option Bytes

pub record Sender : Type 0 where
  -- The HTTP client, asked under the base URL of a peer, and the generated decoder.
  pub exchange : String → Bytes → Option HttpAnswer
  pub decode_delivery_receipt : Bytes → Option DeliveryReceipt
  pub alloc_limit : ℕ
  -- The text of an error.
  pub message_of : DeliveryError → String
  pub now : ℕ
  pub failure_window : ℕ
  pub base_delay : ℕ
  pub max_delay : ℕ
  pub rate_delay : ℕ
  pub batch_size : ℕ

abbrev service_name : Bytes
service_name = 102 ∷ 101 ∷ 100 ∷ 101 ∷ 114 ∷ 97 ∷ 116 ∷ 105 ∷ 111 ∷ 110 ∷ []

abbrev op_name : Bytes
op_name = 100 ∷ 101 ∷ 108 ∷ 105 ∷ 118 ∷ 101 ∷ 114 ∷ 45 ∷ 101 ∷ 118 ∷ 101 ∷ 110 ∷ 116 ∷ 115 ∷ []

abbrev service_error : Bytes
service_error = 83 ∷ 101 ∷ 114 ∷ 118 ∷ 105 ∷ 99 ∷ 101 ∷ 69 ∷ 114 ∷ 114 ∷ 111 ∷ 114 ∷ []

abbrev bytes_eq : Bytes → Bytes → Bool
bytes_eq [] [] = true
bytes_eq (x ∷ xs) [] = false
bytes_eq [] (y ∷ ys) = false
bytes_eq (x ∷ xs) (y ∷ ys) = x == y && bytes_eq xs ys

abbrev is_service_error : Option Bytes → Bool
is_service_error none = false
is_service_error (some v) = bytes_eq v service_error

abbrev read_receipt : Option DeliveryReceipt → Delivery
read_receipt none = failed not_a_receipt
read_receipt (some r) =
    if ltb 0 r.accepted then accepted else if ltb 0 r.rate_limited then rate_limited else refused

module _ (s : Sender) where
  abbrev read_response : Wire RpcResponse → Delivery
  read_response (err e) = failed not_a_response
  read_response panic = crashed
  read_response (ok r) =
      if not (is_ok r.status)
      then failed status_refused
      else if is_service_error r.variant
      then failed service_refused
      else read_receipt (s.decode_delivery_receipt r.payload)

  abbrev read_body : Option Bytes → Delivery
  read_body none = failed unreadable_answer
  read_body (some b) = read_response (decode_rpc_response s.alloc_limit b)

  abbrev read_answer : Option HttpAnswer → Delivery
  read_answer none = failed unreachable
  read_answer (some a) =
      if a.status == 200 then read_body a.body else failed (answered_http a.status)

  unfoldable pub deliver : OutboxItem → Delivery
  deliver item =
      if str_eq item.peer_base_url ""
      then failed no_base_url
      else read_answer (
          s.exchange item.peer_base_url
            (encode_request (new_rpc_request service_name op_name item.row.payload)))

  -- The product of a float and a power of two is exact, and fits an int64, for a base of less than
  -- a day.
  unfoldable pub next_attempt : ℕ → ℕ
  next_attempt attempts =
      let delay : ℕ = s.base_delay * 2 ^ (if ltb attempts 16 then attempts else 16) in
      s.now + (if ltb s.max_delay delay || delay == 0 then s.max_delay else delay)

  unfoldable pub record_outcome : OutboxItem → Delivery → Outbox → Outbox
  unfolding mark_delivered mark_delivery_failed defer_delivery record_delivery_success
      record_delivery_failure next_attempt
  record_outcome item accepted o =
      record_delivery_success item.row.peer_id s.now (mark_delivered item.row.id o)
  record_outcome item refused o =
      record_delivery_success item.row.peer_id s.now (mark_delivered item.row.id o)
  record_outcome item rate_limited o =
      record_delivery_success item.row.peer_id s.now
        (defer_delivery item.row.id "refused for rate; will retry" (s.now + s.rate_delay) o)
  record_outcome item (failed e) o =
      record_delivery_failure item.row.peer_id (s.message_of e) s.now (s.now - s.failure_window)
        (mark_delivery_failed item.row.id (s.message_of e) (next_attempt item.row.attempts) o)
  record_outcome item crashed o = o

  abbrev pub is_crash : Delivery → Bool
  is_crash crashed = true
  is_crash accepted = false
  is_crash rate_limited = false
  is_crash refused = false
  is_crash (failed e) = false

  -- The loop; after a panic nothing more is sent.
  unfoldable pub send_each : List OutboxItem → Outbox → Outbox
  send_each [] o = o
  send_each (item ∷ items) o =
      let rest = send_each items (record_outcome item (deliver item) o) in
      if is_crash (deliver item) then o else rest

  unfoldable pub run_once : Outbox → Outbox
  run_once o = send_each (due_deliveries s.now s.batch_size o) o
