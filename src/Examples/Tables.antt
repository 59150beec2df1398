-- ===== src/Examples/Tables.antt =====
-- Tables with a few rows, a sender and a dispatcher over them.
use tinku.Prelude.{
  String, true, false, List, [], ◌∷◌, ◌++◌, none, some, ◌≡◌, ◌≤◌, ◌<◌, inr, refl, arith, count,
  find,
}
use tinku.Prelude.Result.{ok}
use tinku.Prelude.Exec.{◌>>=◌}
use tinku.Store.Model.{OwnerRef, owner_kind_organization, offer_accepted}
use tinku.Webhooks.Change.{Change, action_updated, subject_event}
use tinku.Webhooks.Queue.{
  Queue, Webhook, WebhookInput, QueuedDelivery, WebhookDelivery, is_delivery, owned_by,
  webhook_scope_all, webhook_failed,
}
use tinku.Webhooks.Queue.Drain.{IsWellFormed, remaining, queue_keeps_promises}
use tinku.Webhooks.Sender.{Sender, deliver, max_attempts}
use tinku.Webhooks.Sender.Progress.{deliver_progress}
use tinku.Webhooks.Routing.{Dispatcher, matching, queue_change, base_of, time_of}
use tinku.Webhooks.Routing.Bodies.{send_each, queue_change_lem}
use tinku.Store.Sqlite.Offers.{
  OfferRow, pending_for, new_offer, create_gathering_offer, resolve_gathering_offer,
}
use tinku.Store.Sqlite.Offers.Once.{one_open_offer}
use tinku.Store.Sqlite.Rosters.{Rosters}

abbrev hook : Webhook
hook = record {
  id = "hook";
  owner_kind = "gathering";
  owner_id = "games";
  url = "https://there";
  secret = "key";
  scope = webhook_scope_all;
  note = "";
  active = true;
  include_details = false;
  failure_count = 5;
  last_status = none;
  last_attempt_at = none;
  created_at = 1;
  updated_at = 1;
}

abbrev row : QueuedDelivery
row = record {
  id = "d1";
  webhook_id = "hook";
  payload = "{}";
  attempts = 5;
  next_try_at = 10;
  last_error = "";
}

abbrev queue : Queue
queue = record { webhooks = hook ∷ []; deliveries = row ∷ [] }

row_found : find (is_delivery "d1") (row ∷ []) ≡ some row
unfolding find
row_found = refl

one_delivery : (id : String) → count (is_delivery id) (row ∷ []) ≤ 1
unfolding count
one_delivery id = ground arith

queue_wf : IsWellFormed max_attempts queue
queue_wf = record { one_row = one_delivery; tries_left = ground arith }

queue_keeps_promises_example : IsWellFormed 6 (webhook_failed "d1" "hook" 500 "late" 20 6 queue).1
queue_keeps_promises_example =
    (queue_keeps_promises 6 queue "d1" "hook" "{}" "late" 500 20 (ground arith) queue_wf).2

one_webhook : (kind owner_id : String) → count (owned_by kind owner_id) (hook ∷ []) ≤ 5
unfolding count
one_webhook kind owner_id = ground arith

abbrev quiet : WebhookInput
quiet = record {
  url = "https://there";
  scope = webhook_scope_all;
  note = "";
  active = false;
  include_details = false;
}

abbrev sender : Sender
sender = record {
  client_do = λ r. inr 503;
  sign = λ key body. key;
  answered = λ status. "refused";
  user_agent = "tinku";
  now = 100;
  cancelled = λ d. false;
}

abbrev due : WebhookDelivery
due = record {
  id = "d1";
  webhook_id = "hook";
  payload = "{}";
  attempts = 5;
  url = "https://there";
  secret = "key";
}

deliver_progress_example :
    remaining max_attempts (deliver sender due queue).deliveries
    < remaining max_attempts queue.deliveries
deliver_progress_example = deliver_progress sender due queue row queue_wf row_found

-- Bodies are queued in the state itself.
abbrev post_office : Dispatcher (List String)
post_office = record {
  list_webhooks = λ kind owner_id s. ok (hook ∷ []);
  queue_webhook_delivery = λ id body at s. (ok tt, s ++ body ∷ []);
  marshal = λ p. ok p.name;
  origin_domain = "here";
  now = 100;
}

abbrev chess : Change
chess = record {
  action = action_updated;
  subject = subject_event;
  id = "soon";
  name = "Chess";
  gathering_id = "games";
  organization_ids = [];
  details = none;
  at = 0;
}

queue_change_lem_example :
    queue_change post_office chess []
    ≡ (matching post_office chess
          >>= send_each post_office
              (base_of post_office chess)
              chess.details
              (time_of post_office chess))
        []
queue_change_lem_example = queue_change_lem post_office chess []

abbrev open_offer : OfferRow
open_offer = new_offer "o1" "games" "club" "ann" "" 1

one_open : (g o : String) → count (pending_for g o) (open_offer ∷ []) ≤ 1
unfolding count
one_open g o = ground arith

one_open_offer_example :
    (count
        (pending_for "games" "club")
        (create_gathering_offer "o2" "games" "club" "ann" "" 8 (open_offer ∷ [])).1
      ≤ 1)
    × (count
          (pending_for "games" "club")
          (resolve_gathering_offer "o2" offer_accepted 8 (open_offer ∷ [])).1
        ≤ 1)
one_open_offer_example =
    one_open_offer (open_offer ∷ []) "o2" "ann" "" offer_accepted "games" "club" 8 refl one_open
      "games" "club"

abbrev rosters : Rosters
rosters = record {
  organization_members = record { organization_id = "club"; user_id = "ann"; role = "member" } ∷ [];
  gathering_owners = [];
  gathering_members = [];
}

abbrev club_ref : OwnerRef
club_ref = record {
  kind = owner_kind_organization;
  id = "club";
  display_name = "";
  handle = "";
  origin_domain = "";
}
