-- ===== src/Examples/Federation.antt =====
-- The keys of an instance and the signatures that they make.
use tinku.Prelude.{
  any, not, ℕ, ◌≡◌, refl, Bool, true, false, String, [], ◌∷◌, none, some, ◌&&◌, length, filter,
  count, find, ◌==◌, ==_iff, if◌then◌else◌, arith, str_eq,
}
use tinku.Prelude.Result.{ok, err, internal}
use tinku.Transport.Cbor.Encode.{write_head}
use tinku.Federation.Keyring.{
  Octets, Crypto, LocalKey, LocalKeyring, load_keyring, marshal_secret, retire_key, signature_input,
  sign_with_context,
}
use tinku.Federation.Outbox.{
  FederationPeer, OutboxRow, Outbox, Sender, has_id, due_deliveries, deliver, run_once,
  record_delivery_failure,
}
use tinku.Federation.Outbox.Settled.{settles, run_once_lem}
use tinku.Federation.Outbox.Silence.{is_for, failing_peer_silent}
use tinku.Federation.Keyring.Stored.{
  HasGoodKeys, Decodes, load_keyring-marshal_secret, retire_key_below,
}
use tinku.Federation.Keyring.Separation.{signature_input_injective, batch_signature_tag}
use tinku.Federation.Keyring.Signing.{
  KeyIdentity, KeySet, ApplicationKeyVerifier, trusted, verify, verify_sound,
  verify-sign_with_context, Verifies, application_key_algorithm, is_empty,
}

-- The public key is the seed, and a signature is the lengths of the two.
abbrev crypto : Crypto
crypto = record {
  public_key = λ s. s;
  sign = λ s m. length s ∷ length m ∷ [];
  encode64 = λ s. s;
  decode64 = λ s. some s;
  min_signing_keys = 2;
}

abbrev same_lengths : Octets → Octets → Octets → Bool
same_lengths key message [] = false
same_lengths key message (a ∷ []) = false
same_lengths key message (a ∷ b ∷ c) = (a == length key) && (b == length message)

crypto-Decodes : Decodes crypto
crypto-Decodes s = refl

abbrev seed : ℕ → Octets
seed n =
    n ∷ 1 ∷ 2 ∷ 3 ∷ 4 ∷ 5 ∷ 6 ∷ 7 ∷ 8 ∷ 9 ∷ 10 ∷ 11 ∷ 12 ∷ 13 ∷ 14 ∷ 15 ∷ 16 ∷ 17 ∷ 18 ∷ 19 ∷ 20
    ∷ 21 ∷ 22 ∷ 23 ∷ 24 ∷ 25 ∷ 26 ∷ 27 ∷ 28 ∷ 29 ∷ 30 ∷ 31 ∷ []

abbrev key : String → ℕ → LocalKey
key id n = record { key_id = id; seed = seed n; public = seed n; created_at = 5; retired_at = none }

abbrev keyring : LocalKeyring
keyring = record { address = "tinku@a.example"; keys = key "k1" 1 ∷ key "k2" 2 ∷ [] }

keyring-HasGoodKeys : HasGoodKeys crypto keyring
keyring-HasGoodKeys = record {
  address = refl;
  keys = ((refl, refl, refl), ((refl, refl, refl), tt));
  ids = ((refl, tt), (tt, tt));
}

load_keyring-marshal_secret_example :
    load_keyring crypto (marshal_secret crypto keyring) ≡ ok keyring
unfolding count
load_keyring-marshal_secret_example =
    load_keyring-marshal_secret crypto crypto-Decodes keyring keyring-HasGoodKeys (omega arith)
      (omega arith)

retire_key_below_example :
    (kr' : LocalKeyring) × (retire_key keyring "k2" 9 ≡ ok kr')
    × (load_keyring crypto (marshal_secret crypto kr') ≡ err (internal "too few active keys"))
unfolding count find
retire_key_below_example =
    retire_key_below crypto crypto-Decodes keyring "k2" 9 (key "k2" 2) keyring-HasGoodKeys
      (omega arith) refl refl

abbrev peer : KeyIdentity
peer = record {
  subject_user_id = "u";
  subject_domain = "a.example";
  application_id = "tinku";
  instance_id = "i";
}

abbrev peer_keys : KeySet
peer_keys id =
    if str_eq id "k1" then some (seed 1) else if str_eq id "k2" then some (seed 2) else none

abbrev verifier : ApplicationKeyVerifier
verifier = record {
  context = batch_signature_tag;
  resolve = λ i. some peer_keys;
  verifies = same_lengths;
}

crypto-Verifies : Verifies crypto verifier
crypto-Verifies s m =
    rw ((==_iff (length s) (length s)).1 refl, (==_iff (length m) (length m)).1 refl) refl

verify-sign_with_context_example :
    (signature : Octets) × (id : String) × (sign_with_context crypto
        (λ n. 1)
        keyring
        batch_signature_tag
        (7 ∷ [])
      ≡ ok (signature, id))
    × (verify crypto verifier peer application_key_algorithm id (7 ∷ []) signature ≡ trusted)
unfolding is_empty filter
verify-sign_with_context_example =
    verify-sign_with_context crypto verifier crypto-Decodes crypto-Verifies (λ n. 1) keyring
      (7 ∷ []) peer peer_keys (λ n lt. lt) (omega arith) refl refl
      ((refl, λ a. refl), ((refl, λ a. refl), tt))

verify_sound_example :
    (keys : KeySet) × (public : Octets) × (sig : Octets) × (str_eq application_key_algorithm
        application_key_algorithm
      ≡ true)
    × (is_empty peer ≡ false)
    × (some peer_keys ≡ some keys)
    × (keys "k1" ≡ some public)
    × (some (32 ∷ length (signature_input batch_signature_tag (7 ∷ [])) ∷ []) ≡ some sig)
    × (same_lengths public (signature_input batch_signature_tag (7 ∷ [])) sig ≡ true)
unfolding verify is_empty signature_input write_head
verify_sound_example =
    verify_sound crypto verifier peer application_key_algorithm "k1" (7 ∷ [])
      (32 ∷ length (signature_input batch_signature_tag (7 ∷ [])) ∷ []) refl

abbrev body : Octets
body = 7 ∷ []

signature_input_injective_example : (batch_signature_tag ≡ batch_signature_tag) × (body ≡ body)
signature_input_injective_example =
    signature_input_injective batch_signature_tag body batch_signature_tag body (ground arith)
      (ground arith) (ground arith) (ground arith) refl

-- One delivery to an approved peer, which answers with what the status says.
abbrev approved : FederationPeer
approved = record {
  id = "p";
  address = "b@b.example";
  base_url = "https://b.example";
  outbound_status = "approved";
  suspended_at = none;
  first_failure_at = some 10;
  last_failure_at = some 10;
  last_failure_reason = "";
  last_success_at = none;
}

abbrev queued : OutboxRow
queued = record {
  id = "d";
  peer_id = "p";
  event_id = "e";
  payload = 1 ∷ [];
  attempts = 2;
  next_attempt_at = 50;
  last_error = "";
}

abbrev outbox : Outbox
outbox = record { peers = approved ∷ []; rows = queued ∷ [] }

-- The peer answers with HTTP 503.
abbrev sender : Sender
sender = record {
  exchange = λ url body. some (record { status = 503; body = none });
  decode_delivery_receipt = λ b. none;
  alloc_limit = 1000;
  message_of = λ e. "";
  now = 100;
  failure_window = 20;
  base_delay = 30;
  max_delay = 3600;
  rate_delay = 70;
  batch_size = 50;
}

run_once_lem_example : any (has_id "d") (run_once sender outbox).rows ≡ (
    not (any (settles sender "d") (due_deliveries 100 50 outbox)) && any (has_id "d") (queued ∷ []))
unfolding due_deliveries deliver find
run_once_lem_example = run_once_lem sender "d" outbox (refl, tt)

failing_peer_silent_example :
    any (is_for "p") (due_deliveries 200 50 (record_delivery_failure "p" "HTTP 503" 100 80 outbox))
    ≡ false
unfolding find
failing_peer_silent_example =
    failing_peer_silent "p" "HTTP 503" 100 80 200 50 outbox approved refl (omega arith)
