-- ===== src/Lib.antt =====
-- Verification of tinku, a directory of gatherings and events with federation between instances.
-- Modelled is the core of the Go server under api/internal: how requests are decoded, who may do
-- what, what the handlers write, what peers and webhooks are told, and the tables behind it.
--
-- The parts and how they interact. A request arrives in a frame (transport/carrier.go) as an
-- envelope (transport/rpc.go) in CBOR (transport/cbor.go) and reaches a service of csilservices,
-- which asks the store who the caller is to the record, refuses or writes, and then publishes the
-- event to peers and hands the change to the webhook dispatcher (webhooks/webhooks.go). The
-- dispatcher writes rows for the sender (webhooks/sender.go), which posts them later.
--
-- - Prelude: tests, lists and counts over native numbers, `Result` for a Go result with an error,
--   and `Exec`, a method that reads and writes the store and may fail. What was written before a
--   failure stays written, as in the code, which wraps no handler in a transaction.
-- - Transport/Cbor: transport/cbor.go. `Value` is cborValue, `encode_value` encodeInto,
--   `decode_value` decodeValue, `decode_envelope` decodeEnvelope, `canon_map` canonMap. A byte
--   string is a list of numbers below 256. Go's recursion is on fuel, of which the length of the
--   input plus one is enough, since every item has a head of at least one byte; running out is the
--   outcome `stuck`. Slices out of range and sizes past `alloc_limit`, at which Go's make gives up,
--   are `panics`.
-- - Transport: `Conventions`, `Carrier` and `Rpc` are conventions.go, carrier.go and rpc.go, with
--   `Rpc.Serve` for the client and the serving of a connection. `Io` passes a connection along. A
--   stream is the bytes that it still holds and those written to it.
-- - Store/Model, Store/Series and Store/Interface: store/models.go and the interface of
--   store/store.go. Times are nanoseconds since Go's zero time. Services take the interface as a
--   parameter, so what is shown of a handler holds for every backend that answers as the hypotheses
--   say.
-- - Store/Sqlite: store/sqlite/offers.go, the rosters of organizations.go and gatherings.go, and
--   the occurrences and roles of series.go, as functions on lists of rows.
-- - Services: csilservices. `Perms` is perms.go, `Convert` convert.go, `Publish` publish.go,
--   `Validate` the validation in events.go and organizations.go, `Text` text.go, `Events`
--   events.go, `Gatherings` gatherings.go, `Offers` offers.go, `Organizations` organizations.go,
--   `Webhooks` webhooks.go, and the notifications of notify.go stand with the service that sends
--   them. A request sees one reading of the clock, `now`. Go's own text, time zone and URL
--   functions are the record `GoLib`.
-- - Services/Recurrence: recurrence.go. A civil day is a number of days, and Go's calendar and time
--   zones are the record `TimeLib`. The two loops run on fuel, of which the end of the window plus
--   two steps is enough, since each step moves the clock on. Services/Series: series.go, with the
--   roles in `Roles`. ExpandEventSeries reads at most 500 pages, one for each row that it may
--   return.
-- - Federation/Keyring: federation/keyring.go and the signed bytes of cbor.go; `Signing` has the
--   verifier of verify.go. Ed25519 and base64 are the record `Crypto`, and what a peer publishes is
--   a parameter of the verifier. Federation/Outbox: federation/sender.go with the outbox and the
--   health of peers in store/sqlite/federation.go.
-- - Webhooks: `Routing` is the dispatcher, `Sender` the sender, `Queue` the two tables of
--   store/sqlite/webhooks.go. JSON, HTTP and HMAC are parameters. The multiplication of the waiting
--   time is on 64 bits.
-- - Examples: the theorems at concrete inputs.
--
-- Not modelled: search, accounts and sessions, the peers and the enrolment of federation,
-- the datagram carrier, configuration, the PostgreSQL backend (the same statements in another
-- dialect), generated code, failures of the database inside the table models, and most operations
-- that only list.
pub mod Prelude
pub mod Transport
pub mod Store
pub mod Webhooks
pub mod Services
pub mod Federation
pub mod Examples
