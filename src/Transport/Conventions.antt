-- ===== src/Transport/Conventions.antt =====
-- api/internal/transport/conventions.go: the status registry, the tag-24 payload, the limit on
-- frames and the field accessors of the envelopes. A Go string is the list of its bytes, and a
-- `*string` or `*uint64` an `Option`.
use tinku.Prelude.{
  ℕ, ◌-◌, ◌^◌, List, [], ◌∷◌, Bool, true, false, ◌&&◌, ◌||◌, Option, none, some, ltb, ◌==◌,
  if◌then◌else◌,
}
use tinku.Prelude.Int.{ℤ, pos, negsuc}
use tinku.Transport.Cbor.Value.{Value, Entries, uint, int, text, bytes, map, tag, end, entry}
use tinku.Transport.Cbor.Decode.{DecodeError, Outcome, done, fail, panics, stuck}

abbrev pub Bytes : Type 0
Bytes = List ℕ

-- The messages of `malformed`, without the field's name that they quote.
pub data Malformed : Type 0 where
  missing_payload : Malformed
  not_tagged : Malformed
  not_bytes : Malformed
  not_integer : Malformed
  not_non_negative : Malformed
  not_text : Malformed

-- A registry code, a host's own, or an unknown one.
pub record Status : Type 0 where
  pub code : ℤ

pub data StatusName : Type 0 where
  named_ok : StatusName
  named_malformed_envelope : StatusName
  named_unknown_service_or_op : StatusName
  named_unauthenticated : StatusName
  named_forbidden : StatusName
  named_version_unsupported : StatusName
  named_internal : StatusName
  named_unavailable : StatusName
  named_deadline_exceeded : StatusName
  named_other : StatusName

-- The errors of the package; `carrier` holds what the injected carrier reports.
pub data WireError : Type 0 where
  cbor : DecodeError → WireError
  malformed : Malformed → WireError
  unsupported_version : ℕ → WireError
  frame_too_large : ℕ → ℕ → WireError
  invalid_max_frame : ℤ → ℕ → WireError
  status_error : StatusName → ℤ → Bytes → WireError
  carrier : Bytes → WireError

-- What a function of the package comes to: a value, an error, or a panic of the decoder.
pub data Wire {ℓ} (A : Type ℓ) : Type ℓ where
  ok : A → Wire A
  err : WireError → Wire A
  panic : Wire A

infixl 5 ◌>>=◌ ◌>>◌
abbrev pub ◌>>=◌ {ℓ κ} : {A : Type ℓ} {B : Type κ} → Wire A → (A → Wire B) → Wire B
ok a >>= f = f a
err e >>= f = err e
panic >>= f = panic

abbrev pub ◌>>◌ {ℓ} : {B : Type ℓ} → Wire (Unit {0}) → Wire B → Wire B
m >> k = m >>= λ _. k

-- No input exhausts the decoder's fuel, so `stuck` does not come up.
abbrev pub of_outcome {ℓ} : {A : Type ℓ} → Outcome A → Wire A
of_outcome (done a) = ok a
of_outcome (fail e) = err (cbor e)
of_outcome panics = panic
of_outcome stuck = panic

abbrev pub version : ℕ
version = 1

abbrev pub tag_encoded_cbor : ℕ
tag_encoded_cbor = 24

abbrev pub max_frame_default : ℕ
max_frame_default = 16777216

abbrev pub max_frame_limit : ℕ
max_frame_limit = 2147483647

unfoldable pub validate_max_frame : ℤ → Wire (Unit {0})
validate_max_frame (negsuc n) = err (invalid_max_frame (negsuc n) max_frame_limit)
validate_max_frame (pos n) =
    if ltb n 1 || ltb max_frame_limit n
    then err (invalid_max_frame (pos n) max_frame_limit)
    else ok tt

abbrev pub status_ok : Status
status_ok = record { code = pos 0 }

abbrev pub status_malformed_envelope : Status
status_malformed_envelope = record { code = pos 1 }

unfoldable pub is_ok : Status → Bool
is_ok s = elim s.code [ pos n ↦ n == 0 | negsuc n ↦ false ]

code_name : ℕ → StatusName
code_name n =
    if n == 0
    then named_ok
    else if n == 1
    then named_malformed_envelope
    else if n == 2
    then named_unknown_service_or_op
    else if n == 3
    then named_unauthenticated
    else if n == 4
    then named_forbidden
    else if n == 5
    then named_version_unsupported
    else if n == 6
    then named_internal
    else if n == 7
    then named_unavailable
    else if n == 8
    then named_deadline_exceeded
    else named_other

unfoldable pub name : Status → StatusName
unfolding code_name
name s = elim s.code [ pos n ↦ code_name n | negsuc n ↦ named_other ]

unfoldable pub tag24 : Bytes → Value
tag24 payload = tag tag_encoded_cbor (bytes payload)

abbrev content_bytes : Value → Wire Bytes
content_bytes (bytes b) = ok b
content_bytes _ = err (malformed not_bytes)

unfoldable pub untag24 : Value → Wire Bytes
untag24 (tag n v) = if n == tag_encoded_cbor then content_bytes v else err (malformed not_tagged)
untag24 _ = err (malformed not_tagged)

-- Equality of two Go strings.
abbrev pub same_bytes : Bytes → Bytes → Bool
same_bytes [] [] = true
same_bytes [] (y ∷ ys) = false
same_bytes (x ∷ xs) [] = false
same_bytes (x ∷ xs) (y ∷ ys) = x == y && same_bytes xs ys

abbrev is_key : Bytes → Value → Bool
is_key key (text t) = same_bytes t key
is_key key _ = false

unfoldable pub entry_get : Entries → Bytes → Option Value
entry_get end key = none
entry_get (entry k v es) key = let rest = entry_get es key in if is_key key k then some v else rest

unfoldable pub map_get : Value → Bytes → Option Value
unfolding entry_get
map_get (map es) key = entry_get es key
map_get _ key = none

unfoldable pub as_u64 : Value → Option ℕ
as_u64 (uint n) = some n
as_u64 (int (pos n)) = some n
as_u64 _ = none

-- int64(x) of a uint64.
abbrev pub to_signed : ℕ → ℤ
to_signed n = if ltb n (2 ^ 63) then pos n else negsuc (2 ^ 64 - 1 - n)

unfoldable pub as_i64 : Value → Option ℤ
as_i64 (uint n) = some (to_signed n)
as_i64 (int i) = some i
as_i64 _ = none

abbrev as_text : Value → Option Bytes
as_text (text t) = some t
as_text _ = none

-- A value that must be there.
abbrev require {ℓ} : {A : Type ℓ} → Malformed → Option A → Wire A
require m none = err (malformed m)
require m (some a) = ok a

abbrev pub bind_option {ℓ κ} : {A : Type ℓ} {B : Type κ} → Option A → (A → Option B) → Option B
bind_option none f = none
bind_option (some a) f = f a

unfoldable pub get_uint : Value → Bytes → Wire ℕ
unfolding map_get as_u64
get_uint m key = do v ← require not_integer (map_get m key); require not_non_negative (as_u64 v)

unfoldable pub get_int : Value → Bytes → Wire ℤ
unfolding map_get as_i64
get_int m key = do v ← require not_integer (map_get m key); require not_integer (as_i64 v)

unfoldable pub get_text : Value → Bytes → Wire Bytes
unfolding map_get
get_text m key = do v ← require not_text (map_get m key); require not_text (as_text v)

-- A field of another type counts as absent.
unfoldable pub get_text_opt : Value → Bytes → Option Bytes
unfolding map_get
get_text_opt m key = bind_option (map_get m key) as_text

unfoldable pub get_uint_opt : Value → Bytes → Option ℕ
unfolding map_get as_u64
get_uint_opt m key = bind_option (map_get m key) as_u64

unfoldable pub check_version : ℕ → Wire (Unit {0})
check_version v = if v == version then ok tt else err (unsupported_version v)
