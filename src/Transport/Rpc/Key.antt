-- ===== src/Transport/Rpc/Key.antt =====
-- The field names of the envelopes in api/internal/transport/rpc.go.
use tinku.Prelude.{[], ◌∷◌}
use tinku.Transport.Conventions.{Bytes}

abbrev pub v : Bytes
v = b'v' ∷ []

abbrev pub service : Bytes
service = b's' ∷ b'e' ∷ b'r' ∷ b'v' ∷ b'i' ∷ b'c' ∷ b'e' ∷ []

abbrev pub op : Bytes
op = b'o' ∷ b'p' ∷ []

abbrev pub payload : Bytes
payload = b'p' ∷ b'a' ∷ b'y' ∷ b'l' ∷ b'o' ∷ b'a' ∷ b'd' ∷ []

abbrev pub id : Bytes
id = b'i' ∷ b'd' ∷ []

abbrev pub auth : Bytes
auth = b'a' ∷ b'u' ∷ b't' ∷ b'h' ∷ []

abbrev pub status : Bytes
status = b's' ∷ b't' ∷ b'a' ∷ b't' ∷ b'u' ∷ b's' ∷ []

abbrev pub variant : Bytes
variant = b'v' ∷ b'a' ∷ b'r' ∷ b'i' ∷ b'a' ∷ b'n' ∷ b't' ∷ []

abbrev pub error : Bytes
error = b'e' ∷ b'r' ∷ b'r' ∷ b'o' ∷ b'r' ∷ []

abbrev pub event : Bytes
event = b'e' ∷ b'v' ∷ b'e' ∷ b'n' ∷ b't' ∷ []
