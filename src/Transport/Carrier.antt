-- ===== src/Transport/Carrier.antt =====
-- api/internal/transport/carrier.go: frames over an injected carrier. A byte stream is what is
-- still to be read from it, up to its end, and what was written to it; its failures other than
-- an early end are left out.
pub mod Framing
use tinku.Prelude.{
  ℕ, ◌+◌, ◌*◌, ◌%◌, ◌^◌, List, [], ◌∷◌, ◌++◌, Option, none, some, length, take, drop, ltb,
  if◌then◌else◌,
}
use tinku.Prelude.Int.{ℤ, pos_part}
use tinku.Transport.Cbor.Encode.{byte_at}
use tinku.Transport.Conventions.{
  Bytes, Wire, ok, err, panic, frame_too_large, carrier, validate_max_frame, max_frame_default,
}
use tinku.Transport.Io.{Io}

-- `FrameCarrier`: `recv_frame` gives nothing at the clean end of the stream.
pub record FrameCarrier (S : Type 0) : Type 0 where
  pub send_frame : Bytes → Io S (Unit {0})
  pub recv_frame : Io S (Option Bytes)

pub record Stream : Type 0 where
  pub input : Bytes
  pub output : Bytes

-- "unexpected EOF", what io.ReadFull reports of an end inside what it reads.
abbrev pub unexpected_eof : Bytes
unexpected_eof =
    b'u' ∷ b'n' ∷ b'e' ∷ b'x' ∷ b'p' ∷ b'e' ∷ b'c' ∷ b't' ∷ b'e' ∷ b'd' ∷ b' ' ∷ b'E' ∷ b'O' ∷ b'F'
    ∷ []

abbrev pub eof : Bytes
eof = b'E' ∷ b'O' ∷ b'F' ∷ []

-- binary.BigEndian.PutUint32 of uint32(n), and Uint32.
abbrev pub put_uint32 : ℕ → Bytes
put_uint32 n = byte_at n 24 ∷ byte_at n 16 ∷ byte_at n 8 ∷ n % 256 ∷ []

abbrev pub prefix : ℕ → ℕ → ℕ → ℕ → ℕ
prefix a b c d = a * 2 ^ 24 + b * 2 ^ 16 + c * 2 ^ 8 + d

unfoldable pub write_length_prefixed : Bytes → ℕ → Io Stream (Unit {0})
write_length_prefixed b limit s =
    if ltb limit (length b)
    then (err (frame_too_large (length b) limit), s)
    else (ok tt, record s { output = s.output ++ (put_uint32 (length b) ++ b) })

-- The body: an empty rest is reported as EOF, a short one as an unexpected EOF.
abbrev pub read_body : ℕ → Bytes → Bytes → Wire (Option Bytes) × Stream
read_body n rest out =
    if ltb (length rest) n
    then (
      err (carrier (elim rest [ [] ↦ eof | _ ↦ unexpected_eof ])),
      record { input = []; output = out },
    )
    else (ok (some (take n rest)), record { input = drop n rest; output = out })

abbrev read_frame : ℕ → Bytes → Bytes → Wire (Option Bytes) × Stream
read_frame limit [] out = (ok none, record { input = []; output = out })
read_frame limit (a ∷ b ∷ c ∷ d ∷ rest) out =
    if ltb limit (prefix a b c d)
    then (err (frame_too_large (prefix a b c d) limit), record { input = rest; output = out })
    else read_body (prefix a b c d) rest out
read_frame limit _ out = (err (carrier unexpected_eof), record { input = []; output = out })

unfoldable pub read_length_prefixed : ℕ → Io Stream (Option Bytes)
read_length_prefixed limit s = read_frame limit s.input s.output

unfoldable pub stream_carrier : ℕ → FrameCarrier Stream
unfolding write_length_prefixed read_length_prefixed
stream_carrier limit = record {
  send_frame = λ b s. write_length_prefixed b limit s;
  recv_frame = λ s. read_length_prefixed limit s;
}

unfoldable pub new_stream_carrier : FrameCarrier Stream
unfolding stream_carrier
new_stream_carrier = stream_carrier max_frame_default

abbrev made {ℓ} : {A : Type ℓ} → Wire (Unit {0}) → A → Wire A
made (ok t) a = ok a
made (err e) a = err e
made panic a = panic

unfoldable pub new_stream_carrier_with_max_frame : ℤ → Wire (FrameCarrier Stream)
unfolding stream_carrier
new_stream_carrier_with_max_frame n = made (validate_max_frame n) (stream_carrier (pos_part n))

pub record Loopback : Type 0 where
  pub outbound : List Bytes
  pub inbound : List Bytes

unfoldable pub push_inbound : Bytes → Loopback → Loopback
push_inbound b c = record c { inbound = c.inbound ++ b ∷ [] }

abbrev first_frame : List Bytes → Option Bytes
first_frame [] = none
first_frame (f ∷ fs) = some f

abbrev later_frames : List Bytes → List Bytes
later_frames [] = []
later_frames (f ∷ fs) = fs

unfoldable pub take_outbound : Loopback → Option Bytes × Loopback
take_outbound c = (first_frame c.outbound, record c { outbound = later_frames c.outbound })

unfoldable pub loopback_carrier : FrameCarrier Loopback
loopback_carrier = record {
  send_frame = λ b c. (ok tt, record c { outbound = c.outbound ++ b ∷ [] });
  recv_frame = λ c. (ok (first_frame c.inbound), record c { inbound = later_frames c.inbound });
}
