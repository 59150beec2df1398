-- ===== src/Transport/Carrier/Framing.antt =====
-- Frames written to a byte stream are read back whole and in order, and no frame over the limit
-- is read or written.
use tinku.Prelude.{
  false, Bool-cases, ◌⊎◌, inl, inr, ltb→lt, ℕ, zero, suc, ◌%◌, ◌^◌, ◌<◌, ◌≤◌, ◌≡◌, refl, ap, ◌∙◌,
  List, [], ◌∷◌, ◌++◌, Option, none, some, length, take, ltb, arith, All, length-append,
  take-length-append, drop-length-append, ge→ltb,
}
use mathlib.Core.List.{append_assoc, append-nil}
use tinku.Transport.Conventions.{Bytes, panic, Wire, ok, err, frame_too_large, max_frame_limit}
use tinku.Transport.Carrier.{
  read_body, Stream, FrameCarrier, read_length_prefixed, put_uint32, prefix, stream_carrier,
}
use tinku.Transport.Io.{Io, pure, ◌>>=◌, ◌>>◌}
use tinku.Transport.Cbor.Encode.{byte_at}

prefix-put_uint32 :
    (n : ℕ) → n < 2 ^ 32 → prefix (byte_at n 24) (byte_at n 16) (byte_at n 8) (n % 256) ≡ n
prefix-put_uint32 n h = omega arith

abbrev pub frame_bytes : Bytes → Bytes
frame_bytes b = put_uint32 (length b) ++ b

read_one :
    (limit : ℕ) (b rest out : Bytes)
    → limit < 2 ^ 32
    → length b ≤ limit
    → read_length_prefixed limit (record { input = frame_bytes b ++ rest; output = out })
      ≡ (ok (some b), record { input = rest; output = out })
unfolding read_length_prefixed
read_one limit b rest out l h = rw (
  prefix-put_uint32 (length b) (omega arith),
  ge→ltb limit (length b) h,
  ge→ltb (length (b ++ rest)) (length b) (omega (arith, length-append b rest)),
  take-length-append b rest,
  drop-length-append b rest,
)

-- Sending a list of frames over a carrier, and receiving until the clean end of the stream.
module _ {S : Type 0} (c : FrameCarrier S) where
  unfoldable pub send_all : List Bytes → Io S (Unit {0})
  send_all [] = pure tt
  send_all (b ∷ bs) = c.send_frame b >> send_all bs

  -- As many frames as asked for, and then the end.
  unfoldable pub recv_all : ℕ → Io S (List (Option Bytes))
  recv_all zero = pure []
  recv_all (suc n) = do f ← c.recv_frame; fs ← recv_all n; pure (f ∷ fs)

abbrev pub stream_of : List Bytes → Bytes
stream_of [] = []
stream_of (b ∷ bs) = frame_bytes b ++ stream_of bs

abbrev pub received : List Bytes → List (Option Bytes)
received [] = none ∷ []
received (b ∷ bs) = some b ∷ received bs

-- Frames within a limit that the constructors accept are all sent, and the peer that reads what
-- was written receives the same frames in the same order, and then the end of the stream.
send_all_lem :
    (limit : ℕ) (bs : List Bytes) (input out : Bytes)
    → All (λ b. length b ≤ limit) bs
    → send_all (stream_carrier limit) bs (record { input = input; output = out })
      ≡ (ok tt, record { input = input; output = out ++ stream_of bs })
unfolding send_all stream_carrier
send_all_lem limit [] input out h = rw append-nil refl
send_all_lem limit (b ∷ bs) input out h = rw (ge→ltb limit (length b) h.0) (
    send_all_lem limit bs input (out ++ frame_bytes b) h.1
    ∙ ap (λ l. (ok tt, record { input = input; output = l }))
        (append_assoc out (frame_bytes b) (stream_of bs)))

recv_all_lem :
    (limit : ℕ) (bs : List Bytes) (out : Bytes)
    → limit < 2 ^ 32
    → All (λ b. length b ≤ limit) bs
    → recv_all
        (stream_carrier limit)
        (suc (length bs))
        (record { input = stream_of bs; output = out })
      ≡ (ok (received bs), record { input = []; output = out })
unfolding recv_all stream_carrier
recv_all_lem limit [] out l h = refl
recv_all_lem limit (b ∷ bs) out l h =
    rw (read_one limit b (stream_of bs) out l h.0, recv_all_lem limit bs out l h.1) refl

abbrev pub fresh : Bytes → Stream
fresh input = record { input = input; output = [] }

-- Frames within a limit that the constructors accept are all sent, and a peer with the same limit
-- that reads what was written receives the same frames in the same order, and then the end of the
-- stream.
pub frames_cross :
    (limit : ℕ) (bs : List Bytes)
    → limit ≤ max_frame_limit
    → All (λ b. length b ≤ limit) bs
    → let sent = send_all (stream_carrier limit) bs (fresh []) in
      (sent.0 ≡ ok tt)
      × ((recv_all (stream_carrier limit) (suc (length bs)) (fresh sent.1.output)).0
          ≡ ok (received bs))
frames_cross limit bs l h = (
  ap (λ x. x.0) (send_all_lem limit bs [] [] h),
  rw (send_all_lem limit bs [] [] h) (ap (λ x. x.0) (recv_all_lem limit bs [] (omega arith) h)),
)

length-take_le : (n : ℕ) (b : Bytes) → length (take n b) ≤ n
length-take_le zero b = omega arith
length-take_le (suc n) [] = omega arith
length-take_le (suc n) (x ∷ b) = omega (arith, length-take_le n b)

-- A received frame is within the limit.
abbrev pub Within : ℕ → Wire (Option Bytes) → Type 0
Within limit (ok none) = Unit
Within limit (ok (some b)) = length b ≤ limit
Within limit (err e) = Unit
Within limit panic = Unit

ltb→ge : (a b : ℕ) → ltb a b ≡ false → b ≤ a
ltb→ge a b h = ground arith

body-Within : (limit n : ℕ) (rest out : Bytes) → n ≤ limit → Within limit (read_body n rest out).0
body-Within limit n rest out h = elim (Bool-cases (ltb (length rest) n)) [
  | inl short ↦ rw short tt
  | inr e ↦ rw e (omega (arith, length-take_le n rest))
]

read-Within :
    (limit : ℕ) (input out : Bytes)
    → Within limit (read_length_prefixed limit (record { input = input; output = out })).0
unfolding read_length_prefixed
read-Within limit [] out = tt
read-Within limit (x ∷ []) out = tt
read-Within limit (x ∷ y ∷ []) out = tt
read-Within limit (x ∷ y ∷ z ∷ []) out = tt
read-Within limit (x ∷ y ∷ z ∷ w ∷ rest) out =
    let n : ℕ = prefix x y z w in
    elim (Bool-cases (ltb limit n)) [
      | inl over ↦ rw over tt
      | inr e ↦ rw e (body-Within limit n rest out (ltb→ge limit n e))
    ]

-- A carrier sends a frame within its limit, refuses a longer one and writes nothing of it, and
-- never hands out a frame over the limit, whatever bytes come in.
pub carrier_keeps_limit :
    (limit : ℕ) (s : Stream) (b : Bytes)
    → ((length b ≤ limit) × (((stream_carrier limit).send_frame b s).0 ≡ ok tt)
        ⊎ (limit < length b)
          × ((stream_carrier limit).send_frame b s ≡ (err (frame_too_large (length b) limit), s)))
      × Within limit ((stream_carrier limit).recv_frame s).0
unfolding stream_carrier
carrier_keeps_limit limit s b = (
  elim (Bool-cases (ltb limit (length b))) [
    | inl over ↦ inr (ltb→lt limit (length b) over, rw over refl)
    | inr e ↦ inl (ltb→ge limit (length b) e, rw e refl)
  ],
  read-Within limit s.input s.output,
)
