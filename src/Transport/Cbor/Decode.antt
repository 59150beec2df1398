-- ===== src/Transport/Cbor/Decode.antt =====
-- `decodeEnvelope`, `decodeValue` and `readArg` of cbor.go. Go's panics are an outcome of their
-- own, and so is a run out of fuel, which no input reaches.
use tinku.Prelude.{
  ℕ, zero, suc, ◌+◌, ◌*◌, ◌/◌, ◌%◌, ◌^◌, List, [], ◌∷◌, length, take, drop, ltb, leb, ◌==◌,
  if◌then◌else◌,
}
use tinku.Prelude.Int.{negsuc}
use tinku.Transport.Cbor.Value.{
  Value, Items, Entries, uint, int, text, bytes, array, map, tag, nil, cons, end, entry,
}

-- The messages after "CBOR decode error: ".
pub data DecodeError : Type 0 where
  empty_input : DecodeError
  truncated_argument : DecodeError
  reserved_info : DecodeError
  negative_out_of_range : DecodeError
  truncated_bytes : DecodeError
  truncated_text : DecodeError
  unsupported_major : DecodeError
  trailing_bytes : DecodeError

pub data Outcome {ℓ} (A : Type ℓ) : Type ℓ where
  done : A → Outcome A
  fail : DecodeError → Outcome A
  panics : Outcome A
  stuck : Outcome A

infixl 5 ◌>>=◌
abbrev pub ◌>>=◌ {ℓ κ} : {A : Type ℓ} {B : Type κ} → Outcome A → (A → Outcome B) → Outcome B
done a >>= f = f a
fail e >>= f = fail e
panics >>= f = panics
stuck >>= f = stuck

-- b[i], where the length was tested.
abbrev pub index : List ℕ → ℕ → ℕ
index [] i = 0
index (x ∷ xs) zero = x
index (x ∷ xs) (suc i) = index xs i

-- v<<8 | b on uint64.
abbrev pub shift_in : ℕ → ℕ → ℕ
shift_in v b = (v * 256 + b) % 2 ^ 64

unfoldable pub read_arg : List ℕ → ℕ → Outcome (ℕ × ℕ)
read_arg b low =
    if ltb low 24
    then done (low, 1)
    else if low == 24
    then if ltb (length b) 2 then fail truncated_argument else done (index b 1, 2)
    else if low == 25
    then if ltb (length b) 3 then fail truncated_argument else done (index b 1 * 256 + index b 2, 3)
    else if low == 26
    then if ltb (length b) 5
      then fail truncated_argument
      else done (index b 1 * 2 ^ 24 + index b 2 * 2 ^ 16 + index b 3 * 256 + index b 4, 5)
    else if low == 27
    then if ltb (length b) 9
      then fail truncated_argument
      else done (
        shift_in
            (shift_in
              (shift_in
                (shift_in
                  (shift_in (shift_in (shift_in (shift_in 0 (index b 1)) (index b 2)) (index b 3))
                    (index b 4))
                  (index b 5))
                (index b 6))
              (index b 7))
            (index b 8),
        9,
      )
    else fail reserved_info

-- The head of an item: its major type, its argument, and the length of the head.
unfoldable pub decode_head : List ℕ → Outcome (ℕ × ℕ × ℕ)
unfolding read_arg
decode_head [] = fail empty_input
decode_head (ib ∷ t) = read_arg (ib ∷ t) (ib % 32) >>= λ r. done (ib / 32, r.0, r.1)

-- `alloc_limit` is the size in bytes past which Go's `make` gives up, by a panic.
module _ (alloc_limit : ℕ) where
  -- `make` and the slice expression b[n : n+arg]; `n + arg` wraps as a uint64.
  unfoldable pub decode_bytes : List ℕ → ℕ → ℕ → Outcome (List ℕ)
  decode_bytes b n arg =
      if ltb (length b) ((n + arg) % 2 ^ 64)
      then fail truncated_bytes
      else if ltb alloc_limit arg
      then panics
      else if ltb ((n + arg) % 2 ^ 64) n
      then panics
      else done (take arg (drop n b))

  unfoldable pub decode_text : List ℕ → ℕ → ℕ → Outcome (List ℕ)
  decode_text b n arg =
      if ltb (length b) ((n + arg) % 2 ^ 64)
      then fail truncated_text
      else if ltb ((n + arg) % 2 ^ 64) n
      then panics
      else done (take arg (drop n b))

  -- The two loops, over the call that decodes one item.
  module _ (item : List ℕ → Outcome (Value × ℕ)) (b : List ℕ) where
    unfoldable pub decode_items : ℕ → ℕ → Outcome (Items × ℕ)
    decode_items zero off = done (nil, off)
    decode_items (suc left) off =
        item (drop off b) >>= λ r. decode_items left (off + r.1) >>= λ q. done (cons r.0 q.0, q.1)

    unfoldable pub decode_entries : ℕ → ℕ → Outcome (Entries × ℕ)
    decode_entries zero off = done (end, off)
    decode_entries (suc left) off = item (drop off b) >>= λ k. item (drop (off + k.1) b) >>= λ v.
        decode_entries left (off + k.1 + v.1) >>= λ q. done (entry k.0 v.0 q.0, q.1)

  -- The `switch` on the major type. A `cborValue` takes 16 bytes and a `cEntry` 32.
  unfoldable pub dispatch :
      (List ℕ → Outcome (Value × ℕ)) → List ℕ → ℕ → ℕ → ℕ → Outcome (Value × ℕ)
  dispatch item b zero arg n = done (uint arg, n)
  dispatch item b (suc zero) arg n =
      if leb (2 ^ 63) arg then fail negative_out_of_range else done (int (negsuc arg), n)
  dispatch item b (suc (suc zero)) arg n = decode_bytes b n arg >>= λ s. done (bytes s, n + arg)
  dispatch item b (suc (suc (suc zero))) arg n = decode_text b n arg >>= λ s. done (text s, n + arg)
  dispatch item b (suc (suc (suc (suc zero)))) arg n =
      if ltb alloc_limit (arg * 16)
      then panics
      else decode_items item b arg n >>= λ q. done (array q.0, q.1)
  dispatch item b (suc (suc (suc (suc (suc zero))))) arg n =
      if ltb alloc_limit (arg * 32)
      then panics
      else decode_entries item b arg n >>= λ q. done (map q.0, q.1)
  dispatch item b (suc (suc (suc (suc (suc (suc zero)))))) arg n =
      item (drop n b) >>= λ r. done (tag arg r.0, n + r.1)
  dispatch item b _ arg n = fail unsupported_major

  -- The fuel bounds the nesting.
  unfoldable pub decode_value : ℕ → List ℕ → Outcome (Value × ℕ)
  decode_value zero b = stuck
  decode_value (suc fuel) b =
      let item = decode_value fuel in decode_head b >>= λ h. dispatch item b h.0 h.1 h.2

  -- Every nested item is shorter than what holds it, so the length is enough fuel.
  unfoldable pub decode_envelope : List ℕ → Outcome (Value × ℕ)
  decode_envelope b = decode_value (suc (length b)) b >>= λ r.
      if r.1 == length b then done r else fail trailing_bytes
