-- ===== src/Transport/Cbor/Encode.antt =====
-- `writeHead`, `encodeInto` and `encodeValue` of cbor.go. The functions return the bytes that the
-- Go code appends to its buffer.
use tinku.Prelude.{ℕ, ◌+◌, ◌*◌, ◌/◌, ◌%◌, ◌^◌, List, [], ◌∷◌, ◌++◌, length, ltb, if◌then◌else◌}
use tinku.Prelude.Int.{pos, negsuc}
use tinku.Transport.Cbor.Value.{
  Value, Items, Entries, uint, int, text, bytes, array, map, tag, nil, cons, end, entry,
  count_items, count_entries,
}

-- byte(n >> k)
abbrev pub byte_at : ℕ → ℕ → ℕ
byte_at n k = n / 2 ^ k % 256

-- `mt` has its low five bits clear, so `mt|24` is a sum.
unfoldable pub write_head : ℕ → ℕ → List ℕ
write_head major n =
    let mt : ℕ = major * 32 % 256 in
    if ltb n 24
    then (mt + n % 256) ∷ []
    else if ltb n (2 ^ 8)
    then (mt + 24) ∷ n % 256 ∷ []
    else if ltb n (2 ^ 16)
    then (mt + 25) ∷ byte_at n 8 ∷ n % 256 ∷ []
    else if ltb n (2 ^ 32)
    then (mt + 26) ∷ byte_at n 24 ∷ byte_at n 16 ∷ byte_at n 8 ∷ n % 256 ∷ []
    else (mt + 27)
      ∷ byte_at n 56
      ∷ byte_at n 48
      ∷ byte_at n 40
      ∷ byte_at n 32
      ∷ byte_at n 24
      ∷ byte_at n 16
      ∷ byte_at n 8
      ∷ n % 256
      ∷ []

unfoldable mutual
  pub encode_value : Value → List ℕ
  encode_value (uint n) = write_head 0 n
  encode_value (int (pos n)) = write_head 0 n
  encode_value (int (negsuc n)) = write_head 1 n
  encode_value (text s) = write_head 3 (length s) ++ s
  encode_value (bytes s) = write_head 2 (length s) ++ s
  encode_value (array vs) = write_head 4 (count_items vs) ++ encode_items vs
  encode_value (map es) = write_head 5 (count_entries es) ++ encode_entries es
  encode_value (tag n v) = write_head 6 n ++ encode_value v

  pub encode_items : Items → List ℕ
  encode_items nil = []
  encode_items (cons v vs) = encode_value v ++ encode_items vs

  pub encode_entries : Entries → List ℕ
  encode_entries end = []
  encode_entries (entry k v es) = encode_value k ++ (encode_value v ++ encode_entries es)
