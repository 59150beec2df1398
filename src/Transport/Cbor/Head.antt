-- ===== src/Transport/Cbor/Head.antt =====
-- The head of an item: what `writeHead` writes, `readArg` reads.
use tinku.Prelude.{ℕ, ◌%◌, ◌^◌, ◌<◌, ◌≡◌, List, ◌++◌, length, arith}
use tinku.Transport.Cbor.Encode.{write_head, byte_at}
use tinku.Transport.Cbor.Decode.{done, decode_head, shift_in}

-- The eight bytes of a uint64, put together again.
join_bytes :
    (n : ℕ)
    → n < 2 ^ 64
    → shift_in
        (shift_in
          (shift_in
            (shift_in
              (shift_in
                (shift_in (shift_in (shift_in 0 (byte_at n 56)) (byte_at n 48)) (byte_at n 40))
                (byte_at n 32))
              (byte_at n 24))
            (byte_at n 16))
          (byte_at n 8))
        (n % 256)
      ≡ n
join_bytes n h = omega arith

pub decode_head-write_head :
    (major n : ℕ) (rest : List ℕ)
    → major < 8
    → n < 2 ^ 64
    → decode_head (write_head major n ++ rest) ≡ done (major, n, length (write_head major n))
unfolding decode_head write_head
decode_head-write_head major n rest m h = ground (arith, join_bytes n)
