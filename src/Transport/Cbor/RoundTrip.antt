-- ===== src/Transport/Cbor/RoundTrip.antt =====
-- Decoding what was encoded.
use tinku.Prelude.{
  ℕ, zero, suc, ◌+◌, ◌*◌, ◌^◌, ◌<◌, ◌≤◌, ◌≡◌, refl, ap, sym, ◌∙◌, List, [], ◌++◌, length, drop,
  arith, length-append, drop-length-append, take-length-append, drop-add, ge→ltb,
}
use Prim.Native.Nat.{max}
use mathlib.Core.List.{append_assoc, append-nil}
use native.Mathlib.Nat.{add_assoc, add-zero}
use tinku.Prelude.Int.{pos, negsuc}
use tinku.Transport.Cbor.Value.{
  Value, Items, Entries, uint, int, text, bytes, array, map, tag, nil, cons, end, entry,
  count_items, count_entries,
}
use tinku.Transport.Cbor.Encode.{write_head, encode_value, encode_items, encode_entries}
use tinku.Transport.Cbor.Decode.{
  done, decode_bytes, decode_text, decode_items, decode_entries, dispatch, decode_value,
  decode_envelope,
}
use tinku.Transport.Cbor.Head.{decode_head-write_head}

-- What comes back: a `cInt` that is not negative is written as, and read as, a `cUint`.
unfoldable mutual
  pub normal : Value → Value
  normal (int (pos n)) = uint n
  normal (array vs) = array (normal_items vs)
  normal (map es) = map (normal_entries es)
  normal (tag n v) = tag n (normal v)
  normal (uint n) = uint n
  normal (int (negsuc n)) = int (negsuc n)
  normal (text s) = text s
  normal (bytes s) = bytes s

  pub normal_items : Items → Items
  normal_items nil = nil
  normal_items (cons v vs) = cons (normal v) (normal_items vs)

  pub normal_entries : Entries → Entries
  normal_entries end = end
  normal_entries (entry k v es) = entry (normal k) (normal v) (normal_entries es)

-- The nesting of a value.
mutual
  pub depth : Value → ℕ
  depth (array vs) = suc (depth_items vs)
  depth (map es) = suc (depth_entries es)
  depth (tag n v) = suc (depth v)
  depth (uint n) = 0
  depth (int n) = 0
  depth (text s) = 0
  depth (bytes s) = 0

  pub depth_items : Items → ℕ
  depth_items nil = 0
  depth_items (cons v vs) = max (depth v) (depth_items vs)

  pub depth_entries : Entries → ℕ
  depth_entries end = 0
  depth_entries (entry k v es) = max (max (depth k) (depth v)) (depth_entries es)

-- The values that Go can hold and can allocate again on the other side: machine integers in their
-- range, and lengths within `make`.
abbrev mutual
  pub Fits : ℕ → Value → Type 0
  Fits limit (uint n) = n < 2 ^ 64
  Fits limit (int (pos n)) = n < 2 ^ 63
  Fits limit (int (negsuc n)) = n < 2 ^ 63
  Fits limit (text s) = length s < 2 ^ 63
  Fits limit (bytes s) = (length s < 2 ^ 63) × (length s ≤ limit)
  Fits limit (array vs) =
      (count_items vs < 2 ^ 63) × (count_items vs * 16 ≤ limit) × FitsItems limit vs
  Fits limit (map es) =
      (count_entries es < 2 ^ 63) × (count_entries es * 32 ≤ limit) × FitsEntries limit es
  Fits limit (tag n v) = (n < 2 ^ 64) × Fits limit v

  pub FitsItems : ℕ → Items → Type 0
  FitsItems limit nil = Unit
  FitsItems limit (cons v vs) = Fits limit v × FitsItems limit vs

  pub FitsEntries : ℕ → Entries → Type 0
  FitsEntries limit end = Unit
  FitsEntries limit (entry k v es) = Fits limit k × Fits limit v × FitsEntries limit es

pub length-write_head : (m n : ℕ) → (1 ≤ length (write_head m n)) × (length (write_head m n) ≤ 9)
unfolding write_head
length-write_head m n = ground arith

-- A head in front is read, and the rest is dispatched.
decode_value-write_head :
    (limit fuel m n : ℕ) (rest : List ℕ)
    → m < 8
    → n < 2 ^ 64
    → decode_value limit (suc fuel) (write_head m n ++ rest)
      ≡ dispatch limit
          (decode_value limit fuel)
          (write_head m n ++ rest)
          m
          n
          (length (write_head m n))
unfolding decode_value
decode_value-write_head limit fuel m n rest h k = rw (decode_head-write_head m n rest h k)

decode_bytes-append :
    (limit : ℕ) (hd s rest : List ℕ)
    → length hd ≤ 9
    → length s < 2 ^ 63
    → length s ≤ limit
    → decode_bytes limit (hd ++ (s ++ rest)) (length hd) (length s) ≡ done s
unfolding decode_bytes
decode_bytes-append limit hd s rest h k l =
    rw (drop-length-append hd (s ++ rest), take-length-append s rest)
      (ground (arith, length-append hd (s ++ rest), length-append s rest))

decode_text-append :
    (limit : ℕ) (hd s rest : List ℕ)
    → length hd ≤ 9
    → length s < 2 ^ 63
    → decode_text limit (hd ++ (s ++ rest)) (length hd) (length s) ≡ done s
unfolding decode_text
decode_text-append limit hd s rest h k =
    rw (drop-length-append hd (s ++ rest), take-length-append s rest)
      (ground (arith, length-append hd (s ++ rest), length-append s rest))

text_step :
    (limit fuel : ℕ) (s rest : List ℕ)
    → length s < 2 ^ 63
    → dispatch limit
        (decode_value limit fuel)
        (write_head 3 (length s) ++ (s ++ rest))
        3
        (length s)
        (length (write_head 3 (length s)))
      ≡ done (text s, length (write_head 3 (length s) ++ s))
unfolding dispatch
text_step limit fuel s rest h = rw (
  decode_text-append limit (write_head 3 (length s)) s rest (length-write_head 3 (length s)).1 h,
  length-append,
)

bytes_step :
    (limit fuel : ℕ) (s rest : List ℕ)
    → length s < 2 ^ 63
    → length s ≤ limit
    → dispatch limit
        (decode_value limit fuel)
        (write_head 2 (length s) ++ (s ++ rest))
        2
        (length s)
        (length (write_head 2 (length s)))
      ≡ done (bytes s, length (write_head 2 (length s) ++ s))
unfolding dispatch
bytes_step limit fuel s rest h l = rw (
  decode_bytes-append limit (write_head 2 (length s)) s rest (length-write_head 2 (length s)).1 h l,
  length-append,
)

-- Where one item ends, the next begins.
drop_next : (b xs ys : List ℕ) (off : ℕ) → drop off b ≡ xs ++ ys → drop (off + length xs) b ≡ ys
drop_next b xs ys off h = rw (← drop-add off (length xs) b, h) (drop-length-append xs ys)

mutual
  unfolding encode_value normal depth dispatch decode_items decode_entries

  value_lem :
      (limit : ℕ) (v : Value) (fuel : ℕ) (rest : List ℕ)
      → depth v < fuel
      → Fits limit v
      → decode_value limit fuel (encode_value v ++ rest) ≡ done (normal v, length (encode_value v))
  value_lem limit (uint n) zero rest d f = elim d [ ]
  value_lem limit (uint n) (suc fuel) rest d f =
      rw (decode_value-write_head limit fuel 0 n rest (omega arith) f) refl
  value_lem limit (int (pos n)) zero rest d f = elim d [ ]
  value_lem limit (int (pos n)) (suc fuel) rest d f =
      rw (decode_value-write_head limit fuel 0 n rest (omega arith) (omega arith)) refl
  value_lem limit (int (negsuc n)) zero rest d f = elim d [ ]
  value_lem limit (int (negsuc n)) (suc fuel) rest d f =
      rw (decode_value-write_head limit fuel 1 n rest (omega arith) (omega arith)) (ground arith)
  value_lem limit (text s) zero rest d f = elim d [ ]
  value_lem limit (text s) (suc fuel) rest d f = rw append_assoc (
      rw (decode_value-write_head limit fuel 3 (length s) (s ++ rest) (omega arith) (omega arith))
        (text_step limit fuel s rest f))
  value_lem limit (bytes s) zero rest d f = elim d [ ]
  value_lem limit (bytes s) (suc fuel) rest d f = rw append_assoc (
      rw (decode_value-write_head limit fuel 2 (length s) (s ++ rest) (omega arith) (omega arith))
        (bytes_step limit fuel s rest f.0 f.1))
  value_lem limit (array vs) zero rest d f = elim d [ ]
  value_lem limit (array vs) (suc fuel) rest d f =
      let hd : List ℕ = write_head 4 (count_items vs) in
      rw append_assoc (
        rw
          (decode_value-write_head limit fuel 4 (count_items vs) (encode_items vs ++ rest)
            (omega arith) (omega arith))
          (rw (
            ge→ltb limit (count_items vs * 16) f.1,
            items_lem limit vs fuel (length hd) (hd ++ (encode_items vs ++ rest)) rest (omega arith)
                f.2 (drop-length-append hd (encode_items vs ++ rest)),
            length-append,
          )))
  value_lem limit (map es) zero rest d f = elim d [ ]
  value_lem limit (map es) (suc fuel) rest d f =
      let hd : List ℕ = write_head 5 (count_entries es) in
      rw append_assoc (
        rw
          (decode_value-write_head limit fuel 5 (count_entries es) (encode_entries es ++ rest)
            (omega arith) (omega arith))
          (rw (
            ge→ltb limit (count_entries es * 32) f.1,
            entries_lem limit es fuel (length hd) (hd ++ (encode_entries es ++ rest)) rest
                (omega arith) f.2 (drop-length-append hd (encode_entries es ++ rest)),
            length-append,
          )))
  value_lem limit (tag n v) zero rest d f = elim d [ ]
  value_lem limit (tag n v) (suc fuel) rest d f =
      let hd : List ℕ = write_head 6 n in
      rw append_assoc (
        rw (decode_value-write_head limit fuel 6 n (encode_value v ++ rest) (omega arith) f.0) (
          rw (
            drop-length-append hd (encode_value v ++ rest),
            value_lem limit v fuel rest (omega arith) f.1,
            length-append,
          )))

  items_lem :
      (limit : ℕ) (vs : Items) (fuel off : ℕ) (b rest : List ℕ)
      → depth_items vs < fuel
      → FitsItems limit vs
      → drop off b ≡ encode_items vs ++ rest
      → decode_items limit (decode_value limit fuel) b (count_items vs) off
        ≡ done (normal_items vs, off + length (encode_items vs))
  items_lem limit nil fuel off b rest d f h = rw add-zero
  items_lem limit (cons v vs) fuel off b rest d f h =
      let e : drop off b ≡ encode_value v ++ (encode_items vs ++ rest) =
        h ∙ append_assoc (encode_value v) (encode_items vs) rest in
      rw (
        e,
        value_lem limit v fuel (encode_items vs ++ rest) (omega arith) f.0,
        items_lem limit vs fuel (off + length (encode_value v)) b rest (omega arith) f.1
            (drop_next b (encode_value v) (encode_items vs ++ rest) off e),
        length-append,
        add_assoc,
      )

  entries_lem :
      (limit : ℕ) (es : Entries) (fuel off : ℕ) (b rest : List ℕ)
      → depth_entries es < fuel
      → FitsEntries limit es
      → drop off b ≡ encode_entries es ++ rest
      → decode_entries limit (decode_value limit fuel) b (count_entries es) off
        ≡ done (normal_entries es, off + length (encode_entries es))
  entries_lem limit end fuel off b rest d f h = rw add-zero
  entries_lem limit (entry k v es) fuel off b rest d f h =
      let e : drop off b ≡ encode_value k ++ ((encode_value v ++ encode_entries es) ++ rest) =
        h ∙ append_assoc (encode_value k) (encode_value v ++ encode_entries es) rest in
      let e' : drop (off + length (encode_value k)) b
          ≡ encode_value v ++ (encode_entries es ++ rest) =
        drop_next b (encode_value k) ((encode_value v ++ encode_entries es) ++ rest) off e
        ∙ append_assoc (encode_value v) (encode_entries es) rest in
      rw
        (
          e,
          value_lem limit k fuel ((encode_value v ++ encode_entries es) ++ rest) (omega arith) f.0,
          e',
          value_lem limit v fuel (encode_entries es ++ rest) (omega arith) f.1,
          entries_lem limit es fuel (off + length (encode_value k) + length (encode_value v)) b rest
              (omega arith) f.2
              (drop_next b (encode_value v) (encode_entries es ++ rest)
                (off + length (encode_value k)) e'),
        )
        (ground (
          arith,
          length-append (encode_value k) (encode_value v ++ encode_entries es),
          length-append (encode_value v) (encode_entries es),
        ))

mutual
  unfolding encode_value depth

  depth-le-length : (v : Value) → depth v ≤ length (encode_value v)
  depth-le-length (uint n) = omega arith
  depth-le-length (int n) = omega arith
  depth-le-length (text s) = omega arith
  depth-le-length (bytes s) = omega arith
  depth-le-length (array vs) = omega (
    arith,
    length-append {0} (write_head 4 (count_items vs)) (encode_items vs),
    length-write_head 4 (count_items vs),
    depth_items-le-length vs,
  )
  depth-le-length (map es) = omega (
    arith,
    length-append {0} (write_head 5 (count_entries es)) (encode_entries es),
    length-write_head 5 (count_entries es),
    depth_entries-le-length es,
  )
  depth-le-length (tag n v) = omega (
    arith,
    length-append {0} (write_head 6 n) (encode_value v),
    length-write_head 6 n,
    depth-le-length v,
  )

  depth_items-le-length : (vs : Items) → depth_items vs ≤ length (encode_items vs)
  depth_items-le-length nil = omega arith
  depth_items-le-length (cons v vs) = omega (
    arith,
    length-append {0} (encode_value v) (encode_items vs),
    depth-le-length v,
    depth_items-le-length vs,
  )

  depth_entries-le-length : (es : Entries) → depth_entries es ≤ length (encode_entries es)
  depth_entries-le-length end = omega arith
  depth_entries-le-length (entry k v es) = omega (
    arith,
    length-append {0} (encode_value k) (encode_value v ++ encode_entries es),
    length-append {0} (encode_value v) (encode_entries es),
    depth-le-length k,
    depth-le-length v,
    depth_entries-le-length es,
  )

-- Decoding the encoding of a value that Go can hold and allocate gives the value back, a
-- non-negative signed integer as an unsigned one, with all bytes consumed.
pub decode_envelope-encode_value :
    (limit : ℕ) (v : Value)
    → Fits limit v
    → decode_envelope limit (encode_value v) ≡ done (normal v, length (encode_value v))
unfolding decode_envelope
decode_envelope-encode_value limit v f = rw (whole limit v f) (ground arith)
  where
    whole :
        (limit : ℕ) (v : Value)
        → Fits limit v
        → decode_value limit (suc (length (encode_value v))) (encode_value v)
          ≡ done (normal v, length (encode_value v))
    whole limit v f =
        rw append-nil at (
          value_lem limit v (suc (length (encode_value v))) [] (omega (arith, depth-le-length v)) f)

done_fields : {p q : Value × ℕ} → done p ≡ done q → (p.0 ≡ q.0) × (p.1 ≡ q.1)
done_fields h = (cc, cc)

-- No encoding is a proper prefix of another: two encodings that begin the same input are of values
-- with one normal form, and leave the same bytes.
pub encode_value_prefix_free :
    (limit : ℕ) (v w : Value) (r s : List ℕ)
    → Fits limit v
    → Fits limit w
    → encode_value v ++ r ≡ encode_value w ++ s
    → (normal v ≡ normal w) × (r ≡ s)
encode_value_prefix_free limit v w r s f g e =
    let fuel : ℕ = suc (depth v + depth w) in
    let read_v : decode_value limit fuel (encode_value w ++ s)
        ≡ done (normal v, length (encode_value v)) =
      rw e at (value_lem limit v fuel r (omega arith) f) in
    let read_w : decode_value limit fuel (encode_value w ++ s)
        ≡ done (normal w, length (encode_value w)) =
      value_lem limit w fuel s (omega arith) g in
    let (same, len) = done_fields (sym read_v ∙ read_w) in
    (
      same,
      sym (drop-length-append (encode_value v) r)
          ∙ ap (drop (length (encode_value v))) e
          ∙ (rw len (drop-length-append (encode_value w) s)),
    )
