-- ===== src/Transport/Cbor/Totality.antt =====
-- What decoding does on every input: it ends, it consumes no more than is there, and the claimed
-- lengths on which it panics.
use tinku.Prelude.{
  ℕ, zero, suc, ◌+◌, ◌*◌, ◌-◌, ◌^◌, ◌<◌, ◌≤◌, ◌≡◌, List, [], ◌∷◌, ◌++◌, length, drop, arith, All,
  length-drop, Bool-cases, inl, inr, ltb,
}
use tinku.Transport.Cbor.Value.{Value}
use tinku.Transport.Cbor.Encode.{write_head}
use tinku.Transport.Cbor.Decode.{
  Outcome, done, fail, index, panics, stuck, ◌>>=◌, decode_head, decode_bytes, decode_text,
  decode_items, decode_entries, dispatch, decode_value, decode_envelope,
}
use tinku.Transport.Cbor.Head.{decode_head-write_head}

abbrev pub IsBytes : List ℕ → Type 0
IsBytes = All (λ x. x < 256)

-- The outcome is not `stuck`, and a result moves the offset from `lo` to at most `hi`.
abbrev pub EndsWithin {ℓ} : {A : Type ℓ} → ℕ → ℕ → Outcome (A × ℕ) → Type 0
EndsWithin lo hi (done r) = (lo ≤ r.1) × (r.1 ≤ hi)
EndsWithin lo hi (fail e) = Unit
EndsWithin lo hi panics = Unit
EndsWithin lo hi stuck = ⊥

IsBytes-drop : (n : ℕ) (b : List ℕ) → IsBytes b → IsBytes (drop n b)
IsBytes-drop zero b h = h
IsBytes-drop (suc n) [] h = tt
IsBytes-drop (suc n) (x ∷ b) h = IsBytes-drop n b h.1

abbrev HeadFits : ℕ → Outcome (ℕ × ℕ × ℕ) → Type 0
HeadFits len (done h) = (h.1 < 2 ^ 64) × (1 ≤ h.2) × (h.2 ≤ len)
HeadFits len (fail e) = Unit
HeadFits len panics = ⊥
HeadFits len stuck = ⊥

index-lt : (b : List ℕ) (i : ℕ) → IsBytes b → index b i < 256
index-lt [] i h = omega arith
index-lt (x ∷ b) zero h = h.0
index-lt (x ∷ b) (suc i) h = index-lt b i h.1

decode_head-HeadFits : (b : List ℕ) → IsBytes b → HeadFits (length b) (decode_head b)
unfolding decode_head
decode_head-HeadFits [] h = tt
decode_head-HeadFits (a ∷ b) h =
    ground (arith, index-lt b 0 h.1, index-lt b 1 h.1, index-lt b 2 h.1, index-lt b 3 h.1)

-- The rule for `>>=`.
EndsWithin-bind :
    {A B : Type 0} (lo mid lo' hi : ℕ) (m : Outcome (A × ℕ)) (f : A × ℕ → Outcome (B × ℕ))
    → EndsWithin lo mid m
    → ((r : A × ℕ) → lo ≤ r.1 → r.1 ≤ mid → EndsWithin lo' hi (f r))
    → EndsWithin lo' hi (m >>= f)
EndsWithin-bind lo mid lo' hi (done r) f h k = k r h.0 h.1
EndsWithin-bind lo mid lo' hi (fail e) f h k = tt
EndsWithin-bind lo mid lo' hi panics f h k = tt
EndsWithin-bind lo mid lo' hi stuck f h k = h

module _ (limit : ℕ) (item : List ℕ → Outcome (Value × ℕ)) (b : List ℕ) where
  -- What is known of the call on a nested item.
  abbrev ItemEnds : Type 0
  ItemEnds =
      (off : ℕ) → 1 ≤ off → off ≤ length b → EndsWithin 1 (length b - off) (item (drop off b))

  module _ (ends : ItemEnds) where
    decode_items_ends :
        (left off : ℕ)
        → 1 ≤ off
        → off ≤ length b
        → EndsWithin off (length b) (decode_items limit item b left off)
    unfolding decode_items
    decode_items_ends zero off h k = omega arith
    decode_items_ends (suc left) off h k =
        EndsWithin-bind 1 (length b - off) off (length b) (item (drop off b)) _ (ends off h k)
          λ r p q.
            EndsWithin-bind (off + r.1) (length b) off (length b)
              (decode_items limit item b left (off + r.1)) _
              (decode_items_ends left (off + r.1) (omega arith) (omega arith))
              λ s t u. (omega arith, u)

    decode_entries_ends :
        (left off : ℕ)
        → 1 ≤ off
        → off ≤ length b
        → EndsWithin off (length b) (decode_entries limit item b left off)
    unfolding decode_entries
    decode_entries_ends zero off h k = omega arith
    decode_entries_ends (suc left) off h k =
        EndsWithin-bind 1 (length b - off) off (length b) (item (drop off b)) _ (ends off h k)
          λ r p q.
            EndsWithin-bind 1 (length b - (off + r.1)) off (length b) (item (drop (off + r.1) b)) _
              (ends (off + r.1) (omega arith) (omega arith))
              λ r' p' q'.
                EndsWithin-bind (off + r.1 + r'.1) (length b) off (length b)
                  (decode_entries limit item b left (off + r.1 + r'.1)) _
                  (decode_entries_ends left (off + r.1 + r'.1) (omega arith) (omega arith))
                  λ s t u. (omega arith, u)

    dispatch_ends :
        (major arg n : ℕ)
        → arg < 2 ^ 64
        → 1 ≤ n
        → n ≤ length b
        → EndsWithin 1 (length b) (dispatch limit item b major arg n)
    unfolding dispatch
    dispatch_ends zero arg n f h k = omega arith
    dispatch_ends (suc zero) arg n f h k = ground arith
    dispatch_ends (suc (suc zero)) arg n f h k = unfold decode_bytes in ground arith
    dispatch_ends (suc (suc (suc zero))) arg n f h k = unfold decode_text in ground arith
    dispatch_ends (suc (suc (suc (suc zero)))) arg n f h k =
        elim (Bool-cases (ltb limit (arg * 16))) [
          | inl e ↦ rw e tt
          | inr e ↦ rw e (
              EndsWithin-bind n (length b) 1 (length b) (decode_items limit item b arg n) _
                (decode_items_ends arg n h k) (λ r p q. (omega arith, q)))
        ]
    dispatch_ends (suc (suc (suc (suc (suc zero))))) arg n f h k =
        elim (Bool-cases (ltb limit (arg * 32))) [
          | inl e ↦ rw e tt
          | inr e ↦ rw e (
              EndsWithin-bind n (length b) 1 (length b) (decode_entries limit item b arg n) _
                (decode_entries_ends arg n h k) (λ r p q. (omega arith, q)))
        ]
    dispatch_ends (suc (suc (suc (suc (suc (suc zero)))))) arg n f h k =
        EndsWithin-bind 1 (length b - n) 1 (length b) (item (drop n b)) _ (ends n h k)
          (λ r p q. (omega arith, omega arith))
    dispatch_ends (suc (suc (suc (suc (suc (suc (suc major))))))) arg n f h k = tt

dispatch_head :
    (limit : ℕ) (item : List ℕ → Outcome (Value × ℕ)) (b : List ℕ) (o : Outcome (ℕ × ℕ × ℕ))
    → HeadFits (length b) o
    → ItemEnds limit item b
    → EndsWithin 1 (length b) (o >>= λ h. dispatch limit item b h.0 h.1 h.2)
dispatch_head limit item b (done h) f ends = dispatch_ends limit item b ends h.0 h.1 h.2 f.0 f.1 f.2
dispatch_head limit item b (fail e) f ends = tt
dispatch_head limit item b panics f ends = absurd f
dispatch_head limit item b stuck f ends = absurd f

-- With more fuel than there are bytes, decoding never runs out of it, and what it consumes is at
-- least a byte and at most the input.
decode_value_ends :
    (limit fuel : ℕ) (b : List ℕ)
    → IsBytes b
    → length b < fuel
    → EndsWithin 1 (length b) (decode_value limit fuel b)
unfolding decode_value
decode_value_ends limit zero b h f = elim f [ ]
decode_value_ends limit (suc fuel) b h f =
    dispatch_head limit (decode_value limit fuel) b (decode_head b) (decode_head-HeadFits b h)
      λ off p q.
        let shorter =
          decode_value_ends limit fuel (drop off b) (IsBytes-drop off b h)
            (omega (arith, length-drop {0} off b)) in
        rw length-drop at shorter

-- Whatever the bytes, decoding an envelope ends: in a value, an error or a panic. A value has
-- consumed every byte.
pub decode_envelope_ends :
    (limit : ℕ) (b : List ℕ)
    → IsBytes b
    → EndsWithin (length b) (length b) (decode_envelope limit b)
unfolding decode_envelope
decode_envelope_ends limit b h =
    EndsWithin-bind 1 (length b) (length b) (length b) (decode_value limit (suc (length b)) b) _
      (decode_value_ends limit (suc (length b)) b h (omega arith)) (λ r p q. ground arith)

-- A text string whose claimed length is within nine of 2 ^ 64 passes the truncation test, since
-- `n + arg` wraps, and the slice expression panics, whatever follows.
pub decode_value-text_panics :
    (limit fuel arg : ℕ) (rest : List ℕ)
    → 2 ^ 64 - 9 ≤ arg
    → arg < 2 ^ 64
    → decode_value limit (suc fuel) (write_head 3 arg ++ rest) ≡ panics
unfolding decode_value
decode_value-text_panics limit fuel arg rest h k =
    rw (decode_head-write_head 3 arg rest (omega arith) k)
      (unfold dispatch decode_text write_head in ground (arith, h))
