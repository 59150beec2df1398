-- ===== src/Examples/Codec.antt =====
-- Encoding and decoding concrete items.
use tinku.Prelude.{ℕ, ◌^◌, ◌-◌, ◌≡◌, List, [], ◌∷◌, ◌++◌, length, arith}
use tinku.Prelude.Int.{pos, negsuc}
use tinku.Transport.Cbor.Value.{Value, uint, int, text, array, nil, cons}
use tinku.Transport.Cbor.Encode.{write_head, encode_value}
use tinku.Transport.Cbor.Decode.{done, panics, decode_value, decode_envelope}
use tinku.Transport.Cbor.RoundTrip.{Fits, normal, decode_envelope-encode_value}
use tinku.Transport.Cbor.Totality.{EndsWithin, decode_envelope_ends, decode_value-text_panics}
use tinku.Transport.Cbor.Canon.{Entry}

-- ["a", 5, -1]
abbrev sample : Value
sample = array (cons (text (97 ∷ [])) (cons (int (pos 5)) (cons (int (negsuc 0)) nil)))

sample-Fits : Fits 1000 sample
sample-Fits = ground arith

decode_envelope-encode_value_example :
    decode_envelope 1000 (encode_value sample) ≡ done (normal sample, length (encode_value sample))
decode_envelope-encode_value_example = decode_envelope-encode_value 1000 sample sample-Fits

abbrev rest : List ℕ
rest = 7 ∷ []

decode_envelope_ends_example : EndsWithin 2 2 (decode_envelope 1000 (97 ∷ 65 ∷ []))
decode_envelope_ends_example = decode_envelope_ends 1000 (97 ∷ 65 ∷ []) (ground arith)

decode_value-text_panics_example :
    decode_value 1000 1 (write_head 3 (2 ^ 64 - 1) ++ 65 ∷ []) ≡ panics
decode_value-text_panics_example =
    decode_value-text_panics 1000 0 (2 ^ 64 - 1) (65 ∷ []) (omega arith) (omega arith)

abbrev two : List Entry
two = (text (98 ∷ []), uint 1) ∷ (text (97 ∷ []), uint 2) ∷ []

differs :
    (f : Entry)
    → f ≡ (text (97 ∷ []), uint 2)
    → encode_value (text (98 ∷ [])) ≡ encode_value f.0
    → ⊥
unfolding encode_value write_head
differs f e n = ground arith

abbrev two_other : List Entry
two_other = (text (97 ∷ []), uint 2) ∷ (text (98 ∷ []), uint 1) ∷ []
