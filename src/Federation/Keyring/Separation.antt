-- ===== src/Federation/Keyring/Separation.antt =====
-- api/internal/federation: what a signature covers. The tags keep the two uses of one key apart.
use tinku.Prelude.{ℕ, ◌+◌, ◌^◌, ◌≤◌, ◌<◌, ◌≡◌, sym, ap, ◌∙◌, [], ◌∷◌, ◌++◌, length, arith}
use mathlib.Core.List.{append-nil}
use tinku.Transport.Cbor.Value.{Value, array, cons, nil, text, bytes}
use tinku.Transport.Cbor.Encode.{encode_value, write_head}
use tinku.Transport.Cbor.RoundTrip.{Fits, normal, encode_value_prefix_free}
use tinku.Federation.Keyring.{Octets, signature_input}

abbrev pub batch_signature_tag : Octets
batch_signature_tag =
    116 ∷ 105 ∷ 110 ∷ 107 ∷ 117 ∷ 45 ∷ 102 ∷ 101 ∷ 100 ∷ 101 ∷ 114 ∷ 97 ∷ 116 ∷ 105 ∷ 111 ∷ 110 ∷ 45
    ∷ 98 ∷ 97 ∷ 116 ∷ 99 ∷ 104 ∷ 45 ∷ 118 ∷ 49 ∷ []

abbrev pub peering_signature_tag : Octets
peering_signature_tag =
    116 ∷ 105 ∷ 110 ∷ 107 ∷ 117 ∷ 45 ∷ 102 ∷ 101 ∷ 100 ∷ 101 ∷ 114 ∷ 97 ∷ 116 ∷ 105 ∷ 111 ∷ 110 ∷ 45
    ∷ 112 ∷ 101 ∷ 101 ∷ 114 ∷ 105 ∷ 110 ∷ 103 ∷ 45 ∷ 118 ∷ 49 ∷ []

abbrev signed_value : Octets → Octets → Value
signed_value tag payload = array (cons (text tag) (cons (bytes payload) nil))

-- What is signed is the transport's encoding of the two.
signature_input-encode_value :
    (tag payload : Octets) → signature_input tag payload ≡ encode_value (signed_value tag payload)
unfolding signature_input encode_value
signature_input-encode_value tag payload =
    ap (λ b. write_head 4 2 ++ ((write_head 3 (length tag) ++ tag) ++ b))
      (sym (append-nil (write_head 2 (length payload) ++ payload)))

signed_Fits :
    (limit : ℕ) (tag payload : Octets)
    → length tag < 2 ^ 63
    → length payload < 2 ^ 63
    → length payload + 32 ≤ limit
    → Fits limit (signed_value tag payload)
signed_Fits limit tag payload t p l =
    (omega arith, omega (arith, l), (t, ((p, omega (arith, l)), tt)))

tag_and_payload :
    {tag payload tag' payload' : Octets}
    → array (cons (text tag) (cons (bytes payload) nil))
      ≡ array (cons (text tag') (cons (bytes payload') nil))
    → (tag ≡ tag') × (payload ≡ payload')
tag_and_payload h = (cc, cc)

-- Two signed messages that are the same bytes have the same tag and the same payload, when Go can
-- hold the four: a signature made for one context is for no other.
pub signature_input_injective :
    (tag payload tag' payload' : Octets)
    → length tag < 2 ^ 63
    → length payload < 2 ^ 63
    → length tag' < 2 ^ 63
    → length payload' < 2 ^ 63
    → signature_input tag payload ≡ signature_input tag' payload'
    → (tag ≡ tag') × (payload ≡ payload')
unfolding normal
signature_input_injective tag payload tag' payload' a b a' b' e =
    let limit : ℕ = length payload + length payload' + 32 in
    let same : normal (signed_value tag payload) ≡ normal (signed_value tag' payload') =
      (encode_value_prefix_free limit (signed_value tag payload) (signed_value tag' payload') [] []
        (signed_Fits limit tag payload a b (omega arith))
        (signed_Fits limit tag' payload' a' b' (omega arith))
        (append-nil (encode_value (signed_value tag payload))
          ∙ sym (signature_input-encode_value tag payload)
          ∙ e
          ∙ signature_input-encode_value tag' payload'
          ∙ sym (append-nil (encode_value (signed_value tag' payload'))))).0 in
    tag_and_payload same
