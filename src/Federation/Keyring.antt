-- ===== src/Federation/Keyring.antt =====
-- api/internal/federation/keyring.go: the signing keys of an instance. Ed25519, base64 and the
-- randomness are parameters; the JSON text of a secret is the record that it writes out.
pub mod Stored
pub mod Separation
pub mod Signing
use tinku.Prelude.{
  ℕ, zero, suc, ◌+◌, String, Bool, true, false, List, [], ◌∷◌, ◌++◌, Option, none, some, ◌&&◌, not,
  str_eq, length, if◌then◌else◌, any, filter, count, find, is_some, ltb, ◌==◌, map,
}
use tinku.Transport.Cbor.Encode.{write_head}
use tinku.Prelude.Result.{Result, ok, err, internal}

-- Octets of a key, a seed or a signature, and a message to sign.
abbrev pub Octets : Type 0
Octets = List ℕ

pub record Crypto : Type 0 where
  -- crypto/ed25519: the public key of a seed, and the signature of a message.
  pub public_key : Octets → Octets
  pub sign : Octets → Octets → Octets
  -- base64.RawURLEncoding; a text is its bytes
  pub encode64 : Octets → Octets
  pub decode64 : Octets → Option Octets
  -- regularrp.MinSigningKeys
  pub min_signing_keys : ℕ

abbrev pub seed_size : ℕ
seed_size = 32

pub record LocalKey : Type 0 where
  pub key_id : String
  pub seed : Octets
  pub public : Octets
  pub created_at : ℕ
  pub retired_at : Option ℕ

pub record LocalKeyring : Type 0 where
  pub address : String
  pub keys : List LocalKey

pub record KeyInfo : Type 0 where
  pub key_id : String
  pub public : Octets
  pub created_at : ℕ
  pub active : Bool

pub record ApplicationSigner : Type 0 where
  pub key_id : String
  pub algorithm : String
  pub private_key : Octets

pub record KeyringSecretKey : Type 0 where
  pub key_id : String
  pub seed : Octets
  pub created_at : ℕ
  pub retired_at : Option ℕ

pub record KeyringSecret : Type 0 where
  pub version : ℕ
  pub address : String
  pub keys : List KeyringSecretKey

abbrev pub is_active : LocalKey → Bool
is_active k = not (is_some k.retired_at)

abbrev pub has_key_id : String → LocalKey → Bool
has_key_id id k = str_eq k.key_id id

unfoldable pub key_info_of : LocalKey → KeyInfo
key_info_of k = record {
  key_id = k.key_id;
  public = k.public;
  created_at = k.created_at;
  active = is_active k;
}

unfoldable pub keys : LocalKeyring → List KeyInfo
keys kr = map key_info_of kr.keys

abbrev signer_of : LocalKey → ApplicationSigner
signer_of k = record { key_id = k.key_id; algorithm = "ed25519"; private_key = k.seed }

unfoldable pub active_signers : LocalKeyring → String → List ApplicationSigner
active_signers kr exclude =
    map signer_of (filter (λ k. is_active k && not (str_eq k.key_id exclude)) kr.keys)

unfoldable pub signer_for : LocalKeyring → String → Option ApplicationSigner
signer_for kr id = elim (find (has_key_id id) kr.keys) [ none ↦ none | some k ↦ some (signer_of k) ]

abbrev pub retire : ℕ → LocalKey → LocalKey
retire at k = if is_some k.retired_at then k else record k { retired_at = some at }

-- The first key with the id.
unfoldable pub retire_first : String → ℕ → List LocalKey → List LocalKey
retire_first id at [] = []
retire_first id at (k ∷ ks) =
    let rest = retire_first id at ks in if has_key_id id k then retire at k ∷ ks else k ∷ rest

unfoldable pub retire_key : LocalKeyring → String → ℕ → Result LocalKeyring
retire_key kr id at =
    if any (has_key_id id) kr.keys
    then ok (record kr { keys = retire_first id at kr.keys })
    else err (internal "no local key")

-- What generating a key draws: an id and a seed.
abbrev pub Fresh : Type 0
Fresh = String × Octets

abbrev pub nth : ℕ → List LocalKey → Option LocalKey
nth n [] = none
nth zero (k ∷ ks) = some k
nth (suc n) (k ∷ ks) = nth n ks

-- cbor.go: the array of the tag as a text and of the payload as a byte string. `cborHead` writes the
-- heads of the transport.
unfoldable pub signature_input : Octets → Octets → Octets
signature_input tag payload =
    write_head 4 2
    ++ ((write_head 3 (length tag) ++ tag) ++ (write_head 2 (length payload) ++ payload))

module _ (c : Crypto) where
  abbrev pub new_key : ℕ → Fresh → LocalKey
  new_key now fresh = record {
    key_id = fresh.0;
    seed = fresh.1;
    public = c.public_key fresh.1;
    created_at = now;
    retired_at = none;
  }

  unfoldable pub add_key : LocalKeyring → ℕ → Fresh → KeyInfo × LocalKeyring
  unfolding key_info_of
  add_key kr now fresh =
      (key_info_of (new_key now fresh), record kr { keys = kr.keys ++ new_key now fresh ∷ [] })

  -- One draw for each key asked for.
  unfoldable pub new_keyring : String → ℕ → List Fresh → Result LocalKeyring
  new_keyring address now draws =
      if ltb (length draws) c.min_signing_keys
      then err (internal "too few signing keys")
      else if str_eq address ""
      then err (internal "a keyring needs an address")
      else ok (record { address = address; keys = map (new_key now) draws })

  abbrev sign_by : Octets → Octets → Option LocalKey → Result (Octets × String)
  sign_by context body none = err (internal "no active local signing key")
  sign_by context body (some k) =
      ok (c.encode64 (c.sign k.seed (signature_input context body)), k.key_id)

  -- `rng` chooses an index below the number of active keys; with one key it is not asked.
  unfoldable pub sign_with_context :
      (ℕ → ℕ) → LocalKeyring → Octets → Octets → Result (Octets × String)
  sign_with_context rng kr context body =
      let active : List LocalKey = filter is_active kr.keys in
      sign_by context body (nth (if ltb 1 (length active) then rng (length active) else 0) active)

  abbrev pub secret_key : LocalKey → KeyringSecretKey
  secret_key k = record {
    key_id = k.key_id;
    seed = c.encode64 k.seed;
    created_at = k.created_at;
    retired_at = k.retired_at;
  }

  unfoldable pub marshal_secret : LocalKeyring → KeyringSecret
  marshal_secret kr = record { version = 1; address = kr.address; keys = map secret_key kr.keys }

  abbrev read_seed : Option Octets → Result Octets
  read_seed none = err (internal "malformed seed")
  read_seed (some s) = if length s == seed_size then ok s else err (internal "malformed seed")

  abbrev pub loaded_key : KeyringSecretKey → Octets → LocalKey
  loaded_key k seed = record {
    key_id = k.key_id;
    seed = seed;
    public = c.public_key seed;
    created_at = k.created_at;
    retired_at = k.retired_at;
  }

  abbrev pub and_then {ℓ κ} : {A : Type ℓ} {B : Type κ} → Result A → (A → Result B) → Result B
  and_then (ok a) f = f a
  and_then (err e) f = err e

  -- The loop over the keys; `before` are the keys read already.
  unfoldable pub load_keys : List KeyringSecretKey → List LocalKey → Result (List LocalKey)
  load_keys [] before = ok before
  load_keys (k ∷ ks) before =
      if str_eq k.key_id ""
      then err (internal "a key with no id")
      else if any (has_key_id k.key_id) before
      then err (internal "a duplicate key id")
      else and_then (read_seed (c.decode64 k.seed))
          (λ seed. load_keys ks (before ++ loaded_key k seed ∷ []))

  unfoldable pub load_keyring : KeyringSecret → Result LocalKeyring
  load_keyring in_ =
      if not (in_.version == 1)
      then err (internal "unknown version")
      else if str_eq in_.address ""
      then err (internal "no address")
      else if length in_.keys == 0
      then err (internal "no keys")
      else and_then (load_keys in_.keys []) (λ ks.
        if ltb (count is_active ks) c.min_signing_keys
        then err (internal "too few active keys")
        else ok (record { address = in_.address; keys = ks }))
