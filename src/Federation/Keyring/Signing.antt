-- ===== src/Federation/Keyring/Signing.antt =====
-- Which key signs, and api/internal/federation/verify.go: who accepts the signature. The resolver of
-- a peer's attested keys is a remote service, so what it answers is a parameter.
use tinku.Prelude.{
  ℕ, zero, suc, ◌<◌, ◌≡◌, refl, String, Bool, true, false, List, [], ◌∷◌, Option, none, some, ◌&&◌,
  not, str_eq, length, filter, ltb, ltb→lt, All, arith, Bool-cases, Option-cases, inl, inr,
  if◌then◌else◌,
}
use tinku.Prelude.Result.{ok}
use tinku.Federation.Keyring.{
  Octets, Crypto, LocalKey, LocalKeyring, is_active, nth, sign_with_context, signature_input,
}
use tinku.Federation.Keyring.Stored.{Decodes}

abbrev pub application_key_algorithm : String
application_key_algorithm = "linkkeys-application-key-ed25519-v1"

pub record KeyIdentity : Type 0 where
  pub subject_user_id : String
  pub subject_domain : String
  pub application_id : String
  pub instance_id : String

unfoldable pub is_empty : KeyIdentity → Bool
is_empty i =
    str_eq i.subject_user_id ""
    && (str_eq i.subject_domain "" && (str_eq i.application_id "" && str_eq i.instance_id ""))

-- The key set of an identity: the public key of a key id that is usable for signing now.
abbrev pub KeySet : Type 0
KeySet = String → Option Octets

pub record ApplicationKeyVerifier : Type 0 where
  pub context : Octets
  pub resolve : KeyIdentity → Option KeySet
  -- crypto/ed25519.Verify
  pub verifies : Octets → Octets → Octets → Bool

-- Every refusal is `ErrUntrusted`.
pub data Trust : Type 0 where
  trusted : Trust
  untrusted : Trust

module _ (c : Crypto) (v : ApplicationKeyVerifier) where
  abbrev check_signature : Octets → Octets → Option Octets → Trust
  check_signature body sig none = untrusted
  check_signature body sig (some key) =
      if v.verifies key (signature_input v.context body) sig then trusted else untrusted

  abbrev check_key : String → Octets → Octets → Option KeySet → Trust
  check_key id body sig none = untrusted
  check_key id body sig (some keys) = check_signature body sig (keys id)

  abbrev check_bytes : KeyIdentity → String → Octets → Option Octets → Trust
  check_bytes identity id body none = untrusted
  check_bytes identity id body (some sig) = check_key id body sig (v.resolve identity)

  unfoldable pub verify : KeyIdentity → String → String → Octets → Octets → Trust
  verify identity algorithm id body signature =
      if not (str_eq algorithm application_key_algorithm)
      then untrusted
      else if is_empty identity
      then untrusted
      else check_bytes identity id body (c.decode64 signature)

  -- What is trusted was said under the scheme, by a known identity, with a signature that verifies
  -- in the verifier's own context against the key that the identity's own set holds under the id.
  -- Any failure to resolve, to find or to decode is a refusal.
  pub verify_sound :
      (identity : KeyIdentity) (algorithm id : String) (body signature : Octets)
      → verify identity algorithm id body signature ≡ trusted
      → (keys : KeySet) × (key : Octets) × (sig : Octets) × (str_eq algorithm
            application_key_algorithm
          ≡ true)
        × (is_empty identity ≡ false)
        × (v.resolve identity ≡ some keys)
        × (keys id ≡ some key)
        × (c.decode64 signature ≡ some sig)
        × (v.verifies key (signature_input v.context body) sig ≡ true)
  unfolding verify
  verify_sound identity algorithm id body signature h = elim (Option-cases (c.decode64 signature)) [
    | inl e ↦ absurd (ground (arith, h, e))
    | inr (sig, e) ↦ elim (Option-cases (v.resolve identity)) [
      | inl q ↦ absurd (ground (arith, h, e, q))
      | inr (keys, q) ↦ elim (Option-cases (keys id)) [
        | inl k ↦ absurd (ground (arith, h, e, q, k))
        | inr (key, k) ↦ (
          keys,
          key,
          sig,
          ground (arith, h, e, q, k),
          ground (arith, h, e, q, k),
          q,
          k,
          e,
          ground (arith, h, e, q, k),
        )
      ]
    ]
  ]

All-filter_active :
    (P : LocalKey → Type 0) (ks : List LocalKey)
    → All P ks
    → All (λ k. (is_active k ≡ true) × P k) (filter is_active ks)
unfolding filter
All-filter_active P [] h = tt
All-filter_active P (k ∷ ks) h = elim (Bool-cases (is_active k)) [
  | inl y ↦ rw y ((y, h.0), All-filter_active P ks h.1)
  | inr y ↦ rw y (All-filter_active P ks h.1)
]

nth-All :
    (P : LocalKey → Type 0) (n : ℕ) (ks : List LocalKey)
    → All P ks
    → n < length ks
    → (k : LocalKey) × (nth n ks ≡ some k) × P k
nth-All P n [] h lt = absurd (omega (arith, lt))
nth-All P zero (k ∷ ks) h lt = (k, refl, h.0)
nth-All P (suc n) (k ∷ ks) h lt = nth-All P n ks h.1 (omega (arith, lt))

-- The random choice among the active keys is one of them.
abbrev pub Chooses : (ℕ → ℕ) → Type 0
Chooses rng = (n : ℕ) → 1 < n → rng n < n

chosen : (rng : ℕ → ℕ) (n : ℕ) → Chooses rng → 0 < n → (if ltb 1 n then rng n else 0) < n
chosen rng n choice lt = elim (Bool-cases (ltb 1 n)) [
  | inl y ↦ rw y (choice n (ltb→lt 1 n y))
  | inr y ↦ rw y lt
]

-- A peer holds what the keyring publishes for its active keys, and the keyring's public keys belong
-- to its seeds.
abbrev pub Published : Crypto → KeySet → LocalKey → Type 0
Published c keys k =
    (k.public ≡ c.public_key k.seed) × ((is_active k ≡ true) → keys k.key_id ≡ some k.public)

-- Ed25519: a signature verifies against the public key of its seed.
abbrev pub Verifies : Crypto → ApplicationKeyVerifier → Type 0
Verifies c v =
    (seed message : Octets) → v.verifies (c.public_key seed) message (c.sign seed message) ≡ true

module _ (c : Crypto) (v : ApplicationKeyVerifier) (decodes : Decodes c)
    (sound : Verifies c v) where
  -- A keyring with an active key signs, with whichever of them is chosen, and a verifier of the same
  -- context that resolves the identity to the published keys trusts the signature.
  pub verify-sign_with_context :
      (rng : ℕ → ℕ) (kr : LocalKeyring) (body : Octets) (identity : KeyIdentity) (keys : KeySet)
      → Chooses rng
      → 0 < length (filter is_active kr.keys)
      → is_empty identity ≡ false
      → v.resolve identity ≡ some keys
      → All (Published c keys) kr.keys
      → (signature : Octets) × (id : String) × (sign_with_context c rng kr v.context body
          ≡ ok (signature, id))
        × (verify c v identity application_key_algorithm id body signature ≡ trusted)
  unfolding verify sign_with_context
  verify-sign_with_context rng kr body identity keys choice some_active known resolves published =
      let n : ℕ = length (filter is_active kr.keys) in
      let pick : ℕ = if ltb 1 n then rng n else 0 in
      let (k, at_pick, (active, is_published)) =
        nth-All (λ k. (is_active k ≡ true) × Published c keys k) pick (filter is_active kr.keys)
          (All-filter_active (Published c keys) kr.keys published)
          (chosen rng n choice some_active) in
      (
        c.encode64 (c.sign k.seed (signature_input v.context body)),
        k.key_id,
        rw at_pick refl,
        rw
            (
              known,
              decodes (c.sign k.seed (signature_input v.context body)),
              resolves,
              is_published.1 active,
              is_published.0,
              sound k.seed (signature_input v.context body),
            )
            refl,
      )
