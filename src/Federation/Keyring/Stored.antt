-- ===== src/Federation/Keyring/Stored.antt =====
-- A keyring written out as a secret and read back.
use tinku.Prelude.{
  ℕ, suc, ◌≤◌, ◌<◌, ◌≡◌, refl, sym, ap, ◌∙◌, String, Bool, true, false, List, [], ◌∷◌, ◌++◌, some,
  str_eq, length, any, count, find, if◌then◌else◌, ◌==◌, ==_iff, arith, All, map, Bool-cases,
  Option-cases, inl, inr, is_some, ge→ltb, lt→ltb,
}
use tinku.Prelude.Result.{ok, err, internal}
use mathlib.Core.List.{append_assoc, append-nil}
use tinku.Prelude.Counts.{any-append}
use tinku.Federation.Keyring.{
  Octets, Crypto, LocalKey, LocalKeyring, is_active, has_key_id, seed_size, secret_key,
  marshal_secret, load_keys, load_keyring, loaded_key, retire_key, retire, retire_first,
}

-- Each id is another than those after it.
abbrev pub HasDistinctIds : List LocalKey → Type 0
HasDistinctIds [] = Unit
HasDistinctIds (k ∷ ks) = All (λ l. str_eq k.key_id l.key_id ≡ false) ks × HasDistinctIds ks

abbrev pub IsKey : Crypto → LocalKey → Type 0
IsKey c k =
    (str_eq k.key_id "" ≡ false) × (length k.seed ≡ seed_size) × (k.public ≡ c.public_key k.seed)

-- The keys of a keyring but for how many are active.
pub record HasGoodKeys (c : Crypto) (kr : LocalKeyring) : Type 0 where
  pub address : str_eq kr.address "" ≡ false
  pub keys : All (IsKey c) kr.keys
  pub ids : HasDistinctIds kr.keys

-- base64url reads back what it wrote.
abbrev pub Decodes : Crypto → Type 0
Decodes c = (s : Octets) → c.decode64 (c.encode64 s) ≡ some s

abbrev Apart : List LocalKey → List LocalKey → Type 0
Apart before ks = All (λ k. any (has_key_id k.key_id) before ≡ false) ks

Apart-snoc :
    (before ks : List LocalKey) (k : LocalKey)
    → Apart before ks
    → All (λ l. str_eq k.key_id l.key_id ≡ false) ks
    → Apart (before ++ k ∷ []) ks
unfolding any
Apart-snoc before [] k a d = tt
Apart-snoc before (l ∷ ks) k a d = (
  any-append (has_key_id l.key_id) before (k ∷ []) ∙ (rw (a.0, d.0) refl),
  Apart-snoc before ks k a.1 d.1,
)

Apart-nil : (ks : List LocalKey) → Apart [] ks
unfolding any
Apart-nil [] = tt
Apart-nil (k ∷ ks) = (refl, Apart-nil ks)

length-map : {A B : Type 0} (f : A → B) (xs : List A) → length (map f xs) ≡ length xs
length-map f [] = refl
length-map f (x ∷ xs) = ap suc (length-map f xs)

not_zero : (n : ℕ) → 0 < n → (n == 0) ≡ false
not_zero n h = ground arith

some_eq : {A : Type 0} {a b : A} → some a ≡ some b → a ≡ b
some_eq h = cc

retired : (at : ℕ) (l : LocalKey) → is_active l ≡ true → is_active (retire at l) ≡ false
retired at l h = ground arith

step : (b : Bool) {m n : ℕ} → suc m ≡ n → suc (if b then suc m else m) ≡ (if b then suc n else n)
step true h = ap suc h
step false h = h

retired-IsKey : (c : Crypto) (at : ℕ) (k : LocalKey) → IsKey c k → IsKey c (retire at k)
retired-IsKey c at k h = elim (Option-cases k.retired_at) [ inl e ↦ rw e h | inr (t, e) ↦ rw e h ]

found-any :
    (p : LocalKey → Bool) (ks : List LocalKey) {k : LocalKey} → find p ks ≡ some k → any p ks ≡ true
unfolding find any
found-any p [] h = cc
found-any p (l ∷ ks) {k = k} h = ground (arith, found-any p ks {k = k})

found-length :
    (p : LocalKey → Bool) (ks : List LocalKey) {k : LocalKey} → find p ks ≡ some k → 0 < length ks
unfolding find
found-length p [] h = cc
found-length p (l ∷ ks) h = omega arith

-- Retiring keeps the id.
same_id : (P : String → Type 0) (at : ℕ) (k : LocalKey) → P k.key_id → P (retire at k).key_id
same_id P at k h = elim (Bool-cases (is_some k.retired_at)) [ inl e ↦ rw e h | inr e ↦ rw e h ]

module _ (c : Crypto) (decodes : Decodes c) where
  same_key :
      (k : LocalKey) → k.public ≡ c.public_key k.seed → loaded_key c (secret_key c k) k.seed ≡ k
  same_key k h = ap (λ (p : Octets). record k { public = p }) (sym h)

  load_keys-secret :
      (ks before : List LocalKey)
      → All (IsKey c) ks
      → HasDistinctIds ks
      → Apart before ks
      → load_keys c (map (secret_key c) ks) before ≡ ok (before ++ ks)
  unfolding load_keys
  load_keys-secret [] before good d a = ap ok (sym (append-nil before))
  load_keys-secret (k ∷ ks) before good d a =
      rw
        (
          good.0.0,
          a.0,
          decodes k.seed,
          (==_iff (length k.seed) seed_size).1 good.0.1,
          same_key k good.0.2,
        )
        (load_keys-secret ks (before ++ k ∷ []) good.1 d.1 (Apart-snoc before ks k a.1 d.0)
          ∙ ap ok (append_assoc before (k ∷ []) ks))

  -- A keyring with an address, distinct and whole keys, and enough of them active comes back as it
  -- was from the secret that it writes out.
  pub load_keyring-marshal_secret :
      (kr : LocalKeyring)
      → HasGoodKeys c kr
      → c.min_signing_keys ≤ count is_active kr.keys
      → 0 < length kr.keys
      → load_keyring c (marshal_secret c kr) ≡ ok kr
  unfolding load_keyring marshal_secret
  load_keyring-marshal_secret kr good enough some_keys =
      rw
        (
          good.address,
          length-map (secret_key c) kr.keys,
          not_zero (length kr.keys) some_keys,
          load_keys-secret kr.keys [] good.keys good.ids (Apart-nil kr.keys),
          ge→ltb (count is_active kr.keys) c.min_signing_keys enough,
        )
        refl

  -- Retiring an active key takes one from the active ones.
  count-retire_first :
      (id : String) (at : ℕ) (ks : List LocalKey) (k : LocalKey)
      → find (has_key_id id) ks ≡ some k
      → is_active k ≡ true
      → suc (count is_active (retire_first id at ks)) ≡ count is_active ks
  unfolding count find retire_first
  count-retire_first id at [] k f a = cc
  count-retire_first id at (l ∷ ks) k f a = elim (Bool-cases (has_key_id id l)) [
    | inl y ↦
        let same : l ≡ k = some_eq (rw y at f) in
        rw (y, retired at l (rw (← same) at a), rw (← same) at a) refl
    | inr y ↦ rw y (step (is_active l) (count-retire_first id at ks k (rw y at f) a))
  ]

  retired-IsKeys :
      (id : String) (at : ℕ) (ks : List LocalKey)
      → All (IsKey c) ks
      → All (IsKey c) (retire_first id at ks)
  unfolding retire_first
  retired-IsKeys id at [] h = tt
  retired-IsKeys id at (k ∷ ks) h = elim (Bool-cases (has_key_id id k)) [
    | inl y ↦ rw y (retired-IsKey c at k h.0, h.1)
    | inr y ↦ rw y (h.0, retired-IsKeys id at ks h.1)
  ]

  retired_apart :
      (id x : String) (at : ℕ) (ks : List LocalKey)
      → All (λ l. str_eq x l.key_id ≡ false) ks
      → All (λ l. str_eq x l.key_id ≡ false) (retire_first id at ks)
  unfolding retire_first
  retired_apart id x at [] h = tt
  retired_apart id x at (k ∷ ks) h = elim (Bool-cases (has_key_id id k)) [
    | inl y ↦ rw y (same_id (λ i. str_eq x i ≡ false) at k h.0, h.1)
    | inr y ↦ rw y (h.0, retired_apart id x at ks h.1)
  ]

  retired-HasDistinctIds :
      (id : String) (at : ℕ) (ks : List LocalKey)
      → HasDistinctIds ks
      → HasDistinctIds (retire_first id at ks)
  unfolding retire_first
  retired-HasDistinctIds id at [] h = tt
  retired-HasDistinctIds id at (k ∷ ks) h = elim (Bool-cases (has_key_id id k)) [
    | inl y ↦ rw y (same_id (λ i. All (λ l. str_eq i l.key_id ≡ false) ks) at k h.0, h.1)
    | inr y ↦ rw y (retired_apart id k.key_id at ks h.0, retired-HasDistinctIds id at ks h.1)
  ]

  length-retire_first :
      (id : String) (at : ℕ) (ks : List LocalKey) → length (retire_first id at ks) ≡ length ks
  unfolding retire_first
  length-retire_first id at [] = refl
  length-retire_first id at (k ∷ ks) = elim (Bool-cases (has_key_id id k)) [
    | inl y ↦ rw y refl
    | inr y ↦ rw y (ap suc (length-retire_first id at ks))
  ]

  -- Retiring an active key of a keyring that has no more active keys than the minimum is carried
  -- out, and the keyring that it leaves is refused when its own secret is read back.
  pub retire_key_below :
      (kr : LocalKeyring) (id : String) (at : ℕ) (k : LocalKey)
      → HasGoodKeys c kr
      → count is_active kr.keys ≤ c.min_signing_keys
      → find (has_key_id id) kr.keys ≡ some k
      → is_active k ≡ true
      → (kr' : LocalKeyring) × (retire_key kr id at ≡ ok kr')
        × (load_keyring c (marshal_secret c kr') ≡ err (internal "too few active keys"))
  unfolding load_keyring marshal_secret retire_key
  retire_key_below kr id at k good exactly f a =
      let ks : List LocalKey = retire_first id at kr.keys in
      let fewer : suc (count is_active ks) ≡ count is_active kr.keys =
        count-retire_first id at kr.keys k f a in
      (
        record kr { keys = ks },
        rw (found-any (has_key_id id) kr.keys f) refl,
        rw
            (
              good.address,
              length-map (secret_key c) ks,
              length-retire_first id at kr.keys,
              not_zero (length kr.keys) (found-length (has_key_id id) kr.keys f),
              load_keys-secret ks [] (retired-IsKeys id at kr.keys good.keys)
                  (retired-HasDistinctIds id at kr.keys good.ids) (Apart-nil ks),
              lt→ltb (count is_active ks) c.min_signing_keys (omega (arith, fewer, exactly)),
            )
            refl,
      )
