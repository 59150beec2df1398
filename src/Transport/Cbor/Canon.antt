-- ===== src/Transport/Cbor/Canon.antt =====
-- `canonMap` of cbor.go. `sort.SliceStable` is Go's stable sort; the model inserts.
use tinku.Prelude.{
  ℕ, ◌≡◌, refl, sym, ap, ◌∙◌, ◌≢◌, List, [], ◌∷◌, Bool, true, false, arith, ltb, if◌then◌else◌,
  Bool-cases, inl, inr,
}
use mathlib.Core.List.{Pairwise, Permᴰ, Memᴰ}
use mathlib.Core.List.Perm
use mathlib.Core.HLevel.{¬_prop}
use tinku.Transport.Cbor.Value.{Value, Entries, map, end, entry}
use tinku.Transport.Cbor.Encode.{encode_value}

-- bytes.Compare(a, b) < 0
unfoldable pub less : List ℕ → List ℕ → Bool
less [] [] = false
less [] (y ∷ ys) = true
less (x ∷ xs) [] = false
less (x ∷ xs) (y ∷ ys) =
    let rest = less xs ys in if ltb x y then true else if ltb y x then false else rest

abbrev pub Entry : Type 0
Entry = Value × Value

abbrev pub key : Entry → List ℕ
key e = encode_value e.0

unfoldable pub insert : Entry → List Entry → List Entry
insert e [] = e ∷ []
insert e (f ∷ es) = let rest = insert e es in if less (key f) (key e) then f ∷ rest else e ∷ f ∷ es

unfoldable pub sort : List Entry → List Entry
sort [] = []
sort (e ∷ es) = insert e (sort es)

unfoldable pub to_entries : List Entry → Entries
to_entries [] = end
to_entries (e ∷ es) = entry e.0 e.1 (to_entries es)

unfoldable pub canon_map : List Entry → Value
canon_map entries = map (to_entries (sort entries))

less_irrefl : (a : List ℕ) → less a a ≡ false
unfolding less
less_irrefl [] = refl
less_irrefl (x ∷ xs) = ground (arith, less_irrefl xs)

less_asymm : (a b : List ℕ) → less a b ≡ true → less b a ≡ false
unfolding less
less_asymm [] [] h = refl
less_asymm [] (y ∷ ys) h = refl
less_asymm (x ∷ xs) [] h = cc
less_asymm (x ∷ xs) (y ∷ ys) h = ground (arith, less_asymm xs ys)

less_antisymm : (a b : List ℕ) → less a b ≡ false → less b a ≡ false → a ≡ b
unfolding less
less_antisymm [] [] h k = refl
less_antisymm [] (y ∷ ys) h k = cc
less_antisymm (x ∷ xs) [] h k = cc
less_antisymm (x ∷ xs) (y ∷ ys) h k = ground (arith, less_antisymm xs ys)

-- b ≤ y < a gives b < a.
less_of_le_of_less : (b y a : List ℕ) → less y b ≡ false → less y a ≡ true → less b a ≡ true
unfolding less
less_of_le_of_less [] [] a h k = k
less_of_le_of_less [] (y ∷ ys) [] h k = cc
less_of_le_of_less [] (y ∷ ys) (x ∷ xs) h k = refl
less_of_le_of_less (b ∷ bs) [] a h k = cc
less_of_le_of_less (b ∷ bs) (y ∷ ys) [] h k = cc
less_of_le_of_less (b ∷ bs) (y ∷ ys) (x ∷ xs) h k = ground (arith, less_of_le_of_less bs ys xs)

insert_comm :
    (a b : Entry) (es : List Entry)
    → key a ≢ key b
    → insert a (insert b es) ≡ insert b (insert a es)
unfolding insert
insert_comm a b [] h = ground (arith, less_antisymm (key a) (key b), less_asymm (key a) (key b))
insert_comm a b (y ∷ es) h = ground (
  arith,
  insert_comm a b es h,
  less_antisymm (key a) (key b),
  less_asymm (key a) (key b),
  less_asymm (key b) (key a),
  less_of_le_of_less (key b) (key y) (key a),
  less_of_le_of_less (key a) (key y) (key b),
)

-- No two entries have the same encoded key.
abbrev pub HasDistinctKeys : List Entry → Type 0
HasDistinctKeys = Pairwise (λ (e : Entry) (f : Entry). key e ≢ key f)

distinct-perm : {es fs : List Entry} → Permᴰ es fs → HasDistinctKeys es → HasDistinctKeys fs
distinct-perm p h = Perm.pairwise (λ e f. ¬_prop) (λ e f n q. n (sym q)) ∣ p ∣₁ h

distinct_tail : {e : Entry} {es : List Entry} → HasDistinctKeys (e ∷ es) → HasDistinctKeys es
distinct_tail (Pairwise.cons h p) = p

distinct_first : {e f : Entry} {es : List Entry} → HasDistinctKeys (e ∷ f ∷ es) → key e ≢ key f
distinct_first (Pairwise.cons h p) = h _ ∣ Memᴰ.head refl ∣₁

sort-perm-eq : {es fs : List Entry} → Permᴰ es fs → HasDistinctKeys es → sort es ≡ sort fs
unfolding sort
sort-perm-eq Permᴰ.nil h = refl
sort-perm-eq (Permᴰ.cons {a = a} e d) h =
    rw (← e) (ap (insert a) (sort-perm-eq d (distinct_tail h)))
sort-perm-eq (Permᴰ.swap {a = a} {b = b} {l = l} e₁ e₂) h =
    rw (← e₁, ← e₂) (insert_comm a b (sort l) (distinct_first h))
sort-perm-eq (Permᴰ.trans d₁ d₂) h = sort-perm-eq d₁ h ∙ sort-perm-eq d₂ (distinct-perm d₁ h)

-- The same entries in any order give the same map, and so the same bytes, if no two encoded keys
-- are equal.
canon_map-perm :
    (es fs : List Entry)
    → Permᴰ es fs
    → HasDistinctKeys es
    → encode_value (canon_map es) ≡ encode_value (canon_map fs)
unfolding canon_map
canon_map-perm es fs p h = ap (λ l. encode_value (map (to_entries l))) (sort-perm-eq p h)

-- Each entry's key is at most the next one's.
abbrev pub IsSorted : List Entry → Type 0
IsSorted [] = Unit
IsSorted (e ∷ []) = Unit
IsSorted (e ∷ f ∷ es) = (less (key f) (key e) ≡ false) × IsSorted (f ∷ es)

insert-IsSorted : (e : Entry) (es : List Entry) → IsSorted es → IsSorted (insert e es)
unfolding insert
insert-IsSorted e [] h = tt
insert-IsSorted e (f ∷ []) h = ground (arith, less_asymm (key f) (key e))
insert-IsSorted e (f ∷ g ∷ es) h = elim (Bool-cases (less (key f) (key e))) [
  | inl p ↦ rw p (elim (Bool-cases (less (key g) (key e))) [
    | inl q ↦ rw q (h.0, (rw q at (insert-IsSorted e (g ∷ es) h.1)))
    | inr q ↦ rw q (less_asymm (key f) (key e) p, (q, h.1))
  ])
  | inr p ↦ rw p (p, h)
]

Permᴰ-refl : (es : List Entry) → Permᴰ es es
Permᴰ-refl [] = Permᴰ.nil
Permᴰ-refl (e ∷ es) = Permᴰ.cons refl (Permᴰ-refl es)

insert-perm : (e : Entry) (es : List Entry) → Permᴰ (e ∷ es) (insert e es)
unfolding insert
insert-perm e [] = Permᴰ-refl (e ∷ [])
insert-perm e (f ∷ es) = elim (Bool-cases (less (key f) (key e))) [
  | inl p ↦ rw p (Permᴰ.trans (Permᴰ.swap refl refl) (Permᴰ.cons refl (insert-perm e es)))
  | inr p ↦ rw p (Permᴰ-refl (e ∷ f ∷ es))
]

-- Sorting keeps the entries, and orders them by their encoded keys.
sort_lem : (es : List Entry) → Permᴰ es (sort es) × IsSorted (sort es)
unfolding sort
sort_lem [] = (Permᴰ.nil, tt)
sort_lem (e ∷ es) =
    let (p, s) = sort_lem es in
    (Permᴰ.trans (Permᴰ.cons refl p) (insert-perm e (sort es)), insert-IsSorted e (sort es) s)
