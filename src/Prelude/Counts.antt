-- ===== src/Prelude/Counts.antt =====
-- How counting and finding the rows that pass a test go with changing, dropping and adding rows.
use Prim.Native.Nat.{◌+◌, ◌≤◌}
use mathlib.Core.Path.{◌≡◌, refl}
use mathlib.Core.Bool.{Bool, true, false, not, ◌||◌, ◌&&◌}
use mathlib.Core.List.{List, [], ◌∷◌, ◌++◌}
use mathlib.Core.Option.{none, some}
use native.Mathlib.Omega.{arith}
use mathlib.Core.Logic.{inl, inr}
use tinku.Prelude.Tests.{Bool-cases}
use tinku.Prelude.Lists.{filter, any, find, count, update_where, All}

module _ {A : Type 0} (p : A → Bool) where
  pub count-append : (xs ys : List A) → count p (xs ++ ys) ≡ count p xs + count p ys
  unfolding count
  count-append [] ys = omega arith
  count-append (x ∷ xs) ys = ground (arith, count-append xs ys)

  pub count-filter_le : (q : A → Bool) (xs : List A) → count p (filter q xs) ≤ count p xs
  unfolding count filter
  count-filter_le q [] = omega arith
  count-filter_le q (x ∷ xs) = ground (arith, count-filter_le q xs)

  -- A change that the test does not see.
  pub count-update_where :
      (q : A → Bool) (f : A → A)
      → ((x : A) → p (f x) ≡ p x)
      → (xs : List A) → count p (update_where q f xs) ≡ count p xs
  unfolding count update_where
  count-update_where q f h [] = refl
  count-update_where q f h (x ∷ xs) = ground (arith, count-update_where q f h xs, h x)

  pub update_where-none : (f : A → A) (xs : List A) → count p xs ≡ 0 → update_where p f xs ≡ xs
  unfolding count update_where
  update_where-none f [] h = refl
  update_where-none f (x ∷ xs) h = ground (arith, update_where-none f xs)

  pub any-append : (xs ys : List A) → any p (xs ++ ys) ≡ (any p xs || any p ys)
  unfolding any
  any-append [] ys = ground arith
  any-append (x ∷ xs) ys = ground (arith, any-append xs ys)

  pub any-filter-not : (xs : List A) → any p (filter (λ x. not (p x)) xs) ≡ false
  unfolding any filter
  any-filter-not [] = refl
  any-filter-not (x ∷ xs) = ground (arith, any-filter-not xs)

  pub find-append_none :
      (xs : List A) (y : A) → any p xs ≡ false → p y ≡ true → find p (xs ++ y ∷ []) ≡ some y
  unfolding any find
  find-append_none [] y h k = ground arith
  find-append_none (x ∷ xs) y h k = ground (arith, find-append_none xs y)

  pub find-filter-not : (xs : List A) → find p (filter (λ x. not (p x)) xs) ≡ none
  unfolding find filter
  find-filter-not [] = refl
  find-filter-not (x ∷ xs) = ground (arith, find-filter-not xs)

  -- Dropping the rows that pass a second test, where each row that passes the first passes the
  -- second or none does.
  pub any-filter_apart :
      (q : A → Bool) (b : Bool) (xs : List A)
      → All (λ x. p x ≡ true → q x ≡ b) xs
      → any p (filter (λ x. not (q x)) xs) ≡ (not b && any p xs)
  unfolding any filter
  any-filter_apart q true [] h = refl
  any-filter_apart q false [] h = refl
  any-filter_apart q b (x ∷ xs) h = elim (Bool-cases (p x)) [
    | inl y ↦ ground (arith, any-filter_apart q b xs h.1, h.0 y, y)
    | inr y ↦ ground (arith, any-filter_apart q b xs h.1, y)
  ]
