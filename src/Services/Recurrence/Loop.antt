-- ===== src/Services/Recurrence/Loop.antt =====
-- The loop of `occurrenceTimes`, for any step and any choice within a period.
use tinku.Prelude.{
  ℕ, zero, suc, ◌+◌, ◌≤◌, ◌<◌, ◌≡◌, refl, Bool, true, false, Option, none, some, List, [], ◌∷◌, leb,
  arith, length, All, if◌then◌else◌, Bool-cases, Option-cases, inl, inr, filter, any, ◌==◌, ==_iff,
}
use native.Mathlib.Nat.{add-zero}
use mathlib.Core.Path.{subst}
use tinku.Services.Recurrence.{collect, keep, max_occurrences_per_expansion}

abbrev pub iterate : (ℕ → ℕ) → ℕ → ℕ → ℕ
iterate f zero x = x
iterate f (suc n) x = iterate f n (f x)

-- Each instant comes after the one before it, and the first one not before a given one.
abbrev pub IsAscendingFrom : ℕ → List ℕ → Type 0
IsAscendingFrom lo [] = Unit
IsAscendingFrom lo (t ∷ ts) = (lo ≤ t) × IsAscendingFrom (suc t) ts

ascending_weaken :
    (lo hi : ℕ) (ts : List ℕ) → lo ≤ hi → IsAscendingFrom hi ts → IsAscendingFrom lo ts
ascending_weaken lo hi [] h a = tt
ascending_weaken lo hi (t ∷ ts) h a = (omega arith, a.1)

some_eq : {A : Type 0} {a b : A} → some a ≡ some b → a ≡ b
some_eq h = cc

none-ne-some : {A : Type 0} {o : Option A} {a : A} → o ≡ some a → o ≡ none → ⊥
none-ne-some h k = cc

module _ (next : ℕ → ℕ) (past : ℕ → Bool) (pick : ℕ → ℕ → Option ℕ) where
  -- The loop ends if some later cursor is past the window, and there is fuel to reach it.
  pub collect_ends :
      (k fuel period cursor n : ℕ)
      → past (iterate next k cursor) ≡ true
      → k < fuel
      → (ts : List ℕ) × (collect next past pick fuel period cursor n ≡ some ts)
  unfolding collect
  collect_ends k zero period cursor n h l = absurd (omega arith)
  collect_ends zero (suc fuel) period cursor n h l = ([], rw h refl)
  collect_ends (suc k) (suc fuel) period cursor n h l =
      let without = collect_ends k fuel (suc period) (next cursor) n h (omega arith) in
      let with = collect_ends k fuel (suc period) (next cursor) (suc n) h (omega arith) in
      elim (Bool-cases (past cursor)) [
        | inl e ↦ ([], rw e refl)
        | inr e ↦ elim (Option-cases (pick period cursor)) [
          | inl p ↦ (without.0, rw (e, p) (without.1))
          | inr (at, p) ↦ elim (Bool-cases (leb max_occurrences_per_expansion (suc n))) [
            | inl m ↦ (at ∷ [], rw (e, p, m) refl)
            | inr m ↦ (at ∷ with.0, rw (e, p, m, with.1) refl)
          ]
        ]
      ]

-- How the loop can come to its result.
module _ (next : ℕ → ℕ) (past : ℕ → Bool) (pick : ℕ → ℕ → Option ℕ) where
  pub data Run : ℕ → ℕ → ℕ → List ℕ → Type 0 where
    stop : {p c n : ℕ} → past c ≡ true → Run p c n []
    skip :
        {p c n : ℕ} {ts : List ℕ}
        → past c ≡ false
        → pick p c ≡ none
        → Run (suc p) (next c) n ts
        → Run p c n ts
    full :
        {p c n t : ℕ}
        → past c ≡ false
        → pick p c ≡ some t
        → max_occurrences_per_expansion ≤ suc n
        → Run p c n (t ∷ [])
    more :
        {p c n t : ℕ} {ts : List ℕ}
        → past c ≡ false
        → pick p c ≡ some t
        → suc n < max_occurrences_per_expansion
        → Run (suc p) (next c) (suc n) ts
        → Run p c n (t ∷ ts)

module _ {next : ℕ → ℕ} {past : ℕ → Bool} {pick : ℕ → ℕ → Option ℕ} where
  -- The rest of the loop, and the instant in front of it.
  kept :
      {p c n t : ℕ} (rest : Option (List ℕ)) {ts : List ℕ}
      → ((us : List ℕ) → rest ≡ some us → Run next past pick (suc p) (next c) (suc n) us)
      → past c ≡ false
      → pick p c ≡ some t
      → suc n < max_occurrences_per_expansion
      → keep t rest ≡ some ts
      → Run next past pick p c n ts
  kept none r e q l h = cc
  kept {p = p} {c = c} {n = n} {t = t} (some us) {ts = ts} r e q l h =
      let same : t ∷ us ≡ ts = cc in
      subst (λ x. Run next past pick p c n x) same (Run.more e q l (r us refl))

  pub collect-Run :
      (fuel p c n : ℕ) {ts : List ℕ}
      → collect next past pick fuel p c n ≡ some ts
      → Run next past pick p c n ts
  unfolding collect
  collect-Run zero p c n h = cc
  collect-Run (suc fuel) p c n {ts = ts} h = elim (Bool-cases (past c)) [
    | inl e ↦ subst (λ x. Run next past pick p c n x) (some_eq (rw e at h)) (Run.stop e)
    | inr e ↦ elim (Option-cases (pick p c)) [
      | inl q ↦ Run.skip e q (collect-Run fuel (suc p) (next c) n (rw (e, q) at h))
      | inr (t, q) ↦ elim (Bool-cases (leb max_occurrences_per_expansion (suc n))) [
        | inl m ↦
            subst (λ x. Run next past pick p c n x) (some_eq (rw (e, q, m) at h))
              (Run.full e q (ground arith))
        | inr m ↦
            kept (collect next past pick fuel (suc p) (next c) (suc n))
              (λ us k. collect-Run fuel (suc p) (next c) (suc n) k) e q (ground arith)
              (rw (e, q, m) at h)
      ]
    ]
  ]

  pub Run-length :
      {p c n : ℕ} {ts : List ℕ}
      → Run next past pick p c n ts
      → n < max_occurrences_per_expansion
      → n + length ts ≤ max_occurrences_per_expansion
  Run-length (Run.stop e) l = omega arith
  Run-length (Run.skip e q r) l = Run-length r l
  Run-length (Run.full e q m) l = omega arith
  Run-length (Run.more e q m r) l = omega (arith, Run-length r m)

  -- What every choice has, every instant of the result has.
  pub Run-All {ℓ} :
      {P : ℕ → Type ℓ} {p c n : ℕ} {ts : List ℕ}
      → ((p c t : ℕ) → pick p c ≡ some t → past c ≡ false → P t)
      → Run next past pick p c n ts
      → All P ts
  Run-All h (Run.stop e) = tt
  Run-All h (Run.skip e q r) = Run-All h r
  Run-All h (Run.full e q m) = (h _ _ _ q e, tt)
  Run-All h (Run.more e q m r) = (h _ _ _ q e, Run-All h r)

  -- The same, with what holds of every period and cursor that the loop reaches.
  pub Run-reached {ℓ} :
      {P : ℕ → Type ℓ} {Reached : ℕ → ℕ → Type ℓ} {p c n : ℕ} {ts : List ℕ}
      → ((p c : ℕ) → Reached p c → Reached (suc p) (next c))
      → ((p c t : ℕ) → Reached p c → pick p c ≡ some t → P t)
      → Reached p c
      → Run next past pick p c n ts
      → All P ts
  Run-reached s h i (Run.stop e) = tt
  Run-reached s h i (Run.skip e q r) = Run-reached s h (s _ _ i) r
  Run-reached s h i (Run.full e q m) = (h _ _ _ i q, tt)
  Run-reached s h i (Run.more e q m r) = (h _ _ _ i q, Run-reached s h (s _ _ i) r)

  -- If what a cursor chooses lies between it and the next cursor, the result ascends.
  pub Run-IsAscendingFrom :
      (lo : ℕ → ℕ)
      → ((p c t : ℕ) → pick p c ≡ some t → (lo c ≤ t) × (t < lo (next c)))
      → ((c : ℕ) → lo c ≤ lo (next c))
      → {p c n : ℕ} {ts : List ℕ} → Run next past pick p c n ts
      → IsAscendingFrom (lo c) ts
  Run-IsAscendingFrom lo h mono (Run.stop e) = tt
  Run-IsAscendingFrom lo h mono (Run.skip {c = c} {ts = ts} e q r) =
      ascending_weaken (lo c) (lo (next c)) ts (mono c) (Run-IsAscendingFrom lo h mono r)
  Run-IsAscendingFrom lo h mono (Run.full e q m) = ((h _ _ _ q).0, tt)
  Run-IsAscendingFrom lo h mono (Run.more {c = c} {t = t} {ts = ts} e q m r) = (
    (h _ _ _ q).0,
    ascending_weaken (suc t) (lo (next c)) ts (h _ _ _ q).1 (Run-IsAscendingFrom lo h mono r),
  )

  -- Nothing within the window is left out, unless the bound on rows is reached.
  pub Run-complete :
      (k : ℕ) {p c n t : ℕ} {ts : List ℕ}
      → Run next past pick p c n ts
      → n + length ts < max_occurrences_per_expansion
      → ((j : ℕ) → j ≤ k → past (iterate next j c) ≡ false)
      → pick (p + k) (iterate next k c) ≡ some t
      → any (λ x. x == t) ts ≡ true
  unfolding any
  Run-complete k (Run.stop e) l w h = absurd (cc (w 0 (omega arith)))
  Run-complete zero (Run.skip {p = p} e q r) l w h = absurd (none-ne-some (rw add-zero at h) q)
  Run-complete (suc k) {t = t} (Run.skip {p = p} {c = c} e q r) l w h =
      Run-complete k r l (λ j i. w (suc j) (omega arith))
        (subst (λ x. pick x (iterate next (suc k) c) ≡ some t) (omega arith) h)
  Run-complete k (Run.full e q m) l w h = absurd (omega arith)
  Run-complete zero {t = t} (Run.more {p = p} {t = u} {ts = ts} e q m r) l w h =
      let same : u ≡ t = some_eq (rw q at (rw add-zero at h)) in rw (same, (==_iff t t).1 refl) refl
  Run-complete (suc k) {t = t} (Run.more {p = p} {c = c} {t = u} {ts = ts} e q m r) l w h =
      let later : any (λ x. x == t) ts ≡ true =
        Run-complete k r (omega arith) (λ j i. w (suc j) (omega arith))
          (subst (λ x. pick x (iterate next (suc k) c) ≡ some t) (omega arith) h) in
      ground (arith, later)

  -- The loop has one result.
  pub Run-unique :
      {p c n : ℕ} {ts us : List ℕ}
      → Run next past pick p c n ts
      → Run next past pick p c n us
      → ts ≡ us
  Run-unique (Run.stop e) (Run.stop e') = refl
  Run-unique (Run.stop e) (Run.skip e' q' r') = cc
  Run-unique (Run.stop e) (Run.full e' q' m') = cc
  Run-unique (Run.stop e) (Run.more e' q' m' r') = cc
  Run-unique (Run.skip e q r) (Run.stop e') = cc
  Run-unique (Run.skip e q r) (Run.skip e' q' r') = Run-unique r r'
  Run-unique (Run.skip e q r) (Run.full e' q' m') = cc
  Run-unique (Run.skip e q r) (Run.more e' q' m' r') = cc
  Run-unique (Run.full e q m) (Run.stop e') = cc
  Run-unique (Run.full e q m) (Run.skip e' q' r') = cc
  Run-unique (Run.full e q m) (Run.full e' q' m') = ground arith
  Run-unique (Run.full e q m) (Run.more e' q' m' r') = absurd (omega arith)
  Run-unique (Run.more e q m r) (Run.stop e') = cc
  Run-unique (Run.more e q m r) (Run.skip e' q' r') = cc
  Run-unique (Run.more e q m r) (Run.full e' q' m') = absurd (omega arith)
  Run-unique (Run.more e q m r) (Run.more e' q' m' r') = ground (arith, Run-unique r r')

abbrev pub only_if : (ℕ → Bool) → Option ℕ → Option ℕ
only_if test none = none
only_if test (some t) = if test t then some t else none

-- Choosing less gives the chosen part of the result, where the bound on rows is not reached.
module _ {next : ℕ → ℕ} {past : ℕ → Bool} {pick pick' : ℕ → ℕ → Option ℕ} (test : ℕ → Bool)
    (narrower : (p c : ℕ) → pick' p c ≡ only_if test (pick p c)) where
  pub Run-filter :
      {p c n : ℕ} (m : ℕ) {ts : List ℕ}
      → Run next past pick p c n ts
      → n + length ts < max_occurrences_per_expansion
      → m ≤ n
      → Run next past pick' p c m (filter test ts)
  unfolding filter
  Run-filter m (Run.stop e) l h = Run.stop e
  Run-filter m (Run.skip {p = p} {c = c} e q r) l h =
      Run.skip e (rw q at (narrower p c)) (Run-filter m r l h)
  Run-filter m (Run.full e q k) l h = absurd (omega arith)
  Run-filter m (Run.more {p = p} {c = c} {t = t} {ts = ts} e q k r) l h =
      elim (Bool-cases (test t)) [
        | inl y ↦ rw y (
            Run.more e (rw (q, y) at (narrower p c)) (omega arith)
              (Run-filter (suc m) r (omega arith) (omega arith)))
        | inr y ↦
            rw y (
              Run.skip e (rw (q, y) at (narrower p c)) (Run-filter m r (omega arith) (omega arith)))
      ]
