-- ===== src/Services/Recurrence/Days.antt =====
-- Which day of a period a rule selects.
use tinku.Prelude.{
  ℕ, zero, suc, ◌+◌, ◌-◌, ◌*◌, ◌%◌, ◌≤◌, ◌<◌, ◌≡◌, ◌≢◌, ap, sym, ◌∙◌, Bool, true, false, none, some,
  ltb, ltb→lt, ◌==◌, ==_iff, arith, Bool-cases, Option-cases, String, inl, inr, ◌↔◌, if◌then◌else◌,
}
use native.Mathlib.Nat.{add-zero}
use tinku.Prelude.Int.{ℤ, pos, negsuc}
use tinku.Prelude.Result.{ok}
use tinku.Store.Series.{Recurrence, time_weekday}
use tinku.Services.Recurrence.{
  TimeLib, next_weekday, last_weekday, nth_weekday, day_in_period, rule_weekday,
}

-- What Go documents of its calendar: the days of the week take turns, a month has at least 28 days,
-- and each day is in the month whose days it stands among.
pub record IsCalendar (lib : TimeLib) : Type 0 where
  pub weekday_bound : (d : ℕ) → lib.weekday d < 7
  pub weekday_turn : (d : ℕ) → lib.weekday (suc d) ≡ (lib.weekday d + 1) % 7
  pub month_long : (m : ℕ) → lib.month_start m + 28 ≤ lib.month_start (suc m)
  pub month_of_day :
      (m d : ℕ) → lib.month_start m ≤ d → d < lib.month_start (suc m) → lib.month_of d ≡ m

module _ (lib : TimeLib) (cal : IsCalendar lib) where
  weekday-add : (n d : ℕ) → lib.weekday (d + n) ≡ (lib.weekday d + n) % 7
  weekday-add zero d = ap lib.weekday (add-zero d) ∙ (omega (arith, cal.weekday_bound d))
  weekday-add (suc n) d =
      ap lib.weekday (omega arith) ∙ (cal.weekday_turn (d + n) ∙ (omega (arith, weekday-add n d)))

  -- The first day from `d` on that falls on a weekday, and two of these are weeks apart.
  pub next_weekday_lem :
      (d w : ℕ)
      → w < 7
      → (d ≤ next_weekday lib d w)
        × (next_weekday lib d w < d + 7)
        × (lib.weekday (next_weekday lib d w) ≡ w)
  unfolding next_weekday
  next_weekday_lem d w h = (
    omega arith,
    omega arith,
    omega (arith, weekday-add ((w + 7 - lib.weekday d) % 7) d, cal.weekday_bound d),
  )

  weeks_apart : (d e w : ℕ) → lib.weekday d ≡ w → lib.weekday e ≡ w → d ≤ e → (e - d) % 7 ≡ 0
  weeks_apart d e w h k l =
      omega (arith, weekday-add (e - d) d, cal.weekday_bound d, ap lib.weekday (back d e l))
    where
      back : (d e : ℕ) → d ≤ e → d + (e - d) ≡ e
      back d e l = omega arith

  same_weekday : (weeks d w : ℕ) → lib.weekday d ≡ w → lib.weekday (d + weeks * 7) ≡ w
  same_weekday weeks d w h = omega (arith, weekday-add (weeks * 7) d, cal.weekday_bound d)

  only_one : (d e w : ℕ) → lib.weekday d ≡ w → lib.weekday e ≡ w → d < e + 7 → e < d + 7 → d ≡ e
  only_one d e w h k l m = elim (Bool-cases (ltb d e)) [
    | inl y ↦ omega (arith, weeks_apart d e w h k (ground (arith, y)), ltb→lt d e y)
    | inr y ↦ ground (arith, y, weeks_apart e d w k h (ground (arith, y)))
  ]

  -- The walk by weeks, in closed form.
  nth_weekday_lem :
      (rounds day end n seen : ℕ)
      → end < day + rounds * 7
      → nth_weekday lib rounds day end (pos n) seen ≡ (
          if ltb seen n
          then if ltb (day + (n - suc seen) * 7) end then some (day + (n - suc seen) * 7) else none
          else none)
  unfolding nth_weekday
  nth_weekday_lem zero day end n seen h = ground arith
  nth_weekday_lem (suc rounds) day end n seen h =
      ground (arith, nth_weekday_lem rounds (day + 7) end n (suc seen) (omega arith))

some_eq : {A : Type 0} {a b : A} → some a ≡ some b → a ≡ b
some_eq h = cc

false-ne-true : {b : Bool} → b ≡ false → b ≡ true → ⊥
false-ne-true h k = cc

-- The last of a weekday: it falls on it within the period, and no later day of the period does.
pub last_weekday_sound :
    (lib : TimeLib) (begin w left d : ℕ)
    → last_weekday lib begin w left ≡ some d
    → (begin ≤ d)
      × (d < begin + left)
      × (lib.weekday d ≡ w)
      × ((e : ℕ) → d < e → e < begin + left → lib.weekday e ≢ w)
unfolding last_weekday
last_weekday_sound lib begin w zero d h = cc
last_weekday_sound lib begin w (suc left) d h =
    elim (Bool-cases (lib.weekday (begin + left) == w)) [
      | inl y ↦
          let same : begin + left ≡ d = some_eq (rw y at h) in
          (
            omega arith,
            omega arith,
            rw (← same) ((==_iff (lib.weekday (begin + left)) w).0 y),
            λ e k l. absurd (omega arith),
          )
      | inr y ↦
          let r = last_weekday_sound lib begin w left d (rw y at h) in
          (
            r.0,
            omega (arith, r.1),
            r.2,
            λ e k l. elim (Bool-cases (e == begin + left)) [
              | inl z ↦ λ q. absurd (
                  false-ne-true y
                    ((==_iff _ _).1 (ap lib.weekday (sym ((==_iff e (begin + left)).0 z)) ∙ q)))
              | inr z ↦ r.3 e k (ground (arith, z))
            ],
          )
    ]

last_weekday_complete :
    (lib : TimeLib) (begin w left d : ℕ)
    → begin ≤ d
    → d < begin + left
    → lib.weekday d ≡ w
    → last_weekday lib begin w left ≢ none
unfolding last_weekday
last_weekday_complete lib begin w zero d h k l = absurd (omega arith)
last_weekday_complete lib begin w (suc left) d h k l =
    elim (Bool-cases (lib.weekday (begin + left) == w)) [
      | inl y ↦ rw y (λ q. cc)
      | inr y ↦ rw y (
          last_weekday_complete lib begin w left d h
            (elim (Bool-cases (d == begin + left)) [
              | inl z ↦ absurd (
                  false-ne-true y
                    ((==_iff _ _).1 (ap lib.weekday (sym ((==_iff d (begin + left)).0 z)) ∙ l)))
              | inr z ↦ ground (arith, z)
            ])
            l)
    ]

-- The days that "the n-th weekday of the period" names, said of the day itself.
abbrev pub IsNth : TimeLib → ℕ → ℕ → ℕ → ℕ → ℕ → Type 0
IsNth lib begin end w n d =
    (begin + 7 * (n - 1) ≤ d) × (d < begin + 7 * n) × (d < end) × (lib.weekday d ≡ w)

abbrev pub IsLast : TimeLib → ℕ → ℕ → ℕ → ℕ → Type 0
IsLast lib begin end w d =
    (begin ≤ d) × (d < end) × (lib.weekday d ≡ w) × ((e : ℕ) → d < e → e < end → lib.weekday e ≢ w)

abbrev pub by_ordinal : Recurrence → ℤ → Recurrence
by_ordinal r o = record r { day_of_month = none; ordinal = some o }

module _ (lib : TimeLib) (cal : IsCalendar lib) where
  by_ordinal_selects :
      (begin end w n d : ℕ)
      → w < 7
      → 0 < n
      → begin ≤ end
      → (nth_weekday lib (suc (end - begin)) (next_weekday lib begin w) end (pos n) 0 ≡ some d
          ↔ IsNth lib begin end w n d)
  by_ordinal_selects begin end w n d h p l =
      let first = next_weekday_lem lib cal begin w h in
      let closed =
        nth_weekday_lem lib cal (suc (end - begin)) (next_weekday lib begin w) end n 0
          (omega (arith, first.0)) in
      let falls = same_weekday lib cal (n - 1) (next_weekday lib begin w) w first.2 in
      (
        λ e.
            let at : (next_weekday lib begin w + (n - 1) * 7 ≡ d)
                × (next_weekday lib begin w + (n - 1) * 7 < end) =
              (ground (arith, closed), ground (arith, closed)) in
            (omega (arith, at, first), omega (arith, at, first), omega arith, rw (← at.0) falls),
        λ q.
            let at : next_weekday lib begin w + (n - 1) * 7 ≡ d =
              only_one lib cal (next_weekday lib begin w + (n - 1) * 7) d w falls q.3
                (omega (arith, first)) (omega (arith, first)) in
            ground (arith, closed, at),
      )

  by_minus_one_selects :
      (begin end w d : ℕ)
      → begin ≤ end
      → (last_weekday lib begin w (end - begin) ≡ some d ↔ IsLast lib begin end w d)
  by_minus_one_selects begin end w d l =
      let whole : begin + (end - begin) ≡ end = omega arith in
      (
        λ e.
            let r = last_weekday_sound lib begin w (end - begin) d e in
            (r.0, omega (arith, r.1), r.2, λ x k m. r.3 x k (omega arith)),
        λ q. elim (Option-cases (last_weekday lib begin w (end - begin))) [
          | inl e ↦
              absurd
                (last_weekday_complete lib begin w (end - begin) d q.0 (omega (arith, q.1)) q.2 e)
          | inr (x, e) ↦
              let r = last_weekday_sound lib begin w (end - begin) x e in
              e
              ∙ ap some (elim (Bool-cases (ltb x d)) [
                | inl y ↦ absurd (r.3 d (ltb→lt x d y) (omega (arith, q.1)) q.2)
                | inr y ↦ elim (Bool-cases (ltb d x)) [
                  | inl z ↦ absurd (q.3 x (ltb→lt d x z) (omega (arith, r.1)) r.2)
                  | inr z ↦ ground (arith, y, z)
                ]
              ])
        ],
      )

  chosen :
      (r : Recurrence) (o : ℤ) (name : String) (w : ℕ)
      → r.weekday ≡ some name
      → time_weekday name ≡ some w
      → rule_weekday (by_ordinal r o) ≡ ok w
  unfolding rule_weekday
  chosen r o name w named is_w = rw named (ground (arith, is_w))

  -- A rule with a weekday and an ordinal n from 1 on selects the day that falls on the weekday in
  -- the n-th seven days of the period, if the period has it, and no day otherwise; with the ordinal
  -- -1 it selects the day that falls on the weekday and after which none of the period does.
  pub day_in_period_lem :
      (begin end : ℕ) (r : Recurrence) (name : String) (w n d : ℕ)
      → r.weekday ≡ some name
      → time_weekday name ≡ some w
      → w < 7
      → 0 < n
      → begin ≤ end
      → (day_in_period lib begin end (by_ordinal r (pos n)) ≡ some d ↔ IsNth lib begin end w n d)
        × (day_in_period lib begin end (by_ordinal r (negsuc 0)) ≡ some d
            ↔ IsLast lib begin end w d)
  unfolding day_in_period
  day_in_period_lem begin end r name w n d named is_w h p l =
      rw (chosen r (pos n) name w named is_w, chosen r (negsuc 0) name w named is_w, day_in_period)
        (by_ordinal_selects begin end w n d h p l, by_minus_one_selects begin end w d l)
