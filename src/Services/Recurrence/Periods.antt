-- ===== src/Services/Recurrence/Periods.antt =====
-- A day that a rule selects in a period is one of the period.
use tinku.Prelude.{
  ℕ, zero, suc, ◌+◌, ◌-◌, ◌≤◌, ◌<◌, ◌≡◌, refl, true, none, some, ltb, ltb→lt, ◌==◌, arith,
  Bool-cases, Option-cases, String, inl, inr, or_else,
}
use tinku.Prelude.Int.{ℤ, pos, negsuc}
use tinku.Services.Validate.{known_day, validate_recurrence}
use tinku.Services.Recurrence.Days.{IsCalendar, next_weekday_lem, last_weekday_sound}
use tinku.Prelude.Result.{Error, Result, ok, err}
use tinku.Store.Series.{Recurrence, time_weekday}
use tinku.Services.Recurrence.{
  next_weekday, nth_weekday, weekday_in_period, day_of_month, day_in_period, rule_weekday, TimeLib,
}

pub strict_mono : (f : ℕ → ℕ) → ((d : ℕ) → f d < f (suc d)) → (a b : ℕ) → a < b → f a < f b
strict_mono f h a zero l = absurd (omega arith)
strict_mono f h a (suc b) l = elim (Bool-cases (a == b)) [
  | inl e ↦ ground (arith, h b, h a)
  | inr e ↦ ground (arith, strict_mono f h a b, h b)
]

err-ne-ok : {A : Type 0} {e : Error} {a : A} → err e ≡ ok a → ⊥
err-ne-ok h = cc

ok_eq : {A : Type 0} {a b : A} → ok a ≡ ok b → a ≡ b
ok_eq h = cc

nth_weekday_bounds :
    (lib : TimeLib) (rounds day end : ℕ) (o : ℤ) (seen d : ℕ)
    → nth_weekday lib rounds day end o seen ≡ some d
    → (day ≤ d) × (d < end)
unfolding nth_weekday
nth_weekday_bounds lib zero day end o seen d h = cc
nth_weekday_bounds lib (suc rounds) day end o seen d h =
    ground (arith, nth_weekday_bounds lib rounds (day + 7) end o (suc seen) d)

months_mono :
    (lib : TimeLib) → IsCalendar lib → (m n : ℕ) → m ≤ n → lib.month_start m ≤ lib.month_start n
months_mono lib cal m n h = elim (Bool-cases (m == n)) [
  | inl e ↦ ground (arith, e)
  | inr e ↦ omega (
    arith,
    strict_mono lib.month_start (λ k. omega (arith, cal.month_long k)) m n (ground (arith, e)),
  )
]

day_of_month_bounds :
    (lib : TimeLib)
    → IsCalendar lib
    → (m months : ℕ) (i : ℤ) (d : ℕ) → 0 < months
    → known_day (some i) ≡ true
    → day_of_month lib (lib.month_start m) i ≡ some d
    → (lib.month_start m ≤ d) × (d < lib.month_start (m + months))
unfolding day_of_month
day_of_month_bounds lib cal m months (pos n) d more k h =
    let this : lib.month_of (lib.month_start m) ≡ m =
      cal.month_of_day m (lib.month_start m) (omega arith) (omega (arith, cal.month_long m)) in
    let in_range : (0 < n) × (n ≤ 31) = (ground (arith, k), ground (arith, k)) in
    let until : lib.month_start (suc m) ≤ lib.month_start (m + months) =
      months_mono lib cal (suc m) (m + months) (omega arith) in
    elim (Bool-cases (ltb (lib.month_start m + n - 1) (lib.month_start (suc m)))) [
      | inl y ↦
          let same : lib.month_start m + n - 1 ≡ d = ground (arith, h) in
          (omega arith, omega (arith, ltb→lt _ _ y))
      | inr y ↦
          let next : lib.month_of (lib.month_start m + n - 1) ≡ suc m =
            cal.month_of_day (suc m) (lib.month_start m + n - 1) (ground (arith, y))
              (omega (arith, cal.month_long m, cal.month_long (suc m))) in
          ground (arith, h, this, next)
    ]
day_of_month_bounds lib cal m months (negsuc n) d more k h = cc

weekday_in_period_bounds :
    (lib : TimeLib)
    → IsCalendar lib
    → (begin end w : ℕ) (o : ℤ) (d : ℕ) → w < 7
    → begin ≤ end
    → weekday_in_period lib begin end w o ≡ some d
    → (begin ≤ d) × (d < end)
weekday_in_period_bounds lib cal begin end w (pos n) d h l e = omega (
  arith,
  nth_weekday_bounds lib (suc (end - begin)) (next_weekday lib begin w) end (pos n) 0 d e,
  next_weekday_lem lib cal begin w h,
)
weekday_in_period_bounds lib cal begin end w (negsuc zero) d h l e =
    omega (arith, last_weekday_sound lib begin w (end - begin) d e)
weekday_in_period_bounds lib cal begin end w (negsuc (suc n)) d h l e = omega (
  arith,
  nth_weekday_bounds lib (suc (end - begin)) (next_weekday lib begin w) end (negsuc (suc n)) 0 d e,
  next_weekday_lem lib cal begin w h,
)

valid_day : (r : Recurrence) → validate_recurrence r ≡ ok tt → known_day r.day_of_month ≡ true
unfolding validate_recurrence
valid_day r v = ground (arith, v)

time_weekday_bound : (name : String) (w : ℕ) → time_weekday name ≡ some w → w < 7
unfolding time_weekday
time_weekday_bound name w h = ground arith

rule_weekday_bound : (r : Recurrence) (w : ℕ) → rule_weekday r ≡ ok w → w < 7
unfolding rule_weekday
rule_weekday_bound r w h = elim (Option-cases r.weekday) [
  | inl e ↦ absurd (err-ne-ok (rw e at h))
  | inr (name, e) ↦ elim (Option-cases (time_weekday name)) [
    | inl q ↦ absurd (err-ne-ok (rw (e, q, rule_weekday) at h))
    | inr (x, q) ↦ ground (arith, ok_eq (rw (e, q, rule_weekday) at h), time_weekday_bound name x q)
  ]
]

days_by :
    (lib : TimeLib)
    → IsCalendar lib
    → (r : Recurrence) (begin end d : ℕ) (picked : Result ℕ) → ((w : ℕ) → picked ≡ ok w → w < 7)
    → begin ≤ end
    → elim picked [
      | err e ↦ none
      | ok w ↦ weekday_in_period lib begin end w (or_else r.ordinal (pos 1))
    ]
      ≡ some d
    → (begin ≤ d) × (d < end)
days_by lib cal r begin end d (err e) b l h = cc
days_by lib cal r begin end d (ok w) b l h =
    weekday_in_period_bounds lib cal begin end w (or_else r.ordinal (pos 1)) d (b w refl) l h

pub day_in_period_bounds :
    (lib : TimeLib)
    → IsCalendar lib
    → (r : Recurrence) (m months d : ℕ) → 0 < months
    → validate_recurrence r ≡ ok tt
    → day_in_period lib (lib.month_start m) (lib.month_start (m + months)) r ≡ some d
    → (lib.month_start m ≤ d) × (d < lib.month_start (m + months))
unfolding day_in_period rule_weekday
day_in_period_bounds lib cal r m months d more v h = elim (Option-cases r.day_of_month) [
  | inl e ↦
      days_by lib cal r (lib.month_start m) (lib.month_start (m + months)) d (rule_weekday r)
        (rule_weekday_bound r) (months_mono lib cal m (m + months) (omega arith)) (rw e at h)
  | inr (i, e) ↦ day_of_month_bounds lib cal m months i d more (rw e at (valid_day r v)) (rw e at h)
]
