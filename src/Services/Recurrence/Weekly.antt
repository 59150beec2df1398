-- ===== src/Services/Recurrence/Weekly.antt =====
-- The occurrences of a weekly rule, said without the loop.
use tinku.Prelude.{ℕ, ◌+◌, ◌*◌, ◌%◌, ◌≡◌}
use tinku.Services.Recurrence.{Location, TimeLib, at_clock}
use tinku.Services.Recurrence.Times.{Advances}

-- The instant of the k-th week, of those that the interval counts.
abbrev pub IsCounted : Location → ℕ → ℕ → ℕ → ℕ → ℕ → Type 0
IsCounted loc hour minute interval first t =
    (k : ℕ) × (k % interval ≡ 0) × (at_clock loc hour minute (first + 7 * k) ≡ t)

module _ (lib : TimeLib) (loc : Location) (hour minute interval start end : ℕ)
    (days : Advances loc hour minute) where
  abbrev clock : ℕ → ℕ
  clock = at_clock loc hour minute
