-- ===== src/Webhooks/Sender/Backoff.antt =====
-- The waiting time between two attempts.
use tinku.Prelude.{ℕ, zero, suc, ◌≡◌, refl, ◌<◌, ◌*◌, ◌^◌, arith}
use tinku.Webhooks.Sender.{backoff, max_attempts, minute}

-- As long as a delivery stays in the queue, each wait is twice the one before, from one minute, and
-- no product has wrapped around.
backoff_doubles : (n : ℕ) → n < max_attempts → backoff n ≡ 2 ^ n * minute
unfolding backoff
backoff_doubles zero h = refl
backoff_doubles (suc zero) h = refl
backoff_doubles (suc (suc zero)) h = refl
backoff_doubles (suc (suc (suc zero))) h = refl
backoff_doubles (suc (suc (suc (suc zero)))) h = refl
backoff_doubles (suc (suc (suc (suc (suc zero))))) h = refl
backoff_doubles (suc (suc (suc (suc (suc (suc n)))))) h = omega arith
