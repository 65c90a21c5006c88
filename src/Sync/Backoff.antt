-- ===== src/Sync/Backoff.antt =====
-- The schedules of internal/sync/queue.go and watch.go. Durations are nanoseconds.
pub mod Bounds
use nexus_mail.Base.{ℕ, zero, suc, ◌+◌, ◌-◌, ◌*◌, ◌/◌, leb, if◌then◌else◌}

abbrev pub second : ℕ
second = 1_000_000_000

abbrev pub backoff_base : ℕ
backoff_base = 2 * second

abbrev pub backoff_cap : ℕ
backoff_cap = 300 * second

abbrev pub queue_retry_base : ℕ
queue_retry_base = 30 * second

-- `for range n { d *= 2; if d >= backoffCap { d = backoffCap; break } }`
unfoldable pub double_capped : ℕ → ℕ → ℕ
double_capped zero d = d
double_capped (suc n) d =
    let rest = double_capped n (d * 2) in if leb backoff_cap (d * 2) then backoff_cap else rest

-- How long a failed operation waits after so many attempts.
unfoldable pub retry_delay : ℕ → ℕ
unfolding double_capped
retry_delay attempts = double_capped attempts queue_retry_base

unfoldable pub queue_retry_at : ℕ → ℕ → ℕ
unfolding retry_delay
queue_retry_at now attempts = now + retry_delay attempts

-- The wait before reconnect attempt `n`; `draw` is what `rand.Int64N(spread)` returns.
unfoldable pub backoff : (ℕ → ℕ) → ℕ → ℕ
unfolding double_capped
backoff draw n =
    let d = double_capped n backoff_base in
    let spread = d / 4 in if leb spread 0 then d else d - draw spread
