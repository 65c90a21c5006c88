-- ===== src/Sync/Backoff/Bounds.antt =====
-- The delays of internal/sync/queue.go and watch.go in closed form, and their bounds.
use nexus_mail.Base.{ℕ, zero, suc, ◌+◌, ◌-◌, ◌*◌, ◌/◌, ◌^◌, ◌≤◌, ◌<◌, min, ◌≡◌, sym, ap, ◌∙◌, arith}
use native.Mathlib.Nat.{pow-succ', one-le-pow, le-mul_of_pos_right, mul_assoc}
use nexus_mail.Sync.Backoff.{
  second, backoff_base, backoff_cap, queue_retry_base, double_capped, retry_delay, queue_retry_at,
  backoff,
}

-- A doubling moves from the power to the base.
doubled : (d n : ℕ) → d * 2 ^ suc n ≡ d * 2 * 2 ^ n
doubled d n = ap (λ x. d * x) (pow-succ' 2 n) ∙ sym (mul_assoc d 2 (2 ^ n))

grows : (d n : ℕ) → d ≤ d * 2 ^ n
grows d n = le-mul_of_pos_right d (one-le-pow n 2 (omega arith))

-- The loop of doublings with its early exit is a power of two, cut off at the cap.
double_capped_lem : (n d : ℕ) → d ≤ backoff_cap → double_capped n d ≡ min backoff_cap (d * 2 ^ n)
unfolding double_capped
double_capped_lem zero d h = omega arith
double_capped_lem (suc n) d h =
    ground (arith, double_capped_lem n (d * 2), doubled d n, grows (d * 2) n)

-- The wait before a failed operation is tried again: 30 seconds, doubled for each attempt made
-- before, and 5 minutes at most.
pub queue_retry_at-delay :
    (now attempts : ℕ)
    → (queue_retry_at now attempts ≡ now + min (300 * second) (30 * second * 2 ^ attempts))
      × (now + 30 * second ≤ queue_retry_at now attempts)
      × (queue_retry_at now attempts ≤ now + 300 * second)
unfolding queue_retry_at retry_delay
queue_retry_at-delay now attempts =
    let closed = double_capped_lem attempts queue_retry_base (omega arith) in
    let g = grows queue_retry_base attempts in
    (omega (arith, closed), omega (arith, closed, g), omega (arith, closed))

-- The wait before reconnect attempt `n`, when a draw from a spread is below it: the delay is 2
-- seconds, doubled for each attempt and 5 minutes at most, and the wait is more than three quarters
-- of the delay and no more than the whole.
pub backoff-bounds :
    (draw : ℕ → ℕ) (n : ℕ)
    → ((spread : ℕ) → 0 < spread → draw spread < spread)
    → let delay = min (300 * second) (2 * second * 2 ^ n) in
      (delay - delay / 4 < backoff draw n) × (backoff draw n ≤ delay) × (0 < backoff draw n)
unfolding backoff
backoff-bounds draw n below =
    let d = double_capped n backoff_base in
    let closed = double_capped_lem n backoff_base (omega arith) in
    let g = grows backoff_base n in
    let b = below (d / 4) in
    let b' : 0 < d / 4 → draw (d / 4) < d / 4 = b in ground (arith, closed, g, b')
