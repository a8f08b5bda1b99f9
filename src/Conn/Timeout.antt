-- ===== src/Conn/Timeout.antt =====
-- internal/conn/conn.go: how timeoutMillis rounds.
use kbdiag.Prelude.{ℕ, ◌+◌, ◌*◌, ◌/◌, ◌<◌, ◌≤◌, pos, ◌+ℤ◌, ◌≡◌, arith}
use kbdiag.Conn.{timeout_millis, wrap64}

-- A positive timeout becomes the least number of milliseconds that is not shorter, so never 0,
-- which the server takes as no timeout; for timeouts of at most 2^63 - 1000000 nanoseconds.
pub timeout_millis-least :
    (d : ℕ)
    → 0 < d
    → d ≤ 9223372036853775808
    → (ms : ℕ) × (timeout_millis (pos d) ≡ pos ms)
      × (0 < ms)
      × (d ≤ ms * 1000000)
      × (ms * 1000000 < d + 1000000)
unfolding timeout_millis wrap64 ◌+ℤ◌
timeout_millis-least d h k =
    ((d + 999999) / 1000000, ground arith, ground arith, ground arith, ground arith)
