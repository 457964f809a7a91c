-- ===== src/Peer/Loop/Monotonic.antt =====
-- src/main.c: `monotonic_ms`.
use edgar_vpn.Prelude.{ℕ, ◌+◌, ◌*◌, ◌/◌, u64}

-- `struct timespec`
pub record Timespec : Type 0 where
  pub tv_sec : ℕ
  pub tv_nsec : ℕ

unfoldable pub monotonic_ms : Timespec → ℕ
monotonic_ms ts = u64 (u64 (ts.tv_sec * 1000) + ts.tv_nsec / 1000000)
