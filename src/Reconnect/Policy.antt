-- ===== src/Reconnect/Policy.antt =====
-- internal/signal/reconnect.go: ReconnectPolicy and its backoff. A time.Duration is an int64 of
-- nanoseconds: its bit pattern, below 2^64.
use go_signal.Base.{ℕ, zero, suc, ◌+◌, ◌-◌, ◌*◌, ◌%◌, ◌^◌, Bool, ltb, if◌then◌else◌}

pub record ReconnectPolicy : Type 0 where
  pub max_attempts : ℕ
  pub initial_backoff : ℕ
  pub max_backoff : ℕ

-- a < b on int64
unfoldable pub lt_int64 : ℕ → ℕ → Bool
lt_int64 a b = ltb ((a + 2 ^ 63) % 2 ^ 64) ((b + 2 ^ 63) % 2 ^ 64)

-- The loop with `rounds` = n - i rounds left.
unfoldable pub doubled : ℕ → ℕ → ℕ → ℕ
unfolding lt_int64
doubled zero limit delay = delay
doubled (suc rounds) limit delay =
    let rest = doubled rounds limit (delay * 2 % 2 ^ 64) in
    if lt_int64 delay limit then rest else delay

-- ReconnectPolicy.backoff
unfoldable pub backoff : ReconnectPolicy → ℕ → ℕ
unfolding doubled
backoff p n =
    let delay = doubled (n - 1) p.max_backoff p.initial_backoff in
    if lt_int64 delay p.max_backoff then delay else p.max_backoff

-- The ReconnectPolicy of the signalmeow-backed client: 2 s up to a minute, five times.
abbrev pub default_policy : ReconnectPolicy
default_policy = record {
  max_attempts = 5;
  initial_backoff = 2_000_000_000;
  max_backoff = 60_000_000_000;
}
