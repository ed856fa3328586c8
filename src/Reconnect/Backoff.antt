-- ===== src/Reconnect/Backoff.antt =====
-- The delay before a restart.
use native.Mathlib.Nat.{pow-suc}
use go_signal.Base.{
  ℕ, zero, suc, ◌-◌, ◌*◌, ◌%◌, ◌^◌, ◌<◌, ◌≤◌, ◌≡◌, min, ltb, arith, Bool-cases, inl, inr,
}
use go_signal.Reconnect.Policy.{ReconnectPolicy, lt_int64, doubled, backoff}

lt_int64_small : (a b : ℕ) → a < 2 ^ 63 → b < 2 ^ 63 → lt_int64 a b ≡ ltb a b
unfolding lt_int64
lt_int64_small a b h k = ground arith

grows : (d k : ℕ) → d ≤ d * 2 ^ k
grows d zero = omega arith
grows d (suc k) = rw (pow-suc 2 k) (omega (arith, grows d k))

twice_pow : (d k : ℕ) → d * 2 ^ suc k ≡ d * 2 * 2 ^ k
twice_pow d k = rw (pow-suc 2 k) (omega arith)

-- While the limit is below 2^62 the doubling does not overflow.
doubled-min :
    (k limit d : ℕ)
    → limit < 2 ^ 62
    → d < 2 ^ 63
    → (min (doubled k limit d) limit ≡ min (d * 2 ^ k) limit) × (doubled k limit d < 2 ^ 63)
unfolding doubled
doubled-min zero limit d h b = omega arith
doubled-min (suc k) limit d h b = elim (Bool-cases (ltb d limit)) [
  | inl low ↦
      let lt : d < limit = ground arith in
      let e : d * 2 % 2 ^ 64 ≡ d * 2 = omega arith in
      let ih = doubled-min k limit (d * 2) h (omega arith) in
      rw (lt_int64_small d limit b (omega arith), low, e) (omega (arith, twice_pow d k, ih.0), ih.1)
  | inr high ↦
      let le : limit ≤ d = ground arith in
      rw (lt_int64_small d limit b (omega arith), high) (omega (arith, grows d (suc k)), b)
]

-- The delay before restart attempt n = k + 1: the initial backoff doubled k times, and at most the
-- maximal one, provided that this is below 2^62 ns (146 years) and the initial one below 2^63.
pub backoff-min :
    (p : ReconnectPolicy) (k : ℕ)
    → p.max_backoff < 2 ^ 62
    → p.initial_backoff < 2 ^ 63
    → backoff p (suc k) ≡ min (p.initial_backoff * 2 ^ k) p.max_backoff
unfolding backoff
backoff-min p k h b =
    let e : suc k - 1 ≡ k = omega arith in
    let d = doubled-min k p.max_backoff p.initial_backoff h b in
    rw
      (
        e,
        lt_int64_small (doubled k p.max_backoff p.initial_backoff) p.max_backoff d.1 (omega arith),
      )
      (ground (arith, d.0))
