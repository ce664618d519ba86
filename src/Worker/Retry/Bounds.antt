-- ===== src/Worker/Retry/Bounds.antt =====
-- The delays between attempts.
use Prim.Native.Nat.{min}
use native.Mathlib.Nat.{pow-suc}
use ss.Prelude.{refl, ◌+◌, ℕ, zero, suc, ◌-◌, ◌*◌, ◌^◌, ◌≤◌, ◌≡◌, arith, nat_eq, if◌then◌else◌}
use ss.Worker.Retry.{backoff_seconds}

doubled : (base n : ℕ) → base * 2 ^ suc n ≡ 2 * (base * 2 ^ n)
doubled base n = rw pow-suc (grind arith)

-- The delay never passes the cap (the base where no cap is set), and the next attempt waits at least
-- as long and at most twice as long.
pub backoff_seconds_bounds :
    (attempt base most : ℕ)
    → (backoff_seconds attempt base most ≤ (if nat_eq most 0 then base else most))
      × (backoff_seconds attempt base most ≤ backoff_seconds (suc attempt) base most)
      × (backoff_seconds (suc attempt) base most ≤ 2 * backoff_seconds attempt base most)
unfolding backoff_seconds
backoff_seconds_bounds zero base most =
    let e₀ : zero - 1 ≡ 0 = omega arith in
    let e₁ : suc zero - 1 ≡ 0 = omega arith in rw (e₀, e₁) (ground arith)
backoff_seconds_bounds (suc n) base most =
    let e₀ : suc n - 1 ≡ n = omega arith in
    let e₁ : suc (suc n) - 1 ≡ suc n = omega arith in rw (e₀, e₁) (ground (arith, doubled base n))

-- The first delay is the base, and each next one, up to attempt 1024, is twice the one before, all
-- of them cut off at the cap (at the base where no cap is set); attempt 0 waits as attempt 1 does.
pub backoff_seconds_doubles :
    (n base most : ℕ)
    → n + 2 ≤ 1024
    → let cap = if nat_eq most 0 then base else most in
      (backoff_seconds 0 base most ≡ min base cap)
      × (backoff_seconds 1 base most ≡ min base cap)
      × (backoff_seconds (n + 2) base most ≡ min (2 * backoff_seconds (n + 1) base most) cap)
unfolding backoff_seconds
backoff_seconds_doubles n base most few =
    let e₁ : n + 1 - 1 ≡ n = omega arith in
    let e₂ : n + 2 - 1 ≡ suc n = omega arith in
    let one : 2 ^ 0 ≡ 1 = refl in
    (ground arith, ground arith, rw (e₁, e₂) (ground (arith, doubled base n)))
