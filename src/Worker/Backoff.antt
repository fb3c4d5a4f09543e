-- ===== src/Worker/Backoff.antt =====
-- internal/ems/worker/backoff.go: the delay before the next restart of a worker. A
-- `time.Duration` is an int64, and the doubling of `Next` wraps around as it does. The jitter is
-- random and computed in floats: it is an argument, the addition to a delay, 0 if `Jitter` is not
-- positive.
pub mod Doubling
use lte_element_manager.Prelude.{
  ℕ, ◌+◌, ◌-◌, ◌*◌, ◌%◌, ◌^◌, ◌≡◌, refl, Bool, true, false, if◌then◌else◌, ltb, leb, nat_beq,
}
use lte_element_manager.Prelude.Int.{ℤ, pos, negsuc, leb_ℤ, ltb_ℤ}

pub record ExponentialBackoff : Type 0 where
  pub base : ℤ
  pub max : ℤ
  pub reset_after : ℤ
  pub cur : ℤ

abbrev pub second : ℕ
second = 1_000_000_000

-- `NewExponentialBackoff`
unfoldable pub new_exponential_backoff : ℤ → ℤ → ℤ → ExponentialBackoff
new_exponential_backoff base max reset_after = record {
  base = if leb_ℤ base (pos 0) then pos second else base;
  max = if leb_ℤ max (pos 0) then pos (30 * second) else max;
  reset_after = if leb_ℤ reset_after (pos 0) then pos (30 * second) else reset_after;
  cur = pos 0;
}

abbrev pub int_bound : ℕ
int_bound = 2 ^ 63

-- The int64 with the two's complement bits of a number.
abbrev pub of_bits : ℕ → ℤ
of_bits n = let m = n % 2 ^ 64 in if ltb m int_bound then pos m else negsuc (2 ^ 64 - m - 1)

-- `cur *= 2` in int64
unfoldable pub double : ℤ → ℤ
double (pos n) = of_bits (2 * n)
double (negsuc n) = of_bits (2 ^ 64 - (2 * n + 2) % 2 ^ 64)

abbrev pub is_zero : ℤ → Bool
is_zero (pos n) = nat_beq n 0
is_zero (negsuc n) = false

-- The current delay that `Next` arrives at.
unfoldable pub next_cur : ExponentialBackoff → ℤ → ℤ
unfolding double
next_cur b uptime =
    let cur = if leb_ℤ b.reset_after uptime then pos 0 else b.cur in
    if is_zero cur then b.base else if ltb_ℤ b.max (double cur) then b.max else double cur

-- The sum of two int64.
unfoldable pub add_int : ℤ → ℤ → ℤ
add_int (pos m) (pos n) = of_bits (m + n)
add_int (pos m) (negsuc n) = of_bits (m + (2 ^ 64 - n - 1))
add_int (negsuc m) (pos n) = of_bits (2 ^ 64 - m - 1 + n)
add_int (negsuc m) (negsuc n) = of_bits (2 ^ 64 - m - 1 + (2 ^ 64 - n - 1))

-- `Next`; `jitter` is the addition to a delay.
unfoldable pub next : (ℤ → ℤ) → ExponentialBackoff → ℤ → ExponentialBackoff × ℤ
unfolding next_cur add_int
next jitter b uptime =
    let cur = next_cur b uptime in (record b { cur = cur }, add_int cur (jitter cur))
