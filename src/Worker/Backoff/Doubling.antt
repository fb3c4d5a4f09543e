-- ===== src/Worker/Backoff/Doubling.antt =====
-- internal/ems/worker/backoff.go: the sequence of delays of a worker that keeps crashing.
use lte_element_manager.Prelude.{
  ℕ, zero, suc, List, [], ◌∷◌, All, length, ◌*◌, ◌≡◌, ◌≤◌, ◌<◌, ◌∙◌, ap, false, if◌then◌else◌, leb,
  arith,
}
use lte_element_manager.Prelude.Int.{ℤ, pos, leb_ℤ}
use lte_element_manager.Worker.Backoff.{
  ExponentialBackoff, double, next_cur, next, add_int, int_bound,
}

abbrev pub backoff : ℕ → ℕ → ℤ → ℤ → ExponentialBackoff
backoff base max reset_after cur = record {
  base = pos base;
  max = pos max;
  reset_after = reset_after;
  cur = cur;
}

abbrev pub no_jitter : ℤ → ℤ
no_jitter d = pos 0

-- The backoff after crashes, the latest first, each given by the uptime before it.
unfoldable pub after_crashes : ExponentialBackoff → List ℤ → ExponentialBackoff
after_crashes b [] = b
after_crashes b (uptime ∷ uptimes) = (next no_jitter (after_crashes b uptimes) uptime).0

-- A number doubled some times.
unfoldable pub doubled : ℕ → ℕ → ℕ
doubled base zero = base
doubled base (suc n) = 2 * doubled base n

abbrev pub min_nat : ℕ → ℕ → ℕ
min_nat a b = if leb a b then a else b

doubled_positive : (base n : ℕ) → 0 < base → 0 < doubled base n
unfolding doubled
doubled_positive base zero h = h
doubled_positive base (suc n) h = ground (arith, doubled_positive base n h)

double_small : (n : ℕ) → 2 * n < int_bound → double (pos n) ≡ pos (2 * n)
unfolding double
double_small n h = ground arith

cur_first : (base max : ℕ) (r u : ℤ) → next_cur (backoff base max r (pos 0)) u ≡ pos base
unfolding next_cur
cur_first base max r u = ground arith

cur_later :
    (base max d : ℕ) (r u : ℤ)
    → 0 < d
    → 0 < max
    → 2 * max < int_bound
    → leb_ℤ r u ≡ false
    → next_cur (backoff base max r (pos (min_nat d max))) u ≡ pos (min_nat (2 * d) max)
unfolding next_cur
cur_later base max d r u hd hm hb s =
    rw (s, double_small (min_nat d max) (ground arith)) (ground arith)

cur_after :
    (base max : ℕ) (r u : ℤ) (us : List ℤ)
    → 0 < base
    → base ≤ max
    → 2 * max < int_bound
    → All (λ u. leb_ℤ r u ≡ false) (u ∷ us)
    → after_crashes (backoff base max r (pos 0)) (u ∷ us)
      ≡ backoff base max r (pos (min_nat (doubled base (length us)) max))
unfolding after_crashes next doubled
cur_after base max r u [] hb hm hi s =
    ap (backoff base max r) (cur_first base max r u ∙ ap pos (ground arith))
cur_after base max r u (v ∷ us) hb hm hi s =
    ap (λ b. (next no_jitter b u).0) (cur_after base max r v us hb hm hi s.1)
    ∙ ap (backoff base max r) (
        cur_later base max (doubled base (length us)) r u (doubled_positive base (length us) hb)
          (omega arith) hi s.0)

add_zero : (n : ℕ) → n < int_bound → add_int (pos n) (pos 0) ≡ pos n
unfolding add_int
add_zero n h = ground arith

-- Without jitter, if the base delay is positive and at most the maximum, and twice the maximum is
-- an int64: after crashes of a worker whose uptimes were all below the reset time, the delay that
-- follows is the base delay doubled once for each earlier crash, or the maximum if that is less.
pub delay_doubles :
    (base max : ℕ) (r u : ℤ) (us : List ℤ)
    → 0 < base
    → base ≤ max
    → 2 * max < int_bound
    → All (λ u. leb_ℤ r u ≡ false) (u ∷ us)
    → (next no_jitter (after_crashes (backoff base max r (pos 0)) us) u).1
      ≡ pos (min_nat (doubled base (length us)) max)
unfolding next after_crashes
delay_doubles base max r u us hb hm hi s =
    ap (λ b. add_int b.cur (pos 0)) (cur_after base max r u us hb hm hi s)
    ∙ add_zero (min_nat (doubled base (length us)) max) (ground arith)
