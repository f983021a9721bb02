-- ===== src/Lock/Delays.antt =====
-- internal/lock/lock.go: the defaults of the options, and the delays between attempts.
use deb_s3_go.Base.{
  ℕ, zero, suc, ◌-◌, ◌*◌, ◌%◌, ◌≤◌, ◌<◌, false, ◌≡◌, ◌≢◌, ◌⊎◌, inl, inr, arith, Bool-cases,
  if◌then◌else◌, ltb, ◌==◌, ◌&&◌,
}
use deb_s3_go.Lock.{
  Options, signed_less, ungiven, or_default, options_with_defaults, double_below, retry_delay,
}

-- A delay doubled some number of times, without a bound.
abbrev pub doubled : ℕ → ℕ → ℕ
doubled zero delay = delay
doubled (suc steps) delay = doubled steps (delay * 2)

doubled-grows : (steps delay : ℕ) → delay ≤ doubled steps delay
doubled-grows zero delay = omega arith
doubled-grows (suc steps) delay = omega (arith, doubled-grows steps (delay * 2))

abbrev pub capped : ℕ → ℕ → ℕ
capped maximum delay = if ltb delay maximum then delay else maximum

pub signed_less-lt :
    (a b : ℕ) → a < 9223372036854775808 → b < 9223372036854775808 → signed_less a b ≡ ltb a b
signed_less-lt a b h k = ground arith

wrap_small : (a : ℕ) → a < 18446744073709551616 → a % 18446744073709551616 ≡ a
wrap_small a h = omega arith

-- Below 2^62 doubling does not wrap around, and both tests are those of natural numbers.
double_below-capped :
    (steps delay maximum : ℕ)
    → maximum ≤ 4611686018427387904
    → delay < 9223372036854775808
    → (if signed_less (double_below steps delay maximum) maximum
        then double_below steps delay maximum
        else maximum)
      ≡ capped maximum (doubled steps delay)
unfolding double_below
double_below-capped zero delay maximum m d = ground arith
double_below-capped (suc steps) delay maximum m d = elim (Bool-cases (signed_less delay maximum)) [
  | inl below ↦
      let small : delay < maximum = ground (arith, signed_less-lt delay maximum d (omega arith)) in
      rw (below, wrap_small (delay * 2) (omega arith))
        (double_below-capped steps (delay * 2) maximum m (omega arith))
  | inr above ↦
      let large : maximum ≤ delay = ground (arith, signed_less-lt delay maximum d (omega arith)) in
      rw (above, above) (ground (arith, doubled-grows steps (delay * 2)))
]

-- `retryDelay` doubles the initial delay once for each attempt after the first and stops at the
-- maximum, for a maximum of at most 2^62 nanoseconds (146 years), where nothing wraps around.
pub retry_delay-capped :
    (initial maximum attempt : ℕ)
    → maximum ≤ 4611686018427387904
    → initial ≤ maximum
    → retry_delay initial maximum attempt ≡ capped maximum (doubled (attempt - 1) initial)
unfolding retry_delay
retry_delay-capped initial maximum attempt m i =
    double_below-capped (attempt - 1) initial maximum m (omega arith)

or_default-bounds :
    (default a : ℕ)
    → 1 ≤ default
    → default < 9223372036854775808
    → (1 ≤ or_default default a) × (or_default default a < 9223372036854775808)
or_default-bounds default a h k = elim (Bool-cases (ungiven a)) [
  | inl e ↦ rw e (h, k)
  | inr e ↦ rw e (ground arith)
]

raised-bounds :
    (initial maximum : ℕ)
    → initial < 9223372036854775808
    → maximum < 9223372036854775808
    → (initial ≤ (if signed_less maximum initial then initial else maximum))
      × ((if signed_less maximum initial then initial else maximum) < 9223372036854775808)
raised-bounds initial maximum i m = rw (signed_less-lt maximum initial m i) (ground arith)

attempts-or-timeout :
    (a t : ℕ) → ((if (a == 0) && ungiven t then 60 else a) ≢ 0) ⊎ (ungiven t ≡ false)
attempts-or-timeout a t = elim (Bool-cases (ungiven t)) [
  | inr given ↦ inr given
  | inl ungiven ↦ inl (rw ungiven (ground arith))
]

-- With the defaults filled in, the first delay is positive and at most the largest, and the loop is
-- bounded unless the caller asked for no bound: either a number of attempts other than 0 or a
-- positive timeout is set. This holds whatever words the options are.
pub options_with_defaults-bounds :
    (o : Options)
    → (1 ≤ (options_with_defaults o).initial_backoff)
      × ((options_with_defaults o).initial_backoff ≤ (options_with_defaults o).max_backoff)
      × ((options_with_defaults o).max_backoff < 9223372036854775808)
      × (((options_with_defaults o).max_attempts ≢ 0)
          ⊎ (ungiven (options_with_defaults o).timeout ≡ false))
unfolding options_with_defaults
options_with_defaults-bounds o =
    let i = or_default-bounds 100000000 o.initial_backoff (omega arith) (omega arith) in
    let m = or_default-bounds 10000000000 o.max_backoff (omega arith) (omega arith) in
    let r =
      raised-bounds (or_default 100000000 o.initial_backoff) (or_default 10000000000 o.max_backoff)
        i.1 m.1 in
    (i.0, r.0, r.1, attempts-or-timeout o.max_attempts o.timeout)
