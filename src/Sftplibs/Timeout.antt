-- ===== src/Sftplibs/Timeout.antt =====
-- CalculateTimeout of sftplibs/sftplibs.go.
use ugoku.Base.{
  ◌↔◌, ℕ, ◌*◌, ◌%◌, ◌/◌, ◌^◌, ◌≤◌, ◌<◌, ◌≡◌, ◌⊎◌, inl, inr, ◌≢◌, true, false, Bool-cases, ℤ, pos,
  ltb_ℤ, eqb_ℤ, mul64, div64, wrap64, wrap64_pos, ltb, leb, Option, none, some, arith,
  if◌then◌else◌,
}

timeout_for : ℤ → ℤ → ℤ
timeout_for max_timeout timeout =
    if ltb_ℤ timeout max_timeout
    then (if ltb_ℤ timeout (pos 60) then pos 60 else timeout)
    else max_timeout

from_quotient : ℤ → Option ℤ → Option ℤ
unfolding timeout_for
from_quotient max_timeout none = none
from_quotient max_timeout (some timeout) = some (timeout_for max_timeout timeout)

-- In seconds. `none` is the run-time panic of a division by zero.
unfoldable pub calculate_timeout : ℤ → ℤ → ℤ → Option ℤ
unfolding from_quotient
calculate_timeout throughput size max_timeout =
    from_quotient max_timeout (div64 size (mul64 throughput (pos 125000)))

-- The size divided by the bytes per second.
abbrev pub estimate : ℕ → ℕ → ℕ
estimate throughput size = size / (throughput * 125000)

scale : (t : ℕ) → t * 125000 < 2 ^ 63 → mul64 (pos t) (pos 125000) ≡ pos (t * 125000)
scale t h = wrap64_pos (t * 125000) h

div_small : (s d : ℕ) → 0 < d → s < 2 ^ 63 → div64 (pos s) (pos d) ≡ some (pos (s / d))
div_small s d p h = ground (arith, wrap64_pos (s / d))

-- For a throughput from 1 to 2^63 / 125000, a file size below 2^63 and a limit below 2^63, nothing
-- overflows and the limit in seconds is: the configured maximum, if the estimate is not below it;
-- otherwise the estimate, but at least 60.
pub calculate_timeout_value :
    (throughput size max_timeout : ℕ)
    → 0 < throughput
    → throughput * 125000 < 2 ^ 63
    → size < 2 ^ 63
    → calculate_timeout (pos throughput) (pos size) (pos max_timeout)
      ≡ some (
          pos (
            if leb max_timeout (estimate throughput size)
            then max_timeout
            else if ltb (estimate throughput size) 60
            then 60
            else estimate throughput size))
unfolding calculate_timeout
calculate_timeout_value t s m p h k =
    rw (scale t h, div_small s (t * 125000) (omega arith) k) (ground arith)

-- For a throughput from 1 to 2^63 / 125000 and a file size below 2^63, the computed limit stays
-- within the configured maximum exactly when that maximum is at least 60 or the estimate reaches
-- it.
pub calculate_timeout-le-max :
    (throughput size max_timeout r : ℕ)
    → 0 < throughput
    → throughput * 125000 < 2 ^ 63
    → size < 2 ^ 63
    → calculate_timeout (pos throughput) (pos size) (pos max_timeout) ≡ some (pos r)
    → (r ≤ max_timeout) ↔ ((60 ≤ max_timeout) ⊎ (max_timeout ≤ estimate throughput size))
calculate_timeout-le-max t s m r p h k e = ground (arith, calculate_timeout_value t s m p h k)

-- A product with 125000 vanishes modulo 2^64 at the multiples of 2^61.
wrap_zero : (t : ℕ) → eqb_ℤ (mul64 (pos t) (pos 125000)) (pos 0) ≡ true → t % 2 ^ 61 ≡ 0
unfolding wrap64
wrap_zero t h = ground arith

wrap_nonzero : (t : ℕ) → eqb_ℤ (mul64 (pos t) (pos 125000)) (pos 0) ≡ false → t % 2 ^ 61 ≢ 0
unfolding wrap64
wrap_nonzero t h = ground arith

-- For a throughput that is not negative the call panics, with a division by zero, exactly when the
-- throughput is a multiple of 2^61: 0, or a value whose product with 125000 wraps around to 0.
pub calculate_timeout_panics :
    (throughput : ℕ) (size max_timeout : ℤ)
    → (calculate_timeout (pos throughput) size max_timeout ≡ none) ↔ (throughput % 2 ^ 61 ≡ 0)
unfolding calculate_timeout
calculate_timeout_panics t s m = elim (Bool-cases (eqb_ℤ (mul64 (pos t) (pos 125000)) (pos 0))) [
  | inl e ↦ (λ _. wrap_zero t e, λ _. rw (e, calculate_timeout))
  | inr e ↦ (λ h. cc (rw (e, calculate_timeout) at h), λ z. absurd (wrap_nonzero t e z))
]
