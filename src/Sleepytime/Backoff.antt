-- ===== src/Sleepytime/Backoff.antt =====
-- The sequence of sleeps of internal/sleepytime/sleepytime.go.
use native.Mathlib.Nat.{pow-suc}
use ugoku.Base.{
  ℕ, zero, suc, ◌*◌, ◌/◌, ◌^◌, ◌≤◌, ◌<◌, ◌≡◌, refl, ℤ, pos, wrap64_pos, ltb, ◌∙◌, ◌≤ℤ◌, arith,
  if◌then◌else◌,
}
use ugoku.Sleepytime.{Sleepytime, reset, get_next_sleep}

-- The state after n calls.
unfoldable pub calls : ℕ → Sleepytime → Sleepytime
calls zero s = s
calls (suc n) s = (get_next_sleep (calls n s)).0

-- What the call after n calls returns.
abbrev pub sleep_at : ℕ → Sleepytime → ℤ
sleep_at n s = (get_next_sleep (calls n s)).1

abbrev pub backoff : ℕ → ℕ → ℕ → ℕ
backoff i m n = if ltb (i * 2 ^ n) (m / 2) then i * 2 ^ suc n else m

calls_fields :
    (i m n : ℕ)
    → m < 2 ^ 63
    → ((calls n (reset (pos i) (pos m))).max_sleep ≡ pos m)
      × ((calls n (reset (pos i) (pos m))).half_sleep ≡ pos (m / 2))
unfolding calls reset get_next_sleep
calls_fields i m zero h = ground arith
calls_fields i m (suc n) h = ground (arith, calls_fields i m n h)

next_double :
    (s : Sleepytime) (i m : ℕ)
    → m < 2 ^ 63
    → s.next_sleep ≡ pos i
    → s.max_sleep ≡ pos m
    → s.half_sleep ≡ pos (m / 2)
    → (get_next_sleep s).1 ≡ pos (if ltb i (m / 2) then i * 2 else m)
unfolding get_next_sleep
next_double s i m h n x hs = rw (n, x, hs) (ground (arith, wrap64_pos (i * 2)))

start : (i m : ℕ) → (calls zero (reset (pos i) (pos m))).next_sleep ≡ pos i
unfolding calls reset
start i m = refl

state_next : (s : Sleepytime) → (get_next_sleep s).0.next_sleep ≡ (get_next_sleep s).1
unfolding get_next_sleep
state_next s = ground arith

after :
    (i m n : ℕ)
    → (calls (suc n) (reset (pos i) (pos m))).next_sleep ≡ sleep_at n (reset (pos i) (pos m))
unfolding calls
after i m n = state_next (calls n (reset (pos i) (pos m)))

lt_two_pow : (n : ℕ) → n < 2 ^ n
lt_two_pow zero = omega arith
lt_two_pow (suc n) = rw pow-suc (omega (arith, lt_two_pow n))

-- i * 2^n exceeds n, and is at least i.
pow_big : (i n : ℕ) → 0 < i → (n < i * 2 ^ n) × (i ≤ i * 2 ^ n)
pow_big i n p = grind (arith, lt_two_pow n)

double_step : (i n : ℕ) → i * 2 ^ suc n ≡ i * 2 ^ n * 2
double_step i n = rw pow-suc (omega arith)

-- After a reset with initial time i and maximum m below 2^63, the call number n (from 0) returns
-- i * 2^(n + 1) while i * 2^n is below m / 2, and m from then on.
pub sleep_at-backoff :
    (i m n : ℕ) → m < 2 ^ 63 → sleep_at n (reset (pos i) (pos m)) ≡ pos (backoff i m n)
sleep_at-backoff i m zero h =
    let (x, hs) = calls_fields i m zero h in
    next_double _ i m h (start i m) x hs ∙ ground (arith, double_step i 0)
sleep_at-backoff i m (suc n) h =
    let (x, hs) = calls_fields i m (suc n) h in
    next_double _ (backoff i m n) m h (after i m n ∙ sleep_at-backoff i m n h) x hs
    ∙ ground (arith, double_step i n, double_step i (suc n))

-- After a reset with initial time i and maximum m, where 0 < i ≤ m < 2^63, every sleep is between 1
-- and m and no longer than the next one.
pub backoff_bounds :
    (i m n : ℕ)
    → 0 < i
    → i ≤ m
    → m < 2 ^ 63
    → (pos 1 ≤ℤ sleep_at n (reset (pos i) (pos m)))
      × (sleep_at n (reset (pos i) (pos m)) ≤ℤ pos m)
      × (sleep_at n (reset (pos i) (pos m)) ≤ℤ sleep_at (suc n) (reset (pos i) (pos m)))
backoff_bounds i m n p q h =
    rw (sleep_at-backoff i m n h, sleep_at-backoff i m (suc n) h)
      (ground (arith, double_step i n, double_step i (suc n), pow_big i n p))

-- From the call number m on the sleep is m: the back-off reaches its ceiling.
pub backoff_ceiling :
    (i m n : ℕ) → 0 < i → m < 2 ^ 63 → m ≤ n → sleep_at n (reset (pos i) (pos m)) ≡ pos m
backoff_ceiling i m n p h q = sleep_at-backoff i m n h ∙ ground (arith, pow_big i n p)
