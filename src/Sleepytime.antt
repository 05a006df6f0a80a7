-- ===== src/Sleepytime.antt =====
-- internal/sleepytime/sleepytime.go
pub mod Backoff
use ugoku.Base.{ℤ, pos, ltb_ℤ, mul64, quotient, if◌then◌else◌}

pub record Sleepytime : Type 0 where
  pub next_sleep : ℤ
  pub max_sleep : ℤ
  pub half_sleep : ℤ

-- Every field is overwritten, so the receiver's old state does not matter.
unfoldable pub reset : ℤ → ℤ → Sleepytime
reset initial_time max_time = record {
  next_sleep = initial_time;
  max_sleep = max_time;
  half_sleep = quotient max_time (pos 2);
}

-- The new state and the returned seconds.
unfoldable pub get_next_sleep : Sleepytime → Sleepytime × ℤ
get_next_sleep s =
    let next =
      if ltb_ℤ s.next_sleep s.half_sleep then mul64 s.next_sleep (pos 2) else s.max_sleep in
    (record s { next_sleep = next }, next)
