-- ===== src/Eclock/Window.antt =====
-- Among readings that lie within half the range of the clock, `eclock_after` is an order.
use c10kcode.Common.{ℕ, ◌<◌, ◌≡◌, ltb, arith}
use c10kcode.Eclock.{word, half, clock_sub, eclock_after, eclock_before}

-- The ticks from `base` on to `w`.
abbrev pub age : ℕ → ℕ → ℕ
age base w = clock_sub w base

-- `w` is a reading at `base` or less than half the range behind it.
pub record InWindow (base w : ℕ) : Type 0 where
  pub reading : w < word
  pub near : age base w < half

-- In a window the comparison is that of the ages.
pub eclock_after-age :
    {base : ℕ} (a b : ℕ)
    → base < word
    → InWindow base a
    → InWindow base b
    → eclock_after a b ≡ ltb (age base b) (age base a)
unfolding eclock_after
eclock_after-age a b h u v = ground arith

-- And one reading is before another where the other is after it.
pub eclock_before-after :
    {base : ℕ} (a b : ℕ)
    → base < word
    → InWindow base a
    → InWindow base b
    → eclock_before a b ≡ eclock_after b a
unfolding eclock_after eclock_before
eclock_before-after a b h u v = ground arith
