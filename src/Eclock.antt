-- ===== src/Eclock.antt =====
-- dkftpbench-0.45/eclock.h: comparing clock readings that wrap. A `clock_t` is its 64-bit pattern,
-- a number below 2^64; the subtraction wraps, as `long` does on the program's platforms.
pub mod Window
use c10kcode.Common.{ℕ, ◌+◌, ◌-◌, ◌%◌, ◌^◌, Bool, ◌&&◌, ltb, leb}

abbrev pub word : ℕ
word = 2 ^ 64

abbrev pub half : ℕ
half = 2 ^ 63

-- `a - b` in 64 bits
abbrev pub clock_sub : ℕ → ℕ → ℕ
clock_sub a b = (a + word - b) % word

-- `a + b` in 64 bits
abbrev pub clock_add : ℕ → ℕ → ℕ
clock_add a b = (a + b) % word

-- `(long)(a - b) > 0`
unfoldable pub eclock_after : ℕ → ℕ → Bool
eclock_after a b = ltb 0 (clock_sub a b) && ltb (clock_sub a b) half

-- `(long)(a - b) < 0`
pub eclock_before : ℕ → ℕ → Bool
eclock_before a b = leb half (clock_sub a b)

-- `eclock_hertz()`, the readings per second
abbrev pub hertz : ℕ
hertz = 10000
