-- ===== src/Pipe/Data/Throttle.antt =====
-- dkftpbench-0.45/ftp_client_pipe.cc: how fast data is read.
use native.Mathlib.Omega.{div_any}
use native.Mathlib.Nat.{mod-lt, mul-le-mul_left, le-mul_of_pos_right}
use c10kcode.Common.{
  ℕ, ◌+◌, ◌-◌, ◌*◌, ◌/◌, ◌%◌, ◌^◌, ◌≤◌, ◌<◌, ◌≡◌, refl, false, arith, Bool-cases, inl, inr, leb,
  ltb, ◌==◌, ◌⊎◌,
}
use c10kcode.Eclock.{hertz}
use c10kcode.Pipe.{returned}
use c10kcode.Pipe.Data.{sleep_for}

-- The bytes are those that are slept for and those that are left. The sleep is long enough for the
-- former, and the latter are few.
pub record IsSettled (bytes_per_sec bytes_per_tick nxfer howlong left : ℕ) : Type 0 where
  pub slept : ℕ
  pub all_bytes : slept + left ≡ nxfer
  pub long_enough : slept * hertz ≤ howlong * bytes_per_sec
  pub few_left : left ≤ bytes_per_tick + 1
  pub short : howlong < 2 ^ 31

fast :
    (bps nxfer : ℕ)
    → 5 ≤ bps / hertz
    → nxfer < 2 ^ 31
    → IsSettled bps (bps / hertz) nxfer (nxfer / (bps / hertz)) (nxfer % (bps / hertz))
fast bps nxfer h fits =
    let bpt : ℕ = bps / hertz in
    let w : ℕ = nxfer / bpt in
    let few : nxfer % bpt < bpt = mod-lt nxfer (omega (arith, h)) in
    record {
      slept = bpt * (nxfer / bpt);
      all_bytes = div_any nxfer bpt;
      long_enough =
          let one_tick : bpt * hertz ≤ bps = omega arith in
          omega (arith, mul-le-mul_left w one_tick);
      few_left = omega (arith, few);
      short =
          let positive : 0 < bpt = omega (arith, h) in
          omega (arith, le-mul_of_pos_right w positive, div_any nxfer bpt);
    }

slow :
    (bps nxfer : ℕ)
    → 0 < bps
    → nxfer * hertz < 2 ^ 31
    → IsSettled bps
        (bps / hertz)
        nxfer
        (nxfer * hertz / bps)
        (nxfer - nxfer * hertz / bps * bps / hertz)
slow bps nxfer h fits =
    let w : ℕ = nxfer * hertz / bps in
    let part : nxfer * hertz % bps < bps = mod-lt (nxfer * hertz) h in
    let whole : bps * w + nxfer * hertz % bps ≡ nxfer * hertz = div_any (nxfer * hertz) bps in
    record {
      slept = w * bps / hertz;
      all_bytes = omega (arith, part, whole);
      long_enough = omega (arith, part, whole);
      few_left = omega (arith, part, whole);
      short = omega (arith, le-mul_of_pos_right w h, whole);
    }

-- The bytes are few enough for the `int` arithmetic of the throttle.
abbrev pub FitsInt : ℕ → ℕ → Type 0
FitsInt bytes_per_tick nxfer = (nxfer < 2 ^ 31) × (nxfer * hertz < 2 ^ 31 ⊎ 5 ≤ bytes_per_tick)

-- Where the rate is positive and the arithmetic fits, the throttle is defined. The bytes that it
-- accounts for take at least as long, at the rate of bytes per second, as it lets pass; the others,
-- at most one tick's bytes and one, are what is left for the next time.
pub sleep_for-IsSettled :
    (bytes_per_sec nxfer : ℕ)
    → 0 < bytes_per_sec
    → FitsInt (bytes_per_sec / hertz) nxfer
    → (howlong left : ℕ) × (sleep_for bytes_per_sec (bytes_per_sec / hertz) nxfer
        ≡ returned (howlong, left))
      × IsSettled bytes_per_sec (bytes_per_sec / hertz) nxfer howlong left
unfolding sleep_for
sleep_for-IsSettled bytes_per_sec nxfer h (in_range, fits) =
    let small : leb (2 ^ 31) nxfer ≡ false = ground arith in
    elim (Bool-cases (ltb (bytes_per_sec / hertz) 5)) [
      | inl is_slow ↦
          let positive : (bytes_per_sec == 0) ≡ false = ground arith in
          let product_fits : nxfer * hertz < 2 ^ 31 = ground arith in
          let no_overflow : leb (2 ^ 31) (nxfer * hertz) ≡ false = ground arith in
          (
            _,
            _,
            rw (small, is_slow, positive, no_overflow) refl,
            slow bytes_per_sec nxfer h product_fits,
          )
      | inr is_fast ↦
          (_, _, rw (small, is_fast) refl, fast bytes_per_sec nxfer (ground arith) in_range)
    ]
