-- ===== src/CText/Decimal.antt =====
-- Printing a number and reading it back.
use c10kcode.Common.{
  ℕ, zero, suc, ◌+◌, ◌-◌, ◌*◌, ◌/◌, ◌%◌, ◌≤◌, ◌<◌, ◌≡◌, refl, sym, ◌∙◌, ap, true, false, some, List,
  [], ◌∷◌, ◌++◌, arith, ltb, ◌==◌, Bool-cases, inl, inr, ltb→lt, ltb→le, lt→ltb, length,
}
use c10kcode.CText.{pos, is_digit, is_space, digits, scan_int, decimal_loop, decimal}

-- No digit at the front.
abbrev pub NoDigit : List ℕ → Type 0
NoDigit [] = Unit {0}
NoDigit (c ∷ cs) = is_digit c ≡ false

digits-NoDigit : (m : ℕ) (rest : List ℕ) → NoDigit rest → digits m rest ≡ (m, rest)
unfolding digits
digits-NoDigit m [] h = refl
digits-NoDigit m (c ∷ cs) h = rw h

digits-cons : (m d : ℕ) (cs : List ℕ) → d < 10 → digits m ((b'0' + d) ∷ cs) ≡ digits (m * 10 + d) cs
unfolding digits
digits-cons m d cs h =
    let digit : is_digit (b'0' + d) ≡ true = ground arith in
    let e : m * 10 + (b'0' + d - b'0') ≡ m * 10 + d = omega arith in
    rw digit (ap (λ k. digits k cs) e)

-- Reading the digits printed for `n` is going on behind the number `n`.
digits-decimal_loop :
    (fuel n : ℕ) (cs : List ℕ) → n < fuel → digits 0 (decimal_loop fuel n cs) ≡ digits n cs
unfolding decimal_loop
digits-decimal_loop zero n cs f = absurd (omega arith)
digits-decimal_loop (suc fuel) n cs f = elim (Bool-cases (ltb n 10)) [
  | inl small ↦
      let e : 0 * 10 + n ≡ n = omega arith in
      rw small (digits-cons 0 n cs (ltb→lt _ _ small) ∙ ap (λ k. digits k cs) e)
  | inr large ↦
      let e : n / 10 * 10 + n % 10 ≡ n = omega arith in
      rw large (
        digits-decimal_loop fuel (n / 10) ((b'0' + n % 10) ∷ cs) (omega (arith, ltb→le _ _ large))
        ∙ digits-cons (n / 10) (n % 10) cs (omega arith)
        ∙ ap (λ k. digits k cs) e)
]

decimal_loop-append :
    (fuel n : ℕ) (cs rest : List ℕ)
    → decimal_loop fuel n cs ++ rest ≡ decimal_loop fuel n (cs ++ rest)
unfolding decimal_loop
decimal_loop-append zero n cs rest = refl
decimal_loop-append (suc fuel) n cs rest =
    ground (arith, decimal_loop-append fuel (n / 10) ((b'0' + n % 10) ∷ cs) rest)

-- What is printed begins with a digit.
decimal_loop-head :
    (fuel n : ℕ) (cs : List ℕ)
    → n < fuel
    → (c : ℕ) × (more : List ℕ) × (decimal_loop fuel n cs ≡ c ∷ more) × (is_digit c ≡ true)
unfolding decimal_loop
decimal_loop-head zero n cs f = absurd (omega arith)
decimal_loop-head (suc fuel) n cs f = elim (Bool-cases (ltb n 10)) [
  | inl small ↦ (b'0' + n, cs, rw small, ground arith)
  | inr large ↦
      let (c, more, e, d) =
        decimal_loop-head fuel (n / 10) ((b'0' + n % 10) ∷ cs) (omega (arith, ltb→le _ _ large)) in
      (c, more, rw large e, d)
]

scan_int-digits :
    (c : ℕ) (cs : List ℕ)
    → is_digit c ≡ true
    → scan_int (c ∷ cs) ≡ some (pos (digits 0 (c ∷ cs)).0, (digits 0 (c ∷ cs)).1)
unfolding scan_int
scan_int-digits c cs d =
    let blank : is_space c ≡ false = ground arith in
    let minus : (c == b'-') ≡ false = ground arith in
    let plus : (c == b'+') ≡ false = ground arith in rw (blank, minus, plus, d)

-- A number printed by `%d` is read back by `%d`, with what follows it.
pub scan_int-decimal :
    (n : ℕ) (rest : List ℕ) → NoDigit rest → scan_int (decimal n ++ rest) ≡ some (pos n, rest)
unfolding decimal
scan_int-decimal n rest h =
    let (c, more, e, d) = decimal_loop-head (suc n) n rest (omega arith) in
    let read : digits 0 (c ∷ more) ≡ (n, rest) =
      ap (digits 0) (sym e)
      ∙ digits-decimal_loop (suc n) n rest (omega arith)
      ∙ digits-NoDigit n rest h in
    ap scan_int (decimal_loop-append (suc n) n [] rest ∙ e)
    ∙ scan_int-digits c more d
    ∙ ap (λ r. some (pos r.0, r.1)) read

-- 10 to the power k.
abbrev pub power_of_ten : ℕ → ℕ
power_of_ten zero = 1
power_of_ten (suc k) = 10 * power_of_ten k

decimal_loop-length :
    (k fuel n : ℕ) (cs : List ℕ)
    → n < fuel
    → n < power_of_ten (suc k)
    → length (decimal_loop fuel n cs) ≤ suc k + length cs
unfolding decimal_loop
decimal_loop-length k zero n cs f h = absurd (omega arith)
decimal_loop-length zero (suc fuel) n cs f h =
    let small : ltb n 10 ≡ true = lt→ltb n 10 (omega arith) in rw small (omega arith)
decimal_loop-length (suc k) (suc fuel) n cs f h = elim (Bool-cases (ltb n 10)) [
  | inl small ↦ rw small (omega arith)
  | inr large ↦
      let ih =
        decimal_loop-length k fuel (n / 10) ((b'0' + n % 10) ∷ cs) (omega (arith, ltb→le _ _ large))
          (omega arith) in
      rw large (omega (arith, ih))
]

pub decimal-length : (k n : ℕ) → n < power_of_ten (suc k) → length (decimal n) ≤ suc k
unfolding decimal
decimal-length k n h = omega (arith, decimal_loop-length k (suc n) n [] (omega arith) h)

-- Digits only.
abbrev pub AllDigits : List ℕ → Type 0
AllDigits [] = Unit {0}
AllDigits (c ∷ cs) = (is_digit c ≡ true) × AllDigits cs

decimal_loop-AllDigits :
    (fuel n : ℕ) (cs : List ℕ) → AllDigits cs → AllDigits (decimal_loop fuel n cs)
unfolding decimal_loop
decimal_loop-AllDigits zero n cs h = h
decimal_loop-AllDigits (suc fuel) n cs h = elim (Bool-cases (ltb n 10)) [
  | inl small ↦ let d : is_digit (b'0' + n) ≡ true = ground arith in rw small (d, h)
  | inr large ↦
      let d : is_digit (b'0' + n % 10) ≡ true = ground arith in
      rw large (decimal_loop-AllDigits fuel (n / 10) ((b'0' + n % 10) ∷ cs) (d, h))
]

pub decimal-AllDigits : (n : ℕ) → AllDigits (decimal n)
unfolding decimal
decimal-AllDigits n = decimal_loop-AllDigits (suc n) n [] tt
